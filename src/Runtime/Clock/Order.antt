-- ===== src/Runtime/Clock/Order.antt =====
-- clock.rs: the frames run in step with the audio and never fall back in capture time, so
-- boundaries keep their order, also once old frames are discarded.
use parlando.Common.{
  ℕ, ◌+◌, ◌-◌, ◌≤◌, ◌≡◌, refl, Bool, not, List, [], ◌∷◌, ◌++◌, Option, none, some, ltb, arith,
  Option-cases, Bool-cases, inl, inr, ◌⊎◌,
}
use parlando.Runtime.Clock.{
  ClockFrame, TranscriptionClock, Result, ClockError, ok, err, audio_frame_duration_ms, i64_limit,
  back, next_capture, push_frame, record_frame, find_last, origin,
}

-- From a frame on, each frame starts where the one before ends, and not before it in capture time.
abbrev pub Chain : ClockFrame → List ClockFrame → ℕ → Type 0
Chain f [] end = f.audio_start_ms + audio_frame_duration_ms ≡ end
Chain f (g ∷ fs) end =
    (g.audio_start_ms ≡ f.audio_start_ms + audio_frame_duration_ms)
    × (f.capture_start_ms + audio_frame_duration_ms ≤ g.capture_start_ms)
    × Chain g fs end

abbrev pub Chains : List ClockFrame → ℕ → Type 0
Chains [] end = end ≡ 0
Chains (f ∷ fs) end = Chain f fs end

abbrev pub IsOrdered : TranscriptionClock → Type 0
IsOrdered clock = Chains clock.frames clock.audio_end_ms

-- The room that the next frame has to leave.
abbrev LeavesRoom : Option ClockFrame → ℕ → Type 0
LeavesRoom none capture = Unit
LeavesRoom (some last) capture = last.capture_start_ms + audio_frame_duration_ms ≤ capture

next_capture_room :
    (frames : List ClockFrame) (elapsed capture : ℕ)
    → next_capture frames elapsed ≡ ok capture
    → LeavesRoom (back frames) capture
next_capture_room frames elapsed capture h = elim (Option-cases (back frames)) [
  | inl e ↦ rw e tt
  | inr (last, e) ↦ rw e (ground (arith, e))
]

Chain-push :
    (f : ClockFrame) (fs : List ClockFrame) (end capture : ℕ)
    → Chain f fs end
    → LeavesRoom (back (f ∷ fs)) capture
    → Chain f
        (fs ++ record { audio_start_ms = end; capture_start_ms = capture } ∷ [])
        (end + audio_frame_duration_ms)
Chain-push f [] end capture c r = (omega (arith, c), r, refl)
Chain-push f (g ∷ fs) end capture c r =
    (c.0, c.1, Chain-push g fs end capture c.2 (room (back fs) refl))
  where
    room : (o : Option ClockFrame) → back fs ≡ o → LeavesRoom (back (g ∷ fs)) capture
    room none e = rw e (rw e at r)
    room (some last) e = rw e (rw e at r)

Chains-push :
    (frames : List ClockFrame) (end capture : ℕ)
    → Chains frames end
    → LeavesRoom (back frames) capture
    → Chains
        (frames ++ record { audio_start_ms = end; capture_start_ms = capture } ∷ [])
        (end + audio_frame_duration_ms)
Chains-push [] end capture c r = refl
Chains-push (f ∷ fs) end capture c r = Chain-push f fs end capture c r

push_frame-IsOrdered :
    (clock : TranscriptionClock) (capture : ℕ)
    → IsOrdered clock
    → LeavesRoom (back clock.frames) capture
    → (push_frame clock capture).1 ≡ ok tt
    → IsOrdered (push_frame clock capture).0
unfolding push_frame
push_frame-IsOrdered clock capture o r h =
    elim (Bool-cases (ltb (clock.audio_end_ms + audio_frame_duration_ms) i64_limit)) [
      | inl fits ↦ rw fits (Chains-push clock.frames clock.audio_end_ms capture o r)
      | inr not ↦ let wrong = rw not at h in cc
    ]

Result-cases : (r : Result ℕ) → ((e : ClockError) × (r ≡ err e)) ⊎ ((n : ℕ) × (r ≡ ok n))
Result-cases (ok n) = inr (n, refl)
Result-cases (err e) = inl (e, refl)

-- A frame that is recorded keeps the order.
pub record_frame-IsOrdered :
    (clock : TranscriptionClock) (timestamp : ℕ)
    → IsOrdered clock
    → (record_frame clock timestamp).1 ≡ ok tt
    → IsOrdered (record_frame clock timestamp).0
unfolding record_frame
record_frame-IsOrdered clock timestamp o h =
    let first = origin clock timestamp in
    elim (Bool-cases (ltb timestamp first)) [
      | inl back_in_time ↦ let wrong = rw back_in_time at h in cc
      | inr forward ↦ elim (Bool-cases (ltb (timestamp - first) i64_limit)) [
        | inr late ↦ let wrong = rw (forward, late) at h in cc
        | inl fits ↦ elim (Result-cases (next_capture clock.frames (timestamp - first))) [
          | inl (e, failed) ↦ let wrong = rw (forward, fits, failed) at h in cc
          | inr (capture, c) ↦
              rw (forward, fits, c)
                (push_frame-IsOrdered (record clock { first_capture_ms = some first }) capture o
                  (next_capture_room clock.frames (timestamp - first) capture c)
                  (rw (forward, fits, c) at h))
        ]
      ]
    ]

-- The frame found for a boundary is a later one where more frames pass the test, and a later frame
-- has gained at least as much capture time as audio.
abbrev pub Later : ClockFrame → ClockFrame → Type 0
Later f g =
    (f.audio_start_ms ≤ g.audio_start_ms)
    × (f.capture_start_ms + g.audio_start_ms ≤ g.capture_start_ms + f.audio_start_ms)

pub find_last-Later :
    (p : ClockFrame → Bool) (f : ClockFrame) (fs : List ClockFrame) (end : ℕ) (g : ClockFrame)
    → Chain f fs end
    → find_last p (f ∷ fs) ≡ some g
    → Later f g
unfolding find_last
find_last-Later p f [] end g c h = ground arith
find_last-Later p f (x ∷ fs) end g c h = elim (Option-cases (find_last p (x ∷ fs))) [
  | inl e ↦ ground (arith, e)
  | inr (y, e) ↦ let ih = find_last-Later p x fs end y c.2 e in ground (arith, e, ih)
]
