-- ===== src/Runtime/Clock.antt =====
-- rust-server/src/transcription/clock.rs: `TranscriptionClock`.
-- A capture or audio time in the clock is an `i64` that is never negative, here a number below
-- 2 ^ 63; a boundary comes from the provider and may be negative. The one unchecked addition, of a
-- frame's duration to a capture time, panics or wraps where it overflows: `capture_overflow`.
pub mod Order
pub mod Mapping
pub mod Boundaries
use parlando.Common.{
  ℕ, zero, suc, ◌+◌, ◌-◌, ◌^◌, max, Bool, true, false, ◌&&◌, ◌||◌, not, List, [], ◌∷◌, ◌++◌, Option,
  none, some, String, ltb, nat_eq, if◌then◌else◌,
}
use parlando.Common.Int.{ℤ, pos, negsuc}

pub record ClockFrame : Type 0 where
  pub audio_start_ms : ℕ
  pub capture_start_ms : ℕ

-- `frames` is oldest first.
pub record TranscriptionClock : Type 0 where
  pub frames : List ClockFrame
  pub first_capture_ms : Option ℕ
  pub audio_end_ms : ℕ

pub data ClockError : Type 0 where
  capture_moved_backwards capture_too_large capture_overflow audio_overflow : ClockError
  outside_supplied_audio precedes_retained_audio boundary_overflow : ClockError
  reversed_utterance : ClockError

pub data Result {ℓ} (A : Type ℓ) : Type ℓ where
  ok : A → Result A
  err : ClockError → Result A

infixl 5 ◌>>=◌
abbrev pub ◌>>=◌ {ℓ κ} : {A : Type ℓ} {B : Type κ} → Result A → (A → Result B) → Result B
ok a >>= f = f a
err e >>= f = err e

abbrev pub audio_frame_duration_ms : ℕ
audio_frame_duration_ms = 20

abbrev pub i64_limit : ℕ
i64_limit = 2 ^ 63

unfoldable pub default_clock : TranscriptionClock
default_clock = record { frames = []; first_capture_ms = none; audio_end_ms = 0 }

abbrev pub origin : TranscriptionClock → ℕ → ℕ
origin clock timestamp = elim clock.first_capture_ms [ none ↦ timestamp | some first ↦ first ]

-- `frames.back()`.
abbrev pub back : List ClockFrame → Option ClockFrame
back [] = none
back (f ∷ fs) = elim (back fs) [ none ↦ some f | some last ↦ some last ]

-- The capture time of the next frame, kept clear of the one before.
abbrev pub next_capture : List ClockFrame → ℕ → Result ℕ
next_capture frames elapsed = elim (back frames) [
  | none ↦ ok elapsed
  | some previous ↦
      if ltb (previous.capture_start_ms + audio_frame_duration_ms) i64_limit
      then ok (max elapsed (previous.capture_start_ms + audio_frame_duration_ms))
      else err capture_overflow
]

-- The frame goes in before the audio clock is checked.
unfoldable pub push_frame : TranscriptionClock → ℕ → TranscriptionClock × Result (Unit {0})
push_frame clock capture =
    let frame : ClockFrame = record {
      audio_start_ms = clock.audio_end_ms;
      capture_start_ms = capture;
    } in
    let pushed = record clock { frames = clock.frames ++ frame ∷ [] } in
    if ltb (clock.audio_end_ms + audio_frame_duration_ms) i64_limit
    then (record pushed { audio_end_ms = clock.audio_end_ms + audio_frame_duration_ms }, ok tt)
    else (pushed, err audio_overflow)

-- The first timestamp stays the origin, also where the call fails.
unfoldable pub record_frame : TranscriptionClock → ℕ → TranscriptionClock × Result (Unit {0})
record_frame clock timestamp =
    let first = origin clock timestamp in
    let started = record clock { first_capture_ms = some first } in
    if ltb timestamp first
    then (started, err capture_moved_backwards)
    else if ltb (timestamp - first) i64_limit
    then elim (next_capture clock.frames (timestamp - first)) [
      | err e ↦ (started, err e)
      | ok capture ↦ push_frame started capture
    ]
    else (started, err capture_too_large)

-- `iter().rev().find(…)`.
unfoldable pub find_last : (ClockFrame → Bool) → List ClockFrame → Option ClockFrame
find_last p [] = none
find_last p (f ∷ fs) = elim (find_last p fs) [
  | some later ↦ some later
  | none ↦ if p f then some f else none
]

-- The frame test of `boundary`.
abbrev pub covers : ℕ → Bool → ClockFrame → Bool
covers time end frame =
    ltb frame.audio_start_ms time
    || ((not end && nat_eq frame.audio_start_ms time)
        || (nat_eq time 0 && nat_eq frame.audio_start_ms 0))

abbrev pub capture_time : Option ClockFrame → ℕ → Result ℕ
capture_time none time = err precedes_retained_audio
capture_time (some frame) time =
    if ltb (frame.capture_start_ms + (time - frame.audio_start_ms)) i64_limit
    then ok (frame.capture_start_ms + (time - frame.audio_start_ms))
    else err boundary_overflow

unfoldable pub boundary : TranscriptionClock → ℤ → Bool → Result ℕ
boundary clock (negsuc _) end = err outside_supplied_audio
boundary clock (pos time) end =
    if ltb clock.audio_end_ms time
    then err outside_supplied_audio
    else capture_time (find_last (covers time end) clock.frames) time

pub discard_frames : List ClockFrame → ℕ → List ClockFrame
discard_frames [] provider_start = []
discard_frames (f ∷ []) provider_start = f ∷ []
discard_frames (f ∷ g ∷ fs) provider_start =
    let rest = discard_frames (g ∷ fs) provider_start in
    if ltb g.audio_start_ms provider_start then rest else f ∷ g ∷ fs

unfoldable pub discard_before : TranscriptionClock → ℤ → TranscriptionClock
unfolding discard_frames
discard_before clock (negsuc _) = clock
discard_before clock (pos provider_start) = record clock {
  frames = discard_frames clock.frames provider_start;
}
