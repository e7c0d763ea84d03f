-- ===== src/Runtime/Clock/Boundaries.antt =====
-- clock.rs: boundaries of the supplied audio keep their order in capture time, are found for all
-- retained audio, and survive the release of older frames.
use parlando.Common.{
  ℕ, ◌+◌, ◌-◌, ◌≤◌, ◌<◌, ◌≡◌, ◌≢◌, refl, Bool, true, List, [], ◌∷◌, none, some, ltb, arith,
  Option-cases, Bool-cases, inl, inr, ◌⊎◌, subst,
}
use parlando.Common.Int.{ℤ, pos, negsuc}
use parlando.Runtime.Clock.{
  ClockFrame, TranscriptionClock, ok, err, i64_limit, find_last, covers, boundary, discard_frames,
  discard_before, boundary_overflow, boundary_overflow,
}
use parlando.Runtime.Clock.Order.{Chain, Chains, IsOrdered, Later, find_last-Later}

abbrev Within : (ClockFrame → Bool) → (ClockFrame → Bool) → Type 0
Within p q = (f : ClockFrame) → p f ≡ true → q f ≡ true

find_last_holds :
    (p : ClockFrame → Bool) (fs : List ClockFrame) (g : ClockFrame)
    → find_last p fs ≡ some g
    → p g ≡ true
unfolding find_last
find_last_holds p [] g h = cc
find_last_holds p (f ∷ fs) g h = elim (Option-cases (find_last p fs)) [
  | inl e ↦ elim (Bool-cases (p f)) [
    | inl t ↦ let same : f ≡ g = ground (arith, e, t) in subst (λ x. p x ≡ true) same t
    | inr n ↦ ground (arith, e, n)
  ]
  | inr (y, e) ↦ find_last_holds p fs g (ground (arith, e))
]

find_last-Within :
    (p q : ClockFrame → Bool) (fs : List ClockFrame) (g : ClockFrame)
    → Within p q
    → find_last p fs ≡ some g
    → find_last q fs ≢ none
unfolding find_last
find_last-Within p q [] g w h n = cc
find_last-Within p q (f ∷ fs) g w h n = elim (Option-cases (find_last p fs)) [
  | inl e ↦ elim (Bool-cases (p f)) [
    | inl t ↦ ground (arith, w f t, n)
    | inr m ↦ ground (arith, e, m)
  ]
  | inr (y, e) ↦ find_last-Within p q fs y w e (ground (arith, n))
]

find_last_mono :
    (p q : ClockFrame → Bool) (f : ClockFrame) (fs : List ClockFrame) (end : ℕ) (g h : ClockFrame)
    → Within p q
    → Chain f fs end
    → find_last p (f ∷ fs) ≡ some g
    → find_last q (f ∷ fs) ≡ some h
    → Later g h
unfolding find_last
find_last_mono p q f [] end g h w c a b = ground arith
find_last_mono p q f (x ∷ fs) end g h w c a b = elim (Option-cases (find_last p (x ∷ fs))) [
  | inl e ↦
      let first : f ≡ g = ground (arith, e) in
      subst (λ y. Later y h) first (find_last-Later q f (x ∷ fs) end h c b)
  | inr (y, e) ↦ elim (Option-cases (find_last q (x ∷ fs))) [
    | inl n ↦ absurd (find_last-Within p q (x ∷ fs) y w e n)
    | inr (z, m) ↦ let ih = find_last_mono p q x fs end y z w c.2 e m in ground (arith, e, m, ih)
  ]
]

-- Earlier boundaries, and endpoints before starts at the same time.
abbrev pub IsBefore : ℕ → Bool → ℕ → Bool → Type 0
IsBefore t end t' end' = (t < t') ⊎ ((t ≡ t') × ((end ≡ end') ⊎ (end ≡ true)))

covers-Within :
    (t t' : ℕ) (end end' : Bool) → IsBefore t end t' end' → Within (covers t end) (covers t' end')
covers-Within t t' end end' b f c = ground arith

covers_le : (t : ℕ) (end : Bool) (f : ClockFrame) → covers t end f ≡ true → f.audio_start_ms ≤ t
covers_le t end f c = ground arith

frame_of :
    (clock : TranscriptionClock) (t : ℕ) (end : Bool) (u : ℕ)
    → boundary clock (pos t) end ≡ ok u
    → (g : ClockFrame) × (find_last (covers t end) clock.frames ≡ some g)
      × (u ≡ g.capture_start_ms + (t - g.audio_start_ms))
unfolding boundary
frame_of clock t end u h = elim (Option-cases (find_last (covers t end) clock.frames)) [
  | inl e ↦ ground (arith, e)
  | inr (g, e) ↦ (g, e, ground (arith, e))
]

mono_frames :
    (frames : List ClockFrame) (audio_end : ℕ) (p q : ClockFrame → Bool) (g h : ClockFrame)
    → Chains frames audio_end
    → Within p q
    → find_last p frames ≡ some g
    → find_last q frames ≡ some h
    → Later g h
unfolding find_last
mono_frames [] audio_end p q g h c w a b = ground arith
mono_frames (f ∷ fs) audio_end p q g h c w a b = find_last_mono p q f fs audio_end g h w c a b

-- Boundaries keep their order: an earlier one is mapped no later, and at one boundary the end of
-- what came before is mapped no later than the start of what follows.
pub boundary_mono :
    (clock : TranscriptionClock) (t t' : ℕ) (end end' : Bool) (u u' : ℕ)
    → IsOrdered clock
    → IsBefore t end t' end'
    → boundary clock (pos t) end ≡ ok u
    → boundary clock (pos t') end' ≡ ok u'
    → u ≤ u'
boundary_mono clock t t' end end' u u' o b h h' =
    let (g, e, v) = frame_of clock t end u h in
    let (g', e', v') = frame_of clock t' end' u' h' in
    let later =
      mono_frames clock.frames clock.audio_end_ms (covers t end) (covers t' end') g g' o
        (covers-Within t t' end end' b) e e' in
    let le = covers_le t end g (find_last_holds (covers t end) clock.frames g e) in
    let le' = covers_le t' end' g' (find_last_holds (covers t' end') clock.frames g' e') in
    ground (arith, later, le, le', v, v')

find_last-head :
    (p : ClockFrame → Bool) (f : ClockFrame) (fs : List ClockFrame)
    → p f ≡ true
    → find_last p (f ∷ fs) ≢ none
unfolding find_last
find_last-head p f fs t n = ground (arith, n)

find_last-discard_frames :
    (p : ClockFrame → Bool) (fs : List ClockFrame) (start : ℕ)
    → ((f : ClockFrame) → f.audio_start_ms < start → p f ≡ true)
    → find_last p (discard_frames fs start) ≡ find_last p fs
unfolding find_last discard_frames
find_last-discard_frames p [] start h = refl
find_last-discard_frames p (f ∷ []) start h = refl
find_last-discard_frames p (f ∷ g ∷ fs) start h = elim (Bool-cases (ltb g.audio_start_ms start)) [
  | inr stays ↦ rw stays refl
  | inl goes ↦
      let ih = find_last-discard_frames p (g ∷ fs) start h in
      let found = find_last-head p g fs (h g (ground arith)) in rw goes (ground (arith, ih, found))
]

abbrev pub IsAtMost : ℤ → ℕ → Type 0
IsAtMost (pos start) t = start ≤ t
IsAtMost (negsuc n) t = Unit

-- Releasing the frames before an utterance changes no boundary from its start on: a retry maps the
-- utterance as the first attempt did.
pub discard_before-boundary :
    (clock : TranscriptionClock) (start : ℤ) (t : ℕ) (end : Bool)
    → IsAtMost start t
    → boundary (discard_before clock start) (pos t) end ≡ boundary clock (pos t) end
unfolding boundary discard_before
discard_before-boundary clock (negsuc n) t end h = refl
discard_before-boundary clock (pos start) t end h =
    rw (find_last-discard_frames (covers t end) clock.frames start (λ f lt. ground arith)) refl

-- A boundary inside the retained audio is mapped, unless its capture time overflows.
pub boundary_total :
    (clock : TranscriptionClock) (f : ClockFrame) (fs : List ClockFrame) (t : ℕ) (end : Bool)
    → clock.frames ≡ f ∷ fs
    → covers t end f ≡ true
    → t ≤ clock.audio_end_ms
    → ((u : ℕ) × (boundary clock (pos t) end ≡ ok u))
      ⊎ (boundary clock (pos t) end ≡ err boundary_overflow)
unfolding boundary
boundary_total clock f fs t end e c h =
    elim (Option-cases (find_last (covers t end) clock.frames)) [
      | inl n ↦ absurd (find_last-head (covers t end) f fs c (rw e at n))
      | inr (g, found) ↦
          elim (Bool-cases (ltb (g.capture_start_ms + (t - g.audio_start_ms)) i64_limit)) [
            | inl fits ↦ inl (g.capture_start_ms + (t - g.audio_start_ms), ground (arith, found))
            | inr over ↦ inr (ground (arith, found))
          ]
    ]
