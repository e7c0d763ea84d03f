-- ===== src/Runtime/Speech/Alignment.antt =====
-- tts.rs: from the arrays of the provider to the words.
use mathlib.Core.List.{append_assoc, append-nil}
use parlando.Common.{
  ℕ, ◌≤◌, ◌≡◌, refl, Bool, true, false, not, List, [], ◌∷◌, ◌++◌, some, All, All-append, length,
  retain, arith, Option-cases, inl, inr, ap, sym, subst, ◌∙◌,
}
use parlando.Runtime.Speech.{
  Characters, Floats, interval, TimedCharacter, SpokenToken, appended, timed, append_intervals,
  append_alignment, alignment_tokens,
}
use parlando.Runtime.Speech.Words.{text_of, visible, IsForward, IsTimed, alignment_tokens-text_of}

-- The characters of a list of texts.
abbrev pub flatten : {A : Type 0} → List (List A) → List A
flatten [] = []
flatten (text ∷ texts) = text ++ flatten texts

retain-append :
    {A : Type 0} (p : A → Bool) (xs ys : List A) → retain p (xs ++ ys) ≡ retain p xs ++ retain p ys
retain-append p [] ys = refl
retain-append p (x ∷ xs) ys = ground (arith, retain-append p xs ys)

-- What the code relies on of `f64`: a finite number is not more than its sum with one that is not
-- negative, and rounding keeps the order of numbers from zero to the bound.
pub record IsArithmetic (F : Floats) : Type 0 where
  pub plus_grows :
      (x y : F.Number)
      → F.is_finite x ≡ true
      → F.is_finite y ≡ true
      → F.less y F.zero ≡ false
      → F.less (F.plus x y) x ≡ false
  pub round_mono :
      (x y : F.Number)
      → F.is_finite x ≡ true
      → F.less x F.zero ≡ false
      → F.less y F.i64_max ≡ true
      → F.less y x ≡ false
      → F.round x ≤ F.round y

-- The guard of the loop.
record IsInRange (F : Floats) (start duration : F.Number) : Type 0 where
  start_finite : F.is_finite start ≡ true
  duration_finite : F.is_finite duration ≡ true
  start_positive : F.less start F.zero ≡ false
  duration_positive : F.less duration F.zero ≡ false
  in_bounds : F.less (F.plus start duration) F.i64_max ≡ true

interval-IsInRange :
    (F : Floats) (start duration : F.Number) (from to : ℕ)
    → interval F start duration ≡ some (from, to)
    → IsInRange F start duration × (from ≡ F.round start) × (to ≡ F.round (F.plus start duration))
unfolding interval
interval-IsInRange F start duration from to h = (
  record {
    start_finite = ground arith;
    duration_finite = ground arith;
    start_positive = ground arith;
    duration_positive = ground arith;
    in_bounds = ground arith;
  },
  ground arith,
  ground arith,
)

interval-forward :
    (F : Floats) (floats : IsArithmetic F) (start duration : F.Number) (from to : ℕ)
    → interval F start duration ≡ some (from, to)
    → from ≤ to
interval-forward F floats start duration from to h =
    let (fits, begins, ends) = interval-IsInRange F start duration from to h in
    rw (begins, ends)
      (floats.round_mono start (F.plus start duration) fits.start_finite fits.start_positive
        fits.in_bounds
        (floats.plus_grows start duration fits.start_finite fits.duration_finite
          fits.duration_positive))

module _ (C : Characters) where
  abbrev pub is_visible : C.Character → Bool
  is_visible c = not (C.is_whitespace c)

  visible-append : (xs ys : List (TimedCharacter C)) → visible (xs ++ ys) ≡ visible xs ++ visible ys
  visible-append [] ys = refl
  visible-append (x ∷ xs) ys = ground (arith, visible-append xs ys)

  visible-timed :
      (start stop : ℕ) (text : List C.Character)
      → visible (timed {C = C} start stop text) ≡ retain is_visible text
  visible-timed start stop [] = refl
  visible-timed start stop (c ∷ text) = ground (arith, visible-timed start stop text)

  timed-IsTimed :
      (start stop : ℕ) (text : List C.Character)
      → start ≤ stop
      → All IsTimed (timed {C = C} start stop text)
  timed-IsTimed start stop [] h = tt
  timed-IsTimed start stop (c ∷ text) h = (h, timed-IsTimed start stop text h)

  module _ (F : Floats) (floats : IsArithmetic F) where
    record IsAligned (output : List (TimedCharacter C)) (texts : List (List C.Character))
        (items : List (TimedCharacter C)) : Type 0 where
      spells : visible items ≡ visible output ++ retain is_visible (flatten texts)
      times : All IsTimed items

    append_intervals-IsAligned :
        (texts : List (List C.Character)) (starts durations : List F.Number)
        (output items : List (TimedCharacter C))
        → length texts ≡ length starts
        → length texts ≡ length durations
        → All IsTimed output
        → append_intervals F texts starts durations output ≡ appended items
        → IsAligned output texts items
    unfolding append_intervals
    append_intervals-IsAligned [] starts durations output items m n t h =
        let same : output ≡ items = ground arith in
        record {
          spells = ap visible (sym same) ∙ sym (append-nil (visible output));
          times = subst (All IsTimed) same t;
        }
    append_intervals-IsAligned (text ∷ texts) [] durations output items m n t h =
        absurd (omega arith)
    append_intervals-IsAligned (text ∷ texts) (start ∷ starts) [] output items m n t h =
        absurd (omega arith)
    append_intervals-IsAligned (text ∷ texts) (start ∷ starts) (duration ∷ durations) output items m
          n t h =
        elim (Option-cases (interval F start duration)) [
          | inl bad ↦ absurd (ground (arith, bad))
          | inr ((from, to), good) ↦
              let longer = output ++ timed {C = C} from to text in
              let rest =
                append_intervals-IsAligned texts starts durations longer items (omega arith)
                  (omega arith)
                  (All-append IsTimed output (timed {C = C} from to text) t (
                    timed-IsTimed from to text
                      (interval-forward F floats start duration from to good)))
                  (ground (arith, good)) in
              record {
                spells =
                    rest.spells
                    ∙ ap (λ (cs : List C.Character). cs ++ retain is_visible (flatten texts))
                        (visible-append output (timed {C = C} from to text))
                    ∙ append_assoc (visible output) (visible (timed {C = C} from to text))
                        (retain is_visible (flatten texts))
                    ∙ ap (λ (cs : List C.Character). visible output ++ cs)
                        (ap (λ (cs : List C.Character). cs ++ retain is_visible (flatten texts))
                            (visible-timed from to text)
                          ∙ sym (retain-append is_visible text (flatten texts)));
                times = rest.times;
              }
        ]

    -- Where one more message of the provider is accepted, after characters that run forward, all the
    -- characters run forward; their tokens are there, spell what was there before and then the
    -- texts of the message, without white space, and run forward in time.
    pub append_alignment-tokens :
        (texts : List (List C.Character)) (starts durations : List F.Number)
        (output items : List (TimedCharacter C))
        → All IsTimed output
        → append_alignment F texts starts durations output ≡ appended items
        → All IsTimed items
          × ((out : List (SpokenToken C)) × (alignment_tokens items ≡ some out)
              × (text_of out ≡ visible output ++ retain is_visible (flatten texts))
              × All IsForward out)
    unfolding append_alignment
    append_alignment-tokens texts starts durations output items before h =
        let aligned =
          append_intervals-IsAligned texts starts durations output items (ground arith)
            (ground arith) before (ground arith) in
        let (out, e, spells, forward) = alignment_tokens-text_of items aligned.times in
        (aligned.times, (out, e, spells ∙ aligned.spells, forward))
