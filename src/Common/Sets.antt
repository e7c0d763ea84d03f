-- ===== src/Common/Sets.antt =====
-- A `Vec` without repetition, used as a set in order of arrival.
use Prim.Native.Nat.{suc}
use mathlib.Core.Path.{◌≡◌, refl, ap}
use mathlib.Core.Logic.{inl, inr}
use mathlib.Core.Bool.{Bool, true, false, not, ◌&&◌, ◌||◌}
use mathlib.Core.List.{List, [], ◌∷◌, ◌++◌}
use native.Mathlib.Omega.{arith}
use parlando.Common.Tests.{Bool-cases, Eq, ◌==◌, ==_iff}
use parlando.Common.Lists.{length, retain}

module _ {ℓ} {A : Type ℓ} ⦃e : Eq A⦄ where
  -- `Vec::contains`.
  abbrev pub contains : List A → A → Bool
  contains [] a = false
  contains (x ∷ xs) a = x == a || contains xs a

  -- `Vec::retain(|held| held != a)`.
  abbrev pub without : A → List A → List A
  without a xs = retain (λ held. not (held == a)) xs

  abbrev pub NoRepeat : List A → Type 0
  NoRepeat [] = Unit
  NoRepeat (x ∷ xs) = (contains xs x ≡ false) × NoRepeat xs

  pub contains-append :
      (xs ys : List A) (a : A) → contains (xs ++ ys) a ≡ (contains xs a || contains ys a)
  contains-append [] ys a = refl
  contains-append (x ∷ xs) ys a = ground (arith, contains-append xs ys a)

  pub contains-without :
      (x : A) (xs : List A) (a : A) → contains (without x xs) a ≡ (contains xs a && not (a == x))
  contains-without x [] a = refl
  contains-without x (y ∷ xs) a =
      ground (arith, contains-without x xs a, ==_iff y x, ==_iff y a, ==_iff a x)

  pub NoRepeat-without : (x : A) (xs : List A) → NoRepeat xs → NoRepeat (without x xs)
  NoRepeat-without x [] h = tt
  NoRepeat-without x (y ∷ xs) h = ground (arith, contains-without x xs y, NoRepeat-without x xs h.1)

  pub NoRepeat-push :
      (xs : List A) (a : A) → contains xs a ≡ false → NoRepeat xs → NoRepeat (xs ++ a ∷ [])
  NoRepeat-push [] a c h = (refl, tt)
  NoRepeat-push (x ∷ xs) a c h =
      ground (arith, contains-append xs (a ∷ []) x, ==_iff x a, ==_iff a x, NoRepeat-push xs a)

  without_absent : (x : A) (xs : List A) → contains xs x ≡ false → without x xs ≡ xs
  without_absent x [] c = refl
  without_absent x (y ∷ xs) c = ground (arith, without_absent x xs, ==_iff y x)

  -- Taking out an element that stands once makes room for one.
  pub length-without :
      (x : A) (xs : List A)
      → NoRepeat xs
      → contains xs x ≡ true
      → length xs ≡ suc (length (without x xs))
  length-without x [] h c = ground arith
  length-without x (y ∷ xs) h c =
      ground (arith, length-without x xs h.1, without_absent x xs, ==_iff y x)

  pub contains-retain :
      (p : A → Bool) (xs : List A) (a : A) → contains (retain p xs) a ≡ (contains xs a && p a)
  contains-retain p [] a = refl
  contains-retain p (x ∷ xs) a = elim (Bool-cases (x == a)) [
    | inl same ↦
        let e : x ≡ a = (==_iff x a).0 same in ground (arith, contains-retain p xs a, ap p e)
    | inr other ↦ ground (arith, contains-retain p xs a)
  ]
