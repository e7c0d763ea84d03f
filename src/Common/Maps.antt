-- ===== src/Common/Maps.antt =====
-- `HashMap` as an association list. Its order stands for the unspecified iteration order.
use mathlib.Core.Path.{◌≡◌, refl}
use mathlib.Core.Logic.{inl, inr}
use mathlib.Core.Bool.{Bool, true}
use mathlib.Core.Option.{Option, none, some}
use mathlib.Core.List.{List, [], ◌∷◌}
use native.Mathlib.Omega.{arith}
use parlando.Common.Lists.{any, retain}
use mathlib.Core.Logic.{inl, inr}
use parlando.Common.Tests.{Bool-cases, Eq, ◌==◌, ==_iff, if◌then◌else◌}

abbrev pub Map {κ ℓ} : Type κ → Type ℓ → Type (κ ⊔ ℓ)
Map K V = List (K × V)

abbrev pub values {κ ℓ} : {K : Type κ} {V : Type ℓ} → Map K V → List V
values [] = []
values ((k, v) ∷ m) = v ∷ values m

abbrev pub keep_if {ℓ} : {V : Type ℓ} → (V → Bool) → Option V → Option V
keep_if p none = none
keep_if p (some v) = if p v then some v else none

module _ {κ ℓ} {K : Type κ} {V : Type ℓ} ⦃e : Eq K⦄ where
  unfoldable pub lookup : K → Map K V → Option V
  lookup k [] = none
  lookup k ((j, v) ∷ m) = if j == k then some v else lookup k m

  unfoldable pub insert : K → V → Map K V → Map K V
  insert key new [] = (key, new) ∷ []
  insert key new ((other, old) ∷ rest) =
      if other == key then (key, new) ∷ rest else (other, old) ∷ insert key new rest

  unfoldable pub remove : K → Map K V → Map K V
  remove k [] = []
  remove k ((j, v) ∷ m) = if j == k then remove k m else (j, v) ∷ remove k m

  -- `HashMap::retain` with a test of the value alone.
  unfoldable pub retain_values : (V → Bool) → Map K V → Map K V
  retain_values p [] = []
  retain_values p ((j, v) ∷ m) = let rest = retain_values p m in if p v then (j, v) ∷ rest else rest

  -- Each key stands once.
  abbrev pub HasUniqueKeys : Map K V → Type ℓ
  HasUniqueKeys [] = Unit
  HasUniqueKeys ((j, v) ∷ m) = (lookup j m ≡ none) × HasUniqueKeys m

  pub lookup-insert :
      (key at : K) (new : V) (m : Map K V)
      → lookup at (insert key new m) ≡ (if key == at then some new else lookup at m)
  unfolding lookup insert
  lookup-insert key at new [] = refl
  lookup-insert key at new ((other, old) ∷ rest) =
      let ih = lookup-insert key at new rest in
      ground (arith, ih, ==_iff other key, ==_iff other at, ==_iff key at)

  pub lookup-remove :
      (k j : K) (m : Map K V) → lookup j (remove k m) ≡ (if k == j then none else lookup j m)
  unfolding lookup remove
  lookup-remove k j [] = ground arith
  lookup-remove k j ((i, w) ∷ m) =
      ground (arith, ==_iff k j, ==_iff i k, ==_iff i j, lookup-remove k j m)

  pub lookup-retain_values :
      (p : V → Bool) (k : K) (m : Map K V)
      → HasUniqueKeys m
      → lookup k (retain_values p m) ≡ keep_if p (lookup k m)
  unfolding lookup retain_values
  lookup-retain_values p k [] u = refl
  lookup-retain_values p k ((i, w) ∷ m) u =
      ground (arith, ==_iff i k, lookup-retain_values p k m u.1)

  pub insert-HasUniqueKeys :
      (k : K) (v : V) (m : Map K V) → HasUniqueKeys m → HasUniqueKeys (insert k v m)
  unfolding insert lookup
  insert-HasUniqueKeys k v [] u = ground arith
  insert-HasUniqueKeys k v ((i, w) ∷ m) u =
      ground (arith, ==_iff i k, ==_iff k i, lookup-insert k i v m, insert-HasUniqueKeys k v m u.1)

  pub remove-HasUniqueKeys : (k : K) (m : Map K V) → HasUniqueKeys m → HasUniqueKeys (remove k m)
  unfolding remove
  remove-HasUniqueKeys k [] u = tt
  remove-HasUniqueKeys k ((i, w) ∷ m) u =
      ground (arith, lookup-remove k i m, remove-HasUniqueKeys k m u.1)

  pub retain_values-HasUniqueKeys :
      (p : V → Bool) (m : Map K V) → HasUniqueKeys m → HasUniqueKeys (retain_values p m)
  unfolding retain_values
  retain_values-HasUniqueKeys p [] u = tt
  retain_values-HasUniqueKeys p ((i, w) ∷ m) u =
      ground (arith, lookup-retain_values p i m u.1, retain_values-HasUniqueKeys p m u.1)

  -- A test of some value holds at a key, and the other way round.
  pub any-values_of_lookup :
      (p : V → Bool) (k : K) (v : V) (m : Map K V)
      → lookup k m ≡ some v
      → p v ≡ true
      → any p (values m) ≡ true
  unfolding lookup
  any-values_of_lookup p k v [] h t = cc
  any-values_of_lookup p k v ((i, w) ∷ m) h t = elim (Bool-cases (i == k)) [
    | inl here ↦ ground arith
    | inr there ↦ ground (arith, any-values_of_lookup p k v m (ground arith))
  ]

  pub lookup_of_any-values :
      (p : V → Bool) (m : Map K V)
      → HasUniqueKeys m
      → any p (values m) ≡ true
      → (k : K) × (v : V) × (lookup k m ≡ some v) × (p v ≡ true)
  unfolding lookup
  lookup_of_any-values p [] u h = cc
  lookup_of_any-values p ((i, w) ∷ m) u h = elim (Bool-cases (p w)) [
    | inl here ↦ (i, w, ground (arith, ==_iff i i), here)
    | inr there ↦
        let (k, v, e, t) = lookup_of_any-values p m u.1 (ground arith) in
        (k, v, ground (arith, ==_iff i k), t)
  ]

  pub values-retain_values :
      (p : V → Bool) (m : Map K V) → values (retain_values p m) ≡ retain p (values m)
  unfolding retain_values
  values-retain_values p [] = refl
  values-retain_values p ((i, w) ∷ m) = ground (arith, values-retain_values p m)
