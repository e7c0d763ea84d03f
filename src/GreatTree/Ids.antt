-- ===== src/GreatTree/Ids.antt =====
-- ids.rs: the limbs, the roots, and arrays indexed by `LimbId::index`.
use parlando.Common.{Bool, true, false, List, [], ◌∷◌, Eq, ◌≡◌, ◌↔◌, arith, if◌then◌else◌}

pub data LimbId : Type 0 where
  spire hook fork cradle nub : LimbId

pub data RootId : Type 0 where
  hand knot tip swollen deep : RootId

abbrev pub all_limbs : List LimbId
all_limbs = spire ∷ hook ∷ fork ∷ cradle ∷ nub ∷ []

abbrev pub all_roots : List RootId
all_roots = hand ∷ knot ∷ tip ∷ swollen ∷ deep ∷ []

abbrev pub limb_eq : LimbId → LimbId → Bool
limb_eq spire spire = true
limb_eq hook hook = true
limb_eq fork fork = true
limb_eq cradle cradle = true
limb_eq nub nub = true
limb_eq _ _ = false

abbrev pub root_eq : RootId → RootId → Bool
root_eq hand hand = true
root_eq knot knot = true
root_eq tip tip = true
root_eq swollen swollen = true
root_eq deep deep = true
root_eq _ _ = false

pub limb_eq_iff : (l m : LimbId) → (limb_eq l m ≡ true) ↔ (l ≡ m)
limb_eq_iff l m = ground arith

pub root_eq_iff : (r s : RootId) → (root_eq r s ≡ true) ↔ (r ≡ s)
root_eq_iff r s = ground arith

instance abbrev pub eq_LimbId : Eq LimbId
eq_LimbId = record { equals = limb_eq; equals_iff = limb_eq_iff }

instance abbrev pub eq_RootId : Eq RootId
eq_RootId = record { equals = root_eq; equals_iff = root_eq_iff }

-- `[A; 5]`; the slots stand in the order of `LimbId::ALL`.
pub record Five {ℓ} (A : Type ℓ) : Type ℓ where
  pub slot0 : A
  pub slot1 : A
  pub slot2 : A
  pub slot3 : A
  pub slot4 : A

-- `array[limb.index()]`.
abbrev pub at {ℓ} : {A : Type ℓ} → Five A → LimbId → A
at v spire = v.slot0
at v hook = v.slot1
at v fork = v.slot2
at v cradle = v.slot3
at v nub = v.slot4

-- `array[limb.index()] = a`.
abbrev pub put {ℓ} : {A : Type ℓ} → Five A → LimbId → A → Five A
put v spire a = record v { slot0 = a }
put v hook a = record v { slot1 = a }
put v fork a = record v { slot2 = a }
put v cradle a = record v { slot3 = a }
put v nub a = record v { slot4 = a }

pub at-put {ℓ} :
    {A : Type ℓ} (v : Five A) (l m : LimbId) (a : A)
    → at (put v l a) m ≡ (if limb_eq l m then a else at v m)
at-put v l m a = ground arith
