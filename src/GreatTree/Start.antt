-- ===== src/GreatTree/Start.antt =====
-- adapter.rs and bijection.rs: a shuffled array pairs limbs and roots, and the first state is
-- well formed.
use mathlib.Core.List.{Mem, Nodup, Nodup-cons, Nodup-nil, not-mem-nil, mem-cons}
use mathlib.Core.List.Perm
use mathlib.Core.Logic.Or
use mathlib.Core.Bool.{false≢true}
use parlando.Common.{
  ℕ, ◌≡◌, refl, sym, true, false, List, [], ◌∷◌, contains, arith, Bool-cases, inl, inr, NoRepeat,
  ◌∙◌, if◌then◌else◌,
}
use parlando.GreatTree.Ids.{
  LimbId, RootId, Five, at, at-put, limb_eq_iff, root_eq, root_eq_iff, eq_LimbId, eq_RootId, spire,
  hook, fork, cradle, nub,
}
use parlando.GreatTree.State.{CrownSeat}
use parlando.GreatTree.Mechanics.{limb_for_root}
use parlando.GreatTree.Invariant.{IsPairing, IsValid}
use parlando.GreatTree.Adapter.{Rand, generate, initial_state, roots_of, unshuffled, all_dry}

-- The library's membership, decided.
mem-contains : (r : RootId) (rs : List RootId) → Mem r rs → contains rs r ≡ true
mem-contains r [] m = absurd (not-mem-nil m)
mem-contains r (q ∷ rs) m =
    Or.elim (hlevel) (mem-cons.0 m) (λ e. ground (arith, root_eq_iff q r, e))
      (λ t. ground (arith, mem-contains r rs t))

contains-mem : (r : RootId) (rs : List RootId) → contains rs r ≡ true → Mem r rs
contains-mem r [] c = cc
contains-mem r (q ∷ rs) c = elim (Bool-cases (root_eq q r)) [
  | inl same ↦ mem-cons.1 (Or.inl (sym ((root_eq_iff q r).0 same)))
  | inr other ↦ mem-cons.1 (Or.inr (contains-mem r rs (ground arith)))
]

NoRepeat-Nodup : (rs : List RootId) → NoRepeat rs → Nodup rs
NoRepeat-Nodup [] h = Nodup-nil
NoRepeat-Nodup (q ∷ rs) h =
    Nodup-cons.1 ((λ m. false≢true (sym h.0 ∙ mem-contains q rs m)), NoRepeat-Nodup rs h.1)

Nodup-NoRepeat : (rs : List RootId) → Nodup rs → NoRepeat rs
Nodup-NoRepeat [] h = tt
Nodup-NoRepeat (q ∷ rs) h = (
  elim (Bool-cases (contains rs q)) [
    | inl again ↦ absurd ((Nodup-cons.0 h).0 (contains-mem q rs again))
    | inr once ↦ once
  ],
  Nodup-NoRepeat rs (Nodup-cons.0 h).1,
)

-- The first slot that holds a root.
abbrev slot_of : Five RootId → RootId → LimbId
slot_of v r =
    if root_eq v.slot0 r
    then spire
    else if root_eq v.slot1 r
    then hook
    else if root_eq v.slot2 r
    then fork
    else if root_eq v.slot3 r
    then cradle
    else nub

root_eq_sym : (q r : RootId) → root_eq q r ≡ root_eq r q
root_eq_sym q r = ground arith

slot_of-at : (v : Five RootId) (l : LimbId) → NoRepeat (roots_of v) → slot_of v (at v l) ≡ l
slot_of-at v spire once = ground (arith, root_eq_iff v.slot0 v.slot0)
slot_of-at v hook once = ground (arith, root_eq_sym v.slot0 v.slot1, root_eq_iff v.slot1 v.slot1)
slot_of-at v fork once =
    ground
      (arith, root_eq_sym v.slot0 v.slot2, root_eq_sym v.slot1 v.slot2, root_eq_iff v.slot2 v.slot2)
slot_of-at v cradle once = ground (
  arith,
  root_eq_sym v.slot0 v.slot3,
  root_eq_sym v.slot1 v.slot3,
  root_eq_sym v.slot2 v.slot3,
  root_eq_iff v.slot3 v.slot3,
)
slot_of-at v nub once = ground (
  arith,
  root_eq_sym v.slot0 v.slot4,
  root_eq_sym v.slot1 v.slot4,
  root_eq_sym v.slot2 v.slot4,
  root_eq_sym v.slot3 v.slot4,
)

-- An array in which every root stands, and none twice, pairs them with the limbs.
pub paired :
    (v : Five RootId)
    → ((r : RootId) → contains (roots_of v) r ≡ true)
    → NoRepeat (roots_of v)
    → IsPairing v
unfolding limb_for_root
paired v every once = record {
  limb_of = slot_of v;
  limb_for = λ r. ground (arith, every r);
  root_at = λ r. ground (
    arith,
    every r,
    root_eq_iff v.slot0 r,
    root_eq_iff v.slot1 r,
    root_eq_iff v.slot2 r,
    root_eq_iff v.slot3 r,
    root_eq_iff v.slot4 r,
  );
  limb_at = λ l. slot_of-at v l once;
}

every_root : (r : RootId) → contains (roots_of unshuffled) r ≡ true
every_root r = ground arith

unshuffled-Nodup : Nodup (roots_of unshuffled)
unshuffled-Nodup = NoRepeat-Nodup (roots_of unshuffled) (ground arith)

-- Whatever the seed, the generated array pairs each limb with one root.
pub generate-IsPairing : (rand : Rand) (seed : ℕ) → IsPairing (generate rand seed).1
unfolding generate
generate-IsPairing rand seed =
    let law = rand.shuffle-perm unshuffled (rand.seed_from_u64 seed) in
    paired (rand.shuffle unshuffled (rand.seed_from_u64 seed)).0
      (λ r. mem-contains r _ ((Perm.mem_iff law).0 (contains-mem r _ (every_root r))))
      (Nodup-NoRepeat _ (Perm.nodup law unshuffled-Nodup))

all_dry-at : (l : LimbId) → at all_dry l ≡ false
all_dry-at l = ground arith

-- Whatever the seed, the first state is well formed.
pub initial_state-IsValid :
    (rand : Rand) (seat : CrownSeat) (seed : ℕ) → IsValid (initial_state rand seat seed)
unfolding initial_state generate
initial_state-IsValid rand seat seed =
    let p = generate-IsPairing rand seed in
    let l = (generate rand seed).0 in
    let v = (generate rand seed).1 in
    record {
      pairing = p;
      sun_capped = omega arith;
      water_capped = omega arith;
      sun_once = (refl, tt);
      water_once = (refl, tt);
      running_thawed = λ m.
          ground (arith, p.limb_at m, p.limb_at l, root_eq_iff (at v l) (at v m), limb_eq_iff l m);
      watered = λ m. ground (
        arith,
        at-put all_dry l m true,
        all_dry-at m,
        p.limb_at m,
        p.limb_at l,
        root_eq_iff (at v l) (at v m),
        limb_eq_iff l m,
      );
    }
