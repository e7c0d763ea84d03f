-- ===== src/GreatTree/Mechanics.antt =====
-- mechanics.rs: the transitions. A panic of `limb_for_root` is a value, so that its absence is
-- something to prove.
use parlando.Common.{
  Bool, true, false, ◌&&◌, List, [], ◌∷◌, ◌++◌, Option, none, some, length, contains, without, find,
  nat_eq, if◌then◌else◌,
}
use parlando.GreatTree.Ids.{LimbId, RootId, Five, all_limbs, eq_LimbId, eq_RootId, root_eq, at, put}
use parlando.GreatTree.State.{GreatTreeState}

pub data FlowRejection : Type 0 where
  root_frozen : FlowRejection

-- A `Result` of a function that may also panic.
pub data Outcome {ℓ} (A : Type ℓ) : Type ℓ where
  ok : A → Outcome A
  err : FlowRejection → Outcome A
  panicked : Outcome A

-- `none` is the panic of `expect`.
unfoldable pub limb_for_root : Five RootId → RootId → Option LimbId
limb_for_root bijection root = find (λ limb. root_eq (at bijection limb) root) all_limbs

abbrev pub sun : GreatTreeState → LimbId → Bool
sun state limb = contains state.sun_holds limb

abbrev pub water : GreatTreeState → LimbId → Bool
water state limb = at state.limb_water limb

abbrev pub flowered : GreatTreeState → LimbId → Bool
flowered state limb = sun state limb && water state limb

unfoldable pub thawed : GreatTreeState → RootId → Option Bool
thawed state root = elim (limb_for_root state.bijection root) [
  | none ↦ none
  | some limb ↦ some (sun state limb)
]

abbrev pub running : GreatTreeState → RootId → Bool
running state root = contains state.water_holds root

unfoldable pub force_close_paired_root : GreatTreeState → LimbId → GreatTreeState
force_close_paired_root state limb = record state {
  water_holds = without (at state.bijection limb) state.water_holds;
  limb_water = put state.limb_water limb false;
}

-- The eviction before a push: `remove(0)` when three limbs are held.
unfoldable pub evict_sun : GreatTreeState → List LimbId → GreatTreeState
unfolding force_close_paired_root
evict_sun state [] = state
evict_sun state (evicted ∷ rest) =
    if nat_eq (length state.sun_holds) 3
    then force_close_paired_root (record state { sun_holds = rest }) evicted
    else state

unfoldable pub apply_set_sun : GreatTreeState → LimbId → Bool → GreatTreeState
unfolding evict_sun force_close_paired_root
apply_set_sun state limb true =
    if sun state limb
    then state
    else let next = evict_sun state state.sun_holds in
      record next { sun_holds = next.sun_holds ++ limb ∷ [] }
apply_set_sun state limb false =
    if sun state limb
    then force_close_paired_root (record state { sun_holds = without limb state.sun_holds }) limb
    else state

-- The eviction before a push: `remove(0)` when three roots are held, with the fed limb dried.
unfoldable pub evict_root : GreatTreeState → List RootId → Outcome GreatTreeState
evict_root state [] = ok state
evict_root state (evicted ∷ rest) =
    if nat_eq (length state.water_holds) 3
    then elim (limb_for_root state.bijection evicted) [
      | none ↦ panicked
      | some limb ↦
          ok (record state { water_holds = rest; limb_water = put state.limb_water limb false })
    ]
    else ok state

-- The push of an opened root, and the latch of the limb that it feeds.
unfoldable pub push_root : GreatTreeState → RootId → Outcome GreatTreeState
push_root state root = elim (limb_for_root state.bijection root) [
  | none ↦ panicked
  | some limb ↦ ok (record state {
    water_holds = state.water_holds ++ root ∷ [];
    limb_water = put state.limb_water limb true;
  })
]

unfoldable pub close_root : GreatTreeState → RootId → Outcome GreatTreeState
close_root state root = elim (limb_for_root state.bijection root) [
  | none ↦ panicked
  | some limb ↦ ok (record state {
    water_holds = without root state.water_holds;
    limb_water = put state.limb_water limb false;
  })
]

infixl 5 ◌>>=◌
abbrev pub ◌>>=◌ : {A B : Type 0} → Outcome A → (A → Outcome B) → Outcome B
ok a >>= f = f a
err e >>= f = err e
panicked >>= f = panicked

abbrev require_thawed : Option Bool → Outcome (Unit {0})
require_thawed none = panicked
require_thawed (some false) = err root_frozen
require_thawed (some true) = ok tt

unfoldable pub apply_set_flow : GreatTreeState → RootId → Bool → Outcome GreatTreeState
unfolding evict_root push_root close_root thawed
apply_set_flow state root true = if running state root then ok state else do
  _ ← require_thawed (thawed state root)
  next ← evict_root state state.water_holds
  push_root next root
apply_set_flow state root false = if running state root then close_root state root else ok state
