-- ===== src/GreatTree/Play.antt =====
-- adapter.rs: whole games, from the first state through any requests of either player.
use mathlib.Core.Path.{fun_ext}
use parlando.Common.{
  ℕ, suc, ◌≡◌, refl, Bool, true, false, List, [], ◌∷◌, none, some, length, retain, map, contains,
  NoRepeat, arith, Bool-cases, inl, inr, leb, ◌||◌, ◌⊎◌, ◌∙◌, ap, subst, ◌<◌,
}
use parlando.Runtime.Role.{PlayerRole, role_eq}
use parlando.GreatTree.Ids.{
  LimbId, RootId, Five, all_limbs, at, limb_eq, limb_eq_iff, root_eq_iff, eq_RootId, eq_LimbId,
}
use parlando.GreatTree.State.{
  CrownSeat, role, GreatTreeState, GreatTreeAction, set_sun, set_flow, crown,
}
use parlando.GreatTree.Mechanics.{Outcome, sun, water, flowered, running}
use parlando.GreatTree.Invariant.{IsPairing, IsValid, apply_set_sun-IsValid}
use parlando.GreatTree.Flow.{
  FlowAnswer, unchanged, frozen, opened, closed, apply_set_flow-FlowAnswer,
}
use parlando.GreatTree.Start.{initial_state-IsValid}
use parlando.GreatTree.Adapter.{
  Rand, initial_state, Reply, accepted, rejected, panics, role_for_action, reply, apply_action,
  observation, completion,
}

-- A reply that keeps the game well formed: a next state that is so, or a rejection. Never a panic.
abbrev pub IsSound : Reply → Type 0
IsSound (accepted next) = IsValid next
IsSound (rejected _) = Unit
IsSound panics = ⊥

reply-IsSound :
    (s : GreatTreeState) (r : RootId) (gate : Bool) {result : Outcome GreatTreeState}
    → IsValid s
    → FlowAnswer s r gate result
    → IsSound (reply result)
reply-IsSound s r gate v (unchanged _ _) = v
reply-IsSound s r gate v (frozen _ _) = tt
reply-IsSound s r gate v (opened t _ _ w _ _) = w
reply-IsSound s r gate v (closed t _ w _ _) = w

-- No request of either player panics, and an accepted one leaves a well-formed state.
pub apply_action-IsSound :
    (s : GreatTreeState) (action : GreatTreeAction) (actor : PlayerRole)
    → IsValid s
    → IsSound (apply_action s action actor).0
unfolding apply_action
apply_action-IsSound s (set_sun l lit) actor v =
    elim (Bool-cases (role_eq actor (role_for_action s (set_sun l lit)))) [
      | inl own ↦ rw own (apply_set_sun-IsValid s l lit v)
      | inr foreign ↦ rw foreign tt
    ]
apply_action-IsSound s (set_flow r gate) actor v =
    elim (Bool-cases (role_eq actor (role_for_action s (set_flow r gate)))) [
      | inl own ↦ rw own (reply-IsSound s r gate v (apply_set_flow-FlowAnswer s r gate v))
      | inr foreign ↦ rw foreign tt
    ]

-- The states of a game: each accepted request of either player is a step.
pub data Reach (rand : Rand) (seat : CrownSeat) (seed : ℕ) : GreatTreeState → Type 0 where
  start : Reach rand seat seed (initial_state rand seat seed)
  next :
      {s : GreatTreeState} (t : GreatTreeState) (action : GreatTreeAction) (actor : PlayerRole)
      → Reach rand seat seed s
      → (apply_action s action actor).0 ≡ accepted t
      → Reach rand seat seed t

accepted-IsValid : (r : Reply) (t : GreatTreeState) → IsSound r → r ≡ accepted t → IsValid t
accepted-IsValid (accepted s) t h e = let same : s ≡ t = cc in subst IsValid same h
accepted-IsValid (rejected c) t h e = cc
accepted-IsValid panics t h e = cc

pub Reach-IsValid :
    (rand : Rand) (seat : CrownSeat) (seed : ℕ) {s : GreatTreeState}
    → Reach rand seat seed s
    → IsValid s
Reach-IsValid rand seat seed start = initial_state-IsValid rand seat seed
Reach-IsValid rand seat seed (next {s} t action actor r e) =
    accepted-IsValid _ t (apply_action-IsSound s action actor (Reach-IsValid rand seat seed r)) e

-- No game shows a watered limb in the dark: water on a limb means sun on it, and its root running.
pub watered_in_sun :
    (rand : Rand) (seat : CrownSeat) (seed : ℕ) (s : GreatTreeState) (l : LimbId)
    → Reach rand seat seed s
    → water s l ≡ true
    → (sun s l ≡ true) × (running s (at s.bijection l) ≡ true)
watered_in_sun rand seat seed s l r w =
    let v = Reach-IsValid rand seat seed r in ground (arith, v.watered l, v.running_thawed l)

-- How many limbs pass a test.
abbrev pub tally : (LimbId → Bool) → ℕ
tally p = length (retain p all_limbs)

pub tally-or :
    (p q : LimbId → Bool) (l : LimbId)
    → q l ≡ false
    → ((m : LimbId) → p m ≡ (limb_eq l m || q m))
    → tally p ≡ suc (tally q)
tally-or p q l n h =
    ground (arith, h LimbId.spire, h LimbId.hook, h LimbId.fork, h LimbId.cradle, h LimbId.nub)

pub tally-running :
    (b : Five RootId) (p : IsPairing b) (held : List RootId)
    → NoRepeat held
    → tally (λ l. contains held (at b l)) ≡ length held
tally-running b p [] h = refl
tally-running b p (r ∷ held) h =
    tally-or (λ l. contains (r ∷ held) (at b l)) (λ l. contains held (at b l)) (p.limb_of r)
      (rw (p.root_at r) h.0)
      (λ m.
        ground
          (arith, root_eq_iff r (at b m), limb_eq_iff (p.limb_of r) m, p.limb_at m, p.root_at r))
    ∙ ap suc (tally-running b p held h.1)

flowered-running :
    (s : GreatTreeState) (l : LimbId) → IsValid s → flowered s l ≡ running s (at s.bijection l)
flowered-running s l v = ground (arith, v.watered l, v.running_thawed l)

tally-flowered : (s : GreatTreeState) → IsValid s → tally (flowered s) ≡ length s.water_holds
tally-flowered s v =
    ap tally (fun_ext (λ l. flowered-running s l v))
    ∙ tally-running s.bijection v.pairing s.water_holds v.water_once

contains-flowered :
    (s : GreatTreeState) (l : LimbId) → contains (retain (flowered s) all_limbs) l ≡ flowered s l
contains-flowered s l = ground arith

-- Three of the five limbs in flower.
pub record IsWon (s : GreatTreeState) (limbs : List LimbId) : Type 0 where
  pub three : length limbs ≡ 3
  pub full : length s.water_holds ≡ 3
  pub fed : (l : LimbId) → contains limbs l ≡ running s (at s.bijection l)

-- A game is over exactly when three roots run, and then names the three limbs that they feed.
pub completion_three :
    (s : GreatTreeState)
    → IsValid s
    → ((completion s ≡ none) × (length s.water_holds < 3))
      ⊎ ((limbs : List LimbId) × (completion s ≡ some limbs) × IsWon s limbs)
unfolding completion
completion_three s v = elim (Bool-cases (leb 3 (tally (flowered s)))) [
  | inl over ↦ inr (
    retain (flowered s) all_limbs,
    rw over refl,
    record {
      three = ground (arith, tally-flowered s v, v.water_capped);
      full = ground (arith, tally-flowered s v, v.water_capped);
      fed = λ l. contains-flowered s l ∙ flowered-running s l v;
    },
  )
  | inr on ↦ inl (rw on refl, ground (arith, tally-flowered s v))
]

role_eq_refl : (r : PlayerRole) → role_eq r r ≡ true
role_eq_refl r = ground arith

-- What Crown is shown depends on the sunlit and the watered limbs alone: not on the pairing, nor
-- on the roots that Root holds open.
pub crown_view_private :
    (s t : GreatTreeState)
    → s.sun_holds ≡ t.sun_holds
    → s.limb_water ≡ t.limb_water
    → observation s (role s.crown_seat) ≡ observation t (role t.crown_seat)
unfolding observation
crown_view_private s t h w =
    rw (role_eq_refl (role s.crown_seat), role_eq_refl (role t.crown_seat))
      (λ i. some (
        crown (map (λ l. record { id = l; sun = contains (h i) l; water = at (w i) l }) all_limbs)))
