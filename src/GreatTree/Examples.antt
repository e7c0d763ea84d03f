-- ===== src/GreatTree/Examples.antt =====
-- Runs of the Great Tree on a generator that does not shuffle.
use mathlib.Core.List.Perm
use parlando.Common.{ℕ, ◌≤◌, ◌≡◌, refl, true, false, List, none, some, ◌⊎◌, ◌<◌, length}
use parlando.Runtime.Role.{PlayerRole}
use parlando.GreatTree.Ids.{LimbId, at, spire, hand, knot}
use parlando.GreatTree.State.{CrownSeat, GreatTreeState, set_flow}
use parlando.GreatTree.Mechanics.{sun, running, apply_set_flow}
use parlando.GreatTree.Flow.{FlowAnswer, apply_set_flow-FlowAnswer}
use parlando.GreatTree.Start.{initial_state-IsValid}
use parlando.GreatTree.Adapter.{Rand, roots_of, generate, initial_state, apply_action, completion}
use parlando.GreatTree.Requests.{Moves}
use parlando.GreatTree.Liveness.{can_be_finished}
use parlando.GreatTree.Play.{
  IsSound, apply_action-IsSound, start, watered_in_sun, IsWon, completion_three,
}

abbrev still : Rand
still = record {
  Rng = Unit;
  seed_from_u64 = λ n. tt;
  shuffle = λ v g. (v, g);
  draw_limb = λ g. (spire, g);
  shuffle-perm = λ v g. Perm.refl (roots_of v);
}

abbrev first : GreatTreeState
first = initial_state still CrownSeat.seat_a 7

apply_action-IsSound_example : IsSound (apply_action first (set_flow knot true) PlayerRole.b).0
apply_action-IsSound_example =
    apply_action-IsSound first (set_flow knot true) PlayerRole.b
      (initial_state-IsValid still CrownSeat.seat_a 7)

watered_in_sun_example :
    (sun first spire ≡ true) × (running first (at first.bijection spire) ≡ true)
unfolding initial_state generate
watered_in_sun_example = watered_in_sun still CrownSeat.seat_a 7 first spire start refl

completion_three_example :
    ((completion first ≡ none) × (length first.water_holds < 3))
    ⊎ ((limbs : List LimbId) × (completion first ≡ some limbs) × IsWon first limbs)
completion_three_example = completion_three first (initial_state-IsValid still CrownSeat.seat_a 7)

apply_set_flow-FlowAnswer_example : FlowAnswer first hand false (apply_set_flow first hand false)
apply_set_flow-FlowAnswer_example =
    apply_set_flow-FlowAnswer first hand false (initial_state-IsValid still CrownSeat.seat_a 7)

can_be_finished_example :
    (n : ℕ) × (t : GreatTreeState) × (limbs : List LimbId) × Moves first n t
    × (n ≤ 6)
    × (completion t ≡ some limbs)
can_be_finished_example = can_be_finished still CrownSeat.seat_a 7 first start
