-- ===== src/SpaceGame/Play.antt =====
-- adapter.rs: whole games, from the first state through any requests of either player.
use parlando.Common.{
  ◌≡◌, ◌≢◌, refl, Bool, true, false, List, none, String, arith, Bool-cases, inl, inr, ◌⊎◌, ==_iff,
  ◌==◌, eq_String, any, subst, sym, ap,
}
use parlando.Runtime.Role.{PlayerRole, as_str}
use parlando.SpaceGame.State.{
  SpaceAction, player, PlayerState, SpaceGameState, move_step, toggle_fuse, toggle_breaker,
  set_valve, hold_override, charge_battery, move_battery, cycle_relay, launch_beacon,
}
use parlando.SpaceGame.Systems.{initial_state, derive_systems}
use parlando.SpaceGame.Actions.{is_move, action_eq, available_actions, validate_action}
use parlando.SpaceGame.Level.{room_at_position}
use parlando.SpaceGame.Engine.{apply_action}
use parlando.SpaceGame.Placement.{IsPlaced, Moved, apply_action-Steps}
use parlando.SpaceGame.Power.{
  IsStowed, apply_action-IsStowed, is_launch, apply_action-beacon, IsLaunchable,
  ready_to_launch-IsLaunchable,
}
use parlando.SpaceGame.Adapter.{accepted, rejected, reply, observation, completion}

-- A request is accepted exactly when it is the actor's own, and a move or one that the game offers
-- the actor there; what it is answered then is the engine's next state.
pub reply_answer :
    (lower : String → String) (s : SpaceGameState) (action : SpaceAction) (actor : PlayerRole)
    → ((reply lower s action actor ≡ accepted (apply_action lower s action))
        × (player action ≡ as_str actor)
        × ((is_move action ≡ true)
            ⊎ (any (action_eq action) (available_actions s (as_str actor)) ≡ true)))
      ⊎ ((reply lower s action actor ≡ rejected (record { code = "wrong_role" }))
          × (player action ≢ as_str actor))
      ⊎ ((reply lower s action actor ≡ rejected (record { code = "action_unavailable" }))
          × (player action ≡ as_str actor)
          × (is_move action ≡ false)
          × (any (action_eq action) (available_actions s (as_str actor)) ≡ false))
unfolding reply validate_action
reply_answer lower s action actor = elim (Bool-cases (player action == as_str actor)) [
  | inr foreign ↦ inr (
      inl (
        rw (foreign, foreign) refl,
        λ same. ground (arith, foreign, (==_iff (player action) (as_str actor)).1 same),
      ))
  | inl own ↦ elim (Bool-cases (is_move action)) [
    | inl m ↦ inl (rw (own, m) refl, (==_iff (player action) (as_str actor)).0 own, inl m)
    | inr n ↦ elim (Bool-cases (any (action_eq action) (available_actions s (as_str actor)))) [
      | inl offered ↦
          inl
            (rw (own, n, offered) refl, (==_iff (player action) (as_str actor)).0 own, inr offered)
      | inr gone ↦ inr (
          inr (rw (own, n, gone, own) refl, (==_iff (player action) (as_str actor)).0 own, n, gone))
    ]
  ]
]

pub data Reach (lower : String → String) : SpaceGameState → Type 0 where
  start : Reach lower initial_state
  next :
      {s : SpaceGameState} (t : SpaceGameState) (action : SpaceAction) (actor : PlayerRole)
      → Reach lower s
      → reply lower s action actor ≡ accepted t
      → Reach lower t

-- Both players in a room of the map, and the sled stowed.
abbrev pub IsSound : SpaceGameState → Type 0
IsSound s = (IsPlaced s.players.a) × (IsPlaced s.players.b) × (IsStowed s.battery)

Moved-IsPlaced : (access : Bool) (p q : PlayerState) → Moved access p q → IsPlaced p → IsPlaced q
Moved-IsPlaced access p q (inl e) h = subst IsPlaced e h
Moved-IsPlaced access p q (inr m) h = m.0

accepted_next :
    (lower : String → String) (s t : SpaceGameState) (action : SpaceAction) (actor : PlayerRole)
    → reply lower s action actor ≡ accepted t
    → (apply_action lower s action ≡ t) × (player action ≡ as_str actor)
accepted_next lower s t action actor h = elim (reply_answer lower s action actor) [
  | inl y ↦ (cc, y.1)
  | inr (inl n) ↦ cc
  | inr (inr n) ↦ cc
]

apply_action-IsSound :
    (lower : String → String) (s : SpaceGameState) (action : SpaceAction)
    → IsSound s
    → IsSound (apply_action lower s action)
apply_action-IsSound lower s action h = elim (apply_action-Steps lower s action) [
  | inl (_, same, moved) ↦ (
    subst IsPlaced same h.0,
    Moved-IsPlaced _ _ _ moved h.1,
    apply_action-IsStowed lower s action h.2,
  )
  | inr (_, same, moved) ↦ (
    Moved-IsPlaced _ _ _ moved h.0,
    subst IsPlaced same h.1,
    apply_action-IsStowed lower s action h.2,
  )
]

-- In every game, both players stand in rooms of the map under the map's names, and the sled is at
-- the charger, unspent, or at the array, charged.
pub Reach-IsSound : (lower : String → String) {s : SpaceGameState} → Reach lower s → IsSound s
unfolding initial_state room_at_position
Reach-IsSound lower start = ((refl, refl), (refl, refl), inl (refl, refl))
Reach-IsSound lower (next {s} t action actor r e) =
    subst IsSound (accepted_next lower s t action actor e).0
      (apply_action-IsSound lower s action (Reach-IsSound lower r))

launched : (t : SpaceGameState) → completion t ≢ none → t.beacon_launched ≡ true
unfolding completion
launched t h = ground (arith, h)

idle : (s : SpaceGameState) → completion s ≡ none → s.beacon_launched ≡ false
unfolding completion
idle s h = ground (arith, h)

launch_of :
    (action : SpaceAction) (p : String)
    → player action ≡ p
    → is_launch action ≡ true
    → action ≡ launch_beacon p
unfolding player
launch_of (launch_beacon q) p own y = ap launch_beacon own
launch_of (move_step q d) p own y = cc
launch_of (toggle_fuse q d) p own y = cc
launch_of (toggle_breaker q d) p own y = cc
launch_of (set_valve q v to) p own y = cc
launch_of (hold_override q held) p own y = cc
launch_of (charge_battery q) p own y = cc
launch_of (move_battery q) p own y = cc
launch_of (cycle_relay q) p own y = cc

-- A request that starts the beacon is a launch, by the player who made it, with the station ready.
pub beacon_started :
    (lower : String → String) (s t : SpaceGameState) (action : SpaceAction) (actor : PlayerRole)
    → reply lower s action actor ≡ accepted t
    → completion s ≡ none
    → completion t ≢ none
    → (action ≡ launch_beacon (as_str actor)) × IsLaunchable s
beacon_started lower s t action actor e before after =
    let (same, own) = accepted_next lower s t action actor e in
    let now : (apply_action lower s action).beacon_launched ≡ true =
      subst (λ u. u.beacon_launched ≡ true) (sym same) (launched t after) in
    let off = idle s before in
    let law = apply_action-beacon lower s action in
    (
      launch_of action (as_str actor) own (ground (arith, now, off, law)),
      ready_to_launch-IsLaunchable s (ground (arith, now, off, law)),
    )

-- What a player is shown does not depend on what the other player has learnt.
pub observation_private :
    (s : SpaceGameState) (facts : List String)
    → (observation (record s { knowledge = record s.knowledge { b = facts } }) PlayerRole.a
        ≡ observation s PlayerRole.a)
      × (observation (record s { knowledge = record s.knowledge { a = facts } }) PlayerRole.b
          ≡ observation s PlayerRole.b)
unfolding observation derive_systems
observation_private s facts = (refl, refl)
