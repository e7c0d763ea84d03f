-- ===== src/SpaceGame/Placement.antt =====
-- state_engine.rs: where the players stand. Only a move changes it, and only the mover's place; a
-- player stands in a room of the map, the one the state names, and enters the airlock only while
-- the hatch has access.
use parlando.Common.{
  ◌≡◌, ◌≢◌, refl, Bool, true, false, ◌&&◌, not, some, String, arith, Bool-cases, Option-cases, inl,
  inr, ◌⊎◌, ==_iff, ◌==◌, eq_String, if◌then◌else◌, is_some, ap, sym, subst,
}
use parlando.SpaceGame.Level.{Position, at_cell, room_at_position, is_walkable, door_kind_for_step}
use parlando.SpaceGame.State.{
  SpaceAction, move_step, toggle_fuse, toggle_breaker, set_valve, hold_override, charge_battery,
  move_battery, cycle_relay, launch_beacon, Players, PlayerState, SpaceGameState, Systems, player,
}
use parlando.SpaceGame.Systems.{derive_systems, player_state}
use parlando.SpaceGame.Engine.{
  reveal, enter, apply_move_step, step, flip_fuses, flip_breakers, turn_valves, hold, charge,
  transfer, set_relay, next_relay, launch, finalize, handle, apply_action, put_player,
}

reveal-players : (s : SpaceGameState) (p text : String) → (reveal s p text).players ≡ s.players
unfolding reveal
reveal-players s p text = elim (Bool-cases (p == "B")) [ inl y ↦ rw y refl | inr n ↦ rw n refl ]

flip_fuses-players : (s : SpaceGameState) (p c : String) → (flip_fuses s p c).0.players ≡ s.players
unfolding flip_fuses
flip_fuses-players s p c = grind (arith, reveal-players)

flip_breakers-players :
    (s : SpaceGameState) (c : String) → (flip_breakers s c).0.players ≡ s.players
unfolding flip_breakers
flip_breakers-players s c = grind (arith, reveal-players)

turn_valves-players :
    (lower : String → String) (s : SpaceGameState) (before : Systems) (v : String) (to : Bool)
    → (turn_valves lower s before v to).0.players ≡ s.players
unfolding turn_valves
turn_valves-players lower s before v to = grind (arith, reveal-players)

hold-players :
    (s : SpaceGameState) (p : String) (held : Bool) → (hold s p held).0.players ≡ s.players
unfolding hold
hold-players s p held = grind (arith, reveal-players)

charge-players :
    (s : SpaceGameState) (before : Systems) (p : String) → (charge s before p).players ≡ s.players
unfolding charge
charge-players s before p = grind (arith, reveal-players)

transfer-players : (s : SpaceGameState) (p : String) → (transfer s p).players ≡ s.players
unfolding transfer
transfer-players s p = grind (arith, reveal-players)

set_relay-players :
    (s : SpaceGameState) (before : Systems) (mode : String)
    → (set_relay s before mode).0.players ≡ s.players
unfolding set_relay
set_relay-players s before mode = grind (arith, reveal-players)

launch-players :
    (s : SpaceGameState) (before : Systems) (p : String) → (launch s before p).players ≡ s.players
unfolding launch
launch-players s before p = grind (arith, reveal-players)

-- In a room of the map, the one that the state names; the plate is held from its cell alone.
abbrev pub IsPlaced : PlayerState → Type 0
IsPlaced p = (room_at_position p.position ≡ some p.room) × (p.plate_held ≡ at_cell p.position 7 2)

-- Into the airlock only with access.
abbrev pub Passes : Bool → String → String → Type 0
Passes access from to = (from ≡ "airlock") ⊎ ((access ≡ true) ⊎ (to ≢ "airlock"))

-- What a step may do to a player's place.
abbrev pub Moved : Bool → PlayerState → PlayerState → Type 0
Moved access from to = (from ≡ to) ⊎ (IsPlaced to × Passes access from.room to.room)

abbrev pub Steps : Bool → String → Players → Players → Type 0
Steps access p from to =
    ((p ≡ "B") × (from.a ≡ to.a) × Moved access from.b to.b)
    ⊎ ((p ≢ "B") × (from.b ≡ to.b) × Moved access from.a to.a)

Steps-stay : (access : Bool) (p : String) (from to : Players) → to ≡ from → Steps access p from to
Steps-stay access p from to e = elim (Bool-cases (p == "B")) [
  | inl y ↦ inl (
    (==_iff p "B").0 y,
    ap (λ (q : Players). q.a) (sym e),
    inl (ap (λ (q : Players). q.b) (sym e)),
  )
  | inr n ↦ inr (
    ground (arith, ==_iff p "B"),
    ap (λ (q : Players). q.b) (sym e),
    inl (ap (λ (q : Players). q.a) (sym e)),
  )
]

put_player-Steps :
    (access : Bool) (s : SpaceGameState) (p : String) (placed : PlayerState)
    → IsPlaced placed
    → Passes access (player_state s p).room placed.room
    → Steps access p s.players (put_player s p placed).players
unfolding player_state
put_player-Steps access s p placed h w = elim (Bool-cases (p == "B")) [
  | inl y ↦ rw y (
      inl (
        (==_iff p "B").0 y,
        refl,
        inr (
          h,
          subst (λ b. Passes access (if b then s.players.b else s.players.a).room placed.room) y w,
        ),
      ))
  | inr n ↦ rw n (
      inr (
        ground (arith, ==_iff p "B"),
        refl,
        inr (
          h,
          subst (λ b. Passes access (if b then s.players.b else s.players.a).room placed.room) n w,
        ),
      ))
]

walkable : (p : Position) (room : String) → room_at_position p ≡ some room → is_walkable p ≡ true
unfolding is_walkable
walkable p room h = ap is_some h

hatch :
    (here room : String) (access : Bool)
    → (room == "airlock" && (not (here == "airlock") && not access)) ≡ false
    → Passes access here room
hatch here room access h = ground (arith, ==_iff room "airlock", ==_iff here "airlock")

enter-Steps :
    (s : SpaceGameState) (before : Systems) (p : String) (target : Position) (room : String)
    → room_at_position target ≡ some room
    → Steps before.door_access p s.players (enter s before p target room).players
unfolding enter
enter-Steps s before p target room h =
    let here = (player_state s p).room in
    elim (Bool-cases (room == "airlock" && (not (here == "airlock") && not before.door_access))) [
      | inl shut ↦
          rw (enter, shut) (Steps-stay before.door_access p s.players _ (reveal-players s p _))
      | inr way ↦
          rw (enter, way, walkable target room h)
            (put_player-Steps before.door_access s p _ (h, refl)
              (hatch here room before.door_access way))
    ]

apply_move_step-Steps :
    (s : SpaceGameState) (before : Systems) (p direction : String)
    → Steps before.door_access p s.players (apply_move_step s before p direction).players
unfolding apply_move_step
apply_move_step-Steps s before p direction =
    let current = (player_state s p).position in
    let target = step current direction in
    elim (Option-cases (room_at_position target)) [
      | inl out ↦
          rw (apply_move_step, out) (Steps-stay before.door_access p s.players s.players refl)
      | inr (room, inside) ↦
          elim (Bool-cases (
            not ((player_state s p).room == room)
            && not (is_some (door_kind_for_step current target)))) [
              | inl shut ↦
                  rw (apply_move_step, inside, shut)
                    (Steps-stay before.door_access p s.players s.players refl)
              | inr way ↦
                  rw (apply_move_step, inside, way) (enter-Steps s before p target room inside)
            ]
    ]

-- Whatever is done, only the acting player can have moved, into a room of the map under the name
-- that the map gives it, and into the airlock only while the hatch had access.
pub apply_action-Steps :
    (lower : String → String) (s : SpaceGameState) (action : SpaceAction)
    → Steps
        (derive_systems s).door_access
        (player action)
        s.players
        (apply_action lower s action).players
unfolding apply_action handle finalize player
apply_action-Steps lower s (move_step p direction) =
    apply_move_step-Steps s (derive_systems s) p direction
apply_action-Steps lower s (toggle_fuse p c) = Steps-stay _ p s.players _ (flip_fuses-players s p c)
apply_action-Steps lower s (toggle_breaker p c) =
    Steps-stay _ p s.players _ (flip_breakers-players s c)
apply_action-Steps lower s (set_valve p v to) =
    Steps-stay _ p s.players _ (turn_valves-players lower s (derive_systems s) v to)
apply_action-Steps lower s (hold_override p held) =
    Steps-stay _ p s.players _ (hold-players s p held)
apply_action-Steps lower s (charge_battery p) =
    Steps-stay _ p s.players _ (charge-players s (derive_systems s) p)
apply_action-Steps lower s (move_battery p) = Steps-stay _ p s.players _ (transfer-players s p)
apply_action-Steps lower s (cycle_relay p) =
    Steps-stay _ p s.players _ (set_relay-players s (derive_systems s) (next_relay s.relay))
apply_action-Steps lower s (launch_beacon p) =
    Steps-stay _ p s.players _ (launch-players s (derive_systems s) p)
