-- ===== src/SpaceGame/Actions.antt =====
-- state_engine.rs: the actions that are available, and their validation.
use parlando.Common.{
  Bool, true, false, ◌&&◌, not, List, [], ◌∷◌, ◌++◌, String, any, if◌then◌else◌, ◌==◌, eq_String,
}
use parlando.SpaceGame.Level.{Device, devices_at_position}
use parlando.SpaceGame.State.{
  SpaceAction, move_step, toggle_fuse, toggle_breaker, set_valve, hold_override, charge_battery,
  move_battery, cycle_relay, launch_beacon, player, SpaceGameState,
}
use parlando.SpaceGame.Systems.{player_state}

abbrev bool_eq : Bool → Bool → Bool
bool_eq true y = y
bool_eq false y = not y

-- The derived `PartialEq`.
unfoldable pub action_eq : SpaceAction → SpaceAction → Bool
action_eq (move_step p d) (move_step q e) = p == q && d == e
action_eq (toggle_fuse p c) (toggle_fuse q d) = p == q && c == d
action_eq (toggle_breaker p c) (toggle_breaker q d) = p == q && c == d
action_eq (set_valve p v x) (set_valve q w y) = p == q && (v == w && bool_eq x y)
action_eq (hold_override p x) (hold_override q y) = p == q && bool_eq x y
action_eq (charge_battery p) (charge_battery q) = p == q
action_eq (move_battery p) (move_battery q) = p == q
action_eq (cycle_relay p) (cycle_relay q) = p == q
action_eq (launch_beacon p) (launch_beacon q) = p == q
action_eq _ _ = false

-- What the device offers the player.
unfoldable pub device_actions : SpaceGameState → String → String → List SpaceAction
device_actions state p id =
    if id == "fuse-blue"
    then toggle_fuse p "blue" ∷ []
    else if id == "fuse-yellow"
    then toggle_fuse p "yellow" ∷ []
    else if id == "fuse-red"
    then toggle_fuse p "red" ∷ []
    else if id == "breaker-main"
    then toggle_breaker p "main" ∷ []
    else if id == "breaker-aux"
    then toggle_breaker p "aux" ∷ []
    else if id == "bypass"
    then hold_override p (not state.override_held) ∷ []
    else if id == "valve-a"
    then set_valve p "A" (not state.valves.a) ∷ []
    else if id == "valve-c"
    then set_valve p "C" (not state.valves.c) ∷ []
    else if id == "valve-floodgate"
    then set_valve p "floodgate" (not state.valves.floodgate) ∷ []
    else if id == "charger"
    then charge_battery p ∷ []
    else if id == "battery"
    then move_battery p ∷ []
    else if id == "relay"
    then cycle_relay p ∷ []
    else if id == "beacon"
    then launch_beacon p ∷ []
    else []

unfoldable pub offered : SpaceGameState → String → List Device → List SpaceAction
unfolding device_actions
offered state p [] = []
offered state p (device ∷ rest) = device_actions state p device.id ++ offered state p rest

unfoldable pub available_actions : SpaceGameState → String → List SpaceAction
unfolding offered
available_actions state p =
    offered state p (devices_at_position (player_state state p).position state.battery.location)

pub data Validation : Type 0 where
  valid : Validation
  other_player : Validation
  unavailable : Validation

abbrev pub is_move : SpaceAction → Bool
is_move (move_step _ _) = true
is_move _ = false

-- `validate_action`: the two errors are its two messages.
unfoldable pub validate_action : SpaceGameState → SpaceAction → String → Validation
unfolding available_actions action_eq
validate_action state action p =
    if not (player action == p)
    then other_player
    else if is_move action
    then valid
    else if any (action_eq action) (available_actions state p)
    then valid
    else unavailable
