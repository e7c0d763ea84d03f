-- ===== src/SpaceGame/Engine.antt =====
-- state_engine.rs: `apply_action` and the handlers it calls. A handler gives the next state and the
-- visual effects. `str::to_lowercase`, used in one effect's name, is a parameter.
use Prim.Native.String.{◌++◌ as ◌++ₛ◌}
use parlando.Common.{
  Bool, true, false, ◌&&◌, not, List, [], ◌∷◌, ◌++◌, none, some, String, any, is_some,
  if◌then◌else◌, ◌==◌, eq_String,
}
use parlando.Common.Int.{succ, pred}
use parlando.SpaceGame.Level.{Position, at_cell, room_at_position, is_walkable, door_kind_for_step}
use parlando.SpaceGame.State.{
  SpaceAction, move_step, toggle_fuse, toggle_breaker, set_valve, hold_override, charge_battery,
  move_battery, cycle_relay, launch_beacon, PlayerState, SpaceGameState, Systems,
}
use parlando.SpaceGame.Systems.{derive_systems, diagnostic_for, player_state}

unfoldable pub step : Position → String → Position
step p direction =
    if direction == "down"
    then record p { y = succ p.y }
    else if direction == "left"
    then record p { x = pred p.x }
    else if direction == "right"
    then record p { x = succ p.x }
    else record p { y = pred p.y }

unfoldable pub next_relay : String → String
next_relay relay =
    if relay == "bypass" then "loop" else if relay == "loop" then "array" else "bypass"

-- `items.push` unless the item is there.
abbrev pub push_once : List String → String → List String
push_once items text = if any (λ item. item == text) items then items else items ++ text ∷ []

unfoldable pub reveal : SpaceGameState → String → String → SpaceGameState
reveal state player text =
    if player == "B"
    then record state {
      knowledge = record state.knowledge { b = push_once state.knowledge.b text };
    }
    else record state {
      knowledge = record state.knowledge { a = push_once state.knowledge.a text };
    }

-- An assignment through `player_state_mut`.
abbrev pub put_player : SpaceGameState → String → PlayerState → SpaceGameState
put_player state player placed =
    if player == "B"
    then record state { players = record state.players { b = placed } }
    else record state { players = record state.players { a = placed } }

-- The last part of `apply_move_step`, for a target inside a room that the player may enter.
unfoldable pub enter : SpaceGameState → Systems → String → Position → String → SpaceGameState
unfolding reveal is_walkable player_state
enter state before player target target_room =
    if target_room == "airlock"
      && (not ((player_state state player).room == "airlock") && not before.door_access)
    then reveal state player
        "The airlock hatch needs oxygen pressure, door power, and the floor plate."
    else if is_walkable target
    then put_player state player
        (record { room = target_room; position = target; plate_held = at_cell target 7 2 })
    else state

unfoldable pub apply_move_step : SpaceGameState → Systems → String → String → SpaceGameState
unfolding step room_at_position enter player_state door_kind_for_step
apply_move_step state before player direction =
    let current = (player_state state player).position in
    let target = step current direction in
    elim (room_at_position target) [
      | none ↦ state
      | some target_room ↦
          if not ((player_state state player).room == target_room)
            && not (is_some (door_kind_for_step current target))
          then state
          else enter state before player target target_room
    ]

abbrev flip_fuse : SpaceGameState → String → SpaceGameState
flip_fuse state color =
    if color == "yellow"
    then record state { fuses = record state.fuses { yellow = not state.fuses.yellow } }
    else if color == "red"
    then record state { fuses = record state.fuses { red = not state.fuses.red } }
    else record state { fuses = record state.fuses { blue = not state.fuses.blue } }

abbrev trip_by_fuse : SpaceGameState → String → SpaceGameState
trip_by_fuse state color =
    if color == "yellow" && (state.fuses.yellow && state.breakers.aux)
    then reveal
        (reveal (record state { oxygen_fan_tripped = true }) "A"
          "Yellow pump surge trips the oxygen fan when AUX is already live.")
        "B" "The fan trip is electrical, not a valve failure."
    else state

abbrev feed_lamps : SpaceGameState → String → String → SpaceGameState
feed_lamps state player color =
    if color == "red" && state.fuses.red
    then reveal state player "The red fuse only feeds the reserve lamps in this prototype."
    else state

unfoldable pub flip_fuses : SpaceGameState → String → String → SpaceGameState × List String
unfolding reveal
flip_fuses state player color = (
  feed_lamps (trip_by_fuse (flip_fuse state color) color) player color,
  ("device:fuse-" ++ₛ color) ∷ "room:power" ∷ [],
)

abbrev pub flip_breaker : SpaceGameState → String → SpaceGameState
flip_breaker state breaker =
    if breaker == "aux"
    then record state { breakers = record state.breakers { aux = not state.breakers.aux } }
    else record state { breakers = record state.breakers { main = not state.breakers.main } }

abbrev pub trip_by_breaker : SpaceGameState → String → SpaceGameState
trip_by_breaker state breaker =
    if breaker == "aux" && (state.breakers.aux && state.fuses.yellow)
    then reveal
        (reveal (record state { oxygen_fan_tripped = true }) "A"
          "AUX and the yellow pump fuse together trip the fan relay.")
        "B" "If oxygen dies while valves look right, ask about the aux breaker."
    else state

abbrev pub drain_charger : SpaceGameState → String → SpaceGameState
drain_charger state breaker =
    if breaker == "main" && (not state.breakers.main && not (state.battery.location == "signal"))
    then record state { battery = record state.battery { charged = false } }
    else state

unfoldable pub flip_breakers : SpaceGameState → String → SpaceGameState × List String
unfolding reveal
flip_breakers state breaker = (
  drain_charger (trip_by_breaker (flip_breaker state breaker) breaker) breaker,
  ("device:breaker-" ++ₛ breaker) ∷ "room:power" ∷ [],
)

abbrev turn_valve : SpaceGameState → String → Bool → SpaceGameState
turn_valve state valve to =
    if valve == "C"
    then record state { valves = record state.valves { c = to } }
    else if valve == "floodgate"
    then record state { valves = record state.valves { floodgate = to } }
    else record state { valves = record state.valves { a = to } }

abbrev flood : SpaceGameState → Systems → String → Bool → SpaceGameState
flood state before valve to =
    if valve == "floodgate" && (to && before.oxygen_stable)
    then reveal (record state { pressure_drained = true }) "B"
        "Opening the floodgate restores coolant but drains cabin pressure first."
    else if valve == "A" && to
    then record state { pressure_drained = false; oxygen_fan_tripped = false }
    else if valve == "C" && not to
    then reveal state "A"
        "Valve C closed starves the charger but helps cooling after floodgate opens."
    else state

unfoldable pub turn_valves :
    (String → String) → SpaceGameState → Systems → String → Bool → SpaceGameState × List String
unfolding reveal
turn_valves to_lowercase state before valve to = (
  flood (turn_valve state valve to) before valve to,
  ("device:valve-" ++ₛ to_lowercase valve) ∷ "room:valve" ∷ [],
)

unfoldable pub hold : SpaceGameState → String → Bool → SpaceGameState × List String
unfolding reveal
hold state player held =
    let next = record state { override_held = held } in
    (
      if held
          then reveal next player "The bypass keeps the door motor powered during battery transfer."
          else next,
      "device:bypass" ∷ "room:junction" ∷ [],
    )

unfoldable pub charge : SpaceGameState → Systems → String → SpaceGameState
unfolding reveal diagnostic_for
charge state before player =
    if before.charger_fed && state.battery.location == "charger"
    then reveal
        (reveal (record state { battery = record state.battery { charged = true; spent = false } })
          "A" "The charger needs blue bus, yellow pump, main breaker, and valve C water.")
        "B" "Floodgate open steals the water return from the charger."
    else reveal state player (diagnostic_for state player)

abbrev warn_motor : SpaceGameState → SpaceGameState
warn_motor state =
    if not state.override_held
    then reveal state "B"
        "Battery transfer removes the door motor supply unless the bypass is held."
    else state

unfoldable pub transfer : SpaceGameState → String → SpaceGameState
unfolding reveal
transfer state player =
    if state.battery.location == "charger"
    then if state.battery.charged
      then warn_motor (record state { battery = record state.battery { location = "signal" } })
      else reveal state player "Charge the battery before moving it to the signal array."
    else record state { battery = record state.battery { location = "charger"; spent = false } }

unfoldable pub set_relay : SpaceGameState → Systems → String → SpaceGameState × List String
unfolding reveal
set_relay state before mode =
    let next = record state { relay = mode } in
    (
      if mode == "array" && not before.signal_routed
          then reveal
              (reveal next "A"
                "ARRAY mode should wait until charged battery and coolant are both ready.")
              "B" "A loop fault means relay mode was changed before the physical path was ready."
          else next,
      "device:relay" ∷ "room:signal" ∷ [],
    )

unfoldable pub launch : SpaceGameState → Systems → String → SpaceGameState
unfolding reveal
launch state before player =
    if before.ready_to_launch
    then record state { beacon_launched = true }
    else if state.battery.location == "signal" && state.battery.charged
    then reveal (record state { battery = record state.battery { spent = true } }) player
        "Early launch attempts consume the signal battery pulse."
    else state

abbrev bool_ne : Bool → Bool → Bool
bool_ne true y = not y
bool_ne false y = y

abbrev effect_if : Bool → String → List String
effect_if changed effect = if changed then effect ∷ [] else []

unfoldable pub finalize : SpaceGameState → Systems → List String → SpaceGameState
unfolding derive_systems
finalize state before effects =
    let after = derive_systems state in
    record state {
      visual_effects =
          effects
          ++ (effect_if (bool_ne before.power_stable after.power_stable) "room:power"
              ++ (effect_if (bool_ne before.oxygen_stable after.oxygen_stable) "room:oxygen"
                  ++ (effect_if (bool_ne before.door_access after.door_access) "room:airlock"
                      ++ (effect_if (bool_ne before.signal_routed after.signal_routed) "room:signal"
                          ++ effect_if (bool_ne before.cooling_restored after.cooling_restored)
                              "room:valve"))));
    }

-- The handler of each action.
unfoldable pub handle :
    (String → String) → SpaceGameState → Systems → SpaceAction → SpaceGameState × List String
unfolding apply_move_step flip_fuses flip_breakers turn_valves hold charge transfer set_relay
    next_relay launch
handle lower state before (move_step player direction) =
    (apply_move_step state before player direction, [])
handle lower state before (toggle_fuse player color) = flip_fuses state player color
handle lower state before (toggle_breaker _ breaker) = flip_breakers state breaker
handle lower state before (set_valve _ valve to) = turn_valves lower state before valve to
handle lower state before (hold_override player held) = hold state player held
handle lower state before (charge_battery player) = (charge state before player, [])
handle lower state before (move_battery player) = (transfer state player, [])
handle lower state before (cycle_relay _) = set_relay state before (next_relay state.relay)
handle lower state before (launch_beacon player) = (launch state before player, [])

unfoldable pub apply_action : (String → String) → SpaceGameState → SpaceAction → SpaceGameState
unfolding derive_systems handle finalize
apply_action lower state action =
    let before = derive_systems state in
    let (next, effects) = handle lower state before action in finalize next before effects
