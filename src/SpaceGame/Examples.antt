-- ===== src/SpaceGame/Examples.antt =====
-- Runs of the Space Game.
use parlando.Common.{◌≡◌, refl, true, false, [], String}
use parlando.Runtime.Role.{PlayerRole, as_str}
use parlando.SpaceGame.Level.{cell, devices_at_position}
use parlando.SpaceGame.State.{SpaceAction, move_step, launch_beacon, player, SpaceGameState}
use parlando.SpaceGame.Systems.{initial_state, player_state, derive_systems}
use parlando.SpaceGame.Actions.{
  action_eq, available_actions, offered, device_actions, validate_action,
}
use parlando.SpaceGame.Engine.{apply_action}
use parlando.SpaceGame.Adapter.{reply, completion}
use parlando.SpaceGame.Placement.{Steps, apply_action-Steps}
use parlando.SpaceGame.Power.{IsLaunchable}
use parlando.SpaceGame.Play.{start, next, IsSound, Reach-IsSound, beacon_started}

abbrev same_case : String → String
same_case s = s

abbrev down : SpaceAction
down = move_step "A" "down"

-- A state with everything ready: A at the beacon, B on the plate.
abbrev ready : SpaceGameState
ready = record {
  players = record {
    a = record { room = "airlock"; position = cell 6 8; plate_held = false };
    b = record { room = "junction"; position = cell 7 2; plate_held = true };
  };
  fuses = record { blue = true; yellow = true; red = false };
  breakers = record { main = true; aux = false };
  valves = record { a = true; c = false; floodgate = true };
  override_held = true;
  battery = record { location = "signal"; charged = true; spent = false };
  relay = "array";
  pressure_drained = false;
  oxygen_fan_tripped = false;
  knowledge = record { a = []; b = [] };
  visual_effects = [];
  beacon_launched = false;
}

apply_action-Steps_example :
    Steps
      (derive_systems initial_state).door_access
      (player down)
      initial_state.players
      (apply_action same_case initial_state down).players
apply_action-Steps_example = apply_action-Steps same_case initial_state down

beacon_started_example :
    (launch_beacon "A" ≡ launch_beacon (as_str PlayerRole.a)) × IsLaunchable ready
unfolding completion reply validate_action available_actions offered device_actions
    devices_at_position as_str action_eq player_state
beacon_started_example =
    beacon_started same_case ready (apply_action same_case ready (launch_beacon "A"))
      (launch_beacon "A") PlayerRole.a refl refl (λ n. cc)

Reach-IsSound_example : IsSound (apply_action same_case initial_state down)
unfolding reply validate_action as_str
Reach-IsSound_example =
    Reach-IsSound same_case
      (next (apply_action same_case initial_state down) down PlayerRole.a start refl)
