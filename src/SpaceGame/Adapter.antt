-- ===== src/SpaceGame/Adapter.antt =====
-- adapter.rs: the game as the server runs it.
use parlando.Common.{not, List, [], Option, none, some, String, if◌then◌else◌, ◌==◌, eq_String}
use parlando.Runtime.Role.{PlayerRole, as_str, role_eq, ActionRejection}
use parlando.SpaceGame.State.{
  SpaceAction, player, SpaceGameState, SpaceObservation, SpaceCompletion,
}
use parlando.SpaceGame.Systems.{derive_systems}
use parlando.SpaceGame.Actions.{Validation, valid, validate_action}
use parlando.SpaceGame.Engine.{apply_action}

-- What `Game::apply_action` gives the server.
pub data Reply : Type 0 where
  accepted : SpaceGameState → Reply
  rejected : ActionRejection → Reply

abbrev answer : Validation → SpaceGameState → String → String → Reply
answer valid next from actor = accepted next
answer _ next from actor =
    rejected (record { code = if not (from == actor) then "wrong_role" else "action_unavailable" })

unfoldable pub reply : (String → String) → SpaceGameState → SpaceAction → PlayerRole → Reply
unfolding validate_action apply_action as_str player
reply lower state action actor =
    answer (validate_action state action (as_str actor)) (apply_action lower state action)
      (player action) (as_str actor)

abbrev only_for : PlayerRole → PlayerRole → List String → List String
only_for viewer owner facts = if role_eq viewer owner then facts else []

unfoldable pub observation : SpaceGameState → PlayerRole → SpaceObservation
unfolding derive_systems as_str
observation state viewer = record {
  players = state.players;
  fuses = state.fuses;
  breakers = state.breakers;
  valves = state.valves;
  override_held = state.override_held;
  battery = state.battery;
  relay = state.relay;
  pressure_drained = state.pressure_drained;
  oxygen_fan_tripped = state.oxygen_fan_tripped;
  visual_effects = state.visual_effects;
  beacon_launched = state.beacon_launched;
  role = as_str viewer;
  systems = derive_systems state;
  knowledge = record {
    a = only_for viewer PlayerRole.a state.knowledge.a;
    b = only_for viewer PlayerRole.b state.knowledge.b;
  };
  private_knowledge = if role_eq viewer PlayerRole.a then state.knowledge.a else state.knowledge.b;
  log = [];
}

unfoldable pub completion : SpaceGameState → Option SpaceCompletion
unfolding derive_systems
completion state =
    if state.beacon_launched
    then some (record { beacon_launched = state.beacon_launched; systems = derive_systems state })
    else none
