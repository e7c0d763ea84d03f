-- ===== src/SpaceGame/Systems.antt =====
-- state_engine.rs: the first state, the derived systems and the diagnostics.
use parlando.Common.{false, ◌&&◌, ◌||◌, not, [], ◌∷◌, String, if◌then◌else◌, ◌==◌, eq_String}
use parlando.SpaceGame.Level.{cell}
use parlando.SpaceGame.State.{SpaceGameState, Systems, PlayerState}

unfoldable pub initial_state : SpaceGameState
initial_state = record {
  players = record {
    a = record { room = "power"; position = cell 2 2; plate_held = false };
    b = record { room = "valve"; position = cell 9 6; plate_held = false };
  };
  fuses = record { blue = false; yellow = false; red = false };
  breakers = record { main = false; aux = false };
  valves = record { a = false; c = false; floodgate = false };
  override_held = false;
  battery = record { location = "charger"; charged = false; spent = false };
  relay = "bypass";
  pressure_drained = false;
  oxygen_fan_tripped = false;
  knowledge = record {
    a =
        "Blue fuse wakes the bus feed."
        ∷ "Yellow fuse is marked PUMP, but the aux breaker warning is scratched." ∷ [];
    b =
        "Valve A is drawn beside cabin pressure."
        ∷ "Valve C is drawn beside charger water and coolant, depending on floodgate state." ∷ [];
  };
  visual_effects = [];
  beacon_launched = false;
}

unfoldable pub derive_systems : SpaceGameState → Systems
derive_systems state =
    let pump_powered =
      state.fuses.yellow && (state.breakers.main && not state.oxygen_fan_tripped) in
    let power_stable = state.fuses.blue && (state.breakers.main && not state.battery.spent) in
    let charger_fed =
      power_stable && (pump_powered && (state.valves.c && not state.valves.floodgate)) in
    let cooling_restored = state.valves.floodgate && not state.valves.c in
    let oxygen_stable =
      pump_powered
      && (state.valves.a && (not state.pressure_drained && not state.oxygen_fan_tripped)) in
    let door_motor_powered =
      power_stable && (state.battery.location == "charger" || state.override_held) in
    let door_access =
      door_motor_powered
      && (oxygen_stable && (state.players.a.plate_held || state.players.b.plate_held)) in
    let signal_routed =
      state.relay == "array"
      && (state.battery.location == "signal"
          && (state.battery.charged && (not state.battery.spent && cooling_restored))) in
    record {
      pump_powered = pump_powered;
      charger_fed = charger_fed;
      cooling_restored = cooling_restored;
      oxygen_stable = oxygen_stable;
      power_stable = power_stable;
      door_access = door_access;
      signal_routed = signal_routed;
      battery_ready = state.battery.charged && not state.battery.spent;
      ready_to_launch = power_stable && (oxygen_stable && (door_access && signal_routed));
    }

abbrev for_player : String → String → String → String
for_player player for_a for_b = if player == "A" then for_a else for_b

unfoldable pub diagnostic_for : SpaceGameState → String → String
unfolding derive_systems
diagnostic_for state player =
    let systems = derive_systems state in
    if not systems.power_stable
    then for_player player "Bus feed dark: blue fuse and MAIN breaker must both be live."
        "Node Lantern has no stable feed; ask for the blue bus and main line."
    else if state.oxygen_fan_tripped
    then for_player player "Fan relay tripped by AUX backfeed through yellow pump leg."
        "Oxygen fault is electrical; valve positions are not the first problem."
    else if not systems.pump_powered
    then for_player player "Pump leg idle: yellow fuse needs MAIN, but not AUX surge."
        "Cabin pressure cannot refill until the pump leg is live."
    else if not systems.charger_fed
        && (state.battery.location == "charger" && not state.battery.charged)
    then for_player player "Charger starved: check yellow pump and valve C water return."
        "Water return is missing; floodgate and valve C fight over the charger."
    else if not systems.oxygen_stable
    then for_player player "Pressure is not holding; valve A must refill after any floodgate drain."
        "Cabin pressure drained through the flood path; use valve A to refill."
    else if not systems.door_access
    then for_player player
        "Door motor wants bypass during battery transfer and a latch plate signal."
        "The hatch needs oxygen pressure, motor feed, and someone on the plate."
    else if not systems.signal_routed
    then for_player player
        "Signal path missing: battery at array, relay ARRAY, and coolant restored."
        "Relay map is not locked: coolant plus charged array battery required."
    else "All launch prerequisites are green at this instant."

unfoldable pub player_state : SpaceGameState → String → PlayerState
player_state state player = if player == "B" then state.players.b else state.players.a
