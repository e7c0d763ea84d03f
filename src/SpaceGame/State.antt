-- ===== src/SpaceGame/State.antt =====
-- state_engine.rs: the actions, the state and what is derived from it.
use parlando.Common.{Bool, List, String, eq_String}
use parlando.SpaceGame.Level.{Position}

pub data SpaceAction : Type 0 where
  move_step : (player direction : String) → SpaceAction
  toggle_fuse : (player color : String) → SpaceAction
  toggle_breaker : (player breaker : String) → SpaceAction
  set_valve : (player valve : String) → Bool → SpaceAction
  hold_override : (player : String) → Bool → SpaceAction
  charge_battery : (player : String) → SpaceAction
  move_battery : (player : String) → SpaceAction
  cycle_relay : (player : String) → SpaceAction
  launch_beacon : (player : String) → SpaceAction

unfoldable pub player : SpaceAction → String
player (move_step p _) = p
player (toggle_fuse p _) = p
player (toggle_breaker p _) = p
player (set_valve p _ _) = p
player (hold_override p _) = p
player (charge_battery p) = p
player (move_battery p) = p
player (cycle_relay p) = p
player (launch_beacon p) = p

pub record PlayerState : Type 0 where
  pub room : String
  pub position : Position
  pub plate_held : Bool

pub record Players : Type 0 where
  pub a : PlayerState
  pub b : PlayerState

pub record Fuses : Type 0 where
  pub blue : Bool
  pub yellow : Bool
  pub red : Bool

pub record Breakers : Type 0 where
  pub main : Bool
  pub aux : Bool

pub record Valves : Type 0 where
  pub a : Bool
  pub c : Bool
  pub floodgate : Bool

pub record Battery : Type 0 where
  pub location : String
  pub charged : Bool
  pub spent : Bool

pub record Knowledge : Type 0 where
  pub a : List String
  pub b : List String

pub record SpaceGameState : Type 0 where
  pub players : Players
  pub fuses : Fuses
  pub breakers : Breakers
  pub valves : Valves
  pub override_held : Bool
  pub battery : Battery
  pub relay : String
  pub pressure_drained : Bool
  pub oxygen_fan_tripped : Bool
  pub knowledge : Knowledge
  pub visual_effects : List String
  pub beacon_launched : Bool

pub record Systems : Type 0 where
  pub pump_powered : Bool
  pub charger_fed : Bool
  pub cooling_restored : Bool
  pub oxygen_stable : Bool
  pub power_stable : Bool
  pub door_access : Bool
  pub signal_routed : Bool
  pub battery_ready : Bool
  pub ready_to_launch : Bool

pub record SpaceObservation : Type 0 where
  pub players : Players
  pub fuses : Fuses
  pub breakers : Breakers
  pub valves : Valves
  pub override_held : Bool
  pub battery : Battery
  pub relay : String
  pub pressure_drained : Bool
  pub oxygen_fan_tripped : Bool
  pub visual_effects : List String
  pub beacon_launched : Bool
  pub role : String
  pub systems : Systems
  pub knowledge : Knowledge
  pub private_knowledge : List String
  pub log : List String

pub record SpaceCompletion : Type 0 where
  pub beacon_launched : Bool
  pub systems : Systems
