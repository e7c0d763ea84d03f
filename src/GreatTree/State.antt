-- ===== src/GreatTree/State.antt =====
-- types.rs: configuration, the authoritative state, actions and views.
use parlando.Common.{Bool, List}
use parlando.Runtime.Role.{PlayerRole}
use parlando.GreatTree.Ids.{LimbId, RootId, Five}

pub data CrownSeat : Type 0 where
  seat_a seat_b : CrownSeat

-- `CrownSeat::role`.
abbrev pub role : CrownSeat → PlayerRole
role seat_a = PlayerRole.a
role seat_b = PlayerRole.b

pub record GreatTreeState : Type 0 where
  pub crown_seat : CrownSeat
  pub sun_holds : List LimbId
  pub water_holds : List RootId
  pub limb_water : Five Bool
  pub bijection : Five RootId

pub data GreatTreeAction : Type 0 where
  set_sun : LimbId → Bool → GreatTreeAction
  set_flow : RootId → Bool → GreatTreeAction

pub record LimbView : Type 0 where
  pub id : LimbId
  pub sun : Bool
  pub water : Bool

pub record RootView : Type 0 where
  pub id : RootId
  pub thawed : Bool
  pub running : Bool

pub data GreatTreeObservation : Type 0 where
  crown : List LimbView → GreatTreeObservation
  root : List RootView → GreatTreeObservation
