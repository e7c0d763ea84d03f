-- ===== src/SpaceGame/Power.antt =====
-- state_engine.rs: the battery sled and the beacon. The sled is at the charger, unspent, or at the
-- signal array, charged; the beacon starts only while every prerequisite of the launch is green.
use parlando.Common.{
  ◌≡◌, refl, Bool, true, false, ◌&&◌, ◌||◌, not, String, arith, Bool-cases, Option-cases, inl, inr,
  ◌⊎◌, ==_iff, ◌==◌, eq_String, is_some, ap, ◌∙◌, sym, subst,
}
use parlando.SpaceGame.State.{
  SpaceAction, move_step, toggle_fuse, toggle_breaker, set_valve, hold_override, charge_battery,
  move_battery, cycle_relay, launch_beacon, SpaceGameState, Systems, Battery,
}
use parlando.SpaceGame.Level.{Position, room_at_position, is_walkable, door_kind_for_step}
use parlando.SpaceGame.Systems.{derive_systems, player_state}
use parlando.SpaceGame.Engine.{
  reveal, flip_breaker, trip_by_breaker, drain_charger, enter, step, apply_move_step, flip_fuses,
  flip_breakers, turn_valves, hold, charge, transfer, set_relay, next_relay, launch, finalize,
  handle, apply_action, put_player,
}

reveal-battery : (s : SpaceGameState) (p text : String) → (reveal s p text).battery ≡ s.battery
unfolding reveal
reveal-battery s p text = elim (Bool-cases (p == "B")) [ inl y ↦ rw y refl | inr n ↦ rw n refl ]

reveal-beacon :
    (s : SpaceGameState) (p text : String) → (reveal s p text).beacon_launched ≡ s.beacon_launched
unfolding reveal
reveal-beacon s p text = elim (Bool-cases (p == "B")) [ inl y ↦ rw y refl | inr n ↦ rw n refl ]

abbrev pub IsStowed : Battery → Type 0
IsStowed b =
    ((b.location ≡ "charger") × (b.spent ≡ false)) ⊎ ((b.location ≡ "signal") × (b.charged ≡ true))

-- The battery and the beacon as they were.
abbrev Kept : SpaceGameState → SpaceGameState → Type 0
Kept s t = (t.battery ≡ s.battery) × (t.beacon_launched ≡ s.beacon_launched)

put_player-Kept : (s : SpaceGameState) (p : String) (placed : _) → Kept s (put_player s p placed)
put_player-Kept s p placed = elim (Bool-cases (p == "B")) [
  | inl y ↦ rw y (refl, refl)
  | inr n ↦ rw n (refl, refl)
]

enter-Kept :
    (s : SpaceGameState) (before : Systems) (p : String) (target : Position) (room : String)
    → Kept s (enter s before p target room)
unfolding enter
enter-Kept s before p target room =
    elim (Bool-cases (
      room == "airlock"
      && (not ((player_state s p).room == "airlock") && not before.door_access))) [
        | inl shut ↦ rw (enter, shut) (reveal-battery s p _, reveal-beacon s p _)
        | inr way ↦ elim (Bool-cases (is_walkable target)) [
          | inl w ↦ rw (enter, way, w) (put_player-Kept s p _)
          | inr w ↦ rw (enter, way, w) (refl, refl)
        ]
      ]

apply_move_step-Kept :
    (s : SpaceGameState) (before : Systems) (p direction : String)
    → Kept s (apply_move_step s before p direction)
unfolding apply_move_step
apply_move_step-Kept s before p direction =
    let current = (player_state s p).position in
    let target = step current direction in
    elim (Option-cases (room_at_position target)) [
      | inl out ↦ rw (apply_move_step, out) (refl, refl)
      | inr (room, inside) ↦
          elim (Bool-cases (
            not ((player_state s p).room == room)
            && not (is_some (door_kind_for_step current target)))) [
              | inl shut ↦ rw (apply_move_step, inside, shut) (refl, refl)
              | inr way ↦ rw (apply_move_step, inside, way) (enter-Kept s before p target room)
            ]
    ]

flip_fuses-Kept : (s : SpaceGameState) (p c : String) → Kept s (flip_fuses s p c).0
unfolding flip_fuses
flip_fuses-Kept s p c = grind (arith, reveal-battery, reveal-beacon)

turn_valves-Kept :
    (lower : String → String) (s : SpaceGameState) (before : Systems) (v : String) (to : Bool)
    → Kept s (turn_valves lower s before v to).0
unfolding turn_valves
turn_valves-Kept lower s before v to = grind (arith, reveal-battery, reveal-beacon)

hold-Kept : (s : SpaceGameState) (p : String) (held : Bool) → Kept s (hold s p held).0
unfolding hold
hold-Kept s p held = grind (arith, reveal-battery, reveal-beacon)

set_relay-Kept :
    (s : SpaceGameState) (before : Systems) (mode : String) → Kept s (set_relay s before mode).0
unfolding set_relay
set_relay-Kept s before mode = grind (arith, reveal-battery, reveal-beacon)

-- The sled stays stowed, and the beacon as it was.
abbrev Sled : SpaceGameState → SpaceGameState → Type 0
Sled s t = (IsStowed s.battery → IsStowed t.battery) × (t.beacon_launched ≡ s.beacon_launched)

IsStowed-as : {b c : Battery} → c ≡ b → IsStowed b → IsStowed c
IsStowed-as e h = subst IsStowed (sym e) h

drain_charger-IsStowed :
    (s : SpaceGameState) (c : String) → IsStowed s.battery → IsStowed (drain_charger s c).battery
drain_charger-IsStowed s c (inl h) =
    elim (Bool-cases
      (c == "main" && (not s.breakers.main && not (s.battery.location == "signal")))) [
        | inl y ↦ rw y (inl h)
        | inr n ↦ rw n (inl h)
      ]
drain_charger-IsStowed s c (inr h) =
    let there = (==_iff s.battery.location "signal").1 h.0 in
    elim (Bool-cases
      (c == "main" && (not s.breakers.main && not (s.battery.location == "signal")))) [
        | inl y ↦ ground (arith, there, y)
        | inr n ↦ rw n (inr h)
      ]

trip-battery :
    (s : SpaceGameState) (c : String) → (trip_by_breaker (flip_breaker s c) c).battery ≡ s.battery
trip-battery s c = grind (arith, reveal-battery)

drain_charger-beacon :
    (s : SpaceGameState) (c : String) → (drain_charger s c).beacon_launched ≡ s.beacon_launched
drain_charger-beacon s c = grind arith

trip-beacon :
    (s : SpaceGameState) (c : String)
    → (trip_by_breaker (flip_breaker s c) c).beacon_launched ≡ s.beacon_launched
trip-beacon s c = grind (arith, reveal-beacon)

flip_breakers-Sled : (s : SpaceGameState) (c : String) → Sled s (flip_breakers s c).0
unfolding flip_breakers
flip_breakers-Sled s c =
    let tripped = trip_by_breaker (flip_breaker s c) c in
    (
      λ h. drain_charger-IsStowed tripped c (IsStowed-as (trip-battery s c) h),
      drain_charger-beacon tripped c ∙ trip-beacon s c,
    )

charge-Sled : (s : SpaceGameState) (before : Systems) (p : String) → Sled s (charge s before p)
unfolding charge
charge-Sled s before p = (λ h. grind (arith, reveal-battery, ==_iff), grind (arith, reveal-beacon))

transfer-Sled : (s : SpaceGameState) (p : String) → Sled s (transfer s p)
unfolding transfer
transfer-Sled s p = (λ h. grind (arith, reveal-battery, ==_iff), grind (arith, reveal-beacon))

launch-IsStowed :
    (s : SpaceGameState) (before : Systems) (p : String)
    → IsStowed s.battery
    → IsStowed (launch s before p).battery
unfolding launch
launch-IsStowed s before p h = elim (Bool-cases before.ready_to_launch) [
  | inl y ↦ rw (launch, y) h
  | inr n ↦ elim (Bool-cases (s.battery.location == "signal" && s.battery.charged)) [
    | inl y ↦
        rw (launch, n, y)
          (IsStowed-as
            (reveal-battery (record s { battery = record s.battery { spent = true } }) p _)
            (inr ((==_iff s.battery.location "signal").0 (ground (arith, y)), ground (arith, y))))
    | inr m ↦ rw (launch, n, m) h
  ]
]

launch-beacon :
    (s : SpaceGameState) (before : Systems) (p : String)
    → (launch s before p).beacon_launched ≡ (before.ready_to_launch || s.beacon_launched)
unfolding launch
launch-beacon s before p = grind (arith, reveal-beacon)

handle-IsStowed :
    (lower : String → String) (s : SpaceGameState) (before : Systems) (action : SpaceAction)
    → IsStowed s.battery
    → IsStowed (handle lower s before action).0.battery
unfolding handle
handle-IsStowed lower s before (move_step p d) h =
    IsStowed-as (apply_move_step-Kept s before p d).0 h
handle-IsStowed lower s before (toggle_fuse p c) h = IsStowed-as (flip_fuses-Kept s p c).0 h
handle-IsStowed lower s before (toggle_breaker p c) h = (flip_breakers-Sled s c).0 h
handle-IsStowed lower s before (set_valve p v to) h =
    IsStowed-as (turn_valves-Kept lower s before v to).0 h
handle-IsStowed lower s before (hold_override p held) h = IsStowed-as (hold-Kept s p held).0 h
handle-IsStowed lower s before (charge_battery p) h = (charge-Sled s before p).0 h
handle-IsStowed lower s before (move_battery p) h = (transfer-Sled s p).0 h
handle-IsStowed lower s before (cycle_relay p) h =
    IsStowed-as (set_relay-Kept s before (next_relay s.relay)).0 h
handle-IsStowed lower s before (launch_beacon p) h = launch-IsStowed s before p h

-- Whatever is done, the sled stays stowed.
pub apply_action-IsStowed :
    (lower : String → String) (s : SpaceGameState) (action : SpaceAction)
    → IsStowed s.battery
    → IsStowed (apply_action lower s action).battery
unfolding apply_action finalize
apply_action-IsStowed lower s action h = handle-IsStowed lower s (derive_systems s) action h

abbrev pub is_launch : SpaceAction → Bool
is_launch (launch_beacon _) = true
is_launch _ = false

-- The beacon is started by a launch with every prerequisite green, by nothing else, and never
-- stops.
pub apply_action-beacon :
    (lower : String → String) (s : SpaceGameState) (action : SpaceAction)
    → (apply_action lower s action).beacon_launched
      ≡ ((is_launch action && (derive_systems s).ready_to_launch) || s.beacon_launched)
unfolding apply_action finalize handle
apply_action-beacon lower s (move_step p d) = (apply_move_step-Kept s (derive_systems s) p d).1
apply_action-beacon lower s (toggle_fuse p c) = (flip_fuses-Kept s p c).1
apply_action-beacon lower s (toggle_breaker p c) = (flip_breakers-Sled s c).1
apply_action-beacon lower s (set_valve p v to) =
    (turn_valves-Kept lower s (derive_systems s) v to).1
apply_action-beacon lower s (hold_override p held) = (hold-Kept s p held).1
apply_action-beacon lower s (charge_battery p) = (charge-Sled s (derive_systems s) p).1
apply_action-beacon lower s (move_battery p) = (transfer-Sled s p).1
apply_action-beacon lower s (cycle_relay p) =
    (set_relay-Kept s (derive_systems s) (next_relay s.relay)).1
apply_action-beacon lower s (launch_beacon p) = launch-beacon s (derive_systems s) p

-- What the launch needs, in the words of the station: bus power, oxygen, a held plate, and at the
-- array a charged battery that is not spent, with the relay on ARRAY, coolant, and the bypass.
pub record IsLaunchable (s : SpaceGameState) : Type 0 where
  pub bus : (s.fuses.blue ≡ true) × (s.breakers.main ≡ true)
  pub pump : (s.fuses.yellow ≡ true) × (s.oxygen_fan_tripped ≡ false)
  pub pressure : (s.valves.a ≡ true) × (s.pressure_drained ≡ false)
  pub plate : (s.players.a.plate_held ≡ true) ⊎ (s.players.b.plate_held ≡ true)
  pub array : (s.relay ≡ "array") × (s.battery.location ≡ "signal")
  pub battery : (s.battery.charged ≡ true) × (s.battery.spent ≡ false)
  pub coolant : (s.valves.floodgate ≡ true) × (s.valves.c ≡ false)
  pub bypass : s.override_held ≡ true

elsewhere : (l : String) → (l == "signal") ≡ true → (l == "charger") ≡ false
elsewhere l h = ap (λ m. m == "charger") ((==_iff l "signal").0 h)

-- The launch is ready only then.
pub ready_to_launch-IsLaunchable :
    (s : SpaceGameState) → (derive_systems s).ready_to_launch ≡ true → IsLaunchable s
unfolding derive_systems
ready_to_launch-IsLaunchable s h = record {
  bus = ground arith;
  pump = ground arith;
  pressure = ground arith;
  plate = ground arith;
  array = (
    (==_iff s.relay "array").0 (ground arith),
    (==_iff s.battery.location "signal").0 (ground arith),
  );
  battery = ground arith;
  coolant = ground arith;
  bypass = let away = elsewhere s.battery.location (ground arith) in ground (arith, away);
}
