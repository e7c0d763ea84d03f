-- ===== src/SpaceGame/Level.antt =====
-- level.rs: the map of the station. A coordinate is an `i64`; the engine only moves one cell from
-- a cell of the map, so no coordinate comes near its bounds.
use parlando.Common.{
  ℕ, Bool, false, ◌&&◌, ◌||◌, not, List, [], ◌∷◌, ◌++◌, Option, none, some, String, find, retain,
  map, is_some, nat_eq, leb, if◌then◌else◌, ◌==◌, eq_String,
}
use parlando.Common.Int.{ℤ, pos, negsuc}

pub record Position : Type 0 where
  pub x : ℤ
  pub y : ℤ

-- The cell of a table's entry.
abbrev pub cell : ℕ → ℕ → Position
cell x y = record { x = pos x; y = pos y }

abbrev pub is_at : ℤ → ℕ → Bool
is_at (pos n) m = nat_eq n m
is_at (negsuc n) m = false

abbrev pub at_cell : Position → ℕ → ℕ → Bool
at_cell p x y = is_at p.x x && is_at p.y y

abbrev pub position_eq : Position → Position → Bool
position_eq p q = elim q.x [
  | negsuc _ ↦ false
  | pos x ↦ elim q.y [ negsuc _ ↦ false | pos y ↦ at_cell p x y ]
]

abbrev between : ℤ → ℕ → ℕ → Bool
between (pos n) low high = leb low n && leb n high
between (negsuc n) low high = false

pub record Room : Type 0 where
  pub name : String
  pub left : ℕ
  pub right : ℕ
  pub top : ℕ
  pub bottom : ℕ

abbrev box : String → ℕ → ℕ → ℕ → ℕ → Room
box name left right top bottom = record {
  name = name;
  left = left;
  right = right;
  top = top;
  bottom = bottom;
}

abbrev pub rooms : List Room
rooms =
    box "power" 1 4 1 3
    ∷ box "junction" 5 7 1 3
    ∷ box "oxygen" 8 12 1 3
    ∷ box "diagnostics" 1 4 5 7
    ∷ box "charger" 5 7 5 7
    ∷ box "valve" 8 12 5 7
    ∷ box "airlock" 5 7 8 9
    ∷ box "signal" 8 12 8 9
    ∷ []

-- The single cells of the second table, each a box of one cell.
abbrev pub passages : List Room
passages =
    box "junction" 6 6 4 4
    ∷ box "oxygen" 10 10 4 4
    ∷ box "diagnostics" 2 2 4 4
    ∷ box "charger" 6 6 4 4
    ∷ box "valve" 10 10 4 4
    ∷ []

abbrev pub holds : Position → Room → Bool
holds p room = between p.x room.left room.right && between p.y room.top room.bottom

abbrev name_of : Option Room → Option String
name_of none = none
name_of (some room) = some room.name

unfoldable pub room_at_position : Position → Option String
room_at_position p = elim (find (holds p) rooms) [
  | some room ↦ some room.name
  | none ↦ name_of (find (holds p) passages)
]

unfoldable pub is_walkable : Position → Bool
unfolding room_at_position
is_walkable p = is_some (room_at_position p)

pub record Door : Type 0 where
  pub one : Position
  pub other : Position
  pub kind : String

abbrev door : ℕ → ℕ → ℕ → ℕ → String → Door
door x y x' y' kind = record { one = cell x y; other = cell x' y'; kind = kind }

abbrev pub doors : List Door
doors =
    door 4 2 5 2 "open"
    ∷ door 7 2 8 2 "open"
    ∷ door 6 3 6 4 "open"
    ∷ door 6 4 6 5 "open"
    ∷ door 10 3 10 4 "open"
    ∷ door 10 4 10 5 "open"
    ∷ door 7 6 8 6 "open"
    ∷ door 6 7 6 8 "pressure"
    ∷ door 10 7 10 8 "open"
    ∷ door 7 8 8 8 "open"
    ∷ door 2 3 2 4 "open"
    ∷ door 2 4 2 5 "open"
    ∷ []

abbrev joins : Position → Position → Door → Bool
joins source target d =
    (position_eq source d.one && position_eq target d.other)
    || (position_eq source d.other && position_eq target d.one)

unfoldable pub door_kind_for_step : Position → Position → Option String
door_kind_for_step source target = elim (find (joins source target) doors) [
  | none ↦ none
  | some d ↦ some d.kind
]

pub record Device : Type 0 where
  pub id : String

-- A device and its cell.
pub record Placed : Type 0 where
  pub device : String
  pub column : ℕ
  pub row : ℕ

abbrev placed : String → ℕ → ℕ → Placed
placed device column row = record { device = device; column = column; row = row }

abbrev pub devices : List Placed
devices =
    placed "fuse-blue" 1 1
    ∷ placed "fuse-yellow" 2 1
    ∷ placed "fuse-red" 3 1
    ∷ placed "breaker-main" 1 3
    ∷ placed "breaker-aux" 2 3
    ∷ placed "bypass" 5 2
    ∷ placed "plate" 7 2
    ∷ placed "charger" 5 5
    ∷ placed "battery" 6 6
    ∷ placed "valve-a" 8 5
    ∷ placed "valve-c" 9 5
    ∷ placed "valve-floodgate" 11 5
    ∷ placed "relay" 9 8
    ∷ placed "beacon" 6 8
    ∷ []

abbrev is_here : Position → String → Placed → Bool
is_here p battery_location d =
    at_cell p d.column d.row && (not (d.device == "battery") || battery_location == "charger")

unfoldable pub devices_at_position : Position → String → List Device
devices_at_position p battery_location =
    let here = map (λ d. record { id = d.device }) (retain (is_here p battery_location) devices) in
    if battery_location == "signal" && at_cell p 8 8
    then here ++ record { id = "battery" } ∷ []
    else here
