-- ===== src/Runtime/Role.antt =====
-- rust-server/src/game.rs: the two player roles.
use parlando.Common.{Bool, true, false, String, Eq, ◌≡◌, ◌↔◌, arith}

pub data PlayerRole : Type 0 where
  a b : PlayerRole

-- `PlayerRole::as_str`.
unfoldable pub as_str : PlayerRole → String
as_str a = "A"
as_str b = "B"

abbrev pub role_eq : PlayerRole → PlayerRole → Bool
role_eq a a = true
role_eq b b = true
role_eq a b = false
role_eq b a = false

pub role_eq_iff : (r s : PlayerRole) → (role_eq r s ≡ true) ↔ (r ≡ s)
role_eq_iff r s = ground arith

instance abbrev pub eq_PlayerRole : Eq PlayerRole
eq_PlayerRole = record { equals = role_eq; equals_iff = role_eq_iff }

-- `ActionRejection`: the code that a client may see.
pub record ActionRejection : Type 0 where
  pub code : String
