-- ===== src/Common/Text.antt =====
-- Texts as sequences of characters.
use Prim.Native.Nat.{ℕ, zero, suc}
use Prim.Native.String.{String, [], ◌∷◌}

-- `text.chars().take(n)`, collected.
pub take_chars : ℕ → String → String
take_chars zero text = []
take_chars (suc n) [] = []
take_chars (suc n) (c ∷ text) = c ∷ take_chars n text
