-- ===== src/Witnesses/Caps.antt =====
-- A result of two texts under a cap of 210 characters: the long one is cut in the middle.
use mcp_switchboard.Prelude.{
  ℕ, ◌+◌, ◌*◌, ◌/◌, ◌%◌, ◌≤◌, ◌≡◌, refl, List, [], ◌∷◌, ◌++◌, Text, bytes, length, arith,
}
use mcp_switchboard.Window.{Block, block_text}
use mcp_switchboard.Cap.{total_chars, cap_blocks}
use mcp_switchboard.Cap.Bounds.{cap_blocks_bounds}

-- The last three digits of a number.
abbrev digits : ℕ → Text
digits n = (48 + (n / 100) % 10) ∷ (48 + (n / 10) % 10) ∷ (48 + n % 10) ∷ []

abbrev line : Text
line = bytes "a line of a log that says the same as all the others"

abbrev result : List Block
result =
    record { type = block_text; text = bytes "first" }
    ∷ record { type = block_text; text = line ++ (line ++ (line ++ (line ++ (line ++ line)))) }
    ∷ []

abbrev capped : List Block
capped = cap_blocks digits result 210

capped_total : total_chars capped ≡ 5 + (205 + 142 + 6)
unfolding cap_blocks total_chars
capped_total = refl

cap_blocks_bounds_example : total_chars capped ≤ 210 + length result * (342 + 2 * 3)
cap_blocks_bounds_example =
    cap_blocks_bounds digits 3 999 (λ n u. omega arith) result 210 (omega arith, (omega arith, tt))
      (omega arith)
