-- ===== src/Prelude/Bytes.antt =====
-- Byte strings as numbers: the independent description that the packing code is held against.
use Prim.Native.Nat.{ℕ, ◌+◌, ◌*◌, ◌/◌, ◌%◌, ◌^◌}
use mathlib.Core.List.{List, [], ◌∷◌}

-- The number that bytes spell, most significant byte first.
abbrev pub big_endian_from : ℕ → List ℕ → ℕ
big_endian_from acc [] = acc
big_endian_from acc (b ∷ bs) = big_endian_from (acc * 256 + b) bs

abbrev pub big_endian : List ℕ → ℕ
big_endian bs = big_endian_from 0 bs

-- Least significant byte first.
abbrev pub little_endian : List ℕ → ℕ
little_endian [] = 0
little_endian (b ∷ bs) = b + 256 * little_endian bs

-- The `n` bits of a number from bit `k` up.
abbrev pub field : ℕ → ℕ → ℕ → ℕ
field w k n = w / 2 ^ k % 2 ^ n
