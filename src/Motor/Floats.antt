-- ===== src/Motor/Floats.antt =====
-- The 32-bit floats of the motor code, which the language and its library define: an interface of
-- the operations that the code uses. A `float` cast to an integer type is the bit pattern that the
-- cast yields.
use encos_driver.Prelude.{ℕ, Bool, if◌then◌else◌, ◌-◌, ◌^◌}

pub record FloatOps : Type 1 where
  pub Float : Type 0
  -- `std::memcpy` between a float and its 32 bits.
  pub of_bits : ℕ → Float
  pub to_bits : Float → ℕ
  -- `static_cast<float>` of a non-negative integer, and literals given as integers.
  pub of_nat : ℕ → Float
  pub pi : Float
  pub nan : Float
  pub add : Float → Float → Float
  pub sub : Float → Float → Float
  pub mul : Float → Float → Float
  pub div : Float → Float → Float
  pub abs : Float → Float
  pub is_finite : Float → Bool
  pub less : Float → Float → Bool
  -- `static_cast<int>`, `static_cast<uint16_t>` and `static_cast<int16_t>`.
  pub to_int : Float → ℕ
  pub to_u16 : Float → ℕ
  pub to_i16 : Float → ℕ

module _ (f : FloatOps) where
  open f use {Float, of_nat, add, sub, mul, div, less, to_int}

  pub record Range : Type 0 where
    pub low : Float
    pub high : Float

  -- `std::clamp`.
  unfoldable pub clamp : Float → Float → Float → Float
  clamp x lo hi = if less x lo then lo else if less hi x then hi else x

  -- `FloatToUint` and `UintToFloat` of src/device/motor/math_utils.cc.
  unfoldable pub float_to_uint : Float → Float → Float → ℕ → ℕ
  unfolding clamp
  float_to_uint x x_min x_max bits =
      let span = sub x_max x_min in
      let clamped = clamp x x_min x_max in
      to_int (div (mul (sub clamped x_min) (of_nat (2 ^ bits - 1))) span)

  unfoldable pub uint_to_float : ℕ → Float → Float → ℕ → Float
  uint_to_float x_int x_min x_max bits =
      let span = sub x_max x_min in
      add (div (mul (of_nat x_int) span) (of_nat (2 ^ bits - 1))) x_min
