-- ===== src/Prelude/Words.antt =====
-- Four bytes put together to a 32-bit word with shifts and `|`.
use Prim.Native.Nat.{ℕ, ◌*◌, ◌/◌, ◌%◌, ◌^◌, ◌<◌, bit_and, bit_or}
use mathlib.Core.Path.{◌≡◌}
use native.Mathlib.Omega.{arith}
use encos_driver.Prelude.Bits.{bit_and-mask, bit_or-shl_right}

-- The bytes of a word, cut out from the lowest up, make the word again.
pub four_bytes :
    (v : ℕ)
    → v < 2 ^ 32
    → bit_or
        (bit_or
          (bit_or (bit_and v 0xFF % 256) (bit_and (v / 2 ^ 8) 0xFF % 256 * 2 ^ 8))
          (bit_and (v / 2 ^ 16) 0xFF % 256 * 2 ^ 16))
        (bit_and (v / 2 ^ 24) 0xFF % 256 * 2 ^ 24)
      ≡ v
four_bytes v h =
    let b0 : bit_and v 0xFF % 256 ≡ v % 256 = omega (arith, bit_and-mask 8 v) in
    let b1 : bit_and (v / 2 ^ 8) 0xFF % 256 ≡ v / 2 ^ 8 % 256 =
      omega (arith, bit_and-mask 8 (v / 2 ^ 8)) in
    let b2 : bit_and (v / 2 ^ 16) 0xFF % 256 ≡ v / 2 ^ 16 % 256 =
      omega (arith, bit_and-mask 8 (v / 2 ^ 16)) in
    let b3 : bit_and (v / 2 ^ 24) 0xFF % 256 ≡ v / 2 ^ 24 % 256 =
      omega (arith, bit_and-mask 8 (v / 2 ^ 24)) in
    let s1 : bit_or (v % 256) (v / 2 ^ 8 % 256 * 2 ^ 8) ≡ v % 2 ^ 16 =
      omega (arith, bit_or-shl_right 8 (v / 2 ^ 8 % 256) (v % 256) (omega arith)) in
    let s2 : bit_or (v % 2 ^ 16) (v / 2 ^ 16 % 256 * 2 ^ 16) ≡ v % 2 ^ 24 =
      omega (arith, bit_or-shl_right 16 (v / 2 ^ 16 % 256) (v % 2 ^ 16) (omega arith)) in
    let s3 : bit_or (v % 2 ^ 24) (v / 2 ^ 24 % 256 * 2 ^ 24) ≡ v =
      omega (arith, bit_or-shl_right 24 (v / 2 ^ 24 % 256) (v % 2 ^ 24) (omega arith)) in
    rw (b0, b1, b2, b3, s1, s2) s3
