-- ===== src/Prelude/Bits.antt =====
-- The bit operations of C on unsigned numbers: shifts as products and quotients by powers of two,
-- `&` and `|` as the native operations, with the laws that turn them into arithmetic.
use Prim.Native.Nat.{
  ℕ, zero, suc, ◌+◌, ◌-◌, ◌*◌, ◌/◌, ◌%◌, ◌^◌, ◌≤◌, ◌<◌, min, max, bit_and, bit_or, digits,
  bit_and-bitwise, bit_or-bitwise,
}
use mathlib.Core.Path.{◌≡◌, refl, ap}
use native.Mathlib.Nat.{pow-suc, one-le-pow}
use native.Mathlib.Omega.{arith}

abbrev pub shl : ℕ → ℕ → ℕ
shl x k = x * 2 ^ k

abbrev pub shr : ℕ → ℕ → ℕ
shr x k = x / 2 ^ k

-- Casts to unsigned types.
abbrev pub u8 : ℕ → ℕ
u8 x = x % 256

abbrev pub u16 : ℕ → ℕ
u16 x = x % 65536

abbrev pub u32 : ℕ → ℕ
u32 x = x % 4294967296

abbrev pub u64 : ℕ → ℕ
u64 x = x % 18446744073709551616

-- The digit loops behind the native operations do not depend on spare fuel.
conj_loop : ℕ → ℕ → ℕ → ℕ
conj_loop n a b = digits (λ _. zero) min n a b

disj_loop : ℕ → ℕ → ℕ → ℕ
disj_loop n a b = digits (λ r. r) max n a b

conj_loop-fuel : (n m a b : ℕ) → a ≤ n → a ≤ m → conj_loop n a b ≡ conj_loop m a b
unfolding conj_loop
conj_loop-fuel zero zero a b p q = refl
conj_loop-fuel zero (suc m) zero b p q = refl
conj_loop-fuel zero (suc m) (suc a) b p q = absurd (omega arith)
conj_loop-fuel (suc n) zero zero b p q = refl
conj_loop-fuel (suc n) zero (suc a) b p q = absurd (omega arith)
conj_loop-fuel (suc n) (suc m) zero b p q = refl
conj_loop-fuel (suc n) (suc m) (suc a) b p q =
    omega (arith, conj_loop-fuel n m (suc a / 2) (b / 2) (omega arith) (omega arith))

disj_loop-fuel : (n m a b : ℕ) → a ≤ n → a ≤ m → disj_loop n a b ≡ disj_loop m a b
unfolding disj_loop
disj_loop-fuel zero zero zero b p q = refl
disj_loop-fuel zero zero (suc a) b p q = absurd (omega arith)
disj_loop-fuel zero (suc m) zero b p q = refl
disj_loop-fuel zero (suc m) (suc a) b p q = absurd (omega arith)
disj_loop-fuel (suc n) zero zero b p q = refl
disj_loop-fuel (suc n) zero (suc a) b p q = absurd (omega arith)
disj_loop-fuel (suc n) (suc m) zero b p q = refl
disj_loop-fuel (suc n) (suc m) (suc a) b p q =
    omega (arith, disj_loop-fuel n m (suc a / 2) (b / 2) (omega arith) (omega arith))

zero-bit_and : (b : ℕ) → bit_and 0 b ≡ 0
zero-bit_and b = bit_and-bitwise 0 b

zero-bit_or : (b : ℕ) → bit_or 0 b ≡ b
zero-bit_or b = bit_or-bitwise 0 b

-- One binary digit at a time.
bit_and-halves : (a b : ℕ) → bit_and a b ≡ 2 * bit_and (a / 2) (b / 2) + min (a % 2) (b % 2)
unfolding conj_loop
bit_and-halves zero b = omega (arith, zero-bit_and b, zero-bit_and (b / 2))
bit_and-halves (suc a) b = omega (
  arith,
  bit_and-bitwise (suc a) b,
  bit_and-bitwise (suc a / 2) (b / 2),
  conj_loop-fuel a (suc a / 2) (suc a / 2) (b / 2) (omega arith) (omega arith),
)

bit_or-halves : (a b : ℕ) → bit_or a b ≡ 2 * bit_or (a / 2) (b / 2) + max (a % 2) (b % 2)
unfolding disj_loop
bit_or-halves zero b = omega (arith, zero-bit_or b, zero-bit_or (b / 2))
bit_or-halves (suc a) b = omega (
  arith,
  bit_or-bitwise (suc a) b,
  bit_or-bitwise (suc a / 2) (b / 2),
  disj_loop-fuel a (suc a / 2) (suc a / 2) (b / 2) (omega arith) (omega arith),
)

bit_and-zero_below : (n a : ℕ) → a ≤ n → bit_and a 0 ≡ 0
bit_and-zero_below n zero h = refl
bit_and-zero_below zero (suc a) h = absurd (omega arith)
bit_and-zero_below (suc n) (suc a) h =
    omega (arith, bit_and-halves (suc a) 0, bit_and-zero_below n (suc a / 2) (omega arith))

pub bit_and-zero : (a : ℕ) → bit_and a 0 ≡ 0
bit_and-zero a = bit_and-zero_below a a (omega arith)

bit_or-zero_below : (n a : ℕ) → a ≤ n → bit_or a 0 ≡ a
bit_or-zero_below n zero h = refl
bit_or-zero_below zero (suc a) h = absurd (omega arith)
bit_or-zero_below (suc n) (suc a) h =
    omega (arith, bit_or-halves (suc a) 0, bit_or-zero_below n (suc a / 2) (omega arith))

pub bit_or-zero : (a : ℕ) → bit_or a 0 ≡ a
bit_or-zero a = bit_or-zero_below a a (omega arith)

times_power-suc : (x k : ℕ) → x * 2 ^ suc k ≡ 2 * (x * 2 ^ k)
times_power-suc x k = omega (arith, ap (λ (t : ℕ). x * t) (pow-suc 2 k))

-- Both operations act on the high and the low part of their arguments separately.
pub bit_and-concat :
    (k x y r s : ℕ)
    → r < 2 ^ k
    → s < 2 ^ k
    → bit_and (x * 2 ^ k + r) (y * 2 ^ k + s) ≡ bit_and x y * 2 ^ k + bit_and r s
bit_and-concat zero x y r s p q = ground (arith, bit_and-zero 0)
bit_and-concat (suc k) x y r s p q = ground (
  arith,
  bit_and-halves (x * 2 ^ suc k + r) (y * 2 ^ suc k + s),
  bit_and-halves r s,
  times_power-suc x k,
  times_power-suc y k,
  times_power-suc (bit_and x y) k,
  pow-suc 2 k,
  bit_and-concat k x y (r / 2) (s / 2),
)

pub bit_or-concat :
    (k x y r s : ℕ)
    → r < 2 ^ k
    → s < 2 ^ k
    → bit_or (x * 2 ^ k + r) (y * 2 ^ k + s) ≡ bit_or x y * 2 ^ k + bit_or r s
bit_or-concat zero x y r s p q = ground (arith, bit_or-zero 0)
bit_or-concat (suc k) x y r s p q = ground (
  arith,
  bit_or-halves (x * 2 ^ suc k + r) (y * 2 ^ suc k + s),
  bit_or-halves r s,
  times_power-suc x k,
  times_power-suc y k,
  times_power-suc (bit_or x y) k,
  pow-suc 2 k,
  bit_or-concat k x y (r / 2) (s / 2),
)

-- `(q << k) | r` is a sum when `r` has at most `k` bits.
pub bit_or-shl : (k q r : ℕ) → r < 2 ^ k → bit_or (q * 2 ^ k) r ≡ q * 2 ^ k + r
bit_or-shl k q r h =
    ground (arith, one-le-pow k 2, bit_or-concat k q 0 0 r, bit_or-zero q, zero-bit_or r)

-- The same with the operands in the other order: `r | (q << k)`.
pub bit_or-shl_right : (k q r : ℕ) → r < 2 ^ k → bit_or r (q * 2 ^ k) ≡ q * 2 ^ k + r
bit_or-shl_right k q r h =
    ground (arith, one-le-pow k 2, bit_or-concat k 0 q r 0, bit_or-zero r, zero-bit_or q)

bit_and-ones : (k r : ℕ) → r < 2 ^ k → bit_and r (2 ^ k - 1) ≡ r
bit_and-ones zero r h = ground (arith, bit_and-zero r)
bit_and-ones (suc k) r h =
    ground
      (arith, bit_and-halves r (2 ^ suc k - 1), pow-suc 2 k, one-le-pow k 2, bit_and-ones k (r / 2))

-- The low `w` bits.
pub bit_and-mask : (w a : ℕ) → bit_and a (2 ^ w - 1) ≡ a % 2 ^ w
bit_and-mask w a = ground (
  arith,
  one-le-pow w 2,
  bit_and-concat w (a / 2 ^ w) 0 (a % 2 ^ w) (2 ^ w - 1),
  bit_and-zero (a / 2 ^ w),
  bit_and-ones w (a % 2 ^ w),
)

-- A field of `w` bits at bit `k`.
pub bit_and-field : (k w a : ℕ) → bit_and a ((2 ^ w - 1) * 2 ^ k) ≡ a / 2 ^ k % 2 ^ w * 2 ^ k
bit_and-field k w a = ground (
  arith,
  one-le-pow k 2,
  bit_and-concat k (a / 2 ^ k) (2 ^ w - 1) (a % 2 ^ k) 0,
  bit_and-zero (a % 2 ^ k),
  ap (λ (t : ℕ). t * 2 ^ k) (bit_and-mask w (a / 2 ^ k)),
)

-- A number below `2 ^ k` has no bit in common with a mask from bit `k` up.
pub bit_and-high : (k m r : ℕ) → r < 2 ^ k → bit_and r (m * 2 ^ k) ≡ 0
bit_and-high k m r h =
    ground (arith, one-le-pow k 2, bit_and-concat k 0 m r 0, bit_and-zero r, zero-bit_and m)
