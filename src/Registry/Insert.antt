-- ===== src/Registry/Insert.antt =====
-- The constructor of `Snapshot` (src/operation_gate.h): it finds a free slot for every entry, and
-- leaves every entry in reach of `Find`.
use native.Mathlib.Decide.{dec_lt}
use native.Mathlib.Nat.{pow-suc, one-le-pow, mul_assoc, mod-eq_of_lt, add-mod_right, mod-lt}
use encos_driver.Prelude.{
  ℕ, zero, suc, ◌+◌, ◌-◌, ◌*◌, ◌%◌, ◌^◌, ◌≤◌, ◌<◌, ◌≡◌, refl, ap, ◌∙◌, ltb, Option, none, some,
  List, [], ◌∷◌, length, get_or, set, replicate, arith, bit_and-mask, Option-cases, Bool-cases, inl,
  inr,
}
use encos_driver.Registry.Table.{Ref, hash, slot_index, start_of, grow, free_probe}
use encos_driver.Registry.Probe.{slot, Used, same_slot}

-- The capacity is a power of two, and at least twice the number of entries.
pub grow-enough :
    (fuel capacity active : ℕ)
    → active * 2 ≤ capacity * 2 ^ fuel
    → active * 2 ≤ grow fuel capacity active
unfolding grow
grow-enough zero capacity active h = omega arith
grow-enough (suc fuel) capacity active h =
    let twice : capacity * 2 ^ suc fuel ≡ capacity * 2 * 2 ^ fuel =
      omega
        (arith, mul_assoc capacity 2 (2 ^ fuel), ap (λ (t : ℕ). capacity * t) (pow-suc 2 fuel)) in
    ground (arith, grow-enough fuel (capacity * 2) active)

pub grow-power : (fuel k active : ℕ) → (j : ℕ) × (grow fuel (2 ^ k) active ≡ 2 ^ j)
unfolding grow
grow-power zero k active = (k, refl)
grow-power (suc fuel) k active =
    let next : 2 ^ k * 2 ≡ 2 ^ suc k = omega (arith, pow-suc 2 k) in
    elim (Bool-cases (ltb (2 ^ k) (active * 2))) [
      | inl small ↦ let (j, eq) = grow-power fuel (suc k) active in (j, rw (small, next) eq)
      | inr enough ↦ (k, rw enough refl)
    ]

-- A table of some power of two: indices wrap around its end.
pub slot_index-eq :
    (size k start probe : ℕ) → size ≡ 2 ^ k → slot_index size start probe ≡ (start + probe) % size
unfolding slot_index
slot_index-eq size k start probe e = rw e (bit_and-mask k (start + probe))

pub start_of-lt : (size k object kind : ℕ) → size ≡ 2 ^ k → start_of size object kind < size
unfolding start_of
start_of-lt size k object kind e = rw e (
    rw (bit_and-mask k (hash object kind))
      (mod-lt (hash object kind) (omega (arith, one-le-pow k 2))))

-- From every start, every slot is at some distance below the size.
pub distance :
    (size k start i : ℕ)
    → size ≡ 2 ^ k
    → start < size
    → i < size
    → (p : ℕ) × (p < size) × (slot_index size start p ≡ i)
distance size k start i e s h = elim (dec_lt i start) [
  | yes behind ↦ (
    i + size - start,
    omega arith,
    slot_index-eq size k start (i + size - start) e
        ∙ ap (λ (t : ℕ). t % size) (omega arith)
        ∙ add-mod_right i size
        ∙ mod-eq_of_lt h,
  )
  | no ahead ↦ (
    i - start,
    omega arith,
    slot_index-eq size k start (i - start) e
        ∙ ap (λ (t : ℕ). t % size) (omega arith)
        ∙ mod-eq_of_lt h,
  )
]

-- How many slots are used.
abbrev pub is_used : Option Ref → ℕ
is_used none = 0
is_used (some r) = 1

abbrev pub count_used : List (Option Ref) → ℕ
count_used [] = 0
count_used (o ∷ os) = is_used o + count_used os

pub count_used-set :
    (os : List (Option Ref)) (i : ℕ) (r : Ref) → count_used (set os i (some r)) ≤ count_used os + 1
count_used-set [] i r = omega arith
count_used-set (o ∷ os) zero r = omega arith
count_used-set (o ∷ os) (suc i) r = omega (arith, count_used-set os i r)

pub count_used-replicate : (n : ℕ) → count_used (replicate n none) ≡ 0
count_used-replicate zero = refl
count_used-replicate (suc n) = omega (arith, count_used-replicate n)

pub find_empty :
    (os : List (Option Ref))
    → count_used os < length os
    → (i : ℕ) × (i < length os) × (get_or os i none ≡ none)
find_empty [] h = absurd (omega arith)
find_empty (none ∷ os) h = (0, omega arith, refl)
find_empty (some r ∷ os) h =
    let (i, below, empty) = find_empty os (omega arith) in (suc i, omega arith, empty)

pub get_or-replicate : (n i : ℕ) → get_or {A = Option Ref} (replicate n none) i none ≡ none
get_or-replicate zero i = refl
get_or-replicate (suc n) zero = refl
get_or-replicate (suc n) (suc i) = get_or-replicate n i

free_probe-stop :
    (fuel : ℕ) (slots : List (Option Ref)) (start probe : ℕ)
    → slot slots start probe ≡ none
    → free_probe (suc fuel) slots start probe ≡ probe
unfolding slot free_probe
free_probe-stop fuel slots start probe at = rw (free_probe, at) refl

free_probe-step :
    (fuel : ℕ) (slots : List (Option Ref)) (start probe : ℕ) (r : Ref)
    → slot slots start probe ≡ some r
    → free_probe (suc fuel) slots start probe ≡ free_probe fuel slots start (suc probe)
unfolding slot free_probe
free_probe-step fuel slots start probe r at = rw (free_probe, at) refl

Used-next :
    (slots : List (Option Ref)) (start probe : ℕ) (r : Ref)
    → Used slots start probe
    → slot slots start probe ≡ some r
    → Used slots start (suc probe)
Used-next slots start probe r u at q h e = elim (dec_lt q probe) [
  | yes before ↦ u q before e
  | no last ↦ cc (same_slot slots start q probe (omega arith))
]

probe-lt :
    (slots : List (Option Ref)) (start probe p : ℕ) (r : Ref)
    → probe ≤ p
    → slot slots start p ≡ none
    → slot slots start probe ≡ some r
    → suc probe ≤ p
probe-lt slots start probe p r a empty used = elim (dec_lt probe p) [
  | yes below ↦ omega arith
  | no same ↦ absurd (cc (same_slot slots start probe p (omega arith)))
]

-- The probing loop stops at the first empty slot, and there is one in reach.
pub free_probe-free :
    (fuel : ℕ) (slots : List (Option Ref)) (start probe p : ℕ)
    → probe ≤ p
    → p < probe + fuel
    → slot slots start p ≡ none
    → Used slots start probe
    → (slot slots start (free_probe fuel slots start probe) ≡ none)
      × Used slots start (free_probe fuel slots start probe)
free_probe-free zero slots start probe p a b empty u = absurd (omega arith)
free_probe-free (suc fuel) slots start probe p a b empty u =
    elim (Option-cases (slot slots start probe)) [
      | inl free ↦ rw (free_probe-stop fuel slots start probe free) (free, u)
      | inr (r, used) ↦ rw (free_probe-step fuel slots start probe r used) (
          free_probe-free fuel slots start (suc probe) p
            (probe-lt slots start probe p r a empty used) (omega arith) empty
            (Used-next slots start probe r u used))
    ]
