-- ===== src/Registry/Probe.antt =====
-- What `Find` returns in a table that `Snapshot` (src/operation_gate.h) has built: the entry with
-- the key, if there is one.
use encos_driver.Prelude.{
  ℕ, zero, suc, ◌+◌, ◌≤◌, ◌<◌, ◌≡◌, ◌≢◌, refl, ap, true, if◌then◌else◌, Option, none, some, List,
  length, get_or, arith, Option-cases, Bool-cases, inl, inr,
}
use native.Mathlib.Decide.{dec_lt}
use encos_driver.Registry.Table.{Ref, slot_index, is_key, find_loop}

-- What a slot at a distance from the start holds.
unfoldable pub slot : List (Option Ref) → ℕ → ℕ → Option Ref
slot slots start probe = get_or slots (slot_index (length slots) start probe) none

-- The first used slots from a start on.
abbrev pub Used : List (Option Ref) → ℕ → ℕ → Type 0
Used slots start p = (q : ℕ) → q < p → slot slots start q ≢ none

pub same_slot :
    (slots : List (Option Ref)) (start probe p : ℕ)
    → probe ≡ p
    → slot slots start probe ≡ slot slots start p
same_slot slots start probe p e = ap (slot slots start) e

find_loop-step :
    (left : ℕ) (slots : List (Option Ref)) (start object kind probe : ℕ) (r : Ref)
    → slot slots start probe ≡ some r
    → find_loop (suc left) slots start object kind probe ≡ (
        if is_key object kind r then some r else find_loop left slots start object kind (suc probe))
unfolding slot find_loop is_key
find_loop-step left slots start object kind probe r at = rw (find_loop, at) refl

find_loop-stop :
    (left : ℕ) (slots : List (Option Ref)) (start object kind probe : ℕ)
    → slot slots start probe ≡ none
    → find_loop (suc left) slots start object kind probe ≡ none
unfolding slot find_loop
find_loop-stop left slots start object kind probe at = rw (find_loop, at) refl

-- `Find` returns something if the key is in reach behind used slots.
pub find_loop-some :
    (left : ℕ) (slots : List (Option Ref)) (start object kind probe p : ℕ) (r : Ref)
    → probe ≤ p
    → p < probe + left
    → Used slots start p
    → slot slots start p ≡ some r
    → is_key object kind r ≡ true
    → find_loop left slots start object kind probe ≢ none
find_loop-some zero slots start object kind probe p r a b u at key e = absurd (omega arith)
find_loop-some (suc left) slots start object kind probe p r a b u at key e =
    elim (Option-cases (slot slots start probe)) [
      | inl empty ↦ elim (dec_lt probe p) [
        | yes before ↦ u probe before empty
        | no behind ↦ cc (same_slot slots start probe p (omega arith))
      ]
      | inr (q, used) ↦
          let step = find_loop-step left slots start object kind probe q used in
          elim (Bool-cases (is_key object kind q)) [
            | inl yes_key ↦ ground (arith, step)
            | inr no_key ↦ elim (dec_lt probe p) [
              | yes before ↦
                  find_loop-some left slots start object kind (suc probe) p r before (omega arith) u
                    at key (ground (arith, step))
              | no behind ↦
                  let same : q ≡ r = cc (same_slot slots start probe p (omega arith)) in
                  cc (ap (is_key object kind) same)
            ]
          ]
    ]

-- What `Find` returns has the key and is in the table.
pub find_loop_sound :
    (left : ℕ) (slots : List (Option Ref)) (start object kind probe : ℕ) (f : Ref)
    → find_loop left slots start object kind probe ≡ some f
    → (is_key object kind f ≡ true) × ((i : ℕ) × (get_or slots i none ≡ some f))
unfolding slot find_loop
find_loop_sound zero slots start object kind probe f e = absurd cc
find_loop_sound (suc left) slots start object kind probe f e =
    elim (Option-cases (slot slots start probe)) [
      | inl empty ↦ absurd (cc (find_loop-stop left slots start object kind probe empty))
      | inr (q, used) ↦
          let step = find_loop-step left slots start object kind probe q used in
          elim (Bool-cases (is_key object kind q)) [
            | inl yes_key ↦ (
              ground (arith, step),
              (slot_index (length slots) start probe, ground (arith, step)),
            )
            | inr no_key ↦
                find_loop_sound left slots start object kind (suc probe) f (ground (arith, step))
          ]
    ]
