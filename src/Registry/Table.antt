-- ===== src/Registry/Table.antt =====
-- `Snapshot` of src/operation_gate.h: a hash table with linear probing, built once and then read
-- only. A slot holds a pointer to an entry, here with the entry's two constant members.
use Prim.Native.Nat.{bit_xor}
use encos_driver.Prelude.{
  ℕ, zero, suc, ◌+◌, ◌-◌, ◌*◌, max, ltb, ◌==◌, bit_and, shr, u64, Bool, ◌&&◌, if◌then◌else◌, Option,
  none, some, List, [], ◌∷◌, length, get_or, set, replicate,
}

-- A pointer to an `Entry`, with `object` and `kind`.
pub record Ref : Type 0 where
  pub id : ℕ
  pub object : ℕ
  pub kind : ℕ

pub record Snapshot : Type 0 where
  pub slots : List (Option Ref)
  pub max_probe : ℕ

-- `Hash`, on 64-bit pointers.
unfoldable pub hash : ℕ → ℕ → ℕ
hash object kind =
    let value = bit_xor (shr object 4) (u64 (kind * 0x9E3779B9)) in bit_xor value (shr value 16)

-- The slot at a distance from the start, around the end of the table.
unfoldable pub slot_index : ℕ → ℕ → ℕ → ℕ
slot_index size start probe = bit_and (start + probe) (size - 1)

unfoldable pub start_of : ℕ → ℕ → ℕ → ℕ
start_of size object kind = bit_and (hash object kind) (size - 1)

-- The loop that doubles the capacity, on fuel.
unfoldable pub grow : ℕ → ℕ → ℕ → ℕ
grow zero capacity active = capacity
grow (suc fuel) capacity active =
    let rest = grow fuel (capacity * 2) active in
    if ltb capacity (active * 2) then rest else capacity

-- The loop that passes over the used slots, on fuel.
unfoldable pub free_probe : ℕ → List (Option Ref) → ℕ → ℕ → ℕ
free_probe zero slots start probe = probe
free_probe (suc fuel) slots start probe =
    elim (get_or slots (slot_index (length slots) start probe) none) [
      | none ↦ probe
      | some used ↦ free_probe fuel slots start (suc probe)
    ]

unfoldable pub insert : Snapshot → Ref → Snapshot
insert s r =
    let start = start_of (length s.slots) r.object r.kind in
    let probe = free_probe (length s.slots) s.slots start 0 in
    record {
      slots = set s.slots (slot_index (length s.slots) start probe) (some r);
      max_probe = max s.max_probe probe;
    }

unfoldable pub insert_all : Snapshot → List Ref → Snapshot
insert_all s [] = s
insert_all s (r ∷ rs) = insert_all (insert s r) rs

-- The constructor of `Snapshot`, from the registered entries.
unfoldable pub build : List Ref → Snapshot
build refs =
    let capacity = grow (length refs) 8 (length refs) in
    insert_all (record { slots = replicate capacity none; max_probe = 0 }) refs

unfoldable pub is_key : ℕ → ℕ → Ref → Bool
is_key object kind r = r.object == object && r.kind == kind

-- The loop of `Find` over the probes that are left.
unfoldable pub find_loop : ℕ → List (Option Ref) → ℕ → ℕ → ℕ → ℕ → Option Ref
find_loop zero slots start object kind probe = none
find_loop (suc left) slots start object kind probe =
    let rest = find_loop left slots start object kind (suc probe) in
    elim (get_or slots (slot_index (length slots) start probe) none) [
      | none ↦ none
      | some r ↦ if is_key object kind r then some r else rest
    ]

-- `Find`.
unfoldable pub find : Snapshot → ℕ → ℕ → Option Ref
find s object kind =
    find_loop (suc s.max_probe) s.slots (start_of (length s.slots) object kind) object kind 0
