-- ===== src/Registry.antt =====
-- `BasicOperationRegistry` of src/operation_gate.h: the entries with their gates, and the published
-- snapshots in which operations look them up. The calls here are one after the other.
pub mod Table
pub mod Probe
pub mod Insert
pub mod Build
pub mod Map
pub mod Entries
pub mod Effects
pub mod Newest
pub mod Invariant
pub mod Safety
pub mod Lifetime
pub mod Hazards
mod Tests
use encos_driver.Prelude.{
  ℕ, zero, suc, ◌+◌, ◌==◌, Bool, true, false, not, ◌&&◌, ◌||◌, if◌then◌else◌, Option, none, some,
  List, [], ◌∷◌, ◌++◌, map,
}
use encos_driver.Gate
use encos_driver.Gate.{is_retiring, is_full}
use encos_driver.Registry.Table.{Ref, Snapshot, build, is_key, find}

pub record Entry : Type 0 where
  pub ref : Ref
  pub gate : ℕ
  pub registered : Bool
  pub reclaimable : Bool

-- `next_id` is an address that no entry has had.
pub record Registry : Type 0 where
  pub entries : List Entry
  pub current : Snapshot
  pub next_id : ℕ

-- What `TryEnterDetailed` returns: the gate's entry, a refusal, or a use of an entry that has been
-- deleted.
pub data Entered : Type 0 where
  entered : ℕ → Entered
  refused dangling : Entered

abbrev pub refs_of : List Entry → List Ref
refs_of [] = []
refs_of (e ∷ es) = e.ref ∷ refs_of es

-- The entries that the constructor of `Snapshot` inserts.
abbrev pub registered_refs : List Entry → List Ref
registered_refs [] = []
registered_refs (e ∷ es) = if e.registered then e.ref ∷ registered_refs es else registered_refs es

abbrev pub new_registry : Registry
new_registry = record { entries = []; current = build []; next_id = 0 }

-- `PublishSnapshot`.
abbrev pub publish_snapshot : Registry → Registry
publish_snapshot r = record r { current = build (registered_refs r.entries) }

abbrev pub without_reclaimable : List Entry → List Entry
without_reclaimable [] = []
without_reclaimable (e ∷ es) =
    if e.reclaimable then without_reclaimable es else e ∷ without_reclaimable es

-- `EraseReclaimableEntries`.
abbrev pub erase_reclaimable : Registry → Registry
erase_reclaimable r = record r { entries = without_reclaimable r.entries }

abbrev pub is_registered_key : ℕ → ℕ → Entry → Bool
is_registered_key object kind e = is_key object kind e.ref && e.registered

unfoldable pub has_registered : ℕ → ℕ → List Entry → Bool
has_registered object kind [] = false
has_registered object kind (e ∷ es) =
    is_registered_key object kind e || has_registered object kind es

-- `Register`, told whether the allocations succeed; `none` is an exception, which leaves the registry
-- as it was.
unfoldable pub register : Bool → Registry → ℕ → ℕ → Option (Registry × ℕ)
register allocates r object kind =
    if has_registered object kind r.entries || not allocates
    then none
    else let fresh : Ref = record { id = r.next_id; object = object; kind = kind } in
      let entry : Entry = record {
        ref = fresh;
        gate = 0;
        registered = true;
        reclaimable = false;
      } in
      let pushed : Registry = record {
        entries = r.entries ++ entry ∷ [];
        current = r.current;
        next_id = suc r.next_id;
      } in
      some (erase_reclaimable (publish_snapshot pushed), r.next_id)

unfoldable pub entry_at : ℕ → List Entry → Option Entry
entry_at id [] = none
entry_at id (e ∷ es) = let rest = entry_at id es in if e.ref.id == id then some e else rest

abbrev pub with_gate : ℕ → ℕ → List Entry → List Entry
with_gate id word [] = []
with_gate id word (e ∷ es) =
    (if e.ref.id == id then record e { gate = word } else e) ∷ with_gate id word es

-- `OperationGate::TryEnter` without interference.
unfoldable pub admits : ℕ → Bool
admits word = not (is_retiring word) && not (is_full word)

-- `TryEnterDetailed` of a thread that has a hazard slot.
unfoldable pub try_enter : Registry → ℕ → ℕ → Registry × Entered
try_enter r object kind = elim (find r.current object kind) [
  | none ↦ (r, refused)
  | some ref ↦ elim (entry_at ref.id r.entries) [
    | none ↦ (r, dangling)
    | some e ↦
        if e.registered && admits e.gate
        then (record r { entries = with_gate ref.id (e.gate + 1) r.entries }, entered ref.id)
        else (r, refused)
  ]
]

-- `Leave` of the gate of an entry; `none` is `std::terminate`, or a use of a deleted entry.
unfoldable pub leave : Registry → ℕ → Option Registry
leave r id = elim (entry_at id r.entries) [
  | none ↦ none
  | some e ↦ elim (Gate.leave e.gate) [
    | none ↦ none
    | some (word, wakes) ↦ some (record r { entries = with_gate id word r.entries })
  ]
]

-- The loop of `HasActiveOperations`, from the newest entry to the oldest.
unfoldable pub newest_active : ℕ → ℕ → List Entry → Option Bool
newest_active object kind [] = none
newest_active object kind (e ∷ es) = elim (newest_active object kind es) [
  | some active ↦ some active
  | none ↦
      if is_registered_key object kind e then some (Gate.has_active_operations e.gate) else none
]

unfoldable pub has_active_operations : Registry → ℕ → ℕ → Bool
has_active_operations r object kind = elim (newest_active object kind r.entries) [
  | some active ↦ active
  | none ↦ false
]

-- What `Retire` does with the entry that it finds.
unfoldable pub retire_entry : Entry → Entry
retire_entry e =
    if e.registered then record e { registered = false; gate = Gate.retire e.gate } else e

-- One round of the loop of `Retire`, after the rounds for the newer entries: the entries so far, and
-- the entry whose gate is returned.
unfoldable pub retire_round : ℕ → ℕ → Entry → List Entry × Option ℕ → List Entry × Option ℕ
retire_round object kind e (later, some id) = (e ∷ later, some id)
retire_round object kind e (later, none) =
    if is_key object kind e.ref then (retire_entry e ∷ later, some e.ref.id) else (e ∷ later, none)

unfoldable pub retire_newest : ℕ → ℕ → List Entry → List Entry × Option ℕ
retire_newest object kind [] = ([], none)
retire_newest object kind (e ∷ es) = retire_round object kind e (retire_newest object kind es)

-- `Retire`.
unfoldable pub retire : Registry → ℕ → ℕ → Registry × Option ℕ
retire r object kind =
    let (entries, found) = retire_newest object kind r.entries in
    (record r { entries = entries }, found)

abbrev pub mark_reclaimable : ℕ → ℕ → List Entry → List Entry
mark_reclaimable object kind [] = []
mark_reclaimable object kind (e ∷ es) =
    (if is_key object kind e.ref && not e.registered && not (Gate.has_active_operations e.gate)
      then record e { reclaimable = true }
      else e)
    ∷ mark_reclaimable object kind es

-- `ReclaimRetired`, told whether the allocation of the snapshot succeeds. When it does not, the marks
-- stay.
unfoldable pub reclaim_retired : Bool → Registry → ℕ → ℕ → Registry
reclaim_retired allocates r object kind =
    let marked : Registry = record r { entries = mark_reclaimable object kind r.entries } in
    if allocates then erase_reclaimable (publish_snapshot marked) else marked
