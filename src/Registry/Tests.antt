-- ===== src/Registry/Tests.antt =====
-- The registry (src/operation_gate.h) on one motor that is registered, entered, retired and
-- reclaimed.
use encos_driver.Prelude.{ℕ, ◌≡◌, refl, ap, sym, true, false, some, [], ◌∷◌, In, here}
use encos_driver.Gate
use encos_driver.Registry.Table
use encos_driver.Registry.Table.{Ref, build, is_key, find}
use encos_driver.Registry.Map.{lookup, Distinct, find-build}
use encos_driver.Registry.Entries.{registered_entry}
use encos_driver.Registry.Newest.{retire_registered}
use encos_driver.Registry.Safety.{
  Made, fresh, more, registers, enters, reclaims, enter_registered, try_enter-exact,
  retire-withdraws,
}
use encos_driver.Registry.Lifetime.{wanted-kept}
use encos_driver.Registry
use encos_driver.Registry.{
  Entry, Registry, Entered, entered, refused, new_registry, refs_of, register, try_enter,
  has_active_operations, retire, reclaim_retired,
}

abbrev motor : Ref
motor = record { id = 0; object = 4096; kind = 2 }

-- With one operation inside, or none.
abbrev with_motor : ℕ → Registry
with_motor gate = record {
  entries = record { ref = motor; gate = gate; registered = true; reclaimable = false } ∷ [];
  current = build (motor ∷ []);
  next_id = 1;
}

motor-register : register true new_registry 4096 2 ≡ some (with_motor 0, 0)
unfolding register Registry.has_registered
motor-register = refl

with_motor-Made : Made (with_motor 0)
with_motor-Made = more (fresh refl) (registers true 4096 2 0 motor-register)

motor-enter : (try_enter (with_motor 0) 4096 2) ≡ (with_motor 1, entered 0)
unfolding try_enter find build Table.find_loop Table.insert_all Table.insert Table.grow
    Table.free_probe Table.slot_index Table.start_of Table.hash is_key Registry.entry_at
    Registry.admits Gate.is_retiring Gate.is_full
motor-enter = refl

entered-Made : Made (with_motor 1)
entered-Made =
    more with_motor-Made (enters 4096 2 (ap (λ (p : Registry × Entered). p.0) (sym motor-enter)))

find-build_example : find (build (motor ∷ [])) 4096 2 ≡ lookup 4096 2 (motor ∷ [])
unfolding lookup
find-build_example = find-build (motor ∷ []) 4096 2 distinct
  where
    distinct : Distinct (motor ∷ [])
    distinct = (refl, tt)

try_enter-exact_example : try_enter (with_motor 0) 4096 2 ≡ enter_registered (with_motor 0) 4096 2
try_enter-exact_example = try_enter-exact (with_motor 0) 4096 2 with_motor-Made

retire-withdraws_example :
    ((retire (with_motor 1) 4096 2).0.entries ≡ retire_registered 4096 2 (with_motor 1).entries)
    × ((e : Entry)
        → registered_entry 4096 2 (with_motor 1).entries ≡ some e
        → (retire (with_motor 1) 4096 2).1 ≡ some e.ref.id)
    × (try_enter (retire (with_motor 1) 4096 2).0 4096 2
        ≡ ((retire (with_motor 1) 4096 2).0, refused))
retire-withdraws_example = retire-withdraws (with_motor 1) 4096 2 entered-Made

wanted-kept_example : In motor (refs_of (reclaim_retired true (with_motor 1) 4096 2).entries)
wanted-kept_example =
    wanted-kept (with_motor 1) (reclaim_retired true (with_motor 1) 4096 2)
      (record { ref = motor; gate = 1; registered = true; reclaimable = false }) entered-Made
      (reclaims true 4096 2 refl) here refl
