-- ===== src/Registry/Hazards/Tests.antt =====
-- The snapshots of the registry (src/operation_gate.h) with one hazard slot: a reader that validates
-- the snapshot at address 7, which the writer then replaces by one at address 8 and waits to delete.
use encos_driver.Prelude.{◌≡◌, refl, true, false, some, arith}
use encos_driver.Registry.Hazards.{
  looking, loaded, stored, validated, quiet, built, waiting, State, put, start, begin, load, store,
  validate, construct, exchange, Reach, begun, then_, Steps,
}
use encos_driver.Registry.Hazards.Safety.{validated-live}
use encos_driver.Registry.Hazards.Progress.{writer-finishes}

abbrev looked : State
looked = record (start 7) { readers = put (start 7).readers 0 looking }

abbrev with_address : State
with_address = record looked { readers = put looked.readers 0 (loaded 7) }

abbrev with_hazard : State
with_hazard = record with_address {
  hazards = put with_address.hazards 0 (some 7);
  readers = put with_address.readers 0 (stored 7);
}

abbrev reading : State
reading = record with_hazard { readers = put with_hazard.readers 0 (validated 7) }

abbrev with_new : State
with_new = record reading { live = put reading.live 8 true; writer = built 8 }

abbrev replaced : State
replaced = record with_new { current = 8; writer = waiting 7 0 }

reading-Reach : Reach 1 reading
reading-Reach =
    then_
      (then_ (then_ (then_ (begun 7) (begin 0 (omega arith) refl)) (load 0 refl)) (store 0 7 refl))
      (validate 0 7 refl refl)

replaced-Reach : Reach 1 replaced
replaced-Reach = then_ (then_ reading-Reach (construct 8 refl refl)) (exchange 8 refl)

validated-live_example : replaced.live 7 ≡ true
validated-live_example = validated-live 1 replaced 0 7 replaced-Reach refl

writer-finishes_example : (t : State) × Steps 1 replaced t × (t.writer ≡ quiet) × (t.live 7 ≡ false)
writer-finishes_example = writer-finishes 1 replaced 7 0 replaced-Reach refl
