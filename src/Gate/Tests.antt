-- ===== src/Gate/Tests.antt =====
-- A run of `OperationGate` with two threads, and its theorems there: thread 0 enters, thread 1 reads
-- the word, then the gate is retired.
use encos_driver.Prelude.{
  ◌≡◌, refl, ◌≤◌, ◌<◌, ◌^◌, bit_and, true, ◌!=◌, ◌&&◌, ◌==◌, ◌-◌, some, ◌∷◌, [],
}
use encos_driver.Gate.{active_mask, is_retiring, is_full, has_active_operations, leave, retire}
use encos_driver.Gate.Threads.{
  State, inside, trying, load, exchange, Reach, here, next, count_inside,
}
use encos_driver.Gate.Safety.{start, has_active_operations-exact, leave-exact, retire-final}

abbrev entered : State
entered = record { word = 1; threads = inside ∷ trying 1 ∷ [] }

entered-Reach : Reach (start 2) entered
unfolding is_retiring is_full
entered-Reach =
    next (next (next here (load (start 2) 0 refl)) (exchange _ 0 0 refl refl refl refl))
      (load _ 1 refl)

has_active_operations-exact_example :
    (entered.word < 2 ^ 32)
    × (bit_and entered.word active_mask ≡ count_inside entered.threads)
    × (has_active_operations entered.word ≡ (count_inside entered.threads != 0))
has_active_operations-exact_example = has_active_operations-exact 2 entered entered-Reach

leave-exact_example :
    leave 1 ≡ some (entered.word - 1, is_retiring 1 && (count_inside entered.threads == 1))
leave-exact_example = leave-exact 2 entered 0 entered-Reach refl

retire-final_example :
    (is_retiring (retire 1) ≡ true) × (count_inside entered.threads ≤ count_inside entered.threads)
retire-final_example =
    retire-final 2 entered (record entered { word = retire entered.word }) entered-Reach here
