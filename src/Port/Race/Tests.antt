-- ===== src/Port/Race/Tests.antt =====
-- A push and a read of one slot, step by step, and the theorems of the interleavings there.
use encos_driver.Prelude.{ℕ, arith, ◌≡◌, refl, false, ◌==◌, if◌then◌else◌, Option, none, some}
use encos_driver.Port.{new_port, got}
use encos_driver.Port.Publication.{next_cell, update}
use encos_driver.Port.Race.{
  State, Reach, here, next, load_hazard, construct, store_odd, store_low, store_high, store_cell,
  store_even, publish, settle, load_active, store_hazard, revalidate, load_version, load_low,
  load_high, load_cell, accept, copy, release,
}
use encos_driver.Port.Race.Safety.{
  OfProtected, writes, Answers, start, writer-reader_apart, read_target-exact,
}

-- The message 42 is pushed with the sequence 5, and no other.
abbrev only_fifth : ℕ → Option ℕ
only_fifth q = if q == 5 then some 42 else none

-- The state in which the whole push has been made and the consumer is at the copy, then at the end.
unfoldable copying : (t : State ℕ) × Reach only_fifth start t
unfolding start new_port next_cell update
copying = (
  _,
  next
      (next
        (next
          (next
            (next
              (next
                (next
                  (next
                    (next
                      (next
                        (next
                          (next
                            (next
                              (next
                                (next
                                  (next (next here (load_hazard start 5 42 refl (omega arith) refl))
                                    (construct _ 5 1 42 refl))
                                  (store_odd _ 5 1 42 refl))
                                (store_low _ 5 1 42 refl))
                              (store_high _ 5 1 42 refl))
                            (store_cell _ 5 1 42 refl))
                          (store_even _ 5 1 42 refl))
                        (publish _ 5 1 42 refl))
                      (settle _ 1 refl))
                    (load_active _ _ 5 refl))
                  (store_hazard _ 1 refl))
                (revalidate _ 1 refl refl))
              (load_version _ 1 refl))
            (load_low _ 1 2 refl))
          (load_high _ 1 2 5 refl))
        (load_cell _ 1 2 5 0 refl))
      (accept _ 1 2 5 0 1 refl refl refl refl),
)

unfoldable finishing : (t : State ℕ) × Reach only_fifth start t
unfolding copying start new_port next_cell update
finishing = (_, next (next copying.1 (copy _ 1 refl)) (release _ 1 (some 42) refl))

writer-reader_apart_example :
    OfProtected (λ a. writes copying.0.producer a ≡ false) copying.0.consumer
writer-reader_apart_example = writer-reader_apart only_fifth refl copying.1

read_target-exact_example : Answers (only_fifth finishing.0.target) (got 42)
unfolding finishing copying start new_port next_cell update
read_target-exact_example = read_target-exact only_fifth (got 42) refl finishing.1 refl
