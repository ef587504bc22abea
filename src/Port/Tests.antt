-- ===== src/Port/Tests.antt =====
-- Runs of `Port` on small inputs, and the theorems at concrete inputs.
use encos_driver.Prelude.{ℕ, suc, ◌≡◌, refl, true, false, List, [], ◌∷◌, arith}
use encos_driver.Port.{
  Port, Popped, message, nothing, new_port, push, pop, pop_at, take_target, read_port_head,
  read_target, judge_snapshot, settle,
}
use encos_driver.Port.History.{Call, asks_empty, pushes, pops, clears, run, queue_run, run_refines}
use encos_driver.Port.Publication.{read_head, read_sequence, read_slot, update}

pushed : Port ℕ → List ℕ → Port ℕ
pushed p [] = p
pushed p (m ∷ ms) = pushed (push 3 p m).0 ms

popped_of : ℕ → Port ℕ → List (Popped ℕ)
popped_of ℕ.zero p = []
popped_of (suc n) p = let (q, r) = pop 3 2 p in r ∷ popped_of n q

-- A port of capacity 3 keeps the newest three of five messages.
overwrites_oldest :
    popped_of 4 (pushed (new_port false) (10 ∷ 11 ∷ 12 ∷ 13 ∷ 14 ∷ []))
    ≡ message 12 ∷ message 13 ∷ message 14 ∷ nothing ∷ []
unfolding popped_of pushed push pop new_port pop_at take_target read_port_head read_head
    read_sequence read_target judge_snapshot read_slot settle update
overwrites_oldest = refl

-- A history of a port of capacity 2 with a callback.
abbrev history : List (Call ℕ)
history = asks_empty ∷ pushes 10 ∷ pushes 11 ∷ pushes 12 ∷ pops ∷ clears ∷ pops ∷ []

run_refines_example : run 2 2 (new_port true) history ≡ queue_run 2 true [] history
run_refines_example = run_refines 2 1 true history (omega arith) (omega arith)
