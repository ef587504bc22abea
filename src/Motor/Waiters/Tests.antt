-- ===== src/Motor/Waiters/Tests.antt =====
-- The theorems on the waiters, at an operation that waits for a message with the id 4.
use encos_driver.Prelude.{◌≡◌, ◌↔◌, refl, arith, true, false, ◌==◌, Option, none, some, [], ◌∷◌}
use encos_driver.Frame.{MotorPackMsg}
use encos_driver.Motor.Waiters.{
  Waiter, no_waiters, keep_received, with_waiter, cancel_at, reject_waiters, waiters_drained,
  offer_at,
}
use encos_driver.Motor.Waiters.Threads.{
  State, start, Reach, registers, offers, rejects, marks, here, next, waiting, count_open,
}
use encos_driver.Motor.Waiters.Store.{At}
use encos_driver.Motor.Waiters.Safety.{waiters_drained-exact}
use encos_driver.Motor.Waiters.Answer.{Answered, with_waiter-Answered}
use encos_driver.Motor.Waiters.Wakes.{IsAwake, cancelled-IsAwake}

abbrev Result : Type 0
Result = Option MotorPackMsg

abbrev expecting : Waiter Result
expecting = record {
  checker = λ m. some (m.id == 4);
  writer = keep_received;
  content = none;
  completed = false;
  cancelled = false;
}

abbrev other : MotorPackMsg
other = record { id = 3; frame_flags = 0; len = 0; payload = [] }

abbrev expected : MotorPackMsg
expected = record { id = 4; frame_flags = 0; len = 0; payload = [] }

abbrev one_waits : State Result
one_waits = record (start Result) {
  shared = with_waiter Result expecting (no_waiters Result);
  operations = waiting ∷ [];
}

Reach-one : Reach Result (start Result) one_waits
Reach-one = next here (registers (start Result) expecting refl refl refl)

waiters_drained-exact_example :
    (waiters_drained Result one_waits.shared ≡ true) ↔ (count_open one_waits.operations ≡ 0)
waiters_drained-exact_example = waiters_drained-exact Result Reach-one (omega arith)

-- A message arrives between the two sections of the cancellation.
abbrev rejected : State Result
rejected = record one_waits { shared = reject_waiters Result one_waits.shared; pending = 0 ∷ [] }

abbrev interrupted : State Result
interrupted = record rejected { shared = offer_at Result other 0 rejected.shared }

abbrev cancelled_state : State Result
cancelled_state = record interrupted {
  shared = cancel_at Result 0 interrupted.shared;
  pending = [];
}

Reach-cancelled : Reach Result (start Result) cancelled_state
unfolding with_waiter
Reach-cancelled =
    next (next (next Reach-one (rejects one_waits refl)) (offers rejected other 0))
      (marks interrupted 0 [] refl)

cancelled-IsAwake_example : At Result (IsAwake Result) 0 cancelled_state.shared.store
unfolding reject_waiters offer_at cancel_at
cancelled-IsAwake_example = cancelled-IsAwake Result 0 Reach-cancelled refl refl refl

abbrev answered : State Result
answered = record one_waits {
  shared = offer_at Result expected 0 (offer_at Result other 0 one_waits.shared);
}

Reach-answered : Reach Result one_waits answered
Reach-answered =
    next (next here (offers one_waits other 0))
      (offers (record one_waits { shared = offer_at Result other 0 one_waits.shared }) expected 0)

with_waiter-Answered_example : At Result (Answered Result expecting) 0 answered.shared.store
with_waiter-Answered_example =
    with_waiter-Answered Result expecting (no_waiters Result) one_waits answered refl refl
      Reach-answered
