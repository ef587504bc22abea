-- ===== src/TransmitQueue/Tests.antt =====
-- A run of the send queue, and its theorem there.
use encos_driver.Prelude.{◌+◌, ◌≡◌, [], ◌∷◌, replicate}
use encos_driver.Frame.{MotorMessage}
use encos_driver.TransmitQueue.{Queue, empty_queue, available, push, pop, is_empty}
use encos_driver.TransmitQueue.Safety.{total, fresh, after_push, after_pop, is_nil, available-exact}

abbrev query : MotorMessage
query = record {
  bus_idx = 2;
  pack = record { id = 5; frame_flags = 0; len = 1; payload = replicate 8 0 };
}

abbrev used : Queue
used = (pop (push (push empty_queue (query ∷ query ∷ [])).0 (query ∷ [])).0).0

available-exact_example :
    (available used + total used.batches ≡ 4096) × (is_empty used ≡ is_nil used.batches)
available-exact_example =
    available-exact used
      (after_pop _ (after_push _ (query ∷ []) (after_push _ (query ∷ query ∷ []) fresh)))
