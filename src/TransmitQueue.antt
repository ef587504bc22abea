-- ===== src/TransmitQueue.antt =====
-- The bounded send queue of the Ethernet adapter: plugins/adapter/ethernet/ethernet_tx_queue.h. The
-- caller holds a lock, so its calls are one after the other.
mod Safety
mod Tests
use encos_driver.Prelude.{
  ℕ, ◌+◌, ◌-◌, ◌^◌, ltb, leb, ◌==◌, u64, Bool, true, false, not, if◌then◌else◌, List, [], ◌∷◌, ◌++◌,
  length,
}
use encos_driver.Frame.{MotorMessage}

pub record Queue : Type 0 where
  pub batches : List (List MotorMessage)
  pub size : ℕ

abbrev pub empty_queue : Queue
empty_queue = record { batches = []; size = 0 }

-- `Available`, on `std::size_t`.
unfoldable pub available : Queue → ℕ
available q = u64 (4096 + 2 ^ 64 - q.size)

-- The loop that tests the channels; a negative one is a 32-bit pattern of 2^31 or more.
unfoldable pub has_channels : List MotorMessage → Bool
has_channels [] = true
has_channels (m ∷ ms) = let rest = has_channels ms in if leb 8 m.bus_idx then false else rest

unfoldable pub push : Queue → List MotorMessage → Queue × Bool
unfolding available
push q messages =
    if ltb (available q) (length messages)
    then (q, false)
    else if not (has_channels messages)
    then (q, false)
    else if length messages == 0
    then (q, true)
    else (
      record { batches = q.batches ++ messages ∷ []; size = u64 (q.size + length messages) },
      true,
    )

unfoldable pub pop_batch : List (List MotorMessage) → ℕ → Queue × List MotorMessage
pop_batch [] size = (record { batches = []; size = size }, [])
pop_batch (b ∷ bs) size = (record { batches = bs; size = u64 (size + 2 ^ 64 - length b) }, b)

unfoldable pub pop : Queue → Queue × List MotorMessage
pop q = pop_batch q.batches q.size

unfoldable pub is_empty : Queue → Bool
is_empty q = q.size == 0
