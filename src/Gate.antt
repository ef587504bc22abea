-- ===== src/Gate.antt =====
-- `OperationGate` of src/operation_gate.h: one 32-bit atomic word, a retiring bit over a count of
-- the operations inside, under any number of threads. The condition variable only wakes threads
-- that test the word again, so what it adds is the flag that `leave` returns.
pub mod Threads
pub mod Safety
mod Tests
use encos_driver.Prelude.{
  ℕ, ◌+◌, ◌-◌, ◌^◌, bit_and, bit_or, u32, Bool, true, false, ◌&&◌, ◌==◌, ◌!=◌, if◌then◌else◌,
  Option, none, some,
}

abbrev pub retiring_bit : ℕ
retiring_bit = 2 ^ 31

abbrev pub active_mask : ℕ
active_mask = retiring_bit - 1

-- The two tests of `TryEnter` on the word that it loaded.
unfoldable pub is_retiring : ℕ → Bool
is_retiring state = bit_and state retiring_bit != 0

unfoldable pub is_full : ℕ → Bool
is_full state = bit_and state active_mask == active_mask

-- `Leave`: the new word, and whether it wakes the threads in `WaitForDrain`; `none` is
-- `std::terminate`.
unfoldable pub leave : ℕ → Option (ℕ × Bool)
leave previous =
    if bit_and previous active_mask == 0
    then none
    else some (
      u32 (previous + 2 ^ 32 - 1),
      bit_and previous retiring_bit != 0 && bit_and previous active_mask == 1,
    )

-- `Retire`.
unfoldable pub retire : ℕ → ℕ
retire state = bit_or state retiring_bit

-- `HasActiveOperations`, the negation of what `WaitForDrain` waits for.
unfoldable pub has_active_operations : ℕ → Bool
has_active_operations state = bit_and state active_mask != 0
