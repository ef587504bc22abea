-- ===== src/Frame.antt =====
-- CAN frames and their flags: include/device/motor/types.h.
use encos_driver.Prelude.{
  ℕ, ◌%◌, ◌≡◌, bit_and, bit_or, u8, Bool, ◌||◌, ◌==◌, ◌!=◌, if◌then◌else◌, List, replicate, arith,
  bit_and-mask,
}

pub record MotorPackMsg : Type 0 where
  pub id : ℕ
  pub frame_flags : ℕ
  pub len : ℕ
  pub payload : List ℕ

-- The eight payload bytes of a value-initialised message.
abbrev pub no_payload : List ℕ
no_payload = replicate 8 0

-- `bus_idx`, an `int`, is the 32 bits of its two's complement.
pub record MotorMessage : Type 0 where
  pub bus_idx : ℕ
  pub pack : MotorPackMsg

abbrev pub flag_eff : ℕ
flag_eff = 0x01

abbrev pub flag_fd_bit1 : ℕ
flag_fd_bit1 = 0x02

abbrev pub flag_fd_bit2 : ℕ
flag_fd_bit2 = 0x04

abbrev pub flag_rtr : ℕ
flag_rtr = 0x08

abbrev pub flag_mask : ℕ
flag_mask = 0x0F

abbrev pub flag_fd_mask : ℕ
flag_fd_mask = bit_or flag_fd_bit1 flag_fd_bit2

unfoldable pub sanitize : ℕ → ℕ
sanitize flags = u8 (bit_and flags flag_mask)

unfoldable pub use_extended_id : ℕ → Bool
unfolding sanitize
use_extended_id flags = bit_and (sanitize flags) flag_eff != 0

unfoldable pub use_rtr : ℕ → Bool
unfolding sanitize
use_rtr flags = bit_and (sanitize flags) flag_rtr != 0

unfoldable pub use_canfd : ℕ → Bool
unfolding sanitize
use_canfd flags = bit_and (sanitize flags) flag_fd_mask == flag_fd_mask

unfoldable pub have_valid_fd_bits : ℕ → Bool
unfolding sanitize
have_valid_fd_bits flags =
    let fd_bits = u8 (bit_and (sanitize flags) flag_fd_mask) in
    fd_bits == 0 || fd_bits == flag_fd_mask

-- `WithCanFdFlag` of src/device/motor/motor.cc; `~` on a byte is 255 minus it.
unfoldable pub with_canfd_flag : ℕ → Bool → ℕ
unfolding sanitize
with_canfd_flag frame_flags canfd =
    let clean = sanitize frame_flags in
    if canfd then u8 (bit_or clean flag_fd_mask) else u8 (bit_and clean 0xF9)

pub sanitize-eq : (flags : ℕ) → sanitize flags ≡ flags % 16
unfolding sanitize
sanitize-eq flags = omega (arith, bit_and-mask 4 flags)
