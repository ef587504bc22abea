-- ===== src/Motor/CommandLayout.antt =====
-- The payloads of src/device/motor/motor_control.cc against the layout of the frames: the bytes as
-- one big-endian number.
use encos_driver.Prelude.{
  ℕ, ◌+◌, ◌*◌, ◌^◌, ◌<◌, ◌≡◌, ap, bit_and, bit_or, shl, shr, u8, arith, bit_and-mask, bit_and-field,
  bit_or-shl, big_endian,
}
use encos_driver.Motor.Command.{pvt_payload, pos_payload, spd_payload, mode_payload}

regroup : (c : ℕ) → 96 + c * 4 ≡ (24 + c) * 4
regroup c = omega arith

-- `PVTControl`: for integers of 12, 9, 16, 12 and 12 bits, the eight bytes are the command code 0 in
-- three bits and the five integers, one after the other.
pub pvt_payload-layout :
    (kp kd pos spd tor : ℕ)
    → kp < 2 ^ 12
    → kd < 2 ^ 9
    → pos < 2 ^ 16
    → spd < 2 ^ 12
    → tor < 2 ^ 12
    → big_endian (pvt_payload kp kd pos spd tor)
      ≡ (((kp * 2 ^ 9 + kd) * 2 ^ 16 + pos) * 2 ^ 12 + spd) * 2 ^ 12 + tor
unfolding pvt_payload
pvt_payload-layout kp kd pos spd tor hkp hkd hpos hspd htor = omega (
  arith,
  bit_and-mask 7 kp,
  bit_and-field 8 1 kd,
  bit_or-shl 1 (bit_and kp 0x7F) (shr (bit_and kd 0x100) 8) (omega (arith, bit_and-field 8 1 kd)),
  bit_and-mask 8 kd,
  bit_and-mask 8 pos,
  bit_and-mask 4 spd,
  bit_or-shl 4 (bit_and spd 0x0F) (shr tor 8) (omega arith),
  bit_and-mask 8 tor,
)

-- `PosControl`: for 32 bits of position, integers of 15 and 12 bits and a feedback type of two bits,
-- the eight bytes are the command code 1 in three bits and the four values, one after the other.
pub pos_payload-layout :
    (position spd cur feedback : ℕ)
    → position < 2 ^ 32
    → spd < 2 ^ 15
    → cur < 2 ^ 12
    → feedback < 4
    → big_endian (pos_payload position spd cur feedback)
      ≡ (((1 * 2 ^ 32 + position) * 2 ^ 15 + spd) * 2 ^ 12 + cur) * 2 ^ 2 + feedback
unfolding pos_payload
pos_payload-layout position spd cur feedback hp hs hc hf =
    let p = λ (k : ℕ). u8 (shr position k) in
    omega (
      arith,
      bit_or-shl 5 1 (shr (p 24) 3) (omega arith),
      bit_or-shl 5 (p 24) (shr (p 16) 3) (omega arith),
      bit_or-shl 5 (p 16) (shr (p 8) 3) (omega arith),
      bit_or-shl 5 (p 8) (shr (p 0) 3) (omega arith),
      bit_or-shl 5 (p 0) (shr spd 10) (omega arith),
      bit_and-field 2 8 spd,
      bit_and-mask 2 spd,
      bit_or-shl 6 (bit_and spd 0x03) (shr cur 6) (omega arith),
      bit_and-mask 6 cur,
      bit_or-shl 2 (bit_and cur 0x3F) feedback (omega arith),
    )

-- `SpdControl`: for a feedback type of five bits, 32 bits of speed and 16 of current, the first seven
-- bytes are the command code 2 in three bits and the three values; the eighth byte is 0.
pub spd_payload-layout :
    (speed cur feedback : ℕ)
    → speed < 2 ^ 32
    → cur < 2 ^ 16
    → feedback < 2 ^ 5
    → big_endian (spd_payload speed cur feedback)
      ≡ (((2 * 2 ^ 5 + feedback) * 2 ^ 32 + speed) * 2 ^ 16 + cur) * 256
unfolding spd_payload
spd_payload-layout speed cur feedback hs hc hf =
    omega (arith, bit_or-shl 5 2 feedback (omega arith), bit_and-mask 8 cur)

-- `CurControl`, `TorControl` and `Stop`: for a control mode of three bits, a feedback type of two and
-- a 16-bit value, the first three bytes are the command code 3 in three bits and the three values;
-- the other five bytes are 0.
pub mode_payload-layout :
    (ctrl value feedback : ℕ)
    → ctrl < 8
    → value < 2 ^ 16
    → feedback < 4
    → big_endian (mode_payload ctrl value feedback)
      ≡ (((3 * 2 ^ 3 + ctrl) * 2 ^ 2 + feedback) * 2 ^ 16 + value) * 2 ^ 40
unfolding mode_payload
mode_payload-layout ctrl value feedback hc hv hf =
    let joined : bit_or (shl 0x03 5) (shl ctrl 2) ≡ 96 + ctrl * 4 =
      bit_or-shl 5 3 (shl ctrl 2) (omega arith) in
    let whole : bit_or (bit_or (shl 0x03 5) (shl ctrl 2)) feedback ≡ 96 + ctrl * 4 + feedback =
      rw joined (
        omega (
          arith,
          bit_or-shl 2 (24 + ctrl) feedback (omega arith),
          ap (λ (t : ℕ). bit_or t feedback) (regroup ctrl),
        )) in
    omega (arith, whole, bit_and-mask 8 value)
