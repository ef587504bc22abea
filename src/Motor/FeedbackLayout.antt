-- ===== src/Motor/FeedbackLayout.antt =====
-- The feedback decoders of src/device/motor/pack_helper.h against the layout of the frames: the
-- eight bytes as one big-endian number, and each value as a range of its bits.
use encos_driver.Prelude.{
  ℕ, ◌+◌, ◌*◌, ◌/◌, ◌%◌, ◌^◌, ◌≤◌, ◌<◌, ◌≡◌, ◌≢◌, bit_and, bit_or, shl, shr, u8, u32, ◌==◌,
  if◌then◌else◌, none, some, [], ◌∷◌, get_or, arith, bit_and-mask, bit_and-field, bit_or-shl,
  big_endian, leb, not, ◌!=◌, field, ◌↔◌, ◌⊎◌,
}
use encos_driver.Frame.{MotorPackMsg}
use encos_driver.Motor.Floats.{FloatOps, uint_to_float}
use encos_driver.Motor.Error.{decode_motor_error, decode_motor_error-ne, no_response}
use encos_driver.Motor.Feedback.{
  Properties, decode_temperature, decode_feedback1, decode_feedback2, decode_feedback3,
  auto_decode_feedback,
}

-- Two bytes joined, and the two halves of the split byte.
join2 : (a b : ℕ) → b < 256 → bit_or (shl a 8) b ≡ a * 256 + b
join2 a b h = bit_or-shl 8 a b h

high_nibble : (a b : ℕ) → b < 256 → bit_or (shl a 4) (shr (bit_and b 0xF0) 4) ≡ a * 16 + b / 16
high_nibble a b h = omega (
  arith,
  bit_and-field 4 4 b,
  bit_or-shl 4 a (shr (bit_and b 0xF0) 4) (omega (arith, bit_and-field 4 4 b)),
)

low_nibble : (a b : ℕ) → b < 256 → bit_or (shl (bit_and a 0x0F) 8) b ≡ a % 16 * 256 + b
low_nibble a b h = omega (arith, bit_and-mask 4 a, bit_or-shl 8 (bit_and a 0x0F) b h)

join4 :
    (a b c d : ℕ)
    → a < 256
    → b < 256
    → c < 256
    → d < 256
    → bit_or (bit_or (bit_or (u32 (shl a 24)) (u32 (shl b 16))) (u32 (shl c 8))) d
      ≡ ((a * 256 + b) * 256 + c) * 256 + d
join4 a b c d ha hb hc hd =
    let cd : bit_or (c * 256) d ≡ c * 256 + d = bit_or-shl 8 c d hd in
    let ab : bit_or (a * 2 ^ 24) (b * 2 ^ 16) ≡ a * 2 ^ 24 + b * 2 ^ 16 =
      bit_or-shl 24 a _ (omega arith) in
    let abc : bit_or ((a * 256 + b) * 2 ^ 16) (c * 256) ≡ (a * 256 + b) * 2 ^ 16 + c * 256 =
      bit_or-shl 16 (a * 256 + b) _ (omega arith) in
    let abcd : bit_or (((a * 256 + b) * 256 + c) * 2 ^ 8) d ≡ ((a * 256 + b) * 256 + c) * 256 + d =
      bit_or-shl 8 ((a * 256 + b) * 256 + c) d hd in
    let p : u32 (shl a 24) ≡ a * 2 ^ 24 = omega arith in
    let q : u32 (shl b 16) ≡ b * 2 ^ 16 = omega arith in
    let r : u32 (shl c 8) ≡ c * 256 = omega arith in
    let s : a * 2 ^ 24 + b * 2 ^ 16 ≡ (a * 256 + b) * 2 ^ 16 = omega arith in
    let t : (a * 256 + b) * 2 ^ 16 + c * 256 ≡ ((a * 256 + b) * 256 + c) * 2 ^ 8 = omega arith in
    rw (p, q, r, ab, s, abc, t) abcd

-- The length and type tests of a decoder.
accepts {ℓ} :
    {A : Type ℓ} (len n v : ℕ) (x : A)
    → 8 ≤ len
    → (if not (leb 8 len) then none else if n != v then none else some x)
      ≡ (if n == v then some x else none)
accepts len n v x long = ground arith

module _ (a b c d e g h i : ℕ) where
  abbrev Bytes8 : Type 0
  Bytes8 =
      (a < 256) × (b < 256) × (c < 256) × (d < 256) × (e < 256) × (g < 256) × (h < 256) × (i < 256)

  abbrev word : ℕ
  word = big_endian (a ∷ b ∷ c ∷ d ∷ e ∷ g ∷ h ∷ i ∷ [])

  abbrev feedback_pack : ℕ → ℕ → ℕ → MotorPackMsg
  feedback_pack id flags len = record {
    id = id;
    frame_flags = flags;
    len = len;
    payload = a ∷ b ∷ c ∷ d ∷ e ∷ g ∷ h ∷ i ∷ [];
  }

  ack_field : Bytes8 → u8 (shr a 5) ≡ field word 61 3
  ack_field k = omega arith

  error_field : Bytes8 → u8 (bit_and a 0x1F) ≡ field word 56 5
  error_field k = omega (arith, bit_and-mask 5 a)

  position_field : Bytes8 → bit_or (shl b 8) c ≡ field word 40 16
  position_field k = omega (arith, join2 b c k.2)

  speed_field : Bytes8 → bit_or (shl d 4) (shr (bit_and e 0xF0) 4) ≡ field word 28 12
  speed_field k = omega (arith, high_nibble d e k.4)

  current_field : Bytes8 → bit_or (shl (bit_and e 0x0F) 8) g ≡ field word 16 12
  current_field k = omega (arith, low_nibble e g k.5)

  raw_field :
      Bytes8
      → bit_or (bit_or (bit_or (u32 (shl b 24)) (u32 (shl c 16))) (u32 (shl d 8))) e
        ≡ field word 24 32
  raw_field k = omega (arith, join4 b c d e k.1 k.2 k.3 k.4)

  amps_field : Bytes8 → bit_or (shl g 8) h ≡ field word 8 16
  amps_field k = omega (arith, join2 g h k.6)

  module _ (f : FloatOps) (r : Properties f) (id flags len : ℕ) where
    open f use {of_nat, of_bits, pi, mul, div}

    -- The frame of type 1, for all eight bytes: it decodes exactly when the top three bits are 1,
    -- and then the fields are those bit ranges of the 64-bit word.
    pub decode_feedback1-layout :
        Bytes8
        → 8 ≤ len
        → decode_feedback1 f (feedback_pack id flags len) r ≡ (
            if field word 61 3 == 1
            then some (record {
              error = decode_motor_error (field word 56 5) r.fw_version;
              position = uint_to_float f (field word 40 16) r.position.low r.position.high 16;
              speed = uint_to_float f (field word 28 12) r.speed.low r.speed.high 12;
              current = uint_to_float f (field word 16 12) r.current.low r.current.high 12;
              motor_temperature = decode_temperature f (field word 8 8) r.fw_version;
              mos_temperature = decode_temperature f (field word 0 8) r.fw_version;
            })
            else none)
    unfolding decode_feedback1
    decode_feedback1-layout k long =
        let h8 : h ≡ field word 8 8 = omega arith in
        let i8 : i ≡ field word 0 8 = omega arith in
        rw
          (position_field k, speed_field k, current_field k, error_field k, ack_field k, ← h8, ← i8)
          (accepts len _ _ _ long)

    -- The frame of type 2, for all eight bytes: it decodes exactly when the top three bits are 2, and
    -- then the position is made of the float of 32 bits, the current and the temperature of the 16
    -- and 8 bits behind them.
    pub decode_feedback2-layout :
        Bytes8
        → 8 ≤ len
        → decode_feedback2 f (feedback_pack id flags len) r ≡ (
            if field word 61 3 == 2
            then some (record {
              error = decode_motor_error (field word 56 5) r.fw_version;
              position = mul (div (of_bits (field word 24 32)) (of_nat 180)) pi;
              current = div (of_nat (field word 8 16)) (of_nat 100);
              motor_temperature = decode_temperature f (field word 0 8) r.fw_version;
            })
            else none)
    unfolding decode_feedback2
    decode_feedback2-layout k long =
        let i8 : i ≡ field word 0 8 = omega arith in
        rw (raw_field k, amps_field k, error_field k, ack_field k, ← i8) (accepts len _ _ _ long)

    -- The frame of type 3, for all eight bytes: it decodes exactly when the top three bits are 3, and
    -- then the speed is made of the float of 32 bits, the current and the temperature of the 16 and 8
    -- bits behind them.
    pub decode_feedback3-layout :
        Bytes8
        → 8 ≤ len
        → decode_feedback3 f (feedback_pack id flags len) r ≡ (
            if field word 61 3 == 3
            then some (record {
              error = decode_motor_error (field word 56 5) r.fw_version;
              speed = mul (div (of_bits (field word 24 32)) (of_nat 30)) pi;
              current = div (of_nat (field word 8 16)) (of_nat 100);
              motor_temperature = decode_temperature f (field word 0 8) r.fw_version;
            })
            else none)
    unfolding decode_feedback3
    decode_feedback3-layout k long =
        let i8 : i ≡ field word 0 8 = omega arith in
        rw (raw_field k, amps_field k, error_field k, ack_field k, ← i8) (accepts len _ _ _ long)

-- `AutoDecodeFeedback` reports `NoResponse` exactly for what is no feedback frame: fewer than eight
-- bytes, or a type other than 1, 2 and 3.
pub auto_decode_feedback-no_response :
    (f : FloatOps) (pack : MotorPackMsg) (r : Properties f)
    → ((auto_decode_feedback f pack r).error ≡ no_response) ↔ (
        (pack.len < 8)
        ⊎ ((u8 (shr (get_or pack.payload 0 0) 5) ≢ 1)
            × (u8 (shr (get_or pack.payload 0 0) 5) ≢ 2)
            × (u8 (shr (get_or pack.payload 0 0) 5) ≢ 3)))
unfolding auto_decode_feedback decode_feedback1 decode_feedback2 decode_feedback3
auto_decode_feedback-no_response f pack r =
    let code = u8 (bit_and (get_or pack.payload 0 0) 0x1F) in
    let small : code < 32 = omega (arith, bit_and-mask 5 (get_or pack.payload 0 0)) in
    ground (arith, decode_motor_error-ne code r.fw_version small)
