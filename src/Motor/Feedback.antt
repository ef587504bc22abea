-- ===== src/Motor/Feedback.antt =====
-- The feedback frames of a motor: src/device/motor/pack_helper.h, with the structures of
-- include/device/motor/types.h.
use encos_driver.Prelude.{
  ℕ, ◌+◌, bit_and, bit_or, shl, shr, u8, u32, Bool, ◌==◌, ◌!=◌, leb, not, if◌then◌else◌, Option,
  none, some, get_or,
}
use encos_driver.Frame.{MotorPackMsg}
use encos_driver.Motor.Floats.{FloatOps, Range, uint_to_float}
use encos_driver.Motor.Error.{decode_motor_error, no_response}

module _ (f : FloatOps) where
  open f use {Float, of_bits, of_nat, pi, nan, add, sub, mul, div}

  pub record Properties : Type 0 where
    pub kp : Range f
    pub kd : Range f
    pub position : Range f
    pub speed : Range f
    pub torque : Range f
    pub current : Range f
    pub kt : Float
    pub brake : Bool
    pub fw_version : ℕ

  pub record Feedback1 : Type 0 where
    pub error : ℕ
    pub position : Float
    pub speed : Float
    pub current : Float
    pub motor_temperature : Float
    pub mos_temperature : Float

  pub record Feedback2 : Type 0 where
    pub error : ℕ
    pub position : Float
    pub current : Float
    pub motor_temperature : Float

  pub record Feedback3 : Type 0 where
    pub error : ℕ
    pub speed : Float
    pub current : Float
    pub motor_temperature : Float

  -- `packet_has_payload`.
  abbrev pub has_payload : MotorPackMsg → ℕ → ℕ → Bool
  has_payload pack offset size = leb (offset + size) pack.len

  -- `DecodeTemperature`.
  unfoldable pub decode_temperature : ℕ → ℕ → Float
  decode_temperature raw fw_version =
      if fw_version == 0
      then div (sub (of_nat raw) (of_nat 50)) (of_nat 2)
      else sub (of_nat raw) (of_nat 55)

  abbrev pub byte : MotorPackMsg → ℕ → ℕ
  byte pack i = get_or pack.payload i 0

  -- The 32 bits from the second byte on, as the code joins them.
  abbrev pub raw_word : MotorPackMsg → ℕ
  raw_word pack =
      bit_or
        (bit_or (bit_or (u32 (shl (byte pack 1) 24)) (u32 (shl (byte pack 2) 16)))
          (u32 (shl (byte pack 3) 8)))
        (byte pack 4)

  abbrev pub ack_of : MotorPackMsg → ℕ
  ack_of pack = u8 (shr (byte pack 0) 5)

  abbrev pub error_of : MotorPackMsg → Properties → ℕ
  error_of pack ranges = decode_motor_error (u8 (bit_and (byte pack 0) 0x1F)) ranges.fw_version

  -- `DecodeFeedback<1>`, `<2>` and `<3>`.
  unfoldable pub decode_feedback1 : MotorPackMsg → Properties → Option Feedback1
  decode_feedback1 pack ranges =
      if not (has_payload pack 0 8)
      then none
      else if ack_of pack != 1
      then none
      else let pos_int = bit_or (shl (byte pack 1) 8) (byte pack 2) in
        let spd_int = bit_or (shl (byte pack 3) 4) (shr (bit_and (byte pack 4) 0xF0) 4) in
        let cur_int = bit_or (shl (bit_and (byte pack 4) 0x0F) 8) (byte pack 5) in
        some (record {
          error = error_of pack ranges;
          position = uint_to_float f pos_int ranges.position.low ranges.position.high 16;
          speed = uint_to_float f spd_int ranges.speed.low ranges.speed.high 12;
          current = uint_to_float f cur_int ranges.current.low ranges.current.high 12;
          motor_temperature = decode_temperature (byte pack 6) ranges.fw_version;
          mos_temperature = decode_temperature (byte pack 7) ranges.fw_version;
        })

  unfoldable pub decode_feedback2 : MotorPackMsg → Properties → Option Feedback2
  decode_feedback2 pack ranges =
      if not (has_payload pack 0 8)
      then none
      else if ack_of pack != 2
      then none
      else let cur_int = bit_or (shl (byte pack 5) 8) (byte pack 6) in
        some (record {
          error = error_of pack ranges;
          position = mul (div (of_bits (raw_word pack)) (of_nat 180)) pi;
          current = div (of_nat cur_int) (of_nat 100);
          motor_temperature = decode_temperature (byte pack 7) ranges.fw_version;
        })

  unfoldable pub decode_feedback3 : MotorPackMsg → Properties → Option Feedback3
  decode_feedback3 pack ranges =
      if not (has_payload pack 0 8)
      then none
      else if ack_of pack != 3
      then none
      else let cur_int = bit_or (shl (byte pack 5) 8) (byte pack 6) in
        some (record {
          error = error_of pack ranges;
          speed = mul (div (of_bits (raw_word pack)) (of_nat 30)) pi;
          current = div (of_nat cur_int) (of_nat 100);
          motor_temperature = decode_temperature (byte pack 7) ranges.fw_version;
        })

  -- What `AutoDecodeFeedback` returns when it breaks out of its switch.
  abbrev pub empty_feedback : Feedback1
  empty_feedback = record {
    error = no_response;
    position = nan;
    speed = nan;
    current = nan;
    motor_temperature = nan;
    mos_temperature = nan;
  }

  abbrev pub from_feedback1 : Option Feedback1 → Feedback1
  from_feedback1 none = empty_feedback
  from_feedback1 (some fb) = fb

  abbrev pub from_feedback2 : Option Feedback2 → Feedback1
  from_feedback2 none = empty_feedback
  from_feedback2 (some fb2) = record {
    error = fb2.error;
    position = fb2.position;
    speed = nan;
    current = fb2.current;
    motor_temperature = fb2.motor_temperature;
    mos_temperature = nan;
  }

  abbrev pub from_feedback3 : Option Feedback3 → Feedback1
  from_feedback3 none = empty_feedback
  from_feedback3 (some fb3) = record {
    error = fb3.error;
    position = nan;
    speed = fb3.speed;
    current = fb3.current;
    motor_temperature = fb3.motor_temperature;
    mos_temperature = nan;
  }

  unfoldable pub auto_decode_feedback : MotorPackMsg → Properties → Feedback1
  auto_decode_feedback pack ranges =
      let ack = ack_of pack in
      if ack == 1
      then from_feedback1 (decode_feedback1 pack ranges)
      else if ack == 2
      then from_feedback2 (decode_feedback2 pack ranges)
      else if ack == 3
      then from_feedback3 (decode_feedback3 pack ranges)
      else empty_feedback
