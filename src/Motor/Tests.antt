-- ===== src/Motor/Tests.antt =====
-- The motor theorems at concrete inputs, with whole numbers for floats.
use encos_driver.Prelude.{
  ℕ, ◌+◌, ◌-◌, ◌*◌, ◌/◌, ◌%◌, ◌^◌, ◌≡◌, ◌≢◌, ◌↔◌, ◌⊎◌, ◌<◌, arith, true, ◌==◌, if◌then◌else◌, ltb,
  none, some, [], ◌∷◌, big_endian, field, u8, shr,
}
use encos_driver.Frame.{MotorPackMsg}
use encos_driver.Motor.Floats.{FloatOps, Range, uint_to_float}
use encos_driver.Motor.Error.{decode_motor_error, no_response}
use encos_driver.Motor.Feedback.{
  Properties, decode_temperature, decode_feedback1, auto_decode_feedback,
}
use encos_driver.Motor.FeedbackLayout.{decode_feedback1-layout, auto_decode_feedback-no_response}
use encos_driver.Motor.Command.{
  dynamic_brake, MotorState, pvt_control, pos_control, spd_control, cur_control, tor_control, stop,
  brake,
}
use encos_driver.Motor.CommandSafety.{Carries, commands-Carry}

abbrev pub whole : FloatOps
whole = record {
  Float = ℕ;
  of_bits = λ x. x;
  to_bits = λ x. x;
  of_nat = λ x. x;
  pi = 3;
  nan = 999999;
  add = λ x y. x + y;
  sub = λ x y. x - y;
  mul = λ x y. x * y;
  div = λ x y. x / y;
  abs = λ x. x;
  is_finite = λ x. ltb x 999999;
  less = ltb;
  to_int = λ x. x;
  to_u16 = λ x. x % 2 ^ 16;
  to_i16 = λ x. x % 2 ^ 16;
}

abbrev pub span : ℕ → Range whole
span n = record { low = 0; high = n }

-- The properties of a motor of a firmware version.
abbrev pub motor_properties : ℕ → Properties whole
motor_properties version = record {
  kp = span 500;
  kd = span 5;
  position = span 12;
  speed = span 18;
  torque = span 30;
  current = span 60;
  kt = 1;
  brake = true;
  fw_version = version;
}

abbrev motor : ℕ → MotorState whole
motor version = record {
  has_bus = true;
  idx = 4;
  frame_flags = 6;
  ranges = motor_properties version;
}

abbrev unlisted : ℕ
unlisted = 10

abbrev listed : ℕ
listed = 7

commands-Carry_example :
    Carries whole (motor 2) 8 (pvt_control whole (motor 2) 1 2 3 4 5)
    × Carries whole (motor 2) 8 (pos_control whole 1 2 (motor 2) 1 3 4 5 1)
    × Carries whole (motor 2) 7 (spd_control whole (motor 2) 1 1 2 1)
    × Carries whole (motor 2) 3 (cur_control whole (motor 2) 1 1 1)
    × Carries whole (motor 2) 3 (tor_control whole (motor 2) 1 1 1)
    × Carries whole (motor 2) 3 (stop whole (motor 2) dynamic_brake 1 1)
    × Carries whole (motor 2) 3 (brake whole (motor 2) true)
commands-Carry_example = commands-Carry whole (motor 2) 1 2 3 4 5 dynamic_brake true 1 1

abbrev word1 : ℕ
word1 = big_endian (39 ∷ 18 ∷ 52 ∷ 86 ∷ 120 ∷ 154 ∷ 188 ∷ 222 ∷ [])

abbrev pub pack1 : MotorPackMsg
pack1 = record {
  id = 4;
  frame_flags = 0;
  len = 8;
  payload = 39 ∷ 18 ∷ 52 ∷ 86 ∷ 120 ∷ 154 ∷ 188 ∷ 222 ∷ [];
}

decode_feedback1-layout_example : decode_feedback1 whole pack1 (motor_properties 2) ≡ (
    if field word1 61 3 == 1
    then some (record {
      error = decode_motor_error (field word1 56 5) 2;
      position = uint_to_float whole (field word1 40 16) 0 12 16;
      speed = uint_to_float whole (field word1 28 12) 0 18 12;
      current = uint_to_float whole (field word1 16 12) 0 60 12;
      motor_temperature = decode_temperature whole (field word1 8 8) 2;
      mos_temperature = decode_temperature whole (field word1 0 8) 2;
    })
    else none)
decode_feedback1-layout_example =
    decode_feedback1-layout 39 18 52 86 120 154 188 222 whole (motor_properties 2) 4 0 8
      (
        omega arith,
        omega arith,
        omega arith,
        omega arith,
        omega arith,
        omega arith,
        omega arith,
        omega arith,
      )
      (omega arith)

abbrev word2 : ℕ
word2 = big_endian (65 ∷ 18 ∷ 52 ∷ 86 ∷ 120 ∷ 154 ∷ 188 ∷ 222 ∷ [])

abbrev pack2 : MotorPackMsg
pack2 = record {
  id = 4;
  frame_flags = 0;
  len = 8;
  payload = 65 ∷ 18 ∷ 52 ∷ 86 ∷ 120 ∷ 154 ∷ 188 ∷ 222 ∷ [];
}

abbrev word3 : ℕ
word3 = big_endian (97 ∷ 18 ∷ 52 ∷ 86 ∷ 120 ∷ 154 ∷ 188 ∷ 222 ∷ [])

abbrev pack3 : MotorPackMsg
pack3 = record {
  id = 4;
  frame_flags = 0;
  len = 8;
  payload = 97 ∷ 18 ∷ 52 ∷ 86 ∷ 120 ∷ 154 ∷ 188 ∷ 222 ∷ [];
}

auto_decode_feedback-no_response_example :
    ((auto_decode_feedback whole pack1 (motor_properties 2)).error ≡ no_response)
    ↔ ((8 < 8) ⊎ ((u8 (shr 39 5) ≢ 1) × (u8 (shr 39 5) ≢ 2) × (u8 (shr 39 5) ≢ 3)))
auto_decode_feedback-no_response_example =
    auto_decode_feedback-no_response whole pack1 (motor_properties 2)
