-- ===== src/Motor/Command.antt =====
-- The control commands of a motor, up to the frame that each hands to the writer:
-- src/device/motor/motor_control.cc. Waiting for the response (`SendAndWait`) and decoding it come
-- after that frame and are not part of this module; the command log (`RecordCommand`) and the locks
-- have no effect on the frame.
use encos_driver.Prelude.{
  ℕ, bit_and, bit_or, shl, shr, u8, u16, Bool, ◌==◌, ◌!=◌, ◌&&◌, ◌||◌, not, if◌then◌else◌, List, [],
  ◌∷◌, get_or,
}
use encos_driver.Frame.{MotorPackMsg, sanitize}
use encos_driver.Motor.Floats.{FloatOps, Range, clamp, float_to_uint}
use encos_driver.Motor.Feedback.{Properties}

-- The payloads, from the integers that are packed into them. Array bytes not written stay 0.
unfoldable pub pvt_payload : ℕ → ℕ → ℕ → ℕ → ℕ → List ℕ
pvt_payload kp_int kd_int pos_int spd_int tor_int =
    u8 (shr kp_int 7)
    ∷ u8 (bit_or (shl (bit_and kp_int 0x7F) 1) (shr (bit_and kd_int 0x100) 8))
    ∷ u8 (bit_and kd_int 0xFF)
    ∷ u8 (shr pos_int 8)
    ∷ u8 (bit_and pos_int 0xFF)
    ∷ u8 (shr spd_int 4)
    ∷ u8 (bit_or (shl (bit_and spd_int 0x0F) 4) (shr tor_int 8))
    ∷ u8 (bit_and tor_int 0xFF)
    ∷ []

unfoldable pub pos_payload : ℕ → ℕ → ℕ → ℕ → List ℕ
pos_payload position_bits spd_int cur_int feedback =
    let position_byte = λ (k : ℕ). u8 (shr position_bits k) in
    u8 (bit_or 0x20 (shr (position_byte 24) 3))
    ∷ u8 (bit_or (shl (position_byte 24) 5) (shr (position_byte 16) 3))
    ∷ u8 (bit_or (shl (position_byte 16) 5) (shr (position_byte 8) 3))
    ∷ u8 (bit_or (shl (position_byte 8) 5) (shr (position_byte 0) 3))
    ∷ u8 (bit_or (shl (position_byte 0) 5) (shr spd_int 10))
    ∷ u8 (shr (bit_and spd_int 0x3FC) 2)
    ∷ u8 (bit_or (shl (bit_and spd_int 0x03) 6) (shr cur_int 6))
    ∷ u8 (bit_or (shl (bit_and cur_int 0x3F) 2) feedback)
    ∷ []

unfoldable pub spd_payload : ℕ → ℕ → ℕ → List ℕ
spd_payload speed_bits cur feedback =
    u8 (bit_or 0x40 feedback)
    ∷ u8 (shr speed_bits 24)
    ∷ u8 (shr speed_bits 16)
    ∷ u8 (shr speed_bits 8)
    ∷ u8 speed_bits
    ∷ u8 (shr cur 8)
    ∷ u8 (bit_and cur 0xFF)
    ∷ 0
    ∷ []

-- Current and torque control and the stop modes share a payload: a control mode and a signed 16-bit
-- value, given by its bit pattern.
unfoldable pub mode_payload : ℕ → ℕ → ℕ → List ℕ
mode_payload ctrl_mode value feedback =
    u8 (bit_or (bit_or (shl 0x03 5) (shl ctrl_mode 2)) feedback)
    ∷ u8 (shr value 8)
    ∷ u8 (bit_and value 0xFF)
    ∷ 0
    ∷ 0
    ∷ 0
    ∷ 0
    ∷ 0
    ∷ []

unfoldable pub brake_payload : Bool → List ℕ
brake_payload enabled =
    u8 (bit_or (bit_or (shl 0x03 5) (shl 0x05 2)) 0x01)
    ∷ 0
    ∷ (if enabled then 0 else 1)
    ∷ 0
    ∷ 0
    ∷ 0
    ∷ 0
    ∷ 0
    ∷ []

-- What a command does: it throws `std::invalid_argument` or `std::runtime_error`, returns its
-- default without a frame, refuses without a frame, or sends a frame.
pub data Sent : Type 0 where
  invalid_argument : Sent
  bus_not_initialized : Sent
  no_bus : Sent
  unsupported : Sent
  frame : MotorPackMsg → Sent

-- `MotorStopMode`.
pub data StopMode : Type 0 where
  full_brake dynamic_brake regenerative_brake : StopMode

abbrev pub stop_mode_code : StopMode → ℕ
stop_mode_code full_brake = 2
stop_mode_code dynamic_brake = 3
stop_mode_code regenerative_brake = 4

module _ (f : FloatOps) where
  open f use {Float, to_bits, of_nat, pi, mul, div, to_u16, to_i16}

  pub record MotorState : Type 0 where
    pub has_bus : Bool
    pub idx : ℕ
    pub frame_flags : ℕ
    pub ranges : Properties f

  -- The message that a command fills, as `SendMessageLocked` of src/device/motor/motor.cc hands it
  -- to the writer.
  unfoldable pub send : MotorState → ℕ → List ℕ → Sent
  send m len payload =
      frame
        (record { id = m.idx; frame_flags = sanitize m.frame_flags; len = len; payload = payload })

  abbrev in_range : Range f → Float → Float
  in_range r x = clamp f x r.low r.high

  abbrev quantized : Range f → Float → ℕ → ℕ
  quantized r x bits = u16 (float_to_uint f x r.low r.high bits)

  unfoldable pub pvt_control : MotorState → Float → Float → Float → Float → Float → Sent
  unfolding send pvt_payload
  pvt_control m kp kd pos spd torque =
      if not m.has_bus
      then no_bus
      else let kp_int = quantized m.ranges.kp (in_range m.ranges.kp kp) 12 in
        let kd_int = quantized m.ranges.kd (in_range m.ranges.kd kd) 9 in
        let pos_int = quantized m.ranges.position (in_range m.ranges.position pos) 16 in
        let spd_int = quantized m.ranges.speed (in_range m.ranges.speed spd) 12 in
        let tor_int = quantized m.ranges.torque (in_range m.ranges.torque torque) 12 in
        send m 8 (pvt_payload kp_int kd_int pos_int spd_int tor_int)

  -- The template parameter `FeedbackType` must be 0 or equal the argument `feedback`.
  abbrev pub mismatched : ℕ → ℕ → Bool
  mismatched feedback_type feedback = feedback_type != 0 && feedback_type != feedback

  -- `max_speed` and `max_current` are the literals 3276.7 and 409.5.
  unfoldable pub pos_control : Float → Float → MotorState → ℕ → Float → Float → Float → ℕ → Sent
  unfolding send pos_payload
  pos_control max_speed max_current m feedback_type position speed current feedback =
      if mismatched feedback_type feedback
      then invalid_argument
      else if not m.has_bus
      then no_bus
      else let rpm = div (mul speed (of_nat 30)) pi in
        let position_bits = to_bits (div (mul position (of_nat 180)) pi) in
        let spd_int = u16 (float_to_uint f rpm (of_nat 0) max_speed 15) in
        let cur_int = u16 (float_to_uint f current (of_nat 0) max_current 12) in
        send m 8 (pos_payload position_bits spd_int cur_int feedback)

  -- `radians_per_second_to_rpm` is 30 / pi.
  unfoldable pub spd_control : MotorState → ℕ → Float → Float → ℕ → Sent
  unfolding send spd_payload
  spd_control m feedback_type speed current feedback =
      if mismatched feedback_type feedback
      then invalid_argument
      else if not m.has_bus
      then no_bus
      else let radians_per_second_to_rpm = div (of_nat 30) pi in
        let speed_bits = to_bits (mul speed radians_per_second_to_rpm) in
        let cur = to_u16 (mul current (of_nat 10)) in send m 7 (spd_payload speed_bits cur feedback)

  unfoldable pub cur_control : MotorState → ℕ → Float → ℕ → Sent
  unfolding send mode_payload
  cur_control m feedback_type current feedback =
      if mismatched feedback_type feedback
      then invalid_argument
      else if not m.has_bus
      then no_bus
      else send m 3 (mode_payload 0 (to_i16 (mul current (of_nat 100))) feedback)

  unfoldable pub tor_control : MotorState → ℕ → Float → ℕ → Sent
  unfolding send mode_payload
  tor_control m feedback_type torque feedback =
      if mismatched feedback_type feedback
      then invalid_argument
      else if not m.has_bus
      then no_bus
      else send m 3 (mode_payload 1 (to_i16 (mul torque (of_nat 100))) feedback)

  -- `Stop` does not compare its template parameter with its argument.
  unfoldable pub stop : MotorState → StopMode → Float → ℕ → Sent
  unfolding send mode_payload
  stop m mode current feedback =
      if not m.has_bus
      then no_bus
      else let ctrl_mode = if m.ranges.fw_version == 0 then stop_mode_code mode else 2 in
        send m 3 (mode_payload ctrl_mode (to_i16 (mul current (of_nat 100))) feedback)

  unfoldable pub brake : MotorState → Bool → Sent
  unfolding send brake_payload
  brake m enabled =
      if not m.has_bus
      then bus_not_initialized
      else if m.ranges.fw_version != 0
      then unsupported
      else send m 3 (brake_payload enabled)

-- The answer to `Brake` that `SendAndWait` waits for.
unfoldable pub is_brake_ack : Bool → MotorPackMsg → Bool
is_brake_ack enabled pack =
    pack.len == 2
    && (get_or pack.payload 0 0 == 0xc0 || get_or pack.payload 0 0 == 0xa0)
    && get_or pack.payload 1 0 == (if enabled then 0 else 1)
