-- ===== src/Motor/CommandSafety.antt =====
-- What the commands of src/device/motor/motor_control.cc send, and when.
use encos_driver.Prelude.{ℕ, ◌%◌, ◌≡◌, ◌≢◌, arith, Bool, true}
use encos_driver.Frame.{sanitize-eq}
use encos_driver.Motor.Floats.{FloatOps}
use encos_driver.Motor.Command.{
  MotorState, Sent, frame, invalid_argument, unsupported, StopMode, pvt_control, pos_control,
  spd_control, cur_control, tor_control, stop, brake, send, mode_payload, brake_payload,
  stop_mode_code,
}

-- A frame carries the motor's id and its frame flags with the undefined bits cleared, and its length
-- is one of those given.
abbrev pub Carries : (f : FloatOps) → MotorState f → ℕ → Sent → Type 0
Carries f m len (frame p) =
    (m.has_bus ≡ true) × (p.id ≡ m.idx) × (p.frame_flags ≡ m.frame_flags % 16) × (p.len ≡ len)
Carries f m len r = Unit

-- For every motor and all arguments: what PVT, position, speed, current and torque control, `Stop`
-- and `Brake` send carries the motor's id, its frame flags with the undefined bits cleared and the
-- length 8, 8, 7, 3, 3, 3 and 3, and it is sent only if the motor has a bus.
pub commands-Carry :
    (f : FloatOps) (m : MotorState f) (a b c d e : f.Float) (mode : StopMode) (on : Bool)
    (feedback_type feedback : ℕ)
    → Carries f m 8 (pvt_control f m a b c d e)
      × Carries f m 8 (pos_control f a b m feedback_type c d e feedback)
      × Carries f m 7 (spd_control f m feedback_type a b feedback)
      × Carries f m 3 (cur_control f m feedback_type a feedback)
      × Carries f m 3 (tor_control f m feedback_type a feedback)
      × Carries f m 3 (stop f m mode a feedback)
      × Carries f m 3 (brake f m on)
unfolding pvt_control pos_control spd_control cur_control tor_control stop brake
commands-Carry f m a b c d e mode on feedback_type feedback =
    ground (arith, sanitize-eq m.frame_flags)

-- The commands with a feedback type throw exactly when the template parameter is neither 0 nor the
-- argument, also on a motor without a bus.
pub mismatch_throws :
    (f : FloatOps) (m : MotorState f) (a b c d e : f.Float) (feedback_type feedback : ℕ)
    → feedback_type ≢ 0
    → feedback_type ≢ feedback
    → (pos_control f a b m feedback_type c d e feedback ≡ invalid_argument)
      × (spd_control f m feedback_type a b feedback ≡ invalid_argument)
      × (cur_control f m feedback_type a feedback ≡ invalid_argument)
      × (tor_control f m feedback_type a feedback ≡ invalid_argument)
unfolding pos_control spd_control cur_control tor_control
mismatch_throws f m a b c d e feedback_type feedback h k = ground arith

-- On new firmware (version not 0) with a bus, `Stop` sends the same frame for the three stop modes,
-- the one with control mode 2, and `Brake` sends nothing and reports that it is not supported.
pub new_firmware_stops :
    (f : FloatOps) (m : MotorState f) (mode : StopMode) (current : f.Float) (on : Bool)
    (feedback : ℕ)
    → m.has_bus ≡ true
    → m.ranges.fw_version ≢ 0
    → (stop f m mode current feedback
        ≡ send f m 3 (mode_payload 2 (f.to_i16 (f.mul current (f.of_nat 100))) feedback))
      × (brake f m on ≡ unsupported)
unfolding stop brake
new_firmware_stops f m mode current on feedback bus new = ground arith

-- On old firmware (version 0) with a bus, `Stop` sends the control mode that is the number of the
-- stop mode, and `Brake` sends the frame of the mechanical brake.
pub old_firmware_stops :
    (f : FloatOps) (m : MotorState f) (mode : StopMode) (current : f.Float) (on : Bool)
    (feedback : ℕ)
    → m.has_bus ≡ true
    → m.ranges.fw_version ≡ 0
    → (stop f m mode current feedback
        ≡ send f m 3
            (mode_payload (stop_mode_code mode) (f.to_i16 (f.mul current (f.of_nat 100))) feedback))
      × (brake f m on ≡ send f m 3 (brake_payload on))
unfolding stop brake
old_firmware_stops f m mode current on feedback bus old = ground arith
