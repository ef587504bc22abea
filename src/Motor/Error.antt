-- ===== src/Motor/Error.antt =====
-- `MotorError` (include/device/motor/types.h) and `DecodeMotorError` (src/device/motor/pack_helper.h).
-- The C++ enum holds any byte, so an error is its code.
use encos_driver.Prelude.{ℕ, ◌≡◌, ◌≢◌, ◌↔◌, ◌⊎◌, ◌<◌, arith, ◌==◌, if◌then◌else◌}

abbrev pub driver_error : ℕ
driver_error = 7

abbrev pub output_encoder_error : ℕ
output_encoder_error = 9

abbrev pub fet_over_temperature : ℕ
fet_over_temperature = 10

abbrev pub over_speed : ℕ
over_speed = 11

abbrev pub temperature_warning : ℕ
temperature_warning = 12

abbrev pub no_response : ℕ
no_response = 255

unfoldable pub decode_motor_error : ℕ → ℕ → ℕ
decode_motor_error raw fw_version =
    if fw_version == 0
    then raw
    else if raw == 6
    then output_encoder_error
    else if raw == 7
    then fet_over_temperature
    else if raw == 8
    then over_speed
    else if raw == 9
    then driver_error
    else if raw == 31
    then temperature_warning
    else raw

-- A five-bit code never decodes to `NoResponse`.
pub decode_motor_error-ne : (raw fw : ℕ) → raw < 32 → decode_motor_error raw fw ≢ no_response
unfolding decode_motor_error
decode_motor_error-ne raw fw h = ground arith

-- On new firmware (version not 0) two raw codes decode to the same error exactly if they are equal
-- or are a listed code and the unlisted one that has its error's number: 7 and 10, 8 and 11, or 31
-- and 12.
pub decode_motor_error_aliases :
    (a b fw : ℕ)
    → fw ≢ 0
    → (decode_motor_error a fw ≡ decode_motor_error b fw) ↔ (
        (a ≡ b)
        ⊎ ((a ≡ 7) × (b ≡ 10))
        ⊎ ((a ≡ 10) × (b ≡ 7))
        ⊎ ((a ≡ 8) × (b ≡ 11))
        ⊎ ((a ≡ 11) × (b ≡ 8))
        ⊎ ((a ≡ 31) × (b ≡ 12))
        ⊎ ((a ≡ 12) × (b ≡ 31)))
unfolding decode_motor_error
decode_motor_error_aliases a b fw h = ground arith
