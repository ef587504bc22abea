-- ===== src/Gateway/Tests.antt =====
-- The gateway theorems at concrete inputs.
use encos_driver.Prelude.{◌≡◌, refl, arith, some, [], ◌∷◌}
use encos_driver.Frame.{MotorMessage}
use encos_driver.Relay.{helper_to_relay, encode_relay_frames}
use encos_driver.Gateway.{is_valid, all_valid, decode_payload}
use encos_driver.Gateway.Safety.{decode_payload-encode}

abbrev reply : MotorMessage
reply = record {
  bus_idx = 7;
  pack = record {
    id = 0x7FF;
    frame_flags = 6;
    len = 8;
    payload = 32 ∷ 0 ∷ 16 ∷ 0 ∷ 0 ∷ 0 ∷ 0 ∷ 255 ∷ [];
  };
}

decode_payload-encode_example :
    decode_payload (encode_relay_frames helper_to_relay (reply ∷ [])) ≡ some (reply ∷ [])
unfolding all_valid is_valid
decode_payload-encode_example = decode_payload-encode (reply ∷ []) refl (refl, tt) (omega arith)
