-- ===== src/Gateway.antt =====
-- The payloads between the Ethernet adapter and its gateway board:
-- plugins/adapter/ethernet/protocol/gateway_payload.cc, which checks messages around the EMR1 frames.
pub mod Safety
mod Tests
use encos_driver.Prelude.{
  ℕ, ◌+◌, ltb, leb, ◌==◌, ◌!=◌, bit_and, Bool, true, false, not, ◌&&◌, ◌||◌, if◌then◌else◌, Option,
  none, some, List, [], ◌∷◌, ◌++◌, length,
}
use encos_driver.Frame.{MotorMessage}
use encos_driver.Relay.{
  RelayFrameType, relay_to_helper, helper_to_relay, RelayFrame, encode_relay_frames,
  decode_relay_frames,
}

abbrev pub max_payload_messages : ℕ
max_payload_messages = 80

-- `Valid`. A negative bus index is a 32-bit pattern of 2^31 or more.
unfoldable pub is_valid : MotorMessage → Bool
is_valid message =
    let m = message.pack in
    ltb message.bus_idx 8
    && leb m.len 8
    && bit_and m.frame_flags 0xF0 == 0
    && leb m.id (if bit_and m.frame_flags 1 != 0 then 0x1FFFFFFF else 0x7FF)
    && (bit_and m.frame_flags 4 == 0 || bit_and m.frame_flags 2 != 0)
    && not (bit_and m.frame_flags 8 != 0 && bit_and m.frame_flags 2 != 0)

-- `std::all_of` with `Valid`.
unfoldable pub all_valid : List MotorMessage → Bool
all_valid [] = true
all_valid (m ∷ ms) = is_valid m && all_valid ms

-- `EncodePayload`; `none` is the exception.
unfoldable pub encode_payload : List MotorMessage → Option (List ℕ)
encode_payload messages =
    if ltb max_payload_messages (length messages) || not (all_valid messages)
    then none
    else some (encode_relay_frames relay_to_helper messages)

abbrev pub is_from_helper : RelayFrameType → Bool
is_from_helper relay_to_helper = false
is_from_helper helper_to_relay = true

-- The loop of `DecodePayload` over the frames, with the messages so far.
unfoldable pub collect : List MotorMessage → List RelayFrame → Option (List MotorMessage)
collect messages [] = some messages
collect messages (frame ∷ frames) =
    let rest = collect (messages ++ frame.records) frames in
    if not (is_from_helper frame.kind)
      || ltb max_payload_messages (length messages + length frame.records)
      || not (all_valid frame.records)
    then none
    else rest

-- `DecodePayload`.
unfoldable pub decode_payload : List ℕ → Option (List MotorMessage)
decode_payload bytes =
    if ltb (length bytes) 8 || ltb 1448 (length bytes)
    then none
    else elim (decode_relay_frames bytes) [ none ↦ none | some frames ↦ collect [] frames ]
