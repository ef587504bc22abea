-- ===== src/Relay/Tests.antt =====
-- The relay theorems at concrete inputs (plugins/adapter/utils/emr1/relay_frame.cc and
-- plugins/adapter/relayWs/relay_bounded_queue.h).
use encos_driver.Prelude.{◌≡◌, refl, arith, some, List, [], ◌∷◌, All}
use encos_driver.Frame.{MotorMessage}
use encos_driver.Relay.{RelayFrame, relay_to_helper, encode_relay_frames, decode_relay_frames}
use encos_driver.Relay.RoundTrip.{Carry, decode_relay_frames-encode}
use encos_driver.Relay.Queue.{RelayQueuedMessage, encode_queued_relay_frames}
use encos_driver.Relay.QueueBatch.{IsGroup, flat}
use encos_driver.Relay.QueueWire.{frames_of, decode_relay_frames-queued}

abbrev command : MotorMessage
command = record {
  bus_idx = 3;
  pack = record {
    id = 0x601;
    frame_flags = 0;
    len = 8;
    payload = 64 ∷ 0 ∷ 16 ∷ 0 ∷ 0 ∷ 0 ∷ 0 ∷ 255 ∷ [];
  };
}

decode_relay_frames-encode_example :
    (frames : List RelayFrame) × (decode_relay_frames
        (encode_relay_frames relay_to_helper (command ∷ []))
      ≡ some frames)
    × Carry relay_to_helper (command ∷ []) frames
decode_relay_frames-encode_example =
    decode_relay_frames-encode relay_to_helper (command ∷ [])
      (record { bus = omega arith; id = omega arith; len = omega arith; bytes = refl }, tt)

-- Two generations of messages for one bus.
abbrev older : RelayQueuedMessage
older = record { message = command; generation = 1 }

abbrev newer : RelayQueuedMessage
newer = record { message = command; generation = 2 }

decode_relay_frames-queued_example :
    (groups : List (List RelayQueuedMessage)) × (flat groups ≡ older ∷ newer ∷ [])
    × All IsGroup groups
    × (decode_relay_frames (encode_queued_relay_frames relay_to_helper (older ∷ newer ∷ []))
        ≡ some (frames_of relay_to_helper groups))
decode_relay_frames-queued_example = decode_relay_frames-queued relay_to_helper older (newer ∷ []) (
  record { bus = omega arith; id = omega arith; len = omega arith; bytes = refl },
  (record { bus = omega arith; id = omega arith; len = omega arith; bytes = refl }, tt),
)
