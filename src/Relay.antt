-- ===== src/Relay.antt =====
-- The EMR1 frames that carry messages over a relay: plugins/adapter/utils/emr1/relay_frame.h and
-- .cc. The offset of the decoder is the list of the bytes that are left.
pub mod RoundTrip
pub mod Queue
pub mod QueueBatch
pub mod QueueOrder
pub mod QueueTrim
pub mod QueueWire
mod Tests
use encos_driver.Prelude.{
  ℕ, zero, suc, ◌+◌, ◌*◌, min, ltb, ◌==◌, bit_and, bit_or, shl, shr, u8, Bool, true, false, not,
  ◌&&◌, ◌||◌, if◌then◌else◌, Option, none, some, List, [], ◌∷◌, ◌++◌, length, get_or, take, drop,
}
use encos_driver.Frame.{MotorPackMsg, MotorMessage}

pub data RelayFrameType : Type 0 where
  relay_to_helper : RelayFrameType
  helper_to_relay : RelayFrameType

pub record RelayFrame : Type 0 where
  pub kind : RelayFrameType
  pub records : List MotorMessage

-- The value of the enumerator, and the enumerator of a byte that passes the decoder's test.
abbrev pub type_byte : RelayFrameType → ℕ
type_byte relay_to_helper = 1
type_byte helper_to_relay = 2

unfoldable pub type_of_byte : ℕ → Option RelayFrameType
type_of_byte byte =
    if byte == type_byte relay_to_helper
    then some relay_to_helper
    else if byte == type_byte helper_to_relay
    then some helper_to_relay
    else none

abbrev pub record_size : ℕ
record_size = 18

abbrev pub header_size : ℕ
header_size = 8

abbrev pub max_records_per_frame : ℕ
max_records_per_frame = 255

-- `WriteU32Le`.
unfoldable pub write_u32_le : ℕ → List ℕ
write_u32_le value =
    u8 (bit_and value 0xFF)
    ∷ u8 (bit_and (shr value 8) 0xFF)
    ∷ u8 (bit_and (shr value 16) 0xFF)
    ∷ u8 (bit_and (shr value 24) 0xFF)
    ∷ []

-- `ReadU32Le` at an offset.
unfoldable pub read_u32_le : List ℕ → ℕ → ℕ
read_u32_le bytes i =
    bit_or
      (bit_or (bit_or (get_or bytes i 0) (shl (get_or bytes (i + 1) 0) 8))
        (shl (get_or bytes (i + 2) 0) 16))
      (shl (get_or bytes (i + 3) 0) 24)

-- The header of a frame: the magic bytes "EMR1", the type, the count, and a reserved 16-bit zero.
unfoldable pub write_header : RelayFrameType → ℕ → List ℕ
write_header kind count = 69 ∷ 77 ∷ 82 ∷ 49 ∷ type_byte kind ∷ u8 count ∷ 0 ∷ 0 ∷ []

-- One record: bus index, identifier, flags, length, and the eight data bytes.
unfoldable pub write_record : MotorMessage → List ℕ
write_record message =
    write_u32_le message.bus_idx
    ++ write_u32_le message.pack.id
    ++ (message.pack.frame_flags ∷ message.pack.len ∷ take 8 message.pack.payload)

unfoldable pub write_records : List MotorMessage → List ℕ
write_records [] = []
write_records (m ∷ ms) = write_record m ++ write_records ms

-- The loop of `EncodeRelayFrames` over the records that are left, on fuel.
unfoldable pub encode_loop : ℕ → RelayFrameType → List MotorMessage → List ℕ
encode_loop zero kind records = []
encode_loop (suc fuel) kind [] = []
encode_loop (suc fuel) kind (m ∷ ms) =
    let records = m ∷ ms in
    let count = min max_records_per_frame (length records) in
    (write_header kind count ++ write_records (take count records))
    ++ encode_loop fuel kind (drop max_records_per_frame records)

-- `EncodeRelayFrames`. Each round takes at least one record.
unfoldable pub encode_relay_frames : RelayFrameType → List MotorMessage → List ℕ
encode_relay_frames kind [] = write_header kind 0
encode_relay_frames kind (m ∷ ms) = encode_loop (length (m ∷ ms)) kind (m ∷ ms)

unfoldable pub read_record : List ℕ → MotorMessage
read_record bytes = record {
  bus_idx = read_u32_le bytes 0;
  pack = record {
    id = read_u32_le bytes 4;
    frame_flags = get_or bytes 8 0;
    len = get_or bytes 9 0;
    payload = take 8 (drop 10 bytes);
  };
}

-- The loop over the records of one frame; `none` is a record with a length over 8.
unfoldable pub read_records : ℕ → List ℕ → Option (List MotorMessage)
read_records zero bytes = some []
read_records (suc count) bytes =
    let rest = read_records count (drop record_size bytes) in
    if ltb 8 (read_record bytes).pack.len
    then none
    else elim rest [ some records ↦ some (read_record bytes ∷ records) | none ↦ none ]

unfoldable pub has_magic : List ℕ → Bool
has_magic bytes =
    get_or bytes 0 0 == 69
    && get_or bytes 1 0 == 77
    && get_or bytes 2 0 == 82
    && get_or bytes 3 0 == 49

-- One frame at the head of the bytes that are left.
unfoldable pub read_frame : List ℕ → Option RelayFrame
read_frame bytes =
    if ltb (length bytes) header_size
    then none
    else if not (has_magic bytes)
    then none
    else elim (type_of_byte (get_or bytes 4 0)) [
      | none ↦ none
      | some kind ↦
          if ltb (length bytes) (header_size + get_or bytes 5 0 * record_size)
          then none
          else elim (read_records (get_or bytes 5 0) (drop header_size bytes)) [
            | none ↦ none
            | some records ↦ some (record { kind = kind; records = records })
          ]
    ]

-- The loop of `DecodeRelayFrames`, on fuel.
unfoldable pub decode_loop : ℕ → List ℕ → Option (List RelayFrame)
decode_loop zero bytes = some []
decode_loop (suc fuel) [] = some []
decode_loop (suc fuel) (b ∷ bs) =
    let bytes = b ∷ bs in
    let rest = decode_loop fuel (drop (header_size + get_or bytes 5 0 * record_size) bytes) in
    elim (read_frame bytes) [
      | none ↦ none
      | some frame ↦ elim rest [ some frames ↦ some (frame ∷ frames) | none ↦ none ]
    ]

-- `DecodeRelayFrames`. Each round consumes a header at least.
unfoldable pub decode_relay_frames : List ℕ → Option (List RelayFrame)
decode_relay_frames bytes = decode_loop (length bytes) bytes
