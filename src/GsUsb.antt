-- ===== src/GsUsb.antt =====
-- The frames on the USB wire of a gs_usb device:
-- plugins/adapter/gsUsb/protocol/gs_usb_protocol.h and .cc. A buffer is the list of its bytes, so
-- its size is the list's length.
pub mod Adapter
pub mod Control
pub mod TimingSound
pub mod Progress
pub mod Timing
pub mod Stream
pub mod Words
pub mod RoundTrip
mod Tests
use encos_driver.Prelude.{
  ℕ, ◌+◌, ◌-◌, min, ltb, ◌==◌, ◌!=◌, bit_and, bit_or, shl, shr, u8, Bool, true, false, not, ◌&&◌,
  ◌||◌, if◌then◌else◌, Option, none, some, List, [], ◌∷◌, ◌++◌, length, get_or, take, drop,
  replicate,
}

abbrev pub classic_frame_size : ℕ
classic_frame_size = 20

abbrev pub fd_frame_size : ℕ
fd_frame_size = 76

-- The `echo_id` of a frame that the device received from the bus.
abbrev pub echo_bus_frame : ℕ
echo_bus_frame = 0xFFFFFFFF

abbrev pub can_eff : ℕ
can_eff = 0x80000000

abbrev pub can_rtr : ℕ
can_rtr = 0x40000000

abbrev pub can_err : ℕ
can_err = 0x20000000

abbrev pub can_ext_id_mask : ℕ
can_ext_id_mask = 0x1FFFFFFF

abbrev pub can_std_id_mask : ℕ
can_std_id_mask = 0x7FF

abbrev pub frame_flag_fd : ℕ
frame_flag_fd = 0x02

abbrev pub frame_flag_brs : ℕ
frame_flag_brs = 0x04

abbrev pub frame_flag_esi : ℕ
frame_flag_esi = 0x08

-- `data` has 64 bytes.
pub record Frame : Type 0 where
  pub echo_id : ℕ
  pub can_id : ℕ
  pub dlc : ℕ
  pub channel : ℕ
  pub flags : ℕ
  pub reserved : ℕ
  pub payload : List ℕ

-- `ReadLe32` at an offset.
unfoldable pub read_le32 : List ℕ → ℕ → ℕ
read_le32 bytes i =
    bit_or
      (bit_or (bit_or (get_or bytes i 0) (shl (get_or bytes (i + 1) 0) 8))
        (shl (get_or bytes (i + 2) 0) 16))
      (shl (get_or bytes (i + 3) 0) 24)

-- The four bytes that `WriteLe32` writes.
unfoldable pub write_le32 : ℕ → List ℕ
write_le32 value =
    u8 (bit_and value 0xFF)
    ∷ u8 (bit_and (shr value 8) 0xFF)
    ∷ u8 (bit_and (shr value 16) 0xFF)
    ∷ u8 (bit_and (shr value 24) 0xFF)
    ∷ []

unfoldable pub frame_size : ℕ → ℕ
frame_size flags = if bit_and flags frame_flag_fd != 0 then fd_frame_size else classic_frame_size

-- The `data_size` that `EncodeFrame` and `DecodeFrame` both compute.
unfoldable pub data_size : ℕ → ℕ → ℕ
data_size flags dlc = if bit_and flags frame_flag_fd != 0 then dlc else min dlc 8

-- `EncodeFrame`: the bytes written, none where it returns 0.
unfoldable pub encode_frame : Frame → ℕ → List ℕ
encode_frame frame capacity =
    let size = frame_size frame.flags in
    let count = data_size frame.flags frame.dlc in
    if ltb capacity size
    then []
    else if ltb 64 count
    then []
    else write_le32 frame.echo_id
      ++ write_le32 frame.can_id
      ++ (frame.dlc
          ∷ frame.channel
          ∷ frame.flags
          ∷ 0
          ∷ (take count frame.payload ++ replicate (size - 12 - count) 0))

-- The flags that `DecodeFrame` knows: `~` of the three flag bits, on a byte.
unfoldable pub known_flags : ℕ → Bool
known_flags flags = bit_and flags 0xF1 == 0

-- The tests of `DecodeFrame` on the identifier and the length code.
unfoldable pub accepts : ℕ → ℕ → ℕ → Bool
accepts flags can_id dlc =
    if bit_and can_id can_eff == 0 && ltb can_std_id_mask (bit_and can_id can_ext_id_mask)
    then false
    else if bit_and flags frame_flag_fd != 0
    then not (ltb 15 dlc || bit_and can_id can_rtr != 0)
    else not (ltb 8 dlc || bit_and flags (bit_or frame_flag_brs frame_flag_esi) != 0)

-- The fields that `DecodeFrame` writes.
unfoldable pub frame_at : List ℕ → Frame
frame_at bytes =
    let flags = get_or bytes 10 0 in
    let dlc = get_or bytes 8 0 in
    let count = data_size flags dlc in
    record {
      echo_id = read_le32 bytes 0;
      can_id = read_le32 bytes 4;
      dlc = dlc;
      channel = get_or bytes 9 0;
      flags = flags;
      reserved = 0;
      payload = take count (drop 12 bytes) ++ replicate (64 - count) 0;
    }

-- `DecodeFrame`: the bytes consumed and the frame; `none` where it returns 0.
unfoldable pub decode_frame : List ℕ → Option (ℕ × Frame)
decode_frame bytes =
    if ltb (length bytes) classic_frame_size
    then none
    else if not (known_flags (get_or bytes 10 0))
    then none
    else if ltb (length bytes) (frame_size (get_or bytes 10 0))
    then none
    else if not (accepts (get_or bytes 10 0) (read_le32 bytes 4) (get_or bytes 8 0))
    then none
    else some (frame_size (get_or bytes 10 0), frame_at bytes)
