-- ===== src/GsUsb/RoundTrip.antt =====
-- `EncodeFrame` and `DecodeFrame` (plugins/adapter/gsUsb/protocol/gs_usb_protocol.cc) against each
-- other.
use mathlib.Core.List.{append_assoc}
use encos_driver.Prelude.{
  ℕ, ◌+◌, ◌-◌, ◌^◌, ◌≤◌, ◌<◌, ◌≡◌, refl, ap, sym, ◌∙◌, true, some, List, ◌∷◌, ◌++◌, length, get_or,
  take, drop, replicate, arith, four_bytes, length-append, length-take, length-replicate,
  take-length_append,
}
use encos_driver.GsUsb.{
  Frame, read_le32, write_le32, frame_size, data_size, encode_frame, known_flags, accepts, frame_at,
  decode_frame,
}

-- A frame that the wire format can carry: 32-bit words, a 64-byte buffer, and flags, identifier and
-- length code that pass the tests of `DecodeFrame`.
pub record IsWireFrame (frame : Frame) : Type 0 where
  pub echo_small : frame.echo_id < 2 ^ 32
  pub id_small : frame.can_id < 2 ^ 32
  pub buffer : length frame.payload ≡ 64
  pub known : known_flags frame.flags ≡ true
  pub accepted : accepts frame.flags frame.can_id frame.dlc ≡ true

-- What of a frame is on the wire: the data bytes up to its length, zeros behind them.
unfoldable pub on_wire : Frame → Frame
on_wire frame =
    let count = data_size frame.flags frame.dlc in
    record frame { reserved = 0; payload = take count frame.payload ++ replicate (64 - count) 0 }

pub read_le32-write_le32 :
    (v : ℕ) (rest : List ℕ) → v < 2 ^ 32 → read_le32 (write_le32 v ++ rest) 0 ≡ v
unfolding read_le32 write_le32
read_le32-write_le32 v rest h = four_bytes v h

data_size-le :
    (flags id dlc : ℕ) → accepts flags id dlc ≡ true → data_size flags dlc + 12 ≤ frame_size flags
unfolding data_size frame_size accepts
data_size-le flags id dlc h = ground arith

header : Frame → List ℕ → List ℕ
header frame body =
    write_le32 frame.echo_id
    ++ write_le32 frame.can_id
    ++ (frame.dlc ∷ frame.channel ∷ frame.flags ∷ 0 ∷ body)

pub frame_size-le : (flags : ℕ) → (frame_size flags ≤ 76) × (20 ≤ frame_size flags)
unfolding frame_size
frame_size-le flags = ground arith

encode_frame-eq :
    (frame : Frame)
    → IsWireFrame frame
    → encode_frame frame 76
      ≡ header frame (
          take (data_size frame.flags frame.dlc) frame.payload
          ++ replicate (frame_size frame.flags - 12 - data_size frame.flags frame.dlc) 0)
unfolding encode_frame header
encode_frame-eq frame v =
    ground
      (arith, frame_size-le frame.flags, data_size-le frame.flags frame.can_id frame.dlc v.accepted)

module _ (frame : Frame) (body : List ℕ) where
  header-echo : frame.echo_id < 2 ^ 32 → read_le32 (header frame body) 0 ≡ frame.echo_id
  unfolding header read_le32 write_le32
  header-echo h = four_bytes frame.echo_id h

  header-id : frame.can_id < 2 ^ 32 → read_le32 (header frame body) 4 ≡ frame.can_id
  unfolding header read_le32 write_le32
  header-id h = four_bytes frame.can_id h

  header-dlc : get_or (header frame body) 8 0 ≡ frame.dlc
  unfolding header write_le32
  header-dlc = refl

  header-channel : get_or (header frame body) 9 0 ≡ frame.channel
  unfolding header write_le32
  header-channel = refl

  header-flags : get_or (header frame body) 10 0 ≡ frame.flags
  unfolding header write_le32
  header-flags = refl

  header-body : drop 12 (header frame body) ≡ body
  unfolding header write_le32
  header-body = refl

  header-length : length (header frame body) ≡ 12 + length body
  unfolding header write_le32
  header-length = omega arith

  header-append : (rest : List ℕ) → header frame body ++ rest ≡ header frame (body ++ rest)
  unfolding header write_le32
  header-append rest = refl

-- Decoding reads the frame back from its header and any bytes behind it.
decode_frame-header :
    (frame : Frame) (body : List ℕ)
    → IsWireFrame frame
    → frame_size frame.flags ≤ 12 + length body
    → decode_frame (header frame body) ≡ some (frame_size frame.flags, frame_at (header frame body))
unfolding decode_frame
decode_frame-header frame body v h =
    rw
      (
        header-flags frame body,
        header-dlc frame body,
        header-id frame body v.id_small,
        header-length frame body,
        v.known,
        v.accepted,
      )
      (ground (arith, frame_size-le frame.flags))

frame_at-header :
    (frame : Frame) (body : List ℕ)
    → IsWireFrame frame
    → frame_at (header frame body) ≡ record frame {
      reserved = 0;
      payload =
          take (data_size frame.flags frame.dlc) body
          ++ replicate (64 - data_size frame.flags frame.dlc) 0;
    }
unfolding frame_at
frame_at-header frame body v =
    rw
      (
        header-flags frame body,
        header-dlc frame body,
        header-id frame body v.id_small,
        header-echo frame body v.echo_small,
        header-channel frame body,
        header-body frame body,
      )
      refl

pub take-data :
    (count : ℕ) (payload rest : List ℕ)
    → count ≤ length payload
    → take count (take count payload ++ rest) ≡ take count payload
take-data count payload rest h =
    let same : length (take count payload) ≡ count = omega (arith, length-take count payload) in
    ap (λ (n : ℕ). take n (take count payload ++ rest)) (sym same)
    ∙ take-length_append (take count payload) rest

pub encode_frame-length :
    (frame : Frame) → IsWireFrame frame → length (encode_frame frame 76) ≡ frame_size frame.flags
encode_frame-length frame v =
    let count = data_size frame.flags frame.dlc in
    let size = frame_size frame.flags in
    let body = take count frame.payload ++ replicate (size - 12 - count) 0 in
    ap length (encode_frame-eq frame v)
    ∙ omega (
      arith,
      header-length frame body,
      length-append (take count frame.payload) (replicate (size - 12 - count) 0),
      length-take count frame.payload,
      length-replicate {A = ℕ} (size - 12 - count) 0,
      v.buffer,
      data_size-le frame.flags frame.can_id frame.dlc v.accepted,
      frame_size-le frame.flags,
    )

-- A frame that the wire format can carry, encoded at the head of a buffer, is decoded whatever
-- bytes follow: as many bytes are consumed as its kind of frame has, and every field comes back,
-- the data up to the frame's length, with zeros behind it.
pub decode_frame-encode_frame :
    (frame : Frame) (rest : List ℕ)
    → IsWireFrame frame
    → decode_frame (encode_frame frame 76 ++ rest) ≡ some (frame_size frame.flags, on_wire frame)
unfolding on_wire
decode_frame-encode_frame frame rest v =
    let count = data_size frame.flags frame.dlc in
    let size = frame_size frame.flags in
    let zeros : List ℕ = replicate (size - 12 - count) 0 in
    let body = (take count frame.payload ++ zeros) ++ rest in
    let fits = data_size-le frame.flags frame.can_id frame.dlc v.accepted in
    let bounds = frame_size-le frame.flags in
    let long : size ≤ 12 + length body = omega (
      arith,
      v.buffer,
      length-append (take count frame.payload ++ zeros) rest,
      length-append (take count frame.payload) zeros,
      length-take count frame.payload,
      length-replicate {A = ℕ} (size - 12 - count) 0,
    ) in
    let decoded = decode_frame-header frame body v long in
    let read = frame_at-header frame body v in
    let kept : take count body ≡ take count frame.payload =
      ap (take count) (append_assoc (take count frame.payload) zeros rest)
      ∙ take-data count frame.payload (zeros ++ rest) (omega (arith, v.buffer)) in
    rw
      (
        encode_frame-eq frame v,
        header-append frame (take count frame.payload ++ zeros) rest,
        decoded,
        read,
        kept,
      )
      refl
