-- ===== src/Relay/RoundTrip.antt =====
-- `DecodeRelayFrames` reads what `EncodeRelayFrames` writes:
-- plugins/adapter/utils/emr1/relay_frame.cc.
use encos_driver.Prelude.{
  ℕ, zero, suc, ◌+◌, ◌-◌, ◌*◌, ◌%◌, ◌^◌, ◌≤◌, ◌<◌, ◌≡◌, refl, ap, sym, ◌∙◌, min, ltb, false, some,
  List, [], ◌∷◌, ◌++◌, length, get_or, take, drop, All, arith, length-append, length-take,
  length-drop, drop-all, take-length_append, drop-length_append, append_assoc, append-nil,
  four_bytes,
}
use encos_driver.Frame.{MotorMessage}
use encos_driver.Relay.{
  RelayFrameType, relay_to_helper, helper_to_relay, RelayFrame, type_byte, type_of_byte,
  write_u32_le, read_u32_le, write_header, write_record, write_records, encode_loop,
  encode_relay_frames, read_record, read_records, has_magic, read_frame, decode_loop,
  decode_relay_frames,
}

-- A message that a record can hold.
pub record IsRecord (message : MotorMessage) : Type 0 where
  pub bus : message.bus_idx < 2 ^ 32
  pub id : message.pack.id < 2 ^ 32
  pub len : message.pack.len ≤ 8
  pub bytes : length message.pack.payload ≡ 8

take-exact : (n : ℕ) (xs ys : List ℕ) → length xs ≡ n → take n (xs ++ ys) ≡ xs
take-exact n xs ys h = ap (λ (k : ℕ). take k (xs ++ ys)) (sym h) ∙ take-length_append xs ys

drop-exact : (n : ℕ) (xs ys : List ℕ) → length xs ≡ n → drop n (xs ++ ys) ≡ ys
drop-exact n xs ys h = ap (λ (k : ℕ). drop k (xs ++ ys)) (sym h) ∙ drop-length_append xs ys

write_record-length : (m : MotorMessage) → IsRecord m → length (write_record m) ≡ 18
unfolding write_record write_u32_le
write_record-length m v = omega (arith, v.bytes, length-take 8 m.pack.payload)

read_record-write_record :
    (m : MotorMessage) (rest : List ℕ) → IsRecord m → read_record (write_record m ++ rest) ≡ m
unfolding write_record write_u32_le read_record read_u32_le
read_record-write_record m rest v =
    let whole : take 8 m.pack.payload ≡ m.pack.payload =
      ap (take 8) (sym (append-nil m.pack.payload)) ∙ take-exact 8 m.pack.payload [] v.bytes in
    let cut : take 8 (m.pack.payload ++ rest) ≡ m.pack.payload =
      take-exact 8 m.pack.payload rest v.bytes in
    rw (four_bytes m.bus_idx v.bus, four_bytes m.pack.id v.id, whole, cut) refl

write_records-length :
    (ms : List MotorMessage) → All IsRecord ms → length (write_records ms) ≡ length ms * 18
unfolding write_records
write_records-length [] vs = refl
write_records-length (m ∷ ms) (v, vs) = omega (
  arith,
  length-append (write_record m) (write_records ms),
  write_record-length m v,
  write_records-length ms vs,
)

read_records-cons :
    (count : ℕ) (bytes rest : List ℕ) (m : MotorMessage) (ms : List MotorMessage)
    → read_record bytes ≡ m
    → m.pack.len ≤ 8
    → drop 18 bytes ≡ rest
    → read_records count rest ≡ some ms
    → read_records (suc count) bytes ≡ some (m ∷ ms)
unfolding read_records
read_records-cons count bytes rest m ms one len behind others =
    let short : ltb 8 m.pack.len ≡ false = ground arith in rw (one, behind, others, short, one) refl

read_records-write_records :
    (ms : List MotorMessage) (rest : List ℕ)
    → All IsRecord ms
    → read_records (length ms) (write_records ms ++ rest) ≡ some ms
unfolding read_records write_records
read_records-write_records [] rest vs = refl
read_records-write_records (m ∷ ms) rest (v, vs) =
    let others = write_records ms ++ rest in
    ap (read_records (suc (length ms))) (append_assoc (write_record m) (write_records ms) rest)
    ∙ read_records-cons (length ms) (write_record m ++ others) others m ms
        (read_record-write_record m others v) v.len
        (drop-exact 18 (write_record m) others (write_record-length m v))
        (read_records-write_records ms rest vs)

-- The bytes of one frame.
abbrev pub frame_bytes : RelayFrameType → List MotorMessage → List ℕ
frame_bytes kind ms = write_header kind (length ms) ++ write_records ms

type_of_byte-type_byte : (kind : RelayFrameType) → type_of_byte (type_byte kind) ≡ some kind
unfolding type_of_byte
type_of_byte-type_byte relay_to_helper = refl
type_of_byte-type_byte helper_to_relay = refl

read_frame-frame_bytes :
    (kind : RelayFrameType) (ms : List MotorMessage) (rest : List ℕ)
    → length ms ≤ 255
    → All IsRecord ms
    → read_frame (frame_bytes kind ms ++ rest) ≡ some (record { kind = kind; records = ms })
unfolding read_frame write_header has_magic
read_frame-frame_bytes kind ms rest h vs =
    let count : length ms % 256 ≡ length ms = omega arith in
    let records = read_records-write_records ms rest vs in
    let size = length-append (write_records ms) rest in
    let size' = write_records-length ms vs in
    rw (type_of_byte-type_byte kind, count, records) (ground arith)

frame_bytes-length :
    (kind : RelayFrameType) (ms : List MotorMessage)
    → All IsRecord ms
    → length (frame_bytes kind ms) ≡ 8 + length ms * 18
unfolding write_header
frame_bytes-length kind ms vs = omega (arith, write_records-length ms vs)

decode_loop-some :
    (fuel b : ℕ) (bs rest : List ℕ) (frame : RelayFrame) (frames : List RelayFrame)
    → read_frame (b ∷ bs) ≡ some frame
    → drop (8 + get_or (b ∷ bs) 5 0 * 18) (b ∷ bs) ≡ rest
    → decode_loop fuel rest ≡ some frames
    → decode_loop (suc fuel) (b ∷ bs) ≡ some (frame ∷ frames)
unfolding decode_loop
decode_loop-some fuel b bs rest frame frames read behind others =
    rw (decode_loop, read, behind, others) refl

-- One round of the decoder over a frame with records behind its header.
pub decode_loop-frame :
    (fuel : ℕ) (kind : RelayFrameType) (ms : List MotorMessage) (rest : List ℕ)
    (frames : List RelayFrame)
    → length ms ≤ 255
    → All IsRecord ms
    → decode_loop fuel rest ≡ some frames
    → decode_loop (suc fuel) (frame_bytes kind ms ++ rest)
      ≡ some (record { kind = kind; records = ms } ∷ frames)
unfolding write_header
decode_loop-frame fuel kind ms rest frames h vs eq =
    let count : length ms % 256 ≡ length ms = omega arith in
    decode_loop-some fuel _ _ rest (record { kind = kind; records = ms }) frames
      (read_frame-frame_bytes kind ms rest h vs)
      (ap (λ (n : ℕ). drop (8 + n * 18) (frame_bytes kind ms ++ rest)) count
        ∙ drop-exact (8 + length ms * 18) (frame_bytes kind ms) rest
            (frame_bytes-length kind ms vs))
      eq

abbrev pub records_of : List RelayFrame → List MotorMessage
records_of [] = []
records_of (f ∷ fs) = f.records ++ records_of fs

-- Frames of one kind, with at most 255 records each, that hold the given records in order.
pub record Carry (kind : RelayFrameType) (ms : List MotorMessage) (frames : List RelayFrame)
    : Type 0 where
  pub all : records_of frames ≡ ms
  pub kinds : All (λ f. (f.kind ≡ kind) × (length f.records ≤ 255)) frames

All-take : (n : ℕ) (ms : List MotorMessage) → All IsRecord ms → All IsRecord (take n ms)
All-take zero ms vs = tt
All-take (suc n) [] vs = tt
All-take (suc n) (m ∷ ms) (v, vs) = (v, All-take n ms vs)

All-drop : (n : ℕ) (ms : List MotorMessage) → All IsRecord ms → All IsRecord (drop n ms)
All-drop zero ms vs = vs
All-drop (suc n) [] vs = tt
All-drop (suc n) (m ∷ ms) (v, vs) = All-drop n ms vs

take-min : (n : ℕ) (ms : List MotorMessage) → take (min n (length ms)) ms ≡ take n ms
take-min zero ms =
    let nought : min 0 (length ms) ≡ 0 = omega arith in ap (λ (k : ℕ). take k ms) nought
take-min (suc n) [] =
    let nought : min (suc n) 0 ≡ 0 = omega arith in
    ap (λ (k : ℕ). take {A = MotorMessage} k []) nought
take-min (suc n) (m ∷ ms) =
    let step : min (suc n) (suc (length ms)) ≡ suc (min n (length ms)) = omega arith in
    ap (λ (k : ℕ). take k (m ∷ ms)) step ∙ ap (λ t. m ∷ t) (take-min n ms)

take-drop : (n : ℕ) (ms : List MotorMessage) → take n ms ++ drop n ms ≡ ms
take-drop zero ms = refl
take-drop (suc n) [] = refl
take-drop (suc n) (m ∷ ms) = ap (λ t. m ∷ t) (take-drop n ms)

encode_loop-cons :
    (fuel : ℕ) (kind : RelayFrameType) (m : MotorMessage) (ms : List MotorMessage)
    → encode_loop (suc fuel) kind (m ∷ ms)
      ≡ frame_bytes kind (take 255 (m ∷ ms)) ++ encode_loop fuel kind (drop 255 (m ∷ ms))
unfolding encode_loop
encode_loop-cons fuel kind m ms =
    let cut = take-min 255 (m ∷ ms) in
    let size = length-take 255 (m ∷ ms) in
    let count : min 255 (suc (length ms)) ≡ length (take 255 (m ∷ ms)) = omega arith in
    ap
      (λ (r : List MotorMessage).
        (write_header kind (min 255 (suc (length ms))) ++ write_records r)
        ++ encode_loop fuel kind (drop 255 (m ∷ ms)))
      cut
    ∙ ap
        (λ (n : ℕ).
          (write_header kind n ++ write_records (take 255 (m ∷ ms)))
          ++ encode_loop fuel kind (drop 255 (m ∷ ms)))
        count

encode_loop-nil : (fuel : ℕ) (kind : RelayFrameType) → encode_loop fuel kind [] ≡ []
unfolding encode_loop
encode_loop-nil zero kind = refl
encode_loop-nil (suc fuel) kind = refl

decode_loop-nil : (fuel : ℕ) → decode_loop fuel [] ≡ some []
unfolding decode_loop
decode_loop-nil zero = refl
decode_loop-nil (suc fuel) = refl

encode_loop-decoded :
    (fuel spare : ℕ) (kind : RelayFrameType) (ms : List MotorMessage)
    → All IsRecord ms
    → length ms ≤ fuel
    → length (encode_loop fuel kind ms) ≤ spare
    → (frames : List RelayFrame) × (decode_loop spare (encode_loop fuel kind ms) ≡ some frames)
      × Carry kind ms frames
encode_loop-decoded fuel spare kind [] vs h k =
    ([], rw (encode_loop-nil fuel kind) (decode_loop-nil spare), record { all = refl; kinds = tt })
encode_loop-decoded zero spare kind (m ∷ ms) vs h k = absurd (omega arith)
encode_loop-decoded (suc fuel) spare kind (m ∷ ms) vs h k =
    let chunk = take 255 (m ∷ ms) in
    let others = drop 255 (m ∷ ms) in
    let fine = All-take 255 (m ∷ ms) vs in
    let shape = encode_loop-cons fuel kind m ms in
    let sizes = length-append (frame_bytes kind chunk) (encode_loop fuel kind others) in
    let size = frame_bytes-length kind chunk fine in
    let total = ap length shape in
    let left = length-drop 255 (m ∷ ms) in
    let (frames, decoded, carry) =
      encode_loop-decoded fuel (spare - 1) kind others (All-drop 255 (m ∷ ms) vs) (omega arith)
        (omega arith) in
    let short : length chunk ≤ 255 = omega (arith, length-take 255 (m ∷ ms)) in
    (
      record { kind = kind; records = chunk } ∷ frames,
      ap (decode_loop spare) shape
          ∙ ap (λ (n : ℕ). decode_loop n (frame_bytes kind chunk ++ encode_loop fuel kind others))
              (omega arith)
          ∙ decode_loop-frame (spare - 1) kind chunk (encode_loop fuel kind others) frames short
              fine decoded,
      record {
        all = ap (λ t. chunk ++ t) carry.all ∙ take-drop 255 (m ∷ ms);
        kinds = ((refl, short), carry.kinds);
      },
    )

-- Any records that the wire can hold, encoded for either direction, are decoded successfully, to
-- frames of that direction with at most 255 records each, which together hold exactly those
-- records in order.
pub decode_relay_frames-encode :
    (kind : RelayFrameType) (ms : List MotorMessage)
    → All IsRecord ms
    → (frames : List RelayFrame) × (decode_relay_frames (encode_relay_frames kind ms) ≡ some frames)
      × Carry kind ms frames
unfolding decode_relay_frames encode_relay_frames write_header write_records
decode_relay_frames-encode kind [] vs = (
  record { kind = kind; records = [] } ∷ [],
  decode_loop-frame 7 kind [] [] [] (omega arith) tt (decode_loop-nil 7),
  record { all = refl; kinds = ((refl, omega arith), tt) },
)
decode_relay_frames-encode kind (m ∷ ms) vs =
    encode_loop-decoded (length (m ∷ ms)) (length (encode_loop (length (m ∷ ms)) kind (m ∷ ms)))
      kind (m ∷ ms) vs (omega arith) (omega arith)

-- One frame of up to 255 records.
pub encode_relay_frames-length :
    (kind : RelayFrameType) (ms : List MotorMessage)
    → All IsRecord ms
    → length ms ≤ 255
    → length (encode_relay_frames kind ms) ≡ 8 + length ms * 18
unfolding encode_relay_frames write_header
encode_relay_frames-length kind [] vs h = refl
encode_relay_frames-length kind (m ∷ ms) vs h =
    let chunk = take 255 (m ∷ ms) in
    let nothing_left : drop 255 (m ∷ ms) ≡ [] = drop-all 255 (m ∷ ms) h in
    let shape = encode_loop-cons (length ms) kind m ms in
    let tail : encode_loop (length ms) kind (drop 255 (m ∷ ms)) ≡ [] =
      ap (encode_loop (length ms) kind) nothing_left ∙ encode_loop-nil (length ms) kind in
    omega (
      arith,
      ap length shape,
      ap length tail,
      length-append (frame_bytes kind chunk) (encode_loop (length ms) kind (drop 255 (m ∷ ms))),
      frame_bytes-length kind chunk (All-take 255 (m ∷ ms) vs),
      length-take 255 (m ∷ ms),
    )

-- Up to 255 records fill one frame.
pub encode_relay_frames-frame :
    (kind : RelayFrameType) (m : MotorMessage) (ms : List MotorMessage)
    → length (m ∷ ms) ≤ 255
    → encode_relay_frames kind (m ∷ ms) ≡ frame_bytes kind (m ∷ ms)
unfolding encode_relay_frames
encode_relay_frames-frame kind m ms h =
    let nothing_left : drop 255 (m ∷ ms) ≡ [] = drop-all 255 (m ∷ ms) h in
    let whole : take 255 (m ∷ ms) ≡ m ∷ ms =
      sym (append-nil (take 255 (m ∷ ms)))
      ∙ ap (λ t. take 255 (m ∷ ms) ++ t) (sym nothing_left)
      ∙ take-drop 255 (m ∷ ms) in
    encode_loop-cons (length ms) kind m ms
    ∙ ap (λ t. frame_bytes kind (take 255 (m ∷ ms)) ++ encode_loop (length ms) kind t) nothing_left
    ∙ ap (λ t. frame_bytes kind (take 255 (m ∷ ms)) ++ t) (encode_loop-nil (length ms) kind)
    ∙ append-nil (frame_bytes kind (take 255 (m ∷ ms)))
    ∙ ap (frame_bytes kind) whole
