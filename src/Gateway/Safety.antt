-- ===== src/Gateway/Safety.antt =====
-- What gateway payloads deliver: plugins/adapter/ethernet/protocol/gateway_payload.cc.
use encos_driver.Prelude.{
  ℕ, ◌+◌, ◌≤◌, ◌≡◌, refl, ap, sym, ◌∙◌, ltb, true, false, ◌||◌, some, List, [], ◌∷◌, ◌++◌, length,
  All, arith, length-append, append_assoc, append-nil, Option-cases, inl, inr,
}
use encos_driver.Frame.{MotorMessage}
use encos_driver.Relay.{helper_to_relay, RelayFrame, encode_relay_frames, decode_relay_frames}
use encos_driver.Relay.RoundTrip.{
  IsRecord, records_of, decode_relay_frames-encode, encode_relay_frames-length,
}
use encos_driver.Gateway.{is_valid, all_valid, is_from_helper, collect, decode_payload}

all_valid-append :
    (xs ys : List MotorMessage)
    → all_valid xs ≡ true
    → all_valid ys ≡ true
    → all_valid (xs ++ ys) ≡ true
unfolding all_valid
all_valid-append [] ys h k = k
all_valid-append (x ∷ xs) ys h k = ground (arith, all_valid-append xs ys)

all_valid-split :
    (xs ys : List MotorMessage)
    → all_valid (xs ++ ys) ≡ true
    → (all_valid xs ≡ true) × (all_valid ys ≡ true)
unfolding all_valid
all_valid-split [] ys h = (refl, h)
all_valid-split (x ∷ xs) ys h = ground (arith, all_valid-split xs ys)

collect-valid :
    (messages : List MotorMessage) (frames : List RelayFrame) (result : List MotorMessage)
    → all_valid messages ≡ true
    → length messages ≤ 80
    → collect messages frames ≡ some result
    → (all_valid result ≡ true) × (length result ≤ 80)
unfolding collect
collect-valid messages [] result h k e =
    let same : messages ≡ result = cc in
    (ap all_valid (sym same) ∙ h, omega (arith, ap length same))
collect-valid messages (f ∷ fs) result h k e =
    collect-valid (messages ++ f.records) fs result
      (all_valid-append messages f.records h (ground arith))
      (ground (arith, length-append messages f.records)) (ground arith)

all_valid-nil : all_valid [] ≡ true
unfolding all_valid
all_valid-nil = refl

-- Whatever bytes arrive, what is decoded from them is at most 80 messages, and every one is valid:
-- on a bus below 8, with at most eight data bytes and an identifier within its kind.
pub decode_payload-valid :
    (bytes : List ℕ) (messages : List MotorMessage)
    → decode_payload bytes ≡ some messages
    → (all_valid messages ≡ true) × (length messages ≤ 80)
unfolding decode_payload
decode_payload-valid bytes messages e = elim (Option-cases (decode_relay_frames bytes)) [
  | inl failed ↦ absurd (ground arith)
  | inr (frames, decoded) ↦
      collect-valid [] frames messages all_valid-nil (omega arith) (ground arith)
]

collect-frames :
    (messages : List MotorMessage) (frames : List RelayFrame)
    → All (λ f. (f.kind ≡ helper_to_relay) × (length f.records ≤ 255)) frames
    → all_valid (records_of frames) ≡ true
    → length messages + length (records_of frames) ≤ 80
    → collect messages frames ≡ some (messages ++ records_of frames)
unfolding collect
collect-frames messages [] ks v h = ap some (sym (append-nil messages))
collect-frames messages (f ∷ fs) ((k, size), ks) v h =
    let (mine, others) = all_valid-split f.records (records_of fs) v in
    let total = length-append f.records (records_of fs) in
    let so_far = length-append messages f.records in
    let rest = collect-frames (messages ++ f.records) fs ks others (omega arith) in
    let from : is_from_helper f.kind ≡ true = ap is_from_helper k in
    let fits : ltb 80 (length messages + length f.records) ≡ false = ground arith in
    rw (from, fits, mine, rest) (ap some (append_assoc messages f.records (records_of fs)))

valid-IsRecord : (m : MotorMessage) → is_valid m ≡ true → length m.pack.payload ≡ 8 → IsRecord m
unfolding is_valid
valid-IsRecord m v h = record {
  bus = ground arith;
  id = ground arith;
  len = ground arith;
  bytes = h;
}

all_valid-IsRecord :
    (ms : List MotorMessage)
    → all_valid ms ≡ true
    → All (λ m. length m.pack.payload ≡ 8) ms
    → All IsRecord ms
unfolding all_valid
all_valid-IsRecord [] v hs = tt
all_valid-IsRecord (m ∷ ms) v (h, hs) =
    (valid-IsRecord m (ground arith) h, all_valid-IsRecord ms (ground arith) hs)

-- Up to 80 valid messages with eight data bytes each, sent by the board in EMR1 frames, are decoded
-- as exactly those messages, in order.
pub decode_payload-encode :
    (messages : List MotorMessage)
    → all_valid messages ≡ true
    → All (λ m. length m.pack.payload ≡ 8) messages
    → length messages ≤ 80
    → decode_payload (encode_relay_frames helper_to_relay messages) ≡ some messages
unfolding decode_payload
decode_payload-encode messages v hs h =
    let records = all_valid-IsRecord messages v hs in
    let (frames, decoded, carry) = decode_relay_frames-encode helper_to_relay messages records in
    let size = encode_relay_frames-length helper_to_relay messages records (omega arith) in
    let bytes = encode_relay_frames helper_to_relay messages in
    let fits : (ltb (length bytes) 8 || ltb 1448 (length bytes)) ≡ false = ground arith in
    let all = ap length carry.all in
    rw (fits, decoded)
      (collect-frames [] frames carry.kinds (ap all_valid carry.all ∙ v) (omega arith)
        ∙ ap some carry.all)
