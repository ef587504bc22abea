-- ===== src/Management/Safety.antt =====
-- What the management packets (plugins/adapter/ethernet/protocol/gateway_wire.h and
-- management_protocol.cc) keep, and that they are no data frames.
use encos_driver.Prelude.{
  ℕ, suc, ◌+◌, ◌*◌, ◌/◌, ◌%◌, ◌^◌, ◌≤◌, ◌<◌, ◌≡◌, refl, ap, sym, ◌∙◌, bit_or, true, false, leb,
  none, some, List, [], ◌∷◌, ◌++◌, length, drop, replicate, arith, bit_or-shl_right, Option-cases,
  inl, inr, drop-drop, drop-length_append, length-append,
}
use encos_driver.Ipv4.{begins_with}
use encos_driver.Ipv4.RoundTrip.{begins_with-append}
use encos_driver.Relay.{RelayFrame, decode_relay_frames, decode_loop, read_frame, has_magic}
use encos_driver.Management.{
  get32, put32, magic, head_bytes, gw_packet, gw_packet_valid, gw_can_event, CanError,
  decode_can_error,
}

get32-put32 : (v : ℕ) (p : List ℕ) → v < 2 ^ 32 → get32 (put32 v ++ p) ≡ v
unfolding get32
get32-put32 v p h =
    let s1 : bit_or (v / 2 ^ 0 % 256) (v / 2 ^ 8 % 256 * 2 ^ 8) ≡ v % 2 ^ 16 =
      omega (arith, bit_or-shl_right 8 (v / 2 ^ 8 % 256) (v / 2 ^ 0 % 256) (omega arith)) in
    let s2 : bit_or (v % 2 ^ 16) (v / 2 ^ 16 % 256 * 2 ^ 16) ≡ v % 2 ^ 24 =
      omega (arith, bit_or-shl_right 16 (v / 2 ^ 16 % 256) (v % 2 ^ 16) (omega arith)) in
    let s3 : bit_or (v % 2 ^ 24) (v / 2 ^ 24 % 256 * 2 ^ 24) ≡ v =
      omega (arith, bit_or-shl_right 24 (v / 2 ^ 24 % 256) (v % 2 ^ 24) (omega arith)) in
    rw (s1, s2) s3

-- A frame of the data protocol has the text "EMR1" where a management packet has "EMM1".
has_magic-other : (p : List ℕ) → has_magic p ≡ true → begins_with magic p ≡ false
unfolding has_magic begins_with
has_magic-other [] h = cc
has_magic-other (a ∷ []) h = ground arith
has_magic-other (a ∷ b ∷ []) h = ground arith
has_magic-other (a ∷ b ∷ c ∷ p) h = ground arith

-- The data after the identity of an event.
abbrev event_words : CanError → List ℕ
event_words e =
    put32 e.uptime
    ++ (put32 e.channel
        ++ (put32 e.flags
            ++ (put32 e.psr
                ++ (put32 e.ecr
                    ++ (put32 e.count
                        ++ (put32 e.merged ++ (put32 e.recovered ++ replicate 4 0)))))))

-- The event as the board sends it.
abbrev pub event : List ℕ → CanError → List ℕ
event id e = head_bytes gw_can_event e.sequence id ++ event_words e

-- Values of 32 bits, and a channel of the board.
pub record IsEvent (e : CanError) : Type 0 where
  pub sequence : e.sequence < 2 ^ 32
  pub uptime : e.uptime < 2 ^ 32
  pub channel : e.channel < 8
  pub flags : e.flags < 2 ^ 32
  pub psr : e.psr < 2 ^ 32
  pub ecr : e.ecr < 2 ^ 32
  pub count : e.count < 2 ^ 32
  pub merged : e.merged < 2 ^ 32
  pub recovered : e.recovered < 2 ^ 32

-- What stands behind the identity.
drop-identity :
    (id rest : List ℕ) (k : ℕ) → length id ≡ 16 → drop (16 + k) (id ++ rest) ≡ drop k rest
drop-identity id rest k h =
    sym (drop-drop k 16 (id ++ rest))
    ∙ ap (λ (n : ℕ). drop k (drop n (id ++ rest))) (sym h)
    ∙ ap (drop k) (drop-length_append id rest)

event-valid : (id : List ℕ) (e : CanError) → length id ≡ 16 → gw_packet_valid (event id e) ≡ true
unfolding gw_packet_valid begins_with
event-valid id e h =
    let size = length-append id (event_words e) in
    let whole : length (id ++ event_words e) ≡ 52 = omega (arith, size) in rw whole (ground arith)

-- An event that the board sends with a 16-byte identity, 32-bit values and a channel below 8 is
-- decoded, by a client that holds this identity, to exactly its nine values.
pub decode_can_error-event :
    (id : List ℕ) (e : CanError)
    → length id ≡ 16
    → IsEvent e
    → decode_can_error (event id e) id ≡ some e
unfolding decode_can_error
decode_can_error-event id e h v =
    let rest = event_words e in
    let from = begins_with-append id rest in
    let sequence = get32-put32 e.sequence (id ++ rest) v.sequence in
    let uptime =
      ap get32 (drop-identity id rest 0 h) ∙ get32-put32 e.uptime (drop 4 rest) v.uptime in
    let channel =
      ap get32 (drop-identity id rest 4 h)
      ∙ get32-put32 e.channel (drop 8 rest) (omega (arith, v.channel)) in
    let flags = ap get32 (drop-identity id rest 8 h) ∙ get32-put32 e.flags (drop 12 rest) v.flags in
    let psr = ap get32 (drop-identity id rest 12 h) ∙ get32-put32 e.psr (drop 16 rest) v.psr in
    let ecr = ap get32 (drop-identity id rest 16 h) ∙ get32-put32 e.ecr (drop 20 rest) v.ecr in
    let count =
      ap get32 (drop-identity id rest 20 h) ∙ get32-put32 e.count (drop 24 rest) v.count in
    let merged =
      ap get32 (drop-identity id rest 24 h) ∙ get32-put32 e.merged (drop 28 rest) v.merged in
    let recovered =
      ap get32 (drop-identity id rest 28 h) ∙ get32-put32 e.recovered (drop 32 rest) v.recovered in
    let known : leb 8 e.channel ≡ false = ground (arith, v.channel) in
    rw
      (
        event-valid id e h,
        from,
        sequence,
        uptime,
        channel,
        flags,
        psr,
        ecr,
        count,
        merged,
        recovered,
        known,
      )
      refl

read_frame-magic : (p : List ℕ) (f : RelayFrame) → read_frame p ≡ some f → has_magic p ≡ true
unfolding read_frame
read_frame-magic p f h = ground arith

decode_loop-magic :
    (fuel b : ℕ) (bs : List ℕ) (fs : List RelayFrame)
    → decode_loop (suc fuel) (b ∷ bs) ≡ some fs
    → has_magic (b ∷ bs) ≡ true
unfolding decode_loop
decode_loop-magic fuel b bs fs h = elim (Option-cases (read_frame (b ∷ bs))) [
  | inl missing ↦ absurd (ground arith)
  | inr (f, there_is) ↦ read_frame-magic (b ∷ bs) f there_is
]

-- Bytes that the decoder of EMR1 data frames accepts are no event of the management protocol,
-- whatever the identity.
pub decode_can_error-relay :
    (p id : List ℕ) (fs : List RelayFrame)
    → decode_relay_frames p ≡ some fs
    → decode_can_error p id ≡ none
unfolding decode_can_error gw_packet_valid decode_relay_frames
decode_can_error-relay [] id fs h = refl
decode_can_error-relay (b ∷ bs) id fs h =
    let other = has_magic-other (b ∷ bs) (decode_loop-magic (length bs) b bs fs h) in ground arith

-- Every packet that is built with a kind from 1 to 9 is valid.
pub gw_packet-valid :
    (kind request : ℕ) (id : List ℕ)
    → 1 ≤ kind
    → kind ≤ 9
    → length id ≡ 16
    → (gw_packet_valid (gw_packet kind request (some id)) ≡ true)
      × (gw_packet_valid (gw_packet kind request none) ≡ true)
unfolding gw_packet_valid gw_packet begins_with
gw_packet-valid kind request id l u h =
    let size = length-append id (replicate 36 0) in
    let whole : length (id ++ replicate 36 0) ≡ 52 = omega (arith, size) in
    (rw whole (ground arith), ground arith)
