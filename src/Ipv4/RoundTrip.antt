-- ===== src/Ipv4/RoundTrip.antt =====
-- The packets of plugins/adapter/ethernet/protocol/ipv4.cc as the other end reads them.
use encos_driver.Prelude.{
  ℕ, ◌+◌, ◌-◌, ◌≤◌, ◌<◌, ◌≡◌, refl, sym, ap, ◌∙◌, ltb, shr, u8, u16, true, false, some, List, [],
  ◌∷◌, ◌++◌, length, take, drop, arith,
}
use encos_driver.Gateway.{decode_payload}
use encos_driver.Ipv4.{
  Route, mac_bytes, address_bytes, read16, write16, sum, finish, ip_header, udp_header, ip_checksum,
  udp_checksum, pseudo_sum, encode_packet, begins_with, link_accepted, ip_accepted, udp_accepted,
  checksum_accepted, payload_of, decode_packet,
}
use encos_driver.Ipv4.Checksum.{AreBytes, read16_lem}
use encos_driver.Ipv4.Sums.{IsRoute, ip_checksum-finish, udp_checksum-finish}

-- The same connection, seen from the other end.
abbrev pub other_end : Route → Route
other_end r = record {
  local_mac = r.remote_mac;
  remote_mac = r.local_mac;
  local_ip = r.remote_ip;
  remote_ip = r.local_ip;
  local_port = r.remote_port;
  remote_port = r.local_port;
}

pub begins_with-append : (xs ys : List ℕ) → begins_with xs (xs ++ ys) ≡ true
unfolding begins_with
begins_with-append [] ys = refl
begins_with-append (x ∷ xs) ys = ground (arith, begins_with-append xs ys)

read16-write16 : (n : ℕ) (p : List ℕ) → n < 65536 → read16 (write16 n ++ p) ≡ n
read16-write16 n p h = omega (arith, read16_lem (u8 (shr n 8)) (u8 n) p (omega arith))

take_all : (xs : List ℕ) → take (length xs) xs ≡ xs
take_all [] = refl
take_all (x ∷ xs) = ap (λ t. x ∷ t) (take_all xs)

some_injective : {x y : List ℕ} → some x ≡ some y → x ≡ y
some_injective e = cc

-- A packet with any two checksums.
abbrev packet : Route → ℕ → ℕ → ℕ → ℕ → List ℕ → List ℕ
packet r total c len d payload =
    mac_bytes r.remote_mac
    ++ (mac_bytes r.local_mac
        ++ (write16 0x0800 ++ (ip_header r total c ++ (udp_header r len d ++ payload))))

module _ (r : Route) (valid : IsRoute r) where
  link_lem :
      (total c len d : ℕ) (payload : List ℕ)
      → link_accepted (other_end r) (packet r total c len d payload) ≡ true
  unfolding link_accepted read16
  link_lem total c len d payload =
      let own =
        begins_with-append (mac_bytes r.remote_mac) (drop 6 (packet r total c len d payload)) in
      let from =
        begins_with-append (mac_bytes r.local_mac) (drop 12 (packet r total c len d payload)) in
      rw (own, from) (ground arith)

  ip_lem :
      (total c len d size : ℕ) (payload : List ℕ)
      → finish (sum (ip_header r total c) 0) ≡ 0
      → 42 ≤ size
      → ip_accepted (other_end r) (ip_header r total c ++ (udp_header r len d ++ payload)) 20 size
        ≡ true
  unfolding ip_accepted read16
  ip_lem total c len d size payload ok big =
      let from =
        begins_with-append (address_bytes r.local_ip)
          (address_bytes r.remote_ip ++ (udp_header r len d ++ payload)) in
      let own = begins_with-append (address_bytes r.remote_ip) (udp_header r len d ++ payload) in
      rw (ok, from, own) (ground arith)

  udp_lem :
      (len d : ℕ) (payload : List ℕ)
      → 8 ≤ len
      → len < 65536
      → udp_accepted (other_end r) (udp_header r len d ++ payload) len len ≡ true
  unfolding udp_accepted
  udp_lem len d payload small big =
      let source =
        read16-write16 r.local_port
          (write16 r.remote_port ++ (write16 len ++ (write16 d ++ payload))) valid.local_small in
      let target =
        read16-write16 r.remote_port (write16 len ++ (write16 d ++ payload)) valid.remote_small in
      rw (source, target) (ground arith)

  checksum_lem :
      (total c len d : ℕ) (payload : List ℕ)
      → take len (udp_header r len d ++ payload) ≡ udp_header r len d ++ payload
      → finish (
          sum
            (udp_header r len d ++ payload)
            (pseudo_sum (address_bytes r.local_ip ++ address_bytes r.remote_ip) len))
        ≡ 0
      → checksum_accepted
          (ip_header r total c ++ (udp_header r len d ++ payload))
          (udp_header r len d ++ payload)
          len
        ≡ true
  unfolding checksum_accepted
  checksum_lem total c len d payload whole ok = rw (whole, ok) (ground arith)

  -- The tests pass, and the payload is what follows the headers.
  payload_of-packet :
      (c d : ℕ) (payload : List ℕ)
      → length payload ≤ 1448
      → finish (sum (ip_header r (28 + length payload) c) 0) ≡ 0
      → finish (
          sum (udp_header r (8 + length payload) d ++ payload) (
            pseudo_sum
              (address_bytes r.local_ip ++ address_bytes r.remote_ip)
              (8 + length payload)))
        ≡ 0
      → payload_of
          (other_end r)
          (packet r (28 + length payload) c (8 + length payload) d payload)
          (ip_header r (28 + length payload) c ++ (udp_header r (8 + length payload) d ++ payload))
          20
          (28 + length payload)
          (udp_header r (8 + length payload) d ++ payload)
          (8 + length payload)
        ≡ decode_payload payload
  unfolding payload_of
  payload_of-packet c d payload n ok fine =
      let size = length payload in
      let bytes = packet r (28 + size) c (8 + size) d payload in
      let link = link_lem (28 + size) c (8 + size) d payload in
      let ip = ip_lem (28 + size) c (8 + size) d (length bytes) payload ok (omega arith) in
      let rest : 28 + size - 20 ≡ 8 + size = omega arith in
      let left : 8 + size - 8 ≡ size = omega arith in
      let udp = udp_lem (8 + size) d payload (omega arith) (omega arith) in
      let counted : 8 + size ≡ length (udp_header r (8 + size) d ++ payload) = omega arith in
      let whole =
        ap (λ (k : ℕ). take k (udp_header r (8 + size) d ++ payload)) counted
        ∙ take_all (udp_header r (8 + size) d ++ payload) in
      let checked = checksum_lem (28 + size) c (8 + size) d payload whole fine in
      let enough : ltb (28 + size) (20 + 8) ≡ false = ground arith in
      let fits : ltb (length bytes) (14 + (28 + size)) ≡ false = ground arith in
      rw (link, ip, rest, udp, checked, left, enough, fits, take_all payload) refl

  decode_packet-packet :
      (c d : ℕ) (payload : List ℕ)
      → length payload ≤ 1448
      → finish (sum (ip_header r (28 + length payload) c) 0) ≡ 0
      → finish (
          sum (udp_header r (8 + length payload) d ++ payload) (
            pseudo_sum
              (address_bytes r.local_ip ++ address_bytes r.remote_ip)
              (8 + length payload)))
        ≡ 0
      → decode_packet
          (other_end r)
          (packet r (28 + length payload) c (8 + length payload) d payload)
        ≡ decode_payload payload
  unfolding decode_packet
  decode_packet-packet c d payload n ok fine =
      let size = length payload in
      let total =
        read16-write16 (28 + size)
          (drop 4 (ip_header r (28 + size) c) ++ (udp_header r (8 + size) d ++ payload))
          (omega arith) in
      let len = read16-write16 (8 + size) (write16 d ++ payload) (omega arith) in
      rw (total, len) (payload_of-packet c d payload n ok fine)

encode_packet-packet :
    (r : Route) (payload p : List ℕ)
    → encode_packet r payload ≡ some p
    → (length payload ≤ 1448)
      × (p
          ≡ packet r
              (28 + length payload)
              (ip_checksum r (28 + length payload))
              (8 + length payload)
              (udp_checksum r payload (8 + length payload))
              payload)
unfolding encode_packet
encode_packet-packet r payload p done =
    let n : length payload ≤ 1448 = ground arith in
    let total : u16 (28 + length payload) ≡ 28 + length payload = omega arith in
    let len : u16 (8 + length payload) ≡ 8 + length payload = omega arith in
    let fits : ltb 1448 (length payload) ≡ false = ground arith in
    (n, some_injective (sym done ∙ rw (fits, total, len, encode_packet) refl))

-- A packet that `EncodePacket` makes for a payload of at most 1,448 bytes passes every test of
-- `DecodePacket` at the other end, the two checksums included, which then decodes exactly that
-- payload.
pub decode_packet-encode_packet :
    (r : Route) (payload p : List ℕ)
    → IsRoute r
    → AreBytes payload
    → encode_packet r payload ≡ some p
    → decode_packet (other_end r) p ≡ decode_payload payload
decode_packet-encode_packet r payload p valid bytes done =
    let size = length payload in
    let (n, same) = encode_packet-packet r payload p done in
    let c = ip_checksum r (28 + size) in
    let d = udp_checksum r payload (8 + size) in
    ap (decode_packet (other_end r)) same
    ∙ decode_packet-packet r valid c d payload n (ip_checksum-finish r valid (28 + size))
        (udp_checksum-finish r valid (8 + size) payload bytes n (omega arith) (omega arith))
