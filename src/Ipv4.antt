-- ===== src/Ipv4.antt =====
-- The Ethernet packets of plugins/adapter/ethernet/protocol/ipv4.cc: IPv4 and UDP headers with their
-- checksums around the payloads of the gateway. The addresses are kept as the bytes in memory.
pub mod Checksum
pub mod Sums
pub mod Text
pub mod TextRoundTrip
pub mod Endpoint
pub mod RoundTrip
mod Tests
use encos_driver.Prelude.{
  ℕ, zero, suc, ◌+◌, ◌-◌, ◌*◌, ◌^◌, ltb, ◌==◌, ◌!=◌, bit_and, bit_or, shl, shr, u8, u16, u32, Bool,
  true, false, not, ◌&&◌, ◌||◌, if◌then◌else◌, Option, none, some, List, [], ◌∷◌, ◌++◌, length,
  get_or, take, drop,
}
use encos_driver.Frame.{MotorMessage}
use encos_driver.Gateway.{decode_payload}

pub record Mac : Type 0 where
  pub m0 : ℕ
  pub m1 : ℕ
  pub m2 : ℕ
  pub m3 : ℕ
  pub m4 : ℕ
  pub m5 : ℕ

pub record Address : Type 0 where
  pub a0 : ℕ
  pub a1 : ℕ
  pub a2 : ℕ
  pub a3 : ℕ

pub record Route : Type 0 where
  pub local_mac : Mac
  pub remote_mac : Mac
  pub local_ip : Address
  pub remote_ip : Address
  pub local_port : ℕ
  pub remote_port : ℕ

abbrev pub mac_bytes : Mac → List ℕ
mac_bytes m = m.m0 ∷ m.m1 ∷ m.m2 ∷ m.m3 ∷ m.m4 ∷ m.m5 ∷ []

abbrev pub address_bytes : Address → List ℕ
address_bytes a = a.a0 ∷ a.a1 ∷ a.a2 ∷ a.a3 ∷ []

-- `Read16`, at the head of what is left of a buffer.
unfoldable pub read16 : List ℕ → ℕ
read16 p = bit_or (shl (get_or p 0 0) 8) (get_or p 1 0)

-- The two bytes that `Write16` writes.
abbrev pub write16 : ℕ → List ℕ
write16 n = u8 (shr n 8) ∷ u8 n ∷ []

-- `Sum`.
unfoldable pub sum : List ℕ → ℕ → ℕ
sum [] acc = acc
sum (a ∷ []) acc = u32 (acc + shl a 8)
sum (a ∷ b ∷ p) acc = sum p (u32 (acc + read16 (a ∷ b ∷ [])))

-- The loop of `Finish`, on fuel.
unfoldable pub finish_loop : ℕ → ℕ → ℕ
finish_loop zero s = u16 (2 ^ 32 - 1 - s)
finish_loop (suc fuel) s =
    let rest = finish_loop fuel (bit_and s 0xFFFF + shr s 16) in
    if shr s 16 == 0 then u16 (2 ^ 32 - 1 - s) else rest

unfoldable pub finish : ℕ → ℕ
finish s = finish_loop 3 s

-- The 20 bytes at `ip` that `EncodePacket` writes.
abbrev pub ip_header : Route → ℕ → ℕ → List ℕ
ip_header route total checksum =
    0x45 ∷ 0 ∷ write16 total
    ++ (0 ∷ 0 ∷ write16 0x4000
        ++ (64 ∷ 17 ∷ write16 checksum
            ++ (address_bytes route.local_ip ++ address_bytes route.remote_ip)))

-- The 8 bytes at `udp`.
abbrev pub udp_header : Route → ℕ → ℕ → List ℕ
udp_header route len checksum =
    write16 route.local_port ++ (write16 route.remote_port ++ (write16 len ++ write16 checksum))

abbrev pub ip_checksum : Route → ℕ → ℕ
ip_checksum route total = finish (sum (ip_header route total 0) 0)

-- The sum over the addresses that the UDP checksum starts from.
abbrev pub pseudo_sum : List ℕ → ℕ → ℕ
pseudo_sum addresses len = u32 (sum addresses 0 + 17 + len)

abbrev pub udp_checksum : Route → List ℕ → ℕ → ℕ
udp_checksum route payload len =
    let checksum = finish (
      sum (udp_header route len 0 ++ payload)
        (pseudo_sum (address_bytes route.local_ip ++ address_bytes route.remote_ip) len)) in
    if checksum != 0 then checksum else 0xFFFF

-- `EncodePacket`; `none` is the exception.
unfoldable pub encode_packet : Route → List ℕ → Option (List ℕ)
encode_packet route payload =
    if ltb 1448 (length payload)
    then none
    else let total = u16 (28 + length payload) in
      let len = u16 (8 + length payload) in
      some (
        mac_bytes route.remote_mac
        ++ (mac_bytes route.local_mac
            ++ (write16 0x0800
                ++ (ip_header route total (ip_checksum route total)
                    ++ (udp_header route len (udp_checksum route payload len) ++ payload)))))

-- `std::equal` and `std::memcmp` on as many bytes as the first list has.
unfoldable pub begins_with : List ℕ → List ℕ → Bool
begins_with [] cs = true
begins_with (b ∷ bs) [] = false
begins_with (b ∷ bs) (c ∷ cs) = b == c && begins_with bs cs

-- The tests of `DecodePacket`, in its order.
unfoldable pub link_accepted : Route → List ℕ → Bool
link_accepted route bytes =
    not (ltb (length bytes) 42)
    && begins_with (mac_bytes route.local_mac) bytes
    && begins_with (mac_bytes route.remote_mac) (drop 6 bytes)
    && read16 (drop 12 bytes) == 0x0800

unfoldable pub ip_accepted : Route → List ℕ → ℕ → ℕ → Bool
ip_accepted route ip header size =
    shr (get_or ip 0 0) 4 == 4
    && not (ltb header 20)
    && not (ltb size (14 + header + 8))
    && get_or ip 9 0 == 17
    && bit_and (read16 (drop 6 ip)) 0x3FFF == 0
    && finish (sum (take header ip) 0) == 0
    && begins_with (address_bytes route.remote_ip) (drop 12 ip)
    && begins_with (address_bytes route.local_ip) (drop 16 ip)

unfoldable pub udp_accepted : Route → List ℕ → ℕ → ℕ → Bool
udp_accepted route udp len rest =
    not (ltb len 8)
    && len == rest
    && read16 udp == route.remote_port
    && read16 (drop 2 udp) == route.local_port

unfoldable pub checksum_accepted : List ℕ → List ℕ → ℕ → Bool
checksum_accepted ip udp len =
    read16 (drop 6 udp) == 0
    || finish (sum (take len udp) (pseudo_sum (take 8 (drop 12 ip)) len)) == 0

-- `DecodePacket` from the fields that it reads on: the IP header and its length, the total length, the
-- UDP header and its length.
unfoldable pub payload_of :
    Route → List ℕ → List ℕ → ℕ → ℕ → List ℕ → ℕ → Option (List MotorMessage)
payload_of route bytes ip header total udp len =
    if link_accepted route bytes
      && ip_accepted route ip header (length bytes)
      && not (ltb total (header + 8))
      && not (ltb (length bytes) (14 + total))
      && udp_accepted route udp len (total - header)
      && checksum_accepted ip udp len
    then decode_payload (take (len - 8) (drop 8 udp))
    else none

-- `DecodePacket`.
unfoldable pub decode_packet : Route → List ℕ → Option (List MotorMessage)
decode_packet route bytes =
    let ip = drop 14 bytes in
    let header = bit_and (get_or ip 0 0) 15 * 4 in
    let udp = drop header ip in
    payload_of route bytes ip header (read16 (drop 2 ip)) udp (read16 (drop 4 udp))
