-- ===== src/Management.antt =====
-- The management packets of the Ethernet gateway: plugins/adapter/ethernet/protocol/gateway_wire.h and
-- management_protocol.cc.
pub mod Safety
mod Tests
use encos_driver.Prelude.{
  ℕ, ◌+◌, ltb, leb, ◌==◌, bit_or, shl, shr, u8, Bool, true, false, not, ◌&&◌, if◌then◌else◌, Option,
  none, some, List, [], ◌∷◌, ◌++◌, length, get_or, drop, replicate,
}
use encos_driver.Ipv4.{begins_with}

abbrev pub packet_size : ℕ
packet_size = 64

-- The kinds of packets, `GW_DISCOVER` to `GW_CAN_STATE`.
abbrev pub gw_discover : ℕ
gw_discover = 1

abbrev pub gw_can_event : ℕ
gw_can_event = 5

abbrev pub gw_can_state : ℕ
gw_can_state = 9

-- `gw_get32`, at the head of what is left of a buffer.
unfoldable pub get32 : List ℕ → ℕ
get32 p =
    bit_or (bit_or (bit_or (get_or p 0 0) (shl (get_or p 1 0) 8)) (shl (get_or p 2 0) 16))
      (shl (get_or p 3 0) 24)

-- The four bytes that `gw_put32` writes.
abbrev pub put32 : ℕ → List ℕ
put32 v = u8 (shr v 0) ∷ u8 (shr v 8) ∷ u8 (shr v 16) ∷ u8 (shr v 24) ∷ []

-- The text "EMM1".
abbrev pub magic : List ℕ
magic = 69 ∷ 77 ∷ 77 ∷ 49 ∷ []

-- The 28 bytes that `gw_packet` writes, before 36 zeros.
abbrev pub head_bytes : ℕ → ℕ → List ℕ → List ℕ
head_bytes kind request id = magic ++ (1 ∷ kind ∷ packet_size ∷ 0 ∷ put32 request ++ id)

-- `gw_packet`; a null identity leaves zeros.
unfoldable pub gw_packet : ℕ → ℕ → Option (List ℕ) → List ℕ
gw_packet kind request none = head_bytes kind request (replicate 16 0) ++ replicate 36 0
gw_packet kind request (some id) = head_bytes kind request id ++ replicate 36 0

unfoldable pub gw_packet_valid : List ℕ → Bool
gw_packet_valid p =
    length p == packet_size
    && begins_with magic p
    && get_or p 4 0 == 1
    && leb gw_discover (get_or p 5 0)
    && leb (get_or p 5 0) gw_can_state
    && get_or p 6 0 == packet_size
    && get_or p 7 0 == 0

pub record CanError : Type 0 where
  pub sequence : ℕ
  pub uptime : ℕ
  pub channel : ℕ
  pub flags : ℕ
  pub psr : ℕ
  pub ecr : ℕ
  pub count : ℕ
  pub merged : ℕ
  pub recovered : ℕ

-- `DecodeCanError`.
unfoldable pub decode_can_error : List ℕ → List ℕ → Option CanError
decode_can_error p id =
    if gw_packet_valid p
      && get_or p 5 0 == gw_can_event
      && begins_with id (drop 12 p)
      && not (leb 8 (get32 (drop 32 p)))
    then some (record {
      sequence = get32 (drop 8 p);
      uptime = get32 (drop 28 p);
      channel = get32 (drop 32 p);
      flags = get32 (drop 36 p);
      psr = get32 (drop 40 p);
      ecr = get32 (drop 44 p);
      count = get32 (drop 48 p);
      merged = get32 (drop 52 p);
      recovered = get32 (drop 56 p);
    })
    else none
