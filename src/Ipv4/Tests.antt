-- ===== src/Ipv4/Tests.antt =====
-- A packet of plugins/adapter/ethernet/protocol/ipv4.cc between two ends.
use encos_driver.Prelude.{ℕ, ◌<◌, ◌≡◌, ◌↔◌, refl, some, List, [], ◌∷◌, ◌++◌, length, All, arith}
use encos_driver.Gateway.{decode_payload}
use encos_driver.Ipv4.{Route, encode_packet, decode_packet, sum, finish, finish_loop, read16}
use encos_driver.Ipv4.Text.{format_ipv4, parse_ipv4, parse_part, parse_parts, split_at}
use encos_driver.Ipv4.TextRoundTrip.{parse_ipv4-format_ipv4}
use encos_driver.Ipv4.Endpoint.{
  Endpoint, IsUnicast, check_endpoint, is_refused, parse_endpoint, parse_endpoint-IsUnicast,
  parse_port,
}
use encos_driver.Ipv4.Sums.{IsRoute}
use encos_driver.Ipv4.RoundTrip.{other_end, decode_packet-encode_packet}

abbrev board : Route
board = record {
  local_mac = record { m0 = 2; m1 = 0; m2 = 0; m3 = 0; m4 = 0; m5 = 1 };
  remote_mac = record { m0 = 2; m1 = 0; m2 = 0; m3 = 0; m4 = 0; m5 = 2 };
  local_ip = record { a0 = 192; a1 = 168; a2 = 100; a3 = 10 };
  remote_ip = record { a0 = 192; a1 = 168; a2 = 100; a3 = 20 };
  local_port = 5000;
  remote_port = 40000;
}

-- Three bytes of payload, under the headers with their checksums.
abbrev sent : List ℕ
sent =
    2 ∷ 0 ∷ 0 ∷ 0 ∷ 0 ∷ 2 ∷ 2 ∷ 0 ∷ 0 ∷ 0 ∷ 0 ∷ 1 ∷ 8 ∷ 0 ∷ 69 ∷ 0 ∷ 0 ∷ 31 ∷ 0 ∷ 0 ∷ 64 ∷ 0 ∷ 64
    ∷ 17 ∷ 241 ∷ 94 ∷ 192 ∷ 168 ∷ 100 ∷ 10 ∷ 192 ∷ 168 ∷ 100 ∷ 20 ∷ 19 ∷ 136 ∷ 156 ∷ 64 ∷ 0 ∷ 11 ∷ 2
    ∷ 158 ∷ 1 ∷ 2 ∷ 3 ∷ []

board-sends : encode_packet board (1 ∷ 2 ∷ 3 ∷ []) ≡ some sent
unfolding encode_packet sum finish finish_loop read16
board-sends = refl

board-IsRoute : IsRoute board
board-IsRoute = record {
  local_bytes = omega arith;
  remote_bytes = omega arith;
  local_small = omega arith;
  remote_small = omega arith;
}

decode_packet-encode_packet_example :
    decode_packet (other_end board) sent ≡ decode_payload (1 ∷ 2 ∷ 3 ∷ [])
decode_packet-encode_packet_example =
    decode_packet-encode_packet board (1 ∷ 2 ∷ 3 ∷ []) sent board-IsRoute (omega arith) board-sends

abbrev address_text : List ℕ
address_text = b'1' ∷ b'0' ∷ b'.' ∷ b'0' ∷ b'.' ∷ b'2' ∷ b'5' ∷ b'5' ∷ b'.' ∷ b'7' ∷ []

abbrev octets : List ℕ
octets = 10 ∷ 0 ∷ 255 ∷ 7 ∷ []

parse_ipv4-format_ipv4_example :
    (parse_ipv4 address_text ≡ some octets)
    ↔ ((length octets ≡ 4) × All (λ b. b < 256) octets × (format_ipv4 octets ≡ address_text))
parse_ipv4-format_ipv4_example = parse_ipv4-format_ipv4 address_text octets

abbrev endpoint_text : List ℕ
endpoint_text = b'e' ∷ b'n' ∷ b'@' ∷ (address_text ++ b',' ∷ b'9' ∷ b'0' ∷ [])

abbrev endpoint : Endpoint
endpoint = record { interface_name = b'e' ∷ b'n' ∷ []; address = address_text; port = 90 }

parse_endpoint_test : parse_endpoint endpoint_text ≡ some endpoint
unfolding parse_endpoint check_endpoint is_refused parse_port parse_ipv4 parse_parts parse_part
    split_at
parse_endpoint_test = refl

endpoint-IsUnicast : IsUnicast endpoint
endpoint-IsUnicast = parse_endpoint-IsUnicast endpoint_text endpoint parse_endpoint_test
