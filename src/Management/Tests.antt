-- ===== src/Management/Tests.antt =====
-- An event of the gateway board (plugins/adapter/ethernet/protocol/management_protocol.cc), and a data
-- frame.
use encos_driver.Prelude.{◌≡◌, refl, ℕ, some, List, [], ◌∷◌, replicate, arith}
use encos_driver.Relay.{
  relay_to_helper, decode_relay_frames, decode_loop, read_frame, read_records, type_of_byte,
  has_magic,
}
use encos_driver.Management.{CanError, decode_can_error}
use encos_driver.Management.Safety.{event, decode_can_error-event}

abbrev identity : List ℕ
identity = replicate 16 7

abbrev bus_off : CanError
bus_off = record {
  sequence = 3;
  uptime = 100000;
  channel = 2;
  flags = 4;
  psr = 1799;
  ecr = 248;
  count = 1;
  merged = 0;
  recovered = 0;
}

decode_can_error-event_example : decode_can_error (event identity bus_off) identity ≡ some bus_off
decode_can_error-event_example = decode_can_error-event identity bus_off refl (record {
  sequence = omega arith;
  uptime = omega arith;
  channel = omega arith;
  flags = omega arith;
  psr = omega arith;
  ecr = omega arith;
  count = omega arith;
  merged = omega arith;
  recovered = omega arith;
})

-- A frame without records.
abbrev frame : List ℕ
frame = 69 ∷ 77 ∷ 82 ∷ 49 ∷ 1 ∷ 0 ∷ 0 ∷ 0 ∷ []

frame-decoded :
    decode_relay_frames frame ≡ some (record { kind = relay_to_helper; records = [] } ∷ [])
unfolding decode_relay_frames decode_loop read_frame read_records type_of_byte has_magic
frame-decoded = refl
