-- ===== src/GsUsb/Tests.antt =====
-- The gs_usb theorems at concrete inputs.
use encos_driver.Prelude.{ℕ, ◌≡◌, refl, arith, true, false, List, [], ◌∷◌, replicate, ◌*◌, ◌/◌}
use encos_driver.Frame.{
  MotorMessage, sanitize, use_extended_id, use_rtr, use_canfd, have_valid_fd_bits,
}
use encos_driver.GsUsb.{Frame, known_flags, accepts}
use encos_driver.GsUsb.Adapter.{receive, receive_buffer}
use encos_driver.GsUsb.RoundTrip.{IsWireFrame}
use encos_driver.GsUsb.Stream.{IsCanMessage, wire, receive_buffer-wire}
use encos_driver.GsUsb.Progress.{Ended, receive-ends}
use encos_driver.GsUsb.Control.{AreWords}
use encos_driver.GsUsb.Timing.{
  Limits, BtConstExt, BitTiming, SamplePoint, clamp_seg1, split_quanta, try_prescaler,
  search_prescaler, compute_bit_timing,
}
use encos_driver.GsUsb.TimingSound.{Respects, First, compute_bit_timing-some}

-- An FD frame with an extended identifier and two data bytes.
abbrev fd_frame : Frame
fd_frame = record {
  echo_id = 7;
  can_id = 0x80000123;
  dlc = 2;
  channel = 1;
  flags = 6;
  reserved = 0;
  payload = 170 ∷ 187 ∷ replicate 62 0;
}

fd_frame-IsWireFrame : IsWireFrame fd_frame
unfolding known_flags accepts
fd_frame-IsWireFrame = record {
  echo_small = omega arith;
  id_small = omega arith;
  buffer = refl;
  known = refl;
  accepted = refl;
}

abbrev message : ℕ → ℕ → ℕ → MotorMessage
message bus id flags = record {
  bus_idx = bus;
  pack = record {
    id = id;
    frame_flags = flags;
    len = 3;
    payload = 1 ∷ 2 ∷ 3 ∷ 0 ∷ 0 ∷ 0 ∷ 0 ∷ 0 ∷ [];
  };
}

classic-IsCanMessage : IsCanMessage 2 (message 0 0x7F0 0)
unfolding sanitize use_extended_id use_rtr use_canfd have_valid_fd_bits
classic-IsCanMessage = record {
  bus = omega arith;
  flags = omega arith;
  fd_bits = refl;
  no_remote_fd = refl;
  id_fits = omega arith;
  len_fits = omega arith;
  bytes = refl;
  padded = refl;
}

extended-IsCanMessage : IsCanMessage 2 (message 1 0x1ABCDEF0 7)
unfolding sanitize use_extended_id use_rtr use_canfd have_valid_fd_bits
extended-IsCanMessage = record {
  bus = omega arith;
  flags = omega arith;
  fd_bits = refl;
  no_remote_fd = refl;
  id_fits = omega arith;
  len_fits = omega arith;
  bytes = refl;
  padded = refl;
}

abbrev two_messages : List MotorMessage
two_messages = message 0 0x7F0 0 ∷ message 1 0x1ABCDEF0 7 ∷ []

receive_buffer-wire_example : receive_buffer 2 (wire two_messages) ≡ two_messages
receive_buffer-wire_example =
    receive_buffer-wire 2 two_messages (omega arith)
      (classic-IsCanMessage, (extended-IsCanMessage, tt))

-- A message with the id 0x7F0, and four bytes more.
abbrev one_frame : List ℕ
one_frame =
    255 ∷ 255 ∷ 255 ∷ 255 ∷ 0xF0 ∷ 7 ∷ 0 ∷ 0 ∷ 3 ∷ 0 ∷ 0 ∷ 0 ∷ 1 ∷ 2 ∷ 3 ∷ 0 ∷ 0 ∷ 0 ∷ 0 ∷ 0 ∷ 9 ∷ 9
    ∷ 9 ∷ 9 ∷ []

receive-ends_example :
    Ended 2 one_frame (receive_buffer 2 one_frame)
    × (receive 2 24 one_frame ≡ receive_buffer 2 one_frame)
receive-ends_example = receive-ends 2 24 one_frame (omega arith)

-- A controller of 80 MHz, and a sample point of 4/5 of the bit, rounded down.
abbrev limits : Limits
limits = record {
  tseg1_min = 1;
  tseg1_max = 255;
  tseg2_min = 1;
  tseg2_max = 127;
  sjw_max = 127;
  brp_min = 1;
  brp_max = 511;
  brp_inc = 1;
}

abbrev constraints : BtConstExt
constraints = record { feature = 0; fclk = 80000000; nominal = limits; data_phase = limits }

abbrev four_fifths : SamplePoint
four_fifths = record { in_range = true; rounded = λ total. total * 4 / 5 }

-- At 1 Mbit/s the first prescaler serves: 80 quanta, 63 and 16 in the segments.
abbrev megabit : BitTiming
megabit = record { prop_seg = 0; phase_seg1 = 63; phase_seg2 = 16; sjw = 16; brp = 1 }

compute_bit_timing-some_example :
    First four_fifths limits 80000000 1000000 1 megabit × Respects limits 80000000 1000000 1 megabit
unfolding compute_bit_timing search_prescaler try_prescaler split_quanta clamp_seg1
compute_bit_timing-some_example =
    compute_bit_timing-some four_fifths constraints 1000000 false megabit
      (record { tseg1_small = omega arith; brp_small = omega arith }) (omega arith) refl

limits-AreWords : AreWords limits
limits-AreWords = record {
  tseg1_min_small = omega arith;
  tseg1_max_small = omega arith;
  tseg2_min_small = omega arith;
  tseg2_max_small = omega arith;
  sjw_max_small = omega arith;
  brp_min_small = omega arith;
  brp_max_small = omega arith;
  brp_inc_small = omega arith;
}
