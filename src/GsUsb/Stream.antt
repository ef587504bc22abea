-- ===== src/GsUsb/Stream.antt =====
-- From CAN messages to bytes on the USB wire and back through the receive loop of
-- plugins/adapter/gsUsb/gs_usb_adapter.cc.
use encos_driver.Prelude.{
  ℕ, zero, suc, ◌-◌, ◌^◌, ◌≤◌, ◌<◌, ◌≡◌, refl, ap, sym, ◌∙◌, min, leb, u8, true, false, ◌&&◌, some,
  List, [], ◌∷◌, ◌++◌, length, take, drop, replicate, All, arith, length-append, length-take,
  length-replicate, drop-length_append,
}
use encos_driver.Frame.{
  MotorMessage, sanitize, use_extended_id, use_rtr, use_canfd, have_valid_fd_bits,
}
use encos_driver.GsUsb.{
  Frame, echo_bus_frame, known_flags, data_size, frame_size, encode_frame, decode_frame,
}
use encos_driver.GsUsb.Adapter.{frame_of, message_of, deliver, receive, receive_buffer}
use encos_driver.GsUsb.RoundTrip.{
  IsWireFrame, on_wire, decode_frame-encode_frame, take-data, encode_frame-length, frame_size-le,
}
use encos_driver.GsUsb.Words.{
  id_limit, id_word-Reads, accepts-word, Kind, std, ext, std_fd, ext_fd, std_rtr, ext_rtr,
  flags-Kind,
}

-- A CAN message of at most eight bytes on one of the adapter's channels, with the bytes behind its
-- length zero.
pub record IsCanMessage (channels : ℕ) (message : MotorMessage) : Type 0 where
  pub bus : message.bus_idx < channels
  pub flags : message.pack.frame_flags < 16
  pub fd_bits : have_valid_fd_bits message.pack.frame_flags ≡ true
  pub no_remote_fd :
      (use_rtr message.pack.frame_flags && use_canfd message.pack.frame_flags) ≡ false
  pub id_fits : message.pack.id < id_limit (use_extended_id message.pack.frame_flags)
  pub len_fits : message.pack.len ≤ 8
  pub bytes : length message.pack.payload ≡ 8
  pub padded :
      message.pack.payload
      ≡ take message.pack.len message.pack.payload ++ replicate (8 - message.pack.len) 0

-- The frame in which the device reports a message from the bus: the one that `WriteFrame` builds
-- for it, but for the echo identifier.
abbrev pub bus_frame : MotorMessage → Frame
bus_frame message = record (frame_of 0 message) { echo_id = echo_bus_frame }

abbrev built : ℕ → ℕ → ℕ → ℕ → ℕ → List ℕ → Frame
built echo bus id flags len payload =
    record (frame_of 0 (record {
      bus_idx = bus;
      pack = record { id = id; frame_flags = flags; len = len; payload = payload };
    })) { echo_id = echo }

module _ (echo bus len : ℕ) (payload : List ℕ) where
  data_buffer :
      length payload ≡ 8
      → length (take (u8 (min len 8)) payload ++ replicate (64 - u8 (min len 8)) 0) ≡ 64
  data_buffer h = omega (
    arith,
    length-append (take (u8 (min len 8)) payload) (replicate (64 - u8 (min len 8)) 0),
    length-take (u8 (min len 8)) payload,
    length-replicate {A = ℕ} (64 - u8 (min len 8)) 0,
  )

  built-IsWireFrame :
      (id flags : ℕ)
      → Kind flags
      → id < id_limit (use_extended_id flags)
      → echo < 2 ^ 32
      → length payload ≡ 8
      → IsWireFrame (built echo bus id flags len payload)
  unfolding frame_of use_extended_id use_rtr use_canfd sanitize known_flags
  built-IsWireFrame id flags std h k n =
      let r = id_word-Reads false false id h in
      record {
        echo_small = k;
        id_small = r.small;
        buffer = data_buffer n;
        known = refl;
        accepted = accepts-word false false false id _ _ r h refl (omega arith);
      }
  built-IsWireFrame id flags ext h k n =
      let r = id_word-Reads true false id h in
      record {
        echo_small = k;
        id_small = r.small;
        buffer = data_buffer n;
        known = refl;
        accepted = accepts-word true false false id _ _ r h refl (omega arith);
      }
  built-IsWireFrame id flags std_fd h k n =
      let r = id_word-Reads false false id h in
      record {
        echo_small = k;
        id_small = r.small;
        buffer = data_buffer n;
        known = refl;
        accepted = accepts-word false false true id _ _ r h refl (omega arith);
      }
  built-IsWireFrame id flags ext_fd h k n =
      let r = id_word-Reads true false id h in
      record {
        echo_small = k;
        id_small = r.small;
        buffer = data_buffer n;
        known = refl;
        accepted = accepts-word true false true id _ _ r h refl (omega arith);
      }
  built-IsWireFrame id flags std_rtr h k n =
      let r = id_word-Reads false true id h in
      record {
        echo_small = k;
        id_small = r.small;
        buffer = data_buffer n;
        known = refl;
        accepted = accepts-word false true false id _ _ r h refl (omega arith);
      }
  built-IsWireFrame id flags ext_rtr h k n =
      let r = id_word-Reads true true id h in
      record {
        echo_small = k;
        id_small = r.small;
        buffer = data_buffer n;
        known = refl;
        accepted = accepts-word true true false id _ _ r h refl (omega arith);
      }

  -- The bounds and the copied data, as the equations that rewrite them.
  record Fits (channels : ℕ) : Type 0 where
    bus_eq : u8 bus ≡ bus
    leb_eq : leb channels bus ≡ false
    min_eq : min len 8 ≡ len
    u8_eq : u8 len ≡ len
    once :
        take len (take len (take len payload ++ replicate (64 - len) 0) ++ replicate (64 - len) 0)
        ≡ take len (take len payload ++ replicate (64 - len) 0)
    twice : take len (take len payload ++ replicate (64 - len) 0) ≡ take len payload

  fits :
      (channels : ℕ)
      → bus < channels
      → channels ≤ 256
      → len ≤ 8
      → length payload ≡ 8
      → Fits channels
  fits channels k c n b =
      let buffer = data_buffer b in
      record {
        bus_eq = omega arith;
        leb_eq = ground arith;
        min_eq = omega arith;
        u8_eq = omega arith;
        once = take-data len (take len payload ++ replicate (64 - len) 0) (replicate (64 - len) 0) (
            omega (
              arith,
              length-append (take len payload) (replicate (64 - len) 0),
              length-take len payload,
              length-replicate {A = ℕ} (64 - len) 0,
            ));
        twice = take-data len payload (replicate (64 - len) 0) (omega arith);
      }

  deliver-built :
      (channels id flags : ℕ)
      → Kind flags
      → id < id_limit (use_extended_id flags)
      → bus < channels
      → channels ≤ 256
      → len ≤ 8
      → length payload ≡ 8
      → deliver channels (on_wire (built echo_bus_frame bus id flags len payload))
        ≡ record {
          bus_idx = bus;
          pack = record {
            id = id;
            frame_flags = flags;
            len = len;
            payload = take len payload ++ replicate (8 - len) 0;
          };
        }
          ∷ []
  unfolding frame_of use_extended_id use_rtr use_canfd sanitize deliver message_of on_wire data_size
  deliver-built channels id flags std h k c n b =
      let r = id_word-Reads false false id h in
      let f = fits channels k c n b in
      rw
        (
          r.eff, r.remote, r.no_error, r.same, f.bus_eq, f.leb_eq, f.min_eq, f.u8_eq, f.min_eq,
          f.u8_eq, f.once, f.twice,
        )
        refl
  deliver-built channels id flags ext h k c n b =
      let r = id_word-Reads true false id h in
      let f = fits channels k c n b in
      rw
        (
          r.eff, r.remote, r.no_error, r.same, f.bus_eq, f.leb_eq, f.min_eq, f.u8_eq, f.min_eq,
          f.u8_eq, f.once, f.twice,
        )
        refl
  deliver-built channels id flags std_fd h k c n b =
      let r = id_word-Reads false false id h in
      let f = fits channels k c n b in
      rw
        (
          r.eff, r.remote, r.no_error, r.same, f.bus_eq, f.leb_eq, f.min_eq, f.u8_eq, f.min_eq,
          f.u8_eq, f.once, f.twice,
        )
        refl
  deliver-built channels id flags ext_fd h k c n b =
      let r = id_word-Reads true false id h in
      let f = fits channels k c n b in
      rw
        (
          r.eff, r.remote, r.no_error, r.same, f.bus_eq, f.leb_eq, f.min_eq, f.u8_eq, f.min_eq,
          f.u8_eq, f.once, f.twice,
        )
        refl
  deliver-built channels id flags std_rtr h k c n b =
      let r = id_word-Reads false true id h in
      let f = fits channels k c n b in
      rw
        (
          r.eff, r.remote, r.no_error, r.same, f.bus_eq, f.leb_eq, f.min_eq, f.u8_eq, f.min_eq,
          f.u8_eq, f.once, f.twice,
        )
        refl
  deliver-built channels id flags ext_rtr h k c n b =
      let r = id_word-Reads true true id h in
      let f = fits channels k c n b in
      rw
        (
          r.eff, r.remote, r.no_error, r.same, f.bus_eq, f.leb_eq, f.min_eq, f.u8_eq, f.min_eq,
          f.u8_eq, f.once, f.twice,
        )
        refl

frame_of-IsWireFrame :
    (echo channels : ℕ) (message : MotorMessage)
    → echo < 2 ^ 32
    → IsCanMessage channels message
    → IsWireFrame (record (frame_of 0 message) { echo_id = echo })
frame_of-IsWireFrame echo channels m h v =
    built-IsWireFrame echo m.bus_idx m.pack.len m.pack.payload m.pack.id m.pack.frame_flags
      (flags-Kind m.pack.frame_flags v.flags v.fd_bits v.no_remote_fd) v.id_fits h v.bytes

deliver-bus_frame :
    (channels : ℕ) (message : MotorMessage)
    → channels ≤ 256
    → IsCanMessage channels message
    → deliver channels (on_wire (bus_frame message)) ≡ message ∷ []
deliver-bus_frame channels m h v =
    deliver-built 0 m.bus_idx m.pack.len m.pack.payload channels m.pack.id m.pack.frame_flags
      (flags-Kind m.pack.frame_flags v.flags v.fd_bits v.no_remote_fd) v.id_fits v.bus h v.len_fits
      v.bytes
    ∙ rw (← v.padded) refl

-- The buffer that holds the frames of a list of messages, in order.
abbrev pub wire : List MotorMessage → List ℕ
wire [] = []
wire (m ∷ ms) = encode_frame (bus_frame m) 76 ++ wire ms

receive-frame :
    (channels fuel consumed : ℕ) (bytes : List ℕ) (frame : Frame)
    → decode_frame bytes ≡ some (consumed, frame)
    → receive channels (suc fuel) bytes
      ≡ deliver channels frame ++ receive channels fuel (drop consumed bytes)
unfolding receive
receive-frame channels fuel consumed bytes frame h = rw (receive, h) refl

receive-nil : (channels fuel : ℕ) → receive channels fuel [] ≡ []
unfolding receive decode_frame
receive-nil channels zero = refl
receive-nil channels (suc fuel) = refl

receive-wire :
    (channels fuel : ℕ) (ms : List MotorMessage)
    → channels ≤ 256
    → All (IsCanMessage channels) ms
    → length (wire ms) ≤ fuel
    → receive channels fuel (wire ms) ≡ ms
receive-wire channels fuel [] h vs f = receive-nil channels fuel
receive-wire channels fuel (m ∷ ms) h (v, vs) f =
    let frame = bus_frame m in
    let wf = frame_of-IsWireFrame echo_bus_frame channels m (omega arith) v in
    let size = encode_frame-length frame wf in
    let total = length-append (encode_frame frame 76) (wire ms) in
    let bound = frame_size-le frame.flags in
    let decoded = decode_frame-encode_frame frame (wire ms) wf in
    let rest = receive-wire channels (fuel - 1) ms h vs (omega arith) in
    let behind : drop (frame_size frame.flags) (encode_frame frame 76 ++ wire ms) ≡ wire ms =
      ap (λ (n : ℕ). drop n (encode_frame frame 76 ++ wire ms)) (sym size)
      ∙ drop-length_append (encode_frame frame 76) (wire ms) in
    ap (λ (n : ℕ). receive channels n (encode_frame frame 76 ++ wire ms)) (omega arith)
    ∙ receive-frame channels (fuel - 1) (frame_size frame.flags) (encode_frame frame 76 ++ wire ms)
        (on_wire frame) decoded
    ∙ rw (deliver-bus_frame channels m h v, behind, rest) refl

-- A buffer in which the device reports CAN messages of the adapter's channels, each in the frame
-- that `WriteFrame` builds for it but for the echo identifier, is received as those messages,
-- unchanged and in order.
pub receive_buffer-wire :
    (channels : ℕ) (messages : List MotorMessage)
    → channels ≤ 256
    → All (IsCanMessage channels) messages
    → receive_buffer channels (wire messages) ≡ messages
unfolding receive_buffer
receive_buffer-wire channels messages h vs =
    receive-wire channels (length (wire messages)) messages h vs (omega arith)
