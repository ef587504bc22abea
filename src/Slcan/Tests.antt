-- ===== src/Slcan/Tests.antt =====
-- The serial line theorems at concrete inputs.
use encos_driver.Prelude.{ℕ, ◌≤◌, ◌≡◌, refl, arith, true, List, [], ◌∷◌, ◌++◌, length, All, some}
use encos_driver.Frame.{
  MotorPackMsg, have_valid_fd_bits, sanitize, use_canfd, use_extended_id, use_rtr,
}
use encos_driver.Slcan.{
  buffer_size, byte_texts, command_text, digits_value, has_prefix, hex_digit, hex_text, no_line,
  parse_data, parse_fields, parse_line, parse_lines, read_bytes, receive_bytes, send_text,
  signed_value, skip_prefix, skip_spaces, stoi,
}
use encos_driver.Slcan.Lines.{ended_lines, short_lines, receive_bytes-lines, receive_bytes-append}
use encos_driver.Slcan.Safety.{IsBounded, receive_bytes-safe}
use encos_driver.Slcan.RoundTrip.{delivered, send_text-receive}

abbrev extended_message : MotorPackMsg
extended_message = record {
  id = 0x1ABCDEF0;
  frame_flags = 1;
  len = 2;
  payload = 0xA5 ∷ 0x0F ∷ 7 ∷ 7 ∷ 7 ∷ 7 ∷ 7 ∷ 7 ∷ [];
}

abbrev command : List ℕ
command =
    b'T' ∷ b'1' ∷ b'a' ∷ b'b' ∷ b'c' ∷ b'd' ∷ b'e' ∷ b'f' ∷ b'0' ∷ b'2' ∷ b'a' ∷ b'5' ∷ b'0' ∷ b'f'
    ∷ b'\r' ∷ []

send_text_test : send_text true extended_message ≡ some command
unfolding send_text command_text hex_text hex_digit byte_texts sanitize have_valid_fd_bits use_canfd
    use_extended_id use_rtr
send_text_test = refl

-- The characters of a remote frame, and of a line that is no frame.
abbrev remote_line : List ℕ
remote_line = b'r' ∷ b'1' ∷ b'2' ∷ b'3' ∷ b'8' ∷ b'\r' ∷ []

abbrev version_line : List ℕ
version_line = b'V' ∷ b'1' ∷ b'\n' ∷ []

send_text-receive_example : receive_bytes (command ++ remote_line) no_line ≡ (
  delivered extended_message ∷ (receive_bytes remote_line no_line).0,
  (receive_bytes remote_line no_line).1,
)
send_text-receive_example =
    send_text-receive true extended_message command remote_line send_text_test (omega arith) (
      omega arith,
      (
        omega arith,
        (
          omega arith,
          (omega arith, (omega arith, (omega arith, (omega arith, (omega arith, tt))))),
        ),
      ),
    )

receive_bytes-lines_example :
    (receive_bytes (version_line ++ command) no_line).0
    ≡ parse_lines (short_lines (ended_lines [] (version_line ++ command)))
receive_bytes-lines_example = receive_bytes-lines (version_line ++ command)

receive_bytes-append_example : receive_bytes (remote_line ++ command) no_line ≡ (
  (receive_bytes remote_line no_line).0
      ++ (receive_bytes command (receive_bytes remote_line no_line).1).0,
  (receive_bytes command (receive_bytes remote_line no_line).1).1,
)
receive_bytes-append_example = receive_bytes-append remote_line command no_line

receive_bytes-safe_example :
    (length (receive_bytes (version_line ++ command) no_line).1.buffer ≤ buffer_size)
    × All IsBounded (receive_bytes (version_line ++ command) no_line).0
receive_bytes-safe_example = receive_bytes-safe (version_line ++ command) no_line (omega arith)

-- A minus sign is read as part of an id, which no standard frame can have.
abbrev negative_line : List ℕ
negative_line = b't' ∷ b'-' ∷ b'0' ∷ b'1' ∷ b'0' ∷ []

negative_id :
    parse_line negative_line
    ≡ some (record {
      bus_idx = 0;
      pack = record {
        id = 0xFFFFFFFF;
        frame_flags = 0;
        len = 0;
        payload = 0 ∷ 0 ∷ 0 ∷ 0 ∷ 0 ∷ 0 ∷ 0 ∷ 0 ∷ [];
      };
    })
unfolding parse_line parse_fields parse_data stoi skip_spaces signed_value skip_prefix has_prefix
    digits_value read_bytes sanitize
negative_id = refl
