-- ===== src/Slcan.antt =====
-- The serial line CAN adapter: plugins/adapter/slcan/slcan_adapter.cc. A character is its byte.
use encos_driver.Prelude.{
  ℕ, zero, suc, ◌+◌, ◌-◌, ◌*◌, ◌/◌, ◌%◌, ◌^◌, bit_or, u8, u32, Bool, true, false, ◌==◌, ◌&&◌, ◌||◌,
  ltb, leb, not, if◌then◌else◌, List, [], ◌∷◌, ◌++◌, length, take, drop, get_or, set, Option, none,
  some,
}
use encos_driver.Frame.{
  MotorPackMsg, MotorMessage, flag_eff, flag_rtr, have_valid_fd_bits, no_payload, sanitize,
  use_canfd, use_extended_id, use_rtr,
}
pub mod Numbers
pub mod Lines
pub mod Safety
pub mod Texts
pub mod RoundTrip
mod Tests

abbrev pub carriage_return : ℕ
carriage_return = b'\r'

abbrev pub newline : ℕ
newline = b'\n'

-- What `std::hex` prints for a digit.
unfoldable pub hex_digit : ℕ → ℕ
hex_digit d = if ltb d 10 then b'0' + d else b'a' + (d - 10)

-- `std::setw(width) << std::hex << n`, filled with `0`, for a number of at most `width` digits; the
-- tests of `Send` leave no other.
unfoldable pub hex_text : ℕ → ℕ → List ℕ
hex_text zero n = []
hex_text (suc width) n = hex_text width (n / 16) ++ hex_digit (n % 16) ∷ []

-- The first `n` bytes of the payload.
unfoldable pub byte_texts : ℕ → List ℕ → List ℕ
byte_texts zero payload = []
byte_texts (suc n) payload = hex_text 2 (u8 (get_or payload 0 0)) ++ byte_texts n (drop 1 payload)

abbrev pub command_type : Bool → Bool → ℕ
command_type extended rtr =
    if extended then (if rtr then b'R' else b'T') else (if rtr then b'r' else b't')

abbrev pub id_width : Bool → ℕ
id_width extended = if extended then 8 else 3

abbrev pub max_id : Bool → ℕ
max_id extended = if extended then 0x1FFFFFFF else 0x7FF

-- The command without the carriage return that ends it.
unfoldable pub command_text : Bool → Bool → MotorPackMsg → List ℕ
command_text extended rtr msg =
    command_type extended rtr
    ∷ (hex_text (id_width extended) msg.id
        ++ hex_text 1 msg.len
        ++ (if rtr then [] else byte_texts msg.len msg.payload))

-- `Send`: the bytes that it writes to the serial port, if it writes any; `ok` is what `Ok` says.
unfoldable pub send_text : Bool → MotorPackMsg → Option (List ℕ)
send_text ok msg =
    let flags = sanitize msg.frame_flags in
    if not ok
    then none
    else if not (have_valid_fd_bits flags)
    then none
    else if use_canfd flags
    then none
    else if ltb 8 msg.len
    then none
    else if ltb (max_id (use_extended_id flags)) msg.id
    then none
    else some (command_text (use_extended_id flags) (use_rtr flags) msg ++ carriage_return ∷ [])

-- `read_buffer_` with `read_buf_size_`, and `discarding_line_`.
pub record LineBuffer : Type 0 where
  pub buffer : List ℕ
  pub discarding : Bool

abbrev pub buffer_size : ℕ
buffer_size = 1024

abbrev pub no_line : LineBuffer
no_line = record { buffer = []; discarding = false }

-- One round of `ReceiveBytes`: the line that it hands to `ReceiveLine`, if any.
unfoldable pub receive_byte : ℕ → LineBuffer → Option (List ℕ) × LineBuffer
receive_byte byte s =
    if byte == carriage_return || byte == newline
    then (if s.discarding then none else some s.buffer, no_line)
    else if s.discarding
    then (none, s)
    else if length s.buffer == buffer_size
    then (none, record { buffer = []; discarding = true })
    else (none, record s { buffer = s.buffer ++ byte ∷ [] })

abbrev pub add_line : Option (List ℕ) → List (List ℕ) → List (List ℕ)
add_line none lines = lines
add_line (some line) lines = line ∷ lines

unfoldable pub receive_lines : List ℕ → LineBuffer → List (List ℕ) × LineBuffer
receive_lines [] s = ([], s)
receive_lines (byte ∷ bytes) s =
    let round = receive_byte byte s in
    let rest = receive_lines bytes round.1 in (add_line round.0 rest.0, rest.1)

-- `std::stoi(text, nullptr, 16)`: white space, a sign and a prefix are skipped, and the longest
-- sequence of digits is read. It throws without a digit and beyond the range of an `int`.
abbrev pub is_space : ℕ → Bool
is_space c = c == 32 || (leb 9 c && leb c 13)

abbrev pub digit_value : ℕ → Option ℕ
digit_value c =
    if leb b'0' c && leb c b'9'
    then some (c - b'0')
    else if leb b'a' c && leb c b'f'
    then some (c - b'a' + 10)
    else if leb b'A' c && leb c b'F'
    then some (c - b'A' + 10)
    else none

unfoldable pub skip_spaces : List ℕ → List ℕ
skip_spaces [] = []
skip_spaces (c ∷ cs) = let rest = skip_spaces cs in if is_space c then rest else c ∷ cs

-- The value of the digits that follow, after those that make `n`.
unfoldable pub digits_value : ℕ → List ℕ → ℕ
digits_value n [] = n
digits_value n (c ∷ cs) = elim (digit_value c) [ none ↦ n | some d ↦ digits_value (n * 16 + d) cs ]

abbrev pub is_digit : Option ℕ → Bool
is_digit none = false
is_digit (some d) = true

abbrev pub starts_digit : List ℕ → Bool
starts_digit [] = false
starts_digit (c ∷ cs) = is_digit (digit_value c)

-- `0x`, which is skipped only before a digit.
unfoldable pub has_prefix : List ℕ → Bool
has_prefix cs =
    get_or cs 0 0 == b'0'
    && (get_or cs 1 0 == b'x' || get_or cs 1 0 == b'X')
    && starts_digit (drop 2 cs)

unfoldable pub skip_prefix : List ℕ → List ℕ
skip_prefix cs = if has_prefix cs then drop 2 cs else cs

-- The `int` as the 32 bits of its two's complement.
abbrev pub in_range : Bool → ℕ → Option ℕ
in_range negative n =
    if negative
    then if ltb (2 ^ 31) n then none else some (u32 (2 ^ 32 - n))
    else if ltb (2 ^ 31 - 1) n
    then none
    else some n

unfoldable pub signed_value : Bool → List ℕ → Option ℕ
signed_value negative cs =
    if starts_digit (skip_prefix cs)
    then in_range negative (digits_value 0 (skip_prefix cs))
    else none

abbrev pub sign_value : List ℕ → Option ℕ
sign_value [] = none
sign_value (c ∷ cs) =
    if c == b'-'
    then signed_value true cs
    else if c == b'+'
    then signed_value false cs
    else signed_value false (c ∷ cs)

unfoldable pub stoi : List ℕ → Option ℕ
stoi text = sign_value (skip_spaces text)

-- The bytes of a line's data, two characters each; a text that is no number ends the line's parse.
abbrev pub join : Option ℕ → Option (List ℕ) → Option (List ℕ)
join none bytes = none
join (some b) none = none
join (some b) (some bytes) = some (u8 b ∷ bytes)

unfoldable pub read_bytes : ℕ → List ℕ → Option (List ℕ)
read_bytes zero text = some []
read_bytes (suc n) text = join (stoi (take 2 text)) (read_bytes n (drop 2 text))

abbrev pub line_message : Bool → Bool → ℕ → ℕ → Option (List ℕ) → Option MotorMessage
line_message extended rtr id len none = none
line_message extended rtr id len (some bytes) = some (record {
  bus_idx = 0;
  pack = record {
    id = id;
    frame_flags =
        sanitize (bit_or (if extended then flag_eff else 0) (if rtr then flag_rtr else 0));
    len = len;
    payload = bytes ++ drop (length bytes) no_payload;
  };
})

-- The rest of `ReceiveLine`, once the id and the length are read; a length is one character, so it
-- has no sign.
unfoldable pub parse_data : Bool → Bool → List ℕ → Option ℕ → Option ℕ → Option MotorMessage
parse_data extended rtr text none size = none
parse_data extended rtr text (some id) none = none
parse_data extended rtr text (some id) (some size) =
    let len = if ltb 8 size then 8 else size in
    let data_len = if rtr then 0 else len in
    if ltb (length text) (data_len * 2)
    then none
    else line_message extended rtr id len (read_bytes data_len text)

unfoldable pub parse_fields : Bool → Bool → List ℕ → Option MotorMessage
parse_fields extended rtr line =
    let len_index = 1 + id_width extended in
    let data_start = len_index + 1 in
    if ltb (length line) data_start
    then none
    else parse_data extended rtr (drop data_start line)
        (stoi (take (id_width extended) (drop 1 line))) (stoi (take 1 (drop len_index line)))

-- `ReceiveLine`: the message that it delivers, if any.
unfoldable pub parse_line : List ℕ → Option MotorMessage
parse_line line =
    let kind = get_or line 0 0 in
    if kind == b't' || kind == b'r' || kind == b'T' || kind == b'R'
    then parse_fields (kind == b'T' || kind == b'R') (kind == b'r' || kind == b'R') line
    else none

abbrev pub add_parsed : Option MotorMessage → List MotorMessage → List MotorMessage
add_parsed none messages = messages
add_parsed (some message) messages = message ∷ messages

unfoldable pub parse_lines : List (List ℕ) → List MotorMessage
parse_lines [] = []
parse_lines (line ∷ lines) = add_parsed (parse_line line) (parse_lines lines)

-- `ReceiveBytes`: the messages delivered, and the buffer it leaves.
unfoldable pub receive_bytes : List ℕ → LineBuffer → List MotorMessage × LineBuffer
receive_bytes bytes s = let received = receive_lines bytes s in (parse_lines received.0, received.1)
