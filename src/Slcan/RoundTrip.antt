-- ===== src/Slcan/RoundTrip.antt =====
-- What one adapter sends, another receives.
use encos_driver.Prelude.{
  ℕ, zero, suc, ◌*◌, ◌^◌, ◌≤◌, ◌<◌, ◌≡◌, refl, ap, ap₂, ◌∙◌, arith, Bool, true, false,
  if◌then◌else◌, List, [], ◌∷◌, ◌++◌, append_assoc, length, length-append, drop, get_or, some, All,
  u8, bit_or,
}
use encos_driver.Frame.{
  MotorPackMsg, MotorMessage, sanitize, flag_eff, flag_rtr, use_extended_id, use_rtr, use_canfd,
  have_valid_fd_bits, sanitize-eq,
}
use encos_driver.Slcan.{
  no_line, buffer_size, byte_texts, carriage_return, command_text, command_type, hex_text, id_width,
  max_id, parse_data, parse_line, parse_lines, receive_bytes, send_text,
}
use encos_driver.Slcan.Numbers.{
  hex_digit-plain, hex_text-IsHex, IsHex, length-hex_text, stoi-hex_text,
}
use encos_driver.Slcan.Lines.{is_end, receive_lines-line}
use encos_driver.Slcan.Texts.{
  length-byte_texts, parse_fields-parts, parse_line-kind, payload_sent, parse_data-texts,
  flags_kept,
}

-- What `Send` has tested when it writes.
record Sendable (msg : MotorPackMsg) : Type 0 where
  valid : have_valid_fd_bits (sanitize msg.frame_flags) ≡ true
  classic : use_canfd (sanitize msg.frame_flags) ≡ false
  short : msg.len ≤ 8
  small : msg.id ≤ max_id (use_extended_id (sanitize msg.frame_flags))

send_text-Sendable :
    (ok : Bool) (msg : MotorPackMsg) (text : List ℕ) → send_text ok msg ≡ some text → Sendable msg
unfolding send_text
send_text-Sendable ok msg text e = record {
  valid = ground arith;
  classic = ground arith;
  short = ground arith;
  small = ground arith;
}

send_text-text :
    (ok : Bool) (msg : MotorPackMsg) (text : List ℕ)
    → send_text ok msg ≡ some text
    → text
      ≡ command_text
          (use_extended_id (sanitize msg.frame_flags))
          (use_rtr (sanitize msg.frame_flags))
          msg
        ++ carriage_return ∷ []
unfolding send_text
send_text-text ok msg text e = ground arith

id_fits : (extended : Bool) (id : ℕ) → id ≤ max_id extended → id < 16 ^ id_width extended
id_fits true id h = omega arith
id_fits false id h = omega arith

id_small : (extended : Bool) (id : ℕ) → id ≤ max_id extended → id < 2 ^ 31
id_small true id h = omega arith
id_small false id h = omega arith

id_width-positive : (extended : Bool) → 0 < id_width extended
id_width-positive true = omega arith
id_width-positive false = omega arith

parse_line-command :
    (extended rtr : Bool) (msg : MotorPackMsg)
    → msg.len ≤ 8
    → msg.id ≤ max_id extended
    → msg.len ≤ length msg.payload
    → All (λ b. b < 256) msg.payload
    → parse_line (command_text extended rtr msg)
      ≡ some (record {
        bus_idx = 0;
        pack = record {
          id = msg.id;
          frame_flags =
              sanitize (bit_or (if extended then flag_eff else 0) (if rtr then flag_rtr else 0));
          len = msg.len;
          payload = payload_sent rtr msg;
        };
      })
unfolding command_text
parse_line-command extended rtr msg h i p a =
    let id_text = hex_text (id_width extended) msg.id in
    let len_text = hex_text 1 msg.len in
    let data_text = if rtr then [] else byte_texts msg.len msg.payload in
    let k = command_type extended rtr in
    ap (λ t. parse_line (k ∷ t)) (append_assoc id_text len_text data_text)
    ∙ parse_line-kind extended rtr (id_text ++ (len_text ++ data_text))
    ∙ parse_fields-parts extended rtr k id_text len_text data_text
        (length-hex_text (id_width extended) msg.id) (length-hex_text 1 msg.len)
    ∙ ap₂ (parse_data extended rtr data_text)
        (stoi-hex_text (id_width extended) msg.id (id_width-positive extended)
          (id_fits extended msg.id i) (id_small extended msg.id i))
        (stoi-hex_text 1 msg.len (omega arith) (omega arith) (omega arith))
    ∙ parse_data-texts extended rtr msg h p a

abbrev Plain : List ℕ → Type 0
Plain = All (λ b. is_end b ≡ false)

Plain-append : (xs ys : List ℕ) → Plain xs → Plain ys → Plain (xs ++ ys)
Plain-append [] ys hx hy = hy
Plain-append (x ∷ xs) ys hx hy = (hx.0, Plain-append xs ys hx.1 hy)

IsHex-Plain : (xs : List ℕ) → All IsHex xs → Plain xs
IsHex-Plain [] h = tt
IsHex-Plain (x ∷ xs) h =
    (ap is_end h.0.is_char ∙ (hex_digit-plain h.0.digit h.0.digit_small).4, IsHex-Plain xs h.1)

Plain-byte_texts : (n : ℕ) (p : List ℕ) → Plain (byte_texts n p)
unfolding byte_texts
Plain-byte_texts zero p = tt
Plain-byte_texts (suc n) p =
    let text = hex_text 2 (u8 (get_or p 0 0)) in
    Plain-append text (byte_texts n (drop 1 p))
      (IsHex-Plain text (hex_text-IsHex 2 (u8 (get_or p 0 0)))) (Plain-byte_texts n (drop 1 p))

Plain-data : (rtr : Bool) (n : ℕ) (p : List ℕ) → Plain (if rtr then [] else byte_texts n p)
Plain-data true n p = tt
Plain-data false n p = Plain-byte_texts n p

Plain-type : (extended rtr : Bool) → is_end (command_type extended rtr) ≡ false
Plain-type true true = refl
Plain-type true false = refl
Plain-type false true = refl
Plain-type false false = refl

Plain-command_text :
    (extended rtr : Bool) (msg : MotorPackMsg) → Plain (command_text extended rtr msg)
unfolding command_text
Plain-command_text extended rtr msg =
    let id_text = hex_text (id_width extended) msg.id in
    let len_text = hex_text 1 msg.len in
    (
      Plain-type extended rtr,
      Plain-append (id_text ++ len_text) (if rtr then [] else byte_texts msg.len msg.payload)
          (Plain-append id_text len_text
            (IsHex-Plain id_text (hex_text-IsHex (id_width extended) msg.id))
            (IsHex-Plain len_text (hex_text-IsHex 1 msg.len)))
          (Plain-data rtr msg.len msg.payload),
    )

length-data :
    (rtr : Bool) (n : ℕ) (p : List ℕ) → length (if rtr then [] else byte_texts n p) ≤ n * 2
length-data true n p = omega arith
length-data false n p = omega (arith, length-byte_texts n p)

id_width-bound : (extended : Bool) → id_width extended ≤ 8
id_width-bound true = omega arith
id_width-bound false = omega arith

length-command_text :
    (extended rtr : Bool) (msg : MotorPackMsg)
    → msg.len ≤ 8
    → length (command_text extended rtr msg) ≤ buffer_size
unfolding command_text
length-command_text extended rtr msg h =
    let id_text = hex_text (id_width extended) msg.id in
    let len_text = hex_text 1 msg.len in
    omega (
      arith,
      length-append (id_text ++ len_text) (if rtr then [] else byte_texts msg.len msg.payload),
      length-append id_text len_text,
      length-hex_text (id_width extended) msg.id,
      length-hex_text 1 msg.len,
      length-data rtr msg.len msg.payload,
      id_width-bound extended,
    )

-- The message as the other end delivers it: on bus 0, with its flags sanitised, the payload past
-- its length zero, and no payload in a remote frame.
abbrev pub delivered : MotorPackMsg → MotorMessage
delivered msg = record {
  bus_idx = 0;
  pack = record {
    id = msg.id;
    frame_flags = sanitize msg.frame_flags;
    len = msg.len;
    payload = payload_sent (use_rtr (sanitize msg.frame_flags)) msg;
  };
}

parse_line-delivered :
    (msg : MotorPackMsg)
    → Sendable msg
    → msg.len ≤ length msg.payload
    → All (λ b. b < 256) msg.payload
    → parse_line (
        command_text
          (use_extended_id (sanitize msg.frame_flags))
          (use_rtr (sanitize msg.frame_flags))
          msg)
      ≡ some (delivered msg)
parse_line-delivered msg v p a =
    let flags = sanitize msg.frame_flags in
    parse_line-command (use_extended_id flags) (use_rtr flags) msg v.short v.small p a
    ∙ ap
        (λ (t : ℕ). some (record {
          bus_idx = 0;
          pack = record {
            id = msg.id;
            frame_flags = t;
            len = msg.len;
            payload = payload_sent (use_rtr flags) msg;
          };
        }))
        (flags_kept flags (omega (arith, sanitize-eq msg.frame_flags)) v.valid v.classic)

-- The bytes that `Send` writes for a message, followed by any bytes, are received from an empty
-- buffer as that message and then as what follows would be received alone.
pub send_text-receive :
    (ok : Bool) (msg : MotorPackMsg) (text rest : List ℕ)
    → send_text ok msg ≡ some text
    → msg.len ≤ length msg.payload
    → All (λ b. b < 256) msg.payload
    → receive_bytes (text ++ rest) no_line
      ≡ (delivered msg ∷ (receive_bytes rest no_line).0, (receive_bytes rest no_line).1)
unfolding receive_bytes parse_lines
send_text-receive ok msg text rest sent p a =
    let v = send_text-Sendable ok msg text sent in
    let extended = use_extended_id (sanitize msg.frame_flags) in
    let rtr = use_rtr (sanitize msg.frame_flags) in
    let line = command_text extended rtr msg in
    let received =
      receive_lines-line line rest (Plain-command_text extended rtr msg)
        (length-command_text extended rtr msg v.short) in
    let whole : text ++ rest ≡ line ++ carriage_return ∷ rest =
      ap (λ t. t ++ rest) (send_text-text ok msg text sent)
      ∙ append_assoc line (carriage_return ∷ []) rest in
    rw (whole, received, parse_line-delivered msg v p a) refl
