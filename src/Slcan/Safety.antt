-- ===== src/Slcan/Safety.antt =====
-- What holds of the adapter whatever bytes arrive.
use encos_driver.Prelude.{
  ℕ, zero, suc, ◌+◌, ◌*◌, ◌^◌, ◌≤◌, ◌<◌, ◌≡◌, refl, ap, subst, arith, Bool, true, false, Bool-cases,
  ◌==◌, ◌||◌, ltb, if◌then◌else◌, inl, inr, List, [], ◌∷◌, ◌++◌, length, length-append, length-drop,
  take, drop, get_or, Option, none, some, All, u8, bit_or,
}
use encos_driver.Frame.{MotorMessage, flag_eff, flag_rtr, no_payload, sanitize, sanitize-eq}
use encos_driver.Slcan.{
  LineBuffer, add_parsed, buffer_size, id_width, in_range, join, line_message, parse_data,
  parse_fields, parse_line, parse_lines, read_bytes, receive_byte, receive_bytes, receive_lines,
  sign_value, signed_value, skip_spaces, skip_prefix, starts_digit, digits_value, stoi,
}

in_range-bound : (negative : Bool) (v n : ℕ) → in_range negative v ≡ some n → n < 2 ^ 32
in_range-bound true v n h = ground arith
in_range-bound false v n h = ground arith

signed_value-bound :
    (negative : Bool) (cs : List ℕ) (n : ℕ) → signed_value negative cs ≡ some n → n < 2 ^ 32
unfolding signed_value
signed_value-bound negative cs n h = elim (Bool-cases (starts_digit (skip_prefix cs))) [
  | inl yes_ ↦ in_range-bound negative (digits_value 0 (skip_prefix cs)) n (rw yes_ at h)
  | inr no_ ↦ absurd (ground arith)
]

sign_value-bound : (cs : List ℕ) (n : ℕ) → sign_value cs ≡ some n → n < 2 ^ 32
sign_value-bound [] n h = absurd cc
sign_value-bound (c ∷ cs) n h = ground (
  arith,
  signed_value-bound true cs n,
  signed_value-bound false cs n,
  signed_value-bound false (c ∷ cs) n,
)

stoi-bound : (text : List ℕ) (n : ℕ) → stoi text ≡ some n → n < 2 ^ 32
unfolding stoi
stoi-bound text n h = sign_value-bound (skip_spaces text) n h

record AreBytes (n : ℕ) (bytes : List ℕ) : Type 0 where
  as_many : length bytes ≡ n
  are_bytes : All (λ b. b < 256) bytes

join-AreBytes :
    (n : ℕ) (o : Option ℕ) (p : Option (List ℕ)) (bytes : List ℕ)
    → ((rest : List ℕ) → p ≡ some rest → AreBytes n rest)
    → join o p ≡ some bytes
    → AreBytes (suc n) bytes
join-AreBytes n none p bytes k h = absurd cc
join-AreBytes n (some b) none bytes k h = absurd cc
join-AreBytes n (some b) (some rest) bytes k h =
    let e : u8 b ∷ rest ≡ bytes = cc in
    subst (AreBytes (suc n)) e (record {
      as_many = ap suc (k rest refl).as_many;
      are_bytes = (omega arith, (k rest refl).are_bytes);
    })

read_bytes-AreBytes :
    (n : ℕ) (text bytes : List ℕ) → read_bytes n text ≡ some bytes → AreBytes n bytes
unfolding read_bytes
read_bytes-AreBytes zero text bytes h =
    let e : [] ≡ bytes = cc in subst (AreBytes 0) e (record { as_many = refl; are_bytes = tt })
read_bytes-AreBytes (suc n) text bytes h =
    join-AreBytes n (stoi (take 2 text)) (read_bytes n (drop 2 text)) bytes
      (λ rest e. read_bytes-AreBytes n (drop 2 text) rest e) h

-- The fields are within the widths of their types. The id of a message in the standard format may
-- have more than 11 bits, since `std::stoi` takes a sign.
pub record IsBounded (m : MotorMessage) : Type 0 where
  pub on_bus : m.bus_idx ≡ 0
  pub id_fits : m.pack.id < 2 ^ 32
  pub flags_fit : m.pack.frame_flags < 16
  pub len_fits : m.pack.len ≤ 8
  pub whole_payload : length m.pack.payload ≡ 8
  pub payload_bytes : All (λ b. b < 256) m.pack.payload

All-append : (P : ℕ → Type 0) (xs ys : List ℕ) → All P xs → All P ys → All P (xs ++ ys)
All-append P [] ys hx hy = hy
All-append P (x ∷ xs) ys hx hy = (hx.0, All-append P xs ys hx.1 hy)

All-drop : (P : ℕ → Type 0) (n : ℕ) (xs : List ℕ) → All P xs → All P (drop n xs)
All-drop P zero xs a = a
All-drop P (suc n) [] a = a
All-drop P (suc n) (x ∷ xs) a = All-drop P n xs a.1

zeros : All (λ b. b < 256) no_payload
zeros = ground arith

zeros_left : (n : ℕ) → n ≤ 8 → All (λ b. b < 256) (drop n no_payload)
zeros_left n h = All-drop (λ b. b < 256) n no_payload zeros

line_message-IsBounded :
    (extended rtr : Bool) (id len n : ℕ) (o : Option (List ℕ)) (m : MotorMessage)
    → id < 2 ^ 32
    → len ≤ 8
    → n ≤ 8
    → ((bytes : List ℕ) → o ≡ some bytes → AreBytes n bytes)
    → line_message extended rtr id len o ≡ some m
    → IsBounded m
line_message-IsBounded extended rtr id len n none m hi hl hn k h = absurd cc
line_message-IsBounded extended rtr id len n (some bytes) m hi hl hn k h =
    let flags = bit_or (if extended then flag_eff else 0) (if rtr then flag_rtr else 0) in
    let b = k bytes refl in
    let made : MotorMessage = record {
      bus_idx = 0;
      pack = record {
        id = id;
        frame_flags = sanitize flags;
        len = len;
        payload = bytes ++ drop (length bytes) no_payload;
      };
    } in
    let e : made ≡ m = cc in
    subst IsBounded e (record {
      on_bus = refl;
      id_fits = hi;
      flags_fit = omega (arith, sanitize-eq flags);
      len_fits = hl;
      whole_payload = omega (
        arith,
        b.as_many,
        length-append bytes (drop (length bytes) no_payload),
        length-drop (length bytes) no_payload,
      );
      payload_bytes =
          All-append (λ b. b < 256) bytes (drop (length bytes) no_payload) b.are_bytes
            (zeros_left (length bytes) (omega (arith, b.as_many)));
    })

parse_data-IsBounded :
    (extended rtr : Bool) (text : List ℕ) (o p : Option ℕ) (m : MotorMessage)
    → ((id : ℕ) → o ≡ some id → id < 2 ^ 32)
    → parse_data extended rtr text o p ≡ some m
    → IsBounded m
unfolding parse_data
parse_data-IsBounded extended rtr text none p m k h = absurd cc
parse_data-IsBounded extended rtr text (some id) none m k h = absurd cc
parse_data-IsBounded extended rtr text (some id) (some size) m k h =
    let len = if ltb 8 size then 8 else size in
    let len_small : len ≤ 8 = ground arith in
    let data_len = if rtr then 0 else len in
    let data_small : data_len ≤ 8 = ground arith in
    elim (Bool-cases (ltb (length text) (data_len * 2))) [
      | inl short ↦ absurd (ground arith)
      | inr long ↦
          line_message-IsBounded extended rtr id len data_len (read_bytes data_len text) m
            (k id refl) len_small data_small (read_bytes-AreBytes data_len text) (rw long at h)
    ]

parse_fields-IsBounded :
    (extended rtr : Bool) (line : List ℕ) (m : MotorMessage)
    → parse_fields extended rtr line ≡ some m
    → IsBounded m
unfolding parse_fields
parse_fields-IsBounded extended rtr line m h =
    let start = 1 + id_width extended + 1 in
    let id_text = take (id_width extended) (drop 1 line) in
    elim (Bool-cases (ltb (length line) start)) [
      | inl short ↦ absurd (ground arith)
      | inr long ↦
          parse_data-IsBounded extended rtr (drop start line) (stoi id_text)
            (stoi (take 1 (drop (1 + id_width extended) line))) m (stoi-bound id_text)
            (rw long at h)
    ]

parse_line-IsBounded : (line : List ℕ) (m : MotorMessage) → parse_line line ≡ some m → IsBounded m
unfolding parse_line
parse_line-IsBounded line m h =
    let kind = get_or line 0 0 in
    elim (Bool-cases (kind == b't' || kind == b'r' || kind == b'T' || kind == b'R')) [
      | inl yes_ ↦
          parse_fields-IsBounded (kind == b'T' || kind == b'R') (kind == b'r' || kind == b'R') line
            m (rw yes_ at h)
      | inr no_ ↦ absurd (ground arith)
    ]

add_parsed-All :
    (o : Option MotorMessage) (ms : List MotorMessage)
    → ((m : MotorMessage) → o ≡ some m → IsBounded m)
    → All IsBounded ms
    → All IsBounded (add_parsed o ms)
add_parsed-All none ms k a = a
add_parsed-All (some m) ms k a = (k m refl, a)

parse_lines-All : (lines : List (List ℕ)) → All IsBounded (parse_lines lines)
unfolding parse_lines
parse_lines-All [] = tt
parse_lines-All (l ∷ ls) =
    add_parsed-All (parse_line l) (parse_lines ls) (parse_line-IsBounded l) (parse_lines-All ls)

receive_byte-bounded :
    (b : ℕ) (s : LineBuffer)
    → length s.buffer ≤ buffer_size
    → length (receive_byte b s).1.buffer ≤ buffer_size
unfolding receive_byte
receive_byte-bounded b s h = ground (arith, length-append s.buffer (b ∷ []))

receive_lines-bounded :
    (bytes : List ℕ) (s : LineBuffer)
    → length s.buffer ≤ buffer_size
    → length (receive_lines bytes s).1.buffer ≤ buffer_size
unfolding receive_lines
receive_lines-bounded [] s h = h
receive_lines-bounded (b ∷ bs) s h =
    receive_lines-bounded bs (receive_byte b s).1 (receive_byte-bounded b s h)

-- Whatever bytes arrive in a buffer within its 1024 bytes: the buffer stays within them, and every
-- message delivered is on bus 0, with an id of 32 bits, flags of 4 bits, a length of at most 8 and
-- a payload of 8 bytes.
pub receive_bytes-safe :
    (bytes : List ℕ) (s : LineBuffer)
    → length s.buffer ≤ buffer_size
    → (length (receive_bytes bytes s).1.buffer ≤ buffer_size)
      × All IsBounded (receive_bytes bytes s).0
unfolding receive_bytes
receive_bytes-safe bytes s h =
    (receive_lines-bounded bytes s h, parse_lines-All (receive_lines bytes s).0)
