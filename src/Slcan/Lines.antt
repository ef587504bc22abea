-- ===== src/Slcan/Lines.antt =====
-- Which lines the adapter makes of the bytes it receives.
use encos_driver.Prelude.{
  ℕ, ◌≤◌, ◌≡◌, refl, ap, ◌∙◌, sym, arith, Bool, true, false, Bool-cases, ◌==◌, ◌||◌, leb,
  if◌then◌else◌, inl, inr, List, [], ◌∷◌, ◌++◌, append-nil, append_assoc, length, length-append,
  All, Option, none, some,
}
use encos_driver.Frame.{MotorMessage}
use encos_driver.Slcan.{
  LineBuffer, no_line, buffer_size, carriage_return, newline, add_line, add_parsed, parse_line,
  parse_lines, receive_byte, receive_lines, receive_bytes,
}

abbrev pub is_end : ℕ → Bool
is_end byte = byte == carriage_return || byte == newline

-- The reference: every terminated line, of any length, after the characters already read.
abbrev pub ended_lines : List ℕ → List ℕ → List (List ℕ)
ended_lines line [] = []
ended_lines line (b ∷ bs) =
    if is_end b then line ∷ ended_lines [] bs else ended_lines (line ++ b ∷ []) bs

-- The lines that the buffer can hold.
abbrev pub short_lines : List (List ℕ) → List (List ℕ)
short_lines [] = []
short_lines (l ∷ ls) = if leb (length l) buffer_size then l ∷ short_lines ls else short_lines ls

-- The state after the characters of an unfinished line.
abbrev held : List ℕ → LineBuffer
held line =
    if leb (length line) buffer_size
    then record { buffer = line; discarding = false }
    else record { buffer = []; discarding = true }

receive_byte-end :
    (b : ℕ) (line : List ℕ)
    → is_end b ≡ true
    → receive_byte b (held line)
      ≡ (if leb (length line) buffer_size then some line else none, no_line)
unfolding receive_byte
receive_byte-end b line e = elim (Bool-cases (leb (length line) buffer_size)) [
  | inl short ↦ rw (e, short) refl
  | inr long ↦ rw (e, long) refl
]

receive_byte-held :
    (b : ℕ) (line : List ℕ)
    → is_end b ≡ false
    → receive_byte b (held line) ≡ (none, held (line ++ b ∷ []))
unfolding receive_byte
receive_byte-held b line e =
    let grown = length-append line (b ∷ []) in
    elim (Bool-cases (leb (length line) buffer_size)) [
      | inr long ↦
          let longer : leb (length (line ++ b ∷ [])) buffer_size ≡ false = ground arith in
          rw (e, long, longer) refl
      | inl short ↦ elim (Bool-cases (length line == buffer_size)) [
        | inl full ↦
            let longer : leb (length (line ++ b ∷ [])) buffer_size ≡ false = ground arith in
            rw (e, short, full, longer) refl
        | inr room ↦
            let fits : leb (length (line ++ b ∷ [])) buffer_size ≡ true = ground arith in
            rw (e, short, room, fits) refl
      ]
    ]

add_line-short :
    (line : List ℕ) (lines : List (List ℕ))
    → add_line (if leb (length line) buffer_size then some line else none) (short_lines lines)
      ≡ short_lines (line ∷ lines)
add_line-short line lines = elim (Bool-cases (leb (length line) buffer_size)) [
  | inl short ↦ rw short refl
  | inr long ↦ rw long refl
]

receive_lines-held :
    (bytes line : List ℕ)
    → (receive_lines bytes (held line)).0 ≡ short_lines (ended_lines line bytes)
unfolding receive_lines
receive_lines-held [] line = refl
receive_lines-held (b ∷ bs) line = elim (Bool-cases (is_end b)) [
  | inl end_ ↦
      rw (receive_byte-end b line end_, end_)
        (ap (add_line (if leb (length line) buffer_size then some line else none))
            (receive_lines-held bs [])
          ∙ add_line-short line (ended_lines [] bs))
  | inr more ↦ rw (receive_byte-held b line more, more) (receive_lines-held bs (line ++ b ∷ []))
]

-- From a fresh buffer, whatever bytes arrive, the messages delivered are those of the terminated
-- lines of at most 1024 characters, in their order: a longer line is dropped whole, with no effect
-- on the lines after it.
pub receive_bytes-lines :
    (bytes : List ℕ)
    → (receive_bytes bytes no_line).0 ≡ parse_lines (short_lines (ended_lines [] bytes))
unfolding receive_bytes
receive_bytes-lines bytes = ap parse_lines (receive_lines-held bytes [])

receive_lines-text :
    (line body rest : List ℕ)
    → All (λ b. is_end b ≡ false) body
    → receive_lines (body ++ rest) (held line) ≡ receive_lines rest (held (line ++ body))
unfolding receive_lines
receive_lines-text line [] rest h = ap (λ l. receive_lines rest (held l)) (sym (append-nil line))
receive_lines-text line (b ∷ bs) rest h = rw (receive_byte-held b line h.0) (
    receive_lines-text (line ++ b ∷ []) bs rest h.1
    ∙ ap (λ l. receive_lines rest (held l)) (append_assoc line (b ∷ []) bs))

-- A line that fits, with its carriage return.
pub receive_lines-line :
    (body rest : List ℕ)
    → All (λ b. is_end b ≡ false) body
    → length body ≤ buffer_size
    → receive_lines (body ++ carriage_return ∷ rest) no_line
      ≡ (body ∷ (receive_lines rest no_line).0, (receive_lines rest no_line).1)
unfolding receive_lines
receive_lines-line body rest h short =
    let fits : leb (length body) buffer_size ≡ true = ground arith in
    let ended = receive_byte-end carriage_return body refl in
    receive_lines-text [] body (carriage_return ∷ rest) h ∙ rw (ended, fits) refl

add_line-append :
    (o : Option (List ℕ)) (xs ys : List (List ℕ)) → add_line o (xs ++ ys) ≡ add_line o xs ++ ys
add_line-append none xs ys = refl
add_line-append (some l) xs ys = refl

receive_lines-append :
    (xs ys : List ℕ) (s : LineBuffer)
    → receive_lines (xs ++ ys) s ≡ (
      (receive_lines xs s).0 ++ (receive_lines ys (receive_lines xs s).1).0,
      (receive_lines ys (receive_lines xs s).1).1,
    )
unfolding receive_lines
receive_lines-append [] ys s = refl
receive_lines-append (x ∷ xs) ys s =
    let round = receive_byte x s in
    rw (receive_lines-append xs ys round.1) (
      ap (λ l. (l, (receive_lines ys (receive_lines xs round.1).1).1))
        (add_line-append round.0 (receive_lines xs round.1).0
          (receive_lines ys (receive_lines xs round.1).1).0))

add_parsed-append :
    (o : Option MotorMessage) (xs ys : List MotorMessage)
    → add_parsed o (xs ++ ys) ≡ add_parsed o xs ++ ys
add_parsed-append none xs ys = refl
add_parsed-append (some m) xs ys = refl

parse_lines-append :
    (xs ys : List (List ℕ)) → parse_lines (xs ++ ys) ≡ parse_lines xs ++ parse_lines ys
unfolding parse_lines
parse_lines-append [] ys = refl
parse_lines-append (x ∷ xs) ys =
    rw (parse_lines-append xs ys)
      (add_parsed-append (parse_line x) (parse_lines xs) (parse_lines ys))

-- From any buffer, bytes that arrive in two pieces deliver the same messages and leave the same
-- buffer as when they arrive at once.
pub receive_bytes-append :
    (xs ys : List ℕ) (s : LineBuffer)
    → receive_bytes (xs ++ ys) s ≡ (
      (receive_bytes xs s).0 ++ (receive_bytes ys (receive_bytes xs s).1).0,
      (receive_bytes ys (receive_bytes xs s).1).1,
    )
unfolding receive_bytes
receive_bytes-append xs ys s =
    rw
      (
        receive_lines-append xs ys s,
        parse_lines-append (receive_lines xs s).0 (receive_lines ys (receive_lines xs s).1).0,
      )
      refl
