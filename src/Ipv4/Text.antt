-- ===== src/Ipv4/Text.antt =====
-- IPv4 addresses as texts: `ParseIPv4` and `FormatIPv4` of ipv4.cc. A character is its byte; an
-- exception is `none`.
use encos_driver.Prelude.{
  ℕ, zero, suc, ◌+◌, ◌-◌, ◌*◌, ◌/◌, ◌%◌, ◌≤◌, ◌<◌, ◌≡◌, refl, ap, ap₂, arith, Bool, true, false,
  Bool-cases, not, ◌==◌, ◌&&◌, ◌||◌, leb, ltb, if◌then◌else◌, inl, inr, List, [], ◌∷◌, ◌++◌, length,
  get_or, Option, none, some,
}

-- The text before the first `c`, and what follows it, if it is there.
unfoldable pub split_at : ℕ → List ℕ → List ℕ × Option (List ℕ)
split_at c [] = ([], none)
split_at c (x ∷ xs) =
    let rest = split_at c xs in if x == c then ([], some xs) else (x ∷ rest.0, rest.1)

abbrev pub is_decimal : ℕ → Bool
is_decimal c = leb b'0' c && leb c b'9'

abbrev pub all_decimal : List ℕ → Bool
all_decimal [] = true
all_decimal (c ∷ cs) = is_decimal c && all_decimal cs

-- `std::stoul` of digits.
abbrev pub decimal_value : ℕ → List ℕ → ℕ
decimal_value n [] = n
decimal_value n (c ∷ cs) = decimal_value (n * 10 + (c - b'0')) cs

-- The tests of a part, apart from its end.
unfoldable pub parse_part : List ℕ → Option ℕ
parse_part part =
    if length part == 0
      || ltb 3 (length part)
      || not (all_decimal part)
      || (ltb 1 (length part) && get_or part 0 0 == b'0')
    then none
    else if ltb 255 (decimal_value 0 part)
    then none
    else some (decimal_value 0 part)

abbrev pub put_part : Option ℕ → Option (List ℕ) → Option (List ℕ)
put_part none bytes = none
put_part (some b) none = none
put_part (some b) (some bytes) = some (b ∷ bytes)

-- The last part ends the text, the others do not.
abbrev pub parse_last : List ℕ × Option (List ℕ) → Option (List ℕ)
parse_last (part, none) = put_part (parse_part part) (some [])
parse_last (part, some rest) = none

abbrev pub parse_next : (List ℕ → Option (List ℕ)) → List ℕ × Option (List ℕ) → Option (List ℕ)
parse_next parse_rest (part, none) = none
parse_next parse_rest (part, some rest) = put_part (parse_part part) (parse_rest rest)

-- The parts from the one with `n` parts after it on.
unfoldable pub parse_parts : ℕ → List ℕ → Option (List ℕ)
parse_parts zero text = parse_last (split_at b'.' text)
parse_parts (suc n) text = parse_next (parse_parts n) (split_at b'.' text)

unfoldable pub parse_ipv4 : List ℕ → Option (List ℕ)
parse_ipv4 text = parse_parts 3 text

-- `std::to_string` of a byte.
unfoldable pub to_decimal : ℕ → List ℕ
to_decimal n =
    if ltb n 10
    then (b'0' + n) ∷ []
    else if ltb n 100
    then (b'0' + n / 10) ∷ (b'0' + n % 10) ∷ []
    else (b'0' + n / 100) ∷ (b'0' + n / 10 % 10) ∷ (b'0' + n % 10) ∷ []

unfoldable pub format_ipv4 : List ℕ → List ℕ
format_ipv4 [] = []
format_ipv4 (b ∷ bs) =
    let rest = format_ipv4 bs in elim bs [ [] ↦ to_decimal b | _ ∷ _ ↦ to_decimal b ++ b'.' ∷ rest ]

pub parse_part-to_decimal : (n : ℕ) → n < 256 → parse_part (to_decimal n) ≡ some n
unfolding parse_part to_decimal
parse_part-to_decimal n h = elim (Bool-cases (ltb n 10)) [
  | inl one ↦ rw one (ground arith)
  | inr more ↦ elim (Bool-cases (ltb n 100)) [
    | inl two ↦ rw (more, two) (ground arith)
    | inr three ↦ rw (more, three) (ground arith)
  ]
]

pub to_decimal-parse_part : (part : List ℕ) (n : ℕ) → parse_part part ≡ some n → to_decimal n ≡ part
unfolding parse_part to_decimal
to_decimal-parse_part [] n h = absurd (ground arith)
to_decimal-parse_part (a ∷ []) n h =
    let value : n ≡ a - b'0' = ground arith in
    let low : b'0' ≤ a = ground arith in
    let high : a ≤ b'9' = ground arith in
    let one : ltb n 10 ≡ true = ground arith in rw one (ap (λ (t : ℕ). t ∷ []) (omega arith))
to_decimal-parse_part (a ∷ b ∷ []) n h =
    let value : n ≡ (a - b'0') * 10 + (b - b'0') = ground arith in
    let low : b'0' < a = ground arith in
    let high : a ≤ b'9' = ground arith in
    let low2 : b'0' ≤ b = ground arith in
    let high2 : b ≤ b'9' = ground arith in
    let one : ltb n 10 ≡ false = ground arith in
    let two : ltb n 100 ≡ true = ground arith in
    rw (one, two) (ap₂ (λ (t u : ℕ). t ∷ u ∷ []) (omega arith) (omega arith))
to_decimal-parse_part (a ∷ b ∷ c ∷ []) n h =
    let value : n ≡ ((a - b'0') * 10 + (b - b'0')) * 10 + (c - b'0') = ground arith in
    let low : b'0' < a = ground arith in
    let high : a ≤ b'9' = ground arith in
    let low2 : b'0' ≤ b = ground arith in
    let high2 : b ≤ b'9' = ground arith in
    let low3 : b'0' ≤ c = ground arith in
    let high3 : c ≤ b'9' = ground arith in
    let one : ltb n 10 ≡ false = ground arith in
    let two : ltb n 100 ≡ false = ground arith in
    let first : b'0' + n / 100 ≡ a = omega arith in
    let second : b'0' + n / 10 % 10 ≡ b = omega arith in
    let third : b'0' + n % 10 ≡ c = omega arith in rw (one, two, first, second, third) refl
to_decimal-parse_part (a ∷ b ∷ c ∷ d ∷ cs) n h = absurd (ground arith)
