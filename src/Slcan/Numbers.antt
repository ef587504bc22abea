-- ===== src/Slcan/Numbers.antt =====
-- The numbers that `Send` writes are those that `std::stoi` reads.
use native.Mathlib.Nat.{pow-suc}
use encos_driver.Prelude.{
  ℕ, zero, suc, ◌+◌, ◌*◌, ◌/◌, ◌%◌, ◌^◌, ◌<◌, ◌≡◌, refl, ap, ◌∙◌, sym, arith, true, false, ◌==◌,
  ◌||◌, inl, inr, List, [], ◌∷◌, ◌++◌, length, length-append, Bool-cases, get_or, some, All,
}
use encos_driver.Slcan.{
  digit_value, digits_value, has_prefix, hex_digit, hex_text, in_range, is_digit, is_space,
  signed_value, skip_prefix, skip_spaces, starts_digit, stoi,
}

-- The characters that `hex_digit` makes.
pub record IsHex (c : ℕ) : Type 0 where
  pub digit : ℕ
  pub digit_small : digit < 16
  pub is_char : c ≡ hex_digit digit

hex_digit-value : (d : ℕ) → d < 16 → digit_value (hex_digit d) ≡ some d
unfolding hex_digit
hex_digit-value d h = ground arith

-- A digit is no white space, no sign, no `x` and no end of a line.
pub hex_digit-plain :
    (d : ℕ)
    → d < 16
    → (is_space (hex_digit d) ≡ false)
      × ((hex_digit d == b'-') ≡ false)
      × ((hex_digit d == b'+') ≡ false)
      × ((hex_digit d == b'x' || hex_digit d == b'X') ≡ false)
      × ((hex_digit d == 13 || hex_digit d == 10) ≡ false)
unfolding hex_digit
hex_digit-plain d h = ground arith

pub length-hex_text : (w n : ℕ) → length (hex_text w n) ≡ w
unfolding hex_text
length-hex_text zero n = refl
length-hex_text (suc w) n = omega (
  arith,
  length-append (hex_text w (n / 16)) (hex_digit (n % 16) ∷ []),
  length-hex_text w (n / 16),
)

All-append : (P : ℕ → Type 0) (xs ys : List ℕ) → All P xs → All P ys → All P (xs ++ ys)
All-append P [] ys hx hy = hy
All-append P (x ∷ xs) ys hx hy = (hx.0, All-append P xs ys hx.1 hy)

pub hex_text-IsHex : (w n : ℕ) → All IsHex (hex_text w n)
unfolding hex_text
hex_text-IsHex zero n = tt
hex_text-IsHex (suc w) n =
    All-append IsHex (hex_text w (n / 16)) (hex_digit (n % 16) ∷ []) (hex_text-IsHex w (n / 16))
      (record { digit = n % 16; digit_small = omega arith; is_char = refl }, tt)

IsHex-value : (c : ℕ) (h : IsHex c) → digit_value c ≡ some h.digit
IsHex-value c h = ap digit_value h.is_char ∙ hex_digit-value h.digit h.digit_small

digits_value-cons :
    (k c : ℕ) (cs : List ℕ) (d : ℕ)
    → digit_value c ≡ some d
    → digits_value k (c ∷ cs) ≡ digits_value (k * 16 + d) cs
unfolding digits_value
digits_value-cons k c cs d e = rw (e, digits_value) refl

digits_value-append :
    (k : ℕ) (xs : List ℕ) (d : ℕ)
    → d < 16
    → All IsHex xs
    → digits_value k (xs ++ hex_digit d ∷ []) ≡ digits_value k xs * 16 + d
unfolding digits_value
digits_value-append k [] d h a = digits_value-cons k (hex_digit d) [] d (hex_digit-value d h)
digits_value-append k (x ∷ xs) d h a =
    let v = IsHex-value x a.0 in
    digits_value-cons k x (xs ++ hex_digit d ∷ []) a.0.digit v
    ∙ digits_value-append (k * 16 + a.0.digit) xs d h a.1
    ∙ ap (λ t. t * 16 + d) (sym (digits_value-cons k x xs a.0.digit v))

digits_value-hex_text : (w n : ℕ) → n < 16 ^ w → digits_value 0 (hex_text w n) ≡ n
unfolding digits_value hex_text
digits_value-hex_text zero n h = omega arith
digits_value-hex_text (suc w) n h =
    digits_value-append 0 (hex_text w (n / 16)) (n % 16) (omega arith) (hex_text-IsHex w (n / 16))
    ∙ ap (λ t. t * 16 + n % 16) (digits_value-hex_text w (n / 16) (omega (arith, pow-suc 16 w)))
    ∙ omega arith

plain_second :
    (c : ℕ) (cs : List ℕ)
    → All IsHex cs
    → (get_or (c ∷ cs) 1 0 == b'x' || get_or (c ∷ cs) 1 0 == b'X') ≡ false
plain_second c [] a = refl
plain_second c (e ∷ es) a =
    ap (λ t. t == b'x' || t == b'X') a.0.is_char ∙ (hex_digit-plain a.0.digit a.0.digit_small).3

has_prefix-hex : (c : ℕ) (cs : List ℕ) → All IsHex cs → has_prefix (c ∷ cs) ≡ false
unfolding has_prefix
has_prefix-hex c cs a = elim (Bool-cases (c == b'0')) [
  | inl yes_ ↦ rw (yes_, plain_second c cs a) refl
  | inr no_ ↦ rw no_ refl
]

stoi-hex :
    (xs : List ℕ) → All IsHex xs → 0 < length xs → stoi xs ≡ in_range false (digits_value 0 xs)
unfolding stoi skip_spaces signed_value skip_prefix
stoi-hex [] a h = absurd (omega arith)
stoi-hex (c ∷ cs) a h =
    let plain = hex_digit-plain a.0.digit a.0.digit_small in
    let space : is_space c ≡ false = ap is_space a.0.is_char ∙ plain.0 in
    let minus : (c == b'-') ≡ false = ap (λ t. t == b'-') a.0.is_char ∙ plain.1 in
    let plus : (c == b'+') ≡ false = ap (λ t. t == b'+') a.0.is_char ∙ plain.2 in
    let starts : starts_digit (c ∷ cs) ≡ true = ap is_digit (IsHex-value c a.0) in
    rw (space, minus, plus, has_prefix-hex c cs a.1, starts) refl

-- `std::stoi` reads back what the hexadecimal output wrote, for a number that has no more digits
-- than the width and is an `int`.
pub stoi-hex_text : (w n : ℕ) → 0 < w → n < 16 ^ w → n < 2 ^ 31 → stoi (hex_text w n) ≡ some n
stoi-hex_text w n positive fits small =
    stoi-hex (hex_text w n) (hex_text-IsHex w n) (omega (arith, length-hex_text w n))
    ∙ ap (in_range false) (digits_value-hex_text w n fits)
    ∙ ground arith
