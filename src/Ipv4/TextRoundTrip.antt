-- ===== src/Ipv4/TextRoundTrip.antt =====
-- The texts that `ParseIPv4` accepts are those that `FormatIPv4` makes.
use encos_driver.Prelude.{
  ℕ, zero, suc, ◌<◌, ◌≡◌, ◌↔◌, refl, sym, ap, ap₂, ◌∙◌, subst, arith, true, false, Bool-cases, ◌==◌,
  ltb, inl, inr, List, [], ◌∷◌, ◌++◌, length, All, Option, none, some,
}
use encos_driver.Ipv4.Text.{
  format_ipv4, parse_ipv4, parse_part, parse_parts, parse_part-to_decimal, parse_last, parse_next,
  put_part, split_at, to_decimal, to_decimal-parse_part,
}

some_inj : (xs ys : List ℕ) → some xs ≡ some ys → xs ≡ ys
some_inj xs ys h = cc

some-none : (xs : List ℕ) → ¬ (some xs ≡ none)
some-none xs h = absurd cc

abbrev Free : ℕ → List ℕ → Type 0
Free c = All (λ x. (x == c) ≡ false)

split_at-Free : (c : ℕ) (p rest : List ℕ) → Free c p → split_at c (p ++ c ∷ rest) ≡ (p, some rest)
unfolding split_at
split_at-Free c [] rest h = let same : (c == c) ≡ true = ground arith in rw same refl
split_at-Free c (x ∷ xs) rest h = rw (h.0, split_at-Free c xs rest h.1) refl

split_at-whole : (c : ℕ) (p : List ℕ) → Free c p → split_at c p ≡ (p, none)
unfolding split_at
split_at-whole c [] h = refl
split_at-whole c (x ∷ xs) h = rw (h.0, split_at-whole c xs h.1) refl

split_at-some :
    (c : ℕ) (text rest : List ℕ)
    → (split_at c text).1 ≡ some rest
    → text ≡ (split_at c text).0 ++ c ∷ rest
unfolding split_at
split_at-some c [] rest h = absurd cc
split_at-some c (x ∷ xs) rest h = elim (Bool-cases (x == c)) [
  | inl yes_ ↦
      let same : x ≡ c = ground arith in
      let tail : xs ≡ rest = some_inj xs rest (rw yes_ at h) in
      rw yes_ (ap₂ (λ (a : ℕ) (l : List ℕ). a ∷ l) same tail)
  | inr no_ ↦ rw no_ (ap (λ l. x ∷ l) (split_at-some c xs rest (rw no_ at h)))
]

split_at-none : (c : ℕ) (text : List ℕ) → (split_at c text).1 ≡ none → (split_at c text).0 ≡ text
unfolding split_at
split_at-none c [] h = refl
split_at-none c (x ∷ xs) h = elim (Bool-cases (x == c)) [
  | inl yes_ ↦ absurd (some-none xs (rw yes_ at h))
  | inr no_ ↦ rw no_ (ap (λ l. x ∷ l) (split_at-none c xs (rw no_ at h)))
]

to_decimal-Free : (n : ℕ) → Free b'.' (to_decimal n)
unfolding to_decimal
to_decimal-Free n = elim (Bool-cases (ltb n 10)) [
  | inl one ↦ rw one (ground arith, tt)
  | inr more ↦ elim (Bool-cases (ltb n 100)) [
    | inl two ↦ rw (more, two) (ground arith, (ground arith, tt))
    | inr three ↦ rw (more, three) (ground arith, (ground arith, (ground arith, tt)))
  ]
]

parse_parts-format_ipv4 :
    (n : ℕ) (bytes : List ℕ)
    → length bytes ≡ suc n
    → All (λ b. b < 256) bytes
    → parse_parts n (format_ipv4 bytes) ≡ some bytes
unfolding parse_parts format_ipv4
parse_parts-format_ipv4 n [] e h = absurd (omega arith)
parse_parts-format_ipv4 zero (b ∷ []) e h =
    ap parse_last (split_at-whole b'.' (to_decimal b) (to_decimal-Free b))
    ∙ ap (λ o. put_part o (some [])) (parse_part-to_decimal b h.0)
parse_parts-format_ipv4 (suc n) (b ∷ []) e h = absurd (omega arith)
parse_parts-format_ipv4 zero (b ∷ c ∷ bs) e h = absurd (omega arith)
parse_parts-format_ipv4 (suc n) (b ∷ c ∷ bs) e h =
    ap (parse_next (parse_parts n))
      (split_at-Free b'.' (to_decimal b) (format_ipv4 (c ∷ bs)) (to_decimal-Free b))
    ∙ ap₂ put_part (parse_part-to_decimal b h.0)
        (parse_parts-format_ipv4 n (c ∷ bs) (omega arith) h.1)

-- What `put_part` was given when it gives something.
record Put (o : Option ℕ) (p : Option (List ℕ)) (bytes : List ℕ) : Type 0 where
  first : ℕ
  others : List ℕ
  first_is : o ≡ some first
  others_are : p ≡ some others
  whole : bytes ≡ first ∷ others

put_part-Put :
    (o : Option ℕ) (p : Option (List ℕ)) (bytes : List ℕ)
    → put_part o p ≡ some bytes
    → Put o p bytes
put_part-Put none p bytes h = absurd cc
put_part-Put (some b) none bytes h = absurd cc
put_part-Put (some b) (some bs) bytes h = record {
  first = b;
  others = bs;
  first_is = refl;
  others_are = refl;
  whole = cc;
}

parse_part-bound : (part : List ℕ) (n : ℕ) → parse_part part ≡ some n → n < 256
unfolding parse_part
parse_part-bound part n h = ground arith

-- A list of bytes, one more than `n`, whose text is the given one.
record Formats (n : ℕ) (bytes text : List ℕ) : Type 0 where
  as_many : length bytes ≡ suc n
  are_bytes : All (λ b. b < 256) bytes
  text_is : format_ipv4 bytes ≡ text

Formats-last :
    (part : List ℕ) (o : Option (List ℕ)) (bytes text : List ℕ)
    → (o ≡ none → part ≡ text)
    → parse_last (part, o) ≡ some bytes
    → Formats 0 bytes text
unfolding format_ipv4
Formats-last part (some rest) bytes text k h = absurd cc
Formats-last part none bytes text k h =
    let p = put_part-Put (parse_part part) (some []) bytes h in
    let alone : bytes ≡ p.first ∷ [] =
      p.whole ∙ ap (λ l. p.first ∷ l) (sym (some_inj [] p.others p.others_are)) in
    subst (λ l. Formats 0 l text) (sym alone)
      (record {
        as_many = refl;
        are_bytes = (parse_part-bound part p.first p.first_is, tt);
        text_is = to_decimal-parse_part part p.first p.first_is ∙ k refl;
      })

Formats-cons :
    (n b : ℕ) (bytes part rest : List ℕ)
    → parse_part part ≡ some b
    → Formats n bytes rest
    → Formats (suc n) (b ∷ bytes) (part ++ b'.' ∷ rest)
unfolding format_ipv4
Formats-cons n b [] part rest e f = absurd (omega (arith, f.as_many))
Formats-cons n b (c ∷ bs) part rest e f = record {
  as_many = omega (arith, f.as_many);
  are_bytes = (parse_part-bound part b e, f.are_bytes);
  text_is = ap₂ (λ (p q : List ℕ). p ++ b'.' ∷ q) (to_decimal-parse_part part b e) f.text_is;
}

Formats-next :
    (n : ℕ) (part : List ℕ) (o : Option (List ℕ)) (bytes text : List ℕ)
    → ((rest bs : List ℕ) → parse_parts n rest ≡ some bs → Formats n bs rest)
    → ((rest : List ℕ) → o ≡ some rest → text ≡ part ++ b'.' ∷ rest)
    → parse_next (parse_parts n) (part, o) ≡ some bytes
    → Formats (suc n) bytes text
Formats-next n part none bytes text ih k h = absurd cc
Formats-next n part (some rest) bytes text ih k h =
    let p = put_part-Put (parse_part part) (parse_parts n rest) bytes h in
    let made =
      Formats-cons n p.first p.others part rest p.first_is (ih rest p.others p.others_are) in
    subst (λ l. Formats (suc n) l text) (sym p.whole)
      (subst (λ t. Formats (suc n) (p.first ∷ p.others) t) (sym (k rest refl)) made)

parse_parts-Formats :
    (n : ℕ) (text bytes : List ℕ) → parse_parts n text ≡ some bytes → Formats n bytes text
unfolding parse_parts
parse_parts-Formats zero text bytes h =
    Formats-last (split_at b'.' text).0 (split_at b'.' text).1 bytes text (split_at-none b'.' text)
      h
parse_parts-Formats (suc n) text bytes h =
    Formats-next n (split_at b'.' text).0 (split_at b'.' text).1 bytes text (parse_parts-Formats n)
      (split_at-some b'.' text) h

-- A text is accepted with some bytes exactly if they are four bytes and the text is the one that
-- `FormatIPv4` makes of them: no leading zeros, blanks, signs or further characters.
pub parse_ipv4-format_ipv4 :
    (text bytes : List ℕ)
    → (parse_ipv4 text ≡ some bytes)
      ↔ ((length bytes ≡ 4) × All (λ b. b < 256) bytes × (format_ipv4 bytes ≡ text))
unfolding parse_ipv4
parse_ipv4-format_ipv4 text bytes = (
  λ h. let f = parse_parts-Formats 3 text bytes h in (f.as_many, f.are_bytes, f.text_is),
  λ f. ap (parse_parts 3) (sym f.2) ∙ parse_parts-format_ipv4 3 bytes f.0 f.1,
)
