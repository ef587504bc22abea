-- ===== src/Ipv4/Checksum.antt =====
-- The one's-complement checksum of plugins/adapter/ethernet/protocol/ipv4.cc.
use native.Mathlib.Decide.{dec_lt}
use encos_driver.Prelude.{
  ℕ, zero, suc, ◌+◌, ◌-◌, ◌*◌, ◌/◌, ◌%◌, ◌^◌, ◌≤◌, ◌<◌, ◌≡◌, refl, bit_and, shr, u32, List, [], ◌∷◌,
  length, All, arith, bit_and-mask, bit_or-shl, ◌∙◌, ◌⊎◌, inl, inr,
}
use encos_driver.Ipv4.{read16, sum, finish_loop, finish}

abbrev pub AreBytes : List ℕ → Type 0
AreBytes = All (λ b. b < 256)

pub read16_lem : (a b : ℕ) (p : List ℕ) → b < 256 → read16 (a ∷ b ∷ p) ≡ a * 256 + b
unfolding read16
read16_lem a b p h = omega (arith, bit_or-shl 8 a b h)

-- The sum of the 16-bit words, without wrap-around.
abbrev pub word_sum : List ℕ → ℕ
word_sum [] = 0
word_sum (a ∷ []) = a * 256
word_sum (a ∷ b ∷ p) = a * 256 + b + word_sum p

pub word_sum-le : (p : List ℕ) → AreBytes p → word_sum p ≤ 65535 * length p
word_sum-le [] h = omega arith
word_sum-le (a ∷ []) (h, hs) = omega arith
word_sum-le (a ∷ b ∷ p) (h, (g, hs)) = omega (arith, word_sum-le p hs)

pub sum-word_sum :
    (p : List ℕ) (acc : ℕ) → AreBytes p → acc + word_sum p < 2 ^ 32 → sum p acc ≡ acc + word_sum p
unfolding sum
sum-word_sum [] acc h l = omega arith
sum-word_sum (a ∷ []) acc h l = omega arith
sum-word_sum (a ∷ b ∷ p) acc (h, (g, hs)) l =
    let step : u32 (acc + read16 (a ∷ b ∷ [])) ≡ acc + (a * 256 + b) =
      omega (arith, read16_lem a b [] g) in
    rw step (omega (arith, sum-word_sum p (acc + (a * 256 + b)) hs (omega arith)))

-- One round of the loop of `Finish`.
fold : ℕ → ℕ
fold s = bit_and s 0xFFFF + shr s 16

-- What `Finish` makes of a sum: the complement of a word that is congruent to it.
pub record Folded (fuel s : ℕ) : Type 0 where
  pub word : ℕ
  pub small : word < 65536
  pub same : word % 65535 ≡ s % 65535
  pub positive : 0 < s → 0 < word
  pub result : finish_loop fuel s ≡ 65535 - word

fold_lem : (s : ℕ) → fold s ≡ s % 65536 + s / 65536
unfolding fold
fold_lem s = omega (arith, bit_and-mask 16 s)

finish_loop-done : (fuel s : ℕ) → s < 65536 → finish_loop fuel s ≡ 65535 - s
unfolding finish_loop
finish_loop-done zero s h = omega arith
finish_loop-done (suc fuel) s h = ground arith

finish_loop-step : (fuel s : ℕ) → 65536 ≤ s → finish_loop (suc fuel) s ≡ finish_loop fuel (fold s)
unfolding finish_loop fold
finish_loop-step fuel s h = ground arith

small-Folded : (fuel s : ℕ) → s < 65536 → Folded fuel s
small-Folded fuel s h = record {
  word = s;
  small = h;
  same = refl;
  positive = λ p. p;
  result = finish_loop-done fuel s h;
}

step-Folded : (fuel s : ℕ) → 65536 ≤ s → Folded fuel (fold s) → Folded (suc fuel) s
step-Folded fuel s h f = record {
  word = f.word;
  small = f.small;
  same = omega (arith, f.same, fold_lem s);
  positive = λ p. f.positive (omega (arith, fold_lem s));
  result = finish_loop-step fuel s h ∙ f.result;
}

pub finish-Folded : (s : ℕ) → s < 2 ^ 32 → Folded 3 s
finish-Folded s h = elim (dec_lt s 65536) [
  | yes small ↦ small-Folded 3 s small
  | no big ↦ step-Folded 2 s (omega arith) (elim (dec_lt (fold s) 65536) [
    | yes small ↦ small-Folded 2 (fold s) small
    | no big_ ↦
        step-Folded 1 (fold s) (omega arith)
          (small-Folded 1 (fold (fold s)) (omega (arith, fold_lem s, fold_lem (fold s))))
  ])
]

-- A sum to which its own checksum is added has the checksum zero.
pub finish-zero :
    (s c : ℕ)
    → 0 < s
    → s + 65535 < 2 ^ 32
    → (c ≡ finish s) ⊎ ((finish s ≡ 0) × (c ≡ 65535))
    → finish (s + c) ≡ 0
unfolding finish
finish-zero s c p h e =
    let f = finish-Folded s (omega arith) in
    let at_most : c ≤ 65535 = elim e [
      | inl q ↦ omega (arith, f.result)
      | inr (z, q) ↦ omega arith
    ] in
    let whole : (s + c) % 65535 ≡ 0 = elim e [
      | inl q ↦ omega (arith, f.result, f.same, f.small)
      | inr (z, q) ↦ omega (arith, f.result, f.same, f.small, f.positive p)
    ] in
    let g = finish-Folded (s + c) (omega arith) in
    omega (arith, g.result, g.same, g.small, g.positive (omega arith), whole)
