-- ===== src/Motor/Status/Life.antt =====
-- How long a status is returned after the feedback that stored it.
use native.Mathlib.Decide.{dec_lt, ℕ_discrete}
use encos_driver.Prelude.{
  ℕ, ◌+◌, ◌-◌, ◌<◌, ◌≤◌, ◌≡◌, refl, sym, ◌∙◌, lt→ltb, ap, subst, Bool-cases, not, ◌&&◌, leb, inl,
  inr, zero, suc, arith, true, false, ◌==◌, ◌||◌, ltb, if◌then◌else◌, List, [], ◌∷◌, Option, none,
  some,
}
use encos_driver.Motor.Floats.{FloatOps}
use encos_driver.Motor.Feedback.{Feedback1}
use encos_driver.Motor.Status.{
  ℤ, pos, negsuc, StatusState, amount, deduct, expire, get_status, get_status_of, int_max, is_max,
  is_positive, spend_life,
}

-- What a sequence of calls deducts together.
abbrev pub total : List ℤ → ℕ
total [] = 0
total (d ∷ ds) = amount d + total ds

is_positive-amount : (d : ℤ) → is_positive d ≡ ltb 0 (amount d)
is_positive-amount (pos zero) = refl
is_positive-amount (pos (suc n)) = ground arith
is_positive-amount (negsuc n) = refl

amount-deduct : (life : ℤ) (n : ℕ) → amount (deduct life n) ≡ amount life - n
unfolding deduct
amount-deduct (pos m) n = elim (Bool-cases (leb m n)) [
  | inl yes_ ↦ rw yes_ (ground arith)
  | inr no_ ↦ rw no_ refl
]
amount-deduct (negsuc m) n = omega arith

pub is_positive-deduct : (life : ℤ) (n : ℕ) → is_positive (deduct life n) ≡ ltb n (amount life)
is_positive-deduct life n =
    rw (is_positive-amount (deduct life n), amount-deduct life n) (ground arith)

is_max-deduct : (life : ℤ) (n : ℕ) → amount life < int_max → is_max (deduct life n) ≡ false
unfolding deduct
is_max-deduct (pos m) n h = elim (Bool-cases (leb m n)) [
  | inl yes_ ↦ rw yes_ refl
  | inr no_ ↦ rw no_ (ground arith)
]
is_max-deduct (negsuc m) n h = refl

module _ (f : FloatOps) where
  -- The state after a sequence of `GetStatus` calls.
  abbrev pub get_all : List ℤ → StatusState f → StatusState f
  get_all [] s = s
  get_all (d ∷ ds) s = get_all ds (get_status f d s).1

  -- A status is stored, and the life cycle left is `n`, not the unlimited one.
  record Lives (fb : Feedback1 f) (n : ℕ) (s : StatusState f) : Type 0 where
    stored : s.status ≡ some fb
    left : amount s.status_life_cycle ≡ n
    limited : n < int_max

  get_status-status :
      (d : ℤ) (o : Option (Feedback1 f)) (s : StatusState f) → (get_status_of f o d s).0 ≡ o
  unfolding get_status_of
  get_status-status d none s = refl
  get_status-status d (some fb) s = refl

  get_status-stored : (d : ℤ) (s : StatusState f) → (get_status f d s).0 ≡ s.status
  unfolding get_status
  get_status-stored d s = get_status-status d s.status s

  -- With nothing stored, a call changes nothing.
  get_status-none : (d : ℤ) (s : StatusState f) → s.status ≡ none → (get_status f d s).1 ≡ s
  unfolding get_status get_status_of
  get_status-none d s e = ap (λ o. (get_status_of f o d s).1) e

  get_all-none : (ds : List ℤ) (s : StatusState f) → s.status ≡ none → (get_all ds s).status ≡ none
  get_all-none [] s e = e
  get_all-none (d ∷ ds) s e =
      subst (λ t. (get_all ds t).status ≡ none) (sym (get_status-none d s e)) (get_all-none ds s e)

  -- The state after a call that finds a status.
  abbrev pub after_some : ℤ → StatusState f → StatusState f
  after_some d s =
      if not (is_max s.status_life_cycle) && is_positive d
      then spend_life f (deduct s.status_life_cycle (amount d)) s
      else s

  pub get_status-after :
      {fb : Feedback1 f} (d : ℤ) (s : StatusState f)
      → s.status ≡ some fb
      → (get_status f d s).1 ≡ after_some d s
  unfolding get_status get_status_of
  get_status-after d s e = ap (λ o. (get_status_of f o d s).1) e

  is_max-left : (life : ℤ) → amount life < int_max → is_max life ≡ false
  is_max-left (pos n) h = ground arith
  is_max-left (negsuc n) h = refl

  after_some-idle : (d : ℤ) (s : StatusState f) → amount d ≡ 0 → after_some d s ≡ s
  after_some-idle d s e = elim (Bool-cases (is_max s.status_life_cycle)) [
    | inl yes_ ↦ rw yes_ refl
    | inr no_ ↦ rw (no_, is_positive-amount d, e) refl
  ]

  module _ {fb : Feedback1 f} {n : ℕ} (d : ℤ) (s : StatusState f) (h : Lives fb n s) where
    after_some-spend :
        0 < amount d → after_some d s ≡ spend_life f (deduct s.status_life_cycle (amount d)) s
    after_some-spend p =
        rw
          (
            is_max-left s.status_life_cycle (omega (arith, h.left, h.limited)),
            is_positive-amount d,
            lt→ltb 0 (amount d) p,
          )
          refl

    spend-Lives :
        amount d < n
        → Lives fb (n - amount d) (spend_life f (deduct s.status_life_cycle (amount d)) s)
    unfolding spend_life
    spend-Lives l =
        let still : is_positive (deduct s.status_life_cycle (amount d)) ≡ true =
          is_positive-deduct s.status_life_cycle (amount d) ∙ rw h.left (lt→ltb (amount d) n l) in
        rw still (record {
          stored = h.stored;
          left = amount-deduct s.status_life_cycle (amount d) ∙ rw h.left refl;
          limited = omega (arith, h.limited);
        })

    spend_expired :
        n ≤ amount d → (spend_life f (deduct s.status_life_cycle (amount d)) s).status ≡ none
    unfolding spend_life expire
    spend_expired l =
        let ended : is_positive (deduct s.status_life_cycle (amount d)) ≡ false =
          is_positive-deduct s.status_life_cycle (amount d) ∙ rw h.left (ground arith) in
        rw ended refl

  get_all-Lives :
      {fb : Feedback1 f} (n : ℕ) (ds : List ℤ) (s : StatusState f)
      → Lives fb n s
      → (get_all ds s).status ≡ (if total ds == 0 || ltb (total ds) n then some fb else none)
  get_all-Lives n [] s h = h.stored
  get_all-Lives {fb} n (d ∷ ds) s h =
      let after = get_status-after d s h.stored in
      let spent = spend_life f (deduct s.status_life_cycle (amount d)) s in
      elim (ℕ_discrete (amount d) 0) [
        | yes idle ↦
            ap (λ t. (get_all ds t).status) (after ∙ after_some-idle d s idle)
            ∙ get_all-Lives n ds s h
            ∙ ap (λ b. if b then some fb else none) (ground arith)
        | no spends ↦
            ap (λ t. (get_all ds t).status) (after ∙ after_some-spend d s h (omega arith))
            ∙ elim (dec_lt (amount d) n) [
              | yes l ↦
                  get_all-Lives (n - amount d) ds spent (spend-Lives d s h l)
                  ∙ ap (λ b. if b then some fb else none) (ground arith)
              | no l ↦
                  get_all-none ds spent (spend_expired d s h (omega arith))
                  ∙ ap (λ b. if b then some fb else none) {x = false} (ground arith)
            ]
      ]

  -- A stored status with a life cycle of `n`, below the unlimited `INT_MAX`, is what `GetStatus`
  -- returns as long as the earlier calls have deducted nothing, or together less than `n`; from
  -- then on it returns nothing. Deductions that are not positive count for nothing.
  pub get_status-lifetime :
      (fb : Feedback1 f) (s : StatusState f) (ds : List ℤ) (d : ℤ)
      → s.status ≡ some fb
      → amount s.status_life_cycle < int_max
      → (get_status f d (get_all ds s)).0
        ≡ (if total ds == 0 || ltb (total ds) (amount s.status_life_cycle) then some fb else none)
  get_status-lifetime fb s ds d stored limited =
      get_status-stored d (get_all ds s)
      ∙ get_all-Lives (amount s.status_life_cycle) ds s
          (record { stored = stored; left = refl; limited = limited })

  -- A status with the unlimited life cycle `INT_MAX` is returned by every call, whatever is deducted.
  get_status-unlimited :
      (fb : Feedback1 f) (s : StatusState f) (ds : List ℤ) (d : ℤ)
      → s.status ≡ some fb
      → is_max s.status_life_cycle ≡ true
      → (get_status f d (get_all ds s)).0 ≡ some fb
  get_status-unlimited fb s [] d stored unlimited = get_status-stored d s ∙ stored
  get_status-unlimited fb s (e ∷ ds) d stored unlimited =
      rw (get_status-after e s stored, unlimited) (get_status-unlimited fb s ds d stored unlimited)
