-- ===== src/Motor/Status/Expiry.antt =====
-- What an expiry forgets, and what it does not.
use encos_driver.Prelude.{
  ℕ, ◌≤◌, ◌≡◌, refl, ap, ◌∙◌, arith, true, false, Bool-cases, ltb, inl, inr, [], ◌∷◌, some,
}
use encos_driver.Motor.Floats.{FloatOps}
use encos_driver.Motor.Feedback.{Feedback1}
use encos_driver.Motor.Status.{
  ℤ, StatusState, amount, deduct, exceeds, expire, filter_status_value, get_status, is_max,
  is_positive, median_enabled, median_status_value, push_sample, insert_value, sort, limit_enabled,
  spend_life, store_status,
}
use encos_driver.Motor.Status.Life.{after_some, get_status-after, is_positive-deduct}

module _ (f : FloatOps) where
  open f use {Float, is_finite, nan}

  exceeds-fresh : (v last d : Float) → is_finite last ≡ false → exceeds f v last d ≡ false
  unfolding exceeds
  exceeds-fresh v last d h = elim (Bool-cases (limit_enabled f d)) [
    | inl yes_ ↦ rw (yes_, h) refl
    | inr no_ ↦ rw no_ refl
  ]

  push_sample-nil : (v : Float) (w : ℕ) → median_enabled w ≡ true → push_sample f v [] w ≡ v ∷ []
  unfolding push_sample median_enabled
  push_sample-nil v w h = let room : ltb w 1 ≡ false = ground arith in rw room refl

  median_one : (v : Float) → median_status_value f (v ∷ []) ≡ v
  unfolding median_status_value sort insert_value
  median_one v = refl

  -- With nothing left of what came before, the filter takes any value as it is.
  filter_fresh :
      (v d : Float) (w : ℕ) → is_finite nan ≡ false → (filter_status_value f v nan [] d w).value ≡ v
  unfolding filter_status_value
  filter_fresh v d w h = elim (Bool-cases (is_finite v)) [
    | inr infinite ↦ rw infinite refl
    | inl finite ↦ elim (Bool-cases (median_enabled w)) [
      | inl median ↦
          rw (finite, exceeds-fresh v nan d h, median, push_sample-nil v w median) (median_one v)
      | inr single ↦ rw (finite, exceeds-fresh v nan d h, single) refl
    ]
  ]

  abbrev pub stored_speed : Feedback1 f → StatusState f → Float
  stored_speed decoded s =
      (filter_status_value f decoded.speed s.last_accepted.speed s.samples.speed s.max_deltas.speed
        s.window_size).value

  store_status-expire :
      (decoded : Feedback1 f) (s : StatusState f)
      → is_finite nan ≡ false
      → (store_status f decoded (expire f s)).status
        ≡ some (record decoded { speed = stored_speed decoded s })
  unfolding store_status expire
  store_status-expire decoded s h =
      rw
        (
          filter_fresh decoded.position s.max_deltas.position s.window_size h,
          filter_fresh decoded.current s.max_deltas.current s.window_size h,
          filter_fresh decoded.motor_temperature s.max_deltas.motor_temperature s.window_size h,
          filter_fresh decoded.mos_temperature s.max_deltas.mos_temperature s.window_size h,
        )
        refl

  after_some-expire :
      (d : ℤ) (s : StatusState f)
      → is_max s.status_life_cycle ≡ false
      → is_positive d ≡ true
      → amount s.status_life_cycle ≤ amount d
      → after_some f d s
        ≡ expire f (record s { status_life_cycle = deduct s.status_life_cycle (amount d) })
  unfolding spend_life
  after_some-expire d s limited positive ended =
      let spent : is_positive (deduct s.status_life_cycle (amount d)) ≡ false =
        is_positive-deduct s.status_life_cycle (amount d) ∙ ground arith in
      rw (limited, positive, spent) refl

  -- After the call that ends a status's life cycle, the next feedback is stored with its position,
  -- current and temperatures as they are decoded, whatever came before; but its speed is still
  -- filtered against the samples and the last value from before the expiry.
  pub store_status-after_expiry :
      {fb : Feedback1 f} (d : ℤ) (s : StatusState f) (decoded : Feedback1 f)
      → is_finite nan ≡ false
      → s.status ≡ some fb
      → is_max s.status_life_cycle ≡ false
      → is_positive d ≡ true
      → amount s.status_life_cycle ≤ amount d
      → (store_status f decoded (get_status f d s).1).status
        ≡ some (record decoded { speed = stored_speed decoded s })
  store_status-after_expiry d s decoded h stored limited positive ended =
      ap (λ t. (store_status f decoded t).status)
        (get_status-after f d s stored ∙ after_some-expire d s limited positive ended)
      ∙ store_status-expire decoded
          (record s { status_life_cycle = deduct s.status_life_cycle (amount d) }) h
