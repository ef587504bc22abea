-- ===== src/Motor/Status/Finite.antt =====
-- The filter keeps finite values finite.
use encos_driver.Prelude.{
  ℕ, ◌<◌, ◌≡◌, arith, true, Bool-cases, not, ltb, if◌then◌else◌, inl, inr, List, [], ◌∷◌, ◌++◌,
  length, length-append, length-drop, All,
}
use encos_driver.Motor.Floats.{FloatOps}
use encos_driver.Motor.Status.{
  exceeds, filter_status_value, is_empty, median_enabled, median_status_value, push_sample,
}
use encos_driver.Motor.Status.History.{median_enabled-positive}
use encos_driver.Motor.Status.Median.{IsFinite, All-median}
use encos_driver.Motor.Status.Safety.{Fits, push_sample-Fits}

module _ (f : FloatOps) where
  open f use {Float, is_finite}

  exceeds-last : (v last d : Float) → exceeds f v last d ≡ true → is_finite last ≡ true
  unfolding exceeds
  exceeds-last v last d h = elim (Bool-cases (is_finite last)) [
    | inl yes_ ↦ yes_
    | inr no_ ↦ ground arith
  ]

  length-push_sample :
      (v : Float) (samples : List Float) (w : ℕ) → 0 < w → 0 < length (push_sample f v samples w)
  unfolding push_sample
  length-push_sample v samples w h =
      let grown = length-append samples (v ∷ []) in
      elim (Bool-cases (ltb w (length (samples ++ v ∷ [])))) [
        | inl over ↦ rw over (ground (arith, length-drop 1 (samples ++ v ∷ [])))
        | inr room ↦ rw room (omega arith)
      ]

  median-finite :
      (last : Float) (samples : List Float)
      → All (IsFinite f) samples
      → is_finite last ≡ true
      → is_finite (if not (is_empty samples) then median_status_value f samples else last) ≡ true
  median-finite last [] h e = e
  median-finite last (x ∷ xs) h e = All-median f (IsFinite f) (x ∷ xs) h (omega arith)

  -- The filter lets a value that is not finite through as it is, and makes a finite value of a
  -- finite one, when its samples are finite.
  filter_status_value-finite :
      (v last : Float) (samples : List Float) (d : Float) (w : ℕ)
      → Fits f w samples
      → is_finite (filter_status_value f v last samples d w).value ≡ is_finite v
  unfolding filter_status_value
  filter_status_value-finite v last samples d w h = elim (Bool-cases (is_finite v)) [
    | inr infinite ↦ rw infinite infinite
    | inl finite ↦ elim (Bool-cases (exceeds f v last d)) [
      | inl far ↦ elim (Bool-cases (median_enabled w)) [
        | inl median ↦
            rw (finite, far, median) (median-finite last samples h.1 (exceeds-last v last d far))
        | inr single ↦ rw (finite, far, single) (exceeds-last v last d far)
      ]
      | inr near ↦ elim (Bool-cases (median_enabled w)) [
        | inl median ↦
            rw (finite, near, median)
              (All-median f (IsFinite f) (push_sample f v samples w)
                (push_sample-Fits f v samples w finite h).1
                (length-push_sample v samples w (median_enabled-positive w median)))
        | inr single ↦ rw (finite, near, single) finite
      ]
    ]
  ]
