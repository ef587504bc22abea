-- ===== src/Motor/Status/Median.antt =====
-- The median of the filter is the middle one of its samples.
use encos_driver.Prelude.{
  ℕ, zero, suc, ◌+◌, ◌/◌, ◌≤◌, ◌<◌, ◌≡◌, refl, ap, arith, Bool, true, false, Bool-cases,
  if◌then◌else◌, inl, inr, List, [], ◌∷◌, length, get_or, All,
}
use encos_driver.Motor.Floats.{FloatOps}
use encos_driver.Motor.Status.{insert_value, sort, median_status_value}

-- What IEEE 754 says of `<`: it is asymmetric, and on finite values `>=` is transitive.
pub record IsOrdered (f : FloatOps) : Type 0 where
  pub less_asymmetric : (a b : f.Float) → f.less a b ≡ true → f.less b a ≡ false
  pub not_less_transitive :
      (a b c : f.Float)
      → f.is_finite a ≡ true
      → f.is_finite b ≡ true
      → f.is_finite c ≡ true
      → f.less b a ≡ false
      → f.less c b ≡ false
      → f.less c a ≡ false

module _ (f : FloatOps) where
  open f use {Float, nan, is_finite, less}

  abbrev pub IsFinite : Float → Type 0
  IsFinite x = is_finite x ≡ true

  -- How many values satisfy a test.
  abbrev pub count : (Float → Bool) → List Float → ℕ
  count p [] = 0
  count p (x ∷ xs) = (if p x then 1 else 0) + count p xs

  abbrev NotBelow : Float → List Float → Type 0
  NotBelow x = All (λ y. less y x ≡ false)

  abbrev Sorted : List Float → Type 0
  Sorted [] = Unit
  Sorted (x ∷ xs) = NotBelow x xs × Sorted xs

  count_bounded : (p : Float → Bool) (xs : List Float) → count p xs ≤ length xs
  count_bounded p [] = omega arith
  count_bounded p (x ∷ xs) = ground (arith, count_bounded p xs)

  count-insert_value :
      (p : Float → Bool) (x : Float) (xs : List Float)
      → count p (insert_value f x xs) ≡ count p (x ∷ xs)
  unfolding insert_value
  count-insert_value p x [] = refl
  count-insert_value p x (y ∷ ys) = elim (Bool-cases (less y x)) [
    | inl yes_ ↦ rw yes_ (omega (arith, count-insert_value p x ys))
    | inr no_ ↦ rw no_ refl
  ]

  count-sort : (p : Float → Bool) (xs : List Float) → count p (sort f xs) ≡ count p xs
  unfolding sort
  count-sort p [] = refl
  count-sort p (x ∷ xs) = omega (arith, count-insert_value p x (sort f xs), count-sort p xs)

  length-insert_value :
      (x : Float) (xs : List Float) → length (insert_value f x xs) ≡ suc (length xs)
  unfolding insert_value
  length-insert_value x [] = refl
  length-insert_value x (y ∷ ys) = elim (Bool-cases (less y x)) [
    | inl yes_ ↦ rw yes_ (ap suc (length-insert_value x ys))
    | inr no_ ↦ rw no_ refl
  ]

  length-sort : (xs : List Float) → length (sort f xs) ≡ length xs
  unfolding sort
  length-sort [] = refl
  length-sort (x ∷ xs) = omega (arith, length-insert_value x (sort f xs), length-sort xs)

  All-insert_value :
      (P : Float → Type 0) (x : Float) (xs : List Float)
      → P x
      → All P xs
      → All P (insert_value f x xs)
  unfolding insert_value
  All-insert_value P x [] px pxs = (px, pxs)
  All-insert_value P x (y ∷ ys) px pxs = elim (Bool-cases (less y x)) [
    | inl yes_ ↦ rw yes_ (pxs.0, All-insert_value P x ys px pxs.1)
    | inr no_ ↦ rw no_ (px, pxs)
  ]

  All-sort : (P : Float → Type 0) (xs : List Float) → All P xs → All P (sort f xs)
  unfolding sort
  All-sort P [] h = h
  All-sort P (x ∷ xs) h = All-insert_value P x (sort f xs) h.0 (All-sort P xs h.1)

  module _ (ordered : IsOrdered f) where
    NotBelow-trans :
        (x y : Float) (ys : List Float)
        → IsFinite x
        → IsFinite y
        → All IsFinite ys
        → less y x ≡ false
        → NotBelow y ys
        → NotBelow x ys
    NotBelow-trans x y [] hx hy hs e n = n
    NotBelow-trans x y (z ∷ zs) hx hy hs e n =
        (ordered.not_less_transitive x y z hx hy hs.0 e n.0, NotBelow-trans x y zs hx hy hs.1 e n.1)

    Sorted-insert_value :
        (x : Float) (xs : List Float)
        → IsFinite x
        → All IsFinite xs
        → Sorted xs
        → Sorted (insert_value f x xs)
    unfolding insert_value
    Sorted-insert_value x [] hx hs s = (tt, tt)
    Sorted-insert_value x (y ∷ ys) hx hs s = elim (Bool-cases (less y x)) [
      | inl yes_ ↦ rw yes_ (
        All-insert_value (λ z. less z y ≡ false) x ys (ordered.less_asymmetric y x yes_) s.0,
        Sorted-insert_value x ys hx hs.1 s.1,
      )
      | inr no_ ↦ rw no_ ((no_, NotBelow-trans x y ys hx hs.0 hs.1 no_ s.0), s)
    ]

    Sorted-sort : (xs : List Float) → All IsFinite xs → Sorted (sort f xs)
    unfolding sort
    Sorted-sort [] h = tt
    Sorted-sort (x ∷ xs) h =
        Sorted-insert_value x (sort f xs) h.0 (All-sort IsFinite xs h.1) (Sorted-sort xs h.1)

    less_irreflexive : (x : Float) → less x x ≡ false
    less_irreflexive x = elim (Bool-cases (less x x)) [
      | inl yes_ ↦ ordered.less_asymmetric x x yes_
      | inr no_ ↦ no_
    ]

    NotBelow-count : (x : Float) (xs : List Float) → NotBelow x xs → count (λ y. less y x) xs ≡ 0
    NotBelow-count x [] n = refl
    NotBelow-count x (y ∷ ys) n = rw n.0 (omega (arith, NotBelow-count x ys n.1))

    NotBelow-get :
        (x d : Float) (xs : List Float) (i : ℕ)
        → NotBelow x xs
        → i < length xs
        → less (get_or xs i d) x ≡ false
    NotBelow-get x d [] i n h = absurd (omega arith)
    NotBelow-get x d (y ∷ ys) zero n h = n.0
    NotBelow-get x d (y ∷ ys) (suc i) n h = NotBelow-get x d ys i n.1 (omega arith)

    Sorted-below :
        (d : Float) (xs : List Float) (i : ℕ)
        → Sorted xs
        → i < length xs
        → count (λ y. less y (get_or xs i d)) xs ≤ i
    Sorted-below d [] i s h = absurd (omega arith)
    Sorted-below d (x ∷ xs) zero s h =
        rw (less_irreflexive x) (omega (arith, NotBelow-count x xs s.0))
    Sorted-below d (x ∷ xs) (suc i) s h = ground (arith, Sorted-below d xs i s.1 (omega arith))

    Sorted-above :
        (d : Float) (xs : List Float) (i : ℕ)
        → Sorted xs
        → i < length xs
        → count (λ y. less (get_or xs i d) y) xs + i < length xs
    Sorted-above d [] i s h = absurd (omega arith)
    Sorted-above d (x ∷ xs) zero s h =
        rw (less_irreflexive x) (omega (arith, count_bounded (λ y. less x y) xs))
    Sorted-above d (x ∷ xs) (suc i) s h =
        rw (NotBelow-get x d xs i s.0 (omega arith))
          (omega (arith, Sorted-above d xs i s.1 (omega arith)))

    -- Of finite samples, at most half are less than the median, and fewer than half are greater
    -- (n / 2 and n - 1 - n / 2 of n), whatever order they came in.
    pub median_status_value-middle :
        (samples : List Float)
        → All IsFinite samples
        → 0 < length samples
        → (count (λ y. less y (median_status_value f samples)) samples ≤ length samples / 2)
          × (count (λ y. less (median_status_value f samples) y) samples + length samples / 2
              < length samples)
    unfolding median_status_value
    median_status_value-middle samples h nonempty =
        let i = length samples / 2 in
        let bound : i < length (sort f samples) = omega (arith, length-sort samples) in
        let s = Sorted-sort samples h in
        let m = get_or (sort f samples) i nan in
        (
          omega (
            arith,
            Sorted-below nan (sort f samples) i s bound,
            count-sort (λ y. less y m) samples,
          ),
          omega (
            arith,
            Sorted-above nan (sort f samples) i s bound,
            count-sort (λ y. less m y) samples,
            length-sort samples,
          ),
        )

  -- The median is one of the samples.
  All-get :
      (P : Float → Type 0) (d : Float) (xs : List Float) (i : ℕ)
      → All P xs
      → i < length xs
      → P (get_or xs i d)
  All-get P d [] i a h = absurd (omega arith)
  All-get P d (x ∷ xs) zero a h = a.0
  All-get P d (x ∷ xs) (suc i) a h = All-get P d xs i a.1 (omega arith)

  pub All-median :
      (P : Float → Type 0) (samples : List Float)
      → All P samples
      → 0 < length samples
      → P (median_status_value f samples)
  unfolding median_status_value
  All-median P samples a h =
      All-get P nan (sort f samples) (length samples / 2) (All-sort P samples a)
        (omega (arith, length-sort samples))
