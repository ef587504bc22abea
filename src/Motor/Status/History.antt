-- ===== src/Motor/Status/History.antt =====
-- The filter of one field against a reference that keeps every value accepted so far.
use native.Mathlib.Decide.{dec_lt}
use encos_driver.Prelude.{
  ℕ, ◌+◌, ◌-◌, ◌<◌, ◌≡◌, refl, sym, ap, arith, true, false, Bool-cases, not, ◌&&◌, ltb, ◌==◌,
  if◌then◌else◌, inl, inr, List, [], ◌∷◌, ◌++◌, length, drop, length-append, length-drop,
  drop-append, drop-drop, drop-nil,
}
use encos_driver.Motor.Floats.{FloatOps}
use encos_driver.Motor.Status.{
  exceeds, filter_status_value, is_empty, median_enabled, median_status_value, push_sample,
}

is_empty-length {ℓ} : {A : Type ℓ} (xs : List A) → is_empty xs ≡ (length xs == 0)
is_empty-length [] = refl
is_empty-length (x ∷ xs) = ground arith

pub median_enabled-positive : (n : ℕ) → median_enabled n ≡ true → 0 < n
unfolding median_enabled
median_enabled-positive n h = ground arith

module _ (f : FloatOps) where
  open f use {Float, is_finite}

  -- The last `n` values.
  abbrev newest : ℕ → List Float → List Float
  newest n values = drop (length values - n) values

  -- The reference: the value accepted last, and all the values accepted, in their order.
  pub record History : Type 0 where
    pub last : Float
    pub accepted : List Float

  module _ (max_delta : Float) (window_size : ℕ) where
    abbrev pub reference_value : Float → History → Float
    reference_value value h =
        if not (is_finite value)
        then value
        else if exceeds f value h.last max_delta
        then if median_enabled window_size && not (is_empty h.accepted)
          then median_status_value f (newest window_size h.accepted)
          else h.last
        else if median_enabled window_size
        then median_status_value f (newest window_size (h.accepted ++ value ∷ []))
        else value

    abbrev pub accept : Float → History → History
    accept value h =
        if is_finite value && not (exceeds f value h.last max_delta)
        then record { last = value; accepted = h.accepted ++ value ∷ [] }
        else h

    abbrev pub reference_run : List Float → History → List Float
    reference_run [] h = []
    reference_run (v ∷ vs) h = reference_value v h ∷ reference_run vs (accept v h)

    -- The filter applied to one value after the other.
    abbrev pub filter_run : List Float → Float → List Float → List Float
    filter_run [] last samples = []
    filter_run (v ∷ vs) last samples =
        let r = filter_status_value f v last samples max_delta window_size in
        r.value ∷ filter_run vs r.last_accepted r.samples

    -- The samples that the filter keeps for a history.
    abbrev pub kept : History → List Float
    kept h = if median_enabled window_size then newest window_size h.accepted else []

    kept_nothing : (last : Float) → kept (record { last = last; accepted = [] }) ≡ []
    kept_nothing last = elim (Bool-cases (median_enabled window_size)) [
      | inl yes_ ↦ rw (yes_, drop-nil (0 - window_size)) refl
      | inr no_ ↦ rw no_ refl
    ]

    push_sample-newest :
        (value : Float) (h : List Float)
        → 0 < window_size
        → push_sample f value (newest window_size h) window_size
          ≡ newest window_size (h ++ value ∷ [])
    unfolding push_sample
    push_sample-newest value h positive =
        let few = length h - window_size in
        let grown = drop-append few h (value ∷ []) (omega arith) in
        elim (dec_lt (length h) window_size) [
          | yes short ↦
              let whole : few ≡ 0 = omega arith in
              let whole2 : length (h ++ value ∷ []) - window_size ≡ 0 =
                omega (arith, length-append h (value ∷ [])) in
              let room : ltb window_size (length (h ++ value ∷ [])) ≡ false =
                ground (arith, length-append h (value ∷ [])) in
              rw (whole, whole2, room) refl
          | no full ↦
              let next : few + 1 ≡ length (h ++ value ∷ []) - window_size =
                omega (arith, length-append h (value ∷ [])) in
              let over : ltb window_size (length (drop few h ++ value ∷ [])) ≡ true =
                ground (arith, length-append (drop few h) (value ∷ []), length-drop few h) in
              rw (over, sym grown, drop-drop 1 few (h ++ value ∷ []), next) refl
        ]

    is_empty-newest :
        (h : List Float) → 0 < window_size → is_empty (newest window_size h) ≡ is_empty h
    is_empty-newest h positive =
        rw (is_empty-length (newest window_size h), is_empty-length h)
          (ground (arith, length-drop (length h - window_size) h))

    -- One value: the filter returns what the reference returns, and its state stays the one that
    -- the history determines.
    filter_status_value-accept :
        (v : Float) (h : History)
        → filter_status_value f v h.last (kept h) max_delta window_size ≡ record {
          value = reference_value v h;
          last_accepted = (accept v h).last;
          samples = kept (accept v h);
        }
    unfolding filter_status_value
    filter_status_value-accept v h = elim (Bool-cases (is_finite v)) [
      | inr infinite ↦ rw infinite refl
      | inl finite ↦ elim (Bool-cases (median_enabled window_size)) [
        | inl median ↦
            let positive : 0 < window_size = median_enabled-positive window_size median in
            elim (Bool-cases (exceeds f v h.last max_delta)) [
              | inl far ↦ rw (finite, far, median, is_empty-newest h.accepted positive) refl
              | inr near ↦ rw (finite, near, median, push_sample-newest v h.accepted positive) refl
            ]
        | inr single ↦ elim (Bool-cases (exceeds f v h.last max_delta)) [
          | inl far ↦ rw (finite, far, single) refl
          | inr near ↦ rw (finite, near, single) refl
        ]
      ]
    ]

    filter_run-kept :
        (values : List Float) (h : History)
        → filter_run values h.last (kept h) ≡ reference_run values h
    filter_run-kept [] h = refl
    filter_run-kept (v ∷ vs) h =
        rw (filter_status_value-accept v h)
          (ap (λ t. reference_value v h ∷ t) (filter_run-kept vs (accept v h)))

    -- From no samples on, for every window size and limit, the filter returns for every sequence of
    -- values what the reference returns: a value that is not finite as it is; for a value that the
    -- limit rejects, the median of the newest accepted values, or the last one when the median is
    -- off or nothing was accepted; else the median of the newest accepted values, this one
    -- included, or the value itself when the median is off. The reference keeps every accepted
    -- value and takes the newest `window_size` of them.
    pub filter_run-reference :
        (last : Float) (values : List Float)
        → filter_run values last [] ≡ reference_run values (record { last = last; accepted = [] })
    filter_run-reference last values =
        let start : History = record { last = last; accepted = [] } in
        rw (kept_nothing last) at (filter_run-kept values start)
