-- ===== src/Motor/Status/Safety.antt =====
-- What holds of the status state whatever calls are made, and what an expiry forgets.
use encos_driver.Prelude.{
  ℕ, ◌≤◌, arith, Bool-cases, not, ◌&&◌, ◌!=◌, ltb, inl, inr, List, [], ◌∷◌, ◌++◌, length, drop,
  length-append, length-drop, All, Option, none, some,
}
use encos_driver.Frame.{MotorPackMsg}
use encos_driver.Motor.Floats.{FloatOps}
use encos_driver.Motor.Error.{no_response}
use encos_driver.Motor.Feedback.{Properties, Feedback1, auto_decode_feedback}
use encos_driver.Motor.Status.{
  ℤ, no_samples, StatusSamples, StatusState, amount, deduct, exceeds, expire, filter_status_value,
  get_status, get_status_of, initial_status, is_max, is_positive, limit_life, median_enabled,
  on_message, push_sample, set_max_deltas, set_median_window, set_status_life_cycle, spend_life,
  store_status,
}
use encos_driver.Motor.Status.Median.{IsFinite}

module _ (f : FloatOps) where
  open f use {Float, is_finite, nan}

  -- A call that changes the status state.
  pub data StatusEvent : Type 0 where
    message : MotorPackMsg → Properties f → StatusEvent
    life_cycle : ℤ → StatusEvent
    median_window : ℕ → StatusEvent
    limit_deltas : Feedback1 f → StatusEvent
    status_read : ℤ → StatusEvent

  abbrev status_step : StatusEvent → StatusState f → StatusState f
  status_step (message m ranges) s = on_message f m ranges s
  status_step (life_cycle max_life_cycle) s = set_status_life_cycle f max_life_cycle s
  status_step (median_window size) s = set_median_window f size s
  status_step (limit_deltas deltas) s = set_max_deltas f deltas s
  status_step (status_read deduction) s = (get_status f deduction s).1

  abbrev pub status_run : List StatusEvent → StatusState f → StatusState f
  status_run [] s = s
  status_run (e ∷ es) s = status_run es (status_step e s)

  abbrev pub Fits : ℕ → List Float → Type 0
  Fits window samples = (length samples ≤ window) × All (IsFinite f) samples

  pub record SamplesFit (window : ℕ) (samples : StatusSamples f) : Type 0 where
    pub position_fits : Fits window samples.position
    pub speed_fits : Fits window samples.speed
    pub current_fits : Fits window samples.current
    pub motor_temperature_fits : Fits window samples.motor_temperature
    pub mos_temperature_fits : Fits window samples.mos_temperature

  abbrev pub StatusFits : StatusState f → Type 0
  StatusFits s = SamplesFit s.window_size s.samples

  Fits-nil : (window : ℕ) → Fits window []
  Fits-nil window = (omega arith, tt)

  no_samples-fit : (window : ℕ) → SamplesFit window (no_samples f)
  no_samples-fit window = record {
    position_fits = Fits-nil window;
    speed_fits = Fits-nil window;
    current_fits = Fits-nil window;
    motor_temperature_fits = Fits-nil window;
    mos_temperature_fits = Fits-nil window;
  }

  All-last :
      (v : Float) (xs : List Float)
      → All (IsFinite f) xs
      → IsFinite f v
      → All (IsFinite f) (xs ++ v ∷ [])
  All-last v [] h e = (e, tt)
  All-last v (x ∷ xs) h e = (h.0, All-last v xs h.1 e)

  All-drop_one : (xs : List Float) → All (IsFinite f) xs → All (IsFinite f) (drop 1 xs)
  All-drop_one [] h = h
  All-drop_one (x ∷ xs) h = h.1

  pub push_sample-Fits :
      (v : Float) (samples : List Float) (w : ℕ)
      → IsFinite f v
      → Fits w samples
      → Fits w (push_sample f v samples w)
  unfolding push_sample
  push_sample-Fits v samples w e h =
      let grown = length-append samples (v ∷ []) in
      elim (Bool-cases (ltb w (length (samples ++ v ∷ [])))) [
        | inl over ↦ rw over (
          omega (arith, length-drop 1 (samples ++ v ∷ []), h.0),
          All-drop_one (samples ++ v ∷ []) (All-last v samples h.1 e),
        )
        | inr room ↦ rw room (ground arith, All-last v samples h.1 e)
      ]

  filter_status_value-Fits :
      (v last : Float) (samples : List Float) (d : Float) (w : ℕ)
      → Fits w samples
      → Fits w (filter_status_value f v last samples d w).samples
  unfolding filter_status_value
  filter_status_value-Fits v last samples d w h = elim (Bool-cases (is_finite v)) [
    | inr infinite ↦ rw infinite h
    | inl finite ↦ elim (Bool-cases (exceeds f v last d)) [
      | inl far ↦ rw (finite, far) h
      | inr near ↦ elim (Bool-cases (median_enabled w)) [
        | inl median ↦ rw (finite, near, median) (push_sample-Fits v samples w finite h)
        | inr single ↦ rw (finite, near, single) h
      ]
    ]
  ]

  store_status-StatusFits :
      (decoded : Feedback1 f) (s : StatusState f)
      → StatusFits s
      → StatusFits (store_status f decoded s)
  unfolding store_status
  store_status-StatusFits decoded s h =
      let field = λ (v last : Float) (xs : List Float) (d : Float) (g : Fits s.window_size xs).
        filter_status_value-Fits v last xs d s.window_size g in
      record {
        position_fits =
            field decoded.position s.last_accepted.position s.samples.position s.max_deltas.position
              h.position_fits;
        speed_fits =
            field decoded.speed s.last_accepted.speed s.samples.speed s.max_deltas.speed
              h.speed_fits;
        current_fits =
            field decoded.current s.last_accepted.current s.samples.current s.max_deltas.current
              h.current_fits;
        motor_temperature_fits =
            field decoded.motor_temperature s.last_accepted.motor_temperature
              s.samples.motor_temperature s.max_deltas.motor_temperature h.motor_temperature_fits;
        mos_temperature_fits =
            field decoded.mos_temperature s.last_accepted.mos_temperature s.samples.mos_temperature
              s.max_deltas.mos_temperature h.mos_temperature_fits;
      }

  on_message-StatusFits :
      (m : MotorPackMsg) (ranges : Properties f) (s : StatusState f)
      → StatusFits s
      → StatusFits (on_message f m ranges s)
  unfolding on_message
  on_message-StatusFits m ranges s h =
      elim (Bool-cases ((auto_decode_feedback f m ranges).error != no_response)) [
        | inl yes_ ↦ rw yes_ (store_status-StatusFits (auto_decode_feedback f m ranges) s h)
        | inr no_ ↦ rw no_ h
      ]

  limit_life-StatusFits :
      (o : Option (Feedback1 f)) (n : ℤ) (s : StatusState f)
      → StatusFits s
      → StatusFits (limit_life f o n s)
  unfolding limit_life
  limit_life-StatusFits none n s h = h
  limit_life-StatusFits (some fb) n s h = elim (Bool-cases (is_max n)) [
    | inl yes_ ↦ rw yes_ h
    | inr no_ ↦ rw no_ h
  ]

  spend_life-StatusFits :
      (life : ℤ) (s : StatusState f) → StatusFits s → StatusFits (spend_life f life s)
  unfolding spend_life expire
  spend_life-StatusFits life s h = elim (Bool-cases (is_positive life)) [
    | inl yes_ ↦ rw yes_ h
    | inr no_ ↦ rw no_ (record {
      position_fits = Fits-nil s.window_size;
      speed_fits = h.speed_fits;
      current_fits = Fits-nil s.window_size;
      motor_temperature_fits = Fits-nil s.window_size;
      mos_temperature_fits = Fits-nil s.window_size;
    })
  ]

  get_status_of-StatusFits :
      (o : Option (Feedback1 f)) (d : ℤ) (s : StatusState f)
      → StatusFits s
      → StatusFits (get_status_of f o d s).1
  unfolding get_status_of
  get_status_of-StatusFits none d s h = h
  get_status_of-StatusFits (some fb) d s h =
      elim (Bool-cases (not (is_max s.status_life_cycle) && is_positive d)) [
        | inl yes_ ↦ rw yes_ (spend_life-StatusFits (deduct s.status_life_cycle (amount d)) s h)
        | inr no_ ↦ rw no_ h
      ]

  status_step-StatusFits :
      (e : StatusEvent) (s : StatusState f) → StatusFits s → StatusFits (status_step e s)
  unfolding set_status_life_cycle set_median_window set_max_deltas get_status
  status_step-StatusFits (message m ranges) s h = on_message-StatusFits m ranges s h
  status_step-StatusFits (life_cycle n) s h =
      limit_life-StatusFits s.status n (record s { max_status_life_cycle = n }) h
  status_step-StatusFits (median_window n) s h = no_samples-fit n
  status_step-StatusFits (limit_deltas deltas) s h = h
  status_step-StatusFits (status_read d) s h = get_status_of-StatusFits s.status d s h

  status_run-fits :
      (es : List StatusEvent) (s : StatusState f) → StatusFits s → StatusFits (status_run es s)
  status_run-fits [] s h = h
  status_run-fits (e ∷ es) s h = status_run-fits es (status_step e s) (status_step-StatusFits e s h)

  -- After any calls on a new motor, each of the five filters holds only finite samples, and no more
  -- than the window size in force.
  pub status_run-StatusFits :
      (events : List StatusEvent) → StatusFits (status_run events (initial_status f))
  status_run-StatusFits events = status_run-fits events (initial_status f) (no_samples-fit 0)
