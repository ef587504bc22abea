-- ===== src/Motor/Status.antt =====
-- The status that a motor keeps: the filters of src/device/motor/motor.cc, the part of
-- `Motor::OnMessage` that stores a decoded feedback, and the setters and getter of the status. The
-- state is the part of `Motor::Impl` (src/device/motor/motor_impl.h) that `status_mutex` guards;
-- every operation here runs under that lock.
use encos_driver.Prelude.{
  ℕ, zero, suc, ◌-◌, ◌/◌, ◌^◌, Bool, true, false, ◌==◌, ◌!=◌, ◌&&◌, ltb, leb, min, not,
  if◌then◌else◌, List, [], ◌∷◌, ◌++◌, length, drop, get_or, Option, none, some,
}
use encos_driver.Frame.{MotorPackMsg}
use encos_driver.Motor.Floats.{FloatOps}
use encos_driver.Motor.Error.{no_response}
use encos_driver.Motor.Feedback.{Properties, Feedback1, empty_feedback, auto_decode_feedback}
pub mod Median
pub mod History
pub mod Life
pub mod Safety
pub mod Finite
pub mod Expiry
mod Tests

-- `int`, over the native numbers.
pub data ℤ : Type 0 where
  pos : ℕ → ℤ
  negsuc : ℕ → ℤ

abbrev pub int_max : ℕ
int_max = 2 ^ 31 - 1

abbrev pub is_max : ℤ → Bool
is_max (pos n) = n == int_max
is_max (negsuc n) = false

unfoldable pub min_int : ℤ → ℤ → ℤ
min_int (pos a) (pos b) = pos (min a b)
min_int (pos a) (negsuc b) = negsuc b
min_int (negsuc a) (pos b) = negsuc a
min_int (negsuc a) (negsuc b) = if ltb a b then negsuc b else negsuc a

-- `deduction >= life ? 0 : life - deduction`, for a positive deduction.
unfoldable pub deduct : ℤ → ℕ → ℤ
deduct (pos life) deduction = if leb life deduction then pos 0 else pos (life - deduction)
deduct (negsuc life) deduction = pos 0

abbrev pub is_positive : ℤ → Bool
is_positive (pos zero) = false
is_positive (pos (suc n)) = true
is_positive (negsuc n) = false

-- The amount of a deduction; one that is not positive deducts nothing.
abbrev pub amount : ℤ → ℕ
amount (pos n) = n
amount (negsuc n) = 0

abbrev pub is_empty {ℓ} : {A : Type ℓ} → List A → Bool
is_empty [] = true
is_empty (x ∷ xs) = false

unfoldable pub median_enabled : ℕ → Bool
median_enabled window_size = ltb 1 window_size

module _ (f : FloatOps) where
  open f use {Float, of_nat, nan, sub, abs, is_finite, less}

  -- `std::sort`, which the filter calls on finite values.
  unfoldable pub insert_value : Float → List Float → List Float
  insert_value x [] = x ∷ []
  insert_value x (y ∷ ys) =
      let rest = insert_value x ys in if less y x then y ∷ rest else x ∷ y ∷ ys

  unfoldable pub sort : List Float → List Float
  sort [] = []
  sort (x ∷ xs) = insert_value x (sort xs)

  unfoldable pub median_status_value : List Float → Float
  median_status_value values = get_or (sort values) (length values / 2) nan

  unfoldable pub limit_enabled : Float → Bool
  limit_enabled max_delta = is_finite max_delta && not (less max_delta (of_nat 0))

  -- The value that the filter returns, and what it writes through its references.
  pub record Filtered : Type 0 where
    pub value : Float
    pub last_accepted : Float
    pub samples : List Float

  -- Whether the limit filter rejects the value.
  unfoldable pub exceeds : Float → Float → Float → Bool
  exceeds value last_accepted max_delta =
      limit_enabled max_delta
      && is_finite last_accepted
      && less max_delta (abs (sub value last_accepted))

  unfoldable pub push_sample : Float → List Float → ℕ → List Float
  push_sample value samples window_size =
      let pushed = samples ++ value ∷ [] in
      if ltb window_size (length pushed) then drop 1 pushed else pushed

  unfoldable pub filter_status_value : Float → Float → List Float → Float → ℕ → Filtered
  filter_status_value value last_accepted samples max_delta window_size =
      if not (is_finite value)
      then record { value = value; last_accepted = last_accepted; samples = samples }
      else if exceeds value last_accepted max_delta
      then record {
        value =
            if median_enabled window_size && not (is_empty samples)
            then median_status_value samples
            else last_accepted;
        last_accepted = last_accepted;
        samples = samples;
      }
      else if not (median_enabled window_size)
      then record { value = value; last_accepted = value; samples = samples }
      else let kept = push_sample value samples window_size in
        record { value = median_status_value kept; last_accepted = value; samples = kept }

  -- `ContinuousStatusSamples`.
  pub record StatusSamples : Type 0 where
    pub position : List Float
    pub speed : List Float
    pub current : List Float
    pub motor_temperature : List Float
    pub mos_temperature : List Float

  abbrev pub no_samples : StatusSamples
  no_samples = record {
    position = [];
    speed = [];
    current = [];
    motor_temperature = [];
    mos_temperature = [];
  }

  pub record StatusState : Type 0 where
    pub status : Option (Feedback1 f)
    pub status_life_cycle : ℤ
    pub max_status_life_cycle : ℤ
    pub samples : StatusSamples
    pub last_accepted : Feedback1 f
    pub window_size : ℕ
    pub max_deltas : Feedback1 f

  -- The members' initial values.
  abbrev pub initial_status : StatusState
  initial_status = record {
    status = none;
    status_life_cycle = pos int_max;
    max_status_life_cycle = pos int_max;
    samples = no_samples;
    last_accepted = empty_feedback f;
    window_size = 0;
    max_deltas = empty_feedback f;
  }

  -- The filters of the five fields, and the status with its new life cycle.
  unfoldable pub store_status : Feedback1 f → StatusState → StatusState
  store_status decoded s =
      let accepted = s.last_accepted in
      let kept = s.samples in
      let deltas = s.max_deltas in
      let window = s.window_size in
      let position =
        filter_status_value decoded.position accepted.position kept.position deltas.position
          window in
      let speed = filter_status_value decoded.speed accepted.speed kept.speed deltas.speed window in
      let current =
        filter_status_value decoded.current accepted.current kept.current deltas.current window in
      let motor_temperature =
        filter_status_value decoded.motor_temperature accepted.motor_temperature
          kept.motor_temperature deltas.motor_temperature window in
      let mos_temperature =
        filter_status_value decoded.mos_temperature accepted.mos_temperature kept.mos_temperature
          deltas.mos_temperature window in
      record s {
        status = some (record {
          error = decoded.error;
          position = position.value;
          speed = speed.value;
          current = current.value;
          motor_temperature = motor_temperature.value;
          mos_temperature = mos_temperature.value;
        });
        status_life_cycle = s.max_status_life_cycle;
        samples = record {
          position = position.samples;
          speed = speed.samples;
          current = current.samples;
          motor_temperature = motor_temperature.samples;
          mos_temperature = mos_temperature.samples;
        };
        last_accepted = record {
          error = accepted.error;
          position = position.last_accepted;
          speed = speed.last_accepted;
          current = current.last_accepted;
          motor_temperature = motor_temperature.last_accepted;
          mos_temperature = mos_temperature.last_accepted;
        };
      }

  -- The status part of `OnMessage`: a frame that is no feedback leaves the state as it is.
  unfoldable pub on_message : MotorPackMsg → Properties f → StatusState → StatusState
  on_message message ranges s =
      let decoded = auto_decode_feedback f message ranges in
      if decoded.error != no_response then store_status decoded s else s

  -- The lowering of a stored status's life cycle.
  unfoldable pub limit_life : Option (Feedback1 f) → ℤ → StatusState → StatusState
  limit_life none max_life_cycle s = s
  limit_life (some _) max_life_cycle s =
      if not (is_max max_life_cycle)
      then record s { status_life_cycle = min_int s.status_life_cycle max_life_cycle }
      else s

  unfoldable pub set_status_life_cycle : ℤ → StatusState → StatusState
  set_status_life_cycle max_life_cycle s =
      limit_life s.status max_life_cycle (record s { max_status_life_cycle = max_life_cycle })

  unfoldable pub set_median_window : ℕ → StatusState → StatusState
  set_median_window median_window_size s = record s {
    window_size = median_window_size;
    samples = no_samples;
  }

  unfoldable pub set_max_deltas : Feedback1 f → StatusState → StatusState
  set_max_deltas limit_max_deltas s = record s { max_deltas = limit_max_deltas }

  -- What `GetStatusImpl` does when the life cycle ends.
  unfoldable pub expire : StatusState → StatusState
  expire s = record s {
    status = none;
    samples = record no_samples { speed = s.samples.speed };
    last_accepted = record s.last_accepted {
      position = nan;
      current = nan;
      motor_temperature = nan;
      mos_temperature = nan;
    };
  }

  -- The state once the life cycle that is left is known.
  unfoldable pub spend_life : ℤ → StatusState → StatusState
  spend_life life s =
      let spent = record s { status_life_cycle = life } in
      if is_positive life then spent else expire spent

  -- `GetStatusImpl`: the status returned, and the state it leaves.
  unfoldable pub get_status_of :
      Option (Feedback1 f) → ℤ → StatusState → Option (Feedback1 f) × StatusState
  get_status_of none life_cycle_deduction s = (none, s)
  get_status_of (some status) life_cycle_deduction s = (
    some status,
    if not (is_max s.status_life_cycle) && is_positive life_cycle_deduction
        then spend_life (deduct s.status_life_cycle (amount life_cycle_deduction)) s
        else s,
  )

  unfoldable pub get_status : ℤ → StatusState → Option (Feedback1 f) × StatusState
  get_status life_cycle_deduction s = get_status_of s.status life_cycle_deduction s
