-- ===== src/Motor/Status/Tests.antt =====
-- The theorems on the motor's status at concrete inputs, with whole numbers for floats.
use encos_driver.Prelude.{
  ℕ, ◌+◌, ◌≤◌, ◌<◌, ◌/◌, ◌≡◌, refl, arith, ltb, ◌==◌, ◌||◌, if◌then◌else◌, List, [], ◌∷◌, length,
  none, some,
}
use encos_driver.Motor.Feedback.{Feedback1}
use encos_driver.Motor.Status.{
  pos, negsuc, StatusState, initial_status, median_status_value, get_status, store_status,
  filter_status_value, exceeds, push_sample, median_enabled, limit_enabled, sort, insert_value,
}
use encos_driver.Motor.Status.Median.{IsOrdered, count, median_status_value-middle}
use encos_driver.Motor.Status.History.{filter_run, reference_run, filter_run-reference}
use encos_driver.Motor.Status.Life.{get_all, total, get_status-lifetime}
use encos_driver.Motor.Status.Safety.{
  StatusFits, status_run, message, life_cycle, median_window, status_read, status_run-StatusFits,
}
use encos_driver.Motor.Status.Expiry.{stored_speed, store_status-after_expiry}
use encos_driver.Motor.Tests.{whole, motor_properties, pack1}

whole-IsOrdered : IsOrdered whole
whole-IsOrdered = record {
  less_asymmetric = λ a b h. ground arith;
  not_less_transitive = λ a b c ha hb hc g h. ground arith;
}

abbrev readings : List ℕ
readings = 7 ∷ 3 ∷ 9 ∷ 3 ∷ []

median_status_value-middle_example :
    (count whole (λ y. ltb y (median_status_value whole readings)) readings ≤ length readings / 2)
    × (count whole (λ y. ltb (median_status_value whole readings) y) readings + length readings / 2
        < length readings)
median_status_value-middle_example =
    median_status_value-middle whole whole-IsOrdered readings (refl, (refl, (refl, (refl, tt))))
      (omega arith)

-- 50 is rejected: it is more than 10 from 9.
filter_run-reference_example :
    filter_run whole 10 3 (7 ∷ 3 ∷ 9 ∷ 50 ∷ 12 ∷ []) 5 []
    ≡ reference_run whole 10 3 (7 ∷ 3 ∷ 9 ∷ 50 ∷ 12 ∷ []) (record { last = 5; accepted = [] })
filter_run-reference_example = filter_run-reference whole 10 3 5 (7 ∷ 3 ∷ 9 ∷ 50 ∷ 12 ∷ [])

filter_run_test : filter_run whole 10 3 (7 ∷ 3 ∷ 9 ∷ 50 ∷ 12 ∷ []) 5 [] ≡ 7 ∷ 7 ∷ 7 ∷ 7 ∷ 9 ∷ []
unfolding filter_status_value exceeds push_sample median_status_value median_enabled limit_enabled
    sort insert_value
filter_run_test = refl

abbrev fast : Feedback1 whole
fast = record {
  error = 0;
  position = 4;
  speed = 9;
  current = 2;
  motor_temperature = 30;
  mos_temperature = 40;
}

abbrev stored_state : StatusState whole
stored_state = record (initial_status whole) {
  status = some fast;
  status_life_cycle = pos 5;
  last_accepted = fast;
  max_deltas = record fast { speed = 10 };
}

get_status-lifetime_example :
    (get_status whole (pos 1) (get_all whole (pos 2 ∷ negsuc 6 ∷ pos 2 ∷ []) stored_state)).0 ≡ (
      if total (pos 2 ∷ negsuc 6 ∷ pos 2 ∷ []) == 0 || ltb (total (pos 2 ∷ negsuc 6 ∷ pos 2 ∷ [])) 5
      then some fast
      else none)
get_status-lifetime_example =
    get_status-lifetime whole fast stored_state (pos 2 ∷ negsuc 6 ∷ pos 2 ∷ []) (pos 1) refl
      (omega arith)

status_run-StatusFits_example : StatusFits whole (
    status_run whole
      (median_window 3
        ∷ message pack1 (motor_properties 2)
        ∷ life_cycle (pos 2)
        ∷ status_read (pos 2)
        ∷ [])
      (initial_status whole))
status_run-StatusFits_example = status_run-StatusFits whole (
    median_window 3
    ∷ message pack1 (motor_properties 2)
    ∷ life_cycle (pos 2)
    ∷ status_read (pos 2)
    ∷ [])

abbrev later : Feedback1 whole
later = record fast { position = 800; speed = 700 }

store_status-after_expiry_example :
    (store_status whole later (get_status whole (pos 5) stored_state).1).status
    ≡ some (record later { speed = stored_speed whole later stored_state })
store_status-after_expiry_example =
    store_status-after_expiry whole (pos 5) stored_state later refl refl refl refl (omega arith)

-- The speed has risen to 700 while no status was read; 9 is still reported.
kept_speed : stored_speed whole later stored_state ≡ 9
unfolding filter_status_value exceeds limit_enabled median_enabled
kept_speed = refl
