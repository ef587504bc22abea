-- ===== src/Relay/QueueTrim.antt =====
-- plugins/adapter/relayWs/relay_bounded_queue.h keeps the newest messages.
use encos_driver.Prelude.{
  ℕ, ◌+◌, ◌-◌, ◌≡◌, refl, ap, sym, ◌∙◌, leb, List, ◌++◌, length, drop, arith, Bool-cases, inl, inr,
  length-append, append_assoc, drop-drop, drop-append, length-drop,
}
use encos_driver.Relay.Queue.{trim_to_newest, reinsert_failed}

-- Putting messages back.
trim_to_newest-drop {ℓ} :
    {A : Type ℓ} (xs : List A) (capacity : ℕ)
    → trim_to_newest xs capacity ≡ drop (length xs - capacity) xs
unfolding trim_to_newest
trim_to_newest-drop {A} xs capacity = elim (Bool-cases (leb (length xs) capacity)) [
  | inl yes_ ↦
      let none_over : length xs - capacity ≡ 0 = ground arith in
      rw (yes_, none_over, trim_to_newest) refl
  | inr no_ ↦ rw (no_, trim_to_newest) refl
]

-- When messages that could not be sent are put back, and later again in front of what was queued
-- since, the queue holds the newest of all of them in their order, whatever the first trim dropped.
pub reinsert_failed-newest {ℓ} :
    {A : Type ℓ} (failed current later : List A) (capacity : ℕ)
    → reinsert_failed later (reinsert_failed current failed capacity) capacity
      ≡ drop (length (failed ++ (current ++ later)) - capacity) (failed ++ (current ++ later))
unfolding reinsert_failed
reinsert_failed-newest {A} failed current later capacity =
    let xs = failed ++ current in
    let n = length xs in
    let k = n - capacity in
    let first = trim_to_newest-drop xs capacity in
    let size = length-drop k xs in
    let total = length-append xs later in
    let kept = length-append (drop k xs) later in
    let counted : k + (length (drop k xs ++ later) - capacity) ≡ length (xs ++ later) - capacity =
      omega arith in
    ap (λ t. trim_to_newest (t ++ later) capacity) first
    ∙ trim_to_newest-drop (drop k xs ++ later) capacity
    ∙ ap (drop (length (drop k xs ++ later) - capacity))
        (sym (drop-append k xs later (omega arith)))
    ∙ drop-drop (length (drop k xs ++ later) - capacity) k (xs ++ later)
    ∙ ap (λ (m : ℕ). drop m (xs ++ later)) counted
    ∙ ap (λ t. drop (length t - capacity) t) (append_assoc failed current later)
