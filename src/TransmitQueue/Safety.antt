-- ===== src/TransmitQueue/Safety.antt =====
-- What holds of every queue that calls have made: plugins/adapter/ethernet/ethernet_tx_queue.h.
use encos_driver.Prelude.{
  ℕ, ◌+◌, ◌≤◌, ◌<◌, ◌≡◌, refl, ap, ◌∙◌, Bool-cases, inl, inr, ltb, ◌==◌, u64, Bool, true, false,
  not, if◌then◌else◌, List, [], ◌∷◌, ◌++◌, length, All, arith,
}
use encos_driver.Frame.{MotorMessage}
use encos_driver.TransmitQueue.{
  Queue, empty_queue, available, has_channels, push, pop_batch, pop, is_empty,
}

abbrev pub total : List (List MotorMessage) → ℕ
total [] = 0
total (b ∷ bs) = length b + total bs

-- The queues that calls make from an empty one.
pub data Made : Queue → Type 0 where
  fresh : Made empty_queue
  after_push : (q : Queue) (ms : List MotorMessage) → Made q → Made (push q ms).0
  after_pop : (q : Queue) → Made q → Made (pop q).0

-- The size counts the messages, within the capacity, and no batch is empty.
pub record Inv (q : Queue) : Type 0 where
  pub counted : q.size ≡ total q.batches
  pub bounded : q.size ≤ 4096
  pub filled : All (λ (b : List MotorMessage). 0 < length b) q.batches

total-append :
    (bs : List (List MotorMessage)) (b : List MotorMessage)
    → total (bs ++ b ∷ []) ≡ total bs + length b
total-append [] b = omega arith
total-append (c ∷ bs) b = omega (arith, total-append bs b)

filled-append :
    (bs : List (List MotorMessage)) (b : List MotorMessage)
    → All (λ (c : List MotorMessage). 0 < length c) bs
    → 0 < length b
    → All (λ (c : List MotorMessage). 0 < length c) (bs ++ b ∷ [])
filled-append [] b h k = (k, tt)
filled-append (c ∷ bs) b (h, hs) k = (h, filled-append bs b hs k)

pop_batch-Inv :
    (bs : List (List MotorMessage)) (size : ℕ)
    → Inv (record { batches = bs; size = size })
    → Inv (pop_batch bs size).0
unfolding pop_batch
pop_batch-Inv [] size v = v
pop_batch-Inv (b ∷ bs) size v = record {
  counted = omega (arith, v.counted, v.bounded);
  bounded = omega (arith, v.counted, v.bounded);
  filled = v.filled.1;
}

push_fitting-Inv :
    (q : Queue) (ms : List MotorMessage)
    → Inv q
    → ltb (available q) (length ms) ≡ false
    → let result : Queue × Bool =
        if not (has_channels ms)
        then (q, false)
        else if length ms == 0
        then (q, true)
        else (record { batches = q.batches ++ ms ∷ []; size = u64 (q.size + length ms) }, true) in
      Inv result.0
unfolding available
push_fitting-Inv q ms v room =
    let sum = total-append q.batches ms in
    let fits : q.size + length ms ≤ 4096 = ground (arith, v.bounded) in
    elim (Bool-cases (has_channels ms)) [
      | inr bad ↦ rw bad v
      | inl good ↦ elim (Bool-cases (length ms == 0)) [
        | inl nothing ↦ rw (good, nothing) v
        | inr some_messages ↦
            rw (good, some_messages)
              (record {
                counted = omega (arith, v.counted);
                bounded = omega arith;
                filled = filled-append q.batches ms v.filled (ground arith);
              })
      ]
    ]

push-Inv : (q : Queue) (ms : List MotorMessage) → Inv q → Inv (push q ms).0
unfolding push
push-Inv q ms v = elim (Bool-cases (ltb (available q) (length ms))) [
  | inl full ↦ rw full v
  | inr room ↦ rw room (push_fitting-Inv q ms v room)
]

Made-Inv : {q : Queue} → Made q → Inv q
unfolding pop
Made-Inv fresh = record { counted = refl; bounded = omega arith; filled = tt }
Made-Inv (after_push q ms made) = push-Inv q ms (Made-Inv made)
Made-Inv (after_pop q made) = pop_batch-Inv q.batches q.size (Made-Inv made)

abbrev pub is_nil : List (List MotorMessage) → Bool
is_nil [] = true
is_nil (b ∷ bs) = false

empty-filled :
    (bs : List (List MotorMessage))
    → All (λ (b : List MotorMessage). 0 < length b) bs
    → (total bs == 0) ≡ is_nil bs
empty-filled [] h = refl
empty-filled (b ∷ bs) (h, hs) = ground arith

-- In every queue that pushes and pops have made from an empty one, whatever batches were offered,
-- `Available` is the capacity of 4096 less the messages that are queued, without wrap-around, and
-- `Empty` holds exactly if no batch is queued.
pub available-exact :
    (q : Queue) → Made q → (available q + total q.batches ≡ 4096) × (is_empty q ≡ is_nil q.batches)
unfolding available is_empty
available-exact q made =
    let v = Made-Inv made in
    let same = empty-filled q.batches v.filled in
    (omega (arith, v.counted, v.bounded), ap (λ (n : ℕ). n == 0) v.counted ∙ same)
