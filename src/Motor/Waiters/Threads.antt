-- ===== src/Motor/Waiters/Threads.antt =====
-- The operations that wait, the receive thread and the cancelling thread, interleaved at the
-- critical sections of src/device/motor/motor.cc.
use encos_driver.Prelude.{
  ℕ, zero, suc, ◌+◌, ◌≡◌, Bool, false, Option, none, some, List, [], ◌∷◌, ◌++◌, get_elem?, set, ap,
  arith,
}
use encos_driver.Frame.{MotorPackMsg}
use encos_driver.Motor.Waiters.{
  Waiter, Waiters, no_waiters, cancel_at, offer_at, with_waiter, reject_waiters, withdraw,
}

-- Where an operation stands. It waits, and may stop for a completion, a cancellation, the timeout or
-- a spurious end of the wait; what `completed` held then is its result. It unregisters in two
-- sections: `leaving` is between them, with no result if the send threw.
pub data OperationPhase : Type 0 where
  waiting : OperationPhase
  concluded : Bool → OperationPhase
  leaving : Option Bool → OperationPhase
  returned : Option Bool → OperationPhase

-- 1 for an operation between its registration and the end of `unregister`.
abbrev is_open : OperationPhase → ℕ
is_open waiting = 1
is_open (concluded _) = 1
is_open (leaving _) = 1
is_open (returned _) = 0

abbrev pub count_open : List OperationPhase → ℕ
count_open [] = 0
count_open (p ∷ ps) = is_open p + count_open ps

module _ (Content : Type 0) where
  -- The operation with the waiter at address `i` is the `i`th of the operations. `pending` is what
  -- the cancelling thread took out of the registry and has not marked yet.
  pub record State : Type 0 where
    pub shared : Waiters Content
    pub operations : List OperationPhase
    pub pending : List ℕ

  abbrev pub start : State
  start = record { shared = no_waiters Content; operations = []; pending = [] }

  abbrev steps_to : State → ℕ → OperationPhase → State
  steps_to s i p = record s { operations = set s.operations i p }

  pub data Step : State → State → Type 0 where
    registers :
        (s : State) (waiter : Waiter Content)
        → s.shared.rejecting ≡ false
        → waiter.completed ≡ false
        → waiter.cancelled ≡ false
        → Step s (record s {
          shared = with_waiter Content waiter s.shared;
          operations = s.operations ++ waiting ∷ [];
        })
    -- The receive thread holds a snapshot, so it may offer a message to a waiter that has left.
    offers :
        (s : State) (message : MotorPackMsg) (i : ℕ)
        → Step s (record s { shared = offer_at Content message i s.shared })
    concludes :
        (s : State) (i : ℕ) (waiter : Waiter Content)
        → get_elem? s.operations i ≡ some waiting
        → get_elem? s.shared.store i ≡ some waiter
        → Step s (steps_to s i (concluded waiter.completed))
    throws :
        (s : State) (i : ℕ)
        → get_elem? s.operations i ≡ some waiting
        → Step s (record (steps_to s i (leaving none)) { shared = cancel_at Content i s.shared })
    unregisters :
        (s : State) (i : ℕ) (result : Bool)
        → get_elem? s.operations i ≡ some (concluded result)
        → Step s (record (steps_to s i (leaving (some result))) {
          shared = cancel_at Content i s.shared;
        })
    withdraws :
        (s : State) (i : ℕ) (result : Option Bool)
        → get_elem? s.operations i ≡ some (leaving result)
        → Step s
            (record (steps_to s i (returned result)) { shared = (withdraw Content i s.shared).0 })
    rejects :
        (s : State)
        → s.shared.rejecting ≡ false
        → Step s (record s { shared = reject_waiters Content s.shared; pending = s.shared.waiters })
    marks :
        (s : State) (i : ℕ) (is : List ℕ)
        → s.pending ≡ i ∷ is
        → Step s (record s { shared = cancel_at Content i s.shared; pending = is })

  pub data Reach (s : State) : State → Type 0 where
    here : Reach s s
    next : {t u : State} → Reach s t → Step t u → Reach s u

pub count_open-set :
    (ps : List OperationPhase) (i : ℕ) (p q : OperationPhase)
    → get_elem? ps i ≡ some p
    → count_open (set ps i q) + is_open p ≡ count_open ps + is_open q
count_open-set [] i p q e = cc
count_open-set (x ∷ ps) zero p q e =
    let same : x ≡ p = cc in let as_many : is_open x ≡ is_open p = ap is_open same in omega arith
count_open-set (x ∷ ps) (suc i) p q e = omega (arith, count_open-set ps i p q e)

pub count_open-append :
    (ps qs : List OperationPhase) → count_open (ps ++ qs) ≡ count_open ps + count_open qs
count_open-append [] qs = omega arith
count_open-append (p ∷ ps) qs = omega (arith, count_open-append ps qs)
