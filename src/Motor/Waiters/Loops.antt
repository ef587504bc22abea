-- ===== src/Motor/Waiters/Loops.antt =====
-- The loops of the receive thread and of the cancellation, as sequences of steps.
use encos_driver.Prelude.{ℕ, if◌then◌else◌, ◌≡◌, refl, sym, subst, false, List, [], ◌∷◌}
use encos_driver.Frame.{MotorPackMsg}
use encos_driver.Motor.Waiters.{
  cancel_at, cancel_each, cancel_waiters, offer_at, offer_each, on_message_waiters, reject_waiters,
}
use encos_driver.Motor.Waiters.Threads.{State, Step, Reach, offers, rejects, marks, here, next}

module _ (Content : Type 0) where
  Reach-first : {s t u : State Content} → Step Content s t → Reach Content t u → Reach Content s u
  Reach-first st here = next here st
  Reach-first st (next r last) = next (Reach-first st r) last

  Reach-trans : {s t u : State Content} → Reach Content s t → Reach Content t u → Reach Content s u
  Reach-trans r here = r
  Reach-trans r (next q st) = next (Reach-trans r q) st

  Reach-offer_each :
      (m : MotorPackMsg) (is : List ℕ) (s : State Content)
      → Reach Content s (record s { shared = offer_each Content m is s.shared })
  unfolding offer_each
  Reach-offer_each m [] s = here
  Reach-offer_each m (i ∷ is) s =
      Reach-first (offers s m i)
        (Reach-offer_each m is (record s { shared = offer_at Content m i s.shared }))

  -- The receive thread's loop over the waiters is a sequence of steps.
  Reach-on_message_waiters :
      (m : MotorPackMsg) (s : State Content)
      → Reach Content s (record s { shared = on_message_waiters Content m s.shared })
  unfolding on_message_waiters
  Reach-on_message_waiters m s = Reach-offer_each m s.shared.waiters s

  Reach-cancel_each :
      (is : List ℕ) (s : State Content)
      → Reach Content
          (record s { pending = is })
          (record s { shared = cancel_each Content is s.shared; pending = [] })
  unfolding cancel_each
  Reach-cancel_each [] s = here
  Reach-cancel_each (i ∷ is) s =
      Reach-first (marks (record s { pending = i ∷ is }) i is refl)
        (Reach-cancel_each is (record s { shared = cancel_at Content i s.shared }))

  -- So is `CancelWaitersWithoutDrain`.
  Reach-cancel_waiters :
      (s : State Content)
      → s.shared.rejecting ≡ false
      → Reach Content s (record s { shared = cancel_waiters Content s.shared; pending = [] })
  unfolding cancel_waiters
  Reach-cancel_waiters s r =
      subst
        (λ b. Reach Content s (record s {
          shared =
              if b
              then s.shared
              else cancel_each Content s.shared.waiters (reject_waiters Content s.shared);
          pending = [];
        }))
        (sym r)
        (Reach-first (rejects s r) (
          Reach-cancel_each s.shared.waiters
            (record s { shared = reject_waiters Content s.shared })))
