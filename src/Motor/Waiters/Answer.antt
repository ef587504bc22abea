-- ===== src/Motor/Waiters/Answer.antt =====
-- Which message answers a waiter.
use encos_driver.Prelude.{
  ◌≡◌, refl, sym, subst, arith, Bool, true, false, ◌||◌, if◌then◌else◌, Bool-cases, Option, none,
  some, inl, inr, length, get_elem?-last,
}
use encos_driver.Frame.{MotorPackMsg}
use encos_driver.Motor.Waiters.{
  Waiter, Waiters, checked, mark_cancelled, offer, with_waiter, answered_by,
}
use encos_driver.Motor.Waiters.Threads.{State, Reach}
use encos_driver.Motor.Waiters.Store.{At, Reach-At}

or_left : (a b : Bool) → a || b ≡ false → a ≡ false
or_left a b h = ground arith

or_right : (a b : Bool) → a || b ≡ false → b ≡ false
or_right a b h = ground arith

module _ (Content : Type 0) where
  -- A waiter against the one that was with_waiter: while it is neither completed nor cancelled its
  -- content is the with_waiter one, and once it is completed its content is what its writer made of
  -- the with_waiter one and of a message that its checker accepts.
  pub record Answered (new : Waiter Content) (w : Waiter Content) : Type 0 where
    pub checks : w.checker ≡ new.checker
    pub writes : w.writer ≡ new.writer
    pub untouched : w.completed ≡ false → w.cancelled ≡ false → w.content ≡ new.content
    pub answer :
        w.completed ≡ true
        → (m : MotorPackMsg) × (new.checker m ≡ some true)
          × (new.writer m new.content ≡ (w.content, false))

  written_is :
      (new : Waiter Content) (m : MotorPackMsg) (w : Waiter Content) (c : Content)
      → Answered new w
      → w.completed ≡ false
      → w.cancelled ≡ false
      → w.writer m w.content ≡ (c, false)
      → new.writer m new.content ≡ (c, false)
  written_is new m w c h open_ fresh e = rw (h.writes, h.untouched open_ fresh) at e

  module _ (new : Waiter Content) where
    answered_by-Answered :
        (m : MotorPackMsg) (w : Waiter Content) (r : Content × Bool)
        → Answered new w
        → w.completed ≡ false
        → w.cancelled ≡ false
        → w.checker m ≡ some true
        → w.writer m w.content ≡ r
        → Answered new (answered_by Content r w)
    answered_by-Answered m w (c, true) h open_ fresh e written_ = record {
      checks = h.checks;
      writes = h.writes;
      untouched = λ p q. absurd cc;
      answer = λ p. absurd cc;
    }
    answered_by-Answered m w (c, false) h open_ fresh e written_ = record {
      checks = h.checks;
      writes = h.writes;
      untouched = λ p q. absurd cc;
      answer = λ p. (m, cc, written_is new m w c h open_ fresh written_);
    }

    checked-Answered :
        (m : MotorPackMsg) (w : Waiter Content) (o : Option Bool)
        → Answered new w
        → w.completed ≡ false
        → w.cancelled ≡ false
        → w.checker m ≡ o
        → Answered new (checked Content o m w)
    checked-Answered m w none h open_ fresh e = record {
      checks = h.checks;
      writes = h.writes;
      untouched = λ p q. absurd cc;
      answer = λ p. absurd cc;
    }
    checked-Answered m w (some false) h open_ fresh e = h
    checked-Answered m w (some true) h open_ fresh e =
        answered_by-Answered m w (w.writer m w.content) h open_ fresh e refl

    offer-Answered :
        (m : MotorPackMsg) (w : Waiter Content) → Answered new w → Answered new (offer Content m w)
    unfolding offer
    offer-Answered m w h =
        let round = λ (b : Bool). if b then w else checked Content (w.checker m) m w in
        elim (Bool-cases (w.cancelled || w.completed)) [
          | inl closed ↦ subst (λ b. Answered new (round b)) (sym closed) h
          | inr open_ ↦
              subst (λ b. Answered new (round b)) (sym open_)
                (checked-Answered m w (w.checker m) h (or_right w.cancelled w.completed open_)
                  (or_left w.cancelled w.completed open_) refl)
        ]

    cancelled-Answered :
        (w : Waiter Content) → Answered new w → Answered new (mark_cancelled Content w)
    cancelled-Answered w h = record {
      checks = h.checks;
      writes = h.writes;
      untouched = λ p q. absurd cc;
      answer = h.answer;
    }

    new-Answered : new.completed ≡ false → Answered new new
    new-Answered c = record {
      checks = refl;
      writes = refl;
      untouched = λ p q. refl;
      answer = λ p. absurd cc;
    }

    -- However the threads interleave after a waiter is with_waiter: it stays in the store with its
    -- checker and writer; its content is the with_waiter one while it is neither completed nor
    -- cancelled; and once it is completed its content is what the writer made of the with_waiter
    -- content and one message that the checker accepts, so that no later message changes it.
    pub with_waiter-Answered :
        (s : Waiters Content) (t u : State Content)
        → new.completed ≡ false
        → t.shared ≡ with_waiter Content new s
        → Reach Content t u
        → At Content (Answered new) (length s.store) u.shared.store
    unfolding with_waiter
    with_waiter-Answered s t u c e r =
        Reach-At Content (Answered new) cancelled-Answered offer-Answered r (
          subst (λ (v : Waiters Content). At Content (Answered new) (length s.store) v.store)
            (sym e)
            (record { waiter = new; found = get_elem?-last s.store new; holds = new-Answered c }))
