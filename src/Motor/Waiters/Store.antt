-- ===== src/Motor/Waiters/Store.antt =====
-- What the steps keep of a waiter in the store.
use encos_driver.Prelude.{
  ℕ, zero, suc, ◌≡◌, ◌<◌, refl, ◌∙◌, arith, some, List, [], ◌∷◌, ◌++◌, length, get_elem?,
  get_elem?-append,
}
use encos_driver.Frame.{MotorPackMsg}
use encos_driver.Motor.Waiters.{
  Waiter, update, cancel_at, mark_cancelled, offer, offer_at, with_waiter, reject_waiters, withdraw,
}
use encos_driver.Motor.Waiters.Threads.{
  State, Step, registers, offers, concludes, throws, unregisters, withdraws, rejects, marks, Reach,
  here, next,
}

module _ (Content : Type 0) (P : Waiter Content → Type 0) where
  -- The waiter at an address satisfies the predicate.
  pub record At (i : ℕ) (store : List (Waiter Content)) : Type 0 where
    pub waiter : Waiter Content
    pub found : get_elem? store i ≡ some waiter
    pub holds : P waiter

  At-tail :
      {i : ℕ} {w : Waiter Content} {ws : List (Waiter Content)} → At i ws → At (suc i) (w ∷ ws)
  At-tail h = record { waiter = h.waiter; found = h.found; holds = h.holds }

  At-pred :
      {i : ℕ} {w : Waiter Content} {ws : List (Waiter Content)} → At (suc i) (w ∷ ws) → At i ws
  At-pred h = record { waiter = h.waiter; found = h.found; holds = h.holds }

  pub At-update :
      (g : Waiter Content → Waiter Content) (keeps : (w : Waiter Content) → P w → P (g w)) (i j : ℕ)
      (ws : List (Waiter Content))
      → At j ws
      → At j (update Content i g ws)
  At-update g keeps i j [] h = h
  At-update g keeps zero zero (w ∷ ws) h =
      let same : w ≡ h.waiter = cc in
      record { waiter = g w; found = refl; holds = keeps w (rw same h.holds) }
  At-update g keeps zero (suc j) (w ∷ ws) h = At-tail (At-pred h)
  At-update g keeps (suc i) zero (w ∷ ws) h = record {
    waiter = w;
    found = refl;
    holds = (let same : w ≡ h.waiter = cc in rw same h.holds);
  }
  At-update g keeps (suc i) (suc j) (w ∷ ws) h = At-tail (At-update g keeps i j ws (At-pred h))

  pub At-update_self :
      (g : Waiter Content → Waiter Content) (makes : (w : Waiter Content) → P (g w)) (i : ℕ)
      (ws : List (Waiter Content))
      → i < length ws
      → At i (update Content i g ws)
  At-update_self g makes i [] h = absurd (omega arith)
  At-update_self g makes zero (w ∷ ws) h = record { waiter = g w; found = refl; holds = makes w }
  At-update_self g makes (suc i) (w ∷ ws) h = At-tail (At-update_self g makes i ws (omega arith))

  get_elem?-bounded :
      (ws : List (Waiter Content)) (i : ℕ) (w : Waiter Content)
      → get_elem? ws i ≡ some w
      → i < length ws
  get_elem?-bounded [] i w e = cc
  get_elem?-bounded (x ∷ ws) zero w e = omega arith
  get_elem?-bounded (x ∷ ws) (suc i) w e = omega (arith, get_elem?-bounded ws i w e)

  pub At-append : (i : ℕ) (ws vs : List (Waiter Content)) → At i ws → At i (ws ++ vs)
  At-append i ws vs h = record {
    waiter = h.waiter;
    found = get_elem?-append ws vs i (get_elem?-bounded ws i h.waiter h.found) ∙ h.found;
    holds = h.holds;
  }

  module _ (keeps_cancel : (w : Waiter Content) → P w → P (mark_cancelled Content w))
      (keeps_offer : (m : MotorPackMsg) (w : Waiter Content) → P w → P (offer Content m w)) where
    pub Step-At :
        {i : ℕ} {s t : State Content} → Step Content s t → At i s.shared.store → At i t.shared.store
    unfolding cancel_at offer_at with_waiter reject_waiters withdraw
    Step-At {i} (registers s w r c d) h = At-append i s.shared.store (w ∷ []) h
    Step-At {i} (offers s m j) h = At-update (offer Content m) (keeps_offer m) j i s.shared.store h
    Step-At (concludes s j w at found) h = h
    Step-At {i} (throws s j at) h =
        At-update (mark_cancelled Content) keeps_cancel j i s.shared.store h
    Step-At {i} (unregisters s j b at) h =
        At-update (mark_cancelled Content) keeps_cancel j i s.shared.store h
    Step-At (withdraws s j b at) h = h
    Step-At (rejects s r) h = h
    Step-At {i} (marks s j is e) h =
        At-update (mark_cancelled Content) keeps_cancel j i s.shared.store h

    pub Reach-At :
        {i : ℕ} {s t : State Content}
        → Reach Content s t
        → At i s.shared.store
        → At i t.shared.store
    Reach-At here h = h
    Reach-At (next r st) h = Step-At st (Reach-At r h)
