-- ===== src/Motor/Waiters/Wakes.antt =====
-- A cancellation leaves no operation asleep.
use native.Mathlib.Decide.{ℕ_discrete}
use encos_driver.Prelude.{
  ℕ, zero, suc, ◌≡◌, ◌≢◌, ◌<◌, refl, sym, subst, arith, ap, Bool, true, false, ◌||◌, ◌==◌,
  if◌then◌else◌, Bool-cases, none, some, inl, inr, List, [], ◌∷◌, ◌++◌, length, length-append,
  length-set, get_elem?, set, In, here, there, In-append_left, In-append_right,
}
use encos_driver.Prelude.{◌⊎◌}
use encos_driver.Frame.{MotorPackMsg}
use encos_driver.Motor.Waiters.{
  Waiter, cancel_at, checked, erase, mark_cancelled, offer, offer_at, with_waiter, reject_waiters,
  update, withdraw,
}
use encos_driver.Motor.Waiters.Threads.{
  OperationPhase, waiting, concluded, leaving, returned, State, start, Step, registers, offers,
  concludes, throws, unregisters, withdraws, rejects, marks, Reach,
}
use encos_driver.Motor.Waiters.Threads
use encos_driver.Motor.Waiters.Store.{At, At-update, At-update_self, At-append}

get_elem?-append_one :
    (ps : List OperationPhase) (p q : OperationPhase) (i : ℕ)
    → get_elem? (ps ++ p ∷ []) i ≡ some q
    → (get_elem? ps i ≡ some q) ⊎ (i ≡ length ps)
get_elem?-append_one [] p q zero e = inr refl
get_elem?-append_one [] p q (suc i) e = cc
get_elem?-append_one (x ∷ ps) p q zero e = inl e
get_elem?-append_one (x ∷ ps) p q (suc i) e = elim (get_elem?-append_one ps p q i e) [
  | inl old ↦ inl old
  | inr new ↦ inr (ap suc new)
]

-- An operation that waits after another phase was set waited before, and is another one.
waiting-set :
    (ps : List OperationPhase) (j i : ℕ) (p : OperationPhase)
    → p ≢ waiting
    → get_elem? (set ps j p) i ≡ some waiting
    → (get_elem? ps i ≡ some waiting) × (i ≢ j)
waiting-set [] j i p n e = cc
waiting-set (x ∷ ps) zero zero p n e = absurd (n cc)
waiting-set (x ∷ ps) zero (suc i) p n e = (e, λ h. omega arith)
waiting-set (x ∷ ps) (suc j) zero p n e = (e, λ h. omega arith)
waiting-set (x ∷ ps) (suc j) (suc i) p n e =
    let rest = waiting-set ps j i p n e in (rest.0, λ h. rest.1 (omega arith))

In-erase : (i j : ℕ) (js : List ℕ) → i ≢ j → In i js → In i (erase j js)
unfolding erase
In-erase i j [] n m = m
In-erase i j (_ ∷ ks) n here = elim (ℕ_discrete j i) [
  | yes same ↦ absurd (n (sym same))
  | no other ↦ let kept : (j == i) ≡ false = ground arith in rw kept here
]
In-erase i j (k ∷ ks) n (there m) = elim (Bool-cases (j == k)) [
  | inl yes_ ↦ rw yes_ (In-erase i j ks n m)
  | inr no_ ↦ rw no_ (there (In-erase i j ks n m))
]

In-cons : (i j : ℕ) (js : List ℕ) → In i (j ∷ js) → (i ≡ j) ⊎ In i js
In-cons _ j js here = inl refl
In-cons i j js (there m) = inr m

module _ (Content : Type 0) where
  -- The predicate of the wait.
  abbrev pub IsAwake : Waiter Content → Type 0
  IsAwake w = w.completed || w.cancelled ≡ true

  IsAwake-mark_cancelled : (w : Waiter Content) → IsAwake (mark_cancelled Content w)
  IsAwake-mark_cancelled w = ground arith

  IsAwake-offer : (m : MotorPackMsg) (w : Waiter Content) → IsAwake w → IsAwake (offer Content m w)
  unfolding offer
  IsAwake-offer m w h =
      let round = λ (b : Bool). if b then w else checked Content (w.checker m) m w in
      elim (Bool-cases (w.cancelled || w.completed)) [
        | inl closed ↦ subst (λ b. IsAwake (round b)) (sym closed) h
        | inr open_ ↦ absurd (ground arith)
      ]

  -- Why an operation that waits will be woken by a cancellation.
  data Awaited (i : ℕ) (s : State Content) : Type 0 where
    listed : In i s.shared.waiters → Awaited i s
    taken : In i s.pending → Awaited i s
    woken : At Content IsAwake i s.shared.store → Awaited i s

  record Inv (s : State Content) : Type 0 where
    paired : length s.operations ≡ length s.shared.store
    idle : s.shared.rejecting ≡ false → s.pending ≡ []
    emptied : s.shared.rejecting ≡ true → s.shared.waiters ≡ []
    awaited : (i : ℕ) → get_elem? s.operations i ≡ some waiting → Awaited i s

  length-update :
      (g : Waiter Content → Waiter Content) (i : ℕ) (ws : List (Waiter Content))
      → length (update Content i g ws) ≡ length ws
  length-update g i [] = refl
  length-update g zero (w ∷ ws) = refl
  length-update g (suc i) (w ∷ ws) = ap suc (length-update g i ws)

  start-Inv : Inv (start Content)
  start-Inv = record { paired = refl; idle = λ h. refl; emptied = λ h. refl; awaited = λ i h. cc }

  -- A cancelled waiter is awake, and the others keep their reasons.
  cancel_at-Awaited :
      (i j : ℕ) (s : State Content)
      → Awaited i s
      → Awaited i (record s { shared = cancel_at Content j s.shared })
  unfolding cancel_at
  cancel_at-Awaited i j s (listed m) = listed m
  cancel_at-Awaited i j s (taken m) = taken m
  cancel_at-Awaited i j s (woken h) = woken (
      At-update Content IsAwake (mark_cancelled Content) (λ w k. IsAwake-mark_cancelled w) j i
        s.shared.store h)

  offer_at-Awaited :
      (i j : ℕ) (m : MotorPackMsg) (s : State Content)
      → Awaited i s
      → Awaited i (record s { shared = offer_at Content m j s.shared })
  unfolding offer_at
  offer_at-Awaited i j m s (listed l) = listed l
  offer_at-Awaited i j m s (taken l) = taken l
  offer_at-Awaited i j m s (woken h) =
      woken (At-update Content IsAwake (offer Content m) (IsAwake-offer m) j i s.shared.store h)

  -- The operations do not matter to the reasons.
  steps_to-Awaited :
      (i : ℕ) (s : State Content) (ps : List OperationPhase)
      → Awaited i s
      → Awaited i (record s { operations = ps })
  steps_to-Awaited i s ps (listed m) = listed m
  steps_to-Awaited i s ps (taken m) = taken m
  steps_to-Awaited i s ps (woken h) = woken h

  registers-Awaited :
      (i : ℕ) (s : State Content) (w : Waiter Content) (ps : List OperationPhase)
      → Awaited i s
      → Awaited i (record s { shared = with_waiter Content w s.shared; operations = ps })
  unfolding with_waiter
  registers-Awaited i s w ps (listed m) =
      listed (In-append_left i s.shared.waiters (length s.shared.store ∷ []) m)
  registers-Awaited i s w ps (taken m) = taken m
  registers-Awaited i s w ps (woken h) =
      woken (At-append Content IsAwake i s.shared.store (w ∷ []) h)

  withdraw-Awaited :
      (i j : ℕ) (s : State Content) (ps : List OperationPhase)
      → i ≢ j
      → Awaited i s
      → Awaited i (record s { shared = (withdraw Content j s.shared).0; operations = ps })
  unfolding withdraw
  withdraw-Awaited i j s ps n (listed m) = listed (In-erase i j s.shared.waiters n m)
  withdraw-Awaited i j s ps n (taken m) = taken m
  withdraw-Awaited i j s ps n (woken h) = woken h

  rejects-Awaited :
      (i : ℕ) (s : State Content)
      → s.pending ≡ []
      → Awaited i s
      → Awaited i
          (record s { shared = reject_waiters Content s.shared; pending = s.shared.waiters })
  unfolding reject_waiters
  rejects-Awaited i s e (listed m) = taken m
  rejects-Awaited i s e (taken m) = elim (subst (λ l. In i l) e m) [ ]
  rejects-Awaited i s e (woken h) = woken h

  -- The one that is marked is awake, if it is an operation that waits.
  marks-Awaited :
      (i j : ℕ) (js : List ℕ) (s : State Content)
      → s.pending ≡ j ∷ js
      → i < length s.shared.store
      → Awaited i s
      → Awaited i (record s { shared = cancel_at Content j s.shared; pending = js })
  unfolding cancel_at
  marks-Awaited i j js s e b (listed m) = listed m
  marks-Awaited i j js s e b (taken m) = elim (In-cons i j js (subst (λ l. In i l) e m)) [
    | inl same ↦ woken (
        subst (λ k. At Content IsAwake k (update Content j (mark_cancelled Content) s.shared.store))
          (sym same)
          (At-update_self Content IsAwake (mark_cancelled Content) IsAwake-mark_cancelled j
            s.shared.store (omega arith)))
    | inr later ↦ taken later
  ]
  marks-Awaited i j js s e b (woken h) = woken (
      At-update Content IsAwake (mark_cancelled Content) (λ w k. IsAwake-mark_cancelled w) j i
        s.shared.store h)

  get_elem?-bounded :
      (ps : List OperationPhase) (i : ℕ) (p : OperationPhase)
      → get_elem? ps i ≡ some p
      → i < length ps
  get_elem?-bounded [] i p e = cc
  get_elem?-bounded (x ∷ ps) zero p e = omega arith
  get_elem?-bounded (x ∷ ps) (suc i) p e = omega (arith, get_elem?-bounded ps i p e)

  leaves-Inv :
      (s : State Content) (i : ℕ) (p : OperationPhase)
      → p ≢ waiting
      → Inv s
      → Inv (record s { shared = cancel_at Content i s.shared; operations = set s.operations i p })
  unfolding cancel_at
  leaves-Inv s i p n v = record {
    paired = omega (
      arith,
      v.paired,
      length-set s.operations i p,
      length-update (mark_cancelled Content) i s.shared.store,
    );
    idle = λ h. v.idle h;
    emptied = λ h. v.emptied h;
    awaited = λ j e.
        let was = (waiting-set s.operations i j p n e).0 in
        cancel_at-Awaited j i (record s { operations = set s.operations i p })
          (steps_to-Awaited j s (set s.operations i p) (v.awaited j was));
  }

  Step-Inv : {s t : State Content} → Step Content s t → Inv s → Inv t
  unfolding cancel_at offer_at with_waiter reject_waiters withdraw erase
  Step-Inv (registers s w r c d) v = record {
    paired = omega (
      arith,
      v.paired,
      length-append s.operations (waiting ∷ []),
      length-append s.shared.store (w ∷ []),
    );
    idle = λ h. v.idle h;
    emptied = λ h. absurd cc;
    awaited = λ i e. elim (get_elem?-append_one s.operations waiting waiting i e) [
      | inl old ↦ registers-Awaited i s w (s.operations ++ waiting ∷ []) (v.awaited i old)
      | inr new ↦ listed (
          subst (λ k. In k (s.shared.waiters ++ length s.shared.store ∷ []))
            (omega (arith, v.paired))
            (In-append_right (length s.shared.store) s.shared.waiters (length s.shared.store ∷ [])
              here))
    ];
  }
  Step-Inv (offers s m i) v = record {
    paired = omega (arith, v.paired, length-update (offer Content m) i s.shared.store);
    idle = λ h. v.idle h;
    emptied = λ h. v.emptied h;
    awaited = λ j e. offer_at-Awaited j i m s (v.awaited j e);
  }
  Step-Inv (concludes s i w at found) v = record {
    paired = omega (arith, v.paired, length-set s.operations i (concluded w.completed));
    idle = λ h. v.idle h;
    emptied = λ h. v.emptied h;
    awaited = λ j e.
        steps_to-Awaited j s (set s.operations i (concluded w.completed))
          (v.awaited j (waiting-set s.operations i j (concluded w.completed) (λ h. cc) e).0);
  }
  Step-Inv (throws s i at) v = leaves-Inv s i (leaving none) (λ h. cc) v
  Step-Inv (unregisters s i b at) v = leaves-Inv s i (leaving (some b)) (λ h. cc) v
  Step-Inv (withdraws s i b at) v = record {
    paired = omega (arith, v.paired, length-set s.operations i (returned b));
    idle = λ h. v.idle h;
    emptied = λ h. ap (erase i) (v.emptied h);
    awaited = λ j e.
        let before = waiting-set s.operations i j (returned b) (λ h. cc) e in
        withdraw-Awaited j i s (set s.operations i (returned b)) before.1 (v.awaited j before.0);
  }
  Step-Inv (rejects s r) v = record {
    paired = v.paired;
    idle = λ h. absurd cc;
    emptied = λ h. refl;
    awaited = λ j e. rejects-Awaited j s (v.idle r) (v.awaited j e);
  }
  Step-Inv (marks s i is e) v = record {
    paired = omega (arith, v.paired, length-update (mark_cancelled Content) i s.shared.store);
    idle = λ h. let nothing = v.idle h in absurd cc;
    emptied = λ h. v.emptied h;
    awaited = λ j a.
        marks-Awaited j i is s e
          (omega (arith, v.paired, get_elem?-bounded s.operations j waiting a)) (v.awaited j a);
  }

  Reach-Inv : {s t : State Content} → Reach Content s t → Inv s → Inv t
  Reach-Inv Threads.here v = v
  Reach-Inv (Threads.next r st) v = Step-Inv st (Reach-Inv r v)

  not_awaited :
      (i : ℕ) (s : State Content)
      → s.shared.waiters ≡ []
      → s.pending ≡ []
      → Awaited i s
      → At Content IsAwake i s.shared.store
  not_awaited i s e g (listed m) = elim (subst (λ l. In i l) e m) [ ]
  not_awaited i s e g (taken m) = elim (subst (λ l. In i l) g m) [ ]
  not_awaited i s e g (woken h) = h

  -- In every reachable state in which the waiters are rejected and the cancelling thread has marked
  -- all that it took, each operation that still waits finds its waiter completed or cancelled: no
  -- operation sleeps on, whatever was registered, answered or left in between.
  pub cancelled-IsAwake :
      {s : State Content} (i : ℕ)
      → Reach Content (start Content) s
      → s.shared.rejecting ≡ true
      → s.pending ≡ []
      → get_elem? s.operations i ≡ some waiting
      → At Content IsAwake i s.shared.store
  cancelled-IsAwake {s} i r rejected marked waits =
      let v = Reach-Inv r start-Inv in
      not_awaited i s (v.emptied rejected) marked (v.awaited i waits)
