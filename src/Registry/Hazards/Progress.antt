-- ===== src/Registry/Hazards/Progress.antt =====
-- The wait of the writer of the registry (src/operation_gate.h) for its readers ends.
use native.Mathlib.Decide.{ℕ_discrete}
use encos_driver.Prelude.{
  ℕ, zero, suc, ◌+◌, ◌-◌, ◌≡◌, ◌≢◌, ◌<◌, refl, false, Option, none, some, arith, ◌∙◌, ap,
}
use encos_driver.Registry.Hazards.{
  Reader, outside, looking, loaded, stored, validated, quiet, waiting, State, put, load, store,
  retry, clear_hazard, pass, delete, Reach, Steps, done, after,
}
use encos_driver.Registry.Hazards.Safety.{Valid, step-Valid, Reach-Valid, Shown-at, Held-at}

Steps-append : {n : ℕ} {s t u : State} → Steps n s t → Steps n t u → Steps n s u
Steps-append done q = q
Steps-append (after st p) q = after st (Steps-append p q)

Steps-Valid : (n : ℕ) {s t : State} → Steps n s t → Valid n s → Valid n t
Steps-Valid n done v = v
Steps-Valid n (after st p) v = Steps-Valid n p (step-Valid n st v)

some-ne : (a p : ℕ) (h : Option ℕ) → h ≡ some a → p ≢ a → h ≢ some p
some-ne a p h e ne same = ne (cc)

module _ (n p j : ℕ) where
  -- Steps of one reader after which its slot does not show the snapshot.
  abbrev Cleared : State → Type 0
  Cleared s = (t : State) × Steps n s t × (t.writer ≡ s.writer) × (t.hazards j ≢ some p)

  from_looking : (s : State) → p ≢ s.current → s.readers j ≡ looking → Cleared s
  from_looking s ne e =
      let one : State = record s { readers = put s.readers j (loaded s.current) } in
      let shows : one.readers j ≡ loaded s.current = ground arith in
      (
        record one {
          hazards = put one.hazards j (some s.current);
          readers = put one.readers j (stored s.current);
        },
        after (load j e) (after (store j s.current shows) done),
        refl,
        some-ne s.current p _ (ground arith) ne,
      )

  from_stored :
      (s : State) (a : ℕ)
      → p ≢ s.current
      → s.hazards j ≡ some a
      → s.readers j ≡ stored a
      → Cleared s
  from_stored s a ne h e = elim (ℕ_discrete a s.current) [
    | yes same ↦ (s, done, refl, some-ne a p (s.hazards j) h (λ q. ne (q ∙ same)))
    | no other ↦
        let one : State = record s { readers = put s.readers j looking } in
        let (t, path, w, clear) = from_looking one ne (ground arith) in
        (t, after (retry j a e other) path, w, clear)
  ]

  from_loaded : (s : State) (a : ℕ) → p ≢ s.current → s.readers j ≡ loaded a → Cleared s
  from_loaded s a ne e =
      let one : State = record s {
        hazards = put s.hazards j (some a);
        readers = put s.readers j (stored a);
      } in
      let (t, path, w, clear) = from_stored one a ne (ground arith) (ground arith) in
      (t, after (store j a e) path, w, clear)

  clear_slot : (s : State) (r : Reader) → Valid n s → p ≢ s.current → s.readers j ≡ r → Cleared s
  clear_slot s outside v ne e =
      (s, done, refl, λ h. absurd (cc (Shown-at n s j outside v e ∙ refl)))
  clear_slot s looking v ne e = from_looking s ne e
  clear_slot s (loaded a) v ne e = from_loaded s a ne e
  clear_slot s (stored a) v ne e = from_stored s a ne (Shown-at n s j (stored a) v e).1 e
  clear_slot s (validated a) v ne e = (
    record s { hazards = put s.hazards j none; readers = put s.readers j outside },
    after (clear_hazard j a e) done,
    refl,
    λ h. ground arith,
  )

  pass_slot :
      (s : State)
      → Valid n s
      → s.writer ≡ waiting p j
      → j < n
      → (t : State) × Steps n s t × (t.writer ≡ waiting p (suc j))
  pass_slot s v w l =
      let (live, ne, bound) = Held-at n s (waiting p j) v w in
      let (t, path, same, clear) = clear_slot s (s.readers j) v ne refl in
      (
        record t { writer = waiting p (suc j) },
        Steps-append path (after (pass p j (same ∙ w) l clear) done),
        refl,
      )

-- The rest of the wait, over the slots that are left.
wait_ends :
    (n p left j : ℕ) (s : State)
    → Valid n s
    → s.writer ≡ waiting p j
    → j + left ≡ n
    → (t : State) × Steps n s t × (t.writer ≡ quiet) × (t.live p ≡ false)
wait_ends n p zero j s v w e =
    let at_end : s.writer ≡ waiting p n = w ∙ ap (waiting p) (omega arith) in
    (
      record s { live = put s.live p false; writer = quiet },
      after (delete p at_end) done,
      refl,
      ground arith,
    )
wait_ends n p (suc left) j s v w e =
    let (t, path, w') = pass_slot n p j s v w (omega arith) in
    let (u, rest, q, dead) = wait_ends n p left (suc j) t (Steps-Valid n path v) w' (omega arith) in
    (u, Steps-append path rest, q, dead)

-- From every reachable state in which the writer waits for the readers of a snapshot, there are steps
-- after which it has deleted that snapshot, so no state blocks the writer for ever.
pub writer-finishes :
    (n : ℕ) (s : State) (p j : ℕ)
    → Reach n s
    → s.writer ≡ waiting p j
    → (t : State) × Steps n s t × (t.writer ≡ quiet) × (t.live p ≡ false)
writer-finishes n s p j r w =
    let v = Reach-Valid n r in
    let (live, ne, bound) = Held-at n s (waiting p j) v w in
    wait_ends n p (n - j) j s v w (omega arith)
