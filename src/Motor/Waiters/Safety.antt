-- ===== src/Motor/Waiters/Safety.antt =====
-- How many operations the counter counts.
use encos_driver.Prelude.{◌^◌, ◌<◌, ◌≡◌, ◌↔◌, arith, true, u64, none, some, [], ◌∷◌}
use encos_driver.Motor.Waiters.{
  cancel_at, offer_at, with_waiter, reject_waiters, withdraw, waiters_drained,
}
use encos_driver.Motor.Waiters.Threads.{
  waiting, concluded, leaving, returned, count_open, count_open-set, count_open-append, State,
  start, Step, registers, offers, concludes, throws, unregisters, withdraws, rejects, marks, Reach,
  here, next,
}

module _ (Content : Type 0) where
  -- The counter is the number of open operations, modulo 2 ^ 64.
  abbrev Counted : State Content → Type 0
  Counted s = s.shared.active ≡ u64 (count_open s.operations)

  Step-Counted : {s t : State Content} → Step Content s t → Counted s → Counted t
  unfolding cancel_at offer_at with_waiter reject_waiters withdraw
  Step-Counted (registers s w r c d) v =
      omega (arith, count_open-append s.operations (waiting ∷ []))
  Step-Counted (offers s m i) v = v
  Step-Counted (concludes s i w at found) v =
      omega (arith, count_open-set s.operations i waiting (concluded w.completed) at)
  Step-Counted (throws s i at) v =
      omega (arith, count_open-set s.operations i waiting (leaving none) at)
  Step-Counted (unregisters s i b at) v =
      omega (arith, count_open-set s.operations i (concluded b) (leaving (some b)) at)
  Step-Counted (withdraws s i b at) v =
      omega (arith, count_open-set s.operations i (leaving b) (returned b) at)
  Step-Counted (rejects s r) v = v
  Step-Counted (marks s i is e) v = v

  Reach-Counted : {s t : State Content} → Reach Content s t → Counted s → Counted t
  Reach-Counted here v = v
  Reach-Counted (next r st) v = Step-Counted st (Reach-Counted r v)

  -- In every reachable state with fewer than 2 ^ 64 operations, the waiters are drained exactly if
  -- no operation is between its registration and the end of its `unregister`.
  pub waiters_drained-exact :
      {s : State Content}
      → Reach Content (start Content) s
      → count_open s.operations < 2 ^ 64
      → (waiters_drained Content s.shared ≡ true) ↔ (count_open s.operations ≡ 0)
  unfolding waiters_drained
  waiters_drained-exact r h = let v = Reach-Counted r (omega arith) in ground arith
