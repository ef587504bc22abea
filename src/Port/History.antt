-- ===== src/Port/History.antt =====
-- Whole histories of calls of one `Port` (include/utils/port.h) by one thread at a time, against
-- the bounded queue.
use encos_driver.Prelude.{
  ℕ, suc, ◌+◌, ◌^◌, ◌≤◌, ◌<◌, ◌≡◌, refl, ap, ap₂, ◌∙◌, Bool, true, false, if◌then◌else◌, Option,
  none, some, List, [], ◌∷◌, ◌++◌, arith, length, length-append,
}
use encos_driver.Port.{Port, Popped, new_port, push, pop, clear, is_empty}
use encos_driver.Port.Queue.{enqueue, dequeue, is_nil, unread, unread-push, unread-nil}
use encos_driver.Port.Refine.{
  Inv, new_port-Inv, push-Inv, pop_refines, clear_refines, is_empty-eq, callback-push,
}

pub data Call {ℓ} (Message : Type ℓ) : Type ℓ where
  pushes : Message → Call Message
  pops clears asks_empty : Call Message

-- What a call returns; for a push, the message that the callback gets.
pub data Reply {ℓ} (Message : Type ℓ) : Type ℓ where
  called_back : Option Message → Reply Message
  popped : Popped Message → Reply Message
  cleared : Bool → Reply Message
  emptiness : Option Bool → Reply Message

new_port_fields {ℓ} :
    (Message : Type ℓ) (b : Bool)
    → let p = new_port {Message = Message} b in (p.has_callback ≡ b) × (0 < p.consumer_sequence)
unfolding new_port
new_port_fields Message b = (refl, omega arith)

module _ {ℓ} {Message : Type ℓ} where
  pub step : ℕ → ℕ → Port Message → Call Message → Port Message × Reply Message
  step len fuel p (pushes m) = let (q, c) = push len p m in (q, called_back c)
  step len fuel p pops = let (q, r) = pop len fuel p in (q, popped r)
  step len fuel p clears = elim (clear fuel p) [
    | none ↦ (p, cleared false)
    | some q ↦ (q, cleared true)
  ]
  step len fuel p asks_empty = let (q, b) = is_empty fuel p in (q, emptiness b)

  pub run : ℕ → ℕ → Port Message → List (Call Message) → List (Reply Message)
  run len fuel p [] = []
  run len fuel p (c ∷ cs) = let (q, r) = step len fuel p c in r ∷ run len fuel q cs

  pub queue_step : ℕ → Bool → List Message → Call Message → List Message × Reply Message
  queue_step len b q (pushes m) = (enqueue len q m, called_back (if b then some m else none))
  queue_step len b q pops = let (q', r) = dequeue q in (q', popped r)
  queue_step len b q clears = ([], cleared true)
  queue_step len b q asks_empty = (q, emptiness (some (is_nil q)))

  pub queue_run : ℕ → Bool → List Message → List (Call Message) → List (Reply Message)
  queue_run len b q [] = []
  queue_run len b q (c ∷ cs) = let (q', r) = queue_step len b q c in r ∷ queue_run len b q' cs

  abbrev logged : List Message → Call Message → List Message
  logged log (pushes m) = log ++ m ∷ []
  logged log pops = log
  logged log clears = log
  logged log asks_empty = log

  -- A call keeps the invariant, and what it shows and leaves unread is what the queue says.
  abbrev Follows :
      ℕ → Bool → List Message → Port Message → Call Message → Port Message × Reply Message → Type ℓ
  Follows len b log p c (q, r) =
      Inv len (logged log c) q
      × ((unread len (logged log c) q.consumer_sequence, r)
          ≡ queue_step len b (unread len log p.consumer_sequence) c)
      × (q.has_callback ≡ b)

  step-Follows :
      (len fuel : ℕ) (b : Bool) (log : List Message) (p : Port Message) (c : Call Message)
      → 0 < len
      → length log + 1 < 2 ^ 64
      → p.has_callback ≡ b
      → Inv len log p
      → Follows len b log p c (step len (suc fuel) p c)
  unfolding step queue_step
  step-Follows len fuel b log p (pushes m) pos bound cb v =
      let (kept, called, still) = callback-push len p m in
      (
        push-Inv len log p m pos bound v,
        ap₂ (λ q r. (q, called_back r))
            (ap (unread len (log ++ m ∷ [])) still
              ∙ unread-push len log p.consumer_sequence m pos v.waits_next)
            (called ∙ ap (λ b. if b then some m else none) cb),
        kept ∙ cb,
      )
  step-Follows len fuel b log p pops pos bound cb v =
      let (inv, same, kept) = pop_refines len fuel log p pos bound v in
      (inv, ap (λ (q, r). (q, popped r)) same, kept ∙ cb)
  step-Follows len fuel b log p clears pos bound cb v =
      let (same, inv, gone) = clear_refines len fuel log p bound v in
      rw (step, same) (inv, ap (λ q. (q, cleared true)) gone, cb)
  step-Follows len fuel b log p asks_empty pos bound cb v =
      rw (is_empty-eq len fuel log p pos bound v) (v, refl, cb)

  length-logged : (log : List Message) (c : Call Message) → length (logged log c) ≤ length log + 1
  length-logged log (pushes m) = omega (arith, length-append log (m ∷ []))
  length-logged log pops = omega arith
  length-logged log clears = omega arith
  length-logged log asks_empty = omega arith

  run_refines_from :
      (len fuel : ℕ) (b : Bool) (log : List Message) (p : Port Message) (cs : List (Call Message))
      → 0 < len
      → length log + length cs < 2 ^ 64
      → p.has_callback ≡ b
      → Inv len log p
      → run len (suc fuel) p cs ≡ queue_run len b (unread len log p.consumer_sequence) cs
  unfolding run queue_run
  run_refines_from len fuel b log p [] pos bound cb v = refl
  run_refines_from len fuel b log p (c ∷ cs) pos bound cb v =
      let (inv, same, kept) = step-Follows len fuel b log p c pos (omega arith) cb v in
      let q = (step len (suc fuel) p c).0 in
      let grows = length-logged log c in
      ap₂ ◌∷◌ (ap (λ s. s.1) same) (
        run_refines_from len fuel b (logged log c) q cs pos (omega arith) kept inv
        ∙ ap (λ s. queue_run len b s.0 cs) same)

  -- For every capacity above 0 and every history of fewer than 2^64 pushes, pops, clears and
  -- emptiness tests of a new port, with one round of fuel or more, the replies are exactly those of
  -- the queue that keeps the newest `len` unread messages: the callback gets each pushed message if
  -- there is one, no pop starves or reads an unconstructed cell, and no call runs out of fuel.
  pub run_refines :
      (len fuel : ℕ) (b : Bool) (cs : List (Call Message))
      → 0 < len
      → length cs < 2 ^ 64
      → run len (suc fuel) (new_port b) cs ≡ queue_run len b [] cs
  run_refines len fuel b cs pos bound =
      run_refines_from len fuel b [] (new_port b) cs pos (omega arith) (new_port_fields Message b).0
        (new_port-Inv len b)
      ∙ ap (λ q. queue_run len b q cs) (unread-nil len [] _ (new_port_fields Message b).1)
