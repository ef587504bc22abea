-- ===== src/Port/Refine.antt =====
-- `Port` (include/utils/port.h), used by one thread at a time, is the bounded queue of Port/Queue.
use native.Mathlib.Nat.{mod-lt, mod-eq_of_lt, mod-add-mod, mod-eq-sub-mod}
use encos_driver.Prelude.{
  ℕ, suc, ◌+◌, ◌-◌, ◌%◌, ◌^◌, ◌≤◌, ◌<◌, ◌≡◌, ◌≢◌, refl, sym, ap, u64, Bool, false, ltb,
  if◌then◌else◌, none, some, List, [], ◌∷◌, ◌++◌, arith, length, get_elem?, length-append,
  get_elem?-append, get_elem?-last, get_elem?-lt, max, Bool-cases, inl, inr, ltb→lt,
}
use encos_driver.Port.{
  Port, Popped, message, nothing, new_port, push, pop, pop_at, take_target, settle, read_port_head,
  fill_slot, oldest_kept, at_least, clear, is_empty,
}
use encos_driver.Port.Publication.{publish, update}
use encos_driver.Port.Cells.{
  HeadReady, HeadAt, SlotReady, Holds, publish-HeadReady, publish-HeadAt, fill_slot-SlotReady,
  fill_slot-Holds, read_target-eq, read_head-eq, update_self, update_cases,
}
use encos_driver.Port.Queue.{
  dequeue, unread, unread-nil, unread-take, dequeue-nil, is_nil, is_nil-unread,
}

-- Two sequences less than `len` apart use different slots.
slot_ne : (len k n : ℕ) → k < n → n < k + len → k % len ≢ n % len
slot_ne len k n below near = ground (
  arith,
  mod-add-mod k len (n - k),
  mod-lt k {m = len} (omega arith),
  λ (h : k % len + (n - k) < len). mod-eq_of_lt {n = k % len + (n - k)} {m = len} h,
  λ (h : len ≤ k % len + (n - k)). mod-eq-sub-mod {n = k % len + (n - k)} {m = len} h,
  λ (h : k % len + (n - k) - len < len). mod-eq_of_lt {n = k % len + (n - k) - len} {m = len} h,
)

oldest_kept-eq :
    (len n c : ℕ)
    → 0 < len
    → n + 1 < 2 ^ 64
    → 1 ≤ c
    → at_least (oldest_kept len n) c ≡ max c (suc n - len)
oldest_kept-eq len n c pos bound one = ground arith

module _ {ℓ} {Message : Type ℓ} where
  -- After the pushes of `log`.
  pub record Inv (len : ℕ) (log : List Message) (p : Port Message) : Type ℓ where
    pub produced : p.producer_sequence ≡ length log
    pub head_ready : HeadReady p.head
    pub head_at : HeadAt (length log) p.head
    pub slots_ready : (i : ℕ) → SlotReady (p.slots i)
    pub kept :
        (k : ℕ)
        → k < length log
        → length log ≤ k + len
        → Holds (suc k) (get_elem? log k) (p.slots (k % len))
    pub waits : 1 ≤ p.consumer_sequence
    pub waits_next : p.consumer_sequence ≤ length log + 1
    pub counted : p.validation_failure_count < 2 ^ 64

  pub new_port-Inv : (len : ℕ) (b : Bool) → Inv len [] (new_port b)
  unfolding new_port
  new_port-Inv len b = record {
    produced = refl;
    head_ready = omega arith;
    head_at = omega arith;
    slots_ready = λ i. omega arith;
    kept = λ k h. absurd (omega arith);
    waits = omega arith;
    waits_next = omega arith;
    counted = omega arith;
  }

  abbrev pushed : ℕ → ℕ → Port Message → Message → Port Message
  pushed len n p m = record p {
    slots = update p.slots (n % len) (fill_slot (suc n) m (p.slots (n % len)));
    head = publish (suc n) p.head;
    producer_sequence = suc n;
  }

  -- `Push` while the 64-bit sequence does not wrap.
  pushed_lem :
      (len n : ℕ) (p : Port Message) (m : Message)
      → p.producer_sequence ≡ n
      → n + 1 < 2 ^ 64
      → (push len p m).0 ≡ pushed len n p m
  unfolding push
  pushed_lem len n p m e bound =
      let next : u64 (p.producer_sequence + 1) ≡ suc n = omega arith in
      let index : u64 (u64 (p.producer_sequence + 1) + 2 ^ 64 - 1) ≡ n = omega arith in
      cc (next, index)

  pushed-kept :
      (len : ℕ) (log : List Message) (p : Port Message) (m : Message) (k : ℕ)
      → Inv len log p
      → k < suc (length log)
      → suc (length log) ≤ k + len
      → Holds (suc k) (get_elem? (log ++ m ∷ []) k) ((pushed len (length log) p m).slots (k % len))
  pushed-kept len log p m k v h near =
      let n = length log in
      update_cases (Holds (suc k) (get_elem? (log ++ m ∷ []) k)) p.slots (n % len)
        (fill_slot (suc n) m (p.slots (n % len))) (k % len)
        (λ same.
          let last : k ≡ n = omega (arith, λ (l : k < n). slot_ne len k n l (omega arith) same) in
          rw (last, get_elem?-last log m) (fill_slot-Holds (suc n) m (p.slots (n % len))))
        (λ other.
          let old : k < n = omega (arith, λ (e : k ≡ n). other (ap (λ i. i % len) e)) in
          rw (get_elem?-append log (m ∷ []) k old) (v.kept k old (omega arith)))

  pub push-Inv :
      (len : ℕ) (log : List Message) (p : Port Message) (m : Message)
      → 0 < len
      → length log + 1 < 2 ^ 64
      → Inv len log p
      → Inv len (log ++ m ∷ []) (push len p m).0
  push-Inv len log p m pos bound v =
      let n = length log in
      let grown : length (log ++ m ∷ []) ≡ suc n = omega (arith, length-append log (m ∷ [])) in
      rw (pushed_lem len n p m v.produced bound) (record {
        produced = sym grown;
        head_ready = publish-HeadReady (suc n) v.head_ready;
        head_at = rw grown (publish-HeadAt (suc n) p.head);
        slots_ready = λ i.
            update_cases SlotReady p.slots (n % len) (fill_slot (suc n) m (p.slots (n % len))) i
              (λ _. fill_slot-SlotReady (suc n) m (v.slots_ready (n % len))) (λ _. v.slots_ready i);
        kept = λ k h near. pushed-kept len log p m k v (omega arith) (omega arith);
        waits = v.waits;
        waits_next = omega arith;
        counted = v.counted;
      })

  -- What one `Pop` does to a port that has seen the pushes of `log`: it takes the oldest retained
  -- message that the consumer has not had.
  target : ℕ → List Message → Port Message → ℕ
  target len log p = max p.consumer_sequence (suc (length log) - len)

  read_port_head-eq :
      (len fuel : ℕ) (log : List Message) (p : Port Message)
      → length log < 2 ^ 64
      → Inv len log p
      → read_port_head (suc fuel) p ≡ (p, some (length log))
  unfolding read_port_head
  read_port_head-eq len fuel log p bound v =
      ground (arith, read_head-eq (length log) fuel bound v.head_ready v.head_at)

  pop-empty :
      (len fuel : ℕ) (log : List Message) (p : Port Message)
      → length log < 2 ^ 64
      → Inv len log p
      → length log < p.consumer_sequence
      → pop len (suc fuel) p ≡ (p, nothing)
  unfolding pop pop_at
  pop-empty len fuel log p bound v h = ground (arith, read_port_head-eq len fuel log p bound v)

  take_target-eq :
      (len t : ℕ) (again : Port Message → Port Message × Popped Message) (log : List Message)
      (p : Port Message) (m : Message)
      → 0 < t
      → t ≤ length log
      → length log + 1 < 2 ^ 64
      → length log < t + len
      → Inv len log p
      → get_elem? log (t - 1) ≡ some m
      → take_target len again p t ≡ (record p { consumer_sequence = suc t }, message m)
  unfolding take_target settle
  take_target-eq len t again log p m pos le bound near v e =
      let back : u64 (t + 2 ^ 64 - 1) ≡ t - 1 = omega arith in
      let up : suc (t - 1) ≡ t = omega arith in
      let next : u64 (t + 1) ≡ suc t = omega arith in
      let i = (t - 1) % len in
      let stored = rw up at (rw e at (v.kept (t - 1) (omega arith) (omega arith))) in
      let read = read_target-eq t t m {s = p.slots i} (omega arith) (v.slots_ready i) stored in
      rw (back, read, update_self p.slots i, next)

  pop-round :
      (len fuel : ℕ) (p : Port Message) (n : ℕ)
      → read_port_head (suc fuel) p ≡ (p, some n)
      → pop len (suc fuel) p ≡ pop_at len (λ q. pop len fuel q) p n
  unfolding pop
  pop-round len fuel p n e = ground (arith, e)

  pop-message :
      (len fuel : ℕ) (log : List Message) (p : Port Message) (m : Message)
      → 0 < len
      → length log + 1 < 2 ^ 64
      → Inv len log p
      → p.consumer_sequence ≤ length log
      → get_elem? log (target len log p - 1) ≡ some m
      → pop len (suc fuel) p ≡ (record p { consumer_sequence = suc (target len log p) }, message m)
  unfolding pop_at target
  pop-message len fuel log p m pos bound v h e =
      let t = max p.consumer_sequence (suc (length log) - len) in
      let again = λ (q : Port Message). pop len fuel q in
      let shown = read_port_head-eq len fuel log p (omega arith) v in
      let taken =
        take_target-eq len t again log p m (omega arith) (omega arith) bound (omega arith) v e in
      let aim = oldest_kept-eq len (length log) p.consumer_sequence pos bound v.waits in
      let there : ltb (length log) p.consumer_sequence ≡ false = ground arith in
      rw (pop-round len fuel p (length log) shown, there, aim) taken

  moved-Inv :
      (len c : ℕ) (log : List Message) (p : Port Message)
      → 1 ≤ c
      → c ≤ length log + 1
      → Inv len log p
      → Inv len log (record p { consumer_sequence = c })
  moved-Inv len c log p one le v = record {
    produced = v.produced;
    head_ready = v.head_ready;
    head_at = v.head_at;
    slots_ready = v.slots_ready;
    kept = v.kept;
    waits = one;
    waits_next = le;
    counted = v.counted;
  }

  -- What a call of `Pop` may leave behind, against the queue.
  abbrev Dequeues : ℕ → List Message → Port Message → Port Message × Popped Message → Type ℓ
  Dequeues len log p (p', r) =
      Inv len log p'
      × ((unread len log p'.consumer_sequence, r) ≡ dequeue (unread len log p.consumer_sequence))
      × (p'.has_callback ≡ p.has_callback)

  pub pop_refines :
      (len fuel : ℕ) (log : List Message) (p : Port Message)
      → 0 < len
      → length log + 1 < 2 ^ 64
      → Inv len log p
      → Dequeues len log p (pop len (suc fuel) p)
  unfolding target
  pop_refines len fuel log p pos bound v =
      elim (Bool-cases (ltb (length log) p.consumer_sequence)) [
        | inl past ↦
            let after = ltb→lt _ _ past in
            rw
              (
                pop-empty len fuel log p (omega arith) v after,
                unread-nil len log p.consumer_sequence after,
              )
              (v, sym dequeue-nil, refl)
        | inr here ↦
            let next = p.consumer_sequence in
            let t = max next (suc (length log) - len) in
            let le : t ≤ length log = ground arith in
            let (m, e) = get_elem?-lt log (t - 1) (omega arith) in
            rw (pop-message len fuel log p m pos bound v (omega arith) e) (
              moved-Inv len (suc t) log p (omega arith) (omega arith) v,
              sym (unread-take len log next m v.waits pos e le),
              refl,
            )
      ]

  pub clear_refines :
      (len fuel : ℕ) (log : List Message) (p : Port Message)
      → length log + 1 < 2 ^ 64
      → Inv len log p
      → let q = record p { consumer_sequence = suc (length log) } in
        (clear (suc fuel) p ≡ some q) × Inv len log q × (unread len log (suc (length log)) ≡ [])
  unfolding clear
  clear_refines len fuel log p bound v =
      let n = length log in
      (
        ground (arith, read_port_head-eq len fuel log p (omega arith) v),
        moved-Inv len (suc n) log p (omega arith) (omega arith) v,
        unread-nil len log (suc n) (omega arith),
      )

  pub is_empty-eq :
      (len fuel : ℕ) (log : List Message) (p : Port Message)
      → 0 < len
      → length log + 1 < 2 ^ 64
      → Inv len log p
      → is_empty (suc fuel) p ≡ (p, some (is_nil (unread len log p.consumer_sequence)))
  unfolding is_empty
  is_empty-eq len fuel log p pos bound v =
      rw (is_nil-unread len log p.consumer_sequence pos v.waits)
        (ground (arith, read_port_head-eq len fuel log p (omega arith) v))

  -- What an operation leaves of the callback.
  pub callback-push :
      (len : ℕ) (p : Port Message) (m : Message)
      → let (q, called) = push len p m in
        (q.has_callback ≡ p.has_callback)
        × (called ≡ (if p.has_callback then some m else none))
        × (q.consumer_sequence ≡ p.consumer_sequence)
  unfolding push
  callback-push len p m = (refl, refl, refl)
