-- ===== src/Port/Queue.antt =====
-- What a `Port` of capacity `len` promises (include/utils/port.h): a queue of unread messages, of
-- which a push drops the oldest when there would be more than `len`.
use encos_driver.Prelude.{
  ℕ, zero, suc, ◌+◌, ◌-◌, ◌≤◌, ◌<◌, ◌≡◌, refl, ap, some, List, [], ◌∷◌, ◌++◌, arith, length, drop,
  get_elem?, length-append, max, sym, ◌∙◌, drop-drop, drop-append, length-drop, drop-all, ltb, Bool,
  true, false,
}
use encos_driver.Port.{Popped, message, nothing}

module _ {ℓ} {Message : Type ℓ} where
  unfoldable pub keep_newest : ℕ → List Message → List Message
  keep_newest len q = drop (length q - len) q

  unfoldable pub enqueue : ℕ → List Message → Message → List Message
  unfolding keep_newest
  enqueue len q m = keep_newest len (q ++ m ∷ [])

  pub dequeue : List Message → List Message × Popped Message
  dequeue [] = ([], nothing)
  dequeue (m ∷ q) = (q, message m)

  -- The unread part of all messages ever pushed, for a consumer that waits for message number
  -- `next` (the first has number 1).
  pub unread : ℕ → List Message → ℕ → List Message
  unread len log next = drop (max (next - 1) (length log - len)) log

  -- A push appends to the log; the consumer's view of it is the bounded queue's.
  pub unread-push :
      (len : ℕ) (log : List Message) (next : ℕ) (m : Message)
      → 0 < len
      → next ≤ length log + 1
      → unread len (log ++ m ∷ []) next ≡ enqueue len (unread len log next) m
  unfolding unread enqueue keep_newest
  unread-push len log next m pos bound =
      let k = max (next - 1) (length log - len) in
      let whole = drop-append k log (m ∷ []) (omega arith) in
      let j = length (drop k log ++ m ∷ []) - len in
      ap (λ i. drop i (log ++ m ∷ []))
        (omega (
          arith,
          length-append log (m ∷ []),
          length-append (drop k log) (m ∷ []),
          length-drop k log,
        ))
      ∙ sym (drop-drop j k (log ++ m ∷ []))
      ∙ ap (drop j) whole

  dequeue-drop :
      (k : ℕ) (log : List Message) (m : Message)
      → get_elem? log k ≡ some m
      → dequeue (drop k log) ≡ (drop (suc k) log, message m)
  unfolding dequeue
  dequeue-drop k [] m h = cc
  dequeue-drop zero (x ∷ xs) m h = ground arith
  dequeue-drop (suc k) (x ∷ xs) m h = dequeue-drop k xs m h

  pub unread-nil :
      (len : ℕ) (log : List Message) (next : ℕ) → length log < next → unread len log next ≡ []
  unfolding unread
  unread-nil len log next h = drop-all (max (next - 1) (length log - len)) log (omega arith)

  pub unread-take :
      (len : ℕ) (log : List Message) (next : ℕ) (m : Message)
      → let t = max next (suc (length log) - len) in
        1 ≤ next
        → 0 < len
        → get_elem? log (t - 1) ≡ some m
        → t ≤ length log
        → dequeue (unread len log next) ≡ (unread len log (suc t), message m)
  unfolding unread
  unread-take len log next m one pos e le =
      let t = max next (suc (length log) - len) in
      let from : max (next - 1) (length log - len) ≡ t - 1 = omega arith in
      let upto : max (suc t - 1) (length log - len) ≡ suc (t - 1) = omega arith in
      rw (from, upto) (dequeue-drop (t - 1) log m e)

  pub dequeue-nil : dequeue [] ≡ ([], nothing)
  unfolding dequeue
  dequeue-nil = refl

  pub is_nil : List Message → Bool
  is_nil [] = true
  is_nil (m ∷ q) = false

  is_nil-length : (q : List Message) → is_nil q ≡ ltb (length q) 1
  unfolding is_nil
  is_nil-length [] = refl
  is_nil-length (m ∷ q) = ground arith

  pub is_nil-unread :
      (len : ℕ) (log : List Message) (next : ℕ)
      → 0 < len
      → 1 ≤ next
      → is_nil (unread len log next) ≡ ltb (length log) next
  unfolding unread
  is_nil-unread len log next pos one =
      let k = max (next - 1) (length log - len) in
      ground (arith, is_nil-length (drop k log), length-drop k log)
