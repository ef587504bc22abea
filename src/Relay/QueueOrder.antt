-- ===== src/Relay/QueueOrder.antt =====
-- plugins/adapter/relayWs/relay_bounded_queue.h keeps the messages in order and their generations
-- apart.
use encos_driver.Prelude.{
  ℕ, ◌<◌, ◌≡◌, ◌≢◌, refl, ap, sym, subst, ◌∙◌, Bool, true, false, if◌then◌else◌, List, [], ◌∷◌,
  ◌++◌, length, All, arith, Bool-cases, inl, inr, append-nil, append_assoc,
}
use encos_driver.Relay.{RelayFrameType, encode_relay_frames}
use encos_driver.Relay.Queue.{
  RelayQueuedMessage, Batch, find_generation, flush, differs, needs_flush, add_message, batch_round,
  batch_loop, encode_queued_relay_frames,
}
use encos_driver.Relay.QueueBatch.{
  messages_of, IsGroup, flat, frames_bytes, Holds, Holds-IsGroup, length-messages_of,
  add_message-Holds, empty-Holds, flush-group, flush-nothing,
}

module _ (kind : RelayFrameType) where
  -- What the loop writes after the bytes of the batch, as groups.
  abbrev Written : Batch → List RelayQueuedMessage → List RelayQueuedMessage → Type 0
  Written b g qs =
      (groups : List (List RelayQueuedMessage)) × (flat groups ≡ g ++ qs)
      × All IsGroup groups
      × ((batch_loop kind b qs).result ≡ b.result ++ frames_bytes kind groups)

  Written-end : (b : Batch) (g : List RelayQueuedMessage) → Holds b g → Written b g []
  unfolding batch_loop
  Written-end b [] h = (
    [],
    refl,
    tt,
    ap (λ (t : Batch). t.result) (flush-nothing kind b h) ∙ sym (append-nil b.result),
  )
  Written-end b (x ∷ g) h = (
    (x ∷ g) ∷ [],
    refl,
    (Holds-IsGroup b (x ∷ g) h (omega arith), tt),
    ap (λ (t : Batch). t.result) (flush-group kind b x g h)
        ∙ ap (λ t. b.result ++ t)
            (sym (append-nil (encode_relay_frames kind (messages_of (x ∷ g))))),
  )

  -- The bytes after a round, by what its test says.
  abbrev after : Batch → RelayQueuedMessage → List RelayQueuedMessage → Bool → List ℕ
  after b q qs t = (batch_loop kind (add_message (if t then flush kind b else b) q) qs).result

  -- The message starts a new group.
  Written-flushed :
      (b : Batch) (x q : RelayQueuedMessage) (g qs : List RelayQueuedMessage)
      → Holds b (x ∷ g)
      → needs_flush b q ≡ true
      → Written (add_message (flush kind b) q) (q ∷ []) qs
      → Written b (x ∷ g) (q ∷ qs)
  unfolding batch_loop batch_round
  Written-flushed b x q g qs h yes_ (groups, all, good, bytes) =
      let flushed = flush-group kind b x g h in
      (
        (x ∷ g) ∷ groups,
        ap (λ t. (x ∷ g) ++ t) all,
        (Holds-IsGroup b (x ∷ g) h (omega arith), good),
        ap (after b q qs) yes_
            ∙ bytes
            ∙ ap (λ (t : Batch). t.result ++ frames_bytes kind groups) flushed
            ∙ append_assoc b.result (encode_relay_frames kind (messages_of (x ∷ g)))
                (frames_bytes kind groups),
      )

  Written-added :
      (b : Batch) (q : RelayQueuedMessage) (g qs : List RelayQueuedMessage)
      → needs_flush b q ≡ false
      → Written (add_message b q) (g ++ q ∷ []) qs
      → Written b g (q ∷ qs)
  unfolding batch_loop batch_round
  Written-added b q g qs no_ (groups, all, good, bytes) =
      (groups, all ∙ append_assoc g (q ∷ []) qs, good, ap (after b q qs) no_ ∙ bytes)

  flushed-Holds :
      (b : Batch) (x q : RelayQueuedMessage) (g : List RelayQueuedMessage)
      → Holds b (x ∷ g)
      → Holds (add_message (flush kind b) q) (q ∷ [])
  unfolding find_generation differs
  flushed-Holds b x q g h =
      subst (λ (t : Batch). Holds (add_message t q) (q ∷ [])) (sym (flush-group kind b x g h))
        (add_message-Holds _ [] q (empty-Holds _) (omega arith) refl)

  needs_flush-nothing : (b : Batch) (q : RelayQueuedMessage) → Holds b [] → needs_flush b q ≡ false
  unfolding needs_flush find_generation differs
  needs_flush-nothing b q h =
      let no_messages = h.frame in
      let no_generations = h.nothing refl in rw (no_messages, no_generations, needs_flush) refl

  needs_flush-false :
      (b : Batch) (q : RelayQueuedMessage) (g : List RelayQueuedMessage)
      → Holds b g
      → needs_flush b q ≡ false
      → (length g < 255)
        × (differs (find_generation q.message.bus_idx b.frame_generations) q.generation ≡ false)
  unfolding needs_flush
  needs_flush-false b q g h no_ =
      let size : length b.frame_messages ≡ length g = ap length h.frame ∙ length-messages_of g in
      let differ : length b.frame_messages ≢ 255 = λ e. ground arith in
      (omega (arith, h.fits), ground arith)

  Written-all :
      (qs : List RelayQueuedMessage) (b : Batch) (g : List RelayQueuedMessage)
      → Holds b g
      → Written b g qs
  Written-all [] b g h = Written-end b g h
  Written-all (q ∷ qs) b [] h =
      let no_ = needs_flush-nothing b q h in
      let (l, d) = needs_flush-false b q [] h no_ in
      Written-added b q [] qs no_
        (Written-all qs (add_message b q) (q ∷ []) (add_message-Holds b [] q h l d))
  Written-all (q ∷ qs) b (x ∷ g) h = elim (Bool-cases (needs_flush b q)) [
    | inl yes_ ↦
        Written-flushed b x q g qs h yes_
          (Written-all qs (add_message (flush kind b) q) (q ∷ []) (flushed-Holds b x q g h))
    | inr no_ ↦
        let (l, d) = needs_flush-false b q (x ∷ g) h no_ in
        Written-added b q (x ∷ g) qs no_ (
          Written-all qs (add_message b q) ((x ∷ g) ++ q ∷ [])
            (add_message-Holds b (x ∷ g) q h l d))
  ]

-- The bytes of a non-empty queue are EMR1 frames of consecutive groups of at most 255 messages that
-- together are the queue in order, and within one frame the messages of one bus have one generation.
pub encode_queued_relay_frames-groups :
    (kind : RelayFrameType) (queued : RelayQueuedMessage) (messages : List RelayQueuedMessage)
    → (groups : List (List RelayQueuedMessage)) × (flat groups ≡ queued ∷ messages)
      × All IsGroup groups
      × (encode_queued_relay_frames kind (queued ∷ messages) ≡ frames_bytes kind groups)
unfolding encode_queued_relay_frames
encode_queued_relay_frames-groups kind queued messages =
    Written-all kind (queued ∷ messages) _ [] (empty-Holds [])
