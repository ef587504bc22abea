-- ===== src/Relay/Queue.antt =====
-- The queue of the WebSocket relay: plugins/adapter/relayWs/relay_bounded_queue.h. A message carries
-- the generation of its submission, and one frame holds one generation of each bus.
use encos_driver.Prelude.{
  ℕ, ◌-◌, leb, ◌==◌, ◌!=◌, Bool, false, ◌||◌, if◌then◌else◌, Option, none, some, List, [], ◌∷◌,
  ◌++◌, length, drop,
}
use encos_driver.Frame.{MotorMessage}
use encos_driver.Relay.{RelayFrameType, encode_relay_frames}

pub record RelayQueuedMessage : Type 0 where
  pub message : MotorMessage
  pub generation : ℕ

-- The local variables of `EncodeQueuedRelayFrames`.
pub record Batch : Type 0 where
  pub result : List ℕ
  pub frame_messages : List MotorMessage
  pub frame_generations : List (ℕ × ℕ)

unfoldable pub find_generation : ℕ → List (ℕ × ℕ) → Option ℕ
find_generation bus [] = none
find_generation bus ((b, g) ∷ gs) =
    let rest = find_generation bus gs in if b == bus then some g else rest

-- `emplace`, which keeps a generation that is there.
unfoldable pub emplace : ℕ → ℕ → List (ℕ × ℕ) → List (ℕ × ℕ)
emplace bus generation gs = elim (find_generation bus gs) [
  | some old ↦ gs
  | none ↦ (bus, generation) ∷ gs
]

-- `flush`, told the messages of the frame.
unfoldable pub flush_messages : RelayFrameType → Batch → List MotorMessage → Batch
flush_messages kind b [] = b
flush_messages kind b (m ∷ ms) = record {
  result = b.result ++ encode_relay_frames kind (m ∷ ms);
  frame_messages = [];
  frame_generations = [];
}

unfoldable pub flush : RelayFrameType → Batch → Batch
unfolding flush_messages
flush kind b = flush_messages kind b b.frame_messages

unfoldable pub differs : Option ℕ → ℕ → Bool
differs none generation = false
differs (some old) generation = old != generation

unfoldable pub needs_flush : Batch → RelayQueuedMessage → Bool
needs_flush b queued =
    length b.frame_messages == 255
    || differs (find_generation queued.message.bus_idx b.frame_generations) queued.generation

abbrev pub add_message : Batch → RelayQueuedMessage → Batch
add_message b queued = record {
  result = b.result;
  frame_messages = b.frame_messages ++ queued.message ∷ [];
  frame_generations = emplace queued.message.bus_idx queued.generation b.frame_generations;
}

-- One round of the loop over the messages.
unfoldable pub batch_round : RelayFrameType → Batch → RelayQueuedMessage → Batch
batch_round kind b queued = add_message (if needs_flush b queued then flush kind b else b) queued

unfoldable pub batch_loop : RelayFrameType → Batch → List RelayQueuedMessage → Batch
batch_loop kind b [] = flush kind b
batch_loop kind b (queued ∷ messages) = batch_loop kind (batch_round kind b queued) messages

-- `EncodeQueuedRelayFrames`.
unfoldable pub encode_queued_relay_frames : RelayFrameType → List RelayQueuedMessage → List ℕ
encode_queued_relay_frames kind [] = encode_relay_frames kind []
encode_queued_relay_frames kind (queued ∷ messages) =
    (batch_loop kind (record { result = []; frame_messages = []; frame_generations = [] })
      (queued ∷ messages)).result

-- `TrimRelayMessagesToNewest`, of either kind of message.
unfoldable pub trim_to_newest {ℓ} : {A : Type ℓ} → List A → ℕ → List A
trim_to_newest messages capacity =
    if leb (length messages) capacity then messages else drop (length messages - capacity) messages

-- `ReinsertFailedRelayMessages`.
unfoldable pub reinsert_failed {ℓ} : {A : Type ℓ} → List A → List A → ℕ → List A
reinsert_failed current failed capacity = trim_to_newest (failed ++ current) capacity
