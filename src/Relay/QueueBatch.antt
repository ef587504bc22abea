-- ===== src/Relay/QueueBatch.antt =====
-- The frame that plugins/adapter/relayWs/relay_bounded_queue.h is filling, as a group of messages.
use encos_driver.Prelude.{
  In-append_last, ℕ, suc, ◌≤◌, ◌<◌, ◌≡◌, ◌≢◌, refl, ap, sym, subst, ◌∙◌, false, none, some, List,
  [], ◌∷◌, ◌++◌, length, In, arith, Option-cases, inl, inr, length-append,
}
use encos_driver.Frame.{MotorMessage}
use encos_driver.Relay.{RelayFrameType, encode_relay_frames}
use encos_driver.Relay.Queue.{
  RelayQueuedMessage, Batch, find_generation, emplace, flush_messages, flush, differs, add_message,
}

abbrev pub messages_of : List RelayQueuedMessage → List MotorMessage
messages_of [] = []
messages_of (q ∷ qs) = q.message ∷ messages_of qs

pub messages_of-append :
    (xs ys : List RelayQueuedMessage) → messages_of (xs ++ ys) ≡ messages_of xs ++ messages_of ys
messages_of-append [] ys = refl
messages_of-append (x ∷ xs) ys = ap (λ t. x.message ∷ t) (messages_of-append xs ys)

-- One frame: up to 255 messages, those of one bus with the same generation.
pub record IsGroup (group : List RelayQueuedMessage) : Type 0 where
  pub filled : 1 ≤ length group
  pub fits : length group ≤ 255
  same :
      (x y : RelayQueuedMessage)
      → In x group
      → In y group
      → x.message.bus_idx ≡ y.message.bus_idx
      → x.generation ≡ y.generation

abbrev pub flat : List (List RelayQueuedMessage) → List RelayQueuedMessage
flat [] = []
flat (g ∷ gs) = g ++ flat gs

abbrev pub frames_bytes : RelayFrameType → List (List RelayQueuedMessage) → List ℕ
frames_bytes kind [] = []
frames_bytes kind (g ∷ gs) = encode_relay_frames kind (messages_of g) ++ frames_bytes kind gs

-- The batch holds a group.
pub record Holds (b : Batch) (g : List RelayQueuedMessage) : Type 0 where
  pub frame : b.frame_messages ≡ messages_of g
  pub fits : length g ≤ 255
  pub nothing : g ≡ [] → b.frame_generations ≡ []
  knows :
      (x : RelayQueuedMessage)
      → In x g
      → find_generation x.message.bus_idx b.frame_generations ≡ some x.generation

pub Holds-IsGroup : (b : Batch) (g : List RelayQueuedMessage) → Holds b g → 1 ≤ length g → IsGroup g
Holds-IsGroup b g h l = record {
  filled = l;
  fits = h.fits;
  same = λ x y m n e.
      let at_x = h.knows x m in
      let at_y : find_generation x.message.bus_idx b.frame_generations ≡ some y.generation =
        subst (λ (k : ℕ). find_generation k b.frame_generations ≡ some y.generation) (sym e)
          (h.knows y n) in
      cc;
}

pub length-messages_of : (g : List RelayQueuedMessage) → length (messages_of g) ≡ length g
length-messages_of [] = refl
length-messages_of (x ∷ g) = ap suc (length-messages_of g)

emplace-none :
    (bus generation : ℕ) (gs : List (ℕ × ℕ))
    → find_generation bus gs ≡ none
    → emplace bus generation gs ≡ (bus, generation) ∷ gs
unfolding emplace
emplace-none bus generation gs h = rw (h, emplace) refl

emplace-some :
    (bus generation old : ℕ) (gs : List (ℕ × ℕ))
    → find_generation bus gs ≡ some old
    → emplace bus generation gs ≡ gs
unfolding emplace
emplace-some bus generation old gs h = rw (h, emplace) refl

find_generation-first :
    (bus generation : ℕ) (gs : List (ℕ × ℕ))
    → find_generation bus ((bus, generation) ∷ gs) ≡ some generation
unfolding find_generation
find_generation-first bus generation gs = ground arith

find_generation-later :
    (bus bus' generation : ℕ) (gs : List (ℕ × ℕ))
    → bus' ≢ bus
    → find_generation bus ((bus', generation) ∷ gs) ≡ find_generation bus gs
unfolding find_generation
find_generation-later bus bus' generation gs h = ground arith

same-generation : (old generation : ℕ) → differs (some old) generation ≡ false → old ≡ generation
unfolding differs
same-generation old generation h = ground arith

find_generation-emplace :
    (bus generation : ℕ) (gs : List (ℕ × ℕ))
    → differs (find_generation bus gs) generation ≡ false
    → find_generation bus (emplace bus generation gs) ≡ some generation
find_generation-emplace bus generation gs h = elim (Option-cases (find_generation bus gs)) [
  | inl missing ↦
      ap (find_generation bus) (emplace-none bus generation gs missing)
      ∙ find_generation-first bus generation gs
  | inr (old, there_is) ↦
      let it =
        same-generation old generation (subst (λ o. differs o generation ≡ false) there_is h) in
      ap (find_generation bus) (emplace-some bus generation old gs there_is) ∙ there_is ∙ ap some it
]

find_generation-keeps :
    (bus bus' generation g : ℕ) (gs : List (ℕ × ℕ))
    → find_generation bus gs ≡ some g
    → find_generation bus (emplace bus' generation gs) ≡ some g
find_generation-keeps bus bus' generation g gs h = elim (Option-cases (find_generation bus' gs)) [
  | inl missing ↦
      let other : bus' ≢ bus = λ e. cc (ap (λ k. find_generation k gs) e) in
      ap (find_generation bus) (emplace-none bus' generation gs missing)
      ∙ find_generation-later bus bus' generation gs other
      ∙ h
  | inr (old, there_is) ↦
      ap (find_generation bus) (emplace-some bus' generation old gs there_is) ∙ h
]

snoc-ne : (g : List RelayQueuedMessage) (q : RelayQueuedMessage) → g ++ q ∷ [] ≢ []
snoc-ne [] q e = cc
snoc-ne (x ∷ g) q e = cc

-- A message whose generation fits is added to the frame.
pub add_message-Holds :
    (b : Batch) (g : List RelayQueuedMessage) (q : RelayQueuedMessage)
    → Holds b g
    → length g < 255
    → differs (find_generation q.message.bus_idx b.frame_generations) q.generation ≡ false
    → Holds (add_message b q) (g ++ q ∷ [])
add_message-Holds b g q h l d = record {
  frame = ap (λ t. t ++ q.message ∷ []) h.frame ∙ sym (messages_of-append g (q ∷ []));
  fits = omega (arith, length-append g (q ∷ []));
  nothing = λ e. absurd (snoc-ne g q e);
  knows = λ x m. elim (In-append_last x q g m) [
    | inl old ↦
        find_generation-keeps x.message.bus_idx q.message.bus_idx q.generation x.generation
          b.frame_generations (h.knows x old)
    | inr new ↦
        subst
          (λ (y : RelayQueuedMessage).
            find_generation y.message.bus_idx
              (emplace q.message.bus_idx q.generation b.frame_generations)
            ≡ some y.generation)
          (sym new) (find_generation-emplace q.message.bus_idx q.generation b.frame_generations d)
  ];
}

pub empty-Holds :
    (r : List ℕ) → Holds (record { result = r; frame_messages = []; frame_generations = [] }) []
empty-Holds r = record {
  frame = refl;
  fits = omega arith;
  nothing = λ e. refl;
  knows = λ x m. elim m [ ];
}

-- `flush` writes the group.
pub flush-group :
    (kind : RelayFrameType) (b : Batch) (x : RelayQueuedMessage) (g : List RelayQueuedMessage)
    → Holds b (x ∷ g)
    → flush kind b ≡ record {
      result = b.result ++ encode_relay_frames kind (messages_of (x ∷ g));
      frame_messages = [];
      frame_generations = [];
    }
unfolding flush flush_messages
flush-group kind b x g h = ap (flush_messages kind b) h.frame

pub flush-nothing : (kind : RelayFrameType) (b : Batch) → Holds b [] → flush kind b ≡ b
unfolding flush flush_messages
flush-nothing kind b h = ap (flush_messages kind b) h.frame
