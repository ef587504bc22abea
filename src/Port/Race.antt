-- ===== src/Port/Race.antt =====
-- One slot of `Port` (include/utils/port.h) under the producer's `Push` and the consumer's
-- `ReadTarget`, interleaved at every atomic load and store. The order is sequential consistency, as
-- all accesses are `memory_order_seq_cst`.
pub mod Safety
mod Tests
use encos_driver.Prelude.{
  ℕ, ◌+◌, ◌-◌, ◌*◌, ◌/◌, ◌%◌, ◌^◌, ◌≤◌, ◌<◌, ◌≡◌, ◌≢◌, ◌⊎◌, bit_and, bit_or, shl, shr, u32, Bool,
  true, false, ◌||◌, ◌==◌, ◌!=◌, ltb, Option, none, some,
}
use encos_driver.Port.Publication.{SlotMetadata, update, next_cell, port_no_hazard}
use encos_driver.Port.{Slot, Target, got, missed, unconstructed}

-- Where the producer stands in the part of `Push` that fills a cell with a sequence.
pub data Producer {ℓ} (Message : Type ℓ) : Type ℓ where
  idle : Producer Message
  chosen constructed odd lowed highed celled even : ℕ → ℕ → Message → Producer Message
  stored : ℕ → Producer Message

-- Where the consumer stands in `ReadTarget`: what its loads have returned so far.
pub data Consumer {ℓ} (Message : Type ℓ) : Type ℓ where
  finished : Target Message → Consumer Message
  loaded hazarded validated : ℕ → Consumer Message
  got_version : ℕ → ℕ → Consumer Message
  got_low : ℕ → ℕ → ℕ → Consumer Message
  got_high : ℕ → ℕ → ℕ → ℕ → Consumer Message
  got_cell : ℕ → ℕ → ℕ → ℕ → ℕ → Consumer Message
  accepted : ℕ → Consumer Message
  copied : ℕ → Option Message → Consumer Message

pub record State {ℓ} (Message : Type ℓ) : Type ℓ where
  pub slot : Slot Message
  pub producer : Producer Message
  pub consumer : Consumer Message
  pub target : ℕ

abbrev pub outcome {ℓ} : {Message : Type ℓ} → Option Message → Target Message
outcome none = unconstructed
outcome (some m) = got m

-- The version test of `ReadProtected`, on its first and its second load.
abbrev pub unstable : ℕ → ℕ → Bool
unstable before after = bit_and before 1 != 0 || before != after

module _ {ℓ} {Message : Type ℓ} where
  -- Stores into the metadata of one cell, and into its payload.
  abbrev pub stores : Slot Message → ℕ → SlotMetadata → Slot Message
  stores s c m = record s { metadata = update s.metadata c m }

  abbrev pub next_version : Slot Message → ℕ → ℕ
  next_version s c = u32 ((s.metadata c).writer_version + 2)

  -- `message_of q` is the message that is pushed with the sequence `q`.
  pub data Step (message_of : ℕ → Option Message) : State Message → State Message → Type ℓ where
    load_hazard :
        (t : State Message) (q : ℕ) (m : Message)
        → t.producer ≡ idle
        → q < 2 ^ 64
        → message_of q ≡ some m
        → Step message_of t (record t {
          producer = chosen q (next_cell t.slot.producer_active t.slot.reader_hazard) m;
        })
    construct :
        (t : State Message) (q c : ℕ) (m : Message)
        → t.producer ≡ chosen q c m
        → Step message_of t (record t {
          producer = constructed q c m;
          slot = record (t.slot) { payloads = update t.slot.payloads c (some m) };
        })
    store_odd :
        (t : State Message) (q c : ℕ) (m : Message)
        → t.producer ≡ constructed q c m
        → Step message_of t (record t {
          producer = odd q c m;
          slot =
              stores t.slot c
                (record (t.slot.metadata c) { version = u32 (next_version t.slot c + 2 ^ 32 - 1) });
        })
    store_low :
        (t : State Message) (q c : ℕ) (m : Message)
        → t.producer ≡ odd q c m
        → Step message_of t (record t {
          producer = lowed q c m;
          slot = stores t.slot c (record (t.slot.metadata c) { sequence_low = u32 q });
        })
    store_high :
        (t : State Message) (q c : ℕ) (m : Message)
        → t.producer ≡ lowed q c m
        → Step message_of t (record t {
          producer = highed q c m;
          slot = stores t.slot c (record (t.slot.metadata c) { sequence_high = u32 (shr q 32) });
        })
    store_cell :
        (t : State Message) (q c : ℕ) (m : Message)
        → t.producer ≡ highed q c m
        → Step message_of t (record t {
          producer = celled q c m;
          slot = stores t.slot c (record (t.slot.metadata c) { cell = c });
        })
    store_even :
        (t : State Message) (q c : ℕ) (m : Message)
        → t.producer ≡ celled q c m
        → Step message_of t (record t {
          producer = even q c m;
          slot = stores t.slot c (record (t.slot.metadata c) {
            version = next_version t.slot c;
            writer_version = next_version t.slot c;
          });
        })
    publish :
        (t : State Message) (q c : ℕ) (m : Message)
        → t.producer ≡ even q c m
        → Step message_of t
            (record t { producer = stored c; slot = record (t.slot) { published_active = c } })
    settle :
        (t : State Message) (c : ℕ)
        → t.producer ≡ stored c
        → Step message_of t
            (record t { producer = idle; slot = record (t.slot) { producer_active = c } })
    load_active :
        (t : State Message) (r : Target Message) (q : ℕ)
        → t.consumer ≡ finished r
        → Step message_of t (record t { consumer = loaded t.slot.published_active; target = q })
    store_hazard :
        (t : State Message) (a : ℕ)
        → t.consumer ≡ loaded a
        → Step message_of t
            (record t { consumer = hazarded a; slot = record (t.slot) { reader_hazard = a } })
    revalidate :
        (t : State Message) (a : ℕ)
        → t.consumer ≡ hazarded a
        → t.slot.published_active ≡ a
        → Step message_of t (record t { consumer = validated a })
    give_up :
        (t : State Message) (a : ℕ)
        → t.consumer ≡ hazarded a
        → t.slot.published_active ≢ a
        → Step message_of t (record t {
          consumer = finished (missed true t.target);
          slot = record (t.slot) { reader_hazard = port_no_hazard };
        })
    load_version :
        (t : State Message) (a : ℕ)
        → t.consumer ≡ validated a
        → Step message_of t (record t { consumer = got_version a (t.slot.metadata a).version })
    load_low :
        (t : State Message) (a v : ℕ)
        → t.consumer ≡ got_version a v
        → Step message_of t (record t { consumer = got_low a v (t.slot.metadata a).sequence_low })
    load_high :
        (t : State Message) (a v l : ℕ)
        → t.consumer ≡ got_low a v l
        → Step message_of t
            (record t { consumer = got_high a v l (t.slot.metadata a).sequence_high })
    load_cell :
        (t : State Message) (a v l h : ℕ)
        → t.consumer ≡ got_high a v l h
        → Step message_of t (record t { consumer = got_cell a v l h (t.slot.metadata a).cell })
    reject_snapshot :
        (t : State Message) (a v l h c : ℕ)
        → t.consumer ≡ got_cell a v l h c
        → ((unstable v (t.slot.metadata a).version ≡ true) ⊎ (c ≢ a))
        → Step message_of t (record t {
          consumer = finished (missed true t.target);
          slot = record (t.slot) { reader_hazard = port_no_hazard };
        })
    reject_sequence :
        (t : State Message) (a v l h c : ℕ)
        → t.consumer ≡ got_cell a v l h c
        → unstable v (t.slot.metadata a).version ≡ false
        → c ≡ a
        → bit_or l (shl h 32) ≢ t.target
        → Step message_of t (record t {
          consumer = finished (missed (ltb t.target (bit_or l (shl h 32))) (bit_or l (shl h 32)));
          slot = record (t.slot) { reader_hazard = port_no_hazard };
        })
    accept :
        (t : State Message) (a v l h c : ℕ)
        → t.consumer ≡ got_cell a v l h c
        → unstable v (t.slot.metadata a).version ≡ false
        → c ≡ a
        → bit_or l (shl h 32) ≡ t.target
        → Step message_of t (record t { consumer = accepted a })
    copy :
        (t : State Message) (a : ℕ)
        → t.consumer ≡ accepted a
        → Step message_of t (record t { consumer = copied a (t.slot.payloads a) })
    release :
        (t : State Message) (a : ℕ) (p : Option Message)
        → t.consumer ≡ copied a p
        → Step message_of t (record t {
          consumer = finished (outcome p);
          slot = record (t.slot) { reader_hazard = port_no_hazard };
        })

  pub data Reach (message_of : ℕ → Option Message) (s : State Message)
      : State Message → Type ℓ where
    here : Reach message_of s s
    next : {t u : State Message} → Reach message_of s t → Step message_of t u → Reach message_of s u
