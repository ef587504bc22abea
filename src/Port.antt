-- ===== src/Port.antt =====
-- `Port` of include/utils/port.h: a mailbox that overwrites its oldest messages. Each public
-- operation is a function on the port's memory; the loops take fuel.
pub mod Publication
pub mod Cells
pub mod Queue
pub mod Refine
pub mod History
pub mod Race
mod Tests
use Publication.{
  HeadPublication, SlotMetadata, SlotSnapshot, SequenceMetadata, update, publish, read_head,
  read_slot, prepare_slot, next_cell, port_no_hazard,
}
use encos_driver.Prelude.{
  ℕ, zero, suc, ◌+◌, ◌-◌, ◌%◌, ◌^◌, u64, Bool, true, false, ◌==◌, ◌!=◌, ltb, ◌||◌, not,
  if◌then◌else◌, Option, none, some,
}

-- A payload cell is raw storage: `none` until a message is constructed in it.
pub record Slot {ℓ} (Message : Type ℓ) : Type ℓ where
  pub payloads : ℕ → Option Message
  pub metadata : ℕ → SlotMetadata
  pub reader_hazard : ℕ
  pub published_active : ℕ
  pub producer_active : ℕ

pub record Port {ℓ} (Message : Type ℓ) : Type ℓ where
  pub slots : ℕ → Slot Message
  pub head : HeadPublication
  pub producer_sequence : ℕ
  pub has_callback : Bool
  pub consumer_sequence : ℕ
  pub validation_failure_count : ℕ

-- What `ReadTarget` returns: the message; nothing, with `retry` and `resync_sequence`; or the read
-- of a cell in which no message was ever constructed.
pub data Target {ℓ} (Message : Type ℓ) : Type ℓ where
  got : Message → Target Message
  missed : Bool → ℕ → Target Message
  unconstructed : Target Message

-- What `Pop` returns. `starved`: the fuel ran out.
pub data Popped {ℓ} (Message : Type ℓ) : Type ℓ where
  message : Message → Popped Message
  nothing : Popped Message
  invalid_read : Popped Message
  starved : Popped Message

abbrev pub fresh_slot_metadata : SlotMetadata
fresh_slot_metadata = record {
  version = 0;
  sequence_low = 0;
  sequence_high = 0;
  cell = 0;
  writer_version = 0;
}

abbrev pub fresh_sequence_metadata : SequenceMetadata
fresh_sequence_metadata = record {
  version = 0;
  sequence_low = 0;
  sequence_high = 0;
  writer_version = 0;
}

-- The oldest sequence that a port of this capacity still keeps.
abbrev pub oldest_kept : ℕ → ℕ → ℕ
oldest_kept len head = if ltb len head then u64 (head + 2 ^ 64 - len + 1) else 1

abbrev pub at_least : ℕ → ℕ → ℕ
at_least oldest sequence = if ltb sequence oldest then oldest else sequence

module _ {ℓ} {Message : Type ℓ} where
  -- The members' initial values.
  unfoldable pub new_port : Bool → Port Message
  new_port has_callback = record {
    slots = λ _. record {
      payloads = λ _. none;
      metadata = λ _. fresh_slot_metadata;
      reader_hazard = port_no_hazard;
      published_active = 0;
      producer_active = 0;
    };
    head = record {
      metadata = λ _. fresh_sequence_metadata;
      reader_hazard = port_no_hazard;
      published_active = 0;
      producer_active = 0;
    };
    producer_sequence = 0;
    has_callback = has_callback;
    consumer_sequence = 1;
    validation_failure_count = 0;
  }

  -- The part of `Push` that fills and publishes a cell of one slot.
  unfoldable pub fill_slot : ℕ → Message → Slot Message → Slot Message
  unfolding next_cell update prepare_slot
  fill_slot sequence m s =
      let cell = next_cell s.producer_active s.reader_hazard in
      let s1 = record s { payloads = update s.payloads cell (some m) } in
      let s2 = record s1 {
        metadata = update s1.metadata cell (prepare_slot sequence cell (s1.metadata cell));
      } in
      let s3 = record s2 { published_active = cell } in record s3 { producer_active = cell }

  -- `Push`, with the message that the callback is called with, if there is a callback.
  unfoldable pub push : ℕ → Port Message → Message → Port Message × Option Message
  unfolding fill_slot publish update
  push len p m =
      let sequence = u64 (p.producer_sequence + 1) in
      let index = u64 (sequence + 2 ^ 64 - 1) % len in
      let p1 = record p { slots = update p.slots index (fill_slot sequence m (p.slots index)) } in
      let p2 = record p1 { head = publish sequence p1.head } in
      let p3 = record p2 { producer_sequence = sequence } in
      (p3, (if p3.has_callback then some m else none))

  -- What `ReadTarget` does with the snapshot of the cell under its hazard.
  unfoldable pub judge_snapshot : ℕ → ℕ → ℕ → Option Message → Option SlotSnapshot → Target Message
  judge_snapshot active target resync payload none = missed true resync
  judge_snapshot active target resync payload (some snapshot) =
      if snapshot.cell != active
      then missed true resync
      else if snapshot.sequence != target
      then missed (ltb target snapshot.sequence) snapshot.sequence
      else elim payload [ none ↦ unconstructed | some m ↦ got m ]

  -- `ReadTarget`; `resync` is the value that the caller's `resync_sequence` has before it.
  unfoldable pub read_target : ℕ → ℕ → Slot Message → Slot Message × Target Message
  read_target target resync s =
      let active = s.published_active in
      let held = record s { reader_hazard = active } in
      let freed = record held { reader_hazard = port_no_hazard } in
      if held.published_active != active then (freed, missed true resync) else (
        freed,
        judge_snapshot active target resync (held.payloads active)
            (read_slot (held.metadata active)),
      )

  -- `ReadHead`: the port with the head's new state and its count of failed validations.
  unfoldable pub read_port_head : ℕ → Port Message → Port Message × Option ℕ
  read_port_head fuel p =
      let (h, sequence, failures) = read_head fuel p.head in
      (
        record p {
          head = h;
          validation_failure_count = u64 (p.validation_failure_count + failures);
        },
        sequence,
      )

  abbrev pub count_failure : Port Message → Port Message
  count_failure p = record p { validation_failure_count = u64 (p.validation_failure_count + 1) }

  -- The end of one round of `Pop`'s loop; `again` is the rest of the loop.
  unfoldable pub settle :
      ℕ
      → (Port Message → Port Message × Popped Message)
      → Port Message
      → Target Message
      → Port Message × Popped Message
  settle len again p (got m) =
      (record p { consumer_sequence = u64 (p.consumer_sequence + 1) }, message m)
  settle len again p unconstructed = (p, invalid_read)
  settle len again p (missed false resync) = (count_failure p, nothing)
  settle len again p (missed true resync) =
      let resynced = record p {
        consumer_sequence = at_least (oldest_kept len resync) p.consumer_sequence;
      } in
      again (count_failure (if ltb p.consumer_sequence resync then resynced else p))

  -- One round of `Pop` for the message with this sequence.
  unfoldable pub take_target :
      ℕ
      → (Port Message → Port Message × Popped Message)
      → Port Message
      → ℕ
      → Port Message × Popped Message
  take_target len again p target =
      let p1 = record p { consumer_sequence = target } in
      let index = u64 (target + 2 ^ 64 - 1) % len in
      let (s, result) = read_target target target (p1.slots index) in
      settle len again (record p1 { slots = update p1.slots index s }) result

  -- One round of `Pop` once the head is known.
  unfoldable pub pop_at :
      ℕ
      → (Port Message → Port Message × Popped Message)
      → Port Message
      → ℕ
      → Port Message × Popped Message
  pop_at len again p head =
      if ltb head p.consumer_sequence
      then (p, nothing)
      else take_target len again p (at_least (oldest_kept len head) p.consumer_sequence)

  -- `Pop`, with fuel for its loop and for each read of the head.
  unfoldable pub pop : ℕ → ℕ → Port Message → Port Message × Popped Message
  pop len zero p = (p, starved)
  pop len (suc fuel) p =
      let again = λ (q : Port Message). pop len fuel q in
      let (p1, head) = read_port_head (suc fuel) p in
      elim head [ none ↦ (p1, starved) | some sequence ↦ pop_at len again p1 sequence ]

  -- `Empty`, with the port after its read of the head; `none` if the fuel runs out.
  unfoldable pub is_empty : ℕ → Port Message → Port Message × Option Bool
  unfolding read_port_head
  is_empty fuel p =
      let (p1, head) = read_port_head fuel p in
      (p1, elim head [ none ↦ none | some sequence ↦ some (ltb sequence p1.consumer_sequence) ])

  -- `Clear`; `none` if the fuel runs out.
  unfoldable pub clear : ℕ → Port Message → Option (Port Message)
  unfolding read_port_head
  clear fuel p =
      let (p1, head) = read_port_head fuel p in
      elim head [
        | none ↦ none
        | some sequence ↦ some (record p1 { consumer_sequence = u64 (sequence + 1) })
      ]
