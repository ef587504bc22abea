-- ===== src/Port/Cells.antt =====
-- One slot and the head of `Port` (include/utils/port.h) between two operations: what is published
-- is what was written last, and reading it back gives exactly that.
use mathlib.Core.Path.{fun_ext}
use native.Mathlib.Decide.{ℕ_discrete}
use encos_driver.Prelude.{
  ℕ, suc, ◌+◌, ◌*◌, ◌%◌, ◌^◌, ◌<◌, ◌≡◌, refl, ap, ◌≢◌, bit_or, shr, u32, Option, some, arith,
  bit_and-mask, bit_or-shl_right,
}
use encos_driver.Port.Publication.{
  SequenceMetadata, SlotMetadata, HeadPublication, update, publish, read_head, read_sequence,
  read_slot, prepare_sequence, prepare_slot, next_cell, port_no_hazard,
}
use encos_driver.Port.{Slot, fill_slot, read_target, judge_snapshot, got}

pub update_self {ℓ} : {A : Type ℓ} (f : ℕ → A) (i : ℕ) → update f i (f i) ≡ f
unfolding update
update_self f i = fun_ext (λ j. ground arith)

pub update-eq {ℓ} : {A : Type ℓ} (f : ℕ → A) (i : ℕ) (v : A) → update f i v i ≡ v
unfolding update
update-eq f i v = ground arith

pub update-ne {ℓ} : {A : Type ℓ} (f : ℕ → A) (i : ℕ) (v : A) (j : ℕ) → j ≢ i → update f i v j ≡ f j
unfolding update
update-ne f i v j h = ground arith

pub update_cases {ℓ κ} :
    {A : Type ℓ} (P : A → Type κ) (f : ℕ → A) (i : ℕ) (v : A) (j : ℕ)
    → (j ≡ i → P v)
    → (j ≢ i → P (f j))
    → P (update f i v j)
update_cases P f i v j hit miss = elim (ℕ_discrete j i) [
  | yes e ↦ rw (e, update-eq f i v) (hit e)
  | no ne ↦ rw (update-ne f i v j ne) (miss ne)
]

next_cell-eq : (a : ℕ) → a < 3 → next_cell a port_no_hazard ≡ (a + 1) % 3
unfolding next_cell
next_cell-eq a h = ground arith

next_cell-lt : (a h : ℕ) → next_cell a h < 3
unfolding next_cell
next_cell-lt a h = ground arith

-- A 64-bit sequence survives its two 32-bit halves.
pub halves_join : (s : ℕ) → s < 2 ^ 64 → bit_or (u32 s) (u32 (shr s 32) * 2 ^ 32) ≡ s
halves_join s h = omega (arith, bit_or-shl_right 32 (u32 (shr s 32)) (u32 s) (omega arith))

-- Between operations no hazard is set, the producer's copy of the active index is the published
-- one, and every metadata version is even.
pub record HeadReady (h : HeadPublication) : Type 0 where
  pub free : h.reader_hazard ≡ port_no_hazard
  pub active : h.published_active ≡ h.producer_active
  pub range : h.producer_active < 3
  pub stable : (c : ℕ) → (h.metadata c).version ≡ (h.metadata c).writer_version
  pub even : (c : ℕ) → (h.metadata c).writer_version % 2 ≡ 0

-- The head publishes this sequence.
pub record HeadAt (sequence : ℕ) (h : HeadPublication) : Type 0 where
  pub low : (h.metadata h.producer_active).sequence_low ≡ u32 sequence
  pub high : (h.metadata h.producer_active).sequence_high ≡ u32 (shr sequence 32)

prepare_sequence_even :
    (s : ℕ) (m : SequenceMetadata)
    → m.writer_version % 2 ≡ 0
    → ((prepare_sequence s m).writer_version % 2 ≡ 0)
      × ((prepare_sequence s m).version ≡ (prepare_sequence s m).writer_version)
unfolding prepare_sequence
prepare_sequence_even s m h = omega arith

pub publish-HeadReady : (s : ℕ) {h : HeadPublication} → HeadReady h → HeadReady (publish s h)
unfolding publish update
publish-HeadReady s {h} r = record {
  free = r.free;
  active = refl;
  range = next_cell-lt h.producer_active h.reader_hazard;
  stable = λ c.
      let i = next_cell h.producer_active h.reader_hazard in
      ground (arith, r.stable c, r.even i, prepare_sequence_even s (h.metadata i));
  even = λ c.
      let i = next_cell h.producer_active h.reader_hazard in
      ground (arith, r.even c, r.even i, prepare_sequence_even s (h.metadata i));
}

pub publish-HeadAt : (s : ℕ) (h : HeadPublication) → HeadAt s (publish s h)
unfolding publish update prepare_sequence
publish-HeadAt s h = ground arith

read_sequence-eq :
    (s : ℕ) (m : SequenceMetadata)
    → s < 2 ^ 64
    → m.version ≡ m.writer_version
    → m.writer_version % 2 ≡ 0
    → m.sequence_low ≡ u32 s
    → m.sequence_high ≡ u32 (shr s 32)
    → read_sequence m ≡ some s
unfolding read_sequence
read_sequence-eq s m bound stable even low high =
    ground (arith, bit_and-mask 1 m.version, halves_join s bound)

-- A quiet head is read in one round, and unchanged.
pub read_head-eq :
    (s fuel : ℕ) {h : HeadPublication}
    → s < 2 ^ 64
    → HeadReady h
    → HeadAt s h
    → read_head (suc fuel) h ≡ (h, some s, 0)
unfolding read_head
read_head-eq s fuel {h} bound r a =
    let c = h.producer_active in
    let shown = read_sequence-eq s (h.metadata c) bound (r.stable c) (r.even c) a.low a.high in
    ground (arith, r.active, r.free, shown, ap (λ (c : ℕ). read_sequence (h.metadata c)) r.active)

prepare_slot_even :
    (q c : ℕ) (m : SlotMetadata)
    → m.writer_version % 2 ≡ 0
    → ((prepare_slot q c m).writer_version % 2 ≡ 0)
      × ((prepare_slot q c m).version ≡ (prepare_slot q c m).writer_version)
unfolding prepare_slot
prepare_slot_even q c m h = omega arith

read_slot-eq :
    (q : ℕ) (m : SlotMetadata)
    → q < 2 ^ 64
    → m.version ≡ m.writer_version
    → m.writer_version % 2 ≡ 0
    → m.sequence_low ≡ u32 q
    → m.sequence_high ≡ u32 (shr q 32)
    → read_slot m ≡ some (record { sequence = q; cell = m.cell })
unfolding read_slot
read_slot-eq q m bound stable even low high =
    ground (arith, bit_and-mask 1 m.version, halves_join q bound)

module _ {ℓ} {Message : Type ℓ} where
  -- The same for a slot.
  pub record SlotReady (s : Slot Message) : Type 0 where
    pub free : s.reader_hazard ≡ port_no_hazard
    pub active : s.published_active ≡ s.producer_active
    pub range : s.producer_active < 3
    pub stable : (c : ℕ) → (s.metadata c).version ≡ (s.metadata c).writer_version
    pub even : (c : ℕ) → (s.metadata c).writer_version % 2 ≡ 0

  -- The slot publishes this sequence with this payload.
  pub record Holds (sequence : ℕ) (m : Option Message) (s : Slot Message) : Type ℓ where
    pub low : (s.metadata s.producer_active).sequence_low ≡ u32 sequence
    pub high : (s.metadata s.producer_active).sequence_high ≡ u32 (shr sequence 32)
    pub cell : (s.metadata s.producer_active).cell ≡ s.producer_active
    pub payload : s.payloads s.producer_active ≡ m

  pub fill_slot-SlotReady :
      (q : ℕ) (m : Message) {s : Slot Message} → SlotReady s → SlotReady (fill_slot q m s)
  unfolding fill_slot update
  fill_slot-SlotReady q m {s} r = record {
    free = r.free;
    active = refl;
    range = next_cell-lt s.producer_active s.reader_hazard;
    stable = λ c.
        let i = next_cell s.producer_active s.reader_hazard in
        ground (arith, r.stable c, r.even i, prepare_slot_even q i (s.metadata i));
    even = λ c.
        let i = next_cell s.producer_active s.reader_hazard in
        ground (arith, r.even c, r.even i, prepare_slot_even q i (s.metadata i));
  }

  pub fill_slot-Holds :
      (q : ℕ) (m : Message) (s : Slot Message) → Holds q (some m) (fill_slot q m s)
  unfolding fill_slot update prepare_slot
  fill_slot-Holds q m s = ground arith

  -- A quiet slot that holds the wanted sequence yields its message, and is unchanged.
  pub read_target-eq :
      (q resync : ℕ) (m : Message) {s : Slot Message}
      → q < 2 ^ 64
      → SlotReady s
      → Holds q (some m) s
      → read_target q resync s ≡ (s, got m)
  unfolding read_target judge_snapshot
  read_target-eq q resync m {s} bound r a =
      let c = s.producer_active in
      let shown = read_slot-eq q (s.metadata c) bound (r.stable c) (r.even c) a.low a.high in
      ground (
        arith,
        shown,
        ap (λ (c : ℕ). read_slot (s.metadata c)) r.active,
        ap (λ (c : ℕ). s.payloads c) r.active,
      )
