-- ===== src/Port/Publication.antt =====
-- The seqlock metadata and the head publication of include/utils/port.h. Every atomic word is a
-- number below 2 ^ 32; a store is a record update, a load reads the field.
use encos_driver.Prelude.{
  ℕ, zero, suc, ◌+◌, ◌-◌, ◌%◌, ◌^◌, bit_and, bit_or, shl, shr, u32, ◌||◌, ◌==◌, ◌!=◌, if◌then◌else◌,
  Option, none, some,
}

abbrev pub port_cell_count : ℕ
port_cell_count = 3

abbrev pub port_no_hazard : ℕ
port_no_hazard = 3

-- An array of three cells, or of `Len` slots: the code indexes both modulo their size only.
unfoldable pub update {ℓ} : {A : Type ℓ} → (ℕ → A) → ℕ → A → ℕ → A
update f i v j = if j == i then v else f j

pub record SequenceMetadata : Type 0 where
  pub version : ℕ
  pub sequence_low : ℕ
  pub sequence_high : ℕ
  pub writer_version : ℕ

pub record SlotMetadata : Type 0 where
  pub version : ℕ
  pub sequence_low : ℕ
  pub sequence_high : ℕ
  pub cell : ℕ
  pub writer_version : ℕ

-- `PortSequenceMetadata::Prepare`: the stores in their order.
unfoldable pub prepare_sequence : ℕ → SequenceMetadata → SequenceMetadata
prepare_sequence sequence m =
    let next_version = u32 (m.writer_version + 2) in
    let m1 = record m { version = u32 (next_version + 2 ^ 32 - 1) } in
    let m2 = record m1 { sequence_low = u32 sequence } in
    let m3 = record m2 { sequence_high = u32 (shr sequence 32) } in
    let m4 = record m3 { version = next_version } in record m4 { writer_version = next_version }

-- `PortSequenceMetadata::ReadProtected` on what its two loads of the version returned.
unfoldable pub read_sequence : SequenceMetadata → Option ℕ
read_sequence m =
    let version_before = m.version in
    let version_after = m.version in
    if bit_and version_before 1 != 0 || version_before != version_after
    then none
    else some (bit_or m.sequence_low (shl m.sequence_high 32))

-- `PortSlotMetadata::Prepare`.
unfoldable pub prepare_slot : ℕ → ℕ → SlotMetadata → SlotMetadata
prepare_slot sequence cell m =
    let next_version = u32 (m.writer_version + 2) in
    let m1 = record m { version = u32 (next_version + 2 ^ 32 - 1) } in
    let m2 = record m1 { sequence_low = u32 sequence } in
    let m3 = record m2 { sequence_high = u32 (shr sequence 32) } in
    let m4 = record m3 { cell = cell } in
    let m5 = record m4 { version = next_version } in record m5 { writer_version = next_version }

pub record SlotSnapshot : Type 0 where
  pub sequence : ℕ
  pub cell : ℕ

-- `PortSlotMetadata::ReadProtected`.
unfoldable pub read_slot : SlotMetadata → Option SlotSnapshot
read_slot m =
    let version_before = m.version in
    let version_after = m.version in
    if bit_and version_before 1 != 0 || version_before != version_after
    then none
    else some (record { sequence = bit_or m.sequence_low (shl m.sequence_high 32); cell = m.cell })

-- The copy that the producer fills next: neither the published one nor the one under the hazard.
unfoldable pub next_cell : ℕ → ℕ → ℕ
next_cell producer_active hazard =
    let next = (producer_active + 1) % port_cell_count in
    if next == hazard then (next + 1) % port_cell_count else next

pub record HeadPublication : Type 0 where
  pub metadata : ℕ → SequenceMetadata
  pub reader_hazard : ℕ
  pub published_active : ℕ
  pub producer_active : ℕ

-- `PortHeadPublication::Publish`.
unfoldable pub publish : ℕ → HeadPublication → HeadPublication
unfolding next_cell update prepare_sequence
publish sequence h =
    let cell = next_cell h.producer_active h.reader_hazard in
    let h1 = record h {
      metadata = update h.metadata cell (prepare_sequence sequence (h.metadata cell));
    } in
    let h2 = record h1 { published_active = cell } in record h2 { producer_active = cell }

-- `PortHeadPublication::Read` with fuel for its loop: the head after it, the sequence that it
-- returns (`none` if the fuel runs out) and the number of failed validations.
unfoldable pub read_head : ℕ → HeadPublication → HeadPublication × Option ℕ × ℕ
read_head zero h = (h, none, 0)
read_head (suc fuel) h =
    let cell = h.published_active in
    let held = record h { reader_hazard = cell } in
    let freed = record held { reader_hazard = port_no_hazard } in
    let rest = read_head fuel freed in
    let again : HeadPublication × Option ℕ × ℕ = (rest.0, rest.1, rest.2 + 1) in
    if held.published_active != cell then again else elim (read_sequence (held.metadata cell)) [
      | some sequence ↦ (freed, some sequence, 0)
      | none ↦ again
    ]
