-- ===== src/GsUsb/TimingSound.antt =====
-- What `ComputeBitTiming` (plugins/adapter/gsUsb/protocol/gs_usb_protocol.cc) returns.
use encos_driver.Prelude.{
  ℕ, zero, suc, ◌+◌, ◌-◌, ◌*◌, ◌/◌, ◌%◌, ◌^◌, ◌≤◌, ◌<◌, ◌≡◌, sym, subst, ◌∙◌, max, ◌==◌, u32, Bool,
  false, not, ◌||◌, if◌then◌else◌, Option, none, some, arith, Option-cases, inl, inr,
}
use native.Mathlib.Nat.{div-add-mod, div-le_self}
use encos_driver.GsUsb.Timing.{
  Limits, BtConstExt, BitTiming, SamplePoint, clamp_seg1, split_quanta, try_prescaler,
  search_prescaler, compute_bit_timing,
}

-- The fields that the proofs need to be 32-bit numbers.
pub record IsSmall (limits : Limits) : Type 0 where
  pub tseg1_small : limits.tseg1_max < 2 ^ 32
  pub brp_small : limits.brp_max < 2 ^ 32

-- The segments are within the device's limits and add up to a number of quanta per bit. The jump
-- width is at least 1, and beyond 1 it exceeds neither its limit nor a segment.
pub record Splits (limits : Limits) (total : ℕ) (timing : BitTiming) : Type 0 where
  pub seg1_low : limits.tseg1_min ≤ timing.phase_seg1
  pub seg1_high : timing.phase_seg1 ≤ limits.tseg1_max
  pub seg2_low : limits.tseg2_min ≤ timing.phase_seg2
  pub seg2_high : timing.phase_seg2 ≤ limits.tseg2_max
  pub jump_low : 1 ≤ timing.sjw
  pub jump_high : timing.sjw ≤ max 1 limits.sjw_max
  pub jump_seg1 : timing.sjw ≤ max 1 timing.phase_seg1
  pub jump_seg2 : timing.sjw ≤ max 1 timing.phase_seg2
  pub quanta : 1 + timing.prop_seg + timing.phase_seg1 + timing.phase_seg2 ≡ total

clamp_seg1-le :
    (limits : Limits) (desired max_seg1 : ℕ)
    → (clamp_seg1 limits desired max_seg1 ≤ max_seg1)
      × (clamp_seg1 limits desired max_seg1 ≤ limits.tseg1_max)
unfolding clamp_seg1
clamp_seg1-le limits desired max_seg1 = ground arith

split_quanta-Splits :
    (sample : SamplePoint) (limits : Limits) (total brp : ℕ) (timing : BitTiming)
    → IsSmall limits
    → total < 2 ^ 32
    → split_quanta sample limits total brp ≡ some timing
    → Splits limits total timing × (timing.brp ≡ u32 brp)
unfolding split_quanta
split_quanta-Splits sample limits total brp timing small h eq =
    let c = clamp_seg1-le limits (sample.rounded total - 1) (total - 1 - limits.tseg2_min) in
    (
      record {
        seg1_low = ground arith;
        seg1_high = ground arith;
        seg2_low = ground arith;
        seg2_high = ground arith;
        jump_low = ground arith;
        jump_high = ground arith;
        jump_seg1 = ground arith;
        jump_seg2 = ground arith;
        quanta = ground arith;
      },
      ground arith,
    )

-- A prescaler that the loop accepts gives the target bitrate exactly.
pub record Respects (limits : Limits) (fclk target brp : ℕ) (timing : BitTiming) : Type 0 where
  pub total : ℕ
  pub splits : Splits limits total timing
  pub brp_eq : timing.brp ≡ brp
  pub exact : fclk ≡ target * timing.brp * total

module _ (limits : Limits) where
  -- The prescalers that the loop visits from one on.
  abbrev pub nth_prescaler : ℕ → ℕ → ℕ
  nth_prescaler start zero = start
  nth_prescaler start (suc j) = nth_prescaler (start + limits.brp_inc) j

  nth_prescaler-ge : (start j : ℕ) → start ≤ nth_prescaler start j
  nth_prescaler-ge start zero = omega arith
  nth_prescaler-ge start (suc j) = omega (arith, nth_prescaler-ge (start + limits.brp_inc) j)

module _ (sample : SamplePoint) (limits : Limits) (fclk target : ℕ) where
  try_prescaler-Respects :
      (brp : ℕ) (timing : BitTiming)
      → IsSmall limits
      → fclk < 2 ^ 32
      → brp ≤ limits.brp_max
      → try_prescaler sample limits fclk target brp ≡ some timing
      → Respects limits fclk target brp timing
  unfolding try_prescaler
  try_prescaler-Respects brp timing small h k eq =
      let d = target * brp in
      let total_small : fclk / d < 2 ^ 32 = omega (arith, div-le_self fclk d) in
      let divides : fclk % d ≡ 0 = ground arith in
      let tried : split_quanta sample limits (fclk / d) brp ≡ some timing = ground arith in
      let (splits, brp_eq) =
        split_quanta-Splits sample limits (fclk / d) brp timing small total_small tried in
      let same : timing.brp ≡ brp = omega (arith, small.brp_small) in
      record {
        total = fclk / d;
        splits = splits;
        brp_eq = same;
        exact = sym (div-add-mod fclk d) ∙ rw (divides, same) (omega arith);
      }

  abbrev pub attempt : ℕ → ℕ → Option BitTiming
  attempt start j = try_prescaler sample limits fclk target (nth_prescaler limits start j)

  -- The timing is that of the first prescaler of the sequence that is accepted.
  pub record First (start : ℕ) (timing : BitTiming) : Type 0 where
    pub index : ℕ
    pub in_limits : nth_prescaler limits start index ≤ limits.brp_max
    pub found : attempt start index ≡ some timing
    pub earlier : (j : ℕ) → j < index → attempt start j ≡ none

  earlier_next :
      (start : ℕ)
      → attempt start 0 ≡ none
      → (index : ℕ) → ((j : ℕ) → j < index → attempt (start + limits.brp_inc) j ≡ none)
      → (j : ℕ) → j < suc index
      → attempt start j ≡ none
  earlier_next start failed index earlier zero h = failed
  earlier_next start failed index earlier (suc j) h = earlier j (omega arith)

  First-next :
      (start : ℕ) (timing : BitTiming)
      → attempt start 0 ≡ none
      → First (start + limits.brp_inc) timing
      → First start timing
  First-next start timing failed first = record {
    index = suc first.index;
    in_limits = first.in_limits;
    found = first.found;
    earlier = earlier_next start failed first.index first.earlier;
  }

  search_prescaler-First :
      (fuel start : ℕ) (timing : BitTiming)
      → search_prescaler sample limits fclk target fuel start ≡ some timing
      → First start timing
  unfolding search_prescaler
  search_prescaler-First zero start timing eq = absurd cc
  search_prescaler-First (suc fuel) start timing eq = elim (Option-cases (attempt start 0)) [
    | inl failed ↦
        First-next start timing failed
          (search_prescaler-First fuel (start + limits.brp_inc) timing (ground arith))
    | inr (found, eq') ↦ record {
      index = 0;
      in_limits = ground arith;
      found = ground arith;
      earlier = λ j h. absurd (omega arith);
    }
  ]

  search_prescaler-none :
      (fuel start : ℕ)
      → 0 < limits.brp_inc
      → limits.brp_max < fuel + start
      → search_prescaler sample limits fclk target fuel start ≡ none
      → (j : ℕ) → nth_prescaler limits start j ≤ limits.brp_max
      → attempt start j ≡ none
  unfolding search_prescaler
  search_prescaler-none zero start p f eq j k =
      absurd (omega (arith, nth_prescaler-ge limits start j))
  search_prescaler-none (suc fuel) start p f eq zero k = elim (Option-cases (attempt start 0)) [
    | inl failed ↦ failed
    | inr (found, eq') ↦ absurd (ground arith)
  ]
  search_prescaler-none (suc fuel) start p f eq (suc j) k =
      let bound = nth_prescaler-ge limits (start + limits.brp_inc) j in
      search_prescaler-none fuel (start + limits.brp_inc) p (omega arith) (ground arith) j k

-- The limits of the phase, the ones that `ComputeBitTiming` selects.
abbrev pub phase_limits : BtConstExt → Bool → Limits
phase_limits constraints in_data_phase =
    if in_data_phase then constraints.data_phase else constraints.nominal

-- For limits and a clock of 32 bits: a timing that is returned is that of the first accepted
-- prescaler, has segments within the limits of its phase, and divides the clock to the target
-- bitrate exactly. Its jump width is at least 1, also if the limit of the jump width is 0, and a
-- greater one exceeds neither that limit nor a segment.
pub compute_bit_timing-some :
    (sample : SamplePoint) (constraints : BtConstExt) (bitrate : ℕ) (in_data_phase : Bool)
    (timing : BitTiming)
    → IsSmall (phase_limits constraints in_data_phase)
    → constraints.fclk < 2 ^ 32
    → compute_bit_timing sample constraints bitrate in_data_phase ≡ some timing
    → First sample
        (phase_limits constraints in_data_phase)
        constraints.fclk
        bitrate
        (phase_limits constraints in_data_phase).brp_min
        timing
      × Respects (phase_limits constraints in_data_phase) constraints.fclk bitrate timing.brp timing
unfolding compute_bit_timing
compute_bit_timing-some sample constraints bitrate in_data_phase timing small h eq =
    let limits = phase_limits constraints in_data_phase in
    let searched : search_prescaler sample limits constraints.fclk bitrate (suc limits.brp_max)
          limits.brp_min
        ≡ some timing =
      ground arith in
    let first =
      search_prescaler-First sample limits constraints.fclk bitrate (suc limits.brp_max)
        limits.brp_min timing searched in
    let respects =
      try_prescaler-Respects sample limits constraints.fclk bitrate
        (nth_prescaler limits limits.brp_min first.index) timing small h first.in_limits
        first.found in
    (
      first,
      subst (λ (b : ℕ). Respects limits constraints.fclk bitrate b timing) (sym respects.brp_eq)
          respects,
    )

-- If none is returned for a sample point, a clock, a bitrate and limits that pass the tests at the
-- head, then the loop has tried every prescaler up to the maximum and none is accepted.
pub compute_bit_timing-none :
    (sample : SamplePoint) (constraints : BtConstExt) (bitrate : ℕ) (in_data_phase : Bool)
    → (constraints.fclk == 0 || bitrate == 0 || not sample.in_range) ≡ false
    → ((phase_limits constraints in_data_phase).brp_min == 0
        || (phase_limits constraints in_data_phase).brp_inc == 0
        || (phase_limits constraints in_data_phase).tseg2_min == 0)
      ≡ false
    → compute_bit_timing sample constraints bitrate in_data_phase ≡ none
    → (j : ℕ)
    → nth_prescaler
        (phase_limits constraints in_data_phase)
        (phase_limits constraints in_data_phase).brp_min
        j
      ≤ (phase_limits constraints in_data_phase).brp_max
    → attempt sample
        (phase_limits constraints in_data_phase)
        constraints.fclk
        bitrate
        (phase_limits constraints in_data_phase).brp_min
        j
      ≡ none
unfolding compute_bit_timing
compute_bit_timing-none sample constraints bitrate in_data_phase p q eq j k =
    let limits = phase_limits constraints in_data_phase in
    let searched : search_prescaler sample limits constraints.fclk bitrate (suc limits.brp_max)
          limits.brp_min
        ≡ none =
      ground arith in
    search_prescaler-none sample limits constraints.fclk bitrate (suc limits.brp_max) limits.brp_min
      (ground arith) (ground arith) searched j k
