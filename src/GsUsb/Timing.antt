-- ===== src/GsUsb/Timing.antt =====
-- Bit timing of a gs_usb device: `ComputeBitTiming` of
-- plugins/adapter/gsUsb/protocol/gs_usb_protocol.cc. The floating-point sample point is a parameter:
-- whether it lies between 0 and 1, and `llround` of it times a number of quanta, which is not
-- negative then. A negative `desired` or `max_seg1` is below every `tseg1_min`, as 0 and no segment
-- are here.
use encos_driver.Prelude.{
  ℕ, zero, suc, ◌+◌, ◌-◌, ◌*◌, ◌/◌, ◌%◌, min, max, ltb, ◌==◌, ◌!=◌, u32, Bool, not, ◌||◌,
  if◌then◌else◌, Option, none, some,
}

-- The fields of `BtConstExt` that are read, for the nominal or the data phase.
pub record Limits : Type 0 where
  pub tseg1_min : ℕ
  pub tseg1_max : ℕ
  pub tseg2_min : ℕ
  pub tseg2_max : ℕ
  pub sjw_max : ℕ
  pub brp_min : ℕ
  pub brp_max : ℕ
  pub brp_inc : ℕ

pub record BtConstExt : Type 0 where
  pub feature : ℕ
  pub fclk : ℕ
  pub nominal : Limits
  pub data_phase : Limits

pub record BitTiming : Type 0 where
  pub prop_seg : ℕ
  pub phase_seg1 : ℕ
  pub phase_seg2 : ℕ
  pub sjw : ℕ
  pub brp : ℕ

-- `sample_point`: whether it is strictly between 0 and 1, and its rounded product.
pub record SamplePoint : Type 0 where
  pub in_range : Bool
  pub rounded : ℕ → ℕ

-- `desired` after the three clamps, for a `max_seg1` that is not negative.
unfoldable pub clamp_seg1 : Limits → ℕ → ℕ → ℕ
clamp_seg1 limits desired max_seg1 =
    let raised = if ltb desired limits.tseg1_min then limits.tseg1_min else desired in
    let lowered = if ltb limits.tseg1_max raised then limits.tseg1_max else raised in
    if ltb max_seg1 lowered then max_seg1 else lowered

-- The body of the loop from the segments on: `none` is `continue`.
unfoldable pub split_quanta : SamplePoint → Limits → ℕ → ℕ → Option BitTiming
split_quanta sample limits total brp =
    if ltb total (u32 (1 + limits.tseg1_min + limits.tseg2_min))
    then none
    else if ltb total (1 + limits.tseg2_min)
    then none
    else let seg1 = clamp_seg1 limits (sample.rounded total - 1) (total - 1 - limits.tseg2_min) in
      let seg2 = u32 (total - 1 - u32 seg1) in
      if ltb seg1 limits.tseg1_min
      then none
      else if ltb seg2 limits.tseg2_min || ltb limits.tseg2_max seg2
      then none
      else some (record {
        prop_seg = 0;
        phase_seg1 = u32 seg1;
        phase_seg2 = seg2;
        sjw = max 1 (min (u32 seg1) (min seg2 limits.sjw_max));
        brp = u32 brp;
      })

-- The body of the loop for one prescaler.
unfoldable pub try_prescaler : SamplePoint → Limits → ℕ → ℕ → ℕ → Option BitTiming
try_prescaler sample limits fclk target brp =
    let denominator = target * brp in
    if denominator == 0
    then none
    else if fclk % denominator != 0
    then none
    else split_quanta sample limits (fclk / denominator) brp

-- The loop from a prescaler on, on fuel.
unfoldable pub search_prescaler : SamplePoint → Limits → ℕ → ℕ → ℕ → ℕ → Option BitTiming
search_prescaler sample limits fclk target zero brp = none
search_prescaler sample limits fclk target (suc fuel) brp =
    let rest = search_prescaler sample limits fclk target fuel (brp + limits.brp_inc) in
    if ltb limits.brp_max brp then none else elim (try_prescaler sample limits fclk target brp) [
      | some timing ↦ some timing
      | none ↦ rest
    ]

-- `ComputeBitTiming`. Each round raises the prescaler by at least one, so `brp_max + 1` rounds are
-- enough.
unfoldable pub compute_bit_timing : SamplePoint → BtConstExt → ℕ → Bool → Option BitTiming
compute_bit_timing sample constraints bitrate in_data_phase =
    let limits = if in_data_phase then constraints.data_phase else constraints.nominal in
    if constraints.fclk == 0 || bitrate == 0 || not sample.in_range
    then none
    else if limits.brp_min == 0 || limits.brp_inc == 0 || limits.tseg2_min == 0
    then none
    else search_prescaler sample limits constraints.fclk bitrate (suc limits.brp_max) limits.brp_min
