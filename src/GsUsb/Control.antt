-- ===== src/GsUsb/Control.antt =====
-- The control transfers of a gs_usb device: `DecodeBtConstExt` and `EncodeBitTiming` of
-- plugins/adapter/gsUsb/protocol/gs_usb_protocol.cc, and that they read and write every word.
use encos_driver.Prelude.{
  ℕ, ◌^◌, ◌<◌, ◌≡◌, refl, ltb, if◌then◌else◌, Option, none, some, List, [], ◌++◌, length,
  four_bytes,
}
use encos_driver.GsUsb.{read_le32, write_le32}
use encos_driver.GsUsb.Timing.{Limits, BtConstExt, BitTiming}

unfoldable pub decode_bt_const_ext : List ℕ → Option BtConstExt
decode_bt_const_ext bytes =
    if ltb (length bytes) 72
    then none
    else some (record {
      feature = read_le32 bytes 0;
      fclk = read_le32 bytes 4;
      nominal = record {
        tseg1_min = read_le32 bytes 8;
        tseg1_max = read_le32 bytes 12;
        tseg2_min = read_le32 bytes 16;
        tseg2_max = read_le32 bytes 20;
        sjw_max = read_le32 bytes 24;
        brp_min = read_le32 bytes 28;
        brp_max = read_le32 bytes 32;
        brp_inc = read_le32 bytes 36;
      };
      data_phase = record {
        tseg1_min = read_le32 bytes 40;
        tseg1_max = read_le32 bytes 44;
        tseg2_min = read_le32 bytes 48;
        tseg2_max = read_le32 bytes 52;
        sjw_max = read_le32 bytes 56;
        brp_min = read_le32 bytes 60;
        brp_max = read_le32 bytes 64;
        brp_inc = read_le32 bytes 68;
      };
    })

unfoldable pub encode_bit_timing : BitTiming → List ℕ
encode_bit_timing timing =
    write_le32 timing.prop_seg
    ++ write_le32 timing.phase_seg1
    ++ write_le32 timing.phase_seg2
    ++ write_le32 timing.sjw
    ++ write_le32 timing.brp

-- The words of the limits of one phase, as the device sends them.
abbrev pub limits_bytes : Limits → List ℕ → List ℕ
limits_bytes l rest =
    write_le32 l.tseg1_min
    ++ write_le32 l.tseg1_max
    ++ write_le32 l.tseg2_min
    ++ write_le32 l.tseg2_max
    ++ write_le32 l.sjw_max
    ++ write_le32 l.brp_min
    ++ write_le32 l.brp_max
    ++ write_le32 l.brp_inc
    ++ rest

-- The 72 bytes of the device's answer.
abbrev pub constraints_bytes : BtConstExt → List ℕ
constraints_bytes c =
    write_le32 c.feature
    ++ write_le32 c.fclk
    ++ limits_bytes c.nominal (limits_bytes c.data_phase [])

pub record AreWords (l : Limits) : Type 0 where
  pub tseg1_min_small : l.tseg1_min < 2 ^ 32
  pub tseg1_max_small : l.tseg1_max < 2 ^ 32
  pub tseg2_min_small : l.tseg2_min < 2 ^ 32
  pub tseg2_max_small : l.tseg2_max < 2 ^ 32
  pub sjw_max_small : l.sjw_max < 2 ^ 32
  pub brp_min_small : l.brp_min < 2 ^ 32
  pub brp_max_small : l.brp_max < 2 ^ 32
  pub brp_inc_small : l.brp_inc < 2 ^ 32

-- An answer of 72 bytes is decoded to the constraints whose words it holds, if they are 32-bit
-- numbers.
pub decode_bt_const_ext-bytes :
    (c : BtConstExt)
    → c.feature < 2 ^ 32
    → c.fclk < 2 ^ 32
    → AreWords c.nominal
    → AreWords c.data_phase
    → decode_bt_const_ext (constraints_bytes c) ≡ some c
unfolding decode_bt_const_ext read_le32 write_le32
decode_bt_const_ext-bytes c hf hc n d =
    rw
      (
        four_bytes c.feature hf,
        four_bytes c.fclk hc,
        four_bytes c.nominal.tseg1_min n.tseg1_min_small,
        four_bytes c.nominal.tseg1_max n.tseg1_max_small,
        four_bytes c.nominal.tseg2_min n.tseg2_min_small,
        four_bytes c.nominal.tseg2_max n.tseg2_max_small,
        four_bytes c.nominal.sjw_max n.sjw_max_small,
        four_bytes c.nominal.brp_min n.brp_min_small,
        four_bytes c.nominal.brp_max n.brp_max_small,
        four_bytes c.nominal.brp_inc n.brp_inc_small,
        four_bytes c.data_phase.tseg1_min d.tseg1_min_small,
        four_bytes c.data_phase.tseg1_max d.tseg1_max_small,
        four_bytes c.data_phase.tseg2_min d.tseg2_min_small,
        four_bytes c.data_phase.tseg2_max d.tseg2_max_small,
        four_bytes c.data_phase.sjw_max d.sjw_max_small,
        four_bytes c.data_phase.brp_min d.brp_min_small,
        four_bytes c.data_phase.brp_max d.brp_max_small,
        four_bytes c.data_phase.brp_inc d.brp_inc_small,
      )
      refl
