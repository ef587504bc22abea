-- ===== src/GsUsb/Words.antt =====
-- The identifier words and the flags of gs_usb frames that carry CAN messages, for each kind of
-- message: plugins/adapter/gsUsb/gs_usb_adapter.cc.
use encos_driver.Prelude.{
  ℕ, zero, suc, ◌+◌, ◌*◌, ◌^◌, ◌≤◌, ◌<◌, ◌≡◌, ap, ◌∙◌, bit_and, bit_or, Bool, true, false, ◌&&◌,
  if◌then◌else◌, arith, bit_and-mask, bit_and-field, bit_or-shl_right, bit_or-concat, bit_or-zero,
}
use encos_driver.Frame.{sanitize, use_rtr, use_canfd, have_valid_fd_bits}
use encos_driver.GsUsb.{accepts, can_eff, can_rtr, can_err, can_ext_id_mask, can_std_id_mask}

abbrev pub id_limit : Bool → ℕ
id_limit extended = if extended then 2 ^ 29 else 2 ^ 11

abbrev pub id_mask : Bool → ℕ
id_mask extended = if extended then can_ext_id_mask else can_std_id_mask

-- The `can_id` that `WriteFrame` builds.
abbrev pub id_word : Bool → Bool → ℕ → ℕ
id_word extended rtr id =
    let with_eff =
      if extended
      then bit_or (bit_and id (id_mask extended)) can_eff
      else bit_and id (id_mask extended) in
    if rtr then bit_or with_eff can_rtr else with_eff

id_word-eq :
    (extended rtr : Bool) (id : ℕ)
    → id < id_limit extended
    → id_word extended rtr id ≡ id + (if extended then 2 ^ 31 else 0) + (if rtr then 2 ^ 30 else 0)
id_word-eq true true id h =
    let low : bit_and id can_ext_id_mask ≡ id = omega (arith, bit_and-mask 29 id) in
    let eff : bit_or id can_eff ≡ id + 2 ^ 31 =
      omega (arith, bit_or-shl_right 31 1 id (omega arith)) in
    let both : bit_or (2 * 2 ^ 30 + id) (1 * 2 ^ 30 + 0) ≡ 3 * 2 ^ 30 + id =
      omega (arith, bit_or-concat 30 2 1 id 0 (omega arith) (omega arith), bit_or-zero id) in
    let sum : id + 2 ^ 31 ≡ 2 * 2 ^ 30 + id = omega arith in
    let three : 3 * 2 ^ 30 + id ≡ id + 2 ^ 31 + 2 ^ 30 = omega arith in
    rw (low, eff) (ap (λ (t : ℕ). bit_or t can_rtr) sum ∙ both ∙ three)
id_word-eq true false id h =
    let low : bit_and id can_ext_id_mask ≡ id = omega (arith, bit_and-mask 29 id) in
    omega (arith, low, ap (λ (t : ℕ). bit_or t can_eff) low, bit_or-shl_right 31 1 id (omega arith))
id_word-eq false true id h =
    let low : bit_and id can_std_id_mask ≡ id = omega (arith, bit_and-mask 11 id) in
    omega (arith, low, ap (λ (t : ℕ). bit_or t can_rtr) low, bit_or-shl_right 30 1 id (omega arith))
id_word-eq false false id h = omega (arith, bit_and-mask 11 id)

-- What the receiver reads in the word.
pub record Reads (extended rtr : Bool) (id word : ℕ) : Type 0 where
  pub small : word < 2 ^ 32
  pub eff : bit_and word can_eff ≡ (if extended then 2 ^ 31 else 0)
  pub remote : bit_and word can_rtr ≡ (if rtr then 2 ^ 30 else 0)
  pub no_error : bit_and word can_err ≡ 0
  pub full : bit_and word can_ext_id_mask ≡ id
  pub same : bit_and word (id_mask extended) ≡ id

pub id_word-Reads :
    (extended rtr : Bool) (id : ℕ)
    → id < id_limit extended
    → Reads extended rtr id (id_word extended rtr id)
id_word-Reads extended rtr id h =
    let w = id_word extended rtr id in
    let eq = id_word-eq extended rtr id h in
    record {
      small = ground (arith);
      eff = ground (arith, bit_and-field 31 1 w);
      remote = ground (arith, bit_and-field 30 1 w);
      no_error = ground (arith, bit_and-field 29 1 w);
      full = ground (arith, bit_and-mask 29 w);
      same = ground (arith, bit_and-mask 29 w, bit_and-mask 11 w);
    }

-- `DecodeFrame` accepts the word with the flags that `WriteFrame` sends, unless a remote frame is
-- sent as FD.
pub accepts-word :
    (extended rtr fd : Bool) (id word dlc : ℕ)
    → Reads extended rtr id word
    → id < id_limit extended
    → (rtr && fd) ≡ false
    → dlc ≤ 8
    → accepts (if fd then 6 else 0) word dlc ≡ true
unfolding accepts
accepts-word true true true id word dlc r h n k = absurd cc
accepts-word true true false id word dlc r h n k = ground (arith, r.eff, r.full, r.remote)
accepts-word true false true id word dlc r h n k = ground (arith, r.eff, r.full, r.remote)
accepts-word true false false id word dlc r h n k = ground (arith, r.eff, r.full, r.remote)
accepts-word false true true id word dlc r h n k = absurd cc
accepts-word false true false id word dlc r h n k = ground (arith, r.eff, r.full, r.remote)
accepts-word false false true id word dlc r h n k = ground (arith, r.eff, r.full, r.remote)
accepts-word false false false id word dlc r h n k = ground (arith, r.eff, r.full, r.remote)

-- The six kinds of flags: neither of the FD bits or both, and no remote FD frame.
pub data Kind : ℕ → Type 0 where
  std : Kind 0
  ext : Kind 1
  std_fd : Kind 6
  ext_fd : Kind 7
  std_rtr : Kind 8
  ext_rtr : Kind 9

pub flags-Kind :
    (flags : ℕ)
    → flags < 16
    → have_valid_fd_bits flags ≡ true
    → (use_rtr flags && use_canfd flags) ≡ false
    → Kind flags
unfolding sanitize have_valid_fd_bits use_rtr use_canfd
flags-Kind zero h v b = std
flags-Kind (suc zero) h v b = ext
flags-Kind (suc (suc zero)) h v b = absurd cc
flags-Kind (suc (suc (suc zero))) h v b = absurd cc
flags-Kind (suc (suc (suc (suc zero)))) h v b = absurd cc
flags-Kind (suc (suc (suc (suc (suc zero))))) h v b = absurd cc
flags-Kind (suc (suc (suc (suc (suc (suc zero)))))) h v b = std_fd
flags-Kind (suc (suc (suc (suc (suc (suc (suc zero))))))) h v b = ext_fd
flags-Kind (suc (suc (suc (suc (suc (suc (suc (suc zero)))))))) h v b = std_rtr
flags-Kind (suc (suc (suc (suc (suc (suc (suc (suc (suc zero))))))))) h v b = ext_rtr
flags-Kind (suc (suc (suc (suc (suc (suc (suc (suc (suc (suc zero)))))))))) h v b = absurd cc
flags-Kind (suc (suc (suc (suc (suc (suc (suc (suc (suc (suc (suc zero))))))))))) h v b = absurd cc
flags-Kind (suc (suc (suc (suc (suc (suc (suc (suc (suc (suc (suc (suc zero)))))))))))) h v b =
    absurd cc
flags-Kind (suc (suc (suc (suc (suc (suc (suc (suc (suc (suc (suc (suc (suc zero))))))))))))) h v
      b =
    absurd cc
flags-Kind (suc (suc (suc (suc (suc (suc (suc (suc (suc (suc (suc (suc (suc (suc zero))))))))))))))
      h v b =
    absurd cc
flags-Kind
      (suc (suc (suc (suc (suc (suc (suc (suc (suc (suc (suc (suc (suc (suc (suc zero)))))))))))))))
      h v b =
    absurd cc
flags-Kind
      (suc
        (suc (suc (suc (suc (suc (suc (suc (suc (suc (suc (suc (suc (suc (suc (suc n))))))))))))))))
      h v b =
    absurd (omega arith)
