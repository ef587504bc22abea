-- ===== src/Slcan/Texts.antt =====
-- What `ReceiveLine` makes of the texts that `Send` writes.
use encos_driver.Prelude.{
  ℕ, zero, suc, ◌*◌, ◌≤◌, ◌<◌, ◌≡◌, refl, ap, ◌∙◌, sym, arith, Bool, true, false, ltb,
  if◌then◌else◌, List, [], ◌∷◌, ◌++◌, length, length-append, length-take, take, drop, get_or, some,
  All, u8, bit_or, take-length_append, drop-length_append, drop-drop,
}
use encos_driver.Frame.{
  MotorPackMsg, no_payload, sanitize, flag_eff, flag_rtr, use_extended_id, use_rtr, use_canfd,
  have_valid_fd_bits,
}
use encos_driver.Slcan.{
  byte_texts, command_type, hex_text, id_width, parse_data, parse_fields, parse_line, read_bytes,
  stoi,
}
use encos_driver.Slcan.Numbers.{length-hex_text, stoi-hex_text}

module _ {ℓ} {A : Type ℓ} where
  take_exact : (n : ℕ) (xs ys : List A) → length xs ≡ n → take n (xs ++ ys) ≡ xs
  take_exact n xs ys e = ap (λ k. take k (xs ++ ys)) (sym e) ∙ take-length_append xs ys

  drop_exact : (n : ℕ) (xs ys : List A) → length xs ≡ n → drop n (xs ++ ys) ≡ ys
  drop_exact n xs ys e = ap (λ k. drop k (xs ++ ys)) (sym e) ∙ drop-length_append xs ys

pub length-byte_texts : (n : ℕ) (p : List ℕ) → length (byte_texts n p) ≡ n * 2
unfolding byte_texts
length-byte_texts zero p = refl
length-byte_texts (suc n) p = omega (
  arith,
  length-append (hex_text 2 (u8 (get_or p 0 0))) (byte_texts n (drop 1 p)),
  length-hex_text 2 (u8 (get_or p 0 0)),
  length-byte_texts n (drop 1 p),
)

read_bytes-byte_texts :
    (n : ℕ) (p : List ℕ)
    → n ≤ length p
    → All (λ b. b < 256) p
    → read_bytes n (byte_texts n p) ≡ some (take n p)
unfolding read_bytes byte_texts
read_bytes-byte_texts zero p h a = refl
read_bytes-byte_texts (suc n) [] h a = absurd (omega arith)
read_bytes-byte_texts (suc n) (b ∷ bs) h a =
    let text = hex_text 2 (u8 b) in
    let two = length-hex_text 2 (u8 b) in
    rw
      (
        take_exact 2 text (byte_texts n bs) two,
        drop_exact 2 text (byte_texts n bs) two,
        stoi-hex_text 2 (u8 b) (omega arith) (omega arith) (omega arith),
        read_bytes-byte_texts n bs (omega arith) a.1,
      )
      (ap (λ t. some (t ∷ take n bs)) (omega (arith, a.0)))

pub parse_fields-parts :
    (extended rtr : Bool) (k : ℕ) (id_text len_text data_text : List ℕ)
    → length id_text ≡ id_width extended
    → length len_text ≡ 1
    → parse_fields extended rtr (k ∷ (id_text ++ (len_text ++ data_text)))
      ≡ parse_data extended rtr data_text (stoi id_text) (stoi len_text)
unfolding parse_fields
parse_fields-parts true rtr k a b d ha hb =
    let long : ltb (length (k ∷ (a ++ (b ++ d)))) 10 ≡ false =
      ground (arith, length-append a (b ++ d), length-append b d) in
    let data_part : drop 9 (a ++ (b ++ d)) ≡ d =
      sym (drop-drop 1 8 (a ++ (b ++ d)))
      ∙ ap (drop 1) (drop_exact 8 a (b ++ d) ha)
      ∙ drop_exact 1 b d hb in
    rw
      (long, take_exact 8 a (b ++ d) ha, data_part, drop_exact 8 a (b ++ d) ha, take_exact 1 b d hb)
      refl
parse_fields-parts false rtr k a b d ha hb =
    let long : ltb (length (k ∷ (a ++ (b ++ d)))) 5 ≡ false =
      ground (arith, length-append a (b ++ d), length-append b d) in
    let data_part : drop 4 (a ++ (b ++ d)) ≡ d =
      sym (drop-drop 1 3 (a ++ (b ++ d)))
      ∙ ap (drop 1) (drop_exact 3 a (b ++ d) ha)
      ∙ drop_exact 1 b d hb in
    rw
      (long, take_exact 3 a (b ++ d) ha, data_part, drop_exact 3 a (b ++ d) ha, take_exact 1 b d hb)
      refl

-- The kind of frame that the first character says.
pub parse_line-kind :
    (extended rtr : Bool) (text : List ℕ)
    → parse_line (command_type extended rtr ∷ text)
      ≡ parse_fields extended rtr (command_type extended rtr ∷ text)
unfolding parse_line
parse_line-kind true true text = refl
parse_line-kind true false text = refl
parse_line-kind false true text = refl
parse_line-kind false false text = refl

-- What the receiver makes of a message: the payload past its length, and all of a remote frame's,
-- is zero.
abbrev pub payload_sent : Bool → MotorPackMsg → List ℕ
payload_sent rtr msg =
    if rtr then no_payload else take msg.len msg.payload ++ drop msg.len no_payload

pub parse_data-texts :
    (extended rtr : Bool) (msg : MotorPackMsg)
    → msg.len ≤ 8
    → msg.len ≤ length msg.payload
    → All (λ b. b < 256) msg.payload
    → parse_data extended rtr
        (if rtr then [] else byte_texts msg.len msg.payload)
        (some msg.id)
        (some msg.len)
      ≡ some (record {
        bus_idx = 0;
        pack = record {
          id = msg.id;
          frame_flags =
              sanitize (bit_or (if extended then flag_eff else 0) (if rtr then flag_rtr else 0));
          len = msg.len;
          payload = payload_sent rtr msg;
        };
      })
unfolding parse_data read_bytes
parse_data-texts extended true msg h p a =
    let small : ltb 8 msg.len ≡ false = ground arith in rw (small, read_bytes) refl
parse_data-texts extended false msg h p a =
    let small : ltb 8 msg.len ≡ false = ground arith in
    let long : ltb (length (byte_texts msg.len msg.payload)) (msg.len * 2) ≡ false =
      ground (arith, length-byte_texts msg.len msg.payload) in
    let whole : length (take msg.len msg.payload) ≡ msg.len =
      omega (arith, length-take msg.len msg.payload) in
    rw (small, long, read_bytes-byte_texts msg.len msg.payload p a, whole) refl

-- Flags with neither CAN FD bit keep what the two characters say.
pub flags_kept :
    (flags : ℕ)
    → flags < 16
    → have_valid_fd_bits flags ≡ true
    → use_canfd flags ≡ false
    → sanitize (
        bit_or
          (if use_extended_id flags then flag_eff else 0)
          (if use_rtr flags then flag_rtr else 0))
      ≡ flags
unfolding sanitize have_valid_fd_bits use_canfd use_extended_id use_rtr
flags_kept zero h v c = refl
flags_kept (suc zero) h v c = refl
flags_kept (suc (suc zero)) h v c = cc
flags_kept (suc (suc (suc zero))) h v c = cc
flags_kept (suc (suc (suc (suc zero)))) h v c = cc
flags_kept (suc (suc (suc (suc (suc zero))))) h v c = cc
flags_kept (suc (suc (suc (suc (suc (suc zero)))))) h v c = cc
flags_kept (suc (suc (suc (suc (suc (suc (suc zero))))))) h v c = cc
flags_kept (suc (suc (suc (suc (suc (suc (suc (suc zero)))))))) h v c = refl
flags_kept (suc (suc (suc (suc (suc (suc (suc (suc (suc zero))))))))) h v c = refl
flags_kept (suc (suc (suc (suc (suc (suc (suc (suc (suc (suc zero)))))))))) h v c = cc
flags_kept (suc (suc (suc (suc (suc (suc (suc (suc (suc (suc (suc zero))))))))))) h v c = cc
flags_kept (suc (suc (suc (suc (suc (suc (suc (suc (suc (suc (suc (suc zero)))))))))))) h v c = cc
flags_kept (suc (suc (suc (suc (suc (suc (suc (suc (suc (suc (suc (suc (suc zero))))))))))))) h v
      c =
    cc
flags_kept (suc (suc (suc (suc (suc (suc (suc (suc (suc (suc (suc (suc (suc (suc zero))))))))))))))
      h v c =
    cc
flags_kept
      (suc (suc (suc (suc (suc (suc (suc (suc (suc (suc (suc (suc (suc (suc (suc zero)))))))))))))))
      h v c =
    cc
flags_kept
      (suc
        (suc (suc (suc (suc (suc (suc (suc (suc (suc (suc (suc (suc (suc (suc (suc s))))))))))))))))
      h v c =
    absurd (omega arith)
