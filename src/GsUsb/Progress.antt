-- ===== src/GsUsb/Progress.antt =====
-- The loop over a received buffer ends: plugins/adapter/gsUsb/gs_usb_adapter.cc.
use encos_driver.Prelude.{
  ℕ, zero, suc, ◌≤◌, ◌*◌, ◌≡◌, refl, ap, sym, subst, ◌∙◌, none, some, List, [], ◌∷◌, ◌++◌, length,
  get_or, drop, arith, length-drop, Option-cases, inl, inr,
}
use encos_driver.Frame.{MotorMessage}
use encos_driver.GsUsb.{Frame, decode_frame}
use encos_driver.GsUsb.RoundTrip.{frame_size-le}
use encos_driver.GsUsb.Adapter.{deliver, receive, receive_buffer}

-- `DecodeFrame` consumes at least a classic frame, and no more than there is.
decode_frame-consumed :
    (bytes : List ℕ) (consumed : ℕ) (frame : Frame)
    → decode_frame bytes ≡ some (consumed, frame)
    → (20 ≤ consumed) × (consumed ≤ length bytes)
unfolding decode_frame
decode_frame-consumed bytes consumed frame h = ground (arith, frame_size-le (get_or bytes 10 0))

decode_frame-nil : decode_frame [] ≡ none
unfolding decode_frame
decode_frame-nil = refl

receive-some :
    (channels fuel consumed : ℕ) (bytes : List ℕ) (frame : Frame)
    → decode_frame bytes ≡ some (consumed, frame)
    → receive channels (suc fuel) bytes
      ≡ deliver channels frame ++ receive channels fuel (drop consumed bytes)
unfolding receive
receive-some channels fuel consumed bytes frame h = rw (receive, h) refl

receive-none :
    (channels fuel : ℕ) (bytes : List ℕ)
    → decode_frame bytes ≡ none
    → receive channels fuel bytes ≡ []
unfolding receive
receive-none channels zero bytes h = refl
receive-none channels (suc fuel) bytes h = rw (receive, h) refl

-- The loop on its own, without fuel: `Rounds channels bytes n ms` says that on `bytes` it breaks
-- after `n` rounds that consumed a frame, and has passed on `ms`.
pub data Rounds (channels : ℕ) : List ℕ → ℕ → List MotorMessage → Type 0 where
  breaks : (bytes : List ℕ) → decode_frame bytes ≡ none → Rounds channels bytes 0 []
  consumes :
      (bytes : List ℕ) (consumed : ℕ) (frame : Frame) (n : ℕ) (ms : List MotorMessage)
      → decode_frame bytes ≡ some (consumed, frame)
      → Rounds channels (drop consumed bytes) n ms
      → Rounds channels bytes (suc n) (deliver channels frame ++ ms)

-- It ends with these messages, after at most a round for each 20 bytes.
pub record Ended (channels : ℕ) (bytes : List ℕ) (ms : List MotorMessage) : Type 0 where
  pub rounds : ℕ
  pub few : 20 * rounds ≤ length bytes
  pub run : Rounds channels bytes rounds ms

receive-Ended :
    (channels fuel : ℕ) (bytes : List ℕ)
    → length bytes ≤ fuel
    → Ended channels bytes (receive channels fuel bytes)
receive-Ended channels zero [] h =
    subst (Ended channels []) (sym (receive-none channels zero [] decode_frame-nil))
      (record { rounds = 0; few = omega arith; run = breaks [] decode_frame-nil })
receive-Ended channels zero (b ∷ bytes) h = absurd (omega arith)
receive-Ended channels (suc fuel) bytes h = elim (Option-cases (decode_frame bytes)) [
  | inl failed ↦
      subst (Ended channels bytes) (sym (receive-none channels (suc fuel) bytes failed))
        (record { rounds = 0; few = omega arith; run = breaks bytes failed })
  | inr ((consumed, frame), decoded) ↦
      let (least, most) = decode_frame-consumed bytes consumed frame decoded in
      let shorter = length-drop consumed bytes in
      let rest = receive-Ended channels fuel (drop consumed bytes) (omega arith) in
      subst (Ended channels bytes) (sym (receive-some channels fuel consumed bytes frame decoded))
        (record {
          rounds = suc rest.rounds;
          few = omega (arith, rest.few);
          run =
              consumes bytes consumed frame rest.rounds
                (receive channels fuel (drop consumed bytes)) decoded rest.run;
        })
]

receive-fuel :
    (channels f g : ℕ) (bytes : List ℕ)
    → length bytes ≤ f
    → length bytes ≤ g
    → receive channels f bytes ≡ receive channels g bytes
receive-fuel channels zero zero bytes p q = refl
receive-fuel channels zero (suc g) [] p q =
    receive-none channels zero [] decode_frame-nil
    ∙ sym (receive-none channels (suc g) [] decode_frame-nil)
receive-fuel channels zero (suc g) (b ∷ bytes) p q = absurd (omega arith)
receive-fuel channels (suc f) zero [] p q =
    receive-none channels (suc f) [] decode_frame-nil
    ∙ sym (receive-none channels zero [] decode_frame-nil)
receive-fuel channels (suc f) zero (b ∷ bytes) p q = absurd (omega arith)
receive-fuel channels (suc f) (suc g) bytes p q = elim (Option-cases (decode_frame bytes)) [
  | inl failed ↦
      receive-none channels (suc f) bytes failed ∙ sym (receive-none channels (suc g) bytes failed)
  | inr ((consumed, frame), decoded) ↦
      let (least, most) = decode_frame-consumed bytes consumed frame decoded in
      let shorter = length-drop consumed bytes in
      let rest = receive-fuel channels f g (drop consumed bytes) (omega arith) (omega arith) in
      receive-some channels f consumed bytes frame decoded
      ∙ ap (λ (r : List MotorMessage). deliver channels frame ++ r) rest
      ∙ sym (receive-some channels g consumed bytes frame decoded)
]

-- The loop ends by itself on every buffer, whatever its bytes are: it breaks after at most a round
-- for each 20 bytes, and has passed on the messages of `receive_buffer`. Any fuel of at least the
-- buffer's size gives the same messages.
pub receive-ends :
    (channels fuel : ℕ) (bytes : List ℕ)
    → length bytes ≤ fuel
    → Ended channels bytes (receive_buffer channels bytes)
      × (receive channels fuel bytes ≡ receive_buffer channels bytes)
unfolding receive_buffer
receive-ends channels fuel bytes h = (
  receive-Ended channels (length bytes) bytes (omega arith),
  receive-fuel channels fuel (length bytes) bytes h (omega arith),
)
