-- ===== src/Relay/QueueWire.antt =====
-- The queue of plugins/adapter/relayWs/relay_bounded_queue.h as the receiver of its frames reads it.
use encos_driver.Prelude.{
  ℕ, zero, suc, ◌≤◌, ◌≡◌, refl, ap, sym, subst, ◌∙◌, some, List, [], ◌∷◌, ◌++◌, length, All, arith,
  length-append,
}
use encos_driver.Frame.{MotorMessage}
use encos_driver.Relay.{
  RelayFrameType, RelayFrame, encode_relay_frames, decode_loop, decode_relay_frames,
}
use encos_driver.Relay.RoundTrip.{
  IsRecord, frame_bytes, decode_loop-frame, encode_relay_frames-frame, encode_relay_frames-length,
}
use encos_driver.Relay.Queue.{RelayQueuedMessage, encode_queued_relay_frames}
use encos_driver.Relay.QueueBatch.{
  messages_of, messages_of-append, IsGroup, flat, frames_bytes, length-messages_of,
}
use encos_driver.Relay.QueueOrder.{encode_queued_relay_frames-groups}

abbrev pub frames_of : RelayFrameType → List (List RelayQueuedMessage) → List RelayFrame
frames_of kind [] = []
frames_of kind (g ∷ gs) = record { kind = kind; records = messages_of g } ∷ frames_of kind gs

All-split :
    (xs ys : List MotorMessage) → All IsRecord (xs ++ ys) → All IsRecord xs × All IsRecord ys
All-split [] ys h = (tt, h)
All-split (x ∷ xs) ys (h, hs) = let (l, r) = All-split xs ys hs in ((h, l), r)

abbrev AreRecords : List (List RelayQueuedMessage) → Type 0
AreRecords = All (λ g. All IsRecord (messages_of g))

flat-AreRecords :
    (gs : List (List RelayQueuedMessage)) → All IsRecord (messages_of (flat gs)) → AreRecords gs
flat-AreRecords [] h = tt
flat-AreRecords (g ∷ gs) h =
    let (l, r) =
      All-split (messages_of g) (messages_of (flat gs))
        (subst (All IsRecord) (messages_of-append g (flat gs)) h) in
    (l, flat-AreRecords gs r)

module _ (kind : RelayFrameType) where
  group-frame :
      (g : List RelayQueuedMessage)
      → IsGroup g
      → encode_relay_frames kind (messages_of g) ≡ frame_bytes kind (messages_of g)
  group-frame [] v = absurd (omega (arith, v.filled))
  group-frame (x ∷ g) v =
      encode_relay_frames-frame kind x.message (messages_of g)
        (omega (arith, v.fits, length-messages_of g))

  frames_bytes-long :
      (gs : List (List RelayQueuedMessage))
      → All IsGroup gs
      → AreRecords gs
      → length gs ≤ length (frames_bytes kind gs)
  frames_bytes-long [] v r = omega arith
  frames_bytes-long (g ∷ gs) (v, vs) (r, rs) = omega (
    arith,
    frames_bytes-long gs vs rs,
    encode_relay_frames-length kind (messages_of g) r (omega (arith, v.fits, length-messages_of g)),
    length-append (encode_relay_frames kind (messages_of g)) (frames_bytes kind gs),
  )

  decode_loop-groups :
      (fuel : ℕ) (gs : List (List RelayQueuedMessage))
      → All IsGroup gs
      → AreRecords gs
      → length gs ≤ fuel
      → decode_loop fuel (frames_bytes kind gs) ≡ some (frames_of kind gs)
  unfolding decode_loop
  decode_loop-groups zero [] v r h = refl
  decode_loop-groups (suc fuel) [] v r h = refl
  decode_loop-groups zero (g ∷ gs) v r h = absurd (omega arith)
  decode_loop-groups (suc fuel) (g ∷ gs) (v, vs) (r, rs) h =
      ap (λ t. decode_loop (suc fuel) (t ++ frames_bytes kind gs)) (group-frame g v)
      ∙ decode_loop-frame fuel kind (messages_of g) (frames_bytes kind gs) (frames_of kind gs)
          (omega (arith, v.fits, length-messages_of g)) r
          (decode_loop-groups fuel gs vs rs (omega arith))

-- The frames of a non-empty queue, whose messages each fit in a record, are decoded as consecutive
-- groups of at most 255 messages that together are the queue in its order, one frame for each group,
-- and within a frame all messages of one bus have one generation.
pub decode_relay_frames-queued :
    (kind : RelayFrameType) (queued : RelayQueuedMessage) (messages : List RelayQueuedMessage)
    → All IsRecord (messages_of (queued ∷ messages))
    → (groups : List (List RelayQueuedMessage)) × (flat groups ≡ queued ∷ messages)
      × All IsGroup groups
      × (decode_relay_frames (encode_queued_relay_frames kind (queued ∷ messages))
          ≡ some (frames_of kind groups))
unfolding decode_relay_frames
decode_relay_frames-queued kind queued messages h =
    let (groups, all, good, bytes) = encode_queued_relay_frames-groups kind queued messages in
    let records = flat-AreRecords groups (subst (λ t. All IsRecord (messages_of t)) (sym all) h) in
    (
      groups,
      all,
      good,
      ap (λ t. decode_loop (length t) t) bytes
          ∙ decode_loop-groups kind (length (frames_bytes kind groups)) groups good records
              (frames_bytes-long kind groups good records),
    )
