-- ===== src/Port/Race/Safety.antt =====
-- The hazard protocol of one slot of `Port` (include/utils/port.h): what the producer writes is
-- never what the consumer reads, in any interleaving.
use encos_driver.Prelude.{
  ℕ, ◌^◌, ◌<◌, ◌≡◌, refl, sym, ap, ◌∙◌, subst, bit_or, shl, shr, u32, Bool, false, ◌==◌, Option,
  none, some, arith,
}
use native.Mathlib.Decide.{ℕ_discrete}
use encos_driver.Port.Cells.{halves_join}
use encos_driver.Port.Publication.{update, next_cell}
use encos_driver.Port.{new_port, Slot, Target, got, missed, unconstructed}
use encos_driver.Port.Race.{
  Producer, idle, chosen, constructed, odd, lowed, highed, celled, even, stored, Consumer, finished,
  loaded, hazarded, validated, got_version, got_low, got_high, got_cell, accepted, copied, State,
  Step, load_hazard, construct, store_odd, store_low, store_high, store_cell, store_even, publish,
  settle, load_active, store_hazard, revalidate, give_up, load_version, load_low, load_high,
  load_cell, reject_snapshot, reject_sequence, accept, copy, release, Reach, here, next,
}

module _ {ℓ} {Message : Type ℓ} where
  -- The producer may store into this cell before it publishes.
  abbrev pub writes : Producer Message → ℕ → Bool
  writes idle c = false
  writes (chosen q d m) c = c == d
  writes (constructed q d m) c = c == d
  writes (odd q d m) c = c == d
  writes (lowed q d m) c = c == d
  writes (highed q d m) c = c == d
  writes (celled q d m) c = c == d
  writes (even q d m) c = c == d
  writes (stored d) c = false

  -- Holds of the cell that the consumer has validated, until it clears its hazard.
  abbrev pub OfProtected {κ} : (ℕ → Type κ) → Consumer Message → Type κ
  OfProtected P (finished r) = Unit
  OfProtected P (loaded a) = Unit
  OfProtected P (hazarded a) = Unit
  OfProtected P (validated a) = P a
  OfProtected P (got_version a v) = P a
  OfProtected P (got_low a v l) = P a
  OfProtected P (got_high a v l h) = P a
  OfProtected P (got_cell a v l h c) = P a
  OfProtected P (accepted a) = P a
  OfProtected P (copied a p) = P a

  -- The producer's copy of the active index, and what it has stored so far.
  abbrev Stored : (ℕ → Option Message) → Producer Message → Slot Message → Type ℓ
  Stored message_of idle s = Path ℕ s.producer_active s.published_active × Unit {ℓ}
  Stored message_of (stored c) s = Path ℕ s.published_active c × Unit {ℓ}
  Stored message_of (chosen q c m) s =
      (s.producer_active ≡ s.published_active) × (q < 2 ^ 64) × (c < 3) × (message_of q ≡ some m)
  Stored message_of (constructed q c m) s =
      (s.producer_active ≡ s.published_active)
      × (q < 2 ^ 64)
      × (c < 3)
      × (message_of q ≡ some m)
      × (s.payloads c ≡ some m)
  Stored message_of (odd q c m) s =
      (s.producer_active ≡ s.published_active)
      × (q < 2 ^ 64)
      × (c < 3)
      × (message_of q ≡ some m)
      × (s.payloads c ≡ some m)
  Stored message_of (lowed q c m) s =
      (s.producer_active ≡ s.published_active)
      × (q < 2 ^ 64)
      × (c < 3)
      × (message_of q ≡ some m)
      × (s.payloads c ≡ some m)
      × ((s.metadata c).sequence_low ≡ u32 q)
  Stored message_of (highed q c m) s =
      (s.producer_active ≡ s.published_active)
      × (q < 2 ^ 64)
      × (c < 3)
      × (message_of q ≡ some m)
      × (s.payloads c ≡ some m)
      × ((s.metadata c).sequence_low ≡ u32 q)
      × ((s.metadata c).sequence_high ≡ u32 (shr q 32))
  Stored message_of (celled q c m) s =
      (s.producer_active ≡ s.published_active)
      × (q < 2 ^ 64)
      × (c < 3)
      × (message_of q ≡ some m)
      × (s.payloads c ≡ some m)
      × ((s.metadata c).sequence_low ≡ u32 q)
      × ((s.metadata c).sequence_high ≡ u32 (shr q 32))
  Stored message_of (even q c m) s =
      (s.producer_active ≡ s.published_active)
      × (q < 2 ^ 64)
      × (c < 3)
      × (message_of q ≡ some m)
      × (s.payloads c ≡ some m)
      × ((s.metadata c).sequence_low ≡ u32 q)
      × ((s.metadata c).sequence_high ≡ u32 (shr q 32))

  abbrev HazardSet : Consumer Message → Slot Message → Type 0
  HazardSet (hazarded a) s = s.reader_hazard ≡ a
  HazardSet k s = OfProtected (λ a. s.reader_hazard ≡ a) k

  abbrev sequence_in : Slot Message → ℕ → ℕ
  sequence_in s c = bit_or (s.metadata c).sequence_low (shl (s.metadata c).sequence_high 32)

  -- A message is the one that was pushed; only a sequence never pushed has no message to copy.
  abbrev pub Answers : Option Message → Target Message → Type ℓ
  Answers pushed (got m) = pushed ≡ some m
  Answers pushed unconstructed = pushed ≡ none
  Answers pushed (missed r q) = Unit

  -- What the consumer has loaded is what memory still holds, and what it returned is right.
  abbrev Loaded : (ℕ → Option Message) → ℕ → Consumer Message → Slot Message → Type ℓ
  Loaded message_of target (finished r) s = Answers (message_of target) r
  Loaded message_of target (loaded a) s = Unit
  Loaded message_of target (hazarded a) s = Unit
  Loaded message_of target (validated a) s = Unit
  Loaded message_of target (got_version a v) s = Path ℕ v (s.metadata a).version × Unit {ℓ}
  Loaded message_of target (got_low a v l) s =
      Path ℕ v (s.metadata a).version × Path ℕ l (s.metadata a).sequence_low × Unit {ℓ}
  Loaded message_of target (got_high a v l h) s =
      Path ℕ v (s.metadata a).version
      × Path ℕ l (s.metadata a).sequence_low
      × Path ℕ h (s.metadata a).sequence_high
      × Unit {ℓ}
  Loaded message_of target (got_cell a v l h c) s =
      Path ℕ v (s.metadata a).version
      × Path ℕ l (s.metadata a).sequence_low
      × Path ℕ h (s.metadata a).sequence_high
      × Unit {ℓ}
  Loaded message_of target (accepted a) s = Path ℕ (sequence_in s a) target × Unit {ℓ}
  Loaded message_of target (copied a p) s =
      Path ℕ (sequence_in s a) target × (p ≡ s.payloads a) × (message_of target ≡ p)

  pub record Inv (message_of : ℕ → Option Message) (t : State Message) : Type ℓ where
    pub range : t.slot.published_active < 3
    pub stores : Stored message_of t.producer t.slot
    pub apart : writes t.producer t.slot.published_active ≡ false
    pub hazard : HazardSet t.consumer t.slot
    pub guarded : OfProtected (λ a. writes t.producer a ≡ false) t.consumer
    pub loads : Loaded message_of t.target t.consumer t.slot
    pub sound :
        (c : ℕ)
        → writes t.producer c ≡ false
        → message_of (sequence_in t.slot c) ≡ t.slot.payloads c

  OfProtected-map {κ μ} :
      {P : ℕ → Type κ} {Q : ℕ → Type μ} (k : Consumer Message)
      → ((a : ℕ) → P a → Q a)
      → OfProtected P k
      → OfProtected Q k
  OfProtected-map (finished r) f h = tt
  OfProtected-map (loaded a) f h = tt
  OfProtected-map (hazarded a) f h = tt
  OfProtected-map (validated a) f h = f a h
  OfProtected-map (got_version a v) f h = f a h
  OfProtected-map (got_low a v l) f h = f a h
  OfProtected-map (got_high a v l g) f h = f a h
  OfProtected-map (got_cell a v l g c) f h = f a h
  OfProtected-map (accepted a) f h = f a h
  OfProtected-map (copied a p) f h = f a h

  HazardSet-same :
      (k : Consumer Message) (s s' : Slot Message)
      → s'.reader_hazard ≡ s.reader_hazard
      → HazardSet k s
      → HazardSet k s'
  HazardSet-same (hazarded a) s s' e h = e ∙ h
  HazardSet-same (finished r) s s' e h = tt
  HazardSet-same (loaded a) s s' e h = tt
  HazardSet-same (validated a) s s' e h = e ∙ h
  HazardSet-same (got_version a v) s s' e h = e ∙ h
  HazardSet-same (got_low a v l) s s' e h = e ∙ h
  HazardSet-same (got_high a v l g) s s' e h = e ∙ h
  HazardSet-same (got_cell a v l g c) s s' e h = e ∙ h
  HazardSet-same (accepted a) s s' e h = e ∙ h
  HazardSet-same (copied a p) s s' e h = e ∙ h

  -- Two slots agree on a cell.
  abbrev SameCell : Slot Message → Slot Message → ℕ → Type ℓ
  SameCell s s' a = (s'.metadata a ≡ s.metadata a) × (s'.payloads a ≡ s.payloads a)

  Loaded-same :
      (message_of : ℕ → Option Message) (q : ℕ) (k : Consumer Message) (s s' : Slot Message)
      → OfProtected (SameCell s s') k
      → Loaded message_of q k s
      → Loaded message_of q k s'
  Loaded-same message_of q (finished r) s s' e h = h
  Loaded-same message_of q (loaded a) s s' e h = tt
  Loaded-same message_of q (hazarded a) s s' e h = tt
  Loaded-same message_of q (validated a) s s' e h = tt
  Loaded-same message_of q (got_version a v) s s' e h = ground arith
  Loaded-same message_of q (got_low a v l) s s' e h = ground arith
  Loaded-same message_of q (got_high a v l g) s s' e h = ground arith
  Loaded-same message_of q (got_cell a v l g c) s s' e h = ground arith
  Loaded-same message_of q (accepted a) s s' e h = ground arith
  Loaded-same message_of q (copied a p) s s' e h = ground arith

  -- A store of the producer into the cell that it writes.
  store_keeps :
      (message_of : ℕ → Option Message) (t : State Message) (c : ℕ) (s' : Slot Message)
      (p' : Producer Message)
      → Inv message_of t
      → ((a : ℕ) → writes t.producer a ≡ (a == c))
      → ((a : ℕ) → writes p' a ≡ (a == c))
      → s'.reader_hazard ≡ t.slot.reader_hazard
      → s'.published_active ≡ t.slot.published_active
      → ((a : ℕ) → (a == c) ≡ false → SameCell t.slot s' a)
      → Stored message_of p' s'
      → Inv message_of (record t { slot = s'; producer = p' })
  store_keeps message_of t c s' p' v was is hazard published same stores = record {
    range = rw published v.range;
    stores = stores;
    apart =
        rw (published, is t.slot.published_active) (sym (was t.slot.published_active) ∙ v.apart);
    hazard = HazardSet-same t.consumer t.slot s' hazard v.hazard;
    guarded = OfProtected-map t.consumer (λ a h. is a ∙ sym (was a) ∙ h) v.guarded;
    loads =
        Loaded-same message_of t.target t.consumer t.slot s'
          (OfProtected-map t.consumer (λ a h. same a (sym (was a) ∙ h)) v.guarded) v.loads;
    sound = λ a h.
        let other = sym (is a) ∙ h in ground (arith, same a other, v.sound a (was a ∙ other));
  }

  HazardSet-protected :
      (k : Consumer Message) (s : Slot Message)
      → HazardSet k s
      → OfProtected (λ a. s.reader_hazard ≡ a) k
  HazardSet-protected (hazarded a) s h = tt
  HazardSet-protected (finished r) s h = tt
  HazardSet-protected (loaded a) s h = tt
  HazardSet-protected (validated a) s h = h
  HazardSet-protected (got_version a v) s h = h
  HazardSet-protected (got_low a v l) s h = h
  HazardSet-protected (got_high a v l g) s h = h
  HazardSet-protected (got_cell a v l g c) s h = h
  HazardSet-protected (accepted a) s h = h
  HazardSet-protected (copied a p) s h = h

  Stored-hazard :
      (message_of : ℕ → Option Message) (p : Producer Message) (s : Slot Message) (h : ℕ)
      → Stored message_of p s
      → Stored message_of p (record s { reader_hazard = h })
  Stored-hazard message_of idle s h k = k
  Stored-hazard message_of (chosen q c m) s h k = k
  Stored-hazard message_of (constructed q c m) s h k = k
  Stored-hazard message_of (odd q c m) s h k = k
  Stored-hazard message_of (lowed q c m) s h k = k
  Stored-hazard message_of (highed q c m) s h k = k
  Stored-hazard message_of (celled q c m) s h k = k
  Stored-hazard message_of (even q c m) s h k = k
  Stored-hazard message_of (stored c) s h k = k

  -- A step of the consumer changes no more of the slot than the hazard.
  load_keeps :
      (message_of : ℕ → Option Message) (t : State Message) (k : Consumer Message) (h q : ℕ)
      → Inv message_of t
      → let s = record (t.slot) { reader_hazard = h } in
        HazardSet k s
        → OfProtected (λ a. writes t.producer a ≡ false) k
        → Loaded message_of q k s
        → Inv message_of (record t { consumer = k; slot = s; target = q })
  load_keeps message_of t k h q v hazard guarded loads = record {
    range = v.range;
    stores = Stored-hazard message_of t.producer t.slot h v.stores;
    apart = v.apart;
    hazard = hazard;
    guarded = guarded;
    loads = loads;
    sound = v.sound;
  }

  unchanged : (s : Slot Message) (k : Consumer Message) → OfProtected (SameCell s s) k
  unchanged s (finished r) = tt
  unchanged s (loaded a) = tt
  unchanged s (hazarded a) = tt
  unchanged s (validated a) = (refl, refl)
  unchanged s (got_version a v) = (refl, refl)
  unchanged s (got_low a v l) = (refl, refl)
  unchanged s (got_high a v l h) = (refl, refl)
  unchanged s (got_cell a v l h c) = (refl, refl)
  unchanged s (accepted a) = (refl, refl)
  unchanged s (copied a p) = (refl, refl)

  -- The store that publishes a cell: from then on the cell holds its message.
  publish_keeps :
      (message_of : ℕ → Option Message) (t : State Message) (q c : ℕ) (m : Message)
      → Inv message_of t
      → t.producer ≡ even q c m
      → Inv message_of
          (record t { producer = stored c; slot = record (t.slot) { published_active = c } })
  publish_keeps message_of t q c m v e =
      let full = subst (λ p. Stored message_of p t.slot) e v.stores in
      let filled : message_of (sequence_in t.slot c) ≡ t.slot.payloads c =
        ground (arith, full, halves_join q full.1, ap message_of (halves_join q full.1)) in
      record {
        range = full.2;
        stores = (refl, tt);
        apart = refl;
        hazard = HazardSet-same t.consumer t.slot _ refl v.hazard;
        guarded = OfProtected-map t.consumer (λ a h. refl) v.guarded;
        loads =
            Loaded-same message_of t.target t.consumer t.slot _ (unchanged t.slot t.consumer)
              v.loads;
        sound = λ d n. elim (ℕ_discrete d c) [
          | yes same ↦ rw same filled
          | no other ↦ v.sound d (rw e (ground arith))
        ];
      }

  Step-Inv :
      (message_of : ℕ → Option Message) {t u : State Message}
      → Step message_of t u
      → Inv message_of t
      → Inv message_of u
  unfolding update next_cell
  Step-Inv message_of (load_hazard t q m e b f) v =
      let n = next_cell t.slot.producer_active t.slot.reader_hazard in
      record {
        range = v.range;
        stores = ground arith;
        apart = ground arith;
        hazard = v.hazard;
        guarded =
            OfProtected-map t.consumer (λ a h. ground arith)
              (HazardSet-protected t.consumer t.slot v.hazard);
        loads = v.loads;
        sound = λ d n. v.sound d (rw e refl);
      }
  Step-Inv message_of (construct t q c m e) v =
      store_keeps message_of t c _ _ v (λ a. rw e refl) (λ a. refl) refl refl (λ a n. ground arith)
        (ground arith)
  Step-Inv message_of (store_odd t q c m e) v =
      store_keeps message_of t c _ _ v (λ a. rw e refl) (λ a. refl) refl refl (λ a n. ground arith)
        (ground arith)
  Step-Inv message_of (store_low t q c m e) v =
      store_keeps message_of t c _ _ v (λ a. rw e refl) (λ a. refl) refl refl (λ a n. ground arith)
        (ground arith)
  Step-Inv message_of (store_high t q c m e) v =
      store_keeps message_of t c _ _ v (λ a. rw e refl) (λ a. refl) refl refl (λ a n. ground arith)
        (ground arith)
  Step-Inv message_of (store_cell t q c m e) v =
      store_keeps message_of t c _ _ v (λ a. rw e refl) (λ a. refl) refl refl (λ a n. ground arith)
        (ground arith)
  Step-Inv message_of (store_even t q c m e) v =
      store_keeps message_of t c _ _ v (λ a. rw e refl) (λ a. refl) refl refl (λ a n. ground arith)
        (ground arith)
  Step-Inv message_of (publish t q c m e) v = publish_keeps message_of t q c m v e
  Step-Inv message_of (settle t c e) v = record {
    range = v.range;
    stores = ground arith;
    apart = refl;
    hazard = HazardSet-same t.consumer t.slot _ refl v.hazard;
    guarded = OfProtected-map t.consumer (λ a h. refl) v.guarded;
    loads =
        Loaded-same message_of t.target t.consumer t.slot _ (unchanged t.slot t.consumer) v.loads;
    sound = λ d n. v.sound d (rw e refl);
  }
  Step-Inv message_of (load_active t r q e) v =
      load_keeps message_of t _ _ q v (ground arith) (ground arith) (ground arith)
  Step-Inv message_of (store_hazard t a e) v =
      load_keeps message_of t _ _ t.target v (ground arith) (ground arith)
        (ground (arith, v.sound a))
  Step-Inv message_of (revalidate t a e f) v =
      load_keeps message_of t _ _ t.target v (ground arith) (ground arith)
        (ground (arith, v.sound a))
  Step-Inv message_of (give_up t a e f) v =
      load_keeps message_of t _ _ t.target v (ground arith) (ground arith)
        (ground (arith, v.sound a))
  Step-Inv message_of (load_version t a e) v =
      load_keeps message_of t _ _ t.target v (ground arith) (ground arith)
        (ground (arith, v.sound a))
  Step-Inv message_of (load_low t a w e) v =
      load_keeps message_of t _ _ t.target v (ground arith) (ground arith)
        (ground (arith, v.sound a))
  Step-Inv message_of (load_high t a w l e) v =
      load_keeps message_of t _ _ t.target v (ground arith) (ground arith)
        (ground (arith, v.sound a))
  Step-Inv message_of (load_cell t a w l h e) v =
      load_keeps message_of t _ _ t.target v (ground arith) (ground arith)
        (ground (arith, v.sound a))
  Step-Inv message_of (reject_snapshot t a w l h c e f) v =
      load_keeps message_of t _ _ t.target v (ground arith) (ground arith)
        (ground (arith, v.sound a))
  Step-Inv message_of (reject_sequence t a w l h c e f g n) v =
      load_keeps message_of t _ _ t.target v (ground arith) (ground arith)
        (ground (arith, v.sound a))
  Step-Inv message_of (accept t a w l h c e f g n) v =
      load_keeps message_of t _ _ t.target v (ground arith) (ground arith)
        (ground (arith, v.sound a))
  Step-Inv message_of (copy t a e) v =
      load_keeps message_of t _ _ t.target v (ground arith) (ground arith)
        (ground (arith, v.sound a))
  Step-Inv message_of (release t a p e) v =
      load_keeps message_of t _ _ t.target v (ground arith) (ground arith)
        (ground (arith, v.sound a))

  Reach-Inv :
      (message_of : ℕ → Option Message) {s t : State Message}
      → Inv message_of s
      → Reach message_of s t
      → Inv message_of t
  Reach-Inv message_of v here = v
  Reach-Inv message_of v (next r s) = Step-Inv message_of s (Reach-Inv message_of v r)

  -- A slot of a new port, with no message of sequence 0.
  unfoldable pub start : State Message
  start = record {
    slot = (new_port {Message = Message} false).slots 0;
    producer = idle;
    consumer = finished (missed false 0);
    target = 0;
  }

  start-Inv : (message_of : ℕ → Option Message) → message_of 0 ≡ none → Inv message_of start
  unfolding start new_port
  start-Inv message_of e = record {
    range = omega arith;
    stores = (refl, tt);
    apart = refl;
    hazard = tt;
    guarded = tt;
    loads = tt;
    sound = λ c n. e;
  }

  -- In every interleaving of the producer's and the consumer's atomic steps on a new slot, the cell
  -- that the consumer has validated is not the cell that the producer stores into.
  pub writer-reader_apart :
      (message_of : ℕ → Option Message) {t : State Message}
      → message_of 0 ≡ none
      → Reach message_of start t
      → OfProtected (λ a. writes t.producer a ≡ false) t.consumer
  writer-reader_apart message_of e r = (Reach-Inv message_of (start-Inv message_of e) r).guarded

  -- In every interleaving of the producer's and the consumer's atomic steps on a new slot, a message
  -- that `ReadTarget` returns is the one that was pushed with the wanted sequence; and it reads a
  -- payload that was never constructed only if no message was pushed with that sequence.
  pub read_target-exact :
      (message_of : ℕ → Option Message) {t : State Message} (r : Target Message)
      → message_of 0 ≡ none
      → Reach message_of start t
      → t.consumer ≡ finished r
      → Answers (message_of t.target) r
  read_target-exact message_of {t} r e reached done =
      subst (λ k. Loaded message_of t.target k t.slot) done
        (Reach-Inv message_of (start-Inv message_of e) reached).loads
