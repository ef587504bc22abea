-- ===== src/Outgoing/Safety.antt =====
-- What the submission of src/adapter/base_adapter.cc promises: nothing waits in a bus that is not
-- synchronised, and a commit sends all that waits.
use encos_driver.Prelude.{
  ℕ, zero, suc, ◌-◌, ◌≤◌, ◌≡◌, refl, ap, ap₂, sym, ◌∙◌, Bool, true, false, not, ◌&&◌, if◌then◌else◌,
  List, [], ◌∷◌, ◌++◌, set, get_or, length, length-drop, All, arith, Bool-cases, inl, inr,
}
use encos_driver.Frame.{MotorPackMsg, MotorMessage}
use encos_driver.Port.Queue.{enqueue, keep_newest}
use encos_driver.Outgoing.{
  Bus, sends, sends_synchronized, unless_empty, drain_channel, drain_channels, drain, new_bus,
  make_device_writer, erase_at, unregister_send_channel, submit_device_message, submit_bus_messages,
  commit_bus, set_bus_sync_mode, commit_round, set_sync_round, each_bus, Adapter, commit,
  set_sync_mode,
}

abbrev pub flat : List (List MotorMessage) → List MotorMessage
flat [] = []
flat (c ∷ cs) = c ++ flat cs

abbrev pub emptied : List (List MotorMessage) → List (List MotorMessage)
emptied [] = []
emptied (c ∷ cs) = [] ∷ emptied cs

-- What a bus has not sent yet, in the order of a commit.
abbrev pub waiting : Bus → List MotorMessage
waiting b = flat b.channels ++ b.bulk_queue

abbrev pub AreSmall : List (List MotorMessage) → Type 0
AreSmall = All (λ c. length c ≤ 10)

abbrev pub AreEmpty : List (List MotorMessage) → Type 0
AreEmpty = All (λ c. c ≡ [])

pub record Valid (b : Bus) : Type 0 where
  pub small : AreSmall b.channels
  pub direct : b.sync_mode ≡ false → AreEmpty b.channels × (b.bulk_queue ≡ [])

drain_channel-all : (n : ℕ) (c : List MotorMessage) → length c ≤ n → drain_channel n c ≡ ([], c)
unfolding drain_channel
drain_channel-all zero [] h = refl
drain_channel-all zero (m ∷ c) h = absurd (omega arith)
drain_channel-all (suc n) [] h = refl
drain_channel-all (suc n) (m ∷ c) h = rw (drain_channel-all n c (omega arith)) refl

drain_channels-all :
    (cs : List (List MotorMessage)) → AreSmall cs → drain_channels cs ≡ (emptied cs, flat cs)
unfolding drain_channels
drain_channels-all [] h = refl
drain_channels-all (c ∷ cs) (h, hs) = rw (drain_channel-all 10 c h, drain_channels-all cs hs) refl

abbrev pub drained : Bus → Bus
drained b = record b { channels = emptied b.channels; bulk_queue = [] }

drain-all : (b : Bus) → AreSmall b.channels → drain b ≡ (drained b, waiting b)
unfolding drain
drain-all b h = rw (drain_channels-all b.channels h) refl

emptied-AreEmpty : (cs : List (List MotorMessage)) → AreEmpty (emptied cs)
emptied-AreEmpty [] = tt
emptied-AreEmpty (c ∷ cs) = (refl, emptied-AreEmpty cs)

AreEmpty-small : (cs : List (List MotorMessage)) → AreEmpty cs → AreSmall cs
AreEmpty-small [] h = tt
AreEmpty-small (c ∷ cs) (h, hs) = (omega (arith, ap length h), AreEmpty-small cs hs)

AreEmpty-flat : (cs : List (List MotorMessage)) → AreEmpty cs → flat cs ≡ []
AreEmpty-flat [] h = refl
AreEmpty-flat (c ∷ cs) (h, hs) = rw (h, AreEmpty-flat cs hs) refl

drained-Valid : (b : Bus) → Valid (drained b)
drained-Valid b = record {
  small = AreEmpty-small (emptied b.channels) (emptied-AreEmpty b.channels);
  direct = λ h. (emptied-AreEmpty b.channels, refl);
}

drain-Valid : (b : Bus) → AreSmall b.channels → Valid (drain b).0
drain-Valid b h = rw (drain-all b h) (drained-Valid b)

length-enqueue : (c : List MotorMessage) (m : MotorMessage) → length (enqueue 10 c m) ≤ 10
unfolding enqueue keep_newest
length-enqueue c m = omega (arith, length-drop (length (c ++ m ∷ []) - 10) (c ++ m ∷ []))

AreSmall-set :
    (cs : List (List MotorMessage)) (i : ℕ) (c : List MotorMessage)
    → AreSmall cs
    → length c ≤ 10
    → AreSmall (set cs i c)
AreSmall-set [] i c h l = tt
AreSmall-set (x ∷ cs) zero c (h, hs) l = (l, hs)
AreSmall-set (x ∷ cs) (suc i) c (h, hs) l = (h, AreSmall-set cs i c hs l)

module _ (P : List MotorMessage → Type 0) where
  All-append_one : (cs : List (List MotorMessage)) → All P cs → P [] → All P (cs ++ [] ∷ [])
  All-append_one [] h e = (e, tt)
  All-append_one (c ∷ cs) (h, hs) e = (h, All-append_one cs hs e)

  All-erase_at : (i : ℕ) (cs : List (List MotorMessage)) → All P cs → All P (erase_at i cs)
  unfolding erase_at
  All-erase_at i [] h = tt
  All-erase_at zero (c ∷ cs) (h, hs) = hs
  All-erase_at (suc i) (c ∷ cs) (h, hs) = (h, All-erase_at i cs hs)

-- One call that concerns a bus.
pub data Step (b : Bus) : Bus → Type 0 where
  makes_writer : Step b (make_device_writer b)
  unregisters : (i : ℕ) → Step b (unregister_send_channel b i)
  submits_device : (i : ℕ) (pack : MotorPackMsg) → Step b (submit_device_message b i pack).0
  submits_bus :
      (messages : List MotorMessage) (immediate : Bool)
      → Step b (submit_bus_messages b messages immediate).0
  commits_bus : Step b (commit_bus b).0
  sets_bus : (enabled : Bool) → Step b (set_bus_sync_mode b enabled).0
  commits : Step b (commit_round b).0
  sets : (enabled : Bool) → Step b (set_sync_round enabled b).0

pub data Made : Bus → Type 0 where
  fresh : (idx : ℕ) (default_sync_mode : Bool) → Made (new_bus idx default_sync_mode)
  more : {b b' : Bus} → Made b → Step b b' → Made b'

Valid-if :
    {A : Type 0} (t : Bool) (p q : Bus × A)
    → (t ≡ true → Valid p.0)
    → (t ≡ false → Valid q.0)
    → Valid (if t then p else q).0
Valid-if true p q h g = h refl
Valid-if false p q h g = g refl

step-Valid : {b b' : Bus} → Step b b' → Valid b → Valid b'
unfolding make_device_writer unregister_send_channel submit_device_message submit_bus_messages
    commit_bus set_bus_sync_mode commit_round set_sync_round
step-Valid {b} makes_writer v = record {
  small = All-append_one (λ c. length c ≤ 10) b.channels v.small (omega arith);
  direct = λ h. let (e, q) = v.direct h in (All-append_one (λ c. c ≡ []) b.channels e refl, q);
}
step-Valid {b} (unregisters i) v = record {
  small = All-erase_at (λ c. length c ≤ 10) i b.channels v.small;
  direct = λ h. let (e, q) = v.direct h in (All-erase_at (λ c. c ≡ []) i b.channels e, q);
}
step-Valid {b} (submits_device i pack) v =
    Valid-if b.sync_mode _ _
      (λ on. record {
        small = AreSmall-set b.channels i _ v.small (length-enqueue (get_or b.channels i []) _);
        direct = λ off. absurd (cc (sym on ∙ off));
      })
      (λ off. v)
step-Valid {b} (submits_bus messages immediate) v =
    Valid-if (b.sync_mode && not immediate) _ _
      (λ on. record { small = v.small; direct = λ off. absurd (ground arith) }) (λ off. v)
step-Valid {b} commits_bus v = drain-Valid (record b { sync_mode = true }) v.small
step-Valid {b} (sets_bus enabled) v =
    Valid-if (not enabled && b.sync_mode) _ _
      (λ on. drain-Valid (record b { sync_mode = enabled }) v.small)
      (λ off. record { small = v.small; direct = λ h. v.direct (ground arith) })
step-Valid {b} commits v =
    Valid-if b.sync_mode _ _ (λ on. drain-Valid (record b { sync_mode = true }) v.small)
      (λ off. record { small = v.small; direct = λ h. absurd (cc h) })
step-Valid {b} (sets enabled) v =
    Valid-if (not enabled && b.sync_mode) _ _
      (λ on. drain-Valid (record b { sync_mode = enabled }) v.small)
      (λ off. record { small = v.small; direct = λ h. v.direct (ground arith) })

pub Made-Valid : {b : Bus} → Made b → Valid b
Made-Valid (fresh idx mode) = record { small = tt; direct = λ h. (tt, refl) }
Made-Valid (more m s) = step-Valid s (Made-Valid m)

-- In every history of a bus, nothing waits in it while it is not synchronised, so no message is left
-- behind by a change of the mode.
pub direct-waiting : (b : Bus) → Made b → b.sync_mode ≡ false → waiting b ≡ []
direct-waiting b m off =
    let v = Made-Valid m in let (e, q) = v.direct off in rw (AreEmpty-flat b.channels e, q) refl

-- In every history of a bus, its commit sends in one synchronised batch what waits in its channels,
-- channel by channel, and then its bulk queue; it leaves both empty and the bus synchronised.
pub commit_bus-waiting :
    (b : Bus)
    → Made b
    → commit_bus b ≡ (
      record { idx = b.idx; channels = emptied b.channels; bulk_queue = []; sync_mode = true },
      unless_empty sends_synchronized (waiting b),
    )
unfolding commit_bus
commit_bus-waiting b m = rw (drain-all (record b { sync_mode = true }) (Made-Valid m).small) refl

abbrev pub AreMade : List Bus → Type 0
AreMade [] = Unit
AreMade (b ∷ bs) = Made b × AreMade bs

-- What waits in the buses whose gate admits the call, and the buses after all of that is sent.
abbrev pub all_waiting : (Bus → Bool) → List Bus → List MotorMessage
all_waiting acquires [] = []
all_waiting acquires (b ∷ bs) =
    if acquires b then waiting b ++ all_waiting acquires bs else all_waiting acquires bs

abbrev pub flush_bus : Bool → Bus → Bus
flush_bus mode b = record {
  idx = b.idx;
  channels = emptied b.channels;
  bulk_queue = [];
  sync_mode = mode;
}

abbrev pub all_flushed : (Bus → Bool) → Bool → List Bus → List Bus
all_flushed acquires mode [] = []
all_flushed acquires mode (b ∷ bs) =
    (if acquires b then flush_bus mode b else b) ∷ all_flushed acquires mode bs

AreEmpty-emptied : (cs : List (List MotorMessage)) → AreEmpty cs → cs ≡ emptied cs
AreEmpty-emptied [] h = refl
AreEmpty-emptied (c ∷ cs) (h, hs) = ap₂ (λ x y. x ∷ y) h (AreEmpty-emptied cs hs)

-- A round of either loop sends what waits and leaves nothing.
abbrev flushed : Bool → Bus → Bus × List MotorMessage
flushed mode b = (flush_bus mode b, waiting b)

already_flushed :
    (mode : Bool) (b : Bus)
    → Valid b
    → b.sync_mode ≡ false
    → (record b { sync_mode = mode }, []) ≡ flushed mode b
already_flushed mode b v off =
    let (e, q) = v.direct off in
    let same = AreEmpty-emptied b.channels e in
    let none_ = AreEmpty-flat b.channels e in
    let gone : waiting b ≡ [] = rw (none_, q) refl in
    λ i. (record { idx = b.idx; channels = same i; bulk_queue = q i; sync_mode = mode }, sym gone i)

commit_round-flushed : (b : Bus) → Valid b → commit_round b ≡ flushed true b
unfolding commit_round
commit_round-flushed b v = elim (Bool-cases b.sync_mode) [
  | inl on ↦ rw (on, commit_round) (drain-all (record b { sync_mode = true }) v.small)
  | inr off ↦ rw (off, commit_round) (already_flushed true b v off)
]

set_sync_round-flushed : (b : Bus) → Valid b → set_sync_round false b ≡ flushed false b
unfolding set_sync_round
set_sync_round-flushed b v = elim (Bool-cases b.sync_mode) [
  | inl on ↦ rw (on, set_sync_round) (drain-all (record b { sync_mode = false }) v.small)
  | inr off ↦ rw (off, set_sync_round) (already_flushed false b v off)
]

each_bus-flushed :
    (mode : Bool) (acquires : Bus → Bool) (round : Bus → Bus × List MotorMessage) (bs : List Bus)
    → ((b : Bus) → Valid b → round b ≡ flushed mode b)
    → AreMade bs
    → each_bus acquires round bs ≡ (all_flushed acquires mode bs, all_waiting acquires bs)
unfolding each_bus
each_bus-flushed mode acquires round [] flush m = refl
each_bus-flushed mode acquires round (b ∷ bs) flush (m, ms) =
    let rest = each_bus-flushed mode acquires round bs flush ms in
    elim (Bool-cases (acquires b)) [
      | inl yes_ ↦ rw (rest, flush b (Made-Valid m), yes_) refl
      | inr no_ ↦ rw (rest, no_) refl
    ]

-- For buses with arbitrary histories, the commit of the adapter sends in one synchronised batch all
-- that waits in the buses whose gate admits the call, bus by bus, whichever of them were synchronised
-- before; it leaves nothing waiting in those buses and makes them synchronised, and leaves the other
-- buses as they were.
pub commit-flushes :
    (acquires : Bus → Bool) (a : Adapter)
    → AreMade a.buses
    → commit acquires a ≡ (
      record { default_sync_mode = true; buses = all_flushed acquires true a.buses },
      unless_empty sends_synchronized (all_waiting acquires a.buses),
    )
unfolding commit
commit-flushes acquires a m =
    rw (each_bus-flushed true acquires commit_round a.buses commit_round-flushed m) refl

-- For buses with arbitrary histories, leaving the synchronised mode sends all that waits in the buses
-- whose gate admits the call, bus by bus; it leaves nothing waiting in those buses and makes them
-- unsynchronised, and leaves the other buses as they were.
pub set_sync_mode-flushes :
    (acquires : Bus → Bool) (a : Adapter)
    → AreMade a.buses
    → set_sync_mode acquires a false ≡ (
      record { default_sync_mode = false; buses = all_flushed acquires false a.buses },
      unless_empty sends (all_waiting acquires a.buses),
    )
unfolding set_sync_mode
set_sync_mode-flushes acquires a m =
    rw (each_bus-flushed false acquires (set_sync_round false) a.buses set_sync_round-flushed m)
      refl
