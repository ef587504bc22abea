-- ===== src/Registry/Hazards.antt =====
-- How `BasicOperationRegistry` of src/operation_gate.h publishes and deletes its snapshots, by the
-- atomic steps of its readers (`ProtectSnapshot`, `ClearHazard`) and of the one writer under the lock
-- (`PublishSnapshot`, `WaitForReaders`). A snapshot is its address, and the allocator may give out
-- again the address of one that was deleted. Reader `i` is the thread that owns hazard slot `i`. All
-- the accesses are sequentially consistent.
pub mod Safety
pub mod Progress
mod Tests
use encos_driver.Prelude.{
  ℕ, zero, suc, ◌≡◌, ◌≢◌, ◌<◌, ◌==◌, Bool, true, false, if◌then◌else◌, Option, none, some,
}

pub data Reader : Type 0 where
  -- Not in `ProtectSnapshot`, or before the load of a round of its loop.
  outside looking : Reader
  -- After the load, the store and the second load that found the same address.
  loaded stored validated : ℕ → Reader

pub data Writer : Type 0 where
  -- Without a new snapshot, or with one that is built and not yet exchanged.
  quiet : Writer
  built : ℕ → Writer
  -- In `WaitForReaders` for the previous snapshot, at a slot.
  waiting : ℕ → ℕ → Writer

pub record State : Type 0 where
  pub current : ℕ
  pub live : ℕ → Bool
  pub hazards : ℕ → Option ℕ
  pub readers : ℕ → Reader
  pub writer : Writer

abbrev pub put {ℓ} : {A : Type ℓ} → (ℕ → A) → ℕ → A → ℕ → A
put f i v j = if j == i then v else f j

-- The registry as its constructor leaves it, with its first snapshot at some address.
abbrev pub start : ℕ → State
start a = record {
  current = a;
  live = put (λ x. false) a true;
  hazards = λ i. none;
  readers = λ i. outside;
  writer = quiet;
}

-- One atomic step, with `n` hazard slots.
pub data Step (n : ℕ) (s : State) : State → Type 0 where
  -- `ProtectSnapshot` by a thread that owns a slot.
  begin :
      (i : ℕ)
      → i < n
      → s.readers i ≡ outside
      → Step n s (record s { readers = put s.readers i looking })
  load :
      (i : ℕ)
      → s.readers i ≡ looking
      → Step n s (record s { readers = put s.readers i (loaded s.current) })
  store :
      (i a : ℕ)
      → s.readers i ≡ loaded a
      → Step n s
          (record s { hazards = put s.hazards i (some a); readers = put s.readers i (stored a) })
  validate :
      (i a : ℕ)
      → s.readers i ≡ stored a
      → a ≡ s.current
      → Step n s (record s { readers = put s.readers i (validated a) })
  retry :
      (i a : ℕ)
      → s.readers i ≡ stored a
      → a ≢ s.current
      → Step n s (record s { readers = put s.readers i looking })
  -- `ClearHazard`, after the use of the snapshot.
  clear_hazard :
      (i a : ℕ)
      → s.readers i ≡ validated a
      → Step n s (record s { hazards = put s.hazards i none; readers = put s.readers i outside })
  -- `PublishSnapshot`: the new snapshot at an address that is free, the exchange, the wait for each
  -- slot in turn, and the deletion.
  construct :
      (b : ℕ)
      → s.writer ≡ quiet
      → s.live b ≡ false
      → Step n s (record s { live = put s.live b true; writer = built b })
  exchange :
      (b : ℕ)
      → s.writer ≡ built b
      → Step n s (record s { current = b; writer = waiting s.current 0 })
  pass :
      (p j : ℕ)
      → s.writer ≡ waiting p j
      → j < n
      → s.hazards j ≢ some p
      → Step n s (record s { writer = waiting p (suc j) })
  delete :
      (p : ℕ)
      → s.writer ≡ waiting p n
      → Step n s (record s { live = put s.live p false; writer = quiet })

pub data Reach (n : ℕ) : State → Type 0 where
  begun : (a : ℕ) → Reach n (start a)
  then_ : {s t : State} → Reach n s → Step n s t → Reach n t

pub data Steps (n : ℕ) : State → State → Type 0 where
  done : {s : State} → Steps n s s
  after : {s t u : State} → Step n s t → Steps n t u → Steps n s u
