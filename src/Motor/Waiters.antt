-- ===== src/Motor/Waiters.antt =====
-- The waiters of a motor: `SendAndWaitErased`, the waiter loop of `OnMessage` and the cancellation
-- of src/device/motor/motor.cc. A waiter is shared by the registry, by the operation that made it
-- and by the receive thread, so the waiters stand in a store and are named by their addresses. The
-- checker and the writer are the caller's; the content is of a type that the caller chooses.
use encos_driver.Prelude.{
  ℕ, zero, suc, ◌+◌, Bool, true, false, ◌==◌, ◌&&◌, ◌||◌, leb, if◌then◌else◌, List, [], ◌∷◌, ◌++◌,
  length, drop, get_or, u64, Option, none, some,
}
use encos_driver.Frame.{MotorPackMsg}
use encos_driver.Motor.Feedback.{has_payload}
pub mod Threads
pub mod Store
pub mod Safety
pub mod Answer
pub mod Wakes
pub mod Loops
mod Tests

-- `erase` of `remove`.
unfoldable pub erase : ℕ → List ℕ → List ℕ
erase i [] = []
erase i (j ∷ js) = let rest = erase i js in if i == j then rest else j ∷ rest

module _ (Content : Type 0) where
  -- A checker answers, or throws (`none`); a writer leaves a content and may throw (`true`).
  pub record Waiter : Type 0 where
    pub checker : MotorPackMsg → Option Bool
    pub writer : MotorPackMsg → Content → Content × Bool
    pub content : Content
    pub completed : Bool
    pub cancelled : Bool

  -- `active` is an atomic `std::size_t` of 64 bits.
  pub record Waiters : Type 0 where
    pub store : List Waiter
    pub waiters : List ℕ
    pub rejecting : Bool
    pub active : ℕ

  abbrev pub no_waiters : Waiters
  no_waiters = record { store = []; waiters = []; rejecting = false; active = 0 }

  abbrev pub update : ℕ → (Waiter → Waiter) → List Waiter → List Waiter
  update i g [] = []
  update zero g (w ∷ ws) = g w ∷ ws
  update (suc i) g (w ∷ ws) = w ∷ update i g ws

  -- The registry with a new waiter.
  unfoldable pub with_waiter : Waiter → Waiters → Waiters
  with_waiter waiter s = record s {
    store = s.store ++ waiter ∷ [];
    waiters = s.waiters ++ length s.store ∷ [];
    active = u64 (s.active + 1);
  }

  -- The registration: the address of the new waiter, or a refusal.
  unfoldable register_waiter : Waiter → Waiters → Option (ℕ × Waiters)
  register_waiter waiter s =
      if s.rejecting then none else some (length s.store, with_waiter waiter s)

  abbrev pub mark_cancelled : Waiter → Waiter
  mark_cancelled waiter = record waiter { cancelled = true }

  unfoldable pub cancel_at : ℕ → Waiters → Waiters
  cancel_at i s = record s { store = update i mark_cancelled s.store }

  -- The two critical sections of `unregister`; the second says whether it wakes the drain.
  unfoldable pub withdraw : ℕ → Waiters → Waiters × Bool
  withdraw i s = (
    record s { waiters = erase i s.waiters; active = u64 (s.active + 18446744073709551615) },
    s.active == 1,
  )

  unfoldable unregister : ℕ → Waiters → Waiters × Bool
  unregister i s = withdraw i (cancel_at i s)

  -- One round of the loop of `OnMessage`, and the loop over the snapshot of the with_waiter.
  abbrev pub answered_by : Content × Bool → Waiter → Waiter
  answered_by (content, threw) waiter =
      if threw
      then record waiter { content = content; cancelled = true }
      else record waiter { content = content; completed = true }

  abbrev pub checked : Option Bool → MotorPackMsg → Waiter → Waiter
  checked none message waiter = record waiter { cancelled = true }
  checked (some false) message waiter = waiter
  checked (some true) message waiter = answered_by (waiter.writer message waiter.content) waiter

  unfoldable pub offer : MotorPackMsg → Waiter → Waiter
  offer message waiter =
      if waiter.cancelled || waiter.completed
      then waiter
      else checked (waiter.checker message) message waiter

  unfoldable pub offer_at : MotorPackMsg → ℕ → Waiters → Waiters
  offer_at message i s = record s { store = update i (offer message) s.store }

  unfoldable pub offer_each : MotorPackMsg → List ℕ → Waiters → Waiters
  offer_each message [] s = s
  offer_each message (i ∷ is) s = offer_each message is (offer_at message i s)

  unfoldable pub on_message_waiters : MotorPackMsg → Waiters → Waiters
  on_message_waiters message s = offer_each message s.waiters s

  -- `CancelWaitersWithoutDrain`.
  unfoldable pub cancel_each : List ℕ → Waiters → Waiters
  cancel_each [] s = s
  cancel_each (i ∷ is) s = cancel_each is (cancel_at i s)

  unfoldable pub reject_waiters : Waiters → Waiters
  reject_waiters s = record s { waiters = []; rejecting = true }

  unfoldable pub cancel_waiters : Waiters → Waiters
  cancel_waiters s = if s.rejecting then s else cancel_each s.waiters (reject_waiters s)

  unfoldable pub waiters_drained : Waiters → Bool
  waiters_drained s = s.active == 0

-- `SendAndWait`: any accepted message is the answer.
abbrev pub keep_received : MotorPackMsg → Option MotorPackMsg → Option MotorPackMsg × Bool
keep_received received result = (some received, false)

-- `std::equal` of the expected bytes and as many bytes of the payload.
abbrev equal_prefix : List ℕ → List ℕ → Bool
equal_prefix [] payload = true
equal_prefix (x ∷ xs) [] = false
equal_prefix (x ∷ xs) (y ∷ ys) = x == y && equal_prefix xs ys

-- The checker of `SendParameterAndWait`.
unfoldable parameter_checker : ℕ → List ℕ → MotorPackMsg → Bool
parameter_checker parameter_id expected_payload pack =
    leb (3 + length expected_payload) pack.len
    && get_or pack.payload 0 0 == 0xFF
    && get_or pack.payload 1 0 == 0xFE
    && get_or pack.payload 2 0 == parameter_id
    && equal_prefix expected_payload (drop 3 pack.payload)
