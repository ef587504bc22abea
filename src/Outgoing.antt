-- ===== src/Outgoing.antt =====
-- How messages leave through an adapter, at once or in synchronised batches: the queues of a bus
-- (src/bus/bus.cc) and the submission of src/adapter/base_adapter.cc. The calls are one after the
-- other, as the submission lock makes them. The `Port` of a send channel is its queue of unread
-- messages, of which a push keeps the newest ten. What an adapter does in its `Send` is not part of
-- this.
pub mod Safety
mod Tests
use encos_driver.Prelude.{
  ℕ, zero, suc, Bool, true, false, not, ◌&&◌, if◌then◌else◌, List, [], ◌∷◌, ◌++◌, set, get_or,
  replicate, arith,
}
use encos_driver.Frame.{MotorPackMsg, MotorMessage, flag_eff, sanitize}
use encos_driver.Port.{Popped, message, nothing, starved}
use encos_driver.Port.Queue.{enqueue, dequeue}

abbrev pub channel_capacity : ℕ
channel_capacity = 10

pub record Bus : Type 0 where
  pub idx : ℕ
  -- The ports of `send_channels`.
  pub channels : List (List MotorMessage)
  pub bulk_queue : List MotorMessage
  pub sync_mode : Bool

-- A call of the adapter's `Send` or `SendSynchronized`.
pub data Sent : Type 0 where
  sends sends_synchronized : List MotorMessage → Sent

-- A call with no messages is left out.
abbrev pub unless_empty : (List MotorMessage → Sent) → List MotorMessage → List Sent
unless_empty how [] = []
unless_empty how (m ∷ ms) = how (m ∷ ms) ∷ []

-- The loop of `DrainOutgoingLocked` over one channel: what is left in it, and the messages.
unfoldable pub drain_channel : ℕ → List MotorMessage → List MotorMessage × List MotorMessage
drain_channel zero c = (c, [])
drain_channel (suc count) [] = ([], [])
drain_channel (suc count) (m ∷ c) = let (left, ms) = drain_channel count c in (left, m ∷ ms)

unfoldable pub drain_channels :
    List (List MotorMessage) → List (List MotorMessage) × List MotorMessage
drain_channels [] = ([], [])
drain_channels (c ∷ cs) =
    let (left, ms) = drain_channel 10 c in
    let (rest, more) = drain_channels cs in (left ∷ rest, ms ++ more)

-- `DrainOutgoingLocked`.
unfoldable pub drain : Bus → Bus × List MotorMessage
drain b =
    let (left, ms) = drain_channels b.channels in
    (record b { channels = left; bulk_queue = [] }, ms ++ b.bulk_queue)

-- `InitializeBusSyncMode` of a new bus.
abbrev pub new_bus : ℕ → Bool → Bus
new_bus idx default_sync_mode = record {
  idx = idx;
  channels = [];
  bulk_queue = [];
  sync_mode = default_sync_mode;
}

-- `MakeDeviceWriter`.
unfoldable pub make_device_writer : Bus → Bus
make_device_writer b = record b { channels = b.channels ++ [] ∷ [] }

erase_at : ℕ → List (List MotorMessage) → List (List MotorMessage)
erase_at i [] = []
erase_at zero (c ∷ cs) = cs
erase_at (suc i) (c ∷ cs) = c ∷ erase_at i cs

-- `UnregisterSendChannel` of the channel at a place in the list.
unfoldable pub unregister_send_channel : Bus → ℕ → Bus
unfolding erase_at
unregister_send_channel b i = record b { channels = erase_at i b.channels }

-- `Bus::SubmitDeviceMessage` and `BaseAdapter::SubmitDeviceMessage`, by a channel's place.
unfoldable pub submit_device_message : Bus → ℕ → MotorPackMsg → Bus × List Sent
submit_device_message b i pack =
    let outgoing : MotorMessage = record {
      bus_idx = b.idx;
      pack = record pack { frame_flags = sanitize pack.frame_flags };
    } in
    if b.sync_mode
    then (
      record b {
        channels = set b.channels i (enqueue channel_capacity (get_or b.channels i []) outgoing);
      },
      [],
    )
    else (b, sends (outgoing ∷ []) ∷ [])

-- `SubmitBusMessages`.
unfoldable pub submit_bus_messages : Bus → List MotorMessage → Bool → Bus × List Sent
submit_bus_messages b messages immediate =
    if b.sync_mode && not immediate
    then (record b { bulk_queue = b.bulk_queue ++ messages }, [])
    else (b, unless_empty sends messages)

-- `CommitBus`.
unfoldable pub commit_bus : Bus → Bus × List Sent
commit_bus b =
    let (after, messages) = drain (record b { sync_mode = true }) in
    (after, unless_empty sends_synchronized messages)

-- `SetBusSyncMode`.
unfoldable pub set_bus_sync_mode : Bus → Bool → Bus × List Sent
set_bus_sync_mode b enabled =
    let changed : Bus = record b { sync_mode = enabled } in
    if not enabled && b.sync_mode
    then (let (after, messages) = drain changed in (after, unless_empty sends messages))
    else (changed, [])

-- One round of the loop of `BaseAdapter::Commit`, for a bus whose operation gate is entered.
unfoldable pub commit_round : Bus → Bus × List MotorMessage
commit_round b =
    let changed : Bus = record b { sync_mode = true } in
    if b.sync_mode then drain changed else (changed, [])

-- One round of the loop of `BaseAdapter::SetSyncMode`.
unfoldable pub set_sync_round : Bool → Bus → Bus × List MotorMessage
set_sync_round enabled b =
    let changed : Bus = record b { sync_mode = enabled } in
    if not enabled && b.sync_mode then drain changed else (changed, [])

-- Both loops, over the known buses; one whose gate refuses the operation is passed over.
unfoldable pub each_bus :
    (Bus → Bool) → (Bus → Bus × List MotorMessage) → List Bus → List Bus × List MotorMessage
each_bus acquires round [] = ([], [])
each_bus acquires round (b ∷ bs) =
    let (rest, more) = each_bus acquires round bs in
    let (after, batch) = round b in
    if acquires b then (after ∷ rest, batch ++ more) else (b ∷ rest, more)

pub record Adapter : Type 0 where
  pub default_sync_mode : Bool
  pub buses : List Bus

-- `Commit`.
unfoldable pub commit : (Bus → Bool) → Adapter → Adapter × List Sent
commit acquires a =
    let (buses, messages) = each_bus acquires commit_round a.buses in
    (record { default_sync_mode = true; buses = buses }, unless_empty sends_synchronized messages)

-- `SetSyncMode`.
unfoldable pub set_sync_mode : (Bus → Bool) → Adapter → Bool → Adapter × List Sent
set_sync_mode acquires a enabled =
    let (buses, messages) = each_bus acquires (set_sync_round enabled) a.buses in
    (record { default_sync_mode = enabled; buses = buses }, unless_empty sends messages)

-- `SendImuControl`.
unfoldable pub send_imu_control : Bus → Bool → Bus × List Sent
send_imu_control b enabled =
    let pack : MotorPackMsg = record {
      id = 0x0CF02D5A;
      frame_flags = flag_eff;
      len = 1;
      payload = (if enabled then 1 else 0) ∷ replicate 7 0;
    } in
    submit_bus_messages b (record { bus_idx = b.idx; pack = pack } ∷ []) true
