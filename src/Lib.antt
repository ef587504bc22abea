-- ===== src/Lib.antt =====
-- Verification of the core of encos_driver, the driver for motors and other devices on CAN buses
-- behind exchangeable adapters. This library models the code that the data pass through between a
-- device object and the wire.
--
-- The program. A device (src/device) builds CAN messages and decodes those that come back; a bus and
-- an adapter (plugins/adapter) carry them. Received messages reach the application through
-- single-producer single-consumer mailboxes, `Port` (include/utils/port.h). Every public operation
-- enters the object's `OperationGate` (src/operation_gate.h), through which deletion waits for the
-- operations in flight.
--
-- The files.
-- - Prelude: the shared names: tests on native numbers, lists with native length, the bit operations
--   of C as arithmetic (`bit_and-mask`, `bit_and-field`, `bit_or-shl`), bytes and words.
-- - Port (include/utils/port.h): Port/Publication has the metadata of a cell and the head
--   (`PortSequenceMetadata`, `PortSlotMetadata`, `PortHeadPublication`), Port the ring (`push`, `pop`,
--   `is_empty`, `clear`, with `read_target` and `read_head`), Port/Queue the bounded queue that it is
--   held against, Port/Cells, Port/Refine and Port/History the refinement. Port/Race has one slot with
--   a producer and a consumer that take turns at every atomic access, Port/Race/Safety what holds in
--   all their interleavings.
-- - Frame (include/device/motor/types.h): CAN messages and their flags.
-- - Motor (src/device/motor): Motor/Floats the interface of the 32-bit floats and the conversions of
--   math_utils.cc, Motor/Error and Motor/Feedback the decoders of pack_helper.h, Motor/Command the
--   commands of motor_control.cc; Motor/FeedbackLayout, Motor/CommandLayout and Motor/CommandSafety
--   their theorems. Motor/Status has the status of motor.cc with its filters and its life cycle:
--   Motor/Status/Median, Motor/Status/History and Motor/Status/Finite are about the filter,
--   Motor/Status/Life, Motor/Status/Expiry and Motor/Status/Safety about the state. Motor/Waiters has
--   the waiters of motor.cc: Motor/Waiters/Threads any number of operations with the receive thread
--   and a cancellation, at their critical sections; Motor/Waiters/Store, Motor/Waiters/Safety,
--   Motor/Waiters/Answer and Motor/Waiters/Wakes what holds in all interleavings, and
--   Motor/Waiters/Loops the loops as sequences of their steps.
-- - Slcan (plugins/adapter/slcan): `Send`, `ReceiveBytes` and `ReceiveLine` of slcan_adapter.cc;
--   Slcan/Lines has the line buffer, Slcan/Numbers and Slcan/Texts the texts of numbers and messages,
--   Slcan/RoundTrip and Slcan/Safety what the two directions promise.
-- - Dispatch (src/driver_manager_dispatch.cc, src/adapter/base_adapter.cc): the way of a received
--   frame from the adapter to the devices; Dispatch/Balance has the calls in flight, Dispatch/Lookup
--   the tables by bus and id, Dispatch/Reference the reference.
-- - RouteTable (src/driver_manager_impl.h): how a device's routes are published and detached;
--   RouteTable/Keys has the uniqueness of the keys, RouteTable/Entries the entries and their rows,
--   RouteTable/Wanted the keys that were asked for, RouteTable/Detached,
--   RouteTable/Published and RouteTable/Exact what the tables hold after any
--   devices have come and left, RouteTable/RoundTrip what a detachment undoes.
-- - Gate (src/operation_gate.h): the word of `OperationGate` and its operations; Gate/Threads any
--   number of threads at its atomic operations, Gate/Safety what holds in all interleavings.
-- - Registry (src/operation_gate.h): the entries and operations of `BasicOperationRegistry`, one call
--   after the other; Registry/Table the hash table of a snapshot, Registry/Probe, Registry/Insert,
--   Registry/Build and Registry/Map its theory as a finite map; Registry/Entries, Registry/Effects,
--   Registry/Newest and Registry/Invariant what the operations preserve, Registry/Safety and
--   Registry/Lifetime what they promise. Registry/Hazards has the snapshots at the atomic steps of
--   any number of readers and the writer, Registry/Hazards/Safety and Registry/Hazards/Progress what
--   holds in all their interleavings.
-- - GsUsb (plugins/adapter/gsUsb): the frames of protocol/gs_usb_protocol.cc, with their round trip
--   in GsUsb/RoundTrip; GsUsb/Adapter has `WriteFrame` and the receive loop of gs_usb_adapter.cc,
--   GsUsb/Words, GsUsb/Stream and GsUsb/Progress its theorems; GsUsb/Timing and GsUsb/TimingSound
--   have `ComputeBitTiming`, GsUsb/Control the control transfers.
-- - Relay (plugins/adapter/utils/emr1/relay_frame.cc): EMR1 frames and their round trip. Gateway
--   (plugins/adapter/ethernet/protocol/gateway_payload.cc): the checked payloads around them, which
--   use Relay. TransmitQueue (plugins/adapter/ethernet/ethernet_tx_queue.h): the send queue.
-- - Relay/Queue (plugins/adapter/relayWs/relay_bounded_queue.h): the queue of the WebSocket relay,
--   which fills EMR1 frames; Relay/QueueBatch, Relay/QueueOrder, Relay/QueueTrim and
--   Relay/QueueWire its theorems.
-- - Ipv4 (plugins/adapter/ethernet/protocol/ipv4.cc): packets around the payloads of Gateway, with
--   Ipv4/Checksum for the one's-complement sums, Ipv4/Sums and Ipv4/RoundTrip; Ipv4/Text and
--   Ipv4/TextRoundTrip have the texts of addresses, Ipv4/Endpoint those of endpoints.
-- - Management (plugins/adapter/ethernet/protocol/gateway_wire.h and management_protocol.cc): the
--   packets of the gateway's management protocol, which are told apart from the data frames of Relay.
-- - Outgoing (src/bus/bus.cc, src/adapter/base_adapter.cc): messages on their way out, at once or in
--   synchronised batches. The `Port` of a send channel is the bounded queue that Port/History holds
--   it to, Port/Queue.
-- The modules called Tests hold runs on small inputs and the theorems at concrete inputs.
--
-- Conventions. Unsigned integers are natural numbers with their wrap-around written out; a signed
-- integer that only passes through is its bit pattern. A buffer is a list of bytes, and its size is
-- the list's length. Where a C function returns 0 or false for a failure, the model returns an empty
-- list or `none`.
--
-- Fuel. `pop` and `read_head` retry while the producer interferes: with one thread at a time one
-- round is enough. The fold of a checksum is done after two rounds. The receive loop and the EMR1
-- loops consume at least a byte or a record in each round, so the length is enough;
-- `ComputeBitTiming` raises the prescaler by at least one in each. The capacity of a snapshot
-- doubles at most once for each entry, and a free slot is found within the table's size.
--
-- Parameters. The floating-point operations are an interface (`FloatOps`); the sample point of
-- `ComputeBitTiming` is given by its test and its rounded products. The checkers and writers of
-- waiters are their callers'; a mailbox of the dispatch is any type with a push.
--
-- Not modelled. Third-party code, bindings, scripts and tests; the operating system's I/O, threads
-- and logging; the hooks by which tests observe a `Port`; decoding the response to a command and
-- the command log; parameter requests; a thread that finds no hazard slot; the creation and
-- destruction of objects in the driver manager and the change of a motor's index; the roll-back when
-- an allocation or the test hook throws while routes are published; the other adapters and devices.
-- The interleavings are sequentially consistent; those of `Port` cover one slot.
pub mod Prelude
pub mod Port
pub mod Frame
pub mod Motor
pub mod Gate
pub mod Registry
pub mod GsUsb
pub mod Relay
pub mod Gateway
pub mod TransmitQueue
pub mod Ipv4
pub mod Management
pub mod Outgoing
pub mod Slcan
pub mod Dispatch
pub mod RouteTable
