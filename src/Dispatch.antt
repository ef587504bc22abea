-- ===== src/Dispatch.antt =====
-- The receive path from an adapter to the devices: `BaseAdapter::Impl::OnMessage` of
-- src/adapter/base_adapter.cc, and `DispatchReceive`, `DeliverToClaimRoute`, `IsBusRegistered` and
-- `DispatchUnknownReceive` of src/driver_manager_dispatch.cc, over the route domain of one adapter.
-- A route is a shared record, so a call names it by its place in the table. A callback is the entry
-- that it makes in `calls`; it throws nothing and changes no route. The mailbox of a bus is a `Port`,
-- of which only `Push` is used here.
use encos_driver.Prelude.{
  ℕ, zero, suc, ◌+◌, ◌%◌, bit_or, shl, shr, u32, u64, Bool, true, false, not, ◌==◌, ◌!=◌, ◌&&◌,
  if◌then◌else◌, List, [], ◌∷◌, ◌++◌, map, Option, none, some,
}
use encos_driver.Frame.{MotorPackMsg, MotorMessage}
pub mod Balance
pub mod Lookup
pub mod Reference
mod Tests

-- `RouteRecord`; a device is its address, and `in_flight` a `std::size_t` of 64 bits.
pub record ReceiveRoute : Type 0 where
  pub device : ℕ
  pub has_callback : Bool
  pub retiring : Bool
  pub in_flight : ℕ

-- `std::unordered_map` as an association list in its iteration order.
abbrev pub Table : Type 0 → Type 0
Table A = List (ℕ × A)

unfoldable pub make_receive_unique_id : ℕ → ℕ → ℕ
make_receive_unique_id raw_bus_idx can_id = bit_or (u64 (shl (u32 raw_bus_idx) 32)) can_id

abbrev pub is_live : ReceiveRoute → Bool
is_live route = not route.retiring && route.has_callback

unfoldable pub begin_call : ReceiveRoute → ReceiveRoute
begin_call route = record route { in_flight = u64 (route.in_flight + 1) }

unfoldable pub end_call : ReceiveRoute → ReceiveRoute
end_call route = record route { in_flight = u64 (route.in_flight + 18446744073709551615) }

module _ {A : Type 0} where
  abbrev pub shift : Option (ℕ × A) → Option (ℕ × A)
  shift none = none
  shift (some (i, a)) = some (suc i, a)

  -- The place of a key and what stands there.
  unfoldable pub find_place : ℕ → Table A → Option (ℕ × A)
  find_place key [] = none
  find_place key ((k, a) ∷ t) =
      let rest = find_place key t in if k == key then some (0, a) else shift rest

  abbrev pub update : ℕ → (A → A) → Table A → Table A
  update i g [] = []
  update zero g ((k, a) ∷ t) = (k, g a) ∷ t
  update (suc i) g (entry ∷ t) = entry ∷ update i g t

abbrev pub is_found : {A : Type 0} → Option (ℕ × A) → Bool
is_found none = false
is_found (some _) = true

-- A callback that was invoked: its device and the message.
abbrev pub Call : Type 0
Call = ℕ × MotorPackMsg

abbrev pub called : MotorPackMsg → ℕ → Call
called message device = (device, message)

-- The calls of a system frame: the routes taken by the first loop, and the devices that the second
-- loop calls.
abbrev pub takes : ℕ → ℕ → ReceiveRoute → Bool
takes raw_bus_idx unique_id route = not (u32 (shr unique_id 32) != u32 raw_bus_idx) && is_live route

unfoldable pub system_places : ℕ → Table ReceiveRoute → List ℕ
system_places raw_bus_idx [] = []
system_places raw_bus_idx ((k, r) ∷ t) =
    let rest = map suc (system_places raw_bus_idx t) in
    if takes raw_bus_idx k r then 0 ∷ rest else rest

unfoldable pub begin_system : ℕ → Table ReceiveRoute → Table ReceiveRoute
begin_system raw_bus_idx [] = []
begin_system raw_bus_idx ((k, r) ∷ t) =
    let rest = begin_system raw_bus_idx t in
    if takes raw_bus_idx k r then (k, begin_call r) ∷ rest else (k, r) ∷ rest

unfoldable pub system_devices : ℕ → Table ReceiveRoute → List ℕ
system_devices raw_bus_idx [] = []
system_devices raw_bus_idx ((k, r) ∷ t) =
    let rest = system_devices raw_bus_idx t in
    if takes raw_bus_idx k r then r.device ∷ rest else rest

unfoldable pub end_each : List ℕ → Table ReceiveRoute → Table ReceiveRoute
end_each [] t = t
end_each (i ∷ is) t = end_each is (update i end_call t)

-- One route called with a message: taken, called, released.
unfoldable pub call_route : ℕ → Table ReceiveRoute → Table ReceiveRoute
call_route i t = update i end_call (update i begin_call t)

module _ (Mailbox : Type 0) (push : MotorPackMsg → Mailbox → Mailbox) where
  -- The route domain of an adapter, the count of dropped messages, whether a raw callback is set,
  -- and what was called.
  pub record Receiver : Type 0 where
    pub routes : Table ReceiveRoute
    pub claim_routes : Table ReceiveRoute
    pub buses : Table Mailbox
    pub unknown_bus_drop_count : ℕ
    pub has_relay_callback : Bool
    pub raw_calls : List (List MotorMessage)
    pub calls : List Call

  -- `DeliverToClaimRoute`, once the claim is looked up.
  unfoldable pub claim_found : Option (ℕ × ReceiveRoute) → MotorPackMsg → Receiver → Receiver
  claim_found none message s = s
  claim_found (some (i, route)) message s =
      if is_live route
      then record s {
        claim_routes = call_route i s.claim_routes;
        calls = s.calls ++ (route.device, message) ∷ [];
      }
      else s

  unfoldable pub deliver_to_claim_route : ℕ → MotorPackMsg → Receiver → Receiver
  deliver_to_claim_route raw_bus_idx message s =
      claim_found (find_place raw_bus_idx s.claim_routes) message s

  -- The branch for the system frame 0x7FF.
  unfoldable pub dispatch_system : ℕ → MotorPackMsg → Receiver → Receiver
  dispatch_system raw_bus_idx message s = deliver_to_claim_route raw_bus_idx message (record s {
    routes = end_each (system_places raw_bus_idx s.routes) (begin_system raw_bus_idx s.routes);
    calls = s.calls ++ map (called message) (system_devices raw_bus_idx s.routes);
  })

  -- The branch for the other frames, once the route is looked up.
  unfoldable pub dispatch_found :
      Option (ℕ × ReceiveRoute) → ℕ → MotorPackMsg → Receiver → Bool × Receiver
  dispatch_found none raw_bus_idx message s = (false, deliver_to_claim_route raw_bus_idx message s)
  dispatch_found (some (i, route)) raw_bus_idx message s =
      if is_live route
      then (
        true,
        record s {
          routes = call_route i s.routes;
          calls = s.calls ++ (route.device, message) ∷ [];
        },
      )
      else (false, deliver_to_claim_route raw_bus_idx message s)

  unfoldable pub dispatch_receive : ℕ → MotorPackMsg → Receiver → Bool × Receiver
  dispatch_receive raw_bus_idx message s =
      if message.id == 0x7FF
      then (false, dispatch_system raw_bus_idx message s)
      else dispatch_found (find_place (make_receive_unique_id raw_bus_idx message.id) s.routes)
          raw_bus_idx message s

  abbrev pub push_at : MotorPackMsg → Receiver → Option (ℕ × Mailbox) → Receiver
  push_at message s none = s
  push_at message s (some (i, mailbox)) = record s { buses = update i (push message) s.buses }

  unfoldable pub dispatch_unknown_receive : ℕ → MotorPackMsg → Receiver → Receiver
  dispatch_unknown_receive raw_bus_idx message s =
      push_at message s (find_place raw_bus_idx s.buses)

  unfoldable pub is_bus_registered : ℕ → Receiver → Bool
  is_bus_registered raw_bus_idx s = is_found (find_place raw_bus_idx s.buses)

  -- The round of the loop of `OnMessage`.
  abbrev pub unless_taken : ℕ → MotorPackMsg → Bool × Receiver → Receiver
  unless_taken raw_bus_idx message (taken, s) =
      if taken then s else dispatch_unknown_receive raw_bus_idx message s

  unfoldable pub receive_message : MotorMessage → Receiver → Receiver
  receive_message message s =
      if is_bus_registered message.bus_idx s
      then unless_taken message.bus_idx message.pack
          (dispatch_receive message.bus_idx message.pack s)
      else record s { unknown_bus_drop_count = u64 (s.unknown_bus_drop_count + 1) }

  unfoldable pub receive_each : List MotorMessage → Receiver → Receiver
  receive_each [] s = s
  receive_each (m ∷ ms) s = receive_each ms (receive_message m s)

  unfoldable pub on_message : List MotorMessage → Receiver → Receiver
  on_message messages s =
      receive_each messages
        (if s.has_relay_callback then record s { raw_calls = s.raw_calls ++ messages ∷ [] } else s)
