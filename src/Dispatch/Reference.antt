-- ===== src/Dispatch/Reference.antt =====
-- The receive path against a reference that looks a frame up by its bus and its id.
use encos_driver.Prelude.{
  ℕ, ◌+◌, ◌^◌, ◌<◌, ◌≡◌, refl, sym, ap, ap₂, ◌∙◌, subst, Bool, true, false, Bool-cases, not, ◌&&◌,
  ◌==◌, u64, if◌then◌else◌, inl, inr, List, [], ◌∷◌, ◌++◌, map, append-nil, append_assoc, All,
  Option, none, some,
}
use encos_driver.Frame.{MotorPackMsg, MotorMessage}
use encos_driver.Dispatch.{
  ReceiveRoute, Table, begin_system, end_each, system_places, called, claim_found, Call,
  deliver_to_claim_route, dispatch_found, dispatch_receive, dispatch_system,
  dispatch_unknown_receive, find_place, is_bus_registered, is_live, make_receive_unique_id,
  on_message, push_at, receive_each, receive_message, Receiver, shift, system_devices, unless_taken,
  update,
}
use encos_driver.Dispatch.Balance.{HasRoom, call_route-same, end_each-begin_system}
use encos_driver.Dispatch.Lookup.{
  IsRoute, IsRoute-HasRoom, find_place-lookup, is_found-second, is_nonempty, is_some, live_device,
  live_devices, lookup, lookup-route_of, map-append_devices, otherwise, route_of, second,
  system_devices-live,
}

module _ (Mailbox : Type 0) (push : MotorPackMsg → Mailbox → Mailbox) where
  abbrev push_first : ℕ → MotorPackMsg → Table Mailbox → Table Mailbox
  push_first bus message [] = []
  push_first bus message ((k, m) ∷ t) =
      if k == bus then (k, push message m) ∷ t else (k, m) ∷ push_first bus message t

  abbrev calls_with : Receiver Mailbox push → MotorPackMsg → List ℕ → Receiver Mailbox push
  calls_with s message devices = record s { calls = s.calls ++ map (called message) devices }

  -- The claiming device of a bus.
  abbrev claimant : ℕ → Receiver Mailbox push → List ℕ
  claimant bus s = live_device (lookup bus s.claim_routes)

  calls_with-none :
      (s : Receiver Mailbox push) (message : MotorPackMsg) → calls_with s message [] ≡ s
  calls_with-none s message = ap (λ (l : List Call). record s { calls = l }) (append-nil s.calls)

  calls_with-calls_with :
      (s : Receiver Mailbox push) (message : MotorPackMsg) (xs ys : List ℕ)
      → calls_with (calls_with s message xs) message ys ≡ calls_with s message (xs ++ ys)
  calls_with-calls_with s message xs ys =
      ap (λ (l : List Call). record s { calls = l })
        (append_assoc s.calls (map (called message) xs) (map (called message) ys)
          ∙ ap (λ l. s.calls ++ l) (sym (map-append_devices message xs ys)))

  claim_found-second :
      (o : Option (ℕ × ReceiveRoute)) (message : MotorPackMsg) (s : Receiver Mailbox push)
      → All HasRoom s.claim_routes
      → claim_found Mailbox push o message s ≡ calls_with s message (live_device (second o))
  unfolding claim_found second
  claim_found-second none message s h = sym (calls_with-none s message)
  claim_found-second (some (i, r)) message s h = elim (Bool-cases (is_live r)) [
    | inl yes_ ↦ rw yes_ (
        ap
          (λ (t : Table ReceiveRoute). record s {
            claim_routes = t;
            calls = s.calls ++ (r.device, message) ∷ [];
          })
          (call_route-same i s.claim_routes h))
    | inr no_ ↦ rw no_ (sym (calls_with-none s message))
  ]

  deliver_to_claim_route-claimant :
      (bus : ℕ) (message : MotorPackMsg) (s : Receiver Mailbox push)
      → All HasRoom s.claim_routes
      → deliver_to_claim_route Mailbox push bus message s ≡ calls_with s message (claimant bus s)
  unfolding deliver_to_claim_route
  deliver_to_claim_route-claimant bus message s h =
      claim_found-second (find_place bus s.claim_routes) message s h
      ∙ ap (λ o. calls_with s message (live_device o)) (find_place-lookup bus s.claim_routes)

  updated : Option (ℕ × Mailbox) → MotorPackMsg → Table Mailbox → Table Mailbox
  updated none message t = t
  updated (some (i, mailbox)) message t = update i (push message) t

  push_at-updated :
      (o : Option (ℕ × Mailbox)) (message : MotorPackMsg) (s : Receiver Mailbox push)
      → push_at Mailbox push message s o ≡ record s { buses = updated o message s.buses }
  unfolding updated
  push_at-updated none message s = refl
  push_at-updated (some (i, mailbox)) message s = refl

  updated-shift :
      (o : Option (ℕ × Mailbox)) (message : MotorPackMsg) (e : ℕ × Mailbox) (t : Table Mailbox)
      → updated (shift o) message (e ∷ t) ≡ e ∷ updated o message t
  unfolding updated
  updated-shift none message e t = refl
  updated-shift (some (i, mailbox)) message e t = refl

  updated-find_place :
      (bus : ℕ) (message : MotorPackMsg) (t : Table Mailbox)
      → updated (find_place bus t) message t ≡ push_first bus message t
  unfolding find_place updated
  updated-find_place bus message [] = refl
  updated-find_place bus message ((k, m) ∷ t) = elim (Bool-cases (k == bus)) [
    | inl yes_ ↦ rw yes_ refl
    | inr no_ ↦ rw no_ (
        updated-shift (find_place bus t) message (k, m) t
        ∙ ap (λ x. (k, m) ∷ x) (updated-find_place bus message t))
  ]

  dispatch_unknown_receive-push_first :
      (bus : ℕ) (message : MotorPackMsg) (s : Receiver Mailbox push)
      → dispatch_unknown_receive Mailbox push bus message s
        ≡ record s { buses = push_first bus message s.buses }
  unfolding dispatch_unknown_receive
  dispatch_unknown_receive-push_first bus message s =
      push_at-updated (find_place bus s.buses) message s
      ∙ ap (λ (t : Table Mailbox). record s { buses = t }) (updated-find_place bus message s.buses)

  -- The devices that a frame is for: with the id 0x7FF every live route of its bus, else the live
  -- route of its bus and id.
  abbrev routed : ℕ → MotorPackMsg → Receiver Mailbox push → List ℕ
  routed bus message s =
      if message.id == 0x7FF
      then live_devices bus s.routes
      else live_device (route_of bus message.id s.routes)

  -- The devices called: for 0x7FF those and the claimant, else the route's or else the claimant.
  abbrev reached : ℕ → MotorPackMsg → Receiver Mailbox push → List ℕ
  reached bus message s =
      if message.id == 0x7FF
      then routed bus message s ++ claimant bus s
      else otherwise (routed bus message s) (claimant bus s)

  -- Whether a frame stays out of the mailbox.
  abbrev is_taken : ℕ → MotorPackMsg → Receiver Mailbox push → Bool
  is_taken bus message s = not (message.id == 0x7FF) && is_nonempty (routed bus message s)

  dispatch_found-second :
      (o : Option (ℕ × ReceiveRoute)) (bus : ℕ) (message : MotorPackMsg) (s : Receiver Mailbox push)
      → All HasRoom s.routes
      → All HasRoom s.claim_routes
      → dispatch_found Mailbox push o bus message s ≡ (
        is_nonempty (live_device (second o)),
        calls_with s message (otherwise (live_device (second o)) (claimant bus s)),
      )
  unfolding dispatch_found second
  dispatch_found-second none bus message s h g =
      ap (λ t. (false, t)) (deliver_to_claim_route-claimant bus message s g)
  dispatch_found-second (some (i, r)) bus message s h g = elim (Bool-cases (is_live r)) [
    | inl yes_ ↦ rw yes_ (
        ap
          (λ (t : Table ReceiveRoute).
            (true, record s { routes = t; calls = s.calls ++ (r.device, message) ∷ [] }))
          (call_route-same i s.routes h))
    | inr no_ ↦ rw no_ (ap (λ t. (false, t)) (deliver_to_claim_route-claimant bus message s g))
  ]

  dispatch_receive-reached :
      (bus : ℕ) (message : MotorPackMsg) (s : Receiver Mailbox push)
      → bus < 2 ^ 32
      → message.id < 2 ^ 32
      → All IsRoute s.routes
      → All HasRoom s.claim_routes
      → dispatch_receive Mailbox push bus message s
        ≡ (is_taken bus message s, calls_with s message (reached bus message s))
  unfolding dispatch_receive dispatch_system
  dispatch_receive-reached bus message s hb hi h g = elim (Bool-cases (message.id == 0x7FF)) [
    | inl system ↦
        let devices = live_devices bus s.routes in
        let called_all : record s {
          routes = end_each (system_places bus s.routes) (begin_system bus s.routes);
          calls = s.calls ++ map (called message) (system_devices bus s.routes);
        }
            ≡ calls_with s message devices =
          ap₂
            (λ (t : Table ReceiveRoute) (l : List ℕ). record s {
              routes = t;
              calls = s.calls ++ map (called message) l;
            })
            (end_each-begin_system bus s.routes (IsRoute-HasRoom s.routes h))
            (system_devices-live bus s.routes hb h) in
        rw system (
          ap (λ t. (false, t))
            (ap (deliver_to_claim_route Mailbox push bus message) called_all
              ∙ deliver_to_claim_route-claimant bus message (calls_with s message devices) g
              ∙ calls_with-calls_with s message devices (claimant bus s)))
    | inr other ↦ rw other (
        dispatch_found-second (find_place (make_receive_unique_id bus message.id) s.routes) bus
          message s (IsRoute-HasRoom s.routes h) g
        ∙ ap
            (λ o. (
              is_nonempty (live_device o),
              calls_with s message (otherwise (live_device o) (claimant bus s)),
            ))
            (find_place-lookup (make_receive_unique_id bus message.id) s.routes
              ∙ lookup-route_of bus message.id s.routes hb hi))
  ]

  is_bus_registered-lookup :
      (bus : ℕ) (s : Receiver Mailbox push)
      → is_bus_registered Mailbox push bus s ≡ is_some (lookup bus s.buses)
  unfolding is_bus_registered
  is_bus_registered-lookup bus s =
      is_found-second (find_place bus s.buses) ∙ ap is_some (find_place-lookup bus s.buses)

  -- The reference for one frame. On a bus that is not registered it is only counted. On another it
  -- calls the devices that it reaches, and is put into the mailbox of the bus unless it is taken.
  abbrev reference_round : MotorMessage → Receiver Mailbox push → Receiver Mailbox push
  reference_round m s =
      if is_some (lookup m.bus_idx s.buses)
      then record s {
        calls = s.calls ++ map (called m.pack) (reached m.bus_idx m.pack s);
        buses =
            if is_taken m.bus_idx m.pack s then s.buses else push_first m.bus_idx m.pack s.buses;
      }
      else record s { unknown_bus_drop_count = u64 (s.unknown_bus_drop_count + 1) }

  abbrev pub reference_run : List MotorMessage → Receiver Mailbox push → Receiver Mailbox push
  reference_run [] s = s
  reference_run (m ∷ ms) s = reference_run ms (reference_round m s)

  abbrev IsMessage : MotorMessage → Type 0
  IsMessage m = (m.bus_idx < 2 ^ 32) × (m.pack.id < 2 ^ 32)

  unless_taken-push_first :
      (taken : Bool) (bus : ℕ) (message : MotorPackMsg) (s t : Receiver Mailbox push)
      → t.buses ≡ s.buses
      → unless_taken Mailbox push bus message (taken, t)
        ≡ record t { buses = if taken then s.buses else push_first bus message s.buses }
  unless_taken-push_first true bus message s t e =
      ap (λ (x : Table Mailbox). record t { buses = x }) e
  unless_taken-push_first false bus message s t e =
      dispatch_unknown_receive-push_first bus message t
      ∙ ap (λ (x : Table Mailbox). record t { buses = push_first bus message x }) e

  receive_message-reference :
      (m : MotorMessage) (s : Receiver Mailbox push)
      → IsMessage m
      → All IsRoute s.routes
      → All HasRoom s.claim_routes
      → receive_message Mailbox push m s ≡ reference_round m s
  unfolding receive_message
  receive_message-reference m s v h g =
      let hit =
        ap (unless_taken Mailbox push m.bus_idx m.pack)
          (dispatch_receive-reached m.bus_idx m.pack s v.0 v.1 h g)
        ∙ unless_taken-push_first (is_taken m.bus_idx m.pack s) m.bus_idx m.pack s
            (calls_with s m.pack (reached m.bus_idx m.pack s)) refl in
      let miss : Receiver Mailbox push = record s {
        unknown_bus_drop_count = u64 (s.unknown_bus_drop_count + 1);
      } in
      ap₂ (λ (b : Bool) (t : Receiver Mailbox push). if b then t else miss)
        (is_bus_registered-lookup m.bus_idx s) hit

  reference_round-routes :
      (m : MotorMessage) (s : Receiver Mailbox push)
      → ((reference_round m s).routes ≡ s.routes)
        × ((reference_round m s).claim_routes ≡ s.claim_routes)
  reference_round-routes m s = elim (Bool-cases (is_some (lookup m.bus_idx s.buses))) [
    | inl yes_ ↦ rw yes_ (refl, refl)
    | inr no_ ↦ rw no_ (refl, refl)
  ]

  receive_each-reference :
      (ms : List MotorMessage) (s : Receiver Mailbox push)
      → All IsMessage ms
      → All IsRoute s.routes
      → All HasRoom s.claim_routes
      → receive_each Mailbox push ms s ≡ reference_run ms s
  unfolding receive_each
  receive_each-reference [] s v h g = refl
  receive_each-reference (m ∷ ms) s v h g =
      let kept = reference_round-routes m s in
      ap (receive_each Mailbox push ms) (receive_message-reference m s v.0 h g)
      ∙ receive_each-reference ms (reference_round m s) v.1
          (subst (λ t. All IsRoute t) (sym kept.0) h) (subst (λ t. All HasRoom t) (sym kept.1) g)

  receive_each-raw :
      (raw : Bool) (ms : List MotorMessage) (s : Receiver Mailbox push)
      → All IsMessage ms
      → All IsRoute s.routes
      → All HasRoom s.claim_routes
      → receive_each Mailbox push ms
          (if raw then record s { raw_calls = s.raw_calls ++ ms ∷ [] } else s)
        ≡ reference_run ms (if raw then record s { raw_calls = s.raw_calls ++ ms ∷ [] } else s)
  receive_each-raw true ms s v h g =
      receive_each-reference ms (record s { raw_calls = s.raw_calls ++ ms ∷ [] }) v h g
  receive_each-raw false ms s v h g = receive_each-reference ms s v h g

  -- For every list of frames and every set of routes with keys of 64 bits and room for a call: the
  -- receive path hands the list to the raw callback if there is one, and then does for each frame
  -- what the reference does. The reference looks up the route by the bus and the id of the frame; a
  -- live route is called and nothing else; without one the frame goes to the live claimant of the
  -- bus and to its mailbox; a frame 0x7FF goes to all live routes of the bus, the claimant and the
  -- mailbox; and frames of unregistered buses are only counted. No route is left in flight.
  pub on_message-reference :
      (ms : List MotorMessage) (s : Receiver Mailbox push)
      → All IsMessage ms
      → All IsRoute s.routes
      → All HasRoom s.claim_routes
      → on_message Mailbox push ms s
        ≡ reference_run ms
            (if s.has_relay_callback then record s { raw_calls = s.raw_calls ++ ms ∷ [] } else s)
  unfolding on_message
  on_message-reference ms s v h g = receive_each-raw s.has_relay_callback ms s v h g
