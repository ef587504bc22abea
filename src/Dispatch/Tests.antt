-- ===== src/Dispatch/Tests.antt =====
-- The receive path on two buses with two motors, a claimant and a raw callback.
use encos_driver.Prelude.{ℕ, ◌+◌, ◌^◌, ◌≡◌, refl, arith, true, false, List, [], ◌∷◌, ◌++◌}
use encos_driver.Frame.{MotorPackMsg, MotorMessage}
use encos_driver.Dispatch.{
  Receiver, ReceiveRoute, call_route, claim_found, deliver_to_claim_route, dispatch_found,
  dispatch_receive, dispatch_system, dispatch_unknown_receive, find_place, is_bus_registered,
  make_receive_unique_id, on_message, receive_each, receive_message, system_devices, system_places,
  begin_system, end_each, begin_call, end_call,
}
use encos_driver.Dispatch.Reference.{reference_run, on_message-reference}

abbrev Received : Type 0
Received = List MotorPackMsg

abbrev keep : MotorPackMsg → Received → Received
keep message received = message ∷ received

abbrev route : ℕ → ReceiveRoute
route device = record { device = device; has_callback = true; retiring = false; in_flight = 0 }

abbrev two_motors : Receiver Received keep
two_motors = record {
  routes = (2 ^ 32 + 4, route 100) ∷ (4, route 200) ∷ [];
  claim_routes = (1, route 300) ∷ [];
  buses = (0, []) ∷ (1, []) ∷ [];
  unknown_bus_drop_count = 0;
  has_relay_callback = true;
  raw_calls = [];
  calls = [];
}

abbrev frame : ℕ → MotorPackMsg
frame id = record { id = id; frame_flags = 0; len = 0; payload = [] }

-- For the motor on bus 1, for nobody there, for all there, and for a bus that is not registered.
abbrev frames : List MotorMessage
frames =
    record { bus_idx = 1; pack = frame 4 }
    ∷ record { bus_idx = 1; pack = frame 5 }
    ∷ record { bus_idx = 1; pack = frame 0x7FF }
    ∷ record { bus_idx = 7; pack = frame 4 }
    ∷ []

on_message-reference_example :
    on_message Received keep frames two_motors
    ≡ reference_run Received keep frames (record two_motors { raw_calls = [] ++ frames ∷ [] })
on_message-reference_example =
    on_message-reference Received keep frames two_motors
      (
        (omega arith, omega arith),
        (
          (omega arith, omega arith),
          ((omega arith, omega arith), ((omega arith, omega arith), tt)),
        ),
      )
      ((omega arith, omega arith), ((omega arith, omega arith), tt)) (omega arith, tt)

calls_test :
    (on_message Received keep frames two_motors).calls
    ≡ (100, frame 4) ∷ (300, frame 5) ∷ (100, frame 0x7FF) ∷ (300, frame 0x7FF) ∷ []
unfolding on_message receive_each receive_message is_bus_registered dispatch_receive dispatch_found
    dispatch_system deliver_to_claim_route claim_found dispatch_unknown_receive find_place
    make_receive_unique_id system_devices system_places begin_system end_each call_route begin_call
    end_call
calls_test = refl
