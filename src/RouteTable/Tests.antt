-- ===== src/RouteTable/Tests.antt =====
-- Two motors and a claimant come to an adapter, and leave it.
use encos_driver.Prelude.{◌≡◌, refl, arith, true, false, List, [], ◌∷◌, some, none}
use encos_driver.RouteTable.{Routes, detach_registration, make_entries, publish_routes}
use encos_driver.Dispatch.{make_receive_unique_id}
use encos_driver.RouteTable.Keys.{KeysUnique, RouteEvent, publishes, detaches, route_run}
use encos_driver.RouteTable.Wanted.{keys_of, wanted_run}
use encos_driver.RouteTable.Exact.{TablesExact, no_routes, route_run-TablesExact}
use encos_driver.RouteTable.RoundTrip.{SameTables, detach_registration-publish_routes}

abbrev empty_routes : Routes
empty_routes = record {
  routes = [];
  claim_routes = [];
  reservations = [];
  registrations = [];
  retiring = [];
  fresh = 0;
}

empty-KeysUnique : KeysUnique empty_routes
empty-KeysUnique = record { routes_unique = tt; claims_unique = tt; registrations_unique = tt }

abbrev with_motor : Routes
with_motor = record empty_routes {
  routes = (5, 0) ∷ (6, 1) ∷ [];
  registrations =
      (
        70,
        record { key = 5; address = 0; claim = false }
            ∷ record { key = 6; address = 1; claim = false }
            ∷ [],
      )
      ∷ [];
  fresh = 2;
}

publish_routes_test : publish_routes 70 0 false (5 ∷ 6 ∷ []) empty_routes ≡ some with_motor
unfolding publish_routes make_entries make_receive_unique_id
publish_routes_test = refl

-- An id that is taken refuses the device.
refused_test : publish_routes 80 0 false (4 ∷ 6 ∷ []) with_motor ≡ none
unfolding publish_routes make_entries make_receive_unique_id
refused_test = refl

abbrev events : List RouteEvent
events =
    publishes 70 0 false (5 ∷ 6 ∷ [])
    ∷ publishes 80 0 true []
    ∷ publishes 90 0 false (6 ∷ [])
    ∷ publishes 100 1 false (6 ∷ 7 ∷ [])
    ∷ detaches 70
    ∷ []

route_run-TablesExact_example :
    (keys_of (route_run events (no_routes [])).registrations ≡ wanted_run events (no_routes []) [])
    × TablesExact (route_run events (no_routes []))
route_run-TablesExact_example =
    route_run-TablesExact events []
      (omega arith, (omega arith, (omega arith, (omega arith, (tt, tt)))))

detach_registration-publish_routes_example :
    SameTables (detach_registration 70 with_motor) empty_routes
detach_registration-publish_routes_example =
    detach_registration-publish_routes 70 0 false (5 ∷ 6 ∷ []) empty_routes with_motor
      empty-KeysUnique (omega arith) publish_routes_test
