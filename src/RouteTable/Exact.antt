-- ===== src/RouteTable/Exact.antt =====
-- The tables hold exactly the rows of the registrations, for publication and detachment of
-- src/driver_manager_impl.h in any order.
use encos_driver.Prelude.{
  ℕ, ◌^◌, ◌<◌, ◌≡◌, refl, Bool, true, false, List, [], ◌∷◌, All, Option, none, some, In, here,
  there,
}
use encos_driver.Dispatch.Lookup.{lookup}
use encos_driver.RouteTable.{RouteEntry, Routes, publish_routes}
use encos_driver.RouteTable.Keys.{
  RouteEvent, publishes, detaches, unless_refused, route_step, route_run,
}
use encos_driver.RouteTable.Entries.{table, index, entries_of, Owned}
use encos_driver.RouteTable.Detached.{In-lookup, table-Unique}
use encos_driver.RouteTable.Wanted.{keys_of, wanted_run, route_run-keys}
use encos_driver.RouteTable.Published.{Inv, detach_registration-Inv, publish_routes-Inv}

-- Each entry of a registration is what the table of its kind has under its key, and each row of the
-- two tables is that of an entry of a registration.
pub record TablesExact (s : Routes) : Type 0 where
  pub reached :
      All
        (λ (e : RouteEntry). lookup (index e) (table e.claim s) ≡ some e.address)
        (entries_of s.registrations)
  pub routes_owned : All (Owned false (entries_of s.registrations)) s.routes
  pub claims_owned : All (Owned true (entries_of s.registrations)) s.claim_routes

-- Tables before any device has come.
abbrev pub no_routes : List ℕ → Routes
no_routes reservations = record {
  routes = [];
  claim_routes = [];
  reservations = reservations;
  registrations = [];
  retiring = [];
  fresh = 0;
}

-- The index of the bus is a 32-bit number.
abbrev pub IsEvent : RouteEvent → Type 0
IsEvent (publishes device raw_idx claims_bus can_ids) = raw_idx < 2 ^ 32
IsEvent (detaches device) = Unit

no_routes-Inv : (reservations : List ℕ) → Inv (no_routes reservations)
no_routes-Inv reservations = record {
  keys = record { routes_unique = tt; claims_unique = tt; registrations_unique = tt };
  published = λ e m. elim m [ ];
  owned = λ c r m. elim (In-nothing c r m) [ ];
  apart = tt;
}
  where
    In-nothing : (c : Bool) (r : ℕ × ℕ) → ¬ In r (table c (no_routes reservations))
    In-nothing true r m = elim m [ ]
    In-nothing false r m = elim m [ ]

unless_refused-Inv :
    (s : Routes) (o : Option Routes)
    → ((t : Routes) → o ≡ some t → Inv t)
    → Inv s
    → Inv (unless_refused s o)
unless_refused-Inv s none k v = v
unless_refused-Inv s (some t) k v = k t refl

route_step-Inv : (e : RouteEvent) (s : Routes) → IsEvent e → Inv s → Inv (route_step e s)
route_step-Inv (publishes device raw_idx claims_bus can_ids) s h v =
    unless_refused-Inv s (publish_routes device raw_idx claims_bus can_ids s)
      (λ t e. publish_routes-Inv device raw_idx claims_bus can_ids s t h v e) v
route_step-Inv (detaches device) s h v = detach_registration-Inv device s v

route_run-Inv :
    (events : List RouteEvent) (s : Routes) → All IsEvent events → Inv s → Inv (route_run events s)
route_run-Inv [] s h v = v
route_run-Inv (e ∷ es) s h v = route_run-Inv es (route_step e s) h.1 (route_step-Inv e s h.0 v)

All-from {ℓ} : {A : Type 0} (P : A → Type ℓ) (xs : List A) → ((x : A) → In x xs → P x) → All P xs
All-from P [] k = tt
All-from P (x ∷ xs) k = (k x here, All-from P xs (λ y m. k y (there m)))

Inv-TablesExact : (s : Routes) → Inv s → TablesExact s
Inv-TablesExact s v = record {
  reached =
      All-from (λ (e : RouteEntry). lookup (index e) (table e.claim s) ≡ some e.address)
        (entries_of s.registrations)
        (λ e m.
          In-lookup (index e) e.address (table e.claim s) (table-Unique e.claim s v.keys)
            (v.published e m));
  routes_owned =
      All-from (Owned false (entries_of s.registrations)) s.routes (λ r m. v.owned false r m);
  claims_owned =
      All-from (Owned true (entries_of s.registrations)) s.claim_routes (λ r m. v.owned true r m);
}

-- From empty tables, whatever devices come on buses with a 32-bit index and leave, and in whatever
-- order: the registered devices are those that were accepted and have not left, each with an entry
-- for every id that it asked for, or for its bus as the claimant; each of these entries is the one
-- that the tables have under its key; and no row is left that is not an entry of a registered
-- device.
pub route_run-TablesExact :
    (events : List RouteEvent) (reservations : List ℕ)
    → All IsEvent events
    → (keys_of (route_run events (no_routes reservations)).registrations
        ≡ wanted_run events (no_routes reservations) [])
      × TablesExact (route_run events (no_routes reservations))
route_run-TablesExact events reservations h = (
  route_run-keys events (no_routes reservations),
  Inv-TablesExact (route_run events (no_routes reservations))
      (route_run-Inv events (no_routes reservations) h (no_routes-Inv reservations)),
)
