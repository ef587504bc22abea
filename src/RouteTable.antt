-- ===== src/RouteTable.antt =====
-- How devices come into the route domain of an adapter and leave it: `PublishRoutesLocked` and
-- `DetachRegistrationLocked` of src/driver_manager_impl.h, which run under the manager's locks. A
-- record is shared by the registration and a table, and is named by its address.
use encos_driver.Prelude.{
  ℕ, zero, suc, ◌+◌, Bool, true, false, not, ◌==◌, ◌&&◌, ◌||◌, shr, u32, if◌then◌else◌, List, [],
  ◌∷◌, ◌++◌, Option, none, some,
}
use encos_driver.Dispatch.{Table, make_receive_unique_id}
pub mod Keys
pub mod Entries
pub mod Detached
pub mod Published
pub mod Wanted
pub mod Exact
pub mod RoundTrip
mod Tests

-- An entry of `DeviceRegistration::routes`.
pub record RouteEntry : Type 0 where
  pub key : ℕ
  pub address : ℕ
  pub claim : Bool

-- The tables of one adapter, the keys that are reserved for motors, the registrations by device,
-- and the addresses of the records that retire. `fresh` is the address of the next record.
pub record Routes : Type 0 where
  pub routes : Table ℕ
  pub claim_routes : Table ℕ
  pub reservations : List ℕ
  pub registrations : Table (List RouteEntry)
  pub retiring : List ℕ
  pub fresh : ℕ

abbrev pub device_claim_bus_route_id : ℕ
device_claim_bus_route_id = 0xFFFFFFFF

abbrev pub has_key : {A : Type 0} → ℕ → Table A → Bool
has_key key [] = false
has_key key ((k, a) ∷ t) = k == key || has_key key t

abbrev pub is_member : ℕ → List ℕ → Bool
is_member key [] = false
is_member key (k ∷ ks) = k == key || is_member key ks

abbrev pub has_entry : ℕ → List RouteEntry → Bool
has_entry key [] = false
has_entry key (e ∷ es) = e.key == key || has_entry key es

-- The loop over the ids: the entries of the registration, with records from `address` on, after
-- those made before; a key that is taken, reserved or repeated refuses the device.
unfoldable pub make_entries : ℕ → List ℕ → Routes → List RouteEntry → ℕ → Option (List RouteEntry)
make_entries raw_idx [] s made address = some made
make_entries raw_idx (can_id ∷ can_ids) s made address =
    let key = make_receive_unique_id raw_idx can_id in
    let rest =
      make_entries raw_idx can_ids s
        (made ++ record { key = key; address = address; claim = false } ∷ []) (suc address) in
    if has_key key s.routes || is_member key s.reservations || has_entry key made
    then none
    else rest

-- The rows of the route table.
abbrev pub rows : List RouteEntry → Table ℕ
rows [] = []
rows (e ∷ es) = (e.key, e.address) ∷ rows es

abbrev pub count_entries : List RouteEntry → ℕ
count_entries [] = 0
count_entries (e ∷ es) = suc (count_entries es)

abbrev pub register_entries : ℕ → Routes → Option (List RouteEntry) → Option Routes
register_entries device s none = none
register_entries device s (some entries) =
    if has_key device s.registrations
    then none
    else some (record s {
      registrations = (device, entries) ∷ s.registrations;
      routes = s.routes ++ rows entries;
      fresh = s.fresh + count_entries entries;
    })

unfoldable pub publish_claim : ℕ → ℕ → Routes → Option Routes
publish_claim device raw_idx s =
    let entry : RouteEntry = record {
      key = make_receive_unique_id raw_idx device_claim_bus_route_id;
      address = s.fresh;
      claim = true;
    } in
    if has_key raw_idx s.claim_routes || has_key device s.registrations
    then none
    else some (record s {
      registrations = (device, entry ∷ []) ∷ s.registrations;
      claim_routes = (raw_idx, s.fresh) ∷ s.claim_routes;
      fresh = suc s.fresh;
    })

-- `PublishRoutesLocked`; a refusal leaves the tables as they are.
unfoldable pub publish_routes : ℕ → ℕ → Bool → List ℕ → Routes → Option Routes
publish_routes device raw_idx claims_bus can_ids s =
    if claims_bus
    then publish_claim device raw_idx s
    else register_entries device s (make_entries raw_idx can_ids s [] s.fresh)

-- `find` and `erase`, if the row has the record.
unfoldable pub erase_row : ℕ → ℕ → Table ℕ → Table ℕ
erase_row key address [] = []
erase_row key address ((k, a) ∷ t) =
    let rest = erase_row key address t in
    if k == key then (if a == address then t else (k, a) ∷ t) else (k, a) ∷ rest

unfoldable pub detach_entry : RouteEntry → Routes → Routes
detach_entry entry s =
    let marked = record s { retiring = entry.address ∷ s.retiring } in
    if entry.claim
    then record marked {
      claim_routes = erase_row (u32 (shr entry.key 32)) entry.address s.claim_routes;
    }
    else record marked { routes = erase_row entry.key entry.address s.routes }

unfoldable pub detach_each : List RouteEntry → Routes → Routes
detach_each [] s = s
detach_each (e ∷ es) s = detach_each es (detach_entry e s)

abbrev pub registration_of : ℕ → Table (List RouteEntry) → List RouteEntry
registration_of device [] = []
registration_of device ((d, es) ∷ t) = if d == device then es else registration_of device t

abbrev pub without_device : ℕ → Table (List RouteEntry) → Table (List RouteEntry)
without_device device [] = []
without_device device ((d, es) ∷ t) = if d == device then t else (d, es) ∷ without_device device t

-- `DetachRegistrationLocked`.
unfoldable pub detach_registration : ℕ → Routes → Routes
detach_registration device s =
    detach_each (registration_of device s.registrations)
      (record s { registrations = without_device device s.registrations })
