-- ===== src/RouteTable/RoundTrip.antt =====
-- A device that leaves takes out of the tables what it brought in, and nothing else.
use encos_driver.Prelude.{
  ℕ, suc, ◌+◌, ◌^◌, ◌<◌, ◌≡◌, refl, sym, ap, ap₂, ◌∙◌, subst, arith, Bool, true, false, Bool-cases,
  ◌==◌, ◌||◌, shr, u32, if◌then◌else◌, inl, inr, List, [], ◌∷◌, ◌++◌, append-nil, All, Option, none,
  some,
}
use encos_driver.Dispatch.{Table, make_receive_unique_id}
use encos_driver.Dispatch.Lookup.{make_receive_unique_id-eq}
use encos_driver.RouteTable.{
  RouteEntry, Routes, count_entries, detach_each, detach_entry, detach_registration,
  device_claim_bus_route_id, erase_row, has_key, make_entries, publish_claim, publish_routes,
  register_entries, registration_of, rows, without_device,
}
use encos_driver.RouteTable.Keys.{
  KeysUnique, Made, Made-nil, make_entries-Made, none-some, some_inj,
}

-- The three tables are the same.
pub record SameTables (s t : Routes) : Type 0 where
  pub same_routes : s.routes ≡ t.routes
  pub same_claims : s.claim_routes ≡ t.claim_routes
  pub same_registrations : s.registrations ≡ t.registrations

erase_row-middle :
    (key a : ℕ) (t u : Table ℕ)
    → has_key key t ≡ false
    → erase_row key a (t ++ (key, a) ∷ u) ≡ t ++ u
unfolding erase_row
erase_row-middle key a [] u h =
    let k : (key == key) ≡ true = ground arith in
    let b : (a == a) ≡ true = ground arith in rw (k, b) refl
erase_row-middle key a ((j, b) ∷ t) u h =
    let other : (j == key) ≡ false = ground arith in
    rw other (ap (λ l. (j, b) ∷ l) (erase_row-middle key a t u (ground arith)))

detach_entry-route :
    (e : RouteEntry) (s : Routes)
    → e.claim ≡ false
    → detach_entry e s
      ≡ record s { retiring = e.address ∷ s.retiring; routes = erase_row e.key e.address s.routes }
unfolding detach_entry
detach_entry-route e s h =
    let marked = record s { retiring = e.address ∷ s.retiring } in
    ap
      (λ (b : Bool).
        if b
        then record marked {
          claim_routes = erase_row (u32 (shr e.key 32)) e.address s.claim_routes;
        }
        else record marked { routes = erase_row e.key e.address s.routes })
      h

detach_each-SameTables :
    (es : List RouteEntry) (x s : Routes)
    → x.routes ≡ s.routes ++ rows es
    → x.claim_routes ≡ s.claim_routes
    → x.registrations ≡ s.registrations
    → All (λ (e : RouteEntry). e.claim ≡ false) es
    → All (λ (e : RouteEntry). has_key e.key s.routes ≡ false) es
    → SameTables (detach_each es x) s
unfolding detach_each
detach_each-SameTables [] x s r c g n k = record {
  same_routes = r ∙ append-nil s.routes;
  same_claims = c;
  same_registrations = g;
}
detach_each-SameTables (e ∷ es) x s r c g n k =
    let erased = erase_row-middle e.key e.address s.routes (rows es) k.0 in
    let y : Routes = record x {
      retiring = e.address ∷ x.retiring;
      routes = erase_row e.key e.address x.routes;
    } in
    subst (λ (z : Routes). SameTables (detach_each es z) s) (sym (detach_entry-route e x n.0))
      (detach_each-SameTables es y s (ap (erase_row e.key e.address) r ∙ erased) c g n.1 k.1)

detach_registration-newest :
    (device : ℕ) (es : List RouteEntry) (x : Routes) (t : Table (List RouteEntry))
    → x.registrations ≡ (device, es) ∷ t
    → detach_registration device x ≡ detach_each es (record x { registrations = t })
unfolding detach_registration
detach_registration-newest device es x t e =
    let k : (device == device) ≡ true = ground arith in
    let found : registration_of device ((device, es) ∷ t) ≡ es = rw k refl in
    let left : without_device device ((device, es) ∷ t) ≡ t = rw k refl in
    ap₂
      (λ (l : List RouteEntry) (g : Table (List RouteEntry)).
        detach_each l (record x { registrations = g }))
      (ap (registration_of device) e ∙ found) (ap (without_device device) e ∙ left)

register_entries-SameTables :
    (device : ℕ) (s t : Routes) (o : Option (List RouteEntry))
    → ((entries : List RouteEntry) → o ≡ some entries → Made s entries)
    → register_entries device s o ≡ some t
    → SameTables (detach_registration device t) s
register_entries-SameTables device s t none k e = absurd (none-some t e)
register_entries-SameTables device s t (some entries) k e =
    elim (Bool-cases (has_key device s.registrations)) [
      | inl known ↦ absurd (none-some t (rw known at e))
      | inr new ↦
          let made : Routes = record s {
            registrations = (device, entries) ∷ s.registrations;
            routes = s.routes ++ rows entries;
            fresh = s.fresh + count_entries entries;
          } in
          let m = k entries refl in
          subst (λ (x : Routes). SameTables (detach_registration device x) s)
            (some_inj made t (rw new at e))
            (subst (λ (x : Routes). SameTables x s)
              (sym (detach_registration-newest device entries made s.registrations refl))
              (detach_each-SameTables entries (record made { registrations = s.registrations }) s
                refl refl refl m.no_claims m.new_keys))
    ]

pub upper_half :
    (raw_idx : ℕ)
    → raw_idx < 2 ^ 32
    → u32 (shr (make_receive_unique_id raw_idx device_claim_bus_route_id) 32) ≡ raw_idx
upper_half raw_idx h =
    ap (λ (k : ℕ). u32 (shr k 32))
      (make_receive_unique_id-eq raw_idx device_claim_bus_route_id h (omega arith))
    ∙ omega arith

publish_claim-SameTables :
    (device raw_idx : ℕ) (s t : Routes)
    → raw_idx < 2 ^ 32
    → publish_claim device raw_idx s ≡ some t
    → SameTables (detach_registration device t) s
unfolding publish_claim detach_each detach_entry
publish_claim-SameTables device raw_idx s t h e =
    elim (Bool-cases (has_key raw_idx s.claim_routes || has_key device s.registrations)) [
      | inl taken ↦ absurd (none-some t (rw taken at e))
      | inr free ↦
          let entry : RouteEntry = record {
            key = make_receive_unique_id raw_idx device_claim_bus_route_id;
            address = s.fresh;
            claim = true;
          } in
          let made : Routes = record s {
            registrations = (device, entry ∷ []) ∷ s.registrations;
            claim_routes = (raw_idx, s.fresh) ∷ s.claim_routes;
            fresh = suc s.fresh;
          } in
          subst (λ (x : Routes). SameTables (detach_registration device x) s)
            (some_inj made t (rw free at e))
            (subst (λ (x : Routes). SameTables x s)
              (sym (detach_registration-newest device (entry ∷ []) made s.registrations refl))
              (record {
                same_routes = refl;
                same_claims =
                    ap (λ (k : ℕ). erase_row k s.fresh ((raw_idx, s.fresh) ∷ s.claim_routes))
                      (upper_half raw_idx h)
                    ∙ erase_row-middle raw_idx s.fresh [] s.claim_routes refl;
                same_registrations = refl;
              }))
    ]

-- From tables without double keys: when a device is published, with its ids or as the claimant of
-- its bus, and then detached, the three tables are what they were before.
pub detach_registration-publish_routes :
    (device raw_idx : ℕ) (claims_bus : Bool) (can_ids : List ℕ) (s t : Routes)
    → KeysUnique s
    → raw_idx < 2 ^ 32
    → publish_routes device raw_idx claims_bus can_ids s ≡ some t
    → SameTables (detach_registration device t) s
unfolding publish_routes
detach_registration-publish_routes device raw_idx true can_ids s t u h e =
    publish_claim-SameTables device raw_idx s t h e
detach_registration-publish_routes device raw_idx false can_ids s t u h e =
    register_entries-SameTables device s t (make_entries raw_idx can_ids s [] s.fresh)
      (λ entries m.
        make_entries-Made raw_idx can_ids s [] entries s.fresh (Made-nil s u.routes_unique) m)
      e
