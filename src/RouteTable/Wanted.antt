-- ===== src/RouteTable/Wanted.antt =====
-- The keys that the devices asked for, and those of their registrations in src/driver_manager_impl.h.
use encos_driver.Prelude.{
  ℕ, suc, ◌≡◌, refl, sym, ap, ◌∙◌, Bool, true, false, Bool-cases, ◌==◌, ◌||◌, if◌then◌else◌, inl,
  inr, List, [], ◌∷◌, ◌++◌, map, append-nil, append_assoc, Option, none, some,
}
use encos_driver.Dispatch.{Table, make_receive_unique_id}
use encos_driver.RouteTable.{
  RouteEntry, Routes, detach_registration, device_claim_bus_route_id, has_entry, has_key, is_member,
  make_entries, publish_claim, publish_routes, register_entries, registration_of, without_device,
}
use encos_driver.RouteTable.Keys.{
  none-some, RouteEvent, publishes, detaches, unless_refused, route_step, route_run,
}
use encos_driver.RouteTable.Detached.{detach_each-registrations}

-- The keys that a device asks for: that of each id, or the claimant's.
abbrev pub wanted_keys : ℕ → Bool → List ℕ → List ℕ
wanted_keys raw_idx true can_ids = make_receive_unique_id raw_idx device_claim_bus_route_id ∷ []
wanted_keys raw_idx false can_ids = map (make_receive_unique_id raw_idx) can_ids

abbrev pub remove : ℕ → Table (List ℕ) → Table (List ℕ)
remove device [] = []
remove device ((d, ks) ∷ t) = if d == device then t else (d, ks) ∷ remove device t

abbrev pub wanted_after : ℕ → List ℕ → Table (List ℕ) → Option Routes → Table (List ℕ)
wanted_after device ks w none = w
wanted_after device ks w (some t) = (device, ks) ∷ w

-- The devices that were accepted and have not left, each with the keys that it asked for.
abbrev pub wanted_step : RouteEvent → Routes → Table (List ℕ) → Table (List ℕ)
wanted_step (publishes device raw_idx claims_bus can_ids) s w =
    wanted_after device (wanted_keys raw_idx claims_bus can_ids) w
      (publish_routes device raw_idx claims_bus can_ids s)
wanted_step (detaches device) s w = remove device w

abbrev pub wanted_run : List RouteEvent → Routes → Table (List ℕ) → Table (List ℕ)
wanted_run [] s w = w
wanted_run (e ∷ es) s w = wanted_run es (route_step e s) (wanted_step e s w)

-- The devices that are registered, each with the keys of its entries.
abbrev pub keys_of : Table (List RouteEntry) → Table (List ℕ)
keys_of [] = []
keys_of ((d, es) ∷ t) = (d, map (λ (e : RouteEntry). e.key) es) ∷ keys_of t

keys_of-without_device :
    (device : ℕ) (t : Table (List RouteEntry))
    → keys_of (without_device device t) ≡ remove device (keys_of t)
keys_of-without_device device [] = refl
keys_of-without_device device ((d, es) ∷ t) = elim (Bool-cases (d == device)) [
  | inl yes_ ↦ rw yes_ refl
  | inr no_ ↦
      rw no_
        (ap (λ w. (d, map (λ (e : RouteEntry). e.key) es) ∷ w) (keys_of-without_device device t))
]

keys-append :
    (es fs : List RouteEntry)
    → map (λ (e : RouteEntry). e.key) (es ++ fs)
      ≡ map (λ (e : RouteEntry). e.key) es ++ map (λ (e : RouteEntry). e.key) fs
keys-append [] fs = refl
keys-append (e ∷ es) fs = ap (λ ks. e.key ∷ ks) (keys-append es fs)

make_entries-keys :
    (raw_idx : ℕ) (can_ids : List ℕ) (s : Routes) (made entries : List RouteEntry) (address : ℕ)
    → make_entries raw_idx can_ids s made address ≡ some entries
    → map (λ (e : RouteEntry). e.key) entries
      ≡ map (λ (e : RouteEntry). e.key) made ++ map (make_receive_unique_id raw_idx) can_ids
unfolding make_entries
make_entries-keys raw_idx [] s made entries address h =
    let same : entries ≡ made = cc in
    ap (map (λ (e : RouteEntry). e.key)) same
    ∙ sym (append-nil (map (λ (e : RouteEntry). e.key) made))
make_entries-keys raw_idx (c ∷ cs) s made entries address h =
    let key = make_receive_unique_id raw_idx c in
    let entry : RouteEntry = record { key = key; address = address; claim = false } in
    elim (Bool-cases (has_key key s.routes || is_member key s.reservations || has_entry key made)) [
      | inl taken ↦ absurd (none-some entries (rw taken at h))
      | inr free ↦
          make_entries-keys raw_idx cs s (made ++ entry ∷ []) entries (suc address) (rw free at h)
          ∙ ap (λ ks. ks ++ map (make_receive_unique_id raw_idx) cs) (keys-append made (entry ∷ []))
          ∙ append_assoc (map (λ (e : RouteEntry). e.key) made) (key ∷ [])
              (map (make_receive_unique_id raw_idx) cs)
    ]

abbrev registrations_of : Routes → Option Routes → Table (List RouteEntry)
registrations_of s none = s.registrations
registrations_of s (some t) = t.registrations

register_entries-keys :
    (device : ℕ) (s t : Routes) (ks : List ℕ) (o : Option (List RouteEntry))
    → ((es : List RouteEntry) → o ≡ some es → map (λ (e : RouteEntry). e.key) es ≡ ks)
    → register_entries device s o ≡ some t
    → keys_of t.registrations ≡ (device, ks) ∷ keys_of s.registrations
register_entries-keys device s t ks none k h = absurd (none-some t h)
register_entries-keys device s t ks (some es) k h =
    elim (Bool-cases (has_key device s.registrations)) [
      | inl known ↦ absurd (none-some t (rw known at h))
      | inr new ↦
          let same : t.registrations ≡ (device, es) ∷ s.registrations =
            ap (registrations_of s) (sym (rw new at h)) in
          ap keys_of same ∙ ap (λ l. (device, l) ∷ keys_of s.registrations) (k es refl)
    ]

publish_claim-keys :
    (device raw_idx : ℕ) (s t : Routes)
    → publish_claim device raw_idx s ≡ some t
    → keys_of t.registrations
      ≡ (device, make_receive_unique_id raw_idx device_claim_bus_route_id ∷ [])
        ∷ keys_of s.registrations
unfolding publish_claim
publish_claim-keys device raw_idx s t h =
    elim (Bool-cases (has_key raw_idx s.claim_routes || has_key device s.registrations)) [
      | inl taken ↦ absurd (none-some t (rw taken at h))
      | inr free ↦ ap (λ o. keys_of (registrations_of s o)) (sym (rw free at h))
    ]

publish_routes-keys :
    (device raw_idx : ℕ) (claims_bus : Bool) (can_ids : List ℕ) (s t : Routes)
    → publish_routes device raw_idx claims_bus can_ids s ≡ some t
    → keys_of t.registrations
      ≡ (device, wanted_keys raw_idx claims_bus can_ids) ∷ keys_of s.registrations
unfolding publish_routes
publish_routes-keys device raw_idx true can_ids s t h = publish_claim-keys device raw_idx s t h
publish_routes-keys device raw_idx false can_ids s t h =
    register_entries-keys device s t (wanted_keys raw_idx false can_ids)
      (make_entries raw_idx can_ids s [] s.fresh)
      (λ es e. make_entries-keys raw_idx can_ids s [] es s.fresh e) h

unless_refused-keys :
    (device : ℕ) (ks : List ℕ) (s : Routes) (o : Option Routes)
    → ((t : Routes) → o ≡ some t → keys_of t.registrations ≡ (device, ks) ∷ keys_of s.registrations)
    → keys_of (unless_refused s o).registrations
      ≡ wanted_after device ks (keys_of s.registrations) o
unless_refused-keys device ks s none k = refl
unless_refused-keys device ks s (some t) k = k t refl

route_step-keys :
    (e : RouteEvent) (s : Routes)
    → keys_of (route_step e s).registrations ≡ wanted_step e s (keys_of s.registrations)
unfolding detach_registration
route_step-keys (publishes device raw_idx claims_bus can_ids) s =
    unless_refused-keys device (wanted_keys raw_idx claims_bus can_ids) s
      (publish_routes device raw_idx claims_bus can_ids s)
      (λ t h. publish_routes-keys device raw_idx claims_bus can_ids s t h)
route_step-keys (detaches device) s =
    ap keys_of (
      detach_each-registrations (registration_of device s.registrations)
        (record s { registrations = without_device device s.registrations }))
    ∙ keys_of-without_device device s.registrations

pub route_run-keys :
    (events : List RouteEvent) (s : Routes)
    → keys_of (route_run events s).registrations ≡ wanted_run events s (keys_of s.registrations)
route_run-keys [] s = refl
route_run-keys (e ∷ es) s =
    route_run-keys es (route_step e s) ∙ ap (wanted_run es (route_step e s)) (route_step-keys e s)
