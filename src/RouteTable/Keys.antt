-- ===== src/RouteTable/Keys.antt =====
-- No key stands twice in the tables.
use encos_driver.Prelude.{
  ℕ, suc, shr, u32, ◌+◌, ◌≡◌, refl, sym, ap, ◌∙◌, subst, arith, Bool, true, false, Bool-cases, ◌==◌,
  ◌||◌, inl, inr, List, [], ◌∷◌, ◌++◌, append-nil, append_assoc, All, Option, none, some,
}
use encos_driver.Dispatch.{Table, make_receive_unique_id}
use encos_driver.RouteTable.{
  RouteEntry, Routes, count_entries, device_claim_bus_route_id, detach_each, detach_entry,
  detach_registration, erase_row, has_entry, has_key, is_member, make_entries, publish_claim,
  publish_routes, register_entries, registration_of, rows, without_device,
}

abbrev pub Unique : {A : Type 0} → Table A → Type 0
Unique [] = Unit
Unique ((k, a) ∷ t) = (has_key k t ≡ false) × Unique t

has_key-append : (key : ℕ) (t u : Table ℕ) → has_key key (t ++ u) ≡ (has_key key t || has_key key u)
has_key-append key [] u = refl
has_key-append key ((k, a) ∷ t) u = ground (arith, has_key-append key t u)

has_key-rows : (key : ℕ) (es : List RouteEntry) → has_key key (rows es) ≡ has_entry key es
has_key-rows key [] = refl
has_key-rows key (e ∷ es) = ap (λ b. e.key == key || b) (has_key-rows key es)

Unique-last :
    (t : Table ℕ) (key a : ℕ) → Unique t → has_key key t ≡ false → Unique (t ++ (key, a) ∷ [])
Unique-last [] key a u n = (refl, tt)
Unique-last ((k, b) ∷ t) key a u n =
    (ground (arith, has_key-append k t ((key, a) ∷ [])), Unique-last t key a u.1 (ground arith))

rows-append : (es fs : List RouteEntry) → rows (es ++ fs) ≡ rows es ++ rows fs
rows-append [] fs = refl
rows-append (e ∷ es) fs = ap (λ t. (e.key, e.address) ∷ t) (rows-append es fs)

-- What the loop has made is no claim, and its keys are new.
pub record Made (s : Routes) (made : List RouteEntry) : Type 0 where
  pub unique : Unique (s.routes ++ rows made)
  pub no_claims : All (λ (e : RouteEntry). e.claim ≡ false) made
  pub new_keys : All (λ (e : RouteEntry). has_key e.key s.routes ≡ false) made

All-last :
    (P : RouteEntry → Type 0) (es : List RouteEntry) (e : RouteEntry)
    → All P es
    → P e
    → All P (es ++ e ∷ [])
All-last P [] e h p = (p, tt)
All-last P (x ∷ xs) e h p = (h.0, All-last P xs e h.1 p)

Made-last :
    (s : Routes) (made : List RouteEntry) (key a : ℕ)
    → Made s made
    → (has_key key s.routes || is_member key s.reservations || has_entry key made) ≡ false
    → Made s (made ++ record { key = key; address = a; claim = false } ∷ [])
Made-last s made key a h n =
    let e : RouteEntry = record { key = key; address = a; claim = false } in
    let absent : has_key key (s.routes ++ rows made) ≡ false =
      ground (arith, has_key-append key s.routes (rows made), has_key-rows key made) in
    record {
      unique =
          subst (λ t. Unique t)
            (append_assoc s.routes (rows made) ((key, a) ∷ [])
              ∙ ap (λ t. s.routes ++ t) (sym (rows-append made (e ∷ []))))
            (Unique-last (s.routes ++ rows made) key a h.unique absent);
      no_claims = All-last (λ (x : RouteEntry). x.claim ≡ false) made e h.no_claims refl;
      new_keys =
          All-last (λ (x : RouteEntry). has_key x.key s.routes ≡ false) made e h.new_keys
            (ground arith);
    }

pub none-some : {A : Type 0} (a : A) → ¬ (none ≡ some a)
none-some a h = absurd cc

pub some_inj : {A : Type 0} (a b : A) → some a ≡ some b → a ≡ b
some_inj a b h = cc

pub make_entries-Made :
    (raw_idx : ℕ) (can_ids : List ℕ) (s : Routes) (made entries : List RouteEntry) (address : ℕ)
    → Made s made
    → make_entries raw_idx can_ids s made address ≡ some entries
    → Made s entries
unfolding make_entries
make_entries-Made raw_idx [] s made entries address h e =
    let same : made ≡ entries = cc in subst (Made s) same h
make_entries-Made raw_idx (c ∷ cs) s made entries address h e =
    let key = make_receive_unique_id raw_idx c in
    elim (Bool-cases (has_key key s.routes || is_member key s.reservations || has_entry key made)) [
      | inl taken ↦ absurd (none-some entries (rw taken at e))
      | inr free ↦
          make_entries-Made raw_idx cs s
            (made ++ record { key = key; address = address; claim = false } ∷ []) entries
            (suc address) (Made-last s made key address h free) (rw free at e)
    ]

has_key-erase_row :
    (k key a : ℕ) (t : Table ℕ) → has_key k t ≡ false → has_key k (erase_row key a t) ≡ false
unfolding erase_row
has_key-erase_row k key a [] h = refl
has_key-erase_row k key a ((j, b) ∷ t) h = ground (arith, has_key-erase_row k key a t)

pub erase_row-Unique : (key a : ℕ) (t : Table ℕ) → Unique t → Unique (erase_row key a t)
unfolding erase_row
erase_row-Unique key a [] u = tt
erase_row-Unique key a ((j, b) ∷ t) u = elim (Bool-cases (j == key)) [
  | inl yes_ ↦ elim (Bool-cases (b == a)) [
    | inl same ↦ rw (yes_, same) u.1
    | inr other ↦ rw (yes_, other) u
  ]
  | inr no_ ↦ rw no_ (has_key-erase_row j key a t u.0, erase_row-Unique key a t u.1)
]

has_key-without_device :
    (k device : ℕ) (t : Table (List RouteEntry))
    → has_key k t ≡ false
    → has_key k (without_device device t) ≡ false
has_key-without_device k device [] h = refl
has_key-without_device k device ((d, es) ∷ t) h = ground (arith, has_key-without_device k device t)

without_device-Unique :
    (device : ℕ) (t : Table (List RouteEntry)) → Unique t → Unique (without_device device t)
without_device-Unique device [] u = tt
without_device-Unique device ((d, es) ∷ t) u = elim (Bool-cases (d == device)) [
  | inl yes_ ↦ rw yes_ u.1
  | inr no_ ↦ rw no_ (has_key-without_device d device t u.0, without_device-Unique device t u.1)
]

-- No key stands twice in any of the three tables.
pub record KeysUnique (s : Routes) : Type 0 where
  pub routes_unique : Unique s.routes
  pub claims_unique : Unique s.claim_routes
  pub registrations_unique : Unique s.registrations

pub Made-nil : (s : Routes) → Unique s.routes → Made s []
Made-nil s u = record {
  unique = subst (λ (t : Table ℕ). Unique t) (sym (append-nil s.routes)) u;
  no_claims = tt;
  new_keys = tt;
}

register_entries-KeysUnique :
    (device : ℕ) (s t : Routes) (o : Option (List RouteEntry))
    → ((entries : List RouteEntry) → o ≡ some entries → Made s entries)
    → register_entries device s o ≡ some t
    → KeysUnique s
    → KeysUnique t
register_entries-KeysUnique device s t none k e u = absurd (none-some t e)
register_entries-KeysUnique device s t (some entries) k e u =
    elim (Bool-cases (has_key device s.registrations)) [
      | inl known ↦ absurd (none-some t (rw known at e))
      | inr new ↦
          let made : Routes = record s {
            registrations = (device, entries) ∷ s.registrations;
            routes = s.routes ++ rows entries;
            fresh = s.fresh + count_entries entries;
          } in
          subst KeysUnique (some_inj made t (rw new at e)) (record {
            routes_unique = (k entries refl).unique;
            claims_unique = u.claims_unique;
            registrations_unique = (new, u.registrations_unique);
          })
    ]

publish_claim-KeysUnique :
    (device raw_idx : ℕ) (s t : Routes)
    → publish_claim device raw_idx s ≡ some t
    → KeysUnique s
    → KeysUnique t
unfolding publish_claim
publish_claim-KeysUnique device raw_idx s t e u =
    elim (Bool-cases (has_key raw_idx s.claim_routes || has_key device s.registrations)) [
      | inl taken ↦ absurd (none-some t (rw taken at e))
      | inr free ↦
          let entry : RouteEntry = record {
            key = make_receive_unique_id raw_idx device_claim_bus_route_id;
            address = s.fresh;
            claim = true;
          } in
          let made : Routes = record s {
            registrations = (device, entry ∷ []) ∷ s.registrations;
            claim_routes = (raw_idx, s.fresh) ∷ s.claim_routes;
            fresh = suc s.fresh;
          } in
          subst KeysUnique (some_inj made t (rw free at e)) (record {
            routes_unique = u.routes_unique;
            claims_unique = (ground arith, u.claims_unique);
            registrations_unique = (ground arith, u.registrations_unique);
          })
    ]

pub publish_routes-KeysUnique :
    (device raw_idx : ℕ) (claims_bus : Bool) (can_ids : List ℕ) (s t : Routes)
    → publish_routes device raw_idx claims_bus can_ids s ≡ some t
    → KeysUnique s
    → KeysUnique t
unfolding publish_routes
publish_routes-KeysUnique device raw_idx true can_ids s t e u =
    publish_claim-KeysUnique device raw_idx s t e u
publish_routes-KeysUnique device raw_idx false can_ids s t e u =
    register_entries-KeysUnique device s t (make_entries raw_idx can_ids s [] s.fresh)
      (λ entries m.
        make_entries-Made raw_idx can_ids s [] entries s.fresh (Made-nil s u.routes_unique) m)
      e u

pub detach_entry-KeysUnique :
    (e : RouteEntry) (s : Routes) → KeysUnique s → KeysUnique (detach_entry e s)
unfolding detach_entry
detach_entry-KeysUnique e s u = elim (Bool-cases e.claim) [
  | inl yes_ ↦ rw yes_ (record {
    routes_unique = u.routes_unique;
    claims_unique = erase_row-Unique (u32 (shr e.key 32)) e.address s.claim_routes u.claims_unique;
    registrations_unique = u.registrations_unique;
  })
  | inr no_ ↦ rw no_ (record {
    routes_unique = erase_row-Unique e.key e.address s.routes u.routes_unique;
    claims_unique = u.claims_unique;
    registrations_unique = u.registrations_unique;
  })
]

detach_each-KeysUnique :
    (es : List RouteEntry) (s : Routes) → KeysUnique s → KeysUnique (detach_each es s)
unfolding detach_each
detach_each-KeysUnique [] s u = u
detach_each-KeysUnique (e ∷ es) s u =
    detach_each-KeysUnique es (detach_entry e s) (detach_entry-KeysUnique e s u)

pub without_device-KeysUnique :
    (device : ℕ) (s : Routes)
    → KeysUnique s
    → KeysUnique (record s { registrations = without_device device s.registrations })
without_device-KeysUnique device s u = record {
  routes_unique = u.routes_unique;
  claims_unique = u.claims_unique;
  registrations_unique = without_device-Unique device s.registrations u.registrations_unique;
}

pub detach_registration-KeysUnique :
    (device : ℕ) (s : Routes) → KeysUnique s → KeysUnique (detach_registration device s)
unfolding detach_registration
detach_registration-KeysUnique device s u =
    detach_each-KeysUnique (registration_of device s.registrations)
      (record s { registrations = without_device device s.registrations })
      (without_device-KeysUnique device s u)

-- A device that comes, on a bus and with its ids or as the claimant, or one that leaves.
pub data RouteEvent : Type 0 where
  publishes : ℕ → ℕ → Bool → List ℕ → RouteEvent
  detaches : ℕ → RouteEvent

abbrev pub unless_refused : Routes → Option Routes → Routes
unless_refused s none = s
unless_refused s (some t) = t

abbrev pub route_step : RouteEvent → Routes → Routes
route_step (publishes device raw_idx claims_bus can_ids) s =
    unless_refused s (publish_routes device raw_idx claims_bus can_ids s)
route_step (detaches device) s = detach_registration device s

abbrev pub route_run : List RouteEvent → Routes → Routes
route_run [] s = s
route_run (e ∷ es) s = route_run es (route_step e s)
