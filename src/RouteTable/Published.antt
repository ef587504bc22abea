-- ===== src/RouteTable/Published.antt =====
-- The tables hold exactly the rows of the registrations: publication and detachment of
-- src/driver_manager_impl.h keep it.
use encos_driver.Prelude.{
  ℕ, suc, ◌+◌, ◌^◌, ◌<◌, ◌≡◌, refl, sym, ap, subst, arith, Bool, true, false, Bool-cases, ◌||◌, shr,
  u32, inl, inr, List, [], ◌∷◌, ◌++◌, All, Option, none, some, In, here, there, In-append_left,
  In-append_right,
}
use encos_driver.Dispatch.{Table, make_receive_unique_id}
use encos_driver.RouteTable.{
  RouteEntry, Routes, count_entries, detach_each, detach_registration, device_claim_bus_route_id,
  has_key, make_entries, publish_claim, publish_routes, register_entries, registration_of, rows,
  without_device,
}
use encos_driver.RouteTable.Keys.{
  KeysUnique, Made, Made-nil, make_entries-Made, none-some, some_inj, publish_routes-KeysUnique,
  detach_registration-KeysUnique, without_device-KeysUnique,
}
use encos_driver.RouteTable.RoundTrip.{upper_half}
use encos_driver.RouteTable.Entries.{
  pick, table, index, row, entries_of, Owned, Owned-weaken, In-append, Differ, Apart,
  In-without_device, registration-split, without_device-Apart, registration-Differ,
}
use encos_driver.RouteTable.Detached.{
  In-has_key, detach_each-In, In-detach_each, detach_each-gone, detach_each-registrations,
}

pub record Inv (s : Routes) : Type 0 where
  pub keys : KeysUnique s
  pub published :
      (e : RouteEntry) → In e (entries_of s.registrations) → In (row e) (table e.claim s)
  pub owned : (c : Bool) (r : ℕ × ℕ) → In r (table c s) → Owned c (entries_of s.registrations) r
  pub apart : Apart s.registrations

pub detach_registration-Inv : (device : ℕ) (s : Routes) → Inv s → Inv (detach_registration device s)
unfolding detach_registration
detach_registration-Inv device s v =
    let es = registration_of device s.registrations in
    let left = without_device device s.registrations in
    let start : Routes = record s { registrations = left } in
    let same : (detach_each es start).registrations ≡ left = detach_each-registrations es start in
    record {
      keys = detach_registration-KeysUnique device s v.keys;
      published = λ e m.
          let kept : In e (entries_of left) = subst (λ g. In e (entries_of g)) same m in
          detach_each-In es e.claim start (row e)
            (v.published e (In-without_device device s.registrations e kept))
            (λ f n c k.
              registration-Differ device s.registrations f e v.apart n kept c (ap (λ p. p.0) k));
      owned = λ c r m.
          let o = v.owned c r (In-detach_each es c start r m) in
          subst (λ g. Owned c (entries_of g) r) (sym same)
            (elim (registration-split device s.registrations o.owner o.is_entry) [
              | inl his ↦ absurd (
                  detach_each-gone es start o.owner (without_device-KeysUnique device s v.keys) his
                    (subst (λ b. In (row o.owner) (table b (detach_each es start)))
                      (sym o.same_kind)
                      (subst (λ q. In q (table c (detach_each es start))) (sym o.same_row) m)))
              | inr kept ↦ record {
                owner = o.owner;
                is_entry = kept;
                same_kind = o.same_kind;
                same_row = o.same_row;
              }
            ]);
      apart = subst Apart (sym same) (without_device-Apart device s.registrations v.apart);
    }

-- What the loop has made stands for rows of the route table.
Made-index :
    (s : Routes) (es : List RouteEntry) (e : RouteEntry)
    → All (λ (f : RouteEntry). f.claim ≡ false) es
    → All (λ (f : RouteEntry). has_key f.key s.routes ≡ false) es
    → In e es
    → (e.claim ≡ false) × (has_key (index e) s.routes ≡ false)
Made-index s [] e n k m = elim m [ ]
Made-index s (_ ∷ es) e n k here =
    (n.0, subst (λ c. has_key (pick c e.key (u32 (shr e.key 32))) s.routes ≡ false) (sym n.0) k.0)
Made-index s (_ ∷ es) e n k (there m) = Made-index s es e n.1 k.1 m

In-rows :
    (es : List RouteEntry) (e : RouteEntry)
    → All (λ (f : RouteEntry). f.claim ≡ false) es
    → In e es
    → In (row e) (rows es)
In-rows [] e n m = elim m [ ]
In-rows (_ ∷ es) e n here =
    subst (λ c. In (pick c e.key (u32 (shr e.key 32)), e.address) ((e.key, e.address) ∷ rows es))
      (sym n.0) here
In-rows (_ ∷ es) e n (there m) = there (In-rows es e n.1 m)

rows-Owned :
    (es : List RouteEntry) (r : ℕ × ℕ)
    → All (λ (f : RouteEntry). f.claim ≡ false) es
    → In r (rows es)
    → Owned false es r
rows-Owned [] r n m = elim m [ ]
rows-Owned (e ∷ es) _ n here = record {
  owner = e;
  is_entry = here;
  same_kind = n.0;
  same_row = ap (λ c. (pick c e.key (u32 (shr e.key 32)), e.address)) n.0;
}
rows-Owned (e ∷ es) r n (there m) =
    Owned-weaken false es (e ∷ es) r (λ f k. there k) (rows-Owned es r n.1 m)

In-pick_append :
    (c : Bool) (r : ℕ × ℕ) (t u more : Table ℕ) → In r (pick c t u) → In r (pick c (t ++ more) u)
In-pick_append true r t u more m = m
In-pick_append false r t u more m = In-append_left r t more m

-- A row with a key that is in no row differs from all.
fresh-Differ :
    (s : Routes) (e f : RouteEntry)
    → Inv s
    → has_key (index e) (table e.claim s) ≡ false
    → In f (entries_of s.registrations)
    → Differ e f
fresh-Differ s e f v absent m c k =
    let present = In-has_key (index f) f.address (table f.claim s) (v.published f m) in
    let absent' : has_key (index f) (table f.claim s) ≡ false =
      subst (λ i. has_key i (table f.claim s) ≡ false) k
        (subst (λ b. has_key (index e) (table b s) ≡ false) c absent) in
    absurd cc

-- Entries that are published in the route table.
routes-Inv :
    (device : ℕ) (s : Routes) (es : List RouteEntry)
    → Inv s
    → Made s es
    → KeysUnique (record s {
      registrations = (device, es) ∷ s.registrations;
      routes = s.routes ++ rows es;
      fresh = s.fresh + count_entries es;
    })
    → Inv (record s {
      registrations = (device, es) ∷ s.registrations;
      routes = s.routes ++ rows es;
      fresh = s.fresh + count_entries es;
    })
routes-Inv device s es v made u =
    let old = entries_of s.registrations in
    record {
      keys = u;
      published = λ e m. elim (In-append e es old m) [
        | inl new ↦
            subst (λ c. In (row e) (pick c (s.routes ++ rows es) s.claim_routes))
              (sym (Made-index s es e made.no_claims made.new_keys new).0)
              (In-append_right (row e) s.routes (rows es) (In-rows es e made.no_claims new))
        | inr known ↦
            In-pick_append e.claim (row e) s.routes s.claim_routes (rows es) (v.published e known)
      ];
      owned = routes_owned;
      apart = (
        λ e f m n.
            let (kind, absent) = Made-index s es e made.no_claims made.new_keys m in
            fresh-Differ s e f v
              (subst (λ c. has_key (index e) (table c s) ≡ false) (sym kind) absent) n,
        v.apart,
      );
    }
  where
    routes_owned :
        (c : Bool) (r : ℕ × ℕ)
        → In r (pick c (s.routes ++ rows es) s.claim_routes)
        → Owned c (es ++ entries_of s.registrations) r
    routes_owned true r m =
        Owned-weaken true (entries_of s.registrations) (es ++ entries_of s.registrations) r
          (λ e k. In-append_right e es (entries_of s.registrations) k) (v.owned true r m)
    routes_owned false r m = elim (In-append r s.routes (rows es) m) [
      | inl known ↦
          Owned-weaken false (entries_of s.registrations) (es ++ entries_of s.registrations) r
            (λ e k. In-append_right e es (entries_of s.registrations) k) (v.owned false r known)
      | inr new ↦
          Owned-weaken false es (es ++ entries_of s.registrations) r
            (λ e k. In-append_left e es (entries_of s.registrations) k)
            (rows-Owned es r made.no_claims new)
    ]

register_entries-Inv :
    (device : ℕ) (s t : Routes) (o : Option (List RouteEntry))
    → ((entries : List RouteEntry) → o ≡ some entries → Made s entries)
    → Inv s
    → register_entries device s o ≡ some t
    → KeysUnique t
    → Inv t
register_entries-Inv device s t none k v e u = absurd (none-some t e)
register_entries-Inv device s t (some entries) k v e u =
    elim (Bool-cases (has_key device s.registrations)) [
      | inl known ↦ absurd (none-some t (rw known at e))
      | inr new ↦
          let made : Routes = record s {
            registrations = (device, entries) ∷ s.registrations;
            routes = s.routes ++ rows entries;
            fresh = s.fresh + count_entries entries;
          } in
          let same = some_inj made t (rw new at e) in
          subst Inv same
            (routes-Inv device s entries v (k entries refl) (subst KeysUnique (sym same) u))
    ]

-- The claimant's entry, and the tables with it.
abbrev claim_entry : ℕ → Routes → RouteEntry
claim_entry raw_idx s = record {
  key = make_receive_unique_id raw_idx device_claim_bus_route_id;
  address = s.fresh;
  claim = true;
}

abbrev claimed : ℕ → ℕ → Routes → Routes
claimed device raw_idx s = record s {
  registrations = (device, claim_entry raw_idx s ∷ []) ∷ s.registrations;
  claim_routes = (raw_idx, s.fresh) ∷ s.claim_routes;
  fresh = suc s.fresh;
}

In-pick_cons :
    (c : Bool) (r q : ℕ × ℕ) (t u : Table ℕ) → In r (pick c t u) → In r (pick c t (q ∷ u))
In-pick_cons true r q t u m = there m
In-pick_cons false r q t u m = m

In-one : (e f : RouteEntry) → In e (f ∷ []) → f ≡ e
In-one e _ here = refl
In-one e f (there m) = elim m [ ]

claimed-Owned :
    (raw_idx : ℕ) (s : Routes)
    → raw_idx < 2 ^ 32
    → Inv s
    → (c : Bool) (r : ℕ × ℕ) → In r (pick c s.routes ((raw_idx, s.fresh) ∷ s.claim_routes))
    → Owned c (claim_entry raw_idx s ∷ entries_of s.registrations) r
claimed-Owned raw_idx s h v true _ here = record {
  owner = claim_entry raw_idx s;
  is_entry = here;
  same_kind = refl;
  same_row = ap (λ k. (k, s.fresh)) (upper_half raw_idx h);
}
claimed-Owned raw_idx s h v true r (there m) =
    Owned-weaken true (entries_of s.registrations)
      (claim_entry raw_idx s ∷ entries_of s.registrations) r (λ e k. there k) (v.owned true r m)
claimed-Owned raw_idx s h v false r m =
    Owned-weaken false (entries_of s.registrations)
      (claim_entry raw_idx s ∷ entries_of s.registrations) r (λ e k. there k) (v.owned false r m)

claimed-Inv :
    (device raw_idx : ℕ) (s : Routes)
    → raw_idx < 2 ^ 32
    → Inv s
    → has_key raw_idx s.claim_routes ≡ false
    → KeysUnique (claimed device raw_idx s)
    → Inv (claimed device raw_idx s)
claimed-Inv device raw_idx s h v free u =
    let entry = claim_entry raw_idx s in
    record {
      keys = u;
      published = λ e m. elim (In-append e (entry ∷ []) (entries_of s.registrations) m) [
        | inl new ↦
            subst (λ f. In (row f) (table f.claim (claimed device raw_idx s))) (In-one e entry new)
              (subst (λ k. In (k, s.fresh) ((raw_idx, s.fresh) ∷ s.claim_routes))
                (sym (upper_half raw_idx h)) here)
        | inr known ↦
            In-pick_cons e.claim (row e) (raw_idx, s.fresh) s.routes s.claim_routes
              (v.published e known)
      ];
      owned = claimed-Owned raw_idx s h v;
      apart = (
        λ e f m n.
            subst (λ x. Differ x f) (In-one e entry m)
              (fresh-Differ s entry f v
                (subst (λ k. has_key k s.claim_routes ≡ false) (sym (upper_half raw_idx h)) free)
                n),
        v.apart,
      );
    }

-- A device that is published as the claimant of its bus.
claim-Inv :
    (device raw_idx : ℕ) (s t : Routes)
    → raw_idx < 2 ^ 32
    → Inv s
    → publish_claim device raw_idx s ≡ some t
    → KeysUnique t
    → Inv t
unfolding publish_claim
claim-Inv device raw_idx s t h v e u =
    elim (Bool-cases (has_key raw_idx s.claim_routes || has_key device s.registrations)) [
      | inl taken ↦ absurd (none-some t (rw taken at e))
      | inr free ↦
          let same = some_inj (claimed device raw_idx s) t (rw free at e) in
          subst Inv same
            (claimed-Inv device raw_idx s h v (ground arith) (subst KeysUnique (sym same) u))
    ]

pub publish_routes-Inv :
    (device raw_idx : ℕ) (claims_bus : Bool) (can_ids : List ℕ) (s t : Routes)
    → raw_idx < 2 ^ 32
    → Inv s
    → publish_routes device raw_idx claims_bus can_ids s ≡ some t
    → Inv t
unfolding publish_routes
publish_routes-Inv device raw_idx true can_ids s t h v e =
    claim-Inv device raw_idx s t h v e
      (publish_routes-KeysUnique device raw_idx true can_ids s t e v.keys)
publish_routes-Inv device raw_idx false can_ids s t h v e =
    register_entries-Inv device s t (make_entries raw_idx can_ids s [] s.fresh)
      (λ entries m.
        make_entries-Made raw_idx can_ids s [] entries s.fresh (Made-nil s v.keys.routes_unique) m)
      v e (publish_routes-KeysUnique device raw_idx false can_ids s t e v.keys)
