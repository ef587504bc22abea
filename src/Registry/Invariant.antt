-- ===== src/Registry/Invariant.antt =====
-- The invariant of the registry (src/operation_gate.h) and its preservation by every operation.
use encos_driver.Prelude.{
  In-append_last, ℕ, suc, ◌+◌, ◌<◌, ◌≡◌, refl, ap, sym, subst, Bool, true, false, ◌&&◌, some, List,
  [], ◌∷◌, ◌++◌, In, here, there, arith, Option-cases, Bool-cases, ◌⊎◌, inl, inr,
}
use encos_driver.Gate
use encos_driver.Registry.Table.{Ref, is_key, find}
use encos_driver.Registry.Map.{lookup, Distinct, find-build}
use encos_driver.Registry.Entries.{
  Sub, In-Sub, Unique, Unique-Sub, entry_at-In, refs_of-with_gate, registered_refs-with_gate,
  Sub-refl, entry_at_sound,
}
use encos_driver.Registry.Effects.{
  Quiet, Quiet-with_gate, Quiet-append, Quiet-without, Quiet-retire, Quiet-mark, refs_of-append,
  registered-Sub, registered_refs-without, refs_of-without, refs_of-retire, registered-retire,
  refs_of-mark, registered_refs-mark, is_wanted,
}
use encos_driver.Registry.Newest.{
  Newest, Newest-Distinct, Newest-append, Newest-with_gate, Newest-without, Newest-mark,
  Newest-retire,
}
use encos_driver.Registry.{
  Entry, Registry, refs_of, registered_refs, new_registry, publish_snapshot, without_reclaimable,
  erase_reclaimable, has_registered, register, entry_at, admits, with_gate, try_enter, leave,
  retire_newest, retire, mark_reclaimable, reclaim_retired,
}

-- `shown` are the pointers of the current snapshot.
pub record Valid (r : Registry) : Type 0 where
  pub shown : List Ref
  pub unique : Unique (refs_of r.entries)
  pub bounded : (x : Ref) → In x (refs_of r.entries) → x.id < r.next_id
  pub newest : Newest r.entries
  pub quiet : Quiet r.entries
  pub finds : (object kind : ℕ) → find r.current object kind ≡ lookup object kind shown
  pub distinct : Distinct shown
  pub alive : (x : Ref) → In x shown → In x (refs_of r.entries)
  pub shows : (x : Ref) → In x (registered_refs r.entries) → In x shown

pub new_registry-Valid : Valid new_registry
new_registry-Valid = record {
  shown = [];
  unique = tt;
  bounded = λ x m. elim m [ ];
  newest = tt;
  quiet = tt;
  finds = λ o k. find-build [] o k tt;
  distinct = tt;
  alive = λ x m. m;
  shows = λ x m. m;
}

-- Entries changed in place.
changed-Valid :
    (r : Registry) (es : List Entry)
    → Valid r
    → refs_of es ≡ refs_of r.entries
    → Sub (registered_refs es) (registered_refs r.entries)
    → Newest es
    → Quiet es
    → Valid (record r { entries = es })
changed-Valid r es v same sub n q = record {
  shown = v.shown;
  unique = subst Unique (sym same) v.unique;
  bounded = λ x m. v.bounded x (subst (In x) same m);
  newest = n;
  quiet = q;
  finds = v.finds;
  distinct = v.distinct;
  alive = λ x m. subst (In x) (sym same) (v.alive x m);
  shows = λ x m. v.shows x (In-Sub x sub m);
}

-- `PublishSnapshot`, then `EraseReclaimableEntries`.
published-Valid :
    (r : Registry)
    → Unique (refs_of r.entries)
    → ((x : Ref) → In x (refs_of r.entries) → x.id < r.next_id)
    → Newest r.entries
    → Quiet r.entries
    → Valid (erase_reclaimable (publish_snapshot r))
published-Valid r u b n q =
    let same = registered_refs-without r.entries q in
    record {
      shown = registered_refs r.entries;
      unique = Unique-Sub (refs_of-without r.entries) u;
      bounded = λ x m. b x (In-Sub x (refs_of-without r.entries) m);
      newest = Newest-without r.entries n;
      quiet = Quiet-without r.entries q;
      finds = λ o k. find-build (registered_refs r.entries) o k (Newest-Distinct r.entries n);
      distinct = Newest-Distinct r.entries n;
      alive = λ x m.
          In-Sub x (registered-Sub (without_reclaimable r.entries)) (subst (In x) (sym same) m);
      shows = λ x m. subst (In x) same m;
    }

Unique-append :
    (rs : List Ref) (r : Ref)
    → Unique rs
    → ((x : Ref) → In x rs → x.id < r.id)
    → Unique (rs ++ r ∷ [])
Unique-append [] r u b = ((λ x m. elim m [ ]), tt)
Unique-append (y ∷ rs) r (u, us) b = (
  (λ x m. elim (In-append_last x r rs m) [
    | inl old ↦ u x old
    | inr new ↦ λ same. omega (arith, b y here, ap (λ (t : Ref). t.id) new)
  ]),
  Unique-append rs r us (λ x m. b x (there m)),
)

pub is_key-own :
    (id object kind : ℕ)
    → is_key object kind (record { id = id; object = object; kind = kind }) ≡ true
unfolding is_key
is_key-own id object kind = ground arith

pub register-Valid :
    (allocates : Bool) (r : Registry) (object kind : ℕ) (r' : Registry) (id : ℕ)
    → Valid r
    → register allocates r object kind ≡ some (r', id)
    → Valid r'
unfolding register
register-Valid allocates r object kind r' id v done =
    let fresh : Ref = record { id = r.next_id; object = object; kind = kind } in
    let entry : Entry = record { ref = fresh; gate = 0; registered = true; reclaimable = false } in
    let pushed : Registry = record {
      entries = r.entries ++ entry ∷ [];
      current = r.current;
      next_id = suc r.next_id;
    } in
    let free : has_registered object kind r.entries ≡ false = ground arith in
    let grown = refs_of-append r.entries entry in
    let made : Valid (erase_reclaimable (publish_snapshot pushed)) =
      published-Valid pushed
        (subst Unique (sym grown) (Unique-append (refs_of r.entries) fresh v.unique v.bounded))
        (λ x m. elim (In-append_last x fresh (refs_of r.entries) (subst (In x) grown m)) [
          | inl old ↦ omega (arith, v.bounded x old)
          | inr new ↦ omega (arith, ap (λ (t : Ref). t.id) new)
        ])
        (Newest-append object kind r.entries entry free (is_key-own r.next_id object kind) v.newest)
        (Quiet-append r.entries entry v.quiet refl) in
    subst Valid (ground arith) made

-- The word of one gate changed.
pub Quiet-entry :
    (es : List Entry) (e : Entry) → Quiet es → In e es → (e.reclaimable && is_wanted e) ≡ false
Quiet-entry [] e q m = elim m [ ]
Quiet-entry (x ∷ es) _ (q, qs) here = q
Quiet-entry (x ∷ es) e (q, qs) (there m) = Quiet-entry es e qs m

gate-Valid :
    (r : Registry) (id word : ℕ) (e : Entry)
    → Valid r
    → entry_at id r.entries ≡ some e
    → is_wanted e ≡ true
    → Valid (record r { entries = with_gate id word r.entries })
gate-Valid r id word e v at wanted =
    let (member, key) = entry_at_sound id r.entries e at in
    let quiet = Quiet-entry r.entries e v.quiet member in
    let safe : (x : Entry) → In x r.entries → x.ref.id ≡ id → x.reclaimable ≡ false = λ x m same.
      let found : entry_at id r.entries ≡ some x =
        subst (λ (i : ℕ). entry_at i r.entries ≡ some x) same
          (entry_at-In r.entries x v.unique m) in
      ground arith in
    changed-Valid r (with_gate id word r.entries) v (refs_of-with_gate id word r.entries)
      (subst (λ (t : List Ref). Sub t (registered_refs r.entries))
        (sym (registered_refs-with_gate id word r.entries)) (Sub-refl (registered_refs r.entries)))
      (Newest-with_gate id word r.entries v.newest) (Quiet-with_gate id word r.entries safe v.quiet)

-- What `TryEnter` changes, if anything.
pub try_enter-effect :
    (r : Registry) (object kind : ℕ)
    → ((try_enter r object kind).0 ≡ r)
      ⊎ (id : ℕ) × (e : Entry) × (entry_at id r.entries ≡ some e)
        × (is_wanted e ≡ true)
        × ((try_enter r object kind).0 ≡ record r { entries = with_gate id (e.gate + 1) r.entries })
unfolding try_enter
try_enter-effect r object kind = elim (Option-cases (find r.current object kind)) [
  | inl missed ↦ inl (rw (missed, try_enter) refl)
  | inr (ref, found) ↦ elim (Option-cases (entry_at ref.id r.entries)) [
    | inl gone ↦ inl (rw (found, gone, try_enter) refl)
    | inr (e, at) ↦ elim (Bool-cases (e.registered && admits e.gate)) [
      | inl inside ↦ inr (ref.id, e, at, ground arith, rw (found, at, inside, try_enter) refl)
      | inr out ↦ inl (rw (found, at, out, try_enter) refl)
    ]
  ]
]

pub try_enter-Valid : (r : Registry) (object kind : ℕ) → Valid r → Valid (try_enter r object kind).0
try_enter-Valid r object kind v = elim (try_enter-effect r object kind) [
  | inl same ↦ subst Valid (sym same) v
  | inr (id, e, at, wanted, becomes) ↦
      subst Valid (sym becomes) (gate-Valid r id (e.gate + 1) e v at wanted)
]

leave-active :
    (word : ℕ) (after : ℕ × Bool)
    → Gate.leave word ≡ some after
    → Gate.has_active_operations word ≡ true
unfolding Gate.leave Gate.has_active_operations
leave-active word after h = ground arith

pub leave-effect :
    (r r' : Registry) (id : ℕ)
    → leave r id ≡ some r'
    → (e : Entry) × (word : ℕ) × (entry_at id r.entries ≡ some e)
      × (is_wanted e ≡ true)
      × (r' ≡ record r { entries = with_gate id word r.entries })
unfolding leave
leave-effect r r' id h = elim (Option-cases (entry_at id r.entries)) [
  | inl gone ↦ absurd (ground arith)
  | inr (e, at) ↦ elim (Option-cases (Gate.leave e.gate)) [
    | inl stopped ↦ absurd (ground arith)
    | inr ((word, wakes), left) ↦
        let active = leave-active e.gate (word, wakes) left in
        (e, word, at, ground arith, ground arith)
  ]
]

pub leave-Valid : (r r' : Registry) (id : ℕ) → Valid r → leave r id ≡ some r' → Valid r'
leave-Valid r r' id v done =
    let (e, word, at, wanted, becomes) = leave-effect r r' id done in
    subst Valid (sym becomes) (gate-Valid r id word e v at wanted)

pub retire-Valid : (r : Registry) (object kind : ℕ) → Valid r → Valid (retire r object kind).0
unfolding retire
retire-Valid r object kind v =
    changed-Valid r (retire_newest object kind r.entries).0 v (refs_of-retire object kind r.entries)
      (registered-retire object kind r.entries) (Newest-retire object kind r.entries v.newest)
      (Quiet-retire object kind r.entries v.quiet)

pub reclaim_retired-Valid :
    (allocates : Bool) (r : Registry) (object kind : ℕ)
    → Valid r
    → Valid (reclaim_retired allocates r object kind)
unfolding reclaim_retired
reclaim_retired-Valid allocates r object kind v =
    let es = mark_reclaimable object kind r.entries in
    let marked : Valid (record r { entries = es }) =
      changed-Valid r es v (refs_of-mark object kind r.entries)
        (subst (λ (t : List Ref). Sub t (registered_refs r.entries))
          (sym (registered_refs-mark object kind r.entries)) (Sub-refl (registered_refs r.entries)))
        (Newest-mark object kind r.entries v.newest) (Quiet-mark object kind r.entries v.quiet) in
    elim (Bool-cases allocates) [
      | inl yes_ ↦ rw yes_ (
          published-Valid (record r { entries = es }) marked.unique marked.bounded marked.newest
            marked.quiet)
      | inr no_ ↦ rw no_ marked
    ]
