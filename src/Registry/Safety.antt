-- ===== src/Registry/Safety.antt =====
-- What the registry (src/operation_gate.h) promises in every state that its operations reach.
use encos_driver.Prelude.{
  ℕ, ◌+◌, ◌≡◌, refl, sym, subst, ◌∙◌, Bool, true, false, if◌then◌else◌, none, some, List, In, arith,
  Option-cases, Bool-cases, inl, inr,
}
use encos_driver.Gate
use encos_driver.Registry.Table.{Ref, is_key, find}
use encos_driver.Registry.Map.{lookup-In, lookup_sound}
use encos_driver.Registry.Entries.{
  entry_at-In, registered_entry, registered_entry_sound, registered_entry-In, registered_refs-In,
  In-refs_of,
}
use encos_driver.Registry.Newest.{
  newest_active-registered_entry, retire_registered, retire_newest-registered, retire_newest-found,
  registered_entry-retired,
}
use encos_driver.Registry.Invariant.{
  Valid, new_registry-Valid, register-Valid, try_enter-Valid, leave-Valid, retire-Valid,
  reclaim_retired-Valid,
}
use encos_driver.Registry.{
  Entry, Registry, Entered, entered, refused, new_registry, register, entry_at, with_gate, admits,
  try_enter, leave, has_active_operations, retire, reclaim_retired,
}

-- One call of an operation that changes the registry.
pub data Step (r : Registry) : Registry → Type 0 where
  registers :
      (allocates : Bool) (object kind id : ℕ) {r' : Registry}
      → register allocates r object kind ≡ some (r', id)
      → Step r r'
  enters : (object kind : ℕ) {r' : Registry} → r' ≡ (try_enter r object kind).0 → Step r r'
  leaves : (id : ℕ) {r' : Registry} → leave r id ≡ some r' → Step r r'
  retires : (object kind : ℕ) {r' : Registry} → r' ≡ (retire r object kind).0 → Step r r'
  reclaims :
      (allocates : Bool) (object kind : ℕ) {r' : Registry}
      → r' ≡ reclaim_retired allocates r object kind
      → Step r r'

-- The registries that the operations reach.
pub data Made : Registry → Type 0 where
  fresh : {r : Registry} → r ≡ new_registry → Made r
  more : {r r' : Registry} → Made r → Step r r' → Made r'

step-Valid : {r r' : Registry} → Step r r' → Valid r → Valid r'
step-Valid {r} {r'} (registers allocates o k id done) v =
    register-Valid allocates r o k r' id v done
step-Valid {r} (enters o k same) v = subst Valid (sym same) (try_enter-Valid r o k v)
step-Valid {r} {r'} (leaves id done) v = leave-Valid r r' id v done
step-Valid {r} (retires o k same) v = subst Valid (sym same) (retire-Valid r o k v)
step-Valid {r} (reclaims a o k same) v = subst Valid (sym same) (reclaim_retired-Valid a r o k v)

pub Made-Valid : {r : Registry} → Made r → Valid r
Made-Valid (fresh same) = subst Valid (sym same) new_registry-Valid
Made-Valid (more m s) = step-Valid s (Made-Valid m)

-- The reference for `TryEnter`: the gate of the registered entry with the key.
abbrev pub enter_registered : Registry → ℕ → ℕ → Registry × Entered
enter_registered r object kind = elim (registered_entry object kind r.entries) [
  | none ↦ (r, refused)
  | some e ↦
      if admits e.gate
      then (record r { entries = with_gate e.ref.id (e.gate + 1) r.entries }, entered e.ref.id)
      else (r, refused)
]

same_ref :
    (r : Registry) (x y : Entry) → Valid r → In x r.entries → In y r.entries → x.ref ≡ y.ref → x ≡ y
same_ref r x y v m n same =
    let at_x = entry_at-In r.entries x v.unique m in
    let at_y = entry_at-In r.entries y v.unique n in
    let at : entry_at y.ref.id r.entries ≡ some x =
      subst (λ (t : Ref). entry_at t.id r.entries ≡ some x) same at_x in
    ground arith

found-registered :
    (r : Registry) (object kind : ℕ) (e : Entry)
    → Valid r
    → registered_entry object kind r.entries ≡ some e
    → find r.current object kind ≡ some e.ref
found-registered r object kind e v reg =
    let (member, key, on) = registered_entry_sound object kind r.entries e reg in
    v.finds object kind
    ∙ lookup-In object kind v.shown e.ref v.distinct
        (v.shows e.ref (registered_refs-In e r.entries member on)) key

found-alive :
    (r : Registry) (object kind : ℕ) (ref : Ref)
    → Valid r
    → find r.current object kind ≡ some ref
    → (e : Entry) × In e r.entries
      × (entry_at ref.id r.entries ≡ some e)
      × (is_key object kind e.ref ≡ true)
found-alive r object kind ref v found =
    let (key, shown) = lookup_sound object kind v.shown ref (sym (v.finds object kind) ∙ found) in
    let (e, member, same) = In-refs_of ref r.entries (v.alive ref shown) in
    (
      e,
      member,
      subst (λ (t : Ref). entry_at t.id r.entries ≡ some e) same
          (entry_at-In r.entries e v.unique member),
      subst (λ (t : Ref). is_key object kind t ≡ true) (sym same) key,
    )

pub try_enter-Valid_exact :
    (r : Registry) (object kind : ℕ)
    → Valid r
    → try_enter r object kind ≡ enter_registered r object kind
unfolding try_enter
try_enter-Valid_exact r object kind v =
    elim (Option-cases (registered_entry object kind r.entries)) [
      | inr (e, reg) ↦
          let found = found-registered r object kind e v reg in
          let (member, key, on) = registered_entry_sound object kind r.entries e reg in
          let at = entry_at-In r.entries e v.unique member in
          rw (found, at, reg, on, try_enter, enter_registered) refl
      | inl nothing ↦ elim (Option-cases (find r.current object kind)) [
        | inl missed ↦ rw (missed, nothing, try_enter, enter_registered) refl
        | inr (ref, found) ↦
            let (e, member, at, key) = found-alive r object kind ref v found in
            elim (Bool-cases e.registered) [
              | inl on ↦ absurd (registered_entry-In object kind r.entries e member key on nothing)
              | inr off ↦ rw (found, at, nothing, off, try_enter, enter_registered) refl
            ]
      ]
    ]

-- In every registry that the operations reach, `TryEnter` never uses a deleted entry, and it enters
-- the gate of the entry that is registered for the object and kind exactly when there is one and its
-- word is neither retiring nor full; in every other case it refuses and changes nothing.
pub try_enter-exact :
    (r : Registry) (object kind : ℕ)
    → Made r
    → try_enter r object kind ≡ enter_registered r object kind
try_enter-exact r object kind m = try_enter-Valid_exact r object kind (Made-Valid m)

-- In every registry that the operations reach, `HasActiveOperations` answers for the gate of the
-- entry that is registered for the object and kind, and false when there is none.
pub has_active_operations-registered :
    (r : Registry) (object kind : ℕ)
    → Made r
    → has_active_operations r object kind ≡ elim (registered_entry object kind r.entries) [
      | none ↦ false
      | some e ↦ Gate.has_active_operations e.gate
    ]
unfolding has_active_operations
has_active_operations-registered r object kind m =
    let v = Made-Valid m in
    let active = newest_active-registered_entry object kind r.entries v.newest in
    elim (Option-cases (registered_entry object kind r.entries)) [
      | inl nothing ↦ ground arith
      | inr (e, reg) ↦ ground arith
    ]

-- In every registry that the operations reach, `Retire` withdraws and retires the registered entry of
-- the object and kind and no other, returns its gate when there is one, and leaves the registry such
-- that `TryEnter` refuses the object and kind.
pub retire-withdraws :
    (r : Registry) (object kind : ℕ)
    → Made r
    → ((retire r object kind).0.entries ≡ retire_registered object kind r.entries)
      × ((e : Entry)
          → registered_entry object kind r.entries ≡ some e
          → (retire r object kind).1 ≡ some e.ref.id)
      × (try_enter (retire r object kind).0 object kind ≡ ((retire r object kind).0, refused))
unfolding retire
retire-withdraws r object kind m =
    let v = Made-Valid m in
    let becomes = retire_newest-registered object kind r.entries v.newest in
    let gone : registered_entry object kind (retire r object kind).0.entries ≡ none =
      subst (λ (es : List Entry). registered_entry object kind es ≡ none) (sym becomes)
        (registered_entry-retired object kind r.entries) in
    (
      becomes,
      (λ e reg. retire_newest-found object kind r.entries e v.newest reg),
      try_enter-exact (retire r object kind).0 object kind (more m (retires object kind refl))
          ∙ rw (gone, enter_registered) refl,
    )
