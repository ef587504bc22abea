-- ===== src/Registry/Newest.antt =====
-- Of the entries with one key in the registry (src/operation_gate.h), only the newest can be
-- registered, so the searches from either end agree.
use encos_driver.Prelude.{
  ℕ, ◌≡◌, refl, ap, sym, ◌∙◌, Bool, true, false, if◌then◌else◌, Option, none, some, List, [], ◌∷◌,
  ◌++◌, arith, Bool-cases, inl, inr,
}
use mathlib.Core.Option.{map as option_map}
use encos_driver.Gate
use encos_driver.Registry.Table.{Ref, is_key}
use encos_driver.Registry.Map.{lookup, Distinct}
use encos_driver.Registry.Entries.{lookup-Sub, registered_entry, refs_of-with_gate}
use encos_driver.Registry.Effects.{
  refs_of-append, registered-Sub, refs_of-without, refs_of-retire, refs_of-mark,
}
use encos_driver.Registry.{
  Entry, refs_of, registered_refs, without_reclaimable, is_registered_key, has_registered,
  with_gate, retire_entry, retire_round, retire_newest, mark_reclaimable, newest_active,
}

abbrev pub Newest : List Entry → Type 0
Newest [] = Unit
Newest (e ∷ es) =
    (e.registered ≡ true → lookup e.ref.object e.ref.kind (refs_of es) ≡ none) × Newest es

pub Newest-Distinct : (es : List Entry) → Newest es → Distinct (registered_refs es)
Newest-Distinct [] n = tt
Newest-Distinct (e ∷ es) (n, ns) = elim (Bool-cases e.registered) [
  | inl yes_ ↦
      rw yes_
        (lookup-Sub e.ref.object e.ref.kind (registered-Sub es) (n yes_), Newest-Distinct es ns)
  | inr no_ ↦ rw no_ (Newest-Distinct es ns)
]

lookup-append :
    (object kind : ℕ) (rs : List Ref) (r : Ref)
    → lookup object kind rs ≡ none
    → is_key object kind r ≡ false
    → lookup object kind (rs ++ r ∷ []) ≡ none
unfolding lookup
lookup-append object kind [] r h k = rw k refl
lookup-append object kind (x ∷ rs) r h k =
    let rest = lookup-append object kind rs r in ground (arith, rest)

is_key-other :
    (object kind : ℕ) (x r : Ref)
    → is_key object kind r ≡ true
    → is_key object kind x ≡ false
    → is_key x.object x.kind r ≡ false
unfolding is_key
is_key-other object kind x r k h = ground arith

-- `Register` checks that no entry with the key is registered.
pub Newest-append :
    (object kind : ℕ) (es : List Entry) (e : Entry)
    → has_registered object kind es ≡ false
    → is_key object kind e.ref ≡ true
    → Newest es
    → Newest (es ++ e ∷ [])
unfolding has_registered lookup
Newest-append object kind [] e free k n = ((λ r. refl), tt)
Newest-append object kind (x ∷ es) e free k (n, ns) = (
  (λ r. rw (refs_of-append es e) (
      lookup-append x.ref.object x.ref.kind (refs_of es) e.ref (n r)
        (is_key-other object kind x.ref e.ref k (ground arith)))),
  Newest-append object kind es e (ground arith) k ns,
)

pub Newest-with_gate : (id word : ℕ) (es : List Entry) → Newest es → Newest (with_gate id word es)
Newest-with_gate id word [] n = tt
Newest-with_gate id word (e ∷ es) (n, ns) =
    ((λ r. rw (refs_of-with_gate id word es) (ground (arith, n))), Newest-with_gate id word es ns)

Newest-if :
    (b : Bool) (e : Entry) (es : List Entry)
    → (e.registered ≡ true → lookup e.ref.object e.ref.kind (refs_of es) ≡ none)
    → Newest es
    → Newest (if b then es else e ∷ es)
Newest-if true e es n ns = ns
Newest-if false e es n ns = (n, ns)

pub Newest-without : (es : List Entry) → Newest es → Newest (without_reclaimable es)
Newest-without [] n = tt
Newest-without (e ∷ es) (n, ns) =
    Newest-if e.reclaimable e (without_reclaimable es)
      (λ r. lookup-Sub e.ref.object e.ref.kind (refs_of-without es) (n r)) (Newest-without es ns)

module _ (object kind : ℕ) where
  pub Newest-mark : (es : List Entry) → Newest es → Newest (mark_reclaimable object kind es)
  Newest-mark [] n = tt
  Newest-mark (e ∷ es) (n, ns) =
      ((λ r. rw (refs_of-mark object kind es) (ground (arith, n))), Newest-mark es ns)

  Newest-round :
      (e : Entry) (p : List Entry × Option ℕ)
      → (e.registered ≡ true → lookup e.ref.object e.ref.kind (refs_of p.0) ≡ none)
      → Newest p.0
      → Newest (retire_round object kind e p).0
  unfolding retire_round retire_entry
  Newest-round e (later, some id) n ns = (n, ns)
  Newest-round e (later, none) n ns = elim (Bool-cases (is_key object kind e.ref)) [
    | inl yes_ ↦ rw yes_ ((λ r. ground arith), ns)
    | inr no_ ↦ rw no_ (n, ns)
  ]

  pub Newest-retire : (es : List Entry) → Newest es → Newest (retire_newest object kind es).0
  unfolding retire_newest
  Newest-retire [] n = tt
  Newest-retire (e ∷ es) (n, ns) =
      Newest-round e (retire_newest object kind es) (λ r. rw (refs_of-retire object kind es) (n r))
        (Newest-retire es ns)

  lookup-registered_entry :
      (es : List Entry)
      → lookup object kind (refs_of es) ≡ none
      → registered_entry object kind es ≡ none
  unfolding lookup registered_entry
  lookup-registered_entry [] h = refl
  lookup-registered_entry (e ∷ es) h = ground (arith, lookup-registered_entry es)

  newest_active-none :
      (es : List Entry)
      → registered_entry object kind es ≡ none
      → newest_active object kind es ≡ none
  unfolding registered_entry newest_active
  newest_active-none [] h = refl
  newest_active-none (e ∷ es) h = ground (arith, newest_active-none es)

  lookup-is_key :
      (r : Ref) (rs : List Ref)
      → is_key object kind r ≡ true
      → lookup r.object r.kind rs ≡ none
      → lookup object kind rs ≡ none
  unfolding is_key
  lookup-is_key r rs k h =
      let o : r.object ≡ object = ground arith in
      let i : r.kind ≡ kind = ground arith in rw (sym o, sym i) h

  later-none :
      (e : Entry) (es : List Entry)
      → Newest (e ∷ es)
      → is_registered_key object kind e ≡ true
      → lookup object kind (refs_of es) ≡ none
  later-none e es (n, ns) k = lookup-is_key e.ref (refs_of es) (ground arith) (n (ground arith))

  -- `HasActiveOperations` searches from the newest entry.
  pub newest_active-registered_entry :
      (es : List Entry)
      → Newest es
      → newest_active object kind es
        ≡ option_map
            (λ (e : Entry). Gate.has_active_operations e.gate)
            (registered_entry object kind es)
  unfolding registered_entry newest_active
  newest_active-registered_entry [] n = refl
  newest_active-registered_entry (e ∷ es) (n, ns) =
      let rest = newest_active-registered_entry es ns in
      elim (Bool-cases (is_registered_key object kind e)) [
        | inl yes_ ↦
            let gone =
              newest_active-none es (lookup-registered_entry es (later-none e es (n, ns) yes_)) in
            rw (gone, yes_) refl
        | inr no_ ↦ ground arith
      ]

  round-none :
      (e : Entry) (p : List Entry × Option ℕ)
      → is_key object kind e.ref ≡ false
      → p.1 ≡ none
      → (retire_round object kind e p).1 ≡ none
  unfolding retire_round
  round-none e (later, some id) k g = absurd cc
  round-none e (later, none) k g = rw k refl

  retire_newest-none :
      (es : List Entry)
      → lookup object kind (refs_of es) ≡ none
      → (retire_newest object kind es).1 ≡ none
  unfolding lookup retire_newest
  retire_newest-none [] h = refl
  retire_newest-none (e ∷ es) h =
      round-none e (retire_newest object kind es) (ground arith)
        (retire_newest-none es (ground arith))

  -- The reference for `Retire`, without an order of the search.
  abbrev pub retire_registered : List Entry → List Entry
  retire_registered [] = []
  retire_registered (e ∷ es) =
      (if is_registered_key object kind e then retire_entry e else e) ∷ retire_registered es

  round-registered :
      (e : Entry) (p : List Entry × Option ℕ)
      → (is_registered_key object kind e ≡ true → p.1 ≡ none)
      → (retire_round object kind e p).0
        ≡ (if is_registered_key object kind e then retire_entry e else e) ∷ p.0
  unfolding retire_round retire_entry
  round-registered e (later, some id) h = elim (Bool-cases (is_registered_key object kind e)) [
    | inl yes_ ↦ absurd (cc (h yes_))
    | inr no_ ↦ rw no_ refl
  ]
  round-registered e (later, none) h = ground arith

  pub retire_newest-registered :
      (es : List Entry) → Newest es → (retire_newest object kind es).0 ≡ retire_registered es
  unfolding retire_newest
  retire_newest-registered [] n = refl
  retire_newest-registered (e ∷ es) (n, ns) =
      round-registered e (retire_newest object kind es)
        (λ k. retire_newest-none es (later-none e es (n, ns) k))
      ∙ ap (λ t. (if is_registered_key object kind e then retire_entry e else e) ∷ t)
          (retire_newest-registered es ns)

  pub registered_entry-retired :
      (es : List Entry) → registered_entry object kind (retire_registered es) ≡ none
  unfolding registered_entry retire_entry
  registered_entry-retired [] = refl
  registered_entry-retired (e ∷ es) = ground (arith, registered_entry-retired es)

  round-found :
      (e : Entry) (p : List Entry × Option ℕ)
      → is_registered_key object kind e ≡ true
      → p.1 ≡ none
      → (retire_round object kind e p).1 ≡ some e.ref.id
  unfolding retire_round
  round-found e (later, some id) k g = absurd cc
  round-found e (later, none) k g = ground arith

  round-keeps :
      (e : Entry) (p : List Entry × Option ℕ) (id : ℕ)
      → p.1 ≡ some id
      → (retire_round object kind e p).1 ≡ some id
  unfolding retire_round
  round-keeps e (later, some id') id g = g
  round-keeps e (later, none) id g = absurd cc

  pub retire_newest-found :
      (es : List Entry) (x : Entry)
      → Newest es
      → registered_entry object kind es ≡ some x
      → (retire_newest object kind es).1 ≡ some x.ref.id
  unfolding retire_newest registered_entry
  retire_newest-found [] x n h = absurd cc
  retire_newest-found (e ∷ es) x (n, ns) h = elim (Bool-cases (is_registered_key object kind e)) [
    | inl yes_ ↦
        let same : e ≡ x = ground arith in
        round-found e (retire_newest object kind es) yes_
          (retire_newest-none es (later-none e es (n, ns) yes_))
        ∙ ap (λ (t : Entry). some t.ref.id) same
    | inr no_ ↦
        round-keeps e (retire_newest object kind es) x.ref.id
          (retire_newest-found es x ns (ground arith))
  ]
