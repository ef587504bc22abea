-- ===== src/Registry/Entries.antt =====
-- The lists of entries of the registry (src/operation_gate.h), and what the operations do to the
-- pointers in them.
use encos_driver.Prelude.{
  ℕ, ◌≡◌, ◌≢◌, refl, subst, ◌==◌, true, if◌then◌else◌, Option, none, some, List, [], ◌∷◌, In, here,
  there, arith, Bool-cases, inl, inr,
}
use encos_driver.Registry.Table.{Ref, is_key}
use encos_driver.Registry.Map.{lookup}
use encos_driver.Registry.{Entry, refs_of, registered_refs, is_registered_key, entry_at, with_gate}

-- The reference for `TryEnter`: the registered entry with the key.
unfoldable pub registered_entry : ℕ → ℕ → List Entry → Option Entry
registered_entry object kind [] = none
registered_entry object kind (e ∷ es) =
    let rest = registered_entry object kind es in
    if is_registered_key object kind e then some e else rest

pub registered_entry_sound :
    (object kind : ℕ) (es : List Entry) (e : Entry)
    → registered_entry object kind es ≡ some e
    → In e es × (is_key object kind e.ref ≡ true) × (e.registered ≡ true)
unfolding registered_entry
registered_entry_sound object kind [] e eq = absurd cc
registered_entry_sound object kind (x ∷ es) e eq =
    elim (Bool-cases (is_registered_key object kind x)) [
      | inl it ↦
          let same : x ≡ e = ground arith in
          subst
            (λ (y : Entry).
              In y (x ∷ es) × (is_key object kind y.ref ≡ true) × (y.registered ≡ true))
            same (here, ground arith, ground arith)
      | inr other ↦
          let (m, k, r) = registered_entry_sound object kind es e (ground arith) in (there m, k, r)
    ]

pub registered_entry-In :
    (object kind : ℕ) (es : List Entry) (e : Entry)
    → In e es
    → is_key object kind e.ref ≡ true
    → e.registered ≡ true
    → registered_entry object kind es ≢ none
unfolding registered_entry
registered_entry-In object kind [] e m k r n = elim m [ ]
registered_entry-In object kind (x ∷ es) _ here k r n = ground arith
registered_entry-In object kind (x ∷ es) e (there m) k r n =
    registered_entry-In object kind es e m k r (ground arith)

-- Membership in the lists of pointers.
pub In-refs_of :
    (r : Ref) (es : List Entry) → In r (refs_of es) → (e : Entry) × In e es × (e.ref ≡ r)
In-refs_of r [] m = elim m [ ]
In-refs_of _ (e ∷ es) here = (e, here, refl)
In-refs_of r (e ∷ es) (there m) = let (x, n, q) = In-refs_of r es m in (x, there n, q)

pub refs_of-In : (e : Entry) (es : List Entry) → In e es → In e.ref (refs_of es)
refs_of-In e [] m = elim m [ ]
refs_of-In _ (e ∷ es) here = here
refs_of-In e (x ∷ es) (there m) = there (refs_of-In e es m)

pub registered_refs-In :
    (e : Entry) (es : List Entry) → In e es → e.registered ≡ true → In e.ref (registered_refs es)
registered_refs-In e [] m r = elim m [ ]
registered_refs-In _ (e ∷ es) here r = rw r here
registered_refs-In e (x ∷ es) (there m) r =
    let rest = registered_refs-In e es m r in
    elim (Bool-cases x.registered) [ inl yes_ ↦ rw yes_ (there rest) | inr no_ ↦ rw no_ rest ]

-- A list with some elements left out.
pub data Sub : List Ref → List Ref → Type 0 where
  none_left : Sub [] []
  skip : {x : Ref} {xs ys : List Ref} → Sub xs ys → Sub xs (x ∷ ys)
  keep : {x : Ref} {xs ys : List Ref} → Sub xs ys → Sub (x ∷ xs) (x ∷ ys)

pub Sub-refl : (xs : List Ref) → Sub xs xs
Sub-refl [] = none_left
Sub-refl (x ∷ xs) = keep (Sub-refl xs)

pub In-Sub : (r : Ref) {xs ys : List Ref} → Sub xs ys → In r xs → In r ys
In-Sub r none_left m = m
In-Sub r (skip s) m = there (In-Sub r s m)
In-Sub _ (keep s) here = here
In-Sub r (keep s) (there m) = there (In-Sub r s m)

pub lookup-Sub :
    (object kind : ℕ) {xs ys : List Ref}
    → Sub xs ys
    → lookup object kind ys ≡ none
    → lookup object kind xs ≡ none
unfolding lookup
lookup-Sub object kind none_left h = h
lookup-Sub object kind (skip s) h = lookup-Sub object kind s (ground arith)
lookup-Sub object kind (keep s) h = ground (arith, lookup-Sub object kind s)

-- No two entries are at the same address.
abbrev pub Unique : List Ref → Type 0
Unique [] = Unit
Unique (r ∷ rs) = ((x : Ref) → In x rs → r.id ≢ x.id) × Unique rs

pub Unique-Sub : {xs ys : List Ref} → Sub xs ys → Unique ys → Unique xs
Unique-Sub none_left u = u
Unique-Sub (skip s) (u, us) = Unique-Sub s us
Unique-Sub (keep s) (u, us) = ((λ x m. u x (In-Sub x s m)), Unique-Sub s us)

pub entry_at-In :
    (es : List Entry) (e : Entry) → Unique (refs_of es) → In e es → entry_at e.ref.id es ≡ some e
unfolding entry_at
entry_at-In [] e u m = elim m [ ]
entry_at-In (e ∷ es) _ (u, us) here = ground arith
entry_at-In (x ∷ es) e (u, us) (there m) =
    let differ = u e.ref (refs_of-In e es m) in ground (arith, entry_at-In es e us m)

-- What the operations do to the pointers.
pub refs_of-with_gate :
    (id word : ℕ) (es : List Entry) → refs_of (with_gate id word es) ≡ refs_of es
refs_of-with_gate id word [] = refl
refs_of-with_gate id word (e ∷ es) = ground (arith, refs_of-with_gate id word es)

pub registered_refs-with_gate :
    (id word : ℕ) (es : List Entry) → registered_refs (with_gate id word es) ≡ registered_refs es
registered_refs-with_gate id word [] = refl
registered_refs-with_gate id word (e ∷ es) = ground (arith, registered_refs-with_gate id word es)

pub entry_at_sound :
    (id : ℕ) (es : List Entry) (e : Entry) → entry_at id es ≡ some e → In e es × (e.ref.id ≡ id)
unfolding entry_at
entry_at_sound id [] e h = absurd cc
entry_at_sound id (x ∷ es) e h = elim (Bool-cases (x.ref.id == id)) [
  | inl it ↦
      let same : x ≡ e = ground arith in
      subst (λ (y : Entry). In y (x ∷ es) × (y.ref.id ≡ id)) same (here, ground arith)
  | inr other ↦ let (m, k) = entry_at_sound id es e (ground arith) in (there m, k)
]
