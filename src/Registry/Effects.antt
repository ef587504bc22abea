-- ===== src/Registry/Effects.antt =====
-- What the operations of the registry (src/operation_gate.h) do to the lists of pointers.
use encos_driver.Prelude.{
  ℕ, ◌≡◌, refl, ap, sym, subst, ◌∙◌, Bool, true, false, ◌&&◌, ◌||◌, if◌then◌else◌, Option, none,
  some, List, [], ◌∷◌, ◌++◌, In, here, there, All, arith, Bool-cases, inl, inr,
}
use encos_driver.Gate
use encos_driver.Registry.Table.{Ref, is_key}
use encos_driver.Registry.Entries.{Sub, none_left, skip, keep}
use encos_driver.Registry.{
  Entry, refs_of, registered_refs, without_reclaimable, with_gate, retire_entry, retire_round,
  retire_newest, mark_reclaimable,
}

-- Only entries that are not registered and have no operation inside are marked for deletion.
abbrev pub is_wanted : Entry → Bool
is_wanted e = e.registered || Gate.has_active_operations e.gate

abbrev pub Quiet : List Entry → Type 0
Quiet es = All (λ (e : Entry). (e.reclaimable && is_wanted e) ≡ false) es

pub Quiet-with_gate :
    (id word : ℕ) (es : List Entry)
    → ((x : Entry) → In x es → x.ref.id ≡ id → x.reclaimable ≡ false)
    → Quiet es
    → Quiet (with_gate id word es)
Quiet-with_gate id word [] kept q = tt
Quiet-with_gate id word (e ∷ es) kept (q, qs) =
    (ground (arith, kept e here), Quiet-with_gate id word es (λ x m. kept x (there m)) qs)

pub Quiet-append :
    (es : List Entry) (e : Entry) → Quiet es → e.reclaimable ≡ false → Quiet (es ++ e ∷ [])
Quiet-append [] e q h = (ground arith, tt)
Quiet-append (x ∷ es) e (q, qs) h = (q, Quiet-append es e qs h)

pub refs_of-append :
    (es : List Entry) (e : Entry) → refs_of (es ++ e ∷ []) ≡ refs_of es ++ e.ref ∷ []
refs_of-append [] e = refl
refs_of-append (x ∷ es) e = ap (λ t. x.ref ∷ t) (refs_of-append es e)

pub registered-Sub : (es : List Entry) → Sub (registered_refs es) (refs_of es)
registered-Sub [] = none_left
registered-Sub (e ∷ es) = elim (Bool-cases e.registered) [
  | inl yes_ ↦ rw yes_ (keep (registered-Sub es))
  | inr no_ ↦ rw no_ (skip (registered-Sub es))
]

-- `EraseReclaimableEntries`.
pub registered_refs-without :
    (es : List Entry) → Quiet es → registered_refs (without_reclaimable es) ≡ registered_refs es
registered_refs-without [] q = refl
registered_refs-without (e ∷ es) (q, qs) = ground (arith, registered_refs-without es qs)

pub refs_of-without : (es : List Entry) → Sub (refs_of (without_reclaimable es)) (refs_of es)
refs_of-without [] = none_left
refs_of-without (e ∷ es) = elim (Bool-cases e.reclaimable) [
  | inl yes_ ↦ rw yes_ (skip (refs_of-without es))
  | inr no_ ↦ rw no_ (keep (refs_of-without es))
]

Quiet-if :
    (b : Bool) (e : Entry) (es : List Entry)
    → (e.reclaimable && is_wanted e) ≡ false
    → Quiet es
    → Quiet (if b then es else e ∷ es)
Quiet-if true e es q qs = qs
Quiet-if false e es q qs = (q, qs)

pub Quiet-without : (es : List Entry) → Quiet es → Quiet (without_reclaimable es)
Quiet-without [] q = tt
Quiet-without (e ∷ es) (q, qs) =
    Quiet-if e.reclaimable e (without_reclaimable es) q (Quiet-without es qs)

-- `Retire`.
Sub-entry :
    (b : Bool) (r : Ref) {xs ys : List Ref}
    → Sub xs ys
    → Sub (if b then r ∷ xs else xs) (if b then r ∷ ys else ys)
Sub-entry true r s = keep s
Sub-entry false r s = s

Sub-skip_if :
    (b : Bool) (r : Ref) {xs ys : List Ref} → Sub xs ys → Sub xs (if b then r ∷ ys else ys)
Sub-skip_if true r s = skip s
Sub-skip_if false r s = s

Sub-silent :
    (x e : Entry) (later es : List Entry)
    → x.registered ≡ false
    → Sub (registered_refs later) (registered_refs es)
    → Sub (registered_refs (x ∷ later)) (registered_refs (e ∷ es))
Sub-silent x e later es h s =
    subst
      (λ (b : Bool).
        Sub (if b then x.ref ∷ registered_refs later else registered_refs later)
          (registered_refs (e ∷ es)))
      (sym h) (Sub-skip_if e.registered e.ref s)

retire_entry-registered : (e : Entry) → (retire_entry e).registered ≡ false
unfolding retire_entry
retire_entry-registered e = ground arith

retire_entry-quiet :
    (e : Entry)
    → (e.reclaimable && is_wanted e) ≡ false
    → ((retire_entry e).reclaimable && is_wanted (retire_entry e)) ≡ false
unfolding retire_entry
retire_entry-quiet e q = ground arith

module _ (object kind : ℕ) where
  refs_of-round :
      (e : Entry) (p : List Entry × Option ℕ)
      → refs_of (retire_round object kind e p).0 ≡ e.ref ∷ refs_of p.0
  unfolding retire_round retire_entry
  refs_of-round e (later, some id) = refl
  refs_of-round e (later, none) = ground arith

  pub refs_of-retire : (es : List Entry) → refs_of (retire_newest object kind es).0 ≡ refs_of es
  unfolding retire_newest
  refs_of-retire [] = refl
  refs_of-retire (e ∷ es) =
      refs_of-round e (retire_newest object kind es) ∙ ap (λ t. e.ref ∷ t) (refs_of-retire es)

  registered-round :
      (e : Entry) (p : List Entry × Option ℕ) (es : List Entry)
      → Sub (registered_refs p.0) (registered_refs es)
      → Sub (registered_refs (retire_round object kind e p).0) (registered_refs (e ∷ es))
  unfolding retire_round
  registered-round e (later, some id) es s = Sub-entry e.registered e.ref s
  registered-round e (later, none) es s = elim (Bool-cases (is_key object kind e.ref)) [
    | inl yes_ ↦ rw yes_ (Sub-silent (retire_entry e) e later es (retire_entry-registered e) s)
    | inr no_ ↦ rw no_ (Sub-entry e.registered e.ref s)
  ]

  pub registered-retire :
      (es : List Entry)
      → Sub (registered_refs (retire_newest object kind es).0) (registered_refs es)
  unfolding retire_newest
  registered-retire [] = none_left
  registered-retire (e ∷ es) =
      registered-round e (retire_newest object kind es) es (registered-retire es)

  Quiet-round :
      (e : Entry) (p : List Entry × Option ℕ)
      → (e.reclaimable && is_wanted e) ≡ false
      → Quiet p.0
      → Quiet (retire_round object kind e p).0
  unfolding retire_round
  Quiet-round e (later, some id) q qs = (q, qs)
  Quiet-round e (later, none) q qs = elim (Bool-cases (is_key object kind e.ref)) [
    | inl yes_ ↦ rw yes_ (retire_entry-quiet e q, qs)
    | inr no_ ↦ rw no_ (q, qs)
  ]

  pub Quiet-retire : (es : List Entry) → Quiet es → Quiet (retire_newest object kind es).0
  unfolding retire_newest
  Quiet-retire [] q = tt
  Quiet-retire (e ∷ es) (q, qs) =
      Quiet-round e (retire_newest object kind es) q (Quiet-retire es qs)

  -- `ReclaimRetired` marks entries that are not registered.
  pub refs_of-mark : (es : List Entry) → refs_of (mark_reclaimable object kind es) ≡ refs_of es
  refs_of-mark [] = refl
  refs_of-mark (e ∷ es) = ground (arith, refs_of-mark es)

  pub registered_refs-mark :
      (es : List Entry) → registered_refs (mark_reclaimable object kind es) ≡ registered_refs es
  registered_refs-mark [] = refl
  registered_refs-mark (e ∷ es) = ground (arith, registered_refs-mark es)

  pub Quiet-mark : (es : List Entry) → Quiet es → Quiet (mark_reclaimable object kind es)
  Quiet-mark [] q = tt
  Quiet-mark (e ∷ es) (q, qs) = (ground arith, Quiet-mark es qs)
