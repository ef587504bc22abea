-- ===== src/RouteTable/Detached.antt =====
-- What `DetachRegistrationLocked` of src/driver_manager_impl.h leaves in a table.
use mathlib.Core.Bool.{Bool-discrete}
use encos_driver.Prelude.{
  ℕ, ◌≡◌, ◌≢◌, refl, sym, ◌∙◌, subst, arith, Bool, true, false, Bool-cases, ◌==◌, shr, u32, inl,
  inr, List, [], ◌∷◌, some, In, here, there,
}
use encos_driver.Prelude.{◌⊎◌}
use encos_driver.Dispatch.{Table}
use encos_driver.Dispatch.Lookup.{lookup}
use encos_driver.RouteTable.{RouteEntry, Routes, detach_each, detach_entry, erase_row, has_key}
use encos_driver.RouteTable.Keys.{KeysUnique, Unique, detach_entry-KeysUnique}
use encos_driver.RouteTable.Entries.{pick, table, index, row}

pub In-has_key : (k a : ℕ) (t : Table ℕ) → In (k, a) t → has_key k t ≡ true
In-has_key k a [] m = elim m [ ]
In-has_key k a (_ ∷ t) here = ground arith
In-has_key k a ((j, b) ∷ t) (there m) = ground (arith, In-has_key k a t m)

pub In-lookup : (k a : ℕ) (t : Table ℕ) → Unique t → In (k, a) t → lookup k t ≡ some a
In-lookup k a [] u m = elim m [ ]
In-lookup k a (_ ∷ t) u here = let same : (k == k) ≡ true = ground arith in rw same refl
In-lookup k a ((j, b) ∷ t) u (there m) =
    let present = In-has_key k a t m in
    let other : (j == k) ≡ false = elim (Bool-cases (j == k)) [
      | inl yes_ ↦
          let same : j ≡ k = ground arith in
          let absent : has_key k t ≡ false = subst (λ i. has_key i t ≡ false) same u.0 in absurd cc
      | inr no_ ↦ no_
    ] in
    rw other (In-lookup k a t u.1 m)

In-cons : (r q : ℕ × ℕ) (t : Table ℕ) → In r (q ∷ t) → (r ≡ q) ⊎ In r t
In-cons _ q t here = inl refl
In-cons r q t (there m) = inr m

-- Another row stays.
In-erase_row :
    (key address : ℕ) (t : Table ℕ) (r : ℕ × ℕ)
    → In r t
    → (key, address) ≢ r
    → In r (erase_row key address t)
unfolding erase_row
In-erase_row key address [] r m n = m
In-erase_row key address ((j, b) ∷ t) _ here n = elim (Bool-cases (j == key)) [
  | inl yes_ ↦ elim (Bool-cases (b == address)) [
    | inl same ↦
        let k : key ≡ j = ground arith in let a : address ≡ b = ground arith in absurd (n cc)
    | inr other ↦ rw (yes_, other) here
  ]
  | inr no_ ↦ rw no_ here
]
In-erase_row key address ((j, b) ∷ t) r (there m) n = elim (Bool-cases (j == key)) [
  | inl yes_ ↦ elim (Bool-cases (b == address)) [
    | inl same ↦ rw (yes_, same) m
    | inr other ↦ rw (yes_, other) (there m)
  ]
  | inr no_ ↦ rw no_ (there (In-erase_row key address t r m n))
]

erase_row-In : (key address : ℕ) (t : Table ℕ) (r : ℕ × ℕ) → In r (erase_row key address t) → In r t
unfolding erase_row
erase_row-In key address [] r m = m
erase_row-In key address ((j, b) ∷ t) r m = elim (Bool-cases (j == key)) [
  | inl yes_ ↦ elim (Bool-cases (b == address)) [
    | inl same ↦ there (rw (yes_, same) at m)
    | inr other ↦ rw (yes_, other) at m
  ]
  | inr no_ ↦ elim (In-cons r (j, b) (erase_row key address t) (rw no_ at m)) [
    | inl first ↦ subst (λ x. In x ((j, b) ∷ t)) (sym first) here
    | inr later ↦ there (erase_row-In key address t r later)
  ]
]

-- A row that is erased is not there.
erase_row-gone :
    (key address : ℕ) (t : Table ℕ) → Unique t → ¬ In (key, address) (erase_row key address t)
unfolding erase_row
erase_row-gone key address [] u m = elim m [ ]
erase_row-gone key address ((j, b) ∷ t) u m = elim (Bool-cases (j == key)) [
  | inl yes_ ↦
      let same : j ≡ key = ground arith in
      let absent : has_key key t ≡ false = subst (λ i. has_key i t ≡ false) same u.0 in
      let first_only : ¬ In (key, address) t =
        λ n. let present = In-has_key key address t n in absurd cc in
      elim (Bool-cases (b == address)) [
        | inl held ↦ first_only (rw (yes_, held) at m)
        | inr other ↦ elim (In-cons (key, address) (j, b) t (rw (yes_, other) at m)) [
          | inl first ↦ let a : address ≡ b = cc in absurd (ground arith)
          | inr later ↦ first_only later
        ]
      ]
  | inr no_ ↦ elim (In-cons (key, address) (j, b) (erase_row key address t) (rw no_ at m)) [
    | inl first ↦ let k : key ≡ j = cc in absurd (ground arith)
    | inr later ↦ erase_row-gone key address t u.1 later
  ]
]

-- Detaching an entry erases its row from the table of its kind.
detach_entry-table :
    (key address : ℕ) (claim c : Bool) (s : Routes)
    → claim ≡ c
    → table c (detach_entry (record { key = key; address = address; claim = claim }) s)
      ≡ erase_row (pick claim key (u32 (shr key 32))) address (table c s)
unfolding detach_entry
detach_entry-table key address true true s e = refl
detach_entry-table key address false false s e = refl
detach_entry-table key address true false s e = absurd cc
detach_entry-table key address false true s e = absurd cc

detach_entry-other :
    (key address : ℕ) (claim c : Bool) (s : Routes)
    → claim ≢ c
    → table c (detach_entry (record { key = key; address = address; claim = claim }) s) ≡ table c s
unfolding detach_entry
detach_entry-other key address true true s e = absurd (e refl)
detach_entry-other key address false false s e = absurd (e refl)
detach_entry-other key address true false s e = refl
detach_entry-other key address false true s e = refl

pub table-Unique : (c : Bool) (s : Routes) → KeysUnique s → Unique (table c s)
table-Unique true s u = u.claims_unique
table-Unique false s u = u.routes_unique

detach_entry-In :
    (e : RouteEntry) (c : Bool) (s : Routes) (r : ℕ × ℕ)
    → In r (table c s)
    → (e.claim ≡ c → row e ≢ r)
    → In r (table c (detach_entry e s))
detach_entry-In e c s r m n = elim (Bool-discrete e.claim c) [
  | yes same ↦
      subst (In r) (sym (detach_entry-table e.key e.address e.claim c s same))
        (In-erase_row (index e) e.address (table c s) r m (n same))
  | no other ↦ subst (In r) (sym (detach_entry-other e.key e.address e.claim c s other)) m
]

In-detach_entry :
    (e : RouteEntry) (c : Bool) (s : Routes) (r : ℕ × ℕ)
    → In r (table c (detach_entry e s))
    → In r (table c s)
In-detach_entry e c s r m = elim (Bool-discrete e.claim c) [
  | yes same ↦
      erase_row-In (index e) e.address (table c s) r
        (subst (In r) (detach_entry-table e.key e.address e.claim c s same) m)
  | no other ↦ subst (In r) (detach_entry-other e.key e.address e.claim c s other) m
]

pub detach_each-In :
    (es : List RouteEntry) (c : Bool) (s : Routes) (r : ℕ × ℕ)
    → In r (table c s)
    → ((e : RouteEntry) → In e es → e.claim ≡ c → row e ≢ r)
    → In r (table c (detach_each es s))
unfolding detach_each
detach_each-In [] c s r m n = m
detach_each-In (e ∷ es) c s r m n =
    detach_each-In es c (detach_entry e s) r (detach_entry-In e c s r m (n e here))
      (λ f k. n f (there k))

pub In-detach_each :
    (es : List RouteEntry) (c : Bool) (s : Routes) (r : ℕ × ℕ)
    → In r (table c (detach_each es s))
    → In r (table c s)
unfolding detach_each
In-detach_each [] c s r m = m
In-detach_each (e ∷ es) c s r m =
    In-detach_entry e c s r (In-detach_each es c (detach_entry e s) r m)

-- No row of the entries is left.
pub detach_each-gone :
    (es : List RouteEntry) (s : Routes) (e : RouteEntry)
    → KeysUnique s
    → In e es
    → ¬ In (row e) (table e.claim (detach_each es s))
unfolding detach_each
detach_each-gone [] s e u m n = elim m [ ]
detach_each-gone (_ ∷ es) s e u here n =
    erase_row-gone (index e) e.address (table e.claim s) (table-Unique e.claim s u) (
      subst (In (row e)) (detach_entry-table e.key e.address e.claim e.claim s refl)
        (In-detach_each es e.claim (detach_entry e s) (row e) n))
detach_each-gone (f ∷ es) s e u (there m) n =
    detach_each-gone es (detach_entry f s) e (detach_entry-KeysUnique f s u) m n

detach_entry-registrations :
    (e : RouteEntry) (s : Routes) → (detach_entry e s).registrations ≡ s.registrations
unfolding detach_entry
detach_entry-registrations e s = elim (Bool-cases e.claim) [
  | inl yes_ ↦ rw yes_ refl
  | inr no_ ↦ rw no_ refl
]

pub detach_each-registrations :
    (es : List RouteEntry) (s : Routes) → (detach_each es s).registrations ≡ s.registrations
unfolding detach_each
detach_each-registrations [] s = refl
detach_each-registrations (e ∷ es) s =
    detach_each-registrations es (detach_entry e s) ∙ detach_entry-registrations e s
