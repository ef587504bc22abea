-- ===== src/RouteTable/Entries.antt =====
-- The entries of the registrations of src/driver_manager_impl.h, and the rows they stand for.
use encos_driver.Prelude.{
  ℕ, ◌≡◌, ◌≢◌, sym, Bool, true, false, Bool-cases, ◌==◌, shr, u32, inl, inr, List, [], ◌∷◌, ◌++◌,
  In, here, there, In-append_left, In-append_right,
}
use encos_driver.Prelude.{◌⊎◌}
use encos_driver.Dispatch.{Table}
use encos_driver.RouteTable.{RouteEntry, Routes, registration_of, without_device}

-- The table that an entry stands in, and its row there.
abbrev pub pick : {A : Type 0} → Bool → A → A → A
pick false t u = t
pick true t u = u

abbrev pub table : Bool → Routes → Table ℕ
table claim s = pick claim s.routes s.claim_routes

abbrev pub index : RouteEntry → ℕ
index e = pick e.claim e.key (u32 (shr e.key 32))

abbrev pub row : RouteEntry → ℕ × ℕ
row e = (index e, e.address)

abbrev pub entries_of : Table (List RouteEntry) → List RouteEntry
entries_of [] = []
entries_of ((d, es) ∷ t) = es ++ entries_of t

-- An entry of a registration has this row.
pub record Owned (claim : Bool) (es : List RouteEntry) (r : ℕ × ℕ) : Type 0 where
  pub owner : RouteEntry
  pub is_entry : In owner es
  pub same_kind : owner.claim ≡ claim
  pub same_row : row owner ≡ r

pub Owned-weaken :
    (c : Bool) (es fs : List RouteEntry) (r : ℕ × ℕ)
    → ((e : RouteEntry) → In e es → In e fs)
    → Owned c es r
    → Owned c fs r
Owned-weaken c es fs r k o = record {
  owner = o.owner;
  is_entry = k o.owner o.is_entry;
  same_kind = o.same_kind;
  same_row = o.same_row;
}

pub In-append : {A : Type 0} (a : A) (xs ys : List A) → In a (xs ++ ys) → In a xs ⊎ In a ys
In-append a [] ys m = inr m
In-append _ (x ∷ xs) ys here = inl here
In-append a (x ∷ xs) ys (there m) = elim (In-append a xs ys m) [
  | inl left ↦ inl (there left)
  | inr right ↦ inr right
]

-- Rows of one table have different keys.
abbrev pub Differ : RouteEntry → RouteEntry → Type 0
Differ e f = e.claim ≡ f.claim → index e ≢ index f

abbrev pub Apart : Table (List RouteEntry) → Type 0
Apart [] = Unit
Apart ((d, es) ∷ t) = ((e f : RouteEntry) → In e es → In f (entries_of t) → Differ e f) × Apart t

pub In-without_device :
    (device : ℕ) (t : Table (List RouteEntry)) (e : RouteEntry)
    → In e (entries_of (without_device device t))
    → In e (entries_of t)
In-without_device device [] e m = m
In-without_device device ((d, es) ∷ t) e m = elim (Bool-cases (d == device)) [
  | inl yes_ ↦ In-append_right e es (entries_of t) (rw yes_ at m)
  | inr no_ ↦ elim (In-append e es (entries_of (without_device device t)) (rw no_ at m)) [
    | inl left ↦ In-append_left e es (entries_of t) left
    | inr right ↦ In-append_right e es (entries_of t) (In-without_device device t e right)
  ]
]

In-registration_of :
    (device : ℕ) (t : Table (List RouteEntry)) (e : RouteEntry)
    → In e (registration_of device t)
    → In e (entries_of t)
In-registration_of device [] e m = m
In-registration_of device ((d, es) ∷ t) e m = elim (Bool-cases (d == device)) [
  | inl yes_ ↦ In-append_left e es (entries_of t) (rw yes_ at m)
  | inr no_ ↦ In-append_right e es (entries_of t) (In-registration_of device t e (rw no_ at m))
]

-- An entry is the device's or is kept.
pub registration-split :
    (device : ℕ) (t : Table (List RouteEntry)) (e : RouteEntry)
    → In e (entries_of t)
    → In e (registration_of device t) ⊎ In e (entries_of (without_device device t))
registration-split device [] e m = inl m
registration-split device ((d, es) ∷ t) e m = elim (Bool-cases (d == device)) [
  | inl yes_ ↦ rw yes_ (In-append e es (entries_of t) m)
  | inr no_ ↦ rw no_ (elim (In-append e es (entries_of t) m) [
    | inl left ↦ inr (In-append_left e es (entries_of (without_device device t)) left)
    | inr right ↦ elim (registration-split device t e right) [
      | inl his ↦ inl his
      | inr kept ↦ inr (In-append_right e es (entries_of (without_device device t)) kept)
    ]
  ])
]

pub without_device-Apart :
    (device : ℕ) (t : Table (List RouteEntry)) → Apart t → Apart (without_device device t)
without_device-Apart device [] a = tt
without_device-Apart device ((d, es) ∷ t) a = elim (Bool-cases (d == device)) [
  | inl yes_ ↦ rw yes_ a.1
  | inr no_ ↦
      rw no_
        (λ e f m n. a.0 e f m (In-without_device device t f n), without_device-Apart device t a.1)
]

pub registration-Differ :
    (device : ℕ) (t : Table (List RouteEntry)) (e f : RouteEntry)
    → Apart t
    → In e (registration_of device t)
    → In f (entries_of (without_device device t))
    → Differ e f
registration-Differ device [] e f a m n = elim m [ ]
registration-Differ device ((d, es) ∷ t) e f a m n = elim (Bool-cases (d == device)) [
  | inl yes_ ↦ a.0 e f (rw yes_ at m) (rw yes_ at n)
  | inr no_ ↦
      let his : In e (registration_of device t) = rw no_ at m in
      elim (In-append f es (entries_of (without_device device t)) (rw no_ at n)) [
        | inl left ↦ λ c k. a.0 f e left (In-registration_of device t e his) (sym c) (sym k)
        | inr right ↦ registration-Differ device t e f a.1 his right
      ]
]
