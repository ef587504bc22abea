-- ===== src/Registry/Map.antt =====
-- `Snapshot` of src/operation_gate.h as a finite map: what its constructor builds, `Find` looks up
-- like a search through the list of the entries.
use native.Mathlib.Nat.{pow-suc, one-le-pow}
use encos_driver.Prelude.{
  ℕ, zero, suc, ◌+◌, ◌*◌, ◌^◌, ◌≤◌, ◌<◌, ◌≡◌, refl, ap, sym, subst, ◌∙◌, true, if◌then◌else◌,
  Option, none, some, List, [], ◌∷◌, length, replicate, In, here, there, arith, length-replicate,
  length-set, Option-cases, Bool-cases, ◌⊎◌, inl, inr,
}
use encos_driver.Registry.Table.{
  Ref, Snapshot, start_of, grow, insert, insert_all, build, is_key, find,
}
use encos_driver.Registry.Probe.{slot, Used, find_loop-some, find_loop_sound}
use encos_driver.Registry.Insert.{
  grow-enough, grow-power, count_used, count_used-replicate, get_or-replicate,
}
use encos_driver.Registry.Build.{Holds, insert-Holds}

-- The reference: the first entry of a list with the key.
unfoldable pub lookup : ℕ → ℕ → List Ref → Option Ref
lookup object kind [] = none
lookup object kind (r ∷ rs) =
    let rest = lookup object kind rs in if is_key object kind r then some r else rest

-- No two entries have the same key.
abbrev pub Distinct : List Ref → Type 0
Distinct [] = Unit
Distinct (r ∷ rs) = (lookup r.object r.kind rs ≡ none) × Distinct rs

pub lookup_sound :
    (object kind : ℕ) (rs : List Ref) (f : Ref)
    → lookup object kind rs ≡ some f
    → (is_key object kind f ≡ true) × In f rs
unfolding lookup
lookup_sound object kind [] f e = absurd cc
lookup_sound object kind (r ∷ rs) f e = elim (Bool-cases (is_key object kind r)) [
  | inl same ↦
      let eq : r ≡ f = ground arith in
      (cc (ap (is_key object kind) eq), subst (λ (x : Ref). In x (r ∷ rs)) eq here)
  | inr other ↦
      let (key, member) = lookup_sound object kind rs f (ground arith) in (key, there member)
]

start_of-same_key :
    (n object kind : ℕ) (r : Ref)
    → is_key object kind r ≡ true
    → start_of n r.object r.kind ≡ start_of n object kind
unfolding is_key
start_of-same_key n object kind r h =
    let o : r.object ≡ object = ground arith in
    let k : r.kind ≡ kind = ground arith in rw (o, k) refl

lookup-same_key :
    (object kind : ℕ) (r : Ref) (rs : List Ref)
    → is_key object kind r ≡ true
    → lookup r.object r.kind rs ≡ lookup object kind rs
unfolding is_key
lookup-same_key object kind r rs h =
    let o : r.object ≡ object = ground arith in
    let k : r.kind ≡ kind = ground arith in rw (o, k) refl

-- With distinct keys, the entry with the key is the one that is found.
pub lookup-In :
    (object kind : ℕ) (rs : List Ref) (f : Ref)
    → Distinct rs
    → In f rs
    → is_key object kind f ≡ true
    → lookup object kind rs ≡ some f
unfolding lookup
lookup-In object kind [] f d m key = elim m [ ]
lookup-In object kind (r ∷ rs) _ (d, ds) here key = rw key refl
lookup-In object kind (r ∷ rs) f (d, ds) (there member) key =
    let found = lookup-In object kind rs f ds member key in
    elim (Bool-cases (is_key object kind r)) [
      | inl same ↦ absurd (cc (lookup-same_key object kind r rs same))
      | inr other ↦ rw other found
    ]

-- `Find` in a table that holds the entries of a list.
find-Holds :
    (k : ℕ) (rs : List Ref) (s : Snapshot) (object kind : ℕ)
    → Holds k (λ r. In r rs) s
    → Distinct rs
    → find s object kind ≡ lookup object kind rs
unfolding find slot
find-Holds k rs s object kind v d = elim (Option-cases (find s object kind)) [
  | inr (f, found) ↦
      let (key, (i, at)) =
        find_loop_sound (suc s.max_probe) s.slots (start_of (length s.slots) object kind) object
          kind 0 f found in
      found ∙ sym (lookup-In object kind rs f d (v.sound i f at) key)
  | inl missed ↦ elim (Option-cases (lookup object kind rs)) [
    | inl nothing ↦ missed ∙ sym nothing
    | inr (r, there_is) ↦
        let (key, member) = lookup_sound object kind rs r there_is in
        let (p, le, used, at) = v.placed r member in
        let n = length s.slots in
        let (used', at') =
          subst (λ (start : ℕ). Used s.slots start p × (slot s.slots start p ≡ some r))
            (start_of-same_key n object kind r key) (used, at) in
        absurd (
          find_loop-some (suc s.max_probe) s.slots (start_of n object kind) object kind 0 p r
            (omega arith) (omega arith) used' at' key missed)
  ]
]

Holds-map :
    (k : ℕ) (M N : Ref → Type 0) (s : Snapshot)
    → ((r : Ref) → M r → N r)
    → ((r : Ref) → N r → M r)
    → Holds k M s
    → Holds k N s
Holds-map k M N s f g v = record {
  power = v.power;
  placed = λ r n. v.placed r (g r n);
  sound = λ i r e. f r (v.sound i r e);
}

insert-length : (s : Snapshot) (r : Ref) → length (insert s r).slots ≡ length s.slots
unfolding insert
insert-length s r = length-set s.slots _ (some r)

In-split : (x r : Ref) (rs : List Ref) → In x (r ∷ rs) → (x ≡ r) ⊎ In x rs
In-split x _ rs here = inl refl
In-split x r rs (there m) = inr m

In-join : (x r : Ref) (rs : List Ref) → (x ≡ r) ⊎ In x rs → In x (r ∷ rs)
In-join x r rs (inl e) = subst (λ (y : Ref). In x (y ∷ rs)) e here
In-join x r rs (inr m) = there m

only_right : (x : Ref) (A : Type 0) → In x [] ⊎ A → A
only_right x A (inl m) = elim m [ ]
only_right x A (inr a) = a

only_left : (x : Ref) (A : Type 0) → A ⊎ In x [] → A
only_left x A (inl a) = a
only_left x A (inr m) = elim m [ ]

insert_all-Holds :
    (k : ℕ) (M : Ref → Type 0) (s : Snapshot) (rs : List Ref)
    → Holds k M s
    → count_used s.slots + length rs < length s.slots
    → Holds k (λ x. In x rs ⊎ M x) (insert_all s rs)
unfolding insert_all
insert_all-Holds k M s [] v room =
    Holds-map k M (λ x. In x [] ⊎ M x) s (λ x m. inr m) (λ x. only_right x (M x)) v
insert_all-Holds k M s (r ∷ rs) v room =
    let (one, few) = insert-Holds k M s r v (omega arith) in
    let size = insert-length s r in
    let others = insert_all-Holds k (λ x. (x ≡ r) ⊎ M x) (insert s r) rs one (omega arith) in
    Holds-map k (λ x. In x rs ⊎ ((x ≡ r) ⊎ M x)) (λ x. In x (r ∷ rs) ⊎ M x)
      (insert_all (insert s r) rs)
      (λ x. elim [
        | inl m ↦ inl (there m)
        | inr (inl e) ↦ inl (In-join x r rs (inl e))
        | inr (inr m) ↦ inr m
      ])
      (λ x. elim [
        | inl m ↦ elim (In-split x r rs m) [ inl e ↦ inr (inl e) | inr n ↦ inl n ]
        | inr m ↦ inr (inr m)
      ])
      others

le-power : (n : ℕ) → n * 2 ≤ 8 * 2 ^ n
le-power zero = omega arith
le-power (suc n) = omega (arith, le-power n, pow-suc 2 n, one-le-pow n 2)

empty-Holds :
    (k : ℕ) → Holds k (λ r. In r []) (record { slots = replicate (2 ^ k) none; max_probe = 0 })
empty-Holds k = record {
  power = length-replicate (2 ^ k) none;
  placed = λ r. elim [ ];
  sound = λ i r e. absurd (cc (get_or-replicate (2 ^ k) i));
}

-- The table that is built from entries with distinct keys looks every key up as the list of the
-- entries does: it finds the entry with the key if there is one, and nothing if there is none,
-- whatever the hashes are. It has a free slot for every entry.
pub find-build :
    (rs : List Ref) (object kind : ℕ)
    → Distinct rs
    → find (build rs) object kind ≡ lookup object kind rs
unfolding build
find-build rs object kind d =
    let (k, power) = grow-power (length rs) 3 (length rs) in
    let enough = grow-enough (length rs) 8 (length rs) (le-power (length rs)) in
    let start : Snapshot = record {
      slots = replicate (grow (length rs) 8 (length rs)) none;
      max_probe = 0;
    } in
    let fresh : Holds k (λ r. In r []) start =
      subst (λ (n : ℕ). Holds k (λ r. In r []) (record { slots = replicate n none; max_probe = 0 }))
        (sym power) (empty-Holds k) in
    let used = count_used-replicate (grow (length rs) 8 (length rs)) in
    let size = length-replicate {A = Option Ref} (grow (length rs) 8 (length rs)) none in
    let all =
      insert_all-Holds k (λ r. In r []) start rs fresh (omega (arith, power, one-le-pow k 2)) in
    find-Holds k rs (insert_all start rs) object kind
      (Holds-map k (λ x. In x rs ⊎ In x []) (λ x. In x rs) (insert_all start rs)
        (λ x. only_left x (In x rs)) (λ x m. inl m) all)
      d
