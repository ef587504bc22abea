-- ===== src/Registry/Build.antt =====
-- `Snapshot` of src/operation_gate.h as a finite map: what its constructor builds, `Find` looks up
-- like a search through the list of the entries.
use native.Mathlib.Decide.{ℕ_discrete}
use native.Mathlib.Nat.{mod-lt}
use encos_driver.Prelude.{
  ℕ, ◌+◌, ◌^◌, ◌≤◌, ◌<◌, ◌≡◌, ◌≢◌, ap, sym, subst, ◌∙◌, max, Option, none, some, List, length,
  get_or, set, arith, length-set, get_or-set_self, get_or-set_ne, Option-cases, ◌⊎◌, inl, inr,
}
use encos_driver.Registry.Table.{Ref, Snapshot, slot_index, start_of, free_probe, insert}
use encos_driver.Registry.Probe.{slot}
use encos_driver.Registry.Insert.{
  slot_index-eq, start_of-lt, distance, count_used, count_used-set, find_empty, free_probe-free,
}

-- An entry is in reach of `Find`, in a table of a size.
abbrev pub Placed : ℕ → List (Option Ref) → ℕ → Ref → Type 0
Placed n slots reach r =
    (p : ℕ) × (p ≤ reach)
    × ((q : ℕ) → q < p → get_or slots (slot_index n (start_of n r.object r.kind) q) none ≢ none)
    × (get_or slots (slot_index n (start_of n r.object r.kind) p) none ≡ some r)

-- A table that holds the entries of a predicate, each in reach, and nothing else.
pub record Holds (k : ℕ) (M : Ref → Type 0) (s : Snapshot) : Type 0 where
  pub power : length s.slots ≡ 2 ^ k
  pub placed : (r : Ref) → M r → Placed (length s.slots) s.slots s.max_probe r
  pub sound : (i : ℕ) (r : Ref) → get_or s.slots i none ≡ some r → M r

-- A write to an empty slot leaves what was used as it was.
module _ (slots : List (Option Ref)) (j : ℕ) (r : Ref) where
  keeps_used :
      get_or slots j none ≡ none
      → (i : ℕ) (x : Ref) → get_or slots i none ≡ some x
      → get_or (set slots j (some r)) i none ≡ some x
  keeps_used free i x used = elim (ℕ_discrete j i) [
    | yes same ↦ absurd (cc (ap (λ (t : ℕ). get_or slots t none) same))
    | no other ↦ get_or-set_ne slots j i (some r) none other ∙ used
  ]

  keeps_nonempty :
      get_or slots j none ≡ none
      → (i : ℕ) → get_or slots i none ≢ none
      → get_or (set slots j (some r)) i none ≢ none
  keeps_nonempty free i used e = elim (Option-cases (get_or slots i none)) [
    | inl empty ↦ used empty
    | inr (x, full) ↦ absurd (cc (keeps_used free i x full))
  ]

  -- What is in a slot after the write was there before, or is the new entry.
  written :
      j < length slots
      → (i : ℕ) (x : Ref) → get_or (set slots j (some r)) i none ≡ some x
      → (x ≡ r) ⊎ (get_or slots i none ≡ some x)
  written h i x e = elim (ℕ_discrete j i) [
    | yes same ↦ inl (
        cc (
          get_or-set_self slots j (some r) none h,
          ap (λ (t : ℕ). get_or (set slots j (some r)) t none) same,
        ))
    | no other ↦ inr (sym (get_or-set_ne slots j i (some r) none other) ∙ e)
  ]

  keeps_Placed :
      get_or slots j none ≡ none
      → (n reach wider : ℕ) (x : Ref) → reach ≤ wider
      → Placed n slots reach x
      → Placed n (set slots j (some r)) wider x
  keeps_Placed free n reach wider x h (p, le, used, at) = (
    p,
    omega arith,
    λ q b. keeps_nonempty free (slot_index n (start_of n x.object x.kind) q) (used q b),
    keeps_used free (slot_index n (start_of n x.object x.kind) p) x at,
  )

-- An insertion into a table with a free slot.
pub insert-Holds :
    (k : ℕ) (M : Ref → Type 0) (s : Snapshot) (r : Ref)
    → Holds k M s
    → count_used s.slots < length s.slots
    → Holds k (λ x. (x ≡ r) ⊎ M x) (insert s r)
      × (count_used (insert s r).slots ≤ count_used s.slots + 1)
unfolding insert slot
insert-Holds k M s r v room =
    let n = length s.slots in
    let start = start_of n r.object r.kind in
    let start_lt = start_of-lt n k r.object r.kind v.power in
    let (i, below, empty) = find_empty s.slots room in
    let (d, near, there_is) = distance n k start i v.power start_lt below in
    let free_at : slot s.slots start d ≡ none =
      ap (λ (t : ℕ). get_or s.slots t none) there_is ∙ empty in
    let probe = free_probe n s.slots start 0 in
    let (free, used) =
      free_probe-free n s.slots start 0 d (omega arith) (omega arith) free_at
        (λ q h. absurd (omega arith)) in
    let j = slot_index n start probe in
    let j_lt : j < n =
      rw (slot_index-eq n k start probe v.power) (mod-lt (start + probe) (omega arith)) in
    let slots = set s.slots j (some r) in
    let size : length slots ≡ n = length-set s.slots j (some r) in
    let reach = max s.max_probe probe in
    let mine : Placed n slots reach r = (
      probe,
      omega arith,
      λ q b. keeps_nonempty s.slots j r free (slot_index n start q) (used q b),
      get_or-set_self s.slots j (some r) none j_lt,
    ) in
    (
      record {
        power = size ∙ v.power;
        placed = λ x. elim [
          | inl same ↦
              subst (λ (m : ℕ). Placed m slots reach x) (sym size)
                (subst (λ (y : Ref). Placed n slots reach y) (sym same) mine)
          | inr old ↦
              subst (λ (m : ℕ). Placed m slots reach x) (sym size)
                (keeps_Placed s.slots j r free n s.max_probe reach x (omega arith) (v.placed x old))
        ];
        sound = λ i' x e. elim (written s.slots j r j_lt i' x e) [
          | inl same ↦ inl same
          | inr old ↦ inr (v.sound i' x old)
        ];
      },
      count_used-set s.slots j r,
    )
