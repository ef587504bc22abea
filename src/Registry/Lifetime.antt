-- ===== src/Registry/Lifetime.antt =====
-- How long an entry of the registry (src/operation_gate.h) lives: from its registration until it is
-- retired and no operation is inside.
use encos_driver.Prelude.{
  ℕ, ◌+◌, ◌≡◌, ◌≢◌, refl, ap, sym, subst, ◌∙◌, Bool, true, false, not, ◌&&◌, if◌then◌else◌, some,
  List, [], ◌∷◌, ◌++◌, In, here, there, arith, Bool-cases, ◌⊎◌, inl, inr, In-append_left,
}
use encos_driver.Gate
use encos_driver.Registry.Table.{Ref, is_key}
use encos_driver.Registry.Entries.{registered_entry, refs_of-In, refs_of-with_gate}
use encos_driver.Registry.Effects.{Quiet, Quiet-append, is_wanted, refs_of-retire}
use encos_driver.Registry.Invariant.{Valid, try_enter-effect, leave-effect, Quiet-entry, is_key-own}
use encos_driver.Registry.Safety.{
  Step, registers, enters, leaves, retires, reclaims, Made, more, Made-Valid, try_enter-exact,
  enter_registered,
}
use encos_driver.Registry.{
  Entry, Registry, Entered, entered, refs_of, without_reclaimable, is_registered_key,
  has_registered, register, admits, try_enter, retire, mark_reclaimable, reclaim_retired,
}

without-In :
    (es : List Entry) (e : Entry) → In e es → e.reclaimable ≡ false → In e (without_reclaimable es)
without-In [] e m h = elim m [ ]
without-In (x ∷ es) _ here h = rw h here
without-In (x ∷ es) e (there m) h =
    let rest = without-In es e m h in
    elim (Bool-cases x.reclaimable) [ inl yes_ ↦ rw yes_ rest | inr no_ ↦ rw no_ (there rest) ]

mark-In :
    (object kind : ℕ) (es : List Entry) (e : Entry)
    → In e es
    → is_wanted e ≡ true
    → In e (mark_reclaimable object kind es)
mark-In object kind [] e m w = elim m [ ]
mark-In object kind (x ∷ es) e (there m) w = there (mark-In object kind es e m w)
mark-In object kind (x ∷ es) _ here w =
    let spared : (is_key object kind x.ref
          && not x.registered
          && not (Gate.has_active_operations x.gate))
        ≡ false =
      ground arith in
    rw spared here

kept :
    (es : List Entry) (e : Entry) → Quiet es → In e es → is_wanted e ≡ true → e.reclaimable ≡ false
kept es e q m w = let quiet = Quiet-entry es e q m in ground arith

-- Registration.
registered_entry-append :
    (object kind : ℕ) (es : List Entry) (e : Entry)
    → has_registered object kind es ≡ false
    → is_registered_key object kind e ≡ true
    → registered_entry object kind (es ++ e ∷ []) ≡ some e
unfolding has_registered registered_entry
registered_entry-append object kind [] e free own = rw own refl
registered_entry-append object kind (x ∷ es) e free own =
    ground (arith, registered_entry-append object kind es e)

registered_entry-without :
    (object kind : ℕ) (es : List Entry)
    → Quiet es
    → registered_entry object kind (without_reclaimable es) ≡ registered_entry object kind es
unfolding registered_entry
registered_entry-without object kind [] q = refl
registered_entry-without object kind (e ∷ es) (q, qs) =
    ground (arith, registered_entry-without object kind es qs)

admits-zero : admits 0 ≡ true
unfolding admits Gate.is_retiring Gate.is_full
admits-zero = refl

abbrev new_entry : ℕ → ℕ → ℕ → Entry
new_entry id object kind = record {
  ref = record { id = id; object = object; kind = kind };
  gate = 0;
  registered = true;
  reclaimable = false;
}

register-shape :
    (allocates : Bool) (r : Registry) (object kind : ℕ) (r' : Registry) (id : ℕ)
    → register allocates r object kind ≡ some (r', id)
    → (has_registered object kind r.entries ≡ false)
      × (id ≡ r.next_id)
      × (r'.entries ≡ without_reclaimable (r.entries ++ new_entry r.next_id object kind ∷ []))
unfolding register
register-shape allocates r object kind r' id done = (ground arith, ground arith, ground arith)

register-entry :
    (allocates : Bool) (r : Registry) (object kind : ℕ) (r' : Registry) (id : ℕ)
    → Valid r
    → register allocates r object kind ≡ some (r', id)
    → registered_entry object kind r'.entries ≡ some (new_entry r.next_id object kind)
register-entry allocates r object kind r' id v done =
    let (free, next, after) = register-shape allocates r object kind r' id done in
    let entry = new_entry r.next_id object kind in
    let own : is_registered_key object kind entry ≡ true =
      ground (arith, is_key-own r.next_id object kind) in
    ap (registered_entry object kind) after
    ∙ registered_entry-without object kind (r.entries ++ entry ∷ [])
        (Quiet-append r.entries entry v.quiet refl)
    ∙ registered_entry-append object kind r.entries entry free own

-- In every registry that the operations reach, when `Register` succeeds, no entry was at the address
-- it returns, and the next `TryEnter` of the same object and kind enters exactly that gate.
pub register-enters :
    (allocates : Bool) (r : Registry) (object kind : ℕ) (r' : Registry) (id : ℕ)
    → Made r
    → register allocates r object kind ≡ some (r', id)
    → ((x : Ref) → In x (refs_of r.entries) → x.id ≢ id)
      × ((try_enter r' object kind).1 ≡ entered id)
register-enters allocates r object kind r' id m done =
    let v = Made-Valid m in
    let reg = register-entry allocates r object kind r' id v done in
    let (free, next, after) = register-shape allocates r object kind r' id done in
    (
      (λ x member same. omega (arith, v.bounded x member, next)),
      ap (λ (p : Registry × Entered). p.1)
            (try_enter-exact r' object kind (more m (registers allocates object kind id done)))
          ∙ rw (reg, admits-zero, enter_registered) (ap entered (sym next)),
    )

stays :
    (r r' : Registry) (e : Entry) {es : List Entry}
    → In e r.entries
    → r' ≡ record r { entries = es }
    → refs_of es ≡ refs_of r.entries
    → In e.ref (refs_of r'.entries)
stays r r' e n becomes same =
    subst (In e.ref) (sym same ∙ ap (λ (t : Registry). refs_of t.entries) (sym becomes))
      (refs_of-In e r.entries n)

reclaimed-In :
    (allocates : Bool) (r : Registry) (object kind : ℕ) (e : Entry)
    → In e (mark_reclaimable object kind r.entries)
    → e.reclaimable ≡ false
    → In e (reclaim_retired allocates r object kind).entries
unfolding reclaim_retired
reclaimed-In true r object kind e m h = without-In (mark_reclaimable object kind r.entries) e m h
reclaimed-In false r object kind e m h = m

-- In every registry that the operations reach, no call deletes an entry that is registered or has an
-- operation inside.
pub wanted-kept :
    (r r' : Registry) (e : Entry)
    → Made r
    → Step r r'
    → In e r.entries
    → is_wanted e ≡ true
    → In e.ref (refs_of r'.entries)
unfolding retire
wanted-kept r r' e m (registers allocates o k id done) n w =
    let v = Made-Valid m in
    let (free, next, after) = register-shape allocates r o k r' id done in
    let entry = new_entry r.next_id o k in
    let member = In-append_left e r.entries (entry ∷ []) n in
    let safe = without-In (r.entries ++ entry ∷ []) e member (kept r.entries e v.quiet n w) in
    refs_of-In e r'.entries (subst (In e) (sym after) safe)
wanted-kept r r' e m (enters o k same) n w = elim (try_enter-effect r o k) [
  | inl still ↦ stays r r' e n (same ∙ still) refl
  | inr (id, x, at, wanted, becomes) ↦
      stays r r' e n (same ∙ becomes) (refs_of-with_gate id (x.gate + 1) r.entries)
]
wanted-kept r r' e m (leaves id done) n w =
    let (x, word, at, wanted, becomes) = leave-effect r r' id done in
    stays r r' e n becomes (refs_of-with_gate id word r.entries)
wanted-kept r r' e m (retires o k same) n w = stays r r' e n same (refs_of-retire o k r.entries)
wanted-kept r r' e m (reclaims a o k same) n w =
    let v = Made-Valid m in
    let marked = mark-In o k r.entries e n w in
    let safe = kept r.entries e v.quiet n w in
    refs_of-In e r'.entries
      (subst (λ (t : Registry). In e t.entries) (sym same) (reclaimed-In a r o k e marked safe))

-- `ReclaimRetired` leaves no entry of the key that is withdrawn and idle.
head_or :
    (e x : Entry) (es : List Entry)
    → In e (x ∷ without_reclaimable es)
    → x.reclaimable ≡ false
    → (In e (without_reclaimable es) → In e es × (e.reclaimable ≡ false))
    → In e (x ∷ es) × (e.reclaimable ≡ false)
head_or _ x es here h rest = (here, h)
head_or e x es (there m) h rest = let (n, q) = rest m in (there n, q)

without_sound :
    (es : List Entry) (e : Entry)
    → In e (without_reclaimable es)
    → In e es × (e.reclaimable ≡ false)
without_sound [] e m = elim m [ ]
without_sound (x ∷ es) e m = elim (Bool-cases x.reclaimable) [
  | inl yes_ ↦
      let shown : In e (without_reclaimable es) =
        subst
          (λ (b : Bool). In e (if b then without_reclaimable es else x ∷ without_reclaimable es))
          yes_ m in
      let (n, h) = without_sound es e shown in (there n, h)
  | inr no_ ↦
      let shown : In e (x ∷ without_reclaimable es) =
        subst
          (λ (b : Bool). In e (if b then without_reclaimable es else x ∷ without_reclaimable es))
          no_ m in
      head_or e x es shown no_ (without_sound es e)
]

In-cases : (e y : Entry) (ys : List Entry) → In e (y ∷ ys) → (e ≡ y) ⊎ In e ys
In-cases _ y ys here = inl refl
In-cases e y ys (there m) = inr m

mark_entry_sound :
    (object kind : ℕ) (x e : Entry)
    → e ≡ (
        if is_key object kind x.ref && not x.registered && not (Gate.has_active_operations x.gate)
        then record x { reclaimable = true }
        else x)
    → e.reclaimable ≡ false
    → (is_key object kind e.ref && not (is_wanted e)) ≡ false
mark_entry_sound object kind x e same h =
    elim (Bool-cases
      (is_key object kind x.ref && not x.registered && not (Gate.has_active_operations x.gate))) [
        | inl yes_ ↦
            let marked : e.reclaimable ≡ true =
              ap (λ (t : Entry). t.reclaimable) same ∙ rw yes_ refl in
            absurd (cc)
        | inr no_ ↦
            let it : e ≡ x = same ∙ rw no_ refl in
            subst (λ (t : Entry). (is_key object kind t.ref && not (is_wanted t)) ≡ false) (sym it)
              (ground arith)
      ]

mark_sound :
    (object kind : ℕ) (es : List Entry) (e : Entry)
    → In e (mark_reclaimable object kind es)
    → e.reclaimable ≡ false
    → (is_key object kind e.ref && not (is_wanted e)) ≡ false
mark_sound object kind [] e m h = elim m [ ]
mark_sound object kind (x ∷ es) e m h = elim (In-cases e _ (mark_reclaimable object kind es) m) [
  | inl same ↦ mark_entry_sound object kind x e same h
  | inr later ↦ mark_sound object kind es e later h
]

-- When its allocation succeeds, `ReclaimRetired` leaves no entry of the object and kind that is both
-- withdrawn and idle, in any registry.
pub reclaim_retired-clears :
    (r : Registry) (object kind : ℕ) (e : Entry)
    → In e (reclaim_retired true r object kind).entries
    → (is_key object kind e.ref && not (is_wanted e)) ≡ false
unfolding reclaim_retired
reclaim_retired-clears r object kind e m =
    let (marked, safe) = without_sound (mark_reclaimable object kind r.entries) e m in
    mark_sound object kind r.entries e marked safe
