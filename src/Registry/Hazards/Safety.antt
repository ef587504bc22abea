-- ===== src/Registry/Hazards/Safety.antt =====
-- No reader of the registry (src/operation_gate.h) uses a snapshot that has been deleted.
use native.Mathlib.Decide.{ℕ_discrete}
use encos_driver.Prelude.{
  ℕ, suc, ◌≡◌, ◌≢◌, ◌<◌, ◌≤◌, ◌==◌, refl, Bool, true, Option, none, some, ◌⊎◌, inl, inr, arith,
  Bool-cases, sym, subst, ◌∙◌, ap,
}
use encos_driver.Registry.Hazards.{
  Reader, outside, looking, loaded, stored, validated, Writer, quiet, built, waiting, State, put,
  start, Step, begin, load, store, validate, retry, clear_hazard, construct, exchange, pass, delete,
  Reach, begun, then_,
}

-- The snapshots that the writer relies on.
abbrev pub Held : ℕ → (ℕ → Bool) → ℕ → Writer → Type 0
Held n live current quiet = Unit
Held n live current (built b) = (live b ≡ true) × (b ≢ current)
Held n live current (waiting p j) = (live p ≡ true) × (p ≢ current) × (j ≤ n)

-- What the hazard of slot `i` shows of its reader.
abbrev pub Shown : ℕ → ℕ → Writer → ℕ → Option ℕ → Reader → Type 0
Shown n current w i hazard outside = hazard ≡ none
Shown n current w i hazard looking = i < n
Shown n current w i hazard (loaded a) = i < n
Shown n current w i hazard (stored a) = (i < n) × (hazard ≡ some a)
Shown n current w i hazard (validated a) =
    (i < n) × (hazard ≡ some a) × ((a ≡ current) ⊎ (j : ℕ) × (w ≡ waiting a j) × (j ≤ i))

pub record Valid (n : ℕ) (s : State) : Type 0 where
  pub current_live : s.live s.current ≡ true
  pub held : Held n s.live s.current s.writer
  pub shown : (i : ℕ) → Shown n s.current s.writer i (s.hazards i) (s.readers i)

start-Valid : (n a : ℕ) → Valid n (start a)
start-Valid n a = record { current_live = ground arith; held = tt; shown = λ i. refl }

put_self : {A : Type 0} (f : ℕ → A) (i : ℕ) (x : A) → put f i x i ≡ x
put_self f i x = ground arith

-- A property of every place holds after a write at one of them.
put_all :
    {A B : Type 0} (P : ℕ → A → B → Type 0) (f : ℕ → A) (g : ℕ → B) (i : ℕ) (x : A) (y : B)
    → P i x y
    → ((k : ℕ) → P k (f k) (g k))
    → (k : ℕ) → P k (put f i x k) (put g i y k)
put_all P f g i x y new old k = elim (Bool-cases (k == i)) [
  | inl same ↦ let e : i ≡ k = ground arith in rw same (subst (λ (m : ℕ). P m x y) e new)
  | inr other ↦ rw other (old k)
]

put_all_right :
    {A B : Type 0} (P : ℕ → A → B → Type 0) (f : ℕ → A) (g : ℕ → B) (i : ℕ) (y : B)
    → P i (f i) y
    → ((k : ℕ) → P k (f k) (g k))
    → (k : ℕ) → P k (f k) (put g i y k)
put_all_right P f g i y new old k = elim (Bool-cases (k == i)) [
  | inl same ↦ let e : i ≡ k = ground arith in rw same (subst (λ (m : ℕ). P m (f m) y) e new)
  | inr other ↦ rw other (old k)
]

-- What the hazard of a reader shows does not depend on the step of the writer, as long as no
-- validated snapshot loses its protection.
Shown-writer :
    (n : ℕ) (c c' : ℕ) (w w' : Writer) (i : ℕ) (h : Option ℕ) (r : Reader)
    → ((a : ℕ)
        → i < n
        → h ≡ some a
        → (a ≡ c) ⊎ (j : ℕ) × (w ≡ waiting a j) × (j ≤ i)
        → (a ≡ c') ⊎ (j : ℕ) × (w' ≡ waiting a j) × (j ≤ i))
    → Shown n c w i h r
    → Shown n c' w' i h r
Shown-writer n c c' w w' i h outside keep s = s
Shown-writer n c c' w w' i h looking keep s = s
Shown-writer n c c' w w' i h (loaded a) keep s = s
Shown-writer n c c' w w' i h (stored a) keep s = s
Shown-writer n c c' w w' i h (validated a) keep (l, e, p) = (l, e, keep a l e p)

pub Shown-at :
    (n : ℕ) (s : State) (i : ℕ) (r : Reader)
    → Valid n s
    → s.readers i ≡ r
    → Shown n s.current s.writer i (s.hazards i) r
Shown-at n s i r v e = subst (Shown n s.current s.writer i (s.hazards i)) e (v.shown i)

-- A step of a reader that leaves its hazard, and one that writes it.
reader-Valid :
    (n : ℕ) (s : State) (i : ℕ) (r : Reader)
    → Valid n s
    → Shown n s.current s.writer i (s.hazards i) r
    → Valid n (record s { readers = put s.readers i r })
reader-Valid n s i r v own = record {
  current_live = v.current_live;
  held = v.held;
  shown = put_all_right (Shown n s.current s.writer) s.hazards s.readers i r own v.shown;
}

hazard-Valid :
    (n : ℕ) (s : State) (i : ℕ) (h : Option ℕ) (r : Reader)
    → Valid n s
    → Shown n s.current s.writer i h r
    → Valid n (record s { hazards = put s.hazards i h; readers = put s.readers i r })
hazard-Valid n s i h r v own = record {
  current_live = v.current_live;
  held = v.held;
  shown = put_all (Shown n s.current s.writer) s.hazards s.readers i h r own v.shown;
}

pub Held-at :
    (n : ℕ) (s : State) (w : Writer) → Valid n s → s.writer ≡ w → Held n s.live s.current w
Held-at n s w v e = subst (Held n s.live s.current) e v.held

waiting-inj : (p a j x : ℕ) → waiting p j ≡ waiting a x → (p ≡ a) × (j ≡ x)
waiting-inj p a j x e = (cc, cc)

-- The slot that the writer has passed does not show the snapshot it waits for.
passed :
    (hazards : ℕ → Option ℕ) (p a i j : ℕ)
    → hazards j ≢ some p
    → hazards i ≡ some a
    → p ≡ a
    → j ≤ i
    → suc j ≤ i
passed hazards p a i j e h same le = elim (ℕ_discrete j i) [
  | yes at ↦ absurd (e (ap hazards at ∙ h ∙ ap some (sym same)))
  | no off ↦ omega arith
]

pub step-Valid : (n : ℕ) {s t : State} → Step n s t → Valid n s → Valid n t
step-Valid n {s} (begin i l e) v = reader-Valid n s i looking v l
step-Valid n {s} (load i e) v = reader-Valid n s i (loaded s.current) v (Shown-at n s i looking v e)
step-Valid n {s} (store i a e) v =
    hazard-Valid n s i (some a) (stored a) v (Shown-at n s i (loaded a) v e, refl)
step-Valid n {s} (validate i a e c) v =
    let (l, h) = Shown-at n s i (stored a) v e in reader-Valid n s i (validated a) v (l, h, inl c)
step-Valid n {s} (retry i a e c) v =
    let (l, h) = Shown-at n s i (stored a) v e in reader-Valid n s i looking v l
step-Valid n {s} (clear_hazard i a e) v = hazard-Valid n s i none outside v refl
step-Valid n {s} (construct b q f) v = record {
  current_live = ground (arith, v.current_live);
  held = (put_self s.live b true, λ same. cc (v.current_live, ap s.live same));
  shown = λ i.
      Shown-writer n s.current s.current s.writer (built b) i (s.hazards i) (s.readers i)
        (λ a l h p. elim p [ inl e ↦ inl e | inr (j, w, le) ↦ absurd (cc (sym q ∙ w)) ])
        (v.shown i);
}
step-Valid n {s} (exchange b q) v = record {
  current_live = (Held-at n s (built b) v q).0;
  held = (v.current_live, λ same. (Held-at n s (built b) v q).1 (sym same), omega arith);
  shown = λ i.
      Shown-writer n s.current b s.writer (waiting s.current 0) i (s.hazards i) (s.readers i)
        (λ a l h p. elim p [
          | inl e ↦ inr (0, ap (λ (t : ℕ). waiting t 0) (sym e), omega arith)
          | inr (j, w, le) ↦ absurd (cc (sym q ∙ w))
        ])
        (v.shown i);
}
step-Valid n {s} (pass p j q l e) v = record {
  current_live = v.current_live;
  held = let (live, old, bound) = Held-at n s (waiting p j) v q in (live, old, omega arith);
  shown = λ i.
      Shown-writer n s.current s.current s.writer (waiting p (suc j)) i (s.hazards i) (s.readers i)
        (λ a l h k. elim k [
          | inl c ↦ inl c
          | inr (x, w, le) ↦
              let (same, at) = waiting-inj p a j x (sym q ∙ w) in
              inr (
                suc j,
                ap (λ (t : ℕ). waiting t (suc j)) same,
                passed s.hazards p a i j e h same (omega (arith, at)),
              )
        ])
        (v.shown i);
}
step-Valid n {s} (delete p q) v = record {
  current_live = ground (arith, v.current_live, (Held-at n s (waiting p n) v q).1);
  held = tt;
  shown = λ i.
      Shown-writer n s.current s.current s.writer quiet i (s.hazards i) (s.readers i)
        (λ a l h k. elim k [
          | inl c ↦ inl c
          | inr (x, w, le) ↦
              let (same, at) = waiting-inj p a n x (sym q ∙ w) in absurd (omega arith)
        ])
        (v.shown i);
}

pub Reach-Valid : (n : ℕ) {s : State} → Reach n s → Valid n s
Reach-Valid n (begun a) = start-Valid n a
Reach-Valid n (then_ r st) = step-Valid n st (Reach-Valid n r)

-- Under every interleaving of the atomic steps of the readers and the writer, with addresses given
-- out again after their deletion, a snapshot that a reader has validated is not deleted while the
-- reader uses it.
pub validated-live :
    (n : ℕ) (s : State) (i a : ℕ) → Reach n s → s.readers i ≡ validated a → s.live a ≡ true
validated-live n s i a r e =
    let v = Reach-Valid n r in
    let (l, h, p) = Shown-at n s i (validated a) v e in
    elim p [
      | inl c ↦ ap s.live c ∙ v.current_live
      | inr (j, w, le) ↦ (Held-at n s (waiting a j) v w).0
    ]
