-- ===== src/Gate/Threads.antt =====
-- The threads of an `OperationGate` (src/operation_gate.h), interleaved at its atomic operations.
use encos_driver.Prelude.{
  ap, ℕ, zero, suc, ◌+◌, ◌≡◌, u32, Bool, true, false, none, some, List, [], ◌∷◌, get_elem?, set,
  arith,
}
use encos_driver.Gate.{is_retiring, is_full, leave, retire}

-- Where a thread stands: `trying` holds the word that `TryEnter` compares with, `refused` is its
-- answer false, and `inside` lasts from its answer true to `Leave`.
pub data Phase : Type 0 where
  outside : Phase
  trying : ℕ → Phase
  refused : Phase
  inside : Phase
  terminated : Phase

pub record State : Type 0 where
  pub word : ℕ
  pub threads : List Phase

abbrev pub moves : State → ℕ → Phase → State
moves s i p = record s { threads = set s.threads i p }

pub data Step : State → State → Type 0 where
  load :
      (s : State) (i : ℕ)
      → get_elem? s.threads i ≡ some outside
      → Step s (moves s i (trying s.word))
  refuse_retiring :
      (s : State) (i e : ℕ)
      → get_elem? s.threads i ≡ some (trying e)
      → is_retiring e ≡ true
      → Step s (moves s i refused)
  refuse_full :
      (s : State) (i e : ℕ)
      → get_elem? s.threads i ≡ some (trying e)
      → is_retiring e ≡ false
      → is_full e ≡ true
      → Step s (moves s i refused)
  -- `compare_exchange_weak` succeeds only on the expected word, and may fail on any.
  exchange :
      (s : State) (i e : ℕ)
      → get_elem? s.threads i ≡ some (trying e)
      → is_retiring e ≡ false
      → is_full e ≡ false
      → s.word ≡ e
      → Step s (record (moves s i inside) { word = u32 (e + 1) })
  exchange_fails :
      (s : State) (i e : ℕ)
      → get_elem? s.threads i ≡ some (trying e)
      → is_retiring e ≡ false
      → is_full e ≡ false
      → Step s (moves s i (trying s.word))
  return_refused :
      (s : State) (i : ℕ) → get_elem? s.threads i ≡ some refused → Step s (moves s i outside)
  leaves :
      (s : State) (i w : ℕ) (wakes : Bool)
      → get_elem? s.threads i ≡ some inside
      → leave s.word ≡ some (w, wakes)
      → Step s (record (moves s i outside) { word = w })
  terminates :
      (s : State) (i : ℕ)
      → get_elem? s.threads i ≡ some inside
      → leave s.word ≡ none
      → Step s (moves s i terminated)
  retires : (s : State) → Step s (record s { word = retire s.word })

pub data Reach (s : State) : State → Type 0 where
  here : Reach s s
  next : {t u : State} → Reach s t → Step t u → Reach s u

abbrev pub inside_of : Phase → ℕ
inside_of outside = 0
inside_of (trying e) = 0
inside_of refused = 0
inside_of inside = 1
inside_of terminated = 0

-- How many threads are inside.
abbrev pub count_inside : List Phase → ℕ
count_inside [] = 0
count_inside (p ∷ ps) = inside_of p + count_inside ps

pub count_inside-set :
    (ps : List Phase) (i : ℕ) (p q : Phase)
    → get_elem? ps i ≡ some p
    → count_inside (set ps i q) + inside_of p ≡ count_inside ps + inside_of q
count_inside-set [] i p q h = cc
count_inside-set (x ∷ ps) zero p q h =
    let same : x ≡ p = cc in
    let as_many : inside_of x ≡ inside_of p = ap inside_of same in omega arith
count_inside-set (x ∷ ps) (suc i) p q h = omega (arith, count_inside-set ps i p q h)
