-- ===== src/Gate/Safety.antt =====
-- What an `OperationGate` (src/operation_gate.h) guarantees under every interleaving.
use encos_driver.Prelude.{
  ℕ, zero, suc, ◌+◌, ◌-◌, ◌*◌, ◌/◌, ◌%◌, ◌^◌, ◌≤◌, ◌<◌, ◌≡◌, ◌≢◌, refl, ap, ◌∙◌, bit_and, bit_or,
  true, ◌&&◌, ◌==◌, ◌!=◌, some, List, [], ◌∷◌, get_elem?, arith, bit_and-mask, bit_and-field,
  bit_or-concat, bit_or-zero,
}
use encos_driver.Gate.{active_mask, is_retiring, is_full, leave, retire, has_active_operations}
use encos_driver.Gate.Threads.{
  Phase, outside, trying, refused, inside, terminated, State, Step, load, refuse_retiring,
  refuse_full, exchange, exchange_fails, return_refused, leaves, terminates, retires, Reach, here,
  next, count_inside, count_inside-set,
}

-- The word is a 32-bit number whose low 31 bits count the threads inside.
record Inv (s : State) : Type 0 where
  pub small : s.word < 2 ^ 32
  pub counted : s.word % 2 ^ 31 ≡ count_inside s.threads

is_retiring-eq : (w : ℕ) → w < 2 ^ 32 → is_retiring w ≡ (w / 2 ^ 31 == 1)
unfolding is_retiring
is_retiring-eq w h = ground (arith, bit_and-field 31 1 w)

is_full-eq : (w : ℕ) → is_full w ≡ (w % 2 ^ 31 == 2 ^ 31 - 1)
unfolding is_full
is_full-eq w = ground (arith, bit_and-mask 31 w)

leave-eq :
    (w : ℕ)
    → w < 2 ^ 32
    → 0 < w % 2 ^ 31
    → leave w ≡ some (w - 1, (w / 2 ^ 31 == 1) && (w % 2 ^ 31 == 1))
unfolding leave
leave-eq w h k = ground (arith, bit_and-mask 31 w, bit_and-field 31 1 w)

bit_or-one : (q : ℕ) → q < 2 → bit_or q 1 ≡ 1
bit_or-one zero h = refl
bit_or-one (suc zero) h = refl
bit_or-one (suc (suc q)) h = absurd (omega arith)

split : (w : ℕ) → w ≡ w / 2 ^ 31 * 2 ^ 31 + w % 2 ^ 31
split w = omega arith

retire-eq : (w : ℕ) → w < 2 ^ 32 → retire w ≡ 2 ^ 31 + w % 2 ^ 31
unfolding retire
retire-eq w h = omega (
  arith,
  bit_or-concat 31 (w / 2 ^ 31) 1 (w % 2 ^ 31) 0,
  bit_or-zero (w % 2 ^ 31),
  bit_or-one (w / 2 ^ 31) (omega arith),
  ap (λ (t : ℕ). bit_or t (2 ^ 31)) (split w),
)

Step-Inv : {s t : State} → Step s t → Inv s → Inv t
Step-Inv (load s i e) v = omega (arith, count_inside-set s.threads i outside (trying s.word) e)
Step-Inv (refuse_retiring s i e at r) v =
    omega (arith, count_inside-set s.threads i (trying e) refused at)
Step-Inv (refuse_full s i e at r f) v =
    omega (arith, count_inside-set s.threads i (trying e) refused at)
Step-Inv (exchange s i e at r f same) v =
    let small : e < 2 ^ 32 = omega arith in
    let room : e % 2 ^ 31 ≢ 2 ^ 31 - 1 = ground (arith, is_full-eq e) in
    let low : e / 2 ^ 31 ≢ 1 = ground (arith, is_retiring-eq e small) in
    let moved = count_inside-set s.threads i (trying e) inside at in
    record { small = omega arith; counted = omega arith }
Step-Inv (exchange_fails s i e at r f) v =
    omega (arith, count_inside-set s.threads i (trying e) (trying s.word) at)
Step-Inv (return_refused s i at) v = omega (arith, count_inside-set s.threads i refused outside at)
Step-Inv (leaves s i w wakes at left) v =
    let moved = count_inside-set s.threads i inside outside at in
    let eq = leave-eq s.word v.small (omega arith) in
    let left_word : w ≡ s.word - 1 = cc in record { small = omega arith; counted = omega arith }
Step-Inv (terminates s i at left) v =
    let moved = count_inside-set s.threads i inside terminated at in
    let eq = leave-eq s.word v.small (omega arith) in absurd cc
Step-Inv (retires s) v =
    let r = retire-eq s.word v.small in record { small = omega arith; counted = omega arith }

Reach-Inv : {s t : State} → Reach s t → Inv s → Inv t
Reach-Inv here v = v
Reach-Inv (next r st) v = Step-Inv st (Reach-Inv r v)

abbrev outsiders : ℕ → List Phase
outsiders zero = []
outsiders (suc n) = outside ∷ outsiders n

-- A new gate with n threads outside it.
abbrev pub start : ℕ → State
start n = record { word = 0; threads = outsiders n }

count_inside-outsiders : (n : ℕ) → count_inside (outsiders n) ≡ 0
count_inside-outsiders zero = refl
count_inside-outsiders (suc n) = omega (arith, count_inside-outsiders n)

start-Inv : (n : ℕ) → Inv (start n)
start-Inv n = record { small = omega arith; counted = omega (arith, count_inside-outsiders n) }

-- In every state that n threads reach from a new gate, whatever the interleaving, the word is a
-- 32-bit number whose bits under the active mask are the number of threads inside, and the gate has
-- active operations exactly if that is not 0: `WaitForDrain` passes when no thread is inside.
pub has_active_operations-exact :
    (n : ℕ) (s : State)
    → Reach (start n) s
    → (s.word < 2 ^ 32)
      × (bit_and s.word active_mask ≡ count_inside s.threads)
      × (has_active_operations s.word ≡ (count_inside s.threads != 0))
unfolding has_active_operations
has_active_operations-exact n s r =
    let v = Reach-Inv r (start-Inv n) in
    let counted : s.word % 2 ^ 31 ≡ count_inside s.threads = v.counted in
    (v.small, bit_and-mask 31 s.word ∙ counted, ground (arith, bit_and-mask 31 s.word))

-- In every state that n threads reach from a new gate, a thread that is inside leaves without
-- `std::terminate`: the word counts one operation less, and the threads that wait for the drain
-- are woken exactly if the gate is retiring and this thread was the last inside.
pub leave-exact :
    (n : ℕ) (s : State) (i : ℕ)
    → Reach (start n) s
    → get_elem? s.threads i ≡ some inside
    → leave s.word ≡ some (s.word - 1, is_retiring s.word && (count_inside s.threads == 1))
leave-exact n s i r at =
    let v = Reach-Inv r (start-Inv n) in
    let counted : s.word % 2 ^ 31 ≡ count_inside s.threads = v.counted in
    let moved = count_inside-set s.threads i inside outside at in
    let left = leave-eq s.word v.small (omega arith) in
    let retiring = is_retiring-eq s.word v.small in rw (retiring, ← counted) left

Step-retiring :
    {s t : State}
    → Step s t
    → Inv s
    → is_retiring s.word ≡ true
    → (is_retiring t.word ≡ true) × (count_inside t.threads ≤ count_inside s.threads)
Step-retiring (load s i at) v r =
    (r, omega (arith, count_inside-set s.threads i outside (trying s.word) at))
Step-retiring (refuse_retiring s i e at q) v r =
    (r, omega (arith, count_inside-set s.threads i (trying e) refused at))
Step-retiring (refuse_full s i e at q f) v r =
    (r, omega (arith, count_inside-set s.threads i (trying e) refused at))
Step-retiring (exchange s i e at q f same) v r = absurd cc
Step-retiring (exchange_fails s i e at q f) v r =
    (r, omega (arith, count_inside-set s.threads i (trying e) (trying s.word) at))
Step-retiring (return_refused s i at) v r =
    (r, omega (arith, count_inside-set s.threads i refused outside at))
Step-retiring (leaves s i w wakes at left) v r =
    let v' = Step-Inv (leaves s i w wakes at left) v in
    let moved = count_inside-set s.threads i inside outside at in
    let eq = leave-eq s.word v.small (omega arith) in
    let left_word : w ≡ s.word - 1 = cc in
    (ground (arith, is_retiring-eq s.word v.small, is_retiring-eq w v'.small), omega arith)
Step-retiring (terminates s i at left) v r =
    (r, omega (arith, count_inside-set s.threads i inside terminated at))
Step-retiring (retires s) v r =
    let v' = Step-Inv (retires s) v in
    (ground (arith, retire-eq s.word v.small, is_retiring-eq (retire s.word) v'.small), omega arith)

Reach-retiring :
    {s t : State}
    → Reach s t
    → Inv s
    → is_retiring s.word ≡ true
    → (is_retiring t.word ≡ true) × (count_inside t.threads ≤ count_inside s.threads)
Reach-retiring here v r = (r, omega arith)
Reach-retiring (next q st) v r =
    let (r', fewer) = Reach-retiring q v r in
    let (r'', less) = Step-retiring st (Reach-Inv q v) r' in (r'', omega arith)

-- After `Retire`, in any state that n threads reached from a new gate, the gate stays retired and
-- the number of threads inside never grows, whatever steps follow: no operation is admitted any
-- more, also none whose `TryEnter` had read the word before.
pub retire-final :
    (n : ℕ) (s t : State)
    → Reach (start n) s
    → Reach (record s { word = retire s.word }) t
    → (is_retiring t.word ≡ true) × (count_inside t.threads ≤ count_inside s.threads)
retire-final n s t r q =
    let v = Step-Inv (retires s) (Reach-Inv r (start-Inv n)) in
    Reach-retiring q v (
      ground (
        arith,
        retire-eq s.word (Reach-Inv r (start-Inv n)).small,
        is_retiring-eq (retire s.word) v.small,
      ))
