-- ===== src/Thread/Lock.antt =====
-- kernel-overlay/include/evl/thread.h: the order in which two threads are locked.
use spacemit_xenomai.Base.{
  subst, ◌⊎◌, ap, inl, inr, Bool-cases, ==_iff, ℕ_discrete, ℕ, zero, suc, ◌+◌, ◌≤◌, ◌<◌, ◌≡◌, ◌≢◌,
  refl, true, Option, some, List, [], ◌∷◌, ltb, contains, get_elem?, if◌then◌else◌, arith,
}

-- The locks that `evl_double_thread_lock` takes, in the order of its acquisitions; a thread is its
-- address.
unfoldable pub double_thread_lock : ℕ → ℕ → List ℕ
double_thread_lock t1 t2 = if ltb t1 t2 then t1 ∷ t2 ∷ [] else t2 ∷ t1 ∷ []

-- A CPU in the call: its arguments, and how many of the two locks it has got.
pub record Attempt : Type 0 where
  pub t1 : ℕ
  pub t2 : ℕ
  pub taken : ℕ

abbrev take : ℕ → List ℕ → List ℕ
take zero xs = []
take (suc n) [] = []
take (suc n) (x ∷ xs) = x ∷ take n xs

abbrev locks : Attempt → List ℕ
locks a = double_thread_lock a.t1 a.t2

unfoldable pub held : Attempt → List ℕ
held a = take a.taken (locks a)

unfoldable pub wanted : Attempt → Option ℕ
wanted a = get_elem? (locks a) a.taken

-- A CPU spins for good: the lock that it waits for is held by another one.
abbrev pub Spins : ℕ → (ℕ → Attempt) → ℕ → Type 0
Spins n cpus k =
    (l : ℕ) × (m : ℕ) × (m < n)
    × (m ≢ k)
    × (wanted (cpus k) ≡ some l)
    × (contains l (held (cpus m)) ≡ true)

wanted_of : (a b n l : ℕ) → get_elem? (a ∷ b ∷ []) n ≡ some l → l ≤ a + b
wanted_of a b zero l e = let h : a ≡ l = cc in omega arith
wanted_of a b (suc zero) l e = let h : b ≡ l = cc in omega arith
wanted_of a b (suc (suc n)) l e = absurd (ground arith)

double_thread_lock-cases :
    (t1 t2 : ℕ)
    → ((t1 < t2) × (double_thread_lock t1 t2 ≡ t1 ∷ t2 ∷ []))
      ⊎ ((t2 ≤ t1) × (double_thread_lock t1 t2 ≡ t2 ∷ t1 ∷ []))
unfolding double_thread_lock
double_thread_lock-cases t1 t2 = elim (Bool-cases (ltb t1 t2)) [
  | inl b ↦ inl (ground arith, rw b refl)
  | inr b ↦ inr (ground arith, rw b refl)
]

wanted-le : (a : Attempt) (l : ℕ) → wanted a ≡ some l → l ≤ a.t1 + a.t2
unfolding wanted
wanted-le a l e = elim (double_thread_lock-cases a.t1 a.t2) [
  | inl (lt, q) ↦ wanted_of a.t1 a.t2 a.taken l (subst (λ ls. get_elem? ls a.taken ≡ some l) q e)
  | inr (le, q) ↦
      omega (arith, wanted_of a.t2 a.t1 a.taken l (subst (λ ls. get_elem? ls a.taken ≡ some l) q e))
]

rising_of :
    (a b n l l' : ℕ)
    → a < b
    → contains l (take n (a ∷ b ∷ [])) ≡ true
    → get_elem? (a ∷ b ∷ []) n ≡ some l'
    → l < l'
rising_of a b zero l l' lt h e = absurd (ground arith)
rising_of a b (suc zero) l l' lt h e = let same : b ≡ l' = cc in ground (arith, ==_iff a l)
rising_of a b (suc (suc n)) l l' lt h e = absurd (ground arith)

-- A CPU waits for a later lock than the one it holds.
rising :
    (a : Attempt) (l l' : ℕ)
    → a.t1 ≢ a.t2
    → contains l (held a) ≡ true
    → wanted a ≡ some l'
    → l < l'
unfolding wanted held
rising a l l' ne h e = elim (double_thread_lock-cases a.t1 a.t2) [
  | inl (lt, q) ↦
      rising_of a.t1 a.t2 a.taken l l' lt (subst (λ ls. contains l (take a.taken ls) ≡ true) q h)
        (subst (λ ls. get_elem? ls a.taken ≡ some l') q e)
  | inr (le, q) ↦
      rising_of a.t2 a.t1 a.taken l l' (omega arith)
        (subst (λ ls. contains l (take a.taken ls) ≡ true) q h)
        (subst (λ ls. get_elem? ls a.taken ≡ some l') q e)
]

-- The addresses of the threads that the first `n` CPUs lock do not exceed their sum.
abbrev total : ℕ → (ℕ → Attempt) → ℕ
total zero cpus = 0
total (suc n) cpus = (cpus n).t1 + (cpus n).t2 + total n cpus

attempt-le : (n k : ℕ) (cpus : ℕ → Attempt) → k < n → (cpus k).t1 + (cpus k).t2 ≤ total n cpus
attempt-le zero k cpus h = absurd (omega arith)
attempt-le (suc n) k cpus h = elim (ℕ_discrete k n) [
  | yes e ↦ omega (arith, ap (λ j. (cpus j).t1 + (cpus j).t2) e)
  | no ne ↦ omega (arith, attempt-le n k cpus (omega arith))
]

module _ (n : ℕ) (cpus : ℕ → Attempt) (ne : (k : ℕ) → k < n → (cpus k).t1 ≢ (cpus k).t2)
    (spins : (k : ℕ) → k < n → Spins n cpus k) where
  -- From a CPU that waits for `l`, each CPU in the chain of holders waits for a later lock.
  ascends : (fuel k l : ℕ) → k < n → wanted (cpus k) ≡ some l → total n cpus < l + fuel → ⊥
  ascends zero k l h e b = omega (arith, wanted-le (cpus k) l e, attempt-le n k cpus h)
  ascends (suc fuel) k l h e b =
      let (l0, m, hm, other, e0, holds) = spins k h in
      let (l', m', hm', other', e', holds') = spins m hm in
      let same : l0 ≡ l = cc in
      ascends fuel m l' hm e' (omega (arith, rising (cpus m) l0 l' (ne m hm) holds e'))

-- With any number of CPUs, at least one, in calls of `evl_double_thread_lock` on pairs of distinct
-- threads, at any point of their calls: not all of them spin on a lock that another one holds.
pub double_thread_lock_progress :
    (n : ℕ) (cpus : ℕ → Attempt)
    → 0 < n
    → ((k : ℕ) → k < n → (cpus k).t1 ≢ (cpus k).t2)
    → ¬ ((k : ℕ) → k < n → Spins n cpus k)
double_thread_lock_progress n cpus some_cpu ne spins =
    let (l, m, hm, other, e, holds) = spins 0 some_cpu in
    ascends n cpus ne spins (total n cpus + 1) 0 l some_cpu e (omega arith)
