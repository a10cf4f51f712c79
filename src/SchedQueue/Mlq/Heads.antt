-- ===== src/SchedQueue/Mlq/Heads.antt =====
-- The array of list heads: one list for each level, read in the order of the levels.
use spacemit_xenomai.Base.{
  erase, contains, ℕ, zero, suc, ◌+◌, ◌≤◌, ◌<◌, ◌≡◌, refl, ap, ◌∙◌, ◌≢◌, sym, inl, inr, false, List,
  [], ◌∷◌, ◌++◌, arith, ◌==◌, ==_iff, Bool-cases, if◌then◌else◌, length, length-append, All,
  All-append, All-mono,
}
use spacemit_xenomai.SchedQueue.Mlq.{head_at, set_head}

-- All entries, from the first level to the last.
abbrev pub chain : List (List ℕ) → List ℕ
chain [] = []
chain (l ∷ ls) = l ++ chain ls

pub length-set_head :
    (ls : List (List ℕ)) (i : ℕ) (l' : List ℕ) → length (set_head ls i l') ≡ length ls
length-set_head [] i l' = refl
length-set_head (l ∷ ls) zero l' = refl
length-set_head (l ∷ ls) (suc i) l' = ap suc (length-set_head ls i l')

pub head_at-set_head :
    (ls : List (List ℕ)) (i j : ℕ) (l' : List ℕ)
    → i < length ls
    → head_at (set_head ls i l') j ≡ (if i == j then l' else head_at ls j)
head_at-set_head [] i j l' h = absurd (omega arith)
head_at-set_head (l ∷ ls) zero zero l' h = refl
head_at-set_head (l ∷ ls) zero (suc j) l' h = ground arith
head_at-set_head (l ∷ ls) (suc i) zero l' h = ground arith
head_at-set_head (l ∷ ls) (suc i) (suc j) l' h =
    ground (arith, head_at-set_head ls i j l' (omega arith))

pub length-chain-set_head :
    (ls : List (List ℕ)) (i : ℕ) (l' : List ℕ)
    → i < length ls
    → length (chain (set_head ls i l')) + length (head_at ls i) ≡ length (chain ls) + length l'
length-chain-set_head [] i l' h = absurd (omega arith)
length-chain-set_head (l ∷ ls) zero l' h =
    omega (arith, length-append {0} l' (chain ls), length-append {0} l (chain ls))
length-chain-set_head (l ∷ ls) (suc i) l' h = omega (
  arith,
  length-append {0} l (chain (set_head ls i l')),
  length-append {0} l (chain ls),
  length-chain-set_head ls i l' (omega arith),
)

module _ (lev : ℕ → ℕ) where
  -- Every entry stands at its level; `off` is the level of the first list.
  abbrev pub Placed : ℕ → List (List ℕ) → Type 0
  Placed off [] = Unit
  Placed off (l ∷ ls) = All (λ t. lev t ≡ off) l × Placed (suc off) ls

  pub Placed-set_head :
      (ls : List (List ℕ)) (off i : ℕ) (l' : List ℕ)
      → Placed off ls
      → All (λ t. lev t ≡ off + i) l'
      → Placed off (set_head ls i l')
  Placed-set_head [] off i l' p h = tt
  Placed-set_head (l ∷ ls) off zero l' p h =
      (All-mono (λ t. lev t ≡ off + 0) (λ t. lev t ≡ off) l' (λ t e. omega arith) h, p.1)
  Placed-set_head (l ∷ ls) off (suc i) l' p h = (
    p.0,
    Placed-set_head ls (suc off) i l' p.1
        (All-mono (λ t. lev t ≡ off + suc i) (λ t. lev t ≡ suc off + i) l' (λ t e. omega arith) h),
  )

  pub Placed-head_at :
      (ls : List (List ℕ)) (off i : ℕ) → Placed off ls → All (λ t. lev t ≡ off + i) (head_at ls i)
  Placed-head_at [] off i p = tt
  Placed-head_at (l ∷ ls) off zero p =
      All-mono (λ t. lev t ≡ off) (λ t. lev t ≡ off + 0) l (λ t e. omega arith) p.0
  Placed-head_at (l ∷ ls) off (suc i) p =
      All-mono (λ t. lev t ≡ suc off + i) (λ t. lev t ≡ off + suc i) (head_at ls i)
        (λ t e. omega arith) (Placed-head_at ls (suc off) i p.1)

  pub Placed-le : (ls : List (List ℕ)) (off : ℕ) → Placed off ls → All (λ t. off ≤ lev t) (chain ls)
  Placed-le [] off p = tt
  Placed-le (l ∷ ls) off p =
      All-append (λ t. off ≤ lev t) l (chain ls)
        (All-mono (λ t. lev t ≡ off) (λ t. off ≤ lev t) l (λ t e. omega arith) p.0)
        (All-mono (λ t. suc off ≤ lev t) (λ t. off ≤ lev t) (chain ls) (λ t e. omega arith)
          (Placed-le ls (suc off) p.1))

  -- An entry is in no list of another level.
  pub not-contains :
      (t j : ℕ) (l : List ℕ) → All (λ x. lev x ≡ j) l → lev t ≢ j → contains t l ≡ false
  not-contains t j [] h n = refl
  not-contains t j (x ∷ l) h n = elim (Bool-cases (x == t)) [
    | inl e ↦ absurd (n (ap lev (sym ((==_iff x t).0 e)) ∙ h.0))
    | inr e ↦ rw e (not-contains t j l h.1 n)
  ]

  pub erase_other : (t j : ℕ) (l : List ℕ) → All (λ x. lev x ≡ j) l → lev t ≢ j → erase t l ≡ l
  unfolding erase
  erase_other t j [] h n = refl
  erase_other t j (x ∷ l) h n = elim (Bool-cases (x == t)) [
    | inl e ↦ absurd (n (ap lev (sym ((==_iff x t).0 e)) ∙ h.0))
    | inr e ↦ rw e (ap (λ r. x ∷ r) (erase_other t j l h.1 n))
  ]
