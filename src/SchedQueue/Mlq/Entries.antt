-- ===== src/SchedQueue/Mlq/Entries.antt =====
-- One entry enters or leaves the array of heads, seen on the chain of all entries.
use spacemit_xenomai.Base.{
  erase, contains, ℕ, zero, suc, ◌+◌, ◌≤◌, ◌<◌, ◌≡◌, refl, ap, ap₂, ◌∙◌, sym, inl, inr, Bool, true,
  false, List, [], ◌∷◌, ◌++◌, map, append_assoc, append-nil, arith, ltb, leb, Bool-cases, length,
  All-mono,
}
use spacemit_xenomai.PrioList.Order.{keep, keep-append, keep-All, keep_none}
use spacemit_xenomai.SchedQueue.Mlq.{head_at, set_head}
use spacemit_xenomai.SchedQueue.Mlq.Heads.{
  chain, Placed, Placed-le, Placed-head_at, not-contains, erase_other,
}

pub contains-append :
    (t : ℕ) (xs ys : List ℕ) → contains t xs ≡ false → contains t (xs ++ ys) ≡ contains t ys
contains-append t [] ys h = refl
contains-append t (x ∷ xs) ys h = ground (arith, contains-append t xs ys)

pub contains-append_left :
    (t : ℕ) (xs ys : List ℕ) → contains t xs ≡ true → contains t (xs ++ ys) ≡ true
contains-append_left t [] ys h = absurd (ground arith)
contains-append_left t (x ∷ xs) ys h = ground (arith, contains-append_left t xs ys)

pub erase-append_left :
    (t : ℕ) (xs ys : List ℕ) → contains t xs ≡ true → erase t (xs ++ ys) ≡ erase t xs ++ ys
unfolding erase
erase-append_left t [] ys h = absurd (ground arith)
erase-append_left t (x ∷ xs) ys h = ground (arith, erase-append_left t xs ys)

pub erase-append_right :
    (t : ℕ) (xs ys : List ℕ) → contains t xs ≡ false → erase t (xs ++ ys) ≡ xs ++ erase t ys
unfolding erase
erase-append_right t [] ys h = refl
erase-append_right t (x ∷ xs) ys h = ground (arith, erase-append_right t xs ys)

module _ (lev : ℕ → ℕ) where
  map-erase_other :
      (t off : ℕ) (ls : List (List ℕ)) → Placed lev off ls → lev t < off → map (erase t) ls ≡ ls
  map-erase_other t off [] p h = refl
  map-erase_other t off (l ∷ ls) p h =
      ap₂ ◌∷◌ (erase_other lev t off l p.0 (λ e. omega arith))
        (map-erase_other t (suc off) ls p.1 (omega arith))

  -- Unlinking an entry changes the list of its level alone.
  pub map-erase :
      (t off i : ℕ) (ls : List (List ℕ))
      → Placed lev off ls
      → lev t ≡ off + i
      → map (erase t) ls ≡ set_head ls i (erase t (head_at ls i))
  map-erase t off i [] p e = refl
  map-erase t off zero (l ∷ ls) p e =
      ap (λ r. erase t l ∷ r) (map-erase_other t (suc off) ls p.1 (omega arith))
  map-erase t off (suc i) (l ∷ ls) p e =
      ap₂ ◌∷◌ (erase_other lev t off l p.0 (λ q. omega arith))
        (map-erase t (suc off) i ls p.1 (omega arith))

  pub contains-head_at :
      (t off i : ℕ) (ls : List (List ℕ))
      → Placed lev off ls
      → lev t ≡ off + i
      → contains t (chain ls) ≡ true
      → contains t (head_at ls i) ≡ true
  contains-head_at t off i [] p e h = h
  contains-head_at t off zero (l ∷ ls) p e h = elim (Bool-cases (contains t l)) [
    | inl q ↦ q
    | inr q ↦
        absurd (above (suc off) ls p.1 (omega arith) (sym (contains-append t l (chain ls) q) ∙ h))
  ]
    where
      above :
          (o : ℕ) (ms : List (List ℕ))
          → Placed lev o ms
          → lev t < o
          → contains t (chain ms) ≡ true
          → ⊥
      above o [] q h e = cc
      above o (m ∷ ms) q h e =
          above (suc o) ms q.1 (omega arith) (
            sym (contains-append t m (chain ms) (not-contains lev t o m q.0 (λ r. omega arith)))
            ∙ e)
  contains-head_at t off (suc i) (l ∷ ls) p e h =
      contains-head_at t (suc off) i ls p.1 (omega arith)
        (sym (contains-append t l (chain ls) (not-contains lev t off l p.0 (λ r. omega arith))) ∙ h)

  pub chain-erase :
      (t off i : ℕ) (ls : List (List ℕ))
      → Placed lev off ls
      → lev t ≡ off + i
      → contains t (head_at ls i) ≡ true
      → chain (set_head ls i (erase t (head_at ls i))) ≡ erase t (chain ls)
  chain-erase t off i [] p e h = absurd (ground arith)
  chain-erase t off zero (l ∷ ls) p e h = sym (erase-append_left t l (chain ls) h)
  chain-erase t off (suc i) (l ∷ ls) p e h =
      ap (λ r. l ++ r) (chain-erase t (suc off) i ls p.1 (omega arith) h)
      ∙ sym (erase-append_right t l (chain ls) (not-contains lev t off l p.0 (λ r. omega arith)))

  -- A new entry among those of its level, seen on the chain: `p` and `q` choose what stands before
  -- and behind it.
  module _ (p q : ℕ → Bool) (new : ℕ) where
    chain-around :
        (off i : ℕ) (ls : List (List ℕ))
        → Placed lev off ls
        → i < length ls
        → ((t : ℕ) → lev t < off + i → (p t ≡ true) × (q t ≡ false))
        → ((t : ℕ) → off + i < lev t → (p t ≡ false) × (q t ≡ true))
        → chain (set_head ls i (keep p (head_at ls i) ++ (new ∷ keep q (head_at ls i))))
          ≡ keep p (chain ls) ++ (new ∷ keep q (chain ls))
    chain-around off i [] pl h lower upper = absurd (omega arith)
    chain-around off zero (l ∷ ls) pl h lower upper = simp (
      keep-append,
      keep_none p (chain ls) (
          All-mono (λ t. suc off ≤ lev t) (λ t. p t ≡ false) (chain ls)
            (λ t b. (upper t (omega arith)).0) (Placed-le lev ls (suc off) pl.1)),
      keep-All q (chain ls) (
          All-mono (λ t. suc off ≤ lev t) (λ t. q t ≡ true) (chain ls)
            (λ t b. (upper t (omega arith)).1) (Placed-le lev ls (suc off) pl.1)),
      append_assoc,
      append-nil,
    )
    chain-around off (suc i) (l ∷ ls) pl h lower upper = simp (
      keep-append,
      keep-All p l
          (All-mono (λ t. lev t ≡ off) (λ t. p t ≡ true) l (λ t b. (lower t (omega arith)).0) pl.0),
      keep_none q l (
          All-mono (λ t. lev t ≡ off) (λ t. q t ≡ false) l (λ t b. (lower t (omega arith)).1) pl.0),
      append_assoc,
      chain-around (suc off) i ls pl.1 (omega arith) (λ t b. lower t (omega arith))
          (λ t b. upper t (omega arith)),
    )

  -- At the head of its level an entry stands behind all of lower levels and before the rest.
  pub chain-add :
      (new i : ℕ) (ls : List (List ℕ))
      → Placed lev 0 ls
      → i < length ls
      → chain (set_head ls i (new ∷ head_at ls i))
        ≡ keep (λ t. ltb (lev t) i) (chain ls) ++ (new ∷ keep (λ t. leb i (lev t)) (chain ls))
  chain-add new i ls pl h =
      let at = Placed-head_at lev ls 0 i pl in
      let p = λ (t : ℕ). ltb (lev t) i in
      let q = λ (t : ℕ). leb i (lev t) in
      let none = keep_none p (head_at ls i) (
        All-mono (λ t. lev t ≡ 0 + i) (λ t. p t ≡ false) (head_at ls i) (λ t e. ground arith) at) in
      let all =
        keep-All q (head_at ls i) (
          All-mono (λ t. lev t ≡ 0 + i) (λ t. q t ≡ true) (head_at ls i) (λ t e. ground arith)
            at) in
      ap (λ r. chain (set_head ls i r)) (sym (ap₂ (λ a b. a ++ (new ∷ b)) none all))
      ∙ chain-around p q new 0 i ls pl h (λ t b. ground arith) (λ t b. ground arith)

  -- At the end of its level it stands behind all of that level too.
  pub chain-add_tail :
      (new i : ℕ) (ls : List (List ℕ))
      → Placed lev 0 ls
      → i < length ls
      → chain (set_head ls i (head_at ls i ++ (new ∷ [])))
        ≡ keep (λ t. leb (lev t) i) (chain ls) ++ (new ∷ keep (λ t. ltb i (lev t)) (chain ls))
  chain-add_tail new i ls pl h =
      let at = Placed-head_at lev ls 0 i pl in
      let p = λ (t : ℕ). leb (lev t) i in
      let q = λ (t : ℕ). ltb i (lev t) in
      let none = keep_none q (head_at ls i) (
        All-mono (λ t. lev t ≡ 0 + i) (λ t. q t ≡ false) (head_at ls i) (λ t e. ground arith) at) in
      let all =
        keep-All p (head_at ls i) (
          All-mono (λ t. lev t ≡ 0 + i) (λ t. p t ≡ true) (head_at ls i) (λ t e. ground arith)
            at) in
      ap (λ r. chain (set_head ls i r)) (sym (ap₂ (λ a b. a ++ (new ∷ b)) all none))
      ∙ chain-around p q new 0 i ls pl h (λ t b. ground arith) (λ t b. ground arith)
