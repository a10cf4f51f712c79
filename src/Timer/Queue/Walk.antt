-- ===== src/Timer/Queue/Walk.antt =====
-- The loop over a queue visits each node once, in the order of the queue.
use spacemit_xenomai.Base.{
  ℕ, zero, suc, ◌≤◌, ◌≡◌, refl, ap, ◌∙◌, sym, inl, inr, false, List, [], ◌∷◌, ◌++◌, arith, ◌==◌,
  ==_iff, Bool-cases, length, contains, subst, append_assoc,
}
use spacemit_xenomai.Timer.Queue.{get_tqueue_head, get_tqueue_next, first_of, visit, for_each_tnode}

-- No node is linked twice.
abbrev pub Distinct : List ℕ → Type 0
Distinct [] = Unit
Distinct (n ∷ ns) = (contains n ns ≡ false) × Distinct ns

-- In `passed ++ n ∷ rest` the node after `n` is the first of `rest`.
next_lem :
    (passed : List ℕ) (n : ℕ) (rest : List ℕ)
    → Distinct (passed ++ (n ∷ rest))
    → get_tqueue_next (passed ++ (n ∷ rest)) n ≡ first_of rest
unfolding get_tqueue_next
next_lem [] n rest d = ground (arith, (==_iff n n).1 refl)
next_lem (p ∷ passed) n rest d = elim (Bool-cases (p == n)) [
  | inl e ↦ absurd (
      inside passed (subst (λ t. contains t (passed ++ (n ∷ rest)) ≡ false) ((==_iff p n).0 e) d.0))
  | inr e ↦ rw e (next_lem passed n rest d.1)
]
  where
    inside : (passed : List ℕ) → contains n (passed ++ (n ∷ rest)) ≡ false → ⊥
    inside [] h = ground (arith, (==_iff n n).1 refl)
    inside (q ∷ qs) h = elim (Bool-cases (q == n)) [
      | inl e ↦ ground arith
      | inr e ↦ inside qs (ground arith)
    ]

visit_lem :
    (rest : List ℕ) (fuel : ℕ) (passed : List ℕ)
    → length rest ≤ fuel
    → Distinct (passed ++ rest)
    → visit fuel (passed ++ rest) (first_of rest) ≡ rest
unfolding visit
visit_lem [] zero passed h d = refl
visit_lem [] (suc fuel) passed h d = refl
visit_lem (n ∷ rest) zero passed h d = absurd (omega arith)
visit_lem (n ∷ rest) (suc fuel) passed h d =
    ap (λ r. n ∷ r)
      (ap (λ o. visit fuel (passed ++ (n ∷ rest)) o) (next_lem passed n rest d)
        ∙ ap (λ q. visit fuel q (first_of rest)) (sym (append_assoc passed (n ∷ []) rest))
        ∙ visit_lem rest fuel (passed ++ (n ∷ [])) (omega arith)
            (subst Distinct (sym (append_assoc passed (n ∷ []) rest)) d))

-- `for_each_evl_tnode` over a queue in which no node is linked twice visits all its nodes, in
-- order, and ends, when it may take as many rounds as the queue has nodes.
pub for_each_tnode_lem :
    (tq : List ℕ) (fuel : ℕ) → length tq ≤ fuel → Distinct tq → for_each_tnode fuel tq ≡ tq
unfolding for_each_tnode get_tqueue_head
for_each_tnode_lem [] fuel h d = visit_lem [] fuel [] h d
for_each_tnode_lem (n ∷ ns) fuel h d = visit_lem (n ∷ ns) fuel [] h d
