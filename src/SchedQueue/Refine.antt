-- ===== src/SchedQueue/Refine.antt =====
-- The two forms of the queue hold the same sequence of threads: the chain of the levels is the
-- sorted list.
use spacemit_xenomai.Base.{
  contains, ℕ, suc, ◌+◌, ◌^◌, ◌≤◌, ◌<◌, ◌≡◌, refl, ap, ◌∙◌, sym, Bool, true, List, [], ◌∷◌, arith,
  ltb, leb, length, All, All-mono, All-left, All-right, subst, zero,
}
use spacemit_xenomai.PrioList.Order.{
  keep, Sorted, Sorted-append, list_add_priff_lem, list_add_prilf_lem,
}
use spacemit_xenomai.SchedQueue.Linear
use spacemit_xenomai.SchedQueue.Linear.{prio_of}
use spacemit_xenomai.SchedQueue.Mlq
use spacemit_xenomai.SchedQueue.Mlq.{SchedQueue, FindFirstBit, head_at}
use spacemit_xenomai.SchedQueue.Mlq.Heads.{chain, Placed, Placed-le}
use spacemit_xenomai.SchedQueue.Mlq.Entries.{
  map-erase, contains-head_at, chain-erase, chain-add, chain-add_tail,
}
use spacemit_xenomai.SchedQueue.Mlq.Invariant.{IsValid, InRange, level_of, level_of_lem, busy}

pub keep_cong : (p q : ℕ → Bool) (xs : List ℕ) → All (λ x. p x ≡ q x) xs → keep p xs ≡ keep q xs
keep_cong p q [] h = refl
keep_cong p q (x ∷ xs) h = ground (arith, h.0, keep_cong p q xs h.1)

-- The first list with entries is at `k`.
abbrev FirstBusy : ℕ → List (List ℕ) → Type 0
FirstBusy k ls = (busy (head_at ls k) ≡ 1) × ((j : ℕ) → j < k → busy (head_at ls j) ≡ 0)

behind_empty : (k : ℕ) (ls : List (List ℕ)) → FirstBusy k ls → FirstBusy (suc k) ([] ∷ ls)
behind_empty k ls first = (first.0, before)
  where
    before : (j : ℕ) → j < suc k → busy (head_at ([] ∷ ls) j) ≡ 0
    before zero b = refl
    before (suc j) b = first.1 j (omega arith)

module _ (levels : ℕ) (cprio : ℕ → ℕ) where
  -- Among threads in range a lower level is a higher priority.
  prio_of_lem :
      (t : ℕ)
      → levels ≤ 2 ^ 31
      → InRange levels cprio t
      → prio_of cprio t + level_of levels cprio t + 1 ≡ 2 ^ 31 + levels
  prio_of_lem t s h = omega (arith, level_of_lem levels cprio t s h)

  Sorted-level :
      (off : ℕ) (l : List ℕ)
      → levels ≤ 2 ^ 31
      → All (λ t. level_of levels cprio t ≡ off) l
      → All (InRange levels cprio) l
      → Sorted (prio_of cprio) l
  Sorted-level off [] s p r = tt
  Sorted-level off (x ∷ l) s p r = (below l p.1 r.1, Sorted-level off l s p.1 r.1)
    where
      below :
          (m : List ℕ)
          → All (λ t. level_of levels cprio t ≡ off) m
          → All (InRange levels cprio) m
          → All (λ y. prio_of cprio y ≤ prio_of cprio x) m
      below [] p' r' = tt
      below (y ∷ m) p' r' =
          (omega (arith, prio_of_lem x s r.0, prio_of_lem y s r'.0), below m p'.1 r'.1)

  chain-Sorted :
      (off : ℕ) (ls : List (List ℕ))
      → levels ≤ 2 ^ 31
      → Placed (level_of levels cprio) off ls
      → All (InRange levels cprio) (chain ls)
      → Sorted (prio_of cprio) (chain ls)
  chain-Sorted off [] s p r = tt
  chain-Sorted off (l ∷ ls) s p r =
      let rl = All-left (InRange levels cprio) l (chain ls) r in
      let rr = All-right (InRange levels cprio) l (chain ls) r in
      Sorted-append (prio_of cprio) l (chain ls) (Sorted-level off l s p.0 rl)
        (chain-Sorted (suc off) ls s p.1 rr)
        (across l (chain ls) p.0 rl (Placed-le (level_of levels cprio) ls (suc off) p.1) rr)
    where
      under :
          (x : ℕ) (m : List ℕ)
          → level_of levels cprio x ≡ off
          → InRange levels cprio x
          → All (λ t. suc off ≤ level_of levels cprio t) m
          → All (InRange levels cprio) m
          → All (λ y. prio_of cprio y ≤ prio_of cprio x) m
      under x [] e h b q = tt
      under x (y ∷ m) e h b q =
          (omega (arith, prio_of_lem x s h, prio_of_lem y s q.0), under x m e h b.1 q.1)

      across :
          (l m : List ℕ)
          → All (λ t. level_of levels cprio t ≡ off) l
          → All (InRange levels cprio) l
          → All (λ t. suc off ≤ level_of levels cprio t) m
          → All (InRange levels cprio) m
          → All (λ x. All (λ y. prio_of cprio y ≤ prio_of cprio x) m) l
      across [] m e h b q = tt
      across (x ∷ l) m e h b q = (under x m e.0 h.0 b q, across l m e.1 h.1 b q)

  -- The scheduler's queue as one sequence: sorted by falling priority.
  pub queue-Sorted :
      (q : SchedQueue) → IsValid levels cprio q → Sorted (prio_of cprio) (chain q.heads)
  queue-Sorted q v = chain-Sorted 0 q.heads v.small v.placed v.ranged

  same_tests :
      (t : ℕ) (xs : List ℕ)
      → levels ≤ 2 ^ 31
      → InRange levels cprio t
      → All (InRange levels cprio) xs
      → (keep (λ x. ltb (level_of levels cprio x) (level_of levels cprio t)) xs
          ≡ keep (λ x. ltb (prio_of cprio t) (prio_of cprio x)) xs)
        × (keep (λ x. leb (level_of levels cprio t) (level_of levels cprio x)) xs
            ≡ keep (λ x. leb (prio_of cprio x) (prio_of cprio t)) xs)
        × (keep (λ x. leb (level_of levels cprio x) (level_of levels cprio t)) xs
            ≡ keep (λ x. leb (prio_of cprio t) (prio_of cprio x)) xs)
        × (keep (λ x. ltb (level_of levels cprio t) (level_of levels cprio x)) xs
            ≡ keep (λ x. ltb (prio_of cprio x) (prio_of cprio t)) xs)
  same_tests t xs s h r = (
    keep_cong _ _ xs (All-mono (InRange levels cprio) _ xs (λ x q. ground (arith, opposed x q)) r),
    keep_cong _ _ xs (All-mono (InRange levels cprio) _ xs (λ x q. ground (arith, opposed x q)) r),
    keep_cong _ _ xs (All-mono (InRange levels cprio) _ xs (λ x q. ground (arith, opposed x q)) r),
    keep_cong _ _ xs (All-mono (InRange levels cprio) _ xs (λ x q. ground (arith, opposed x q)) r),
  )
    where
      opposed :
          (x : ℕ)
          → InRange levels cprio x
          → prio_of cprio x + level_of levels cprio x ≡ prio_of cprio t + level_of levels cprio t
      opposed x q = omega (arith, prio_of_lem x s q, prio_of_lem t s h)

  in_array :
      (q : SchedQueue) (t : ℕ)
      → IsValid levels cprio q
      → InRange levels cprio t
      → level_of levels cprio t < length q.heads
  in_array q t v h = omega (arith, level_of_lem levels cprio t v.small h, v.size)

  -- For a valid queue and a thread whose priority is in range, `evl_add_schedq` of the scalable
  -- form does to the sequence of threads what that of the plain form does.
  pub add_schedq_refines :
      (q : SchedQueue) (t : ℕ)
      → IsValid levels cprio q
      → InRange levels cprio t
      → chain (Mlq.add_schedq levels cprio q t).heads ≡ Linear.add_schedq cprio (chain q.heads) t
  unfolding Mlq.add_schedq Linear.add_schedq
  add_schedq_refines q t v h =
      chain-add (level_of levels cprio) t (level_of levels cprio t) q.heads v.placed
        (in_array q t v h)
      ∙ rw
          (
            (same_tests t (chain q.heads) v.small h v.ranged).0,
            (same_tests t (chain q.heads) v.small h v.ranged).1,
          )
          (sym (list_add_prilf_lem (prio_of cprio) t (chain q.heads) (queue-Sorted q v)).0)

  -- For a valid queue and a thread whose priority is in range, `evl_add_schedq_tail` of the scalable
  -- form does to the sequence of threads what that of the plain form does.
  pub add_schedq_tail_refines :
      (q : SchedQueue) (t : ℕ)
      → IsValid levels cprio q
      → InRange levels cprio t
      → chain (Mlq.add_schedq_tail levels cprio q t).heads
        ≡ Linear.add_schedq_tail cprio (chain q.heads) t
  unfolding Mlq.add_schedq_tail Linear.add_schedq_tail
  add_schedq_tail_refines q t v h =
      chain-add_tail (level_of levels cprio) t (level_of levels cprio t) q.heads v.placed
        (in_array q t v h)
      ∙ rw
          (
            (same_tests t (chain q.heads) v.small h v.ranged).2,
            (same_tests t (chain q.heads) v.small h v.ranged).3,
          )
          (sym (list_add_priff_lem (prio_of cprio) t (chain q.heads) (queue-Sorted q v)).0)

  -- For a valid queue and a thread that is queued, `evl_del_schedq` of the scalable form does to
  -- the sequence of threads what that of the plain form does.
  pub del_schedq_refines :
      (q : SchedQueue) (t : ℕ)
      → IsValid levels cprio q
      → contains t (chain q.heads) ≡ true
      → chain (Mlq.del_schedq levels cprio q t).heads ≡ Linear.del_schedq (chain q.heads) t
  unfolding Mlq.del_schedq Linear.del_schedq
  del_schedq_refines q t v c =
      let lev = level_of levels cprio in
      ap chain (map-erase lev t 0 (lev t) q.heads v.placed (omega arith))
      ∙ chain-erase lev t 0 (lev t) q.heads v.placed (omega arith)
          (contains-head_at lev t 0 (lev t) q.heads v.placed (omega arith) c)

  first_busy :
      (off k t : ℕ) (rest : List ℕ) (ls : List (List ℕ))
      → Placed (level_of levels cprio) off ls
      → chain ls ≡ t ∷ rest
      → level_of levels cprio t ≡ off + k
      → FirstBusy k ls
  first_busy off k t rest [] p e h = cc
  first_busy off zero t rest ((x ∷ l) ∷ ls) p e h = (refl, λ j b. absurd (omega arith))
  first_busy off (suc k) t rest ((x ∷ l) ∷ ls) p e h =
      let xt : x ≡ t = cc in absurd (omega (arith, p.0.0, ap (level_of levels cprio) xt, h))
  first_busy off zero t rest ([] ∷ ls) p e h =
      let above =
        subst (All (λ y. suc off ≤ level_of levels cprio y)) e
          (Placed-le (level_of levels cprio) ls (suc off) p.1) in
      absurd (omega (arith, above.0))
  first_busy off (suc k) t rest ([] ∷ ls) p e h =
      behind_empty k ls (first_busy (suc off) k t rest ls p.1 e (omega arith))

  none_busy : (ls : List (List ℕ)) (j : ℕ) → chain ls ≡ [] → busy (head_at ls j) ≡ 0
  none_busy [] j e = refl
  none_busy ([] ∷ ls) zero e = refl
  none_busy ([] ∷ ls) (suc j) e = none_busy ls j e
  none_busy ((x ∷ l) ∷ ls) j e = cc

  -- `evl_get_schedq_weight` of a valid queue, for any `find_first_bit` that does what the bitmap
  -- library documents: EVL_MLQ_LEVELS if the queue is empty, and else the level of its first
  -- thread, whose priority no queued thread exceeds.
  pub get_schedq_weight_lem :
      (lib : FindFirstBit) (q : SchedQueue)
      → IsValid levels cprio q
      → (chain q.heads ≡ [] → Mlq.get_schedq_weight lib levels q ≡ levels)
        × ((t : ℕ) (rest : List ℕ)
            → chain q.heads ≡ t ∷ rest
            → (Mlq.get_schedq_weight lib levels q ≡ level_of levels cprio t)
              × All (λ y. prio_of cprio y ≤ prio_of cprio t) rest)
  unfolding Mlq.get_schedq_weight
  get_schedq_weight_lem lib q v = (
    (λ e. lib.not_found q.prio_map levels (λ j b. v.mapped j b ∙ none_busy q.heads j e)),
    λ t rest e. (weight t rest e, (subst (Sorted (prio_of cprio)) e (queue-Sorted q v)).0),
  )
    where
      weight :
          (t : ℕ) (rest : List ℕ)
          → chain q.heads ≡ t ∷ rest
          → lib.find_first_bit q.prio_map levels ≡ level_of levels cprio t
      weight t rest e =
          let lev = level_of levels cprio t in
          let first = first_busy 0 lev t rest q.heads v.placed e (omega arith) in
          let in_range = (subst (All (InRange levels cprio)) e v.ranged).0 in
          let below : lev < levels = omega (arith, level_of_lem levels cprio t v.small in_range) in
          lib.found q.prio_map levels lev below (v.mapped lev below ∙ first.0)
            (λ j b. v.mapped j (omega arith) ∙ first.1 j b)
