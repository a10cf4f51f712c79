-- ===== src/SchedQueue/Mlq/Invariant.antt =====
-- What holds of the queue between two operations, and that each of them keeps it.
use spacemit_xenomai.Base.{
  erase, contains, length-erase, All-erase, ℕ, zero, suc, ◌+◌, ◌-◌, ◌^◌, ◌≤◌, ◌<◌, ◌≡◌, refl, ◌∙◌,
  sym, inl, inr, true, false, List, [], ◌∷◌, ◌++◌, arith, ◌==◌, ==_iff, Bool-cases, if◌then◌else◌,
  length, length-append, All, All-append, All-left, All-right, subst, bit, u32, clear_flags,
  bit-set_pow, bit-clear_pow,
}
use spacemit_xenomai.SchedQueue.Mlq.{
  SchedQueue, list_empty, head_at, set_head, get_qindex, add_q, add_schedq, add_schedq_tail,
  del_schedq,
}
use spacemit_xenomai.SchedQueue.Mlq.Heads.{
  chain, Placed, Placed-set_head, Placed-head_at, length-set_head, head_at-set_head,
  length-chain-set_head,
}
use spacemit_xenomai.SchedQueue.Mlq.Entries.{map-erase, contains-head_at}

-- The digit of `prio_map` for a level.
abbrev pub busy : List ℕ → ℕ
busy [] = 0
busy (x ∷ xs) = 1

busy_of_empty : (l : List ℕ) → list_empty l ≡ true → busy l ≡ 0
busy_of_empty [] h = refl
busy_of_empty (x ∷ l) h = cc

busy_of_entries : (l : List ℕ) → list_empty l ≡ false → busy l ≡ 1
busy_of_entries [] h = cc
busy_of_entries (x ∷ l) h = refl

pub busy_of_length : (l : List ℕ) (n : ℕ) → length l ≡ n + 1 → busy l ≡ 1
busy_of_length [] n h = absurd (omega arith)
busy_of_length (x ∷ l) n h = refl

-- The bitmap after the list at `idx` has become `l'`, for an update that sets the digit of `idx`
-- to that of `l'` and leaves the others.
mapped_set :
    (hs : List (List ℕ)) (m m' idx : ℕ) (l' : List ℕ)
    → idx < length hs
    → ((i : ℕ) → i < length hs → bit m i ≡ busy (head_at hs i))
    → ((i : ℕ) → i < length hs → bit m' i ≡ (if idx == i then busy l' else bit m i))
    → (i : ℕ) → i < length hs
    → bit m' i ≡ busy (head_at (set_head hs idx l') i)
mapped_set hs m m' idx l' below was now i h =
    ground (arith, was i h, now i h, head_at-set_head hs idx i l' below)

module _ (levels : ℕ) (cprio : ℕ → ℕ) where
  abbrev pub level_of : ℕ → ℕ
  level_of t = get_qindex levels (cprio t)

  -- `evl_sched_fifo` hands in priorities from EVL_CORE_MIN_PRIO, 0, to EVL_CORE_MAX_PRIO, and
  -- EVL_MLQ_LEVELS is EVL_CORE_NR_PRIO.
  abbrev pub InRange : ℕ → Type 0
  InRange t = cprio t < levels

  pub record IsValid (q : SchedQueue) : Type 0 where
    pub small : levels ≤ 2 ^ 31
    pub size : length q.heads ≡ levels
    pub counted : q.elems ≡ u32 (length (chain q.heads))
    pub mapped : (i : ℕ) → i < levels → bit q.prio_map i ≡ busy (head_at q.heads i)
    pub placed : Placed level_of 0 q.heads
    pub ranged : All InRange (chain q.heads)

  -- The level of a priority in range: the higher the priority, the lower the index.
  pub level_of_lem : (t : ℕ) → levels ≤ 2 ^ 31 → InRange t → level_of t + cprio t + 1 ≡ levels
  unfolding get_qindex
  level_of_lem t s h = omega arith

  ranged-set_head :
      (ls : List (List ℕ)) (i : ℕ) (l' : List ℕ)
      → All InRange (chain ls)
      → All InRange l'
      → All InRange (chain (set_head ls i l'))
  ranged-set_head [] i l' h h' = tt
  ranged-set_head (l ∷ ls) zero l' h h' =
      All-append InRange l' (chain ls) h' (All-right InRange l (chain ls) h)
  ranged-set_head (l ∷ ls) (suc i) l' h h' =
      All-append InRange l (chain (set_head ls i l')) (All-left InRange l (chain ls) h)
        (ranged-set_head ls i l' (All-right InRange l (chain ls) h) h')

  ranged-head_at :
      (ls : List (List ℕ)) (i : ℕ) → All InRange (chain ls) → All InRange (head_at ls i)
  ranged-head_at [] i h = tt
  ranged-head_at (l ∷ ls) zero h = All-left InRange l (chain ls) h
  ranged-head_at (l ∷ ls) (suc i) h = ranged-head_at ls i (All-right InRange l (chain ls) h)

  -- One more entry in a list: the queue with the new list in place is valid.
  module _ (q : SchedQueue) (v : IsValid q) (t : ℕ) (h : InRange t) (l' : List ℕ) where
    abbrev added : SchedQueue
    added =
        let (q', idx) = add_q levels q (cprio t) in record q' { heads = set_head q.heads idx l' }

    added-IsValid :
        length l' ≡ length (head_at q.heads (level_of t)) + 1
        → All (λ x. level_of x ≡ 0 + level_of t) l'
        → All InRange l'
        → IsValid added
    unfolding add_q
    added-IsValid longer at in_range = record {
      small = v.small;
      size = length-set_head q.heads (level_of t) l' ∙ v.size;
      counted =
          omega (arith, v.counted, longer, length-chain-set_head q.heads (level_of t) l' below);
      mapped = λ i b.
          mapped_set q.heads q.prio_map added.prio_map (level_of t) l' below
            (λ j c. v.mapped j (omega (arith, v.size))) bits i (omega (arith, v.size));
      placed = Placed-set_head level_of q.heads 0 (level_of t) l' v.placed at;
      ranged = ranged-set_head q.heads (level_of t) l' v.ranged in_range;
    }
      where
        below : level_of t < length q.heads
        below = omega (arith, level_of_lem t v.small h, v.size)

        bits :
            (i : ℕ)
            → i < length q.heads
            → bit added.prio_map i ≡ (if level_of t == i then busy l' else bit q.prio_map i)
        bits i b = elim (Bool-cases (list_empty (head_at q.heads (level_of t)))) [
          | inl e ↦
              rw e
                (ground (arith, bit-set_pow (level_of t) i q.prio_map, busy_of_length l' _ longer))
          | inr e ↦ rw e (
              ground (
                arith,
                v.mapped (level_of t) (omega (arith, v.size)),
                busy_of_entries _ e,
                busy_of_length l' _ longer,
              ))
        ]

  at_level :
      (t : ℕ) (hs : List (List ℕ))
      → Placed level_of 0 hs
      → All (λ x. level_of x ≡ 0 + level_of t) (head_at hs (level_of t))
  at_level t hs p = Placed-head_at level_of hs 0 (level_of t) p

  -- `evl_add_schedq` keeps the queue valid, for a thread whose priority is in range.
  pub add_schedq-IsValid :
      (q : SchedQueue) (t : ℕ) → IsValid q → InRange t → IsValid (add_schedq levels cprio q t)
  unfolding add_schedq
  add_schedq-IsValid q t v h =
      added-IsValid q v t h (t ∷ head_at q.heads (level_of t)) (omega arith)
        (omega arith, at_level t q.heads v.placed) (h, ranged-head_at q.heads (level_of t) v.ranged)

  -- So does `evl_add_schedq_tail`.
  pub add_schedq_tail-IsValid :
      (q : SchedQueue) (t : ℕ) → IsValid q → InRange t → IsValid (add_schedq_tail levels cprio q t)
  unfolding add_schedq_tail
  add_schedq_tail-IsValid q t v h =
      let l = head_at q.heads (level_of t) in
      added-IsValid q v t h (l ++ (t ∷ [])) (omega (arith, length-append {0} l (t ∷ [])))
        (All-append (λ x. level_of x ≡ 0 + level_of t) l (t ∷ []) (at_level t q.heads v.placed)
          (omega arith, tt))
        (All-append InRange l (t ∷ []) (ranged-head_at q.heads (level_of t) v.ranged) (h, tt))

  contains-InRange : (t : ℕ) (l : List ℕ) → All InRange l → contains t l ≡ true → InRange t
  contains-InRange t [] h e = absurd (ground arith)
  contains-InRange t (x ∷ l) h e = elim (Bool-cases (x == t)) [
    | inl q ↦ subst InRange ((==_iff x t).0 q) h.0
    | inr q ↦ contains-InRange t l h.1 (ground arith)
  ]

  pub queued-InRange :
      (q : SchedQueue) (t : ℕ) → IsValid q → contains t (chain q.heads) ≡ true → InRange t
  queued-InRange q t v c = contains-InRange t (chain q.heads) v.ranged c

  -- The queue of `evl_del_schedq`, with one list changed.
  abbrev removed : SchedQueue → ℕ → SchedQueue
  removed q t =
      let idx = level_of t in
      let heads' = set_head q.heads idx (erase t (head_at q.heads idx)) in
      record q {
        heads = heads';
        elems = u32 (q.elems + 2 ^ 32 - 1);
        prio_map =
            if list_empty (head_at heads' idx)
            then clear_flags levels q.prio_map (2 ^ idx)
            else q.prio_map;
      }

  removed-IsValid :
      (q : SchedQueue) (t : ℕ)
      → IsValid q
      → contains t (chain q.heads) ≡ true
      → IsValid (removed q t)
  removed-IsValid q t v c = record {
    small = v.small;
    size = length-set_head q.heads idx l' ∙ v.size;
    counted = omega (arith, v.counted, shorter, length-chain-set_head q.heads idx l' below);
    mapped = λ i b.
        mapped_set q.heads q.prio_map (removed q t).prio_map idx l' below
          (λ j r. v.mapped j (omega (arith, v.size))) bits i (omega (arith, v.size));
    placed = Placed-set_head level_of q.heads 0 idx l' v.placed (
        All-erase (λ x. level_of x ≡ 0 + idx) t (head_at q.heads idx)
          (at_level t q.heads v.placed));
    ranged =
        ranged-set_head q.heads idx l' v.ranged
          (All-erase InRange t (head_at q.heads idx) (ranged-head_at q.heads idx v.ranged));
  }
    where
      idx : ℕ
      idx = level_of t

      l' : List ℕ
      l' = erase t (head_at q.heads idx)

      below : idx < length q.heads
      below = omega (arith, level_of_lem t v.small (queued-InRange q t v c), v.size)

      shorter : length l' + 1 ≡ length (head_at q.heads idx)
      shorter =
          length-erase t (head_at q.heads idx)
            (contains-head_at level_of t 0 idx q.heads v.placed (omega arith) c)

      at_idx : head_at (set_head q.heads idx l') idx ≡ l'
      at_idx = ground (arith, head_at-set_head q.heads idx idx l' below)

      bits :
          (i : ℕ)
          → i < length q.heads
          → bit (removed q t).prio_map i ≡ (if idx == i then busy l' else bit q.prio_map i)
      bits i b = elim (Bool-cases (list_empty l')) [
        | inl e ↦
            rw (at_idx, e)
              (ground (
                arith,
                busy_of_empty l' e,
                bit-clear_pow levels idx i q.prio_map (omega (arith, v.size, below))
                    (omega (arith, v.size)),
              ))
        | inr e ↦
            rw (at_idx, e)
              (ground (
                arith,
                busy_of_entries l' e,
                busy_of_length (head_at q.heads idx) (length l') (sym shorter),
                v.mapped idx (omega (arith, v.size, below)),
              ))
      ]

  -- `evl_del_schedq` keeps the queue valid, for a thread that is queued.
  pub del_schedq-IsValid :
      (q : SchedQueue) (t : ℕ)
      → IsValid q
      → contains t (chain q.heads) ≡ true
      → IsValid (del_schedq levels cprio q t)
  unfolding del_schedq
  del_schedq-IsValid q t v c =
      rw (map-erase level_of t 0 (level_of t) q.heads v.placed (omega arith))
        (removed-IsValid q t v c)
