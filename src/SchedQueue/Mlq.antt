-- ===== src/SchedQueue/Mlq.antt =====
-- kernel-overlay/include/evl/sched/queue.h, with CONFIG_EVL_SCHED_SCALABLE: one list for each
-- priority level, a count of the entries, and a bitmap of the levels that have any.
-- `evl_init_schedq` and `__evl_get_schedq` are not under the repository's root: the first is left
-- out, the second is an argument. So is `find_first_bit` of the kernel's bitmap library.
pub mod Heads
pub mod Entries
pub mod Invariant
pub mod Agree
pub mod Fresh
use spacemit_xenomai.Base.{
  erase, ℕ, zero, suc, ◌+◌, ◌-◌, ◌^◌, ◌<◌, ◌≤◌, ◌≡◌, Bool, true, false, List, [], ◌∷◌, ◌++◌, map,
  Option, none, if◌then◌else◌, ◌==◌, bit, u32, set_flags, clear_flags,
}

pub record SchedQueue : Type 0 where
  pub elems : ℕ  -- int
  pub prio_map : ℕ  -- EVL_MLQ_LEVELS bits
  pub heads : List (List ℕ)

abbrev pub list_empty : List ℕ → Bool
list_empty [] = true
list_empty (x ∷ xs) = false

-- `q->heads[idx]`
abbrev pub head_at : List (List ℕ) → ℕ → List ℕ
head_at [] idx = []
head_at (l ∷ ls) zero = l
head_at (l ∷ ls) (suc idx) = head_at ls idx

abbrev pub set_head : List (List ℕ) → ℕ → List ℕ → List (List ℕ)
set_head [] idx l' = []
set_head (l ∷ ls) zero l' = l' ∷ ls
set_head (l ∷ ls) (suc idx) l' = l ∷ set_head ls idx l'

-- `levels` stands for EVL_MLQ_LEVELS.
module _ (levels : ℕ) where
  -- The subtractions are those of `int`.
  unfoldable pub get_qindex : ℕ → ℕ
  get_qindex prio = u32 (u32 (levels + 2 ^ 32 - prio) + 2 ^ 32 - 1)

  -- The queue, and the index of the head that `add_q` returns.
  unfoldable pub add_q : SchedQueue → ℕ → SchedQueue × ℕ
  unfolding get_qindex
  add_q q prio =
      let idx = get_qindex prio in
      (
        record q {
          elems = u32 (q.elems + 1);
          prio_map =
              if list_empty (head_at q.heads idx)
              then set_flags q.prio_map (2 ^ idx)
              else q.prio_map;
        },
        idx,
      )

  unfoldable pub add_schedq : (ℕ → ℕ) → SchedQueue → ℕ → SchedQueue
  unfolding add_q
  add_schedq cprio q thread =
      let (q', idx) = add_q q (cprio thread) in
      record q' { heads = set_head q'.heads idx (thread ∷ head_at q'.heads idx) }

  unfoldable pub add_schedq_tail : (ℕ → ℕ) → SchedQueue → ℕ → SchedQueue
  unfolding add_q
  add_schedq_tail cprio q thread =
      let (q', idx) = add_q q (cprio thread) in
      record q' { heads = set_head q'.heads idx (head_at q'.heads idx ++ (thread ∷ [])) }

  -- `list_del` unlinks the entry from the list that it stands in, whatever `idx` says.
  unfoldable pub del_schedq_at : SchedQueue → ℕ → ℕ → SchedQueue
  unfolding erase
  del_schedq_at q entry idx =
      let heads' = map (erase entry) q.heads in
      record q {
        heads = heads';
        elems = u32 (q.elems + 2 ^ 32 - 1);
        prio_map =
            if list_empty (head_at heads' idx)
            then clear_flags levels q.prio_map (2 ^ idx)
            else q.prio_map;
      }

  unfoldable pub del_schedq : (ℕ → ℕ) → SchedQueue → ℕ → SchedQueue
  unfolding del_schedq_at get_qindex
  del_schedq cprio q thread = del_schedq_at q thread (get_qindex (cprio thread))

-- `next` stands for `__evl_get_schedq`.
unfoldable pub get_schedq :
    (SchedQueue → Option (ℕ × SchedQueue)) → SchedQueue → Option (ℕ × SchedQueue)
get_schedq next q = let rest = next q in if q.elems == 0 then none else rest

-- What the kernel's bitmap library documents of `find_first_bit(map, size)`: the number of the
-- first set bit, or `size` where no bit is set.
pub record FindFirstBit : Type 0 where
  pub find_first_bit : ℕ → ℕ → ℕ
  pub found :
      (map size k : ℕ)
      → k < size
      → bit map k ≡ 1
      → ((j : ℕ) → j < k → bit map j ≡ 0)
      → find_first_bit map size ≡ k
  pub not_found :
      (map size : ℕ) → ((j : ℕ) → j < size → bit map j ≡ 0) → find_first_bit map size ≡ size

unfoldable pub get_schedq_weight : FindFirstBit → ℕ → SchedQueue → ℕ
get_schedq_weight lib levels q = lib.find_first_bit q.prio_map levels
