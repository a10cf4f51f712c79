-- ===== src/SchedQueue/Linear.antt =====
-- kernel-overlay/include/evl/sched/queue.h, without CONFIG_EVL_SCHED_SCALABLE: one list, sorted by
-- falling priority.
use spacemit_xenomai.Base.{erase, ℕ, List, [], ◌∷◌, Option, none, signed32}
use spacemit_xenomai.PrioList.{list_add_priff, list_add_prilf, list_get_entry}

unfoldable pub init_schedq : List ℕ
init_schedq = []

unfoldable pub get_schedq : List ℕ → Option (ℕ × List ℕ)
unfolding list_get_entry
get_schedq [] = none
get_schedq (x ∷ xs) = list_get_entry (x ∷ xs)

module _ (cprio : ℕ → ℕ) where
  -- `int` priorities in their order.
  abbrev pub prio_of : ℕ → ℕ
  prio_of t = signed32 (cprio t)

  unfoldable pub add_schedq : List ℕ → ℕ → List ℕ
  unfolding list_add_prilf
  add_schedq head thread = list_add_prilf prio_of thread head

  unfoldable pub add_schedq_tail : List ℕ → ℕ → List ℕ
  unfolding list_add_priff
  add_schedq_tail head thread = list_add_priff prio_of thread head

unfoldable pub del_schedq : List ℕ → ℕ → List ℕ
unfolding erase
del_schedq head thread = erase thread head
