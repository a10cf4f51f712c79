-- ===== src/SchedQueue/Tests.antt =====
-- The queue of runnable threads on concrete inputs. A thread's priority is its address.
use spacemit_xenomai.Base.{
  ℕ, zero, suc, ◌+◌, ◌≤◌, ◌<◌, ◌≡◌, refl, ap, ◌∙◌, List, [], ◌∷◌, arith, ◌==◌, if◌then◌else◌, erase,
  All, bit,
}
use spacemit_xenomai.PrioList.{list_add_priff, list_add_prilf, list_add_pri}
use spacemit_xenomai.PrioList.Order.{Sorted}
use spacemit_xenomai.SchedQueue.Linear
use spacemit_xenomai.SchedQueue.Run.{
  QueueOp, run_scalable, run_plain, apply_plain, run_scalable_refines,
}
use spacemit_xenomai.SchedQueue.Linear.{prio_of}
use spacemit_xenomai.SchedQueue.Mlq
use spacemit_xenomai.SchedQueue.Mlq.{SchedQueue, FindFirstBit, head_at, get_qindex, add_q}
use spacemit_xenomai.SchedQueue.Mlq.Fresh.{no_threads, no_threads-IsValid}
use spacemit_xenomai.SchedQueue.Mlq.Heads.{chain}
use spacemit_xenomai.SchedQueue.Mlq.Invariant.{IsValid, level_of, add_schedq-IsValid}
use spacemit_xenomai.SchedQueue.Refine.{get_schedq_weight_lem}

abbrev by_address : ℕ → ℕ
by_address t = t

abbrev queued : List ℕ
queued = 7 ∷ 5 ∷ 5 ∷ 2 ∷ []

abbrev empty : SchedQueue
empty = no_threads 8

empty-IsValid : IsValid 8 by_address empty
empty-IsValid = no_threads-IsValid 8 by_address (omega arith)

-- One thread of priority 3, on level 4.
abbrev one_thread : SchedQueue
one_thread = record {
  elems = 1;
  prio_map = 16;
  heads = [] ∷ [] ∷ [] ∷ [] ∷ (3 ∷ []) ∷ [] ∷ [] ∷ [] ∷ [];
}

one_thread-IsValid : IsValid 8 by_address one_thread
unfolding Mlq.add_schedq add_q get_qindex
one_thread-IsValid = add_schedq-IsValid 8 by_address empty 3 empty-IsValid (omega arith)

-- A search of the digits from `k` on, over `n` of them.
abbrev find_from : ℕ → ℕ → ℕ → ℕ
find_from zero map k = k
find_from (suc n) map k = if bit map k == 1 then k else find_from n map (suc k)

find_from-found :
    (n map j k : ℕ)
    → j ≤ k
    → k < j + n
    → bit map k ≡ 1
    → ((i : ℕ) → i < k → bit map i ≡ 0)
    → find_from n map j ≡ k
find_from-found zero map j k le lt set clear = omega arith
find_from-found (suc n) map j k le lt set clear =
    ground (arith, clear j, find_from-found n map (suc j) k, ap (λ i. bit map i))

find_from-not_found :
    (n map j : ℕ) → ((i : ℕ) → i < j + n → bit map i ≡ 0) → find_from n map j ≡ j + n
find_from-not_found zero map j clear = omega arith
find_from-not_found (suc n) map j clear = ground (arith, clear j, find_from-not_found n map (suc j))

abbrev search_bits : FindFirstBit
search_bits = record {
  find_first_bit = λ map size. find_from size map 0;
  found =
      λ map size k lt set clear. find_from-found size map 0 k (omega arith) (omega arith) set clear;
  not_found =
      λ map size clear. find_from-not_found size map 0 (λ i h. clear i (omega arith)) ∙ omega arith;
}

get_schedq_weight_example :
    (chain one_thread.heads ≡ [] → Mlq.get_schedq_weight search_bits 8 one_thread ≡ 8)
    × ((t : ℕ) (rest : List ℕ)
        → chain one_thread.heads ≡ t ∷ rest
        → (Mlq.get_schedq_weight search_bits 8 one_thread ≡ level_of 8 by_address t)
          × All (λ y. prio_of by_address y ≤ prio_of by_address t) rest)
get_schedq_weight_example =
    get_schedq_weight_lem 8 by_address search_bits one_thread one_thread-IsValid

-- 3 and then 5 come, 5 behind those of its priority, and 3 goes.
abbrev operations : List QueueOp
operations = QueueOp.add 3 ∷ QueueOp.add_tail 5 ∷ QueueOp.del 3 ∷ []

run_scalable_refines_example :
    (chain (run_scalable 8 by_address empty operations).heads ≡ 5 ∷ [])
    × Sorted (prio_of by_address) (5 ∷ [])
    × IsValid 8 by_address (run_scalable 8 by_address empty operations)
unfolding run_plain apply_plain Linear.add_schedq Linear.add_schedq_tail Linear.del_schedq
    list_add_priff list_add_prilf list_add_pri erase
run_scalable_refines_example =
    run_scalable_refines 8 by_address empty operations empty-IsValid
      (omega arith, (omega arith, (refl, tt)))
