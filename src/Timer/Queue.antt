-- ===== src/Timer/Queue.antt =====
-- kernel-overlay/include/evl/timer.h, without CONFIG_EVL_TIMER_SCALABLE: a list of nodes by rising
-- date. A node is named by its address; `date` gives the `ktime_t` that it holds.
pub mod Order
pub mod Walk
use spacemit_xenomai.Base.{
  erase, ℕ, zero, suc, Bool, true, false, List, [], ◌∷◌, ◌++◌, reverse, Option, none, some, leb,
  ◌==◌, if◌then◌else◌, signed64,
}
use spacemit_xenomai.PrioList.{place}

unfoldable pub init_tqueue : List ℕ
init_tqueue = []

unfoldable pub tqueue_is_empty : List ℕ → Bool
tqueue_is_empty [] = true
tqueue_is_empty (n ∷ ns) = false

unfoldable pub get_tqueue_head : List ℕ → Option ℕ
get_tqueue_head [] = none
get_tqueue_head (n ∷ ns) = some n

abbrev pub first_of : List ℕ → Option ℕ
first_of [] = none
first_of (n ∷ ns) = some n

-- `none` where the node is the last; the code is never asked for a node that is not queued.
unfoldable pub get_tqueue_next : List ℕ → ℕ → Option ℕ
get_tqueue_next [] node = none
get_tqueue_next (n ∷ ns) node = if n == node then first_of ns else get_tqueue_next ns node

-- The dates are compared as signed numbers.
unfoldable pub insert_tnode : (ℕ → ℕ) → List ℕ → ℕ → List ℕ
insert_tnode date [] node = node ∷ []
insert_tnode date (x ∷ xs) node =
    place (λ n. leb (signed64 (date n)) (signed64 (date node))) node (reverse (x ∷ xs)) []

unfoldable pub remove_tnode : List ℕ → ℕ → List ℕ
unfolding erase
remove_tnode tq node = erase node tq

-- `for_each_evl_tnode`: the nodes that the loop visits from `node` on, in at most `fuel` rounds.
unfoldable pub visit : ℕ → List ℕ → Option ℕ → List ℕ
visit zero tq from = []
visit (suc fuel) tq none = []
visit (suc fuel) tq (some n) = n ∷ visit fuel tq (get_tqueue_next tq n)

unfoldable pub for_each_tnode : ℕ → List ℕ → List ℕ
unfolding visit
for_each_tnode fuel tq = visit fuel tq (get_tqueue_head tq)
