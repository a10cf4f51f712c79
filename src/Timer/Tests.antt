-- ===== src/Timer/Tests.antt =====
-- The timer queues on concrete inputs: nodes 1, 2 and 3 have the dates 10, 20 and 30.
use spacemit_xenomai.Base.{
  true, ℕ, ◌+◌, ◌*◌, ◌≡◌, refl, ap, ◌∙◌, false, some, List, [], ◌∷◌, ◌++◌, arith, ltb, leb, ==_iff,
  contains, erase, u64,
}
use spacemit_xenomai.Clock.{Gravity}
use spacemit_xenomai.PrioList.Order.{keep}
use spacemit_xenomai.Timer.Queue.{
  get_tqueue_head, get_tqueue_next, first_of, insert_tnode, remove_tnode, tqueue_is_empty,
  for_each_tnode,
}
use spacemit_xenomai.Timer.Queue.Order.{Rising, date_of, insert_tnode_lem}
use spacemit_xenomai.Timer.Tree.{
  RbTree, TreeQueue, IsCached, tree_queue_is_empty, get_tree_queue_head, get_tree_queue_next,
}
use spacemit_xenomai.Timer.Tree.Walk.{
  remove_nodes, remove_each, for_each_tree_node, tree_queue_refines,
}
use spacemit_xenomai.Timer.Core.{Timer, get_timer_expiry, get_timer_next_date, update_timer_date}
use spacemit_xenomai.Timer.Date.{update_timer_date_expiry}

abbrev tens : ℕ → ℕ
tens n = 10 * n

abbrev pending : List ℕ
pending = 1 ∷ 3 ∷ []

pending-Rising : Rising tens pending
pending-Rising = omega arith

insert_tnode_example :
    (insert_tnode tens pending 2
      ≡ keep (λ n. leb (date_of tens n) (date_of tens 2)) pending
        ++ (2 ∷ keep (λ n. ltb (date_of tens 2) (date_of tens n)) pending))
    × Rising tens (insert_tnode tens pending 2)
insert_tnode_example = insert_tnode_lem tens pending 2 pending-Rising

-- A tree as the sequence of its nodes.
rb_next-list :
    (passed : List ℕ) (n : ℕ) (rest : List ℕ)
    → contains n passed ≡ false
    → get_tqueue_next (passed ++ (n ∷ rest)) n ≡ first_of rest
unfolding get_tqueue_next
rb_next-list [] n rest h = ground (arith, (==_iff n n).1 refl)
rb_next-list (p ∷ passed) n rest h = ground (arith, rb_next-list passed n rest)

abbrev list_tree : RbTree
list_tree = record {
  Root = List ℕ;
  nodes = λ t. t;
  rb_root = [];
  rb_next = get_tqueue_next;
  rb_erase = λ t n. erase n t;
  nodes-rb_root = refl;
  rb_next_lem =
      λ t passed n rest e h. ap (λ q. get_tqueue_next q n) e ∙ rb_next-list passed n rest h;
  nodes-rb_erase = λ t n h. refl;
}

abbrev cached : TreeQueue list_tree
cached = record { root = pending; head = some 1 }

-- Node 1 is removed, which is the first one, and then 3, which is the first by then.
tree_queue_example :
    let tq' = remove_nodes list_tree cached (1 ∷ 3 ∷ []) in
    let q = remove_each pending (1 ∷ 3 ∷ []) in
    IsCached list_tree tq'
    × (tq'.root ≡ q)
    × (tree_queue_is_empty list_tree tq' ≡ tqueue_is_empty q)
    × (get_tree_queue_head list_tree tq' ≡ get_tqueue_head q)
    × ((n : ℕ) → contains n q ≡ true → get_tree_queue_next list_tree tq' n ≡ get_tqueue_next q n)
    × ((fuel : ℕ) → for_each_tree_node list_tree fuel tq' ≡ for_each_tnode fuel q)
unfolding remove_tnode erase
tree_queue_example = tree_queue_refines list_tree cached (1 ∷ 3 ∷ []) (refl, (refl, tt)) refl

left_over : remove_each pending (1 ∷ 3 ∷ []) ≡ []
unfolding remove_each remove_tnode erase
left_over = refl

abbrev gravities : ℕ → Gravity
gravities clock = record { irq = 3; kernel = 5; user = 7 }

-- Node 2, started at 100, every 50.
abbrev periodic : Timer
periodic = record {
  clock = 1;
  node = 2;
  status = 69;
  interval = 50;
  start_date = 100;
  consumed_ticks = 4;
  periodic_ticks = 4;
  rq = 0;
  base = 0;
  handler = 0;
  name = 0;
  scheduled = record { counter = 8 };
  fired = record { counter = 7 };
}

update_timer_date_example :
    let expiry = λ (s : Timer). get_timer_expiry gravities (update_timer_date gravities tens s) s in
    (expiry periodic ≡ 300)
    × (periodic.consumed_ticks ≡ periodic.periodic_ticks
        → expiry periodic ≡ get_timer_next_date periodic)
    × (expiry (record periodic { periodic_ticks = 5 }) ≡ u64 (expiry periodic + 50))
update_timer_date_example =
    update_timer_date_expiry gravities tens periodic
      (record { irq = omega arith; kernel = omega arith; user = omega arith })
