-- ===== src/Timer/Tree/Walk.antt =====
-- The loop over a queue of the scalable form, and that form against the list.
use spacemit_xenomai.Base.{
  ℕ, zero, suc, ◌≡◌, refl, sym, ap, subst, ◌∙◌, inl, inr, Bool-cases, Bool, true, false, List, [],
  ◌∷◌, ◌++◌, Option, none, some, arith, ◌==◌, ==_iff, contains,
}
use spacemit_xenomai.Timer.Queue.{
  first_of, remove_tnode, tqueue_is_empty, get_tqueue_head, get_tqueue_next, visit, for_each_tnode,
}
use spacemit_xenomai.Timer.Tree.{
  RbTree, TreeQueue, tree_queue_is_empty, get_tree_queue_head, get_tree_queue_next,
  remove_tree_node, IsCached, remove_tree_node_refines,
}

-- What stands before the first `n` of a list, and after it.
record Split (n : ℕ) (q : List ℕ) : Type 0 where
  passed : List ℕ
  rest : List ℕ
  whole : q ≡ passed ++ (n ∷ rest)
  fresh : contains n passed ≡ false
  after : get_tqueue_next q n ≡ first_of rest

split : (n : ℕ) (q : List ℕ) → contains n q ≡ true → Split n q
unfolding get_tqueue_next
split n [] h = cc
split n (x ∷ q) h = elim (Bool-cases (x == n)) [
  | inl e ↦ record {
    passed = [];
    rest = q;
    whole = ap (λ y. y ∷ q) ((==_iff x n).0 e);
    fresh = refl;
    after = rw e refl;
  }
  | inr e ↦
      let s = split n q (ground arith) in
      record {
        passed = x ∷ s.passed;
        rest = s.rest;
        whole = ap (λ r. x ∷ r) s.whole;
        fresh = ground (arith, s.fresh);
        after = rw e s.after;
      }
]

next-contains : (q : List ℕ) (n m : ℕ) → get_tqueue_next q n ≡ some m → contains m q ≡ true
unfolding get_tqueue_next
next-contains [] n m e = cc
next-contains (x ∷ q) n m e = elim (Bool-cases (x == n)) [
  | inl at ↦ first q (rw at at e)
  | inr off ↦ ground (arith, next-contains q n m (rw off at e))
]
  where
    first : (q : List ℕ) → first_of q ≡ some m → contains m (x ∷ q) ≡ true
    first [] e = cc
    first (y ∷ q) e = ground (arith, (==_iff m m).1 refl)

unfoldable pub remove_each : List ℕ → List ℕ → List ℕ
remove_each q [] = q
remove_each q (n ∷ ns) = remove_each (remove_tnode q n) ns

-- Each node is queued when it is removed, one after the other.
abbrev pub AllQueued : List ℕ → List ℕ → Type 0
AllQueued q [] = Unit {0}
AllQueued q (n ∷ ns) = (contains n q ≡ true) × AllQueued (remove_tnode q n) ns

abbrev Inside : List ℕ → Option ℕ → Type 0
Inside q none = Unit {0}
Inside q (some n) = contains n q ≡ true

Inside-next : (q : List ℕ) (n : ℕ) (o : Option ℕ) → get_tqueue_next q n ≡ o → Inside q o
Inside-next q n none e = tt
Inside-next q n (some m) e = next-contains q n m e

Inside-head : (q : List ℕ) → Inside q (get_tqueue_head q)
unfolding get_tqueue_head
Inside-head [] = tt
Inside-head (x ∷ q) = ground (arith, (==_iff x x).1 refl)

headed : (q : List ℕ) → first_of q ≡ get_tqueue_head q
unfolding get_tqueue_head
headed [] = refl
headed (x ∷ q) = refl

abbrev emptied : Option ℕ → Bool
emptied o = elim o [ none ↦ true | some n ↦ false ]

emptied-first_of : (q : List ℕ) → emptied (first_of q) ≡ tqueue_is_empty q
unfolding tqueue_is_empty
emptied-first_of [] = refl
emptied-first_of (x ∷ q) = refl

module _ (lib : RbTree) where
  open lib use {nodes, rb_next, rb_next_lem}

  -- `for_each_evl_tnode`: the nodes that the loop visits from `from` on, in at most `fuel` rounds.
  unfoldable pub tree_visit : ℕ → TreeQueue lib → Option ℕ → List ℕ
  tree_visit zero tq from = []
  tree_visit (suc fuel) tq none = []
  tree_visit (suc fuel) tq (some n) = n ∷ tree_visit fuel tq (get_tree_queue_next lib tq n)

  unfoldable pub for_each_tree_node : ℕ → TreeQueue lib → List ℕ
  unfolding tree_visit
  for_each_tree_node fuel tq = tree_visit fuel tq (get_tree_queue_head lib tq)

  next_agrees :
      (tq : TreeQueue lib) (n : ℕ)
      → contains n (nodes tq.root) ≡ true
      → get_tree_queue_next lib tq n ≡ get_tqueue_next (nodes tq.root) n
  unfolding get_tree_queue_next
  next_agrees tq n h =
      let s = split n (nodes tq.root) h in
      rb_next_lem tq.root s.passed n s.rest s.whole s.fresh ∙ sym s.after

  visit_agrees :
      (tq : TreeQueue lib) (fuel : ℕ) (from : Option ℕ)
      → Inside (nodes tq.root) from
      → tree_visit fuel tq from ≡ visit fuel (nodes tq.root) from
  unfolding tree_visit visit
  visit_agrees tq zero from h = refl
  visit_agrees tq (suc fuel) none h = refl
  visit_agrees tq (suc fuel) (some n) h =
      let q = nodes tq.root in
      let e = next_agrees tq n h in
      ap (λ r. n ∷ r)
        (visit_agrees tq fuel (get_tree_queue_next lib tq n)
            (subst (Inside q) (sym e) (Inside-next q n (get_tqueue_next q n) refl))
          ∙ ap (visit fuel q) e)

  unfoldable pub remove_nodes : TreeQueue lib → List ℕ → TreeQueue lib
  remove_nodes tq [] = tq
  remove_nodes tq (n ∷ ns) = remove_nodes (remove_tree_node lib tq n) ns

  removed_all :
      (tq : TreeQueue lib) (ns : List ℕ)
      → AllQueued (nodes tq.root) ns
      → IsCached lib tq
      → IsCached lib (remove_nodes tq ns)
        × (nodes (remove_nodes tq ns).root ≡ remove_each (nodes tq.root) ns)
  unfolding remove_nodes remove_each
  removed_all tq [] h c = (c, refl)
  removed_all tq (n ∷ ns) (queued, rest) c =
      let one = remove_tree_node_refines lib tq n queued c in
      let all =
        removed_all (remove_tree_node lib tq n) ns
          (subst (λ (q : List ℕ). AllQueued q ns) (sym one.1) rest) one.0 in
      (all.0, all.1 ∙ ap (λ q. remove_each q ns) one.1)

  queried :
      (tq : TreeQueue lib)
      → IsCached lib tq
      → (tree_queue_is_empty lib tq ≡ tqueue_is_empty (nodes tq.root))
        × (get_tree_queue_head lib tq ≡ get_tqueue_head (nodes tq.root))
        × ((fuel : ℕ) → for_each_tree_node fuel tq ≡ for_each_tnode fuel (nodes tq.root))
  unfolding tree_queue_is_empty get_tree_queue_head for_each_tree_node for_each_tnode
  queried tq c =
      let q = nodes tq.root in
      let head = c ∙ headed q in
      (
        ap emptied c ∙ emptied-first_of q,
        head,
        λ fuel.
            visit_agrees tq fuel tq.head (subst (Inside q) (sym head) (Inside-head q))
            ∙ ap (visit fuel q) head,
      )

  -- Whatever nodes are removed from a queue of the scalable form whose cached node is right, one
  -- after the other, each queued when it is removed, the cached node stays right, the tree holds what is left of the list if the
  -- same nodes are removed from that, and the test for emptiness, the head, the node after a queued
  -- one and the nodes that the loop visits are those of the plain form on that list. The tree does
  -- what the kernel documents.
  pub tree_queue_refines :
      (tq : TreeQueue lib) (ns : List ℕ)
      → AllQueued (nodes tq.root) ns
      → IsCached lib tq
      → let tq' = remove_nodes tq ns in
        let q = remove_each (nodes tq.root) ns in
        IsCached lib tq'
        × (nodes tq'.root ≡ q)
        × (tree_queue_is_empty lib tq' ≡ tqueue_is_empty q)
        × (get_tree_queue_head lib tq' ≡ get_tqueue_head q)
        × ((n : ℕ) → contains n q ≡ true → get_tree_queue_next lib tq' n ≡ get_tqueue_next q n)
        × ((fuel : ℕ) → for_each_tree_node fuel tq' ≡ for_each_tnode fuel q)
  tree_queue_refines tq ns queued c =
      let tq' = remove_nodes tq ns in
      let (cached, left) = removed_all tq ns queued c in
      let (empty, head, loop) = queried tq' cached in
      (
        cached,
        left,
        empty ∙ ap tqueue_is_empty left,
        head ∙ ap get_tqueue_head left,
        (λ n h.
            next_agrees tq' n (subst (λ r. contains n r ≡ true) (sym left) h)
            ∙ ap (λ r. get_tqueue_next r n) left),
        (λ fuel. loop fuel ∙ ap (for_each_tnode fuel) left),
      )
