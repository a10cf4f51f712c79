-- ===== src/Timer/Tree.antt =====
-- kernel-overlay/include/evl/timer.h, with CONFIG_EVL_TIMER_SCALABLE: a red-black tree of nodes by
-- date, with its first node cached. The tree is the kernel's, and `evl_insert_tnode` is not under
-- the repository's root in this form, so only the operations that timer.h defines are here.
pub mod Walk
use spacemit_xenomai.Base.{
  erase, contains, ℕ, ◌≡◌, refl, ap, ◌∙◌, sym, inl, inr, Bool, true, false, List, [], ◌∷◌, ◌++◌,
  Option, none, some, arith, ◌==◌, ==_iff, Bool-cases, if◌then◌else◌,
}
use spacemit_xenomai.Timer.Queue.{first_of, remove_tnode}

-- What the kernel documents of its trees: `nodes` is the sequence of the nodes in their order. Of
-- erasing a node that is not in the tree nothing is said.
pub record RbTree : Type 1 where
  pub Root : Type 0
  pub nodes : Root → List ℕ
  pub rb_root : Root
  pub rb_next : Root → ℕ → Option ℕ
  pub rb_erase : Root → ℕ → Root
  pub nodes-rb_root : nodes rb_root ≡ []
  pub rb_next_lem :
      (t : Root) (passed : List ℕ) (n : ℕ) (rest : List ℕ)
      → nodes t ≡ passed ++ (n ∷ rest)
      → contains n passed ≡ false
      → rb_next t n ≡ first_of rest
  pub nodes-rb_erase :
      (t : Root) (n : ℕ) → contains n (nodes t) ≡ true → nodes (rb_erase t n) ≡ erase n (nodes t)

module _ (lib : RbTree) where
  open lib use {Root, nodes, rb_root, rb_next, rb_erase, nodes-rb_root, rb_next_lem, nodes-rb_erase}

  pub record TreeQueue : Type 0 where
    pub root : Root
    pub head : Option ℕ

  unfoldable pub init_tree_queue : TreeQueue
  init_tree_queue = record { root = rb_root; head = none }

  unfoldable pub tree_queue_is_empty : TreeQueue → Bool
  tree_queue_is_empty tq = elim tq.head [ none ↦ true | some n ↦ false ]

  unfoldable pub get_tree_queue_head : TreeQueue → Option ℕ
  get_tree_queue_head tq = tq.head

  unfoldable pub get_tree_queue_next : TreeQueue → ℕ → Option ℕ
  get_tree_queue_next tq n = rb_next tq.root n

  -- `node == tq->head`
  abbrev is_head : Option ℕ → ℕ → Bool
  is_head none n = false
  is_head (some h) n = n == h

  unfoldable pub remove_tree_node : TreeQueue → ℕ → TreeQueue
  unfolding get_tree_queue_next
  remove_tree_node tq n = record {
    head = if is_head tq.head n then get_tree_queue_next tq n else tq.head;
    root = rb_erase tq.root n;
  }

  -- The cache is right: `head` is the first node of the tree.
  abbrev pub IsCached : TreeQueue → Type 0
  IsCached tq = tq.head ≡ first_of (nodes tq.root)

  init_tree_queue-IsCached : IsCached init_tree_queue
  unfolding init_tree_queue
  init_tree_queue-IsCached = ap first_of (sym nodes-rb_root)

  removed :
      (tq : TreeQueue) (n : ℕ) (ns : List ℕ)
      → nodes tq.root ≡ ns
      → tq.head ≡ first_of ns
      → (remove_tree_node tq n).head ≡ first_of (erase n ns)
  unfolding remove_tree_node erase
  removed tq n [] e h = ground arith
  removed tq n (x ∷ ns) e h = elim (Bool-cases (x == n)) [
    | inl at ↦
        let same = (==_iff x n).0 at in
        ground (arith, rb_next_lem tq.root [] n ns (e ∙ ap (λ y. y ∷ ns) same) refl)
    | inr off ↦ ground arith
  ]

  -- `evl_remove_tnode` of the scalable form keeps the cached node right, and does to the sequence
  -- of nodes what that of the plain form does, for a node that is in the tree and any tree that does
  -- what the kernel documents.
  pub remove_tree_node_refines :
      (tq : TreeQueue) (n : ℕ)
      → contains n (nodes tq.root) ≡ true
      → IsCached tq
      → IsCached (remove_tree_node tq n)
        × (nodes (remove_tree_node tq n).root ≡ remove_tnode (nodes tq.root) n)
  unfolding remove_tnode
  remove_tree_node_refines tq n queued c =
      let after = erased tq n queued in
      (removed tq n (nodes tq.root) refl c ∙ ap first_of (sym after), after)
    where
      erased :
          (tq : TreeQueue) (n : ℕ)
          → contains n (nodes tq.root) ≡ true
          → nodes (remove_tree_node tq n).root ≡ erase n (nodes tq.root)
      erased tq n queued = unfold remove_tree_node in nodes-rb_erase tq.root n queued
