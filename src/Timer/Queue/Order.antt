-- ===== src/Timer/Queue/Order.antt =====
-- The queue stays sorted by date, and timers of one date keep the order of their arrival.
use mathlib.Core.Path.{fun_ext}
use spacemit_xenomai.Base.{
  some, subst, All-erase, ℕ, ◌-◌, ◌^◌, ◌≤◌, ◌≡◌, refl, ap, ap₂, ◌∙◌, inl, inr, List, [], ◌∷◌, ◌++◌,
  reverse, arith, ltb, leb, ◌==◌, Bool-cases, All, All-mono, signed64,
}
use spacemit_xenomai.PrioList.{place, list_add_priff}
use spacemit_xenomai.PrioList.Order.{keep, Sorted, list_add_priff_lem}
use spacemit_xenomai.Timer.Queue.{insert_tnode, remove_tnode, init_tqueue, get_tqueue_head}

module _ (date : ℕ → ℕ) where
  -- The date of a node as a signed number, moved up to be none below 0.
  abbrev pub date_of : ℕ → ℕ
  date_of n = signed64 (date n)

  -- The queue of a clock: dates rise.
  abbrev pub Rising : List ℕ → Type 0
  Rising [] = Unit
  Rising (n ∷ ns) = All (λ m. date_of n ≤ date_of m) ns × Rising ns

  -- Late is low: with the distance to the end of time for a priority the list is one of list.h.
  abbrev pub urgency : ℕ → ℕ
  urgency n = 2 ^ 64 - date_of n

  urgency-ltb : (a b : ℕ) → leb (urgency a) (urgency b) ≡ leb (date_of b) (date_of a)
  urgency-ltb a b = ground arith

  Rising-Sorted : (q : List ℕ) → Rising q → Sorted urgency q
  Rising-Sorted [] r = tt
  Rising-Sorted (n ∷ ns) r = (
    All-mono (λ m. date_of n ≤ date_of m) (λ m. urgency m ≤ urgency n) ns (λ m h. omega arith) r.0,
    Rising-Sorted ns r.1,
  )

  Sorted-Rising : (q : List ℕ) → Sorted urgency q → Rising q
  Sorted-Rising [] s = tt
  Sorted-Rising (n ∷ ns) s = (
    All-mono (λ m. urgency m ≤ urgency n) (λ m. date_of n ≤ date_of m) ns (λ m h. omega arith) s.0,
    Sorted-Rising ns s.1,
  )

  pub insert-list_add_priff :
      (q : List ℕ) (node : ℕ) → insert_tnode date q node ≡ list_add_priff urgency node q
  unfolding insert_tnode list_add_priff
  insert-list_add_priff [] node = refl
  insert-list_add_priff (x ∷ xs) node =
      ap (λ stop. place stop node (reverse (x ∷ xs)) []) (fun_ext λ n. ground arith)

  -- `evl_insert_tnode` on a queue sorted by date puts the node behind all nodes of its date or an
  -- earlier one and before all later ones, in their order, and the result is sorted by date.
  pub insert_tnode_lem :
      (q : List ℕ) (node : ℕ)
      → Rising q
      → (insert_tnode date q node
          ≡ keep (λ n. leb (date_of n) (date_of node)) q
            ++ (node ∷ keep (λ n. ltb (date_of node) (date_of n)) q))
        × Rising (insert_tnode date q node)
  insert_tnode_lem q node r =
      let same = insert-list_add_priff q node in
      let (lands, sorted) = list_add_priff_lem urgency node q (Rising-Sorted q r) in
      (
        same
            ∙ lands
            ∙ ap₂ (λ p r'. keep p q ++ (node ∷ keep r' q)) (fun_ext λ n. ground arith)
                (fun_ext λ n. ground arith),
        rw same (Sorted-Rising (list_add_priff urgency node q) sorted),
      )

  pub remove-Rising : (q : List ℕ) (node : ℕ) → Rising q → Rising (remove_tnode q node)
  unfolding remove_tnode
  remove-Rising [] node r = tt
  remove-Rising (n ∷ ns) node r = elim (Bool-cases (n == node)) [
    | inl e ↦ rw e r.1
    | inr e ↦ rw e (All-erase (λ m. date_of n ≤ date_of m) node ns r.0, remove-Rising ns node r.1)
  ]

-- What the code does to a queue, with the node that it is done to.
pub data QueueOp : Type 0 where
  inserts : ℕ → QueueOp
  removes : ℕ → QueueOp

module _ (date : ℕ → ℕ) where
  unfoldable pub apply_op : List ℕ → QueueOp → List ℕ
  apply_op q (inserts n) = insert_tnode date q n
  apply_op q (removes n) = remove_tnode q n

  unfoldable pub run_ops : List ℕ → List QueueOp → List ℕ
  unfolding apply_op
  run_ops q [] = q
  run_ops q (op ∷ ops) = run_ops (apply_op q op) ops

  run_ops-Rising : (q : List ℕ) (ops : List QueueOp) → Rising date q → Rising date (run_ops q ops)
  unfolding run_ops
  run_ops-Rising q [] r = r
  run_ops-Rising q (inserts n ∷ ops) r =
      run_ops-Rising (insert_tnode date q n) ops (insert_tnode_lem date q n r).1
  run_ops-Rising q (removes n ∷ ops) r =
      run_ops-Rising (remove_tnode q n) ops (remove-Rising date q n r)

  -- After any sequence of insertions and removals from the initial queue on, with the dates of the
  -- nodes fixed, the queue is sorted by date, and no queued node has an earlier date than the node
  -- that `evl_get_tqueue_head` returns.
  pub head_earliest :
      (ops : List QueueOp)
      → let q = run_ops init_tqueue ops in
        Rising date q
        × ((n : ℕ) → get_tqueue_head q ≡ some n → All (λ m. date_of date n ≤ date_of date m) q)
  unfolding init_tqueue
  head_earliest ops = (rising, λ n e. first n (run_ops [] ops) rising e)
    where
      rising : Rising date (run_ops [] ops)
      rising = run_ops-Rising [] ops tt

      first :
          (n : ℕ) (q : List ℕ)
          → Rising date q
          → get_tqueue_head q ≡ some n
          → All (λ m. date_of date n ≤ date_of date m) q
      first n [] r e = tt
      first n (x ∷ q) r e =
          let same : x ≡ n = unfold get_tqueue_head in cc in
          subst (λ k. All (λ m. date_of date k ≤ date_of date m) (x ∷ q)) same (omega arith, r.0)
