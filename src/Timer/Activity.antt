-- ===== src/Timer/Activity.antt =====
-- Queueing a timer and taking it off again.
use spacemit_xenomai.Base.{
  contains, ℕ, ◌+◌, ◌<◌, ◌≡◌, ◌≢◌, refl, ◌∙◌, true, false, List, [], ◌∷◌, reverse, arith, ==_iff,
  if◌then◌else◌, u64, bit, bit-set_pow, bit-clear_pow, clear_flags, append-nil,
}
use mathlib.Core.List.{reverse-reverse}
use spacemit_xenomai.PrioList.Removal.{erase-place, contains-place, contains-reverse}
use spacemit_xenomai.Stat.Counter.{inc_counter}
use spacemit_xenomai.Timer.Queue.{insert_tnode, remove_tnode}
use spacemit_xenomai.Timer.Core.{Timer, enqueue_timer, dequeue_timer}

contains-insert_tnode :
    (dates : ℕ → ℕ) (q : List ℕ) (n : ℕ) → contains n (insert_tnode dates q n) ≡ true
unfolding insert_tnode
contains-insert_tnode dates [] n = ground (arith, (==_iff n n).1 refl)
contains-insert_tnode dates (x ∷ q) n = contains-place _ n (reverse (x ∷ q)) []

remove-insert_tnode :
    (dates : ℕ → ℕ) (q : List ℕ) (n : ℕ)
    → contains n q ≡ false
    → remove_tnode (insert_tnode dates q n) n ≡ q
unfolding insert_tnode remove_tnode
remove-insert_tnode dates [] n h = ground (arith, (==_iff n n).1 refl)
remove-insert_tnode dates (x ∷ q) n h =
    erase-place _ n (reverse (x ∷ q)) [] (contains-reverse n (x ∷ q) ∙ h)
    ∙ append-nil _
    ∙ reverse-reverse (x ∷ q)

-- EVL_TIMER_DEQUEUED, digit 0 of the status, says whether the timer's node is off the queue.
abbrev pub Tracks : Timer → List ℕ → Type 0
Tracks t q = bit t.status 0 ≡ (if contains t.node q then 0 else 1)

-- For a timer whose node is not queued `evl_enqueue_timer` queues it, clears EVL_TIMER_DEQUEUED and
-- no other digit of the status, and counts one more event; `evl_dequeue_timer` after it sets
-- EVL_TIMER_DEQUEUED again and restores the queue.
pub enqueue_timer_lem :
    (dates : ℕ → ℕ) (t : Timer) (q : List ℕ)
    → contains t.node q ≡ false
    → let (on, queue) = enqueue_timer dates t q in
      let (off, queue') = dequeue_timer on queue in
      (contains t.node queue ≡ true)
      × Tracks on queue
      × ((k : ℕ) → k < 32 → k ≢ 0 → bit on.status k ≡ bit t.status k)
      × (on.scheduled.counter ≡ u64 (t.scheduled.counter + 1))
      × (queue' ≡ q)
      × Tracks off queue'
unfolding enqueue_timer dequeue_timer inc_counter
enqueue_timer_lem dates t q h = (
  contains-insert_tnode dates q t.node,
  rw (contains-insert_tnode dates q t.node) (ground (arith, bit-clear_pow 32 0 0 t.status)),
  (λ k b ne. ground (arith, bit-clear_pow 32 0 k t.status)),
  refl,
  remove-insert_tnode dates q t.node h,
  rw (remove-insert_tnode dates q t.node h, h)
      (ground (arith, bit-set_pow 0 0 (clear_flags 32 t.status 1))),
)
