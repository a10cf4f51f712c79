-- ===== src/Timer/Run/Tests.antt =====
-- A timer base on a concrete run.
use spacemit_xenomai.Base.{
  ap, ◌∷◌, length, arith, erase, ℕ, ◌+◌, ◌*◌, ◌≤◌, ◌≡◌, ◌↔◌, refl, [], some, true,
}
use spacemit_xenomai.Clock.{Gravity}
use spacemit_xenomai.PrioList.{place}
use spacemit_xenomai.PrioList.Count.{count}
use spacemit_xenomai.Timer.Core.{update_timer_date, enqueue_timer, dequeue_timer}
use spacemit_xenomai.Timer.Queue.{
  insert_tnode, remove_tnode, for_each_tnode, init_tqueue, get_tqueue_head, tqueue_is_empty,
}
use spacemit_xenomai.Timer.Queue.Order.{date_of, Rising}
use spacemit_xenomai.Timer.Run.{
  Timers, dequeued, enqueue, dequeue, reprogram, enqueues, dequeues, reprograms, Reach, here, next,
  IsInitial,
}
use spacemit_xenomai.Timer.Run.Earliest.{timers_lem}
use spacemit_xenomai.Timer.Run.Visits.{for_each_timer_lem}

abbrev gravities : ℕ → Gravity
gravities clock = record { irq = 3; kernel = 5; user = 7 }

-- All timers are off the queue.
abbrev initial : Timers
initial = record {
  timer = λ a. record {
    clock = 1;
    node = a;
    status = 1;
    interval = 0;
    start_date = 0;
    consumed_ticks = 0;
    periodic_ticks = 0;
    rq = 0;
    base = 0;
    handler = 0;
    name = 0;
    scheduled = record { counter = 0 };
    fired = record { counter = 0 };
  };
  dates = λ a. 10 * a;
  queue = [];
}

initial-IsInitial : IsInitial initial
unfolding init_tqueue
initial-IsInitial = record { named = λ a. refl; off = λ a. refl; empty = refl }

-- Timers 3 and 2 are queued, 3 is taken off, gets another date and is queued again.
requeued : Timers
requeued =
    let queued = enqueue (enqueue initial 3) 2 in
    enqueue (reprogram gravities (dequeue queued 3) 3 1 10 1) 3

requeued-Reach : Reach gravities initial requeued
unfolding requeued enqueue dequeue reprogram enqueue_timer dequeue_timer
requeued-Reach =
    let first = enqueue initial 3 in
    let both = enqueue first 2 in
    let off = dequeue both 3 in
    let moved = reprogram gravities off 3 1 10 1 in
    next
      (next
        (next (next (next here (enqueues initial 3 refl)) (enqueues first 2 refl))
          (dequeues both 3 refl))
        (reprograms off 3 1 10 1 refl))
      (enqueues moved 3 refl)

timers_example :
    ((a : ℕ) → count a requeued.queue + dequeued requeued a ≡ 1)
    × Rising requeued.dates requeued.queue
    × ((tqueue_is_empty requeued.queue ≡ true) ↔ ((a : ℕ) → dequeued requeued a ≡ 1))
    × ((a : ℕ)
        → dequeued requeued a ≡ 0
        → (h : ℕ) × (get_tqueue_head requeued.queue ≡ some h)
          × (dequeued requeued h ≡ 0)
          × (date_of requeued.dates h ≤ date_of requeued.dates a))
timers_example = timers_lem gravities initial-IsInitial requeued-Reach

-- Timer 3 comes first with its new date 8, before timer 2 with 20.
requeued_queue : requeued.queue ≡ 3 ∷ 2 ∷ []
unfolding requeued enqueue dequeue reprogram enqueue_timer dequeue_timer insert_tnode remove_tnode
    place erase update_timer_date
requeued_queue = refl

for_each_timer_example :
    (for_each_tnode 5 requeued.queue ≡ requeued.queue)
    × ((a : ℕ) → count a (for_each_tnode 5 requeued.queue) + dequeued requeued a ≡ 1)
for_each_timer_example =
    for_each_timer_lem gravities initial-IsInitial requeued-Reach 5
      (omega (arith, ap length requeued_queue))
