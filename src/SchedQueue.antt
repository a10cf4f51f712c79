-- ===== src/SchedQueue.antt =====
-- kernel-overlay/include/evl/sched/queue.h: the queue of runnable threads, in the two forms that
-- CONFIG_EVL_SCHED_SCALABLE chooses from. A thread is named by its address; `cprio` gives the
-- current priority, an `int`, that an address holds.
pub mod Linear
pub mod Mlq
pub mod Refine
pub mod Run
mod Tests
