-- ===== src/Timer.antt =====
-- kernel-overlay/include/evl/timer.h: timer queues in both forms, timers and their dates.
pub mod Queue
pub mod Tree
pub mod Core
pub mod Up
pub mod Base
pub mod Date
pub mod Run
pub mod Activity
mod Tests
