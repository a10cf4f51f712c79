-- ===== src/Stat.antt =====
-- kernel-overlay/include/evl/stat.h, with CONFIG_EVL_RUNSTATS.
pub mod Counter
pub mod Account
pub mod Off
mod Tests
