-- ===== src/Gpio.antt =====
-- kernel-overlay/include/evl/devices/gpio.h: what the GPIO driver keeps for out-of-band users.
use spacemit_xenomai.File.{EvlFile}
use spacemit_xenomai.Poll.{PollHead}
use spacemit_xenomai.Wait.{WaitQueue}

-- `struct lineevent_oob_state`, less its lock; without CONFIG_EVL it has the file alone.
pub record LineeventOobState : Type 0 where
  pub efile : EvlFile
  pub poll_head : PollHead
  pub wait : WaitQueue

pub record PlainLineeventOobState : Type 0 where
  pub efile : EvlFile

pub record LinehandleOobState : Type 0 where
  pub efile : EvlFile
