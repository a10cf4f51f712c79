-- ===== src/Abi/Constants.antt =====
-- kernel-overlay/include/uapi/evl: the numbers that the core and its users share. Negative values
-- and complements are those of 32-bit words.
use spacemit_xenomai.Base.{ℕ, ◌-◌, ◌*◌, ◌^◌, bit_and, u32, neg32}

-- clock-abi.h, of the ids CLOCK_MONOTONIC and CLOCK_REALTIME of the kernel.
abbrev pub clock_monotonic : ℕ → ℕ
clock_monotonic id = neg32 id

abbrev pub clock_realtime : ℕ → ℕ
clock_realtime id = neg32 id

-- control-abi.h: the oldest ABI that this core serves, and its own.
abbrev pub abi_base : ℕ
abi_base = 36

abbrev pub abi_level : ℕ
abi_level = 37

-- factory-abi.h, but the flags that `Element` has.
abbrev pub clone_private : ℕ
clone_private = 0

abbrev pub clone_nonblock : ℕ
clone_nonblock = 2 ^ 18

abbrev pub clone_unicast : ℕ
clone_unicast = 2 ^ 19

abbrev pub clone_input : ℕ
clone_input = 2 ^ 20

abbrev pub clone_output : ℕ
clone_output = 2 ^ 21

abbrev pub clone_mask : ℕ
clone_mask = bit_and (u32 ((2 ^ 32 - 1) * 2 ^ 16)) (2 ^ 32 - 1 - 2 ^ 31)

abbrev pub clone_master : ℕ
clone_master = clone_unicast

-- fcntl.h and net/socket-abi.h
abbrev pub o_oob : ℕ
o_oob = 2 ^ 30

abbrev pub sock_oob : ℕ
sock_oob = o_oob

abbrev pub af_oob : ℕ
af_oob = 46

-- monitor-abi.h
pub data MonitorType : Type 0 where
  event gate : MonitorType

abbrev pub monitor_type : MonitorType → ℕ
monitor_type MonitorType.event = 0
monitor_type MonitorType.gate = 1

pub data EventProtocol : Type 0 where
  gated count mask : EventProtocol

abbrev pub event_protocol : EventProtocol → ℕ
event_protocol EventProtocol.gated = 0
event_protocol EventProtocol.count = 1
event_protocol EventProtocol.mask = 2

pub data GateProtocol : Type 0 where
  pi pp : GateProtocol

abbrev pub gate_protocol : GateProtocol → ℕ
gate_protocol GateProtocol.pi = 0
gate_protocol GateProtocol.pp = 1

abbrev pub monitor_signaled : ℕ
monitor_signaled = 0x1

abbrev pub monitor_broadcast : ℕ
monitor_broadcast = 0x2

abbrev pub monitor_targeted : ℕ
monitor_targeted = 0x4

abbrev pub monitor_nogate : ℕ
monitor_nogate = 2 ^ 32 - 1

-- observable-abi.h
abbrev pub notify_always : ℕ
notify_always = 0

abbrev pub notify_onchange : ℕ
notify_onchange = 1

abbrev pub notify_mask : ℕ
notify_mask = notify_onchange

abbrev pub notice_user : ℕ
notice_user = 64

-- poll-abi.h
pub data PollAction : Type 0 where
  ctladd ctldel ctlmod : PollAction

abbrev pub poll_action : PollAction → ℕ
poll_action PollAction.ctladd = 0
poll_action PollAction.ctldel = 1
poll_action PollAction.ctlmod = 2

-- sched-abi.h
abbrev pub cpu_oob : ℕ
cpu_oob = 1

abbrev pub cpu_isol : ℕ
cpu_isol = 2

abbrev pub cpu_offline : ℕ
cpu_offline = 4

abbrev pub sched_weak : ℕ
sched_weak = 43

abbrev pub sched_quota : ℕ
sched_quota = 44

abbrev pub sched_tp : ℕ
sched_tp = 45

abbrev pub tp_idle : ℕ
tp_idle = neg32 1

pub data QuotaCtlop : Type 0 where
  quota_add quota_remove quota_force_remove quota_set quota_get : QuotaCtlop

abbrev pub quota_ctlop : QuotaCtlop → ℕ
quota_ctlop QuotaCtlop.quota_add = 0
quota_ctlop QuotaCtlop.quota_remove = 1
quota_ctlop QuotaCtlop.quota_force_remove = 2
quota_ctlop QuotaCtlop.quota_set = 3
quota_ctlop QuotaCtlop.quota_get = 4

pub data TpCtlop : Type 0 where
  tp_install tp_uninstall tp_start tp_stop tp_get : TpCtlop

abbrev pub tp_ctlop : TpCtlop → ℕ
tp_ctlop TpCtlop.tp_install = 0
tp_ctlop TpCtlop.tp_uninstall = 1
tp_ctlop TpCtlop.tp_start = 2
tp_ctlop TpCtlop.tp_stop = 3
tp_ctlop TpCtlop.tp_get = 4

-- syscall-abi.h
pub data Syscall : Type 0 where
  read write ioctl : Syscall

abbrev pub syscall_number : Syscall → ℕ
syscall_number Syscall.read = 0
syscall_number Syscall.write = 1
syscall_number Syscall.ioctl = 2

abbrev pub nr_syscalls : ℕ
nr_syscalls = 3

-- devices/gpio.h, devices/hectic.h and devices/latmus.h
abbrev pub gpiohandle_request_oob : ℕ
gpiohandle_request_oob = 2 ^ 5

abbrev pub hectic_oob_wait : ℕ
hectic_oob_wait = 0x10000

abbrev pub hectic_inband_wait : ℕ
hectic_inband_wait = 0

pub data LatmusType : Type 0 where
  irq kern user sirq : LatmusType

abbrev pub latmus_type : LatmusType → ℕ
latmus_type LatmusType.irq = 0
latmus_type LatmusType.kern = 1
latmus_type LatmusType.user = 2
latmus_type LatmusType.sirq = 3

abbrev pub latmus_last : ℕ
latmus_last = latmus_type LatmusType.sirq
