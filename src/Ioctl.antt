-- ===== src/Ioctl.antt =====
-- kernel-overlay/include/uapi/evl: the commands of the core's devices. A command's number is put
-- together by the kernel's `_IOC` macro from a direction, the device's base, the command's number
-- within the device, and the size of its argument, which the ABI of the platform settles.
pub mod Core
pub mod Devices
pub mod Commands
pub mod Distinct
use spacemit_xenomai.Base.{ℕ}

-- The macro that a command is defined with: _IO, _IOR, _IOW or _IOWR.
pub data Direction : Type 0 where
  io ior iow iowr : Direction

-- The types of the arguments.
pub data Argument : Type 0 where
  no_arg : Argument
  clone_req core_info sched_ctlreq cpu_state u32_word sched_attrs thread_state timespec
        timerfd_setreq itimerspec subscription poll_ctlreq poll_waitreq monitor_waitreq
        monitor_unwaitreq monitor_binding s32_word monitor_trywaitreq u8_word u16_word net_devfd
        netdev_activation user_oob_msghdr int_word hectic_task_index hectic_switch_req hectic_error
        latmus_setup latmus_result u64_word :
      Argument

pub record Code : Type 0 where
  pub direction : Direction
  pub base : ℕ
  pub nr : ℕ
  pub argument : Argument

abbrev pub code : Direction → ℕ → ℕ → Argument → Code
code direction base nr argument = record {
  direction = direction;
  base = base;
  nr = nr;
  argument = argument;
}

-- _IOC_NONE, _IOC_READ, _IOC_WRITE, and the two together.
abbrev pub direction_bits : Direction → ℕ
direction_bits io = 0
direction_bits ior = 2
direction_bits iow = 1
direction_bits iowr = 3
