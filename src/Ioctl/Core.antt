-- ===== src/Ioctl/Core.antt =====
-- kernel-overlay/include/uapi/evl: the commands of the core's own devices.
use spacemit_xenomai.Base.{ℕ}
use spacemit_xenomai.Ioctl.{
  io, ior, iow, iowr, Code, code, no_arg, clone_req, core_info, sched_ctlreq, cpu_state, u32_word,
  sched_attrs, thread_state, timespec, timerfd_setreq, itimerspec, subscription, poll_ctlreq,
  poll_waitreq, monitor_waitreq, monitor_unwaitreq, monitor_binding, s32_word, monitor_trywaitreq,
  u8_word, u16_word,
}

abbrev pub factory_iocbase : ℕ
factory_iocbase = b'f'

-- uapi/evl/factory-abi.h
pub data FactoryCommand : Type 0 where
  ioc_clone : FactoryCommand

unfoldable pub factory_code : FactoryCommand → Code
factory_code ioc_clone = code iowr factory_iocbase 0 clone_req

abbrev pub control_iocbase : ℕ
control_iocbase = b'C'

-- uapi/evl/control-abi.h
pub data ControlCommand : Type 0 where
  ctlioc_get_coreinfo ctlioc_schedctl ctlioc_get_cpustate : ControlCommand

unfoldable pub control_code : ControlCommand → Code
control_code ctlioc_get_coreinfo = code ior control_iocbase 0 core_info
control_code ctlioc_schedctl = code iowr control_iocbase 1 sched_ctlreq
control_code ctlioc_get_cpustate = code ior control_iocbase 2 cpu_state

abbrev pub thread_iocbase : ℕ
thread_iocbase = b'T'

-- uapi/evl/thread-abi.h
pub data ThreadCommand : Type 0 where
  thrioc_signal thrioc_set_schedparam thrioc_get_schedparam thrioc_join thrioc_get_state
        thrioc_switch_oob thrioc_switch_inband thrioc_detach_self thrioc_set_mode thrioc_clear_mode
        thrioc_unblock thrioc_demote thrioc_yield :
      ThreadCommand

unfoldable pub thread_code : ThreadCommand → Code
thread_code thrioc_signal = code iow thread_iocbase 0 u32_word
thread_code thrioc_set_schedparam = code iow thread_iocbase 1 sched_attrs
thread_code thrioc_get_schedparam = code ior thread_iocbase 2 sched_attrs
thread_code thrioc_join = code io thread_iocbase 3 no_arg
thread_code thrioc_get_state = code ior thread_iocbase 4 thread_state
thread_code thrioc_switch_oob = code io thread_iocbase 5 no_arg
thread_code thrioc_switch_inband = code io thread_iocbase 6 no_arg
thread_code thrioc_detach_self = code io thread_iocbase 7 no_arg
thread_code thrioc_set_mode = code iowr thread_iocbase 8 u32_word
thread_code thrioc_clear_mode = code iowr thread_iocbase 9 u32_word
thread_code thrioc_unblock = code io thread_iocbase 10 no_arg
thread_code thrioc_demote = code io thread_iocbase 11 no_arg
thread_code thrioc_yield = code io thread_iocbase 12 no_arg

abbrev pub clock_iocbase : ℕ
clock_iocbase = b'c'

-- uapi/evl/clock-abi.h
pub data ClockCommand : Type 0 where
  clkioc_sleep clkioc_get_res clkioc_get_time clkioc_set_time clkioc_new_timer : ClockCommand

unfoldable pub clock_code : ClockCommand → Code
clock_code clkioc_sleep = code iow clock_iocbase 0 timespec
clock_code clkioc_get_res = code ior clock_iocbase 1 timespec
clock_code clkioc_get_time = code ior clock_iocbase 2 timespec
clock_code clkioc_set_time = code iow clock_iocbase 3 timespec
clock_code clkioc_new_timer = code io clock_iocbase 5 no_arg

abbrev pub timerfd_iocbase : ℕ
timerfd_iocbase = b't'

-- uapi/evl/clock-abi.h
pub data TimerfdCommand : Type 0 where
  tfdioc_set tfdioc_get : TimerfdCommand

unfoldable pub timerfd_code : TimerfdCommand → Code
timerfd_code tfdioc_set = code iowr timerfd_iocbase 0 timerfd_setreq
timerfd_code tfdioc_get = code ior timerfd_iocbase 1 itimerspec

abbrev pub observable_iocbase : ℕ
observable_iocbase = b'o'

-- uapi/evl/observable-abi.h
pub data ObservableCommand : Type 0 where
  obsioc_subscribe obsioc_unsubscribe : ObservableCommand

unfoldable pub observable_code : ObservableCommand → Code
observable_code obsioc_subscribe = code iow observable_iocbase 0 subscription
observable_code obsioc_unsubscribe = code io observable_iocbase 1 no_arg

abbrev pub poll_iocbase : ℕ
poll_iocbase = b'p'

-- uapi/evl/poll-abi.h
pub data PollCommand : Type 0 where
  polioc_ctl polioc_wait : PollCommand

unfoldable pub poll_code : PollCommand → Code
poll_code polioc_ctl = code iow poll_iocbase 0 poll_ctlreq
poll_code polioc_wait = code iowr poll_iocbase 1 poll_waitreq

abbrev pub monitor_iocbase : ℕ
monitor_iocbase = b'm'

-- uapi/evl/monitor-abi.h
pub data MonitorCommand : Type 0 where
  monioc_enter monioc_tryenter monioc_exit monioc_wait monioc_unwait monioc_bind monioc_signal
        monioc_broadcast monioc_wait_exact monioc_trywait monioc_trywait_exact :
      MonitorCommand

unfoldable pub monitor_code : MonitorCommand → Code
monitor_code monioc_enter = code iow monitor_iocbase 0 timespec
monitor_code monioc_tryenter = code io monitor_iocbase 1 no_arg
monitor_code monioc_exit = code io monitor_iocbase 2 no_arg
monitor_code monioc_wait = code iowr monitor_iocbase 3 monitor_waitreq
monitor_code monioc_unwait = code iowr monitor_iocbase 4 monitor_unwaitreq
monitor_code monioc_bind = code ior monitor_iocbase 5 monitor_binding
monitor_code monioc_signal = code iow monitor_iocbase 6 s32_word
monitor_code monioc_broadcast = code iow monitor_iocbase 7 s32_word
monitor_code monioc_wait_exact = code iowr monitor_iocbase 8 monitor_waitreq
monitor_code monioc_trywait = code iowr monitor_iocbase 9 monitor_trywaitreq
monitor_code monioc_trywait_exact = code iowr monitor_iocbase 10 monitor_trywaitreq

abbrev pub random_iocbase : ℕ
random_iocbase = b'r'

-- uapi/evl/random-abi.h
pub data RandomCommand : Type 0 where
  rngioc_u8 rngioc_u16 rngioc_u32 : RandomCommand

unfoldable pub random_code : RandomCommand → Code
random_code rngioc_u8 = code ior random_iocbase 0 u8_word
random_code rngioc_u16 = code ior random_iocbase 1 u16_word
random_code rngioc_u32 = code ior random_iocbase 2 u32_word

abbrev pub trace_iocbase : ℕ
trace_iocbase = b'O'

-- uapi/evl/trace.h
pub data TraceCommand : Type 0 where
  trcioc_snapshot : TraceCommand

unfoldable pub trace_code : TraceCommand → Code
trace_code trcioc_snapshot = code io trace_iocbase 0 no_arg
