-- ===== src/Abi/Stable.antt =====
-- The numbers of the commands do not depend on the size of a pointer.
use spacemit_xenomai.Base.{ℕ, ◌^◌, ◌<◌, ◌≡◌, ◌↔◌, refl, sym, ap, ◌∙◌, arith}
use spacemit_xenomai.Abi.{
  Platform, ilp32, lp64, CType, u8, u16, u32, s32, u64, int, struct, end, size_of, align_of,
}
use spacemit_xenomai.Abi.Types
use spacemit_xenomai.Abi.Sched
use spacemit_xenomai.Abi.Requests
use spacemit_xenomai.Ioctl.{
  Argument, direction_bits, no_arg, clone_req, core_info, sched_ctlreq, cpu_state, u32_word,
  sched_attrs, thread_state, timespec, timerfd_setreq, itimerspec, subscription, poll_ctlreq,
  poll_waitreq, monitor_waitreq, monitor_unwaitreq, monitor_binding, s32_word, monitor_trywaitreq,
  u8_word, u16_word, net_devfd, netdev_activation, user_oob_msghdr, int_word, hectic_task_index,
  hectic_switch_req, hectic_error, latmus_setup, latmus_result, u64_word,
}
use spacemit_xenomai.Ioctl.Commands.{Command, command_code}
use spacemit_xenomai.Ioctl.Distinct.{
  IocMacro, argument_size, command_number, command_number-distinct,
}

-- The C type of a command's argument.
abbrev pub argument_type : Argument → CType
argument_type no_arg = struct end
argument_type clone_req = Types.clone_req
argument_type core_info = Types.core_info
argument_type sched_ctlreq = Sched.sched_ctlreq
argument_type cpu_state = Types.cpu_state
argument_type u32_word = u32
argument_type sched_attrs = Sched.sched_attrs
argument_type thread_state = Requests.thread_state
argument_type timespec = Types.timespec
argument_type timerfd_setreq = Types.timerfd_setreq
argument_type itimerspec = Types.itimerspec
argument_type subscription = Types.subscription
argument_type poll_ctlreq = Types.poll_ctlreq
argument_type poll_waitreq = Types.poll_waitreq
argument_type monitor_waitreq = Requests.monitor_waitreq
argument_type monitor_unwaitreq = Requests.monitor_unwaitreq
argument_type monitor_binding = Requests.monitor_binding
argument_type s32_word = s32
argument_type monitor_trywaitreq = Requests.monitor_trywaitreq
argument_type u8_word = u8
argument_type u16_word = u16
argument_type net_devfd = Requests.net_devfd
argument_type netdev_activation = Requests.netdev_activation
argument_type user_oob_msghdr = Requests.user_oob_msghdr
argument_type int_word = int
argument_type hectic_task_index = Requests.hectic_task_index
argument_type hectic_switch_req = Requests.hectic_switch_req
argument_type hectic_error = Requests.hectic_error
argument_type latmus_setup = Requests.latmus_setup
argument_type latmus_result = Requests.latmus_result
argument_type u64_word = u64

abbrev pub sizes : Platform → Argument → ℕ
sizes p a = size_of p (argument_type a)

bounded : (p : Platform) (a : Argument) → (sizes p a ≡ sizes lp64 a) × (sizes p a < 2 ^ 14)
unfolding size_of align_of
bounded p no_arg = (refl, omega arith)
bounded p clone_req = (refl, omega arith)
bounded p core_info = (refl, omega arith)
bounded p sched_ctlreq = (refl, omega arith)
bounded p cpu_state = (refl, omega arith)
bounded p u32_word = (refl, omega arith)
bounded p sched_attrs = (refl, omega arith)
bounded p thread_state = (refl, omega arith)
bounded p timespec = (refl, omega arith)
bounded p timerfd_setreq = (refl, omega arith)
bounded p itimerspec = (refl, omega arith)
bounded p subscription = (refl, omega arith)
bounded ilp32 poll_ctlreq = (refl, omega arith)
bounded lp64 poll_ctlreq = (refl, omega arith)
bounded p poll_waitreq = (refl, omega arith)
bounded p monitor_waitreq = (refl, omega arith)
bounded p monitor_unwaitreq = (refl, omega arith)
bounded p monitor_binding = (refl, omega arith)
bounded p s32_word = (refl, omega arith)
bounded p monitor_trywaitreq = (refl, omega arith)
bounded p u8_word = (refl, omega arith)
bounded p u16_word = (refl, omega arith)
bounded p net_devfd = (refl, omega arith)
bounded p netdev_activation = (refl, omega arith)
bounded p user_oob_msghdr = (refl, omega arith)
bounded p int_word = (refl, omega arith)
bounded p hectic_task_index = (refl, omega arith)
bounded p hectic_switch_req = (refl, omega arith)
bounded p hectic_error = (refl, omega arith)
bounded p latmus_setup = (refl, omega arith)
bounded p latmus_result = (refl, omega arith)
bounded p u64_word = (refl, omega arith)

same_argument :
    (p q : Platform) (a : Argument) → argument_size (sizes p) a ≡ argument_size (sizes q) a
same_argument p q no_arg = refl
same_argument p q a = (bounded p a).0 ∙ sym ((bounded q a).0)

same_number :
    (macro : IocMacro) (p q : Platform) (c : Command)
    → command_number macro (sizes p) c ≡ command_number macro (sizes q) c
unfolding command_number
same_number macro p q c =
    let k = command_code c in
    ap (macro.ioc (direction_bits k.direction) k.base k.nr) (same_argument p q k.argument)

-- For an `_IOC` that can be read back, with the argument sizes that the structures have: the number
-- of a command on a platform with one size of pointers is the number of a command on a platform with
-- the same or the other size exactly when it is the same command.
pub command_number-stable :
    (macro : IocMacro) (p q : Platform) (c d : Command)
    → (command_number macro (sizes p) c ≡ command_number macro (sizes q) d) ↔ (c ≡ d)
command_number-stable macro p q c d = (
  λ e.
      command_number-distinct macro (sizes q) c d (λ a. (bounded q a).1)
        (same_number macro q p c ∙ e),
  λ e. same_number macro p q c ∙ ap (command_number macro (sizes q)) e,
)
