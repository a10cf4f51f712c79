-- ===== src/Ioctl/Commands.antt =====
-- All commands of the core's devices, and what tells one from the others.
use spacemit_xenomai.Base.{
  ℕ, ◌+◌, ◌*◌, ◌≡◌, refl, Option, none, some, List, [], ◌∷◌, ◌==◌, if◌then◌else◌,
}
use spacemit_xenomai.Ioctl.{Code, direction_bits}
use spacemit_xenomai.Ioctl.Core.{
  FactoryCommand, factory_code, ControlCommand, control_code, ThreadCommand, thread_code,
  ClockCommand, clock_code, TimerfdCommand, timerfd_code, ObservableCommand, observable_code,
  PollCommand, poll_code, MonitorCommand, monitor_code, RandomCommand, random_code, TraceCommand,
  trace_code, ioc_clone, ctlioc_get_coreinfo, ctlioc_schedctl, ctlioc_get_cpustate, thrioc_signal,
  thrioc_set_schedparam, thrioc_get_schedparam, thrioc_join, thrioc_get_state, thrioc_switch_oob,
  thrioc_switch_inband, thrioc_detach_self, thrioc_set_mode, thrioc_clear_mode, thrioc_unblock,
  thrioc_demote, thrioc_yield, clkioc_sleep, clkioc_get_res, clkioc_get_time, clkioc_set_time,
  clkioc_new_timer, tfdioc_set, tfdioc_get, obsioc_subscribe, obsioc_unsubscribe, polioc_ctl,
  polioc_wait, monioc_enter, monioc_tryenter, monioc_exit, monioc_wait, monioc_unwait, monioc_bind,
  monioc_signal, monioc_broadcast, monioc_wait_exact, monioc_trywait, monioc_trywait_exact,
  rngioc_u8, rngioc_u16, rngioc_u32, trcioc_snapshot,
}
use spacemit_xenomai.Ioctl.Devices.{
  NetdevCommand, netdev_code, NetCommand, net_code, SocketCommand, socket_code, HecticCommand,
  hectic_code, LatmusCommand, latmus_code, ndevioc_setrxebpf, net_getdevfd, sockioc_activate,
  sockioc_deactivate, sockioc_sendmsg, sockioc_recvmsg, sockioc_setrecvsz, sockioc_setsendsz,
  hecioc_set_tasks_count, hecioc_set_cpu, hecioc_register_utask, hecioc_create_ktask, hecioc_pend,
  hecioc_switch_to, hecioc_get_switches_count, hecioc_get_last_error, hecioc_set_pause,
  hecioc_lock_stax, hecioc_unlock_stax, latioc_tune, latioc_measure, latioc_run, latioc_pulse,
  latioc_reset,
}

-- Every command of every device.
pub data Command : Type 0 where
  factory : FactoryCommand → Command
  control : ControlCommand → Command
  thread : ThreadCommand → Command
  clock : ClockCommand → Command
  timerfd : TimerfdCommand → Command
  observable : ObservableCommand → Command
  poll : PollCommand → Command
  monitor : MonitorCommand → Command
  random : RandomCommand → Command
  trace : TraceCommand → Command
  netdev : NetdevCommand → Command
  net : NetCommand → Command
  socket : SocketCommand → Command
  hectic : HecticCommand → Command
  latmus : LatmusCommand → Command

unfoldable pub command_code : Command → Code
unfolding factory_code control_code thread_code clock_code timerfd_code observable_code poll_code
    monitor_code random_code trace_code netdev_code net_code socket_code hectic_code latmus_code
command_code (factory c) = factory_code c
command_code (control c) = control_code c
command_code (thread c) = thread_code c
command_code (clock c) = clock_code c
command_code (timerfd c) = timerfd_code c
command_code (observable c) = observable_code c
command_code (poll c) = poll_code c
command_code (monitor c) = monitor_code c
command_code (random c) = random_code c
command_code (trace c) = trace_code c
command_code (netdev c) = netdev_code c
command_code (net c) = net_code c
command_code (socket c) = socket_code c
command_code (hectic c) = hectic_code c
command_code (latmus c) = latmus_code c

abbrev pub all_commands : List Command
all_commands =
    (factory ioc_clone)
    ∷ (control ctlioc_get_coreinfo)
    ∷ (control ctlioc_schedctl)
    ∷ (control ctlioc_get_cpustate)
    ∷ (thread thrioc_signal)
    ∷ (thread thrioc_set_schedparam)
    ∷ (thread thrioc_get_schedparam)
    ∷ (thread thrioc_join)
    ∷ (thread thrioc_get_state)
    ∷ (thread thrioc_switch_oob)
    ∷ (thread thrioc_switch_inband)
    ∷ (thread thrioc_detach_self)
    ∷ (thread thrioc_set_mode)
    ∷ (thread thrioc_clear_mode)
    ∷ (thread thrioc_unblock)
    ∷ (thread thrioc_demote)
    ∷ (thread thrioc_yield)
    ∷ (clock clkioc_sleep)
    ∷ (clock clkioc_get_res)
    ∷ (clock clkioc_get_time)
    ∷ (clock clkioc_set_time)
    ∷ (clock clkioc_new_timer)
    ∷ (timerfd tfdioc_set)
    ∷ (timerfd tfdioc_get)
    ∷ (observable obsioc_subscribe)
    ∷ (observable obsioc_unsubscribe)
    ∷ (poll polioc_ctl)
    ∷ (poll polioc_wait)
    ∷ (monitor monioc_enter)
    ∷ (monitor monioc_tryenter)
    ∷ (monitor monioc_exit)
    ∷ (monitor monioc_wait)
    ∷ (monitor monioc_unwait)
    ∷ (monitor monioc_bind)
    ∷ (monitor monioc_signal)
    ∷ (monitor monioc_broadcast)
    ∷ (monitor monioc_wait_exact)
    ∷ (monitor monioc_trywait)
    ∷ (monitor monioc_trywait_exact)
    ∷ (random rngioc_u8)
    ∷ (random rngioc_u16)
    ∷ (random rngioc_u32)
    ∷ (trace trcioc_snapshot)
    ∷ (netdev ndevioc_setrxebpf)
    ∷ (net net_getdevfd)
    ∷ (socket sockioc_activate)
    ∷ (socket sockioc_deactivate)
    ∷ (socket sockioc_sendmsg)
    ∷ (socket sockioc_recvmsg)
    ∷ (socket sockioc_setrecvsz)
    ∷ (socket sockioc_setsendsz)
    ∷ (hectic hecioc_set_tasks_count)
    ∷ (hectic hecioc_set_cpu)
    ∷ (hectic hecioc_register_utask)
    ∷ (hectic hecioc_create_ktask)
    ∷ (hectic hecioc_pend)
    ∷ (hectic hecioc_switch_to)
    ∷ (hectic hecioc_get_switches_count)
    ∷ (hectic hecioc_get_last_error)
    ∷ (hectic hecioc_set_pause)
    ∷ (hectic hecioc_lock_stax)
    ∷ (hectic hecioc_unlock_stax)
    ∷ (latmus latioc_tune)
    ∷ (latmus latioc_measure)
    ∷ (latmus latioc_run)
    ∷ (latmus latioc_pulse)
    ∷ (latmus latioc_reset)
    ∷ []

-- What tells a command from the others.
abbrev pub key : Command → ℕ
key c = let k = command_code c in direction_bits k.direction + 4 * (k.base + 256 * k.nr)

unfoldable pub find : ℕ → List Command → Option Command
find k [] = none
find k (c ∷ cs) = if key c == k then some c else find k cs

found_factory : (c : FactoryCommand) → find (key (factory c)) all_commands ≡ some (factory c)
unfolding find command_code
found_factory ioc_clone = refl

found_control : (c : ControlCommand) → find (key (control c)) all_commands ≡ some (control c)
unfolding find command_code
found_control ctlioc_get_coreinfo = refl
found_control _ = refl

found_thread : (c : ThreadCommand) → find (key (thread c)) all_commands ≡ some (thread c)
unfolding find command_code
found_thread thrioc_signal = refl
found_thread _ = refl

found_clock : (c : ClockCommand) → find (key (clock c)) all_commands ≡ some (clock c)
unfolding find command_code
found_clock clkioc_sleep = refl
found_clock _ = refl

found_timerfd : (c : TimerfdCommand) → find (key (timerfd c)) all_commands ≡ some (timerfd c)
unfolding find command_code
found_timerfd tfdioc_set = refl
found_timerfd _ = refl

found_observable :
    (c : ObservableCommand) → find (key (observable c)) all_commands ≡ some (observable c)
unfolding find command_code
found_observable obsioc_subscribe = refl
found_observable _ = refl

found_poll : (c : PollCommand) → find (key (poll c)) all_commands ≡ some (poll c)
unfolding find command_code
found_poll polioc_ctl = refl
found_poll _ = refl

found_monitor : (c : MonitorCommand) → find (key (monitor c)) all_commands ≡ some (monitor c)
unfolding find command_code
found_monitor monioc_enter = refl
found_monitor _ = refl

found_random : (c : RandomCommand) → find (key (random c)) all_commands ≡ some (random c)
unfolding find command_code
found_random rngioc_u8 = refl
found_random _ = refl

found_trace : (c : TraceCommand) → find (key (trace c)) all_commands ≡ some (trace c)
unfolding find command_code
found_trace trcioc_snapshot = refl

found_netdev : (c : NetdevCommand) → find (key (netdev c)) all_commands ≡ some (netdev c)
unfolding find command_code
found_netdev ndevioc_setrxebpf = refl

found_net : (c : NetCommand) → find (key (net c)) all_commands ≡ some (net c)
unfolding find command_code
found_net net_getdevfd = refl

found_socket : (c : SocketCommand) → find (key (socket c)) all_commands ≡ some (socket c)
unfolding find command_code
found_socket sockioc_activate = refl
found_socket _ = refl

found_hectic : (c : HecticCommand) → find (key (hectic c)) all_commands ≡ some (hectic c)
unfolding find command_code
found_hectic hecioc_set_tasks_count = refl
found_hectic _ = refl

found_latmus : (c : LatmusCommand) → find (key (latmus c)) all_commands ≡ some (latmus c)
unfolding find command_code
found_latmus latioc_tune = refl
found_latmus _ = refl

pub found : (c : Command) → find (key c) all_commands ≡ some c
found (factory c) = found_factory c
found (control c) = found_control c
found (thread c) = found_thread c
found (clock c) = found_clock c
found (timerfd c) = found_timerfd c
found (observable c) = found_observable c
found (poll c) = found_poll c
found (monitor c) = found_monitor c
found (random c) = found_random c
found (trace c) = found_trace c
found (netdev c) = found_netdev c
found (net c) = found_net c
found (socket c) = found_socket c
found (hectic c) = found_hectic c
found (latmus c) = found_latmus c
