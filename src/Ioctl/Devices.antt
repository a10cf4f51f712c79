-- ===== src/Ioctl/Devices.antt =====
-- kernel-overlay/include/uapi/evl/net and kernel-overlay/include/uapi/evl/devices: the commands of
-- network devices and sockets, and of the test devices.
use spacemit_xenomai.Base.{ℕ}
use spacemit_xenomai.Ioctl.{
  io, ior, iow, iowr, Code, code, no_arg, u32_word, s32_word, net_devfd, netdev_activation,
  user_oob_msghdr, int_word, hectic_task_index, hectic_switch_req, hectic_error, latmus_setup,
  latmus_result, u64_word,
}

abbrev pub netdev_iocbase : ℕ
netdev_iocbase = 0xef

-- uapi/evl/net/device-abi.h
pub data NetdevCommand : Type 0 where
  ndevioc_setrxebpf : NetdevCommand

unfoldable pub netdev_code : NetdevCommand → Code
netdev_code ndevioc_setrxebpf = code iow netdev_iocbase 0 s32_word

abbrev pub net_iocbase : ℕ
net_iocbase = 0xf0

-- uapi/evl/net/net-abi.h
pub data NetCommand : Type 0 where
  net_getdevfd : NetCommand

unfoldable pub net_code : NetCommand → Code
net_code net_getdevfd = code iowr netdev_iocbase 0 net_devfd

abbrev pub socket_iocbase : ℕ
socket_iocbase = 0xee

-- uapi/evl/net/socket-abi.h
pub data SocketCommand : Type 0 where
  sockioc_activate sockioc_deactivate sockioc_sendmsg sockioc_recvmsg sockioc_setrecvsz
        sockioc_setsendsz :
      SocketCommand

unfoldable pub socket_code : SocketCommand → Code
socket_code sockioc_activate = code iow socket_iocbase 2 netdev_activation
socket_code sockioc_deactivate = code io socket_iocbase 3 no_arg
socket_code sockioc_sendmsg = code iow socket_iocbase 4 user_oob_msghdr
socket_code sockioc_recvmsg = code iowr socket_iocbase 5 user_oob_msghdr
socket_code sockioc_setrecvsz = code iow socket_iocbase 6 int_word
socket_code sockioc_setsendsz = code iow socket_iocbase 7 int_word

abbrev pub hectic_iocbase : ℕ
hectic_iocbase = b'H'

-- uapi/evl/devices/hectic.h
pub data HecticCommand : Type 0 where
  hecioc_set_tasks_count hecioc_set_cpu hecioc_register_utask hecioc_create_ktask hecioc_pend
        hecioc_switch_to hecioc_get_switches_count hecioc_get_last_error hecioc_set_pause
        hecioc_lock_stax hecioc_unlock_stax :
      HecticCommand

unfoldable pub hectic_code : HecticCommand → Code
hectic_code hecioc_set_tasks_count = code iow hectic_iocbase 0 u32_word
hectic_code hecioc_set_cpu = code iow hectic_iocbase 1 u32_word
hectic_code hecioc_register_utask = code iow hectic_iocbase 2 hectic_task_index
hectic_code hecioc_create_ktask = code iowr hectic_iocbase 3 hectic_task_index
hectic_code hecioc_pend = code ior hectic_iocbase 4 hectic_task_index
hectic_code hecioc_switch_to = code ior hectic_iocbase 5 hectic_switch_req
hectic_code hecioc_get_switches_count = code ior hectic_iocbase 6 u32_word
hectic_code hecioc_get_last_error = code ior hectic_iocbase 7 hectic_error
hectic_code hecioc_set_pause = code iow hectic_iocbase 8 u32_word
hectic_code hecioc_lock_stax = code io hectic_iocbase 9 no_arg
hectic_code hecioc_unlock_stax = code io hectic_iocbase 10 no_arg

abbrev pub latmus_iocbase : ℕ
latmus_iocbase = b'L'

-- uapi/evl/devices/latmus.h
pub data LatmusCommand : Type 0 where
  latioc_tune latioc_measure latioc_run latioc_pulse latioc_reset : LatmusCommand

unfoldable pub latmus_code : LatmusCommand → Code
latmus_code latioc_tune = code iowr latmus_iocbase 0 latmus_setup
latmus_code latioc_measure = code iowr latmus_iocbase 1 latmus_setup
latmus_code latioc_run = code ior latmus_iocbase 2 latmus_result
latmus_code latioc_pulse = code iow latmus_iocbase 3 u64_word
latmus_code latioc_reset = code io latmus_iocbase 4 no_arg
