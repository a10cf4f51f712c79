-- ===== src/Socket/Proto.antt =====
-- kernel-overlay/include/evl/net/socket.h, kernel-overlay/include/evl/net/offload.h,
-- kernel-overlay/include/evl/net.h and kernel-overlay/include/evl/stax.h: protocols and domains of
-- sockets. Handlers work on the machine's state `W`; sockets, vectors, addresses and messages are
-- addresses.
use spacemit_xenomai.Base.{ℕ, Option, List}
use spacemit_xenomai.Wait.{WaitQueue}

pub record NetProto (W : Type 0) : Type 0 where
  pub attach : ℕ → ℕ → ℕ → W → W × ℕ
  pub release : ℕ → W → W
  pub destroy : ℕ → W → W
  pub bind : ℕ → ℕ → ℕ → W → W × ℕ
  pub connect : ℕ → ℕ → ℕ → ℕ → W → W × ℕ
  pub shutdown : ℕ → ℕ → W → W × ℕ
  pub ioctl : ℕ → ℕ → ℕ → W → W × ℕ
  pub oob_send : ℕ → ℕ → ℕ → ℕ → W → W × ℕ
  pub oob_receive : ℕ → ℕ → ℕ → ℕ → W → W × ℕ
  pub oob_poll : ℕ → ℕ → W → W × ℕ
  pub get_netif : ℕ → W → W × Option ℕ
  pub handle_offload : ℕ → W → W

-- `struct evl_socket_domain`, less its link; `match` gives the address of a protocol.
pub record SocketDomain : Type 0 where
  pub af_domain : ℕ  -- int
  pub match : ℕ → ℕ → Option ℕ

-- `struct evl_net_offload`, less its link.
pub record NetOffload : Type 0 where
  pub kvec : ℕ
  pub count : ℕ  -- size_t
  pub dest : ℕ
  pub destlen : ℕ  -- int

-- Without CONFIG_EVL_NET.
abbrev pub net_init : ℕ
net_init = 0

abbrev pub net_cleanup {ℓ} : {W : Type ℓ} → W → W
net_cleanup w = w

-- EVL_STAX_INBAND_SPIN
abbrev pub stax_inband_spin : ℕ
stax_inband_spin = 1

pub record Stax : Type 0 where
  pub gate : ℕ  -- atomic_t
  pub flags : ℕ  -- int
  pub oob_wait : WaitQueue
  pub inband_wait : List ℕ
  pub irq_work : ℕ
