-- ===== src/Socket/Device.antt =====
-- kernel-overlay/include/evl/net/device.h, qdisc.h, route.h, skb.h and input.h, and
-- kernel-overlay/include/asm-generic/evl/netdevice.h: the out-of-band side of a network device. Objects
-- of the kernel, threads and functions are addresses; links and locks are left out.
use spacemit_xenomai.Base.{ℕ, ◌+◌, Bool, Option, List, bit, ◌==◌, if◌then◌else◌, u64}
use spacemit_xenomai.Crossing.{Crossing}
use spacemit_xenomai.Poll.{PollHead}
use spacemit_xenomai.Wait.{WaitQueue}
use spacemit_xenomai.Wait.Flag.{Flag}

-- `enum evl_net_rx_action` of uapi/evl/net/bpf-abi.h.
pub data RxAction : Type 0 where
  rx_drop rx_accept rx_skip rx_vlan : RxAction

pub record SkbQueue : Type 0 where
  pub queue : List ℕ

pub record EbpfFilter : Type 0 where
  pub prog : ℕ

abbrev pub netdev_poll_sched : ℕ
netdev_poll_sched = 0

abbrev pub netdev_rxfilter_bit : ℕ
netdev_rxfilter_bit = 1

pub record NetdevState : Type 0 where
  pub tx_pages : ℕ
  pub tx_wait : WaitQueue
  pub pool_max : ℕ  -- size_t
  pub buf_size : ℕ  -- size_t
  pub poll_head : PollHead
  pub rx_handler : ℕ
  pub rx_flag : Flag
  pub rx_poll : List ℕ
  pub rx_packets : SkbQueue
  pub qdisc : ℕ
  pub tx_handler : ℕ
  pub tx_flag : Flag
  pub rx_filter : Option ℕ
  pub flags : ℕ  -- unsigned long
  pub refs : ℕ  -- int

pub record OobNetdevState : Type 0 where
  pub estate : ℕ
  pub crossing : Crossing

-- `filter` stands for `__evl_net_filter_rx`.
unfoldable pub net_filter_rx :
    {W : Type 0} → (ℕ → W → W × RxAction) → NetdevState → ℕ → W → W × RxAction
net_filter_rx filter est skb w =
    let filtered = filter skb w in
    if bit est.flags netdev_rxfilter_bit == 1 then filtered else (w, rx_vlan)

-- `is_vlan_dev` and `vlan_dev_real_dev` are the kernel's.
unfoldable pub net_real_dev : (ℕ → Bool) → (ℕ → ℕ) → ℕ → ℕ
net_real_dev is_vlan_dev vlan_dev_real_dev dev =
    if is_vlan_dev dev then vlan_dev_real_dev dev else dev

-- `init_stax` stands for `evl_init_stax`, given the address of the lock and its flags, and
-- `destroy_stax` for `evl_destroy_stax`. `inband_spin` is EVL_STAX_INBAND_SPIN. Without
-- CONFIG_EVL_NET nothing is done.
module _ {W : Type 0} (config_evl_net : Bool) where
  unfoldable pub netqueue_init_oob : (ℕ → ℕ → W → W) → ℕ → ℕ → W → W
  netqueue_init_oob init_stax inband_spin tx_lock w =
      if config_evl_net then init_stax tx_lock inband_spin w else w

  unfoldable pub netqueue_destroy_oob : (ℕ → W → W) → ℕ → W → W
  netqueue_destroy_oob destroy_stax tx_lock w = if config_evl_net then destroy_stax tx_lock w else w

pub record QdiscOps : Type 0 where
  pub name : ℕ
  pub priv_size : ℕ  -- size_t
  pub init : ℕ
  pub destroy : ℕ
  pub enqueue : ℕ
  pub dequeue : ℕ

pub record Qdisc : Type 0 where
  pub oob_ops : ℕ
  pub packet_dropped : ℕ  -- unsigned long

-- What follows a qdisc in memory; `qdisc_size` is the size of `struct evl_net_qdisc`.
unfoldable pub qdisc_priv : ℕ → ℕ → ℕ
qdisc_priv qdisc_size qdisc = u64 (qdisc + qdisc_size)

pub record NetRoute : Type 0 where
  pub entry : ℕ
  pub rt : ℕ
  pub key : List ℕ

-- `put_entry` stands for `evl_put_cache_entry`.
unfoldable pub net_put_route : {W : Type 0} → (ℕ → W → W) → NetRoute → W → W
net_put_route put_entry ert w = put_entry ert.entry w

-- `dst_of` is the address of a member of `struct rtable`, `dev_of` reads one of `struct dst_entry`.
unfoldable pub net_route_dst : (ℕ → ℕ) → NetRoute → ℕ
net_route_dst dst_of ert = dst_of ert.rt

unfoldable pub net_route_dev : (ℕ → ℕ) → (ℕ → ℕ) → NetRoute → ℕ
unfolding net_route_dst
net_route_dev dst_of dev_of ert = dev_of (net_route_dst dst_of ert)

-- `struct evl_net_cb`, what the stack keeps in a packet.
pub record NetCb : Type 0 where
  pub handler : ℕ
  pub tracker : ℕ

pub record NetHandler : Type 0 where
  pub ingress : ℕ
