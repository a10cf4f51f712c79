-- ===== src/Socket/Ipv4.antt =====
-- kernel-overlay/include/evl/net/ip.h, ipv4.h, ipv4/arp.h and ipv4/udp.h, and
-- kernel-overlay/include/asm-generic/evl/net.h: what the stack keeps for IPv4. Locks and links are left
-- out; devices, packets and trees of the kernel are addresses.
use spacemit_xenomai.Base.{ℕ, not, List, [], if◌then◌else◌}
use spacemit_xenomai.Element.Cache.{CacheEntry, Cache}
use spacemit_xenomai.SchedQueue.Mlq.{list_empty}
use spacemit_xenomai.Timer.Core.{Timer}
use spacemit_xenomai.Wait.{WaitQueue}

abbrev pub net_frags_hashbits : ℕ
net_frags_hashbits = 7

pub record FragTree : Type 0 where
  pub end : ℕ  -- size_t
  pub len : ℕ  -- size_t
  pub flags : ℕ  -- int
  pub frags : ℕ
  pub tdir : ℕ
  pub gc_dev : ℕ
  pub timer : Timer
  pub key : ℕ

-- The trees that wait for collection.
pub record FragGc : Type 0 where
  pub queue : List ℕ

pub record FragTdir : Type 0 where
  pub ht : List ℕ
  pub lock : ℕ
  pub gc : FragGc
  pub timeout : ℕ  -- ktime_t

-- `K` is the keys of ARP entries, `R` of routes, `U` of receivers.
pub record OobNetState (K R U : Type 0) : Type 0 where
  pub ftdir : FragTdir
  pub arp : Cache K
  pub routes : Cache R
  pub udp : Cache U

pub record Ipv4Cookie : Type 0 where
  pub saddr : ℕ  -- u32
  pub daddr : ℕ  -- u32
  pub protocol : ℕ  -- u8
  pub transhdrlen : ℕ  -- int

pub record ArpKey : Type 0 where
  pub dev : ℕ
  pub addr : ℕ  -- u32

pub record ArpEntry : Type 0 where
  pub entry : CacheEntry
  pub dev_tracker : ℕ
  pub ha : List ℕ
  pub key : ArpKey

pub record UdpKey : Type 0 where
  pub dport : ℕ  -- u32
  pub daddr : ℕ  -- u32

pub record UdpReceiver : Type 0 where
  pub entry : CacheEntry
  pub queue : List ℕ
  pub wait : WaitQueue
  pub refs : ℕ  -- refcount_t
  pub key : UdpKey

-- What a socket keeps for its protocol: `packet`, or `ip` with the binding of UDP.
pub record PacketSocket : Type 0 where
  pub real_ifindex : ℕ  -- int
  pub ifindex : ℕ  -- int
  pub vlan_id : ℕ  -- u16
  pub proto_hash : ℕ  -- u32

pub record UdpSocket : Type 0 where
  pub rcv_addr : ℕ  -- u32
  pub rcv_port : ℕ  -- u16
  pub receiver : ℕ

pub record IpSocket : Type 0 where
  pub pending_output : List ℕ
  pub udp : UdpSocket

unfoldable pub net_init_ip_socket : IpSocket → IpSocket
net_init_ip_socket ip = record ip { pending_output = [] }

module _ {K R U W : Type 0} where
  -- `collect` stands for `__evl_net_ipv4_gc`.
  unfoldable pub net_ipv4_gc : (FragTdir → W → W) → OobNetState K R U → W → W
  net_ipv4_gc collect net w = if not (list_empty net.ftdir.gc.queue) then collect net.ftdir w else w

-- `put_entry` stands for `evl_put_cache_entry`.
unfoldable pub net_put_arp_entry : {W : Type 0} → (CacheEntry → W → W) → ArpEntry → W → W
net_put_arp_entry put_entry earp w = put_entry earp.entry w
