-- ===== src/Socket.antt =====
-- kernel-overlay/include/evl/net/socket.h, kernel-overlay/include/evl/net/input.h and
-- kernel-overlay/include/evl/uio.h: what a socket is charged for the packets that it has not read,
-- and the sizes of transfers. `int` counts are bit patterns.
pub mod Charge
pub mod Device
pub mod Proto
pub mod Ipv4
mod Tests
use spacemit_xenomai.Base.{
  ℕ, zero, suc, ◌+◌, ◌-◌, ◌^◌, Bool, true, false, List, [], ◌∷◌, leb, if◌then◌else◌, u32, u64,
  signed32,
}
use spacemit_xenomai.SchedQueue.Mlq.{list_empty}

-- The members of `struct evl_socket` that its inline operations use.
pub record Socket : Type 0 where
  pub f_flags : ℕ  -- of the file
  pub rmem_count : ℕ  -- atomic_t
  pub rmem_max : ℕ  -- int

unfoldable pub socket_f_flags : Socket → ℕ
socket_f_flags esk = esk.f_flags

unfoldable pub charge_socket_rmem : Socket → ℕ → Socket × Bool
charge_socket_rmem esk size =
    if leb (signed32 esk.rmem_max) (signed32 esk.rmem_count)
    then (esk, false)
    else (record esk { rmem_count = u32 (esk.rmem_count + size) }, true)

unfoldable pub uncharge_socket_rmem : Socket → ℕ → Socket
uncharge_socket_rmem esk size = record esk { rmem_count = u32 (esk.rmem_count + 2 ^ 32 - u32 size) }

-- `struct evl_net_rxqueue`, less its lock and its links.
pub record RxQueue : Type 0 where
  pub hkey : ℕ  -- u32
  pub subscribers : List ℕ

unfoldable pub rxqueue_active : RxQueue → Bool
rxqueue_active rxq = list_empty rxq.subscribers

-- The lengths of the vectors; a `size_t` wraps.
unfoldable pub flat_length_from : ℕ → List ℕ → ℕ
flat_length_from count [] = count
flat_length_from count (iov_len ∷ iov) = flat_length_from (u64 (count + iov_len)) iov

unfoldable pub iov_flat_length : List ℕ → ℕ
unfolding flat_length_from
iov_flat_length iov = flat_length_from 0 iov
