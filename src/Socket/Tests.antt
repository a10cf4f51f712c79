-- ===== src/Socket/Tests.antt =====
-- Charges and lengths on concrete inputs.
use spacemit_xenomai.Base.{◌+◌, ◌≤◌, ◌≡◌, true, false, arith, ltb}
use spacemit_xenomai.Socket.{Socket, charge_socket_rmem, uncharge_socket_rmem}
use spacemit_xenomai.Socket.Charge.{charge_socket_rmem_lem}

abbrev socket : Socket
socket = record { f_flags = 0; rmem_count = 900; rmem_max = 1000 }

charge_socket_rmem_example :
    let (esk', charged) = charge_socket_rmem socket 512 in
    (charged ≡ ltb 900 1000)
    × (charged ≡ false → esk' ≡ socket)
    × (charged ≡ true
        → (esk'.rmem_count ≡ 1412)
          × (esk'.rmem_count + 1 ≤ 1512)
          × (uncharge_socket_rmem esk' 512 ≡ socket))
charge_socket_rmem_example = charge_socket_rmem_lem socket 512 (omega arith) (omega arith)
