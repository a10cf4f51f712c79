-- ===== src/Abi/Requests.antt =====
-- kernel-overlay/include/uapi/evl/monitor-abi.h, thread-abi.h, net/net-abi.h, net/socket-abi.h,
-- devices/hectic.h and devices/latmus.h: the structures.
use spacemit_xenomai.Base.{[], ◌∷◌}
use spacemit_xenomai.Abi.{
  CType, u8, u32, s32, u64, s64, unsigned_int, bit_fields, struct, union, end, member,
}
use spacemit_xenomai.Abi.Sched.{sched_attrs}
use spacemit_xenomai.Abi.Types.{timespec, element_ids}

-- The bit fields `type` and `protocol` of a monitor.
abbrev pub monitor_kind : CType
monitor_kind = bit_fields (("type", 2) ∷ ("protocol", 4) ∷ [])

abbrev pub monitor_attrs : CType
monitor_attrs =
    struct (member "clockfd" u32 (member "kind" monitor_kind (member "initval" u32 end)))

abbrev pub monitor_state : CType
monitor_state = struct (
    member "flags" u32 (
      member "u"
        (union (
          member "gate"
            (struct (
              member "owner" u32 (
                member "ceiling" u32
                  (member "depth" (bit_fields (("recursive", 1) ∷ ("nesting", 31) ∷ [])) end))))
            (member "event"
              (struct (member "value" u32 (member "pollrefs" u32 (member "gate_offset" u32 end))))
              end)))
        end))

abbrev pub monitor_waitreq : CType
monitor_waitreq =
    struct (
      member "timeout_ptr" u64 (member "gatefd" s32 (member "status" s32 (member "value" s32 end))))

abbrev pub monitor_unwaitreq : CType
monitor_unwaitreq = struct (member "gatefd" s32 end)

abbrev pub monitor_trywaitreq : CType
monitor_trywaitreq = struct (member "value" s32 end)

abbrev pub monitor_binding : CType
monitor_binding = struct (member "kind" monitor_kind (member "eids" element_ids end))

abbrev pub user_window : CType
user_window = struct (member "state" u32 (member "info" u32 (member "pp_pending" u32 end)))

abbrev pub thread_state : CType
thread_state = struct (
    member "eattrs" sched_attrs (
      member "cpu" u32 (
        member "state" u32 (
          member "isw" u32
            (member "csw" u32 (member "sc" u32 (member "rwa" u32 (member "xtime" u64 end))))))))

abbrev pub net_devfd : CType
net_devfd = struct (member "name_ptr" u64 (member "fd" u32 end))

abbrev pub user_oob_msghdr : CType
user_oob_msghdr = struct (
    member "name_ptr" u64 (
      member "iov_ptr" u64 (
        member "ctl_ptr" u64 (
          member "namelen" u32 (
            member "iovlen" u32 (
              member "ctllen" u32 (
                member "count" s32 (
                  member "flags" u32
                    (member "timeout" timespec (member "timestamp" timespec end))))))))))

abbrev pub netdev_activation : CType
netdev_activation = struct (member "poolsz" u64 (member "bufsz" u64 end))

abbrev pub hectic_task_index : CType
hectic_task_index = struct (member "index" unsigned_int (member "flags" unsigned_int end))

abbrev pub hectic_switch_req : CType
hectic_switch_req = struct (member "from" unsigned_int (member "to" unsigned_int end))

abbrev pub hectic_error : CType
hectic_error = struct (member "last_switch" hectic_switch_req (member "fp_val" unsigned_int end))

abbrev pub latmus_setup : CType
latmus_setup = struct (
    member "type" u32 (
      member "period" u64 (
        member "priority" s32 (
          member "cpu" u32 (
            member "u"
              (union (
                member "tune" (struct (member "verbosity" u32 end))
                  (member "measure" (struct (member "xfd" u32 (member "hcells" u32 end))) end)))
              end)))))

abbrev pub latmus_measurement : CType
latmus_measurement = struct (
    member "sum_lat" s64 (
      member "min_lat" s32
        (member "max_lat" s32 (member "overruns" u32 (member "samples" u32 end)))))

abbrev pub latmus_measurement_result : CType
latmus_measurement_result =
    struct (member "last_ptr" u64 (member "histogram_ptr" u64 (member "len" u32 end)))

abbrev pub latmus_result : CType
latmus_result = struct (member "data_ptr" u64 (member "len" u32 end))

-- uapi/evl/devices/spidev.h
abbrev pub spi_ioc_oob_setup : CType
spi_ioc_oob_setup = struct (
    member "frame_len" u32 (
      member "speed_hz" u32 (
        member "bits_per_word" u8
          (member "iobuf_len" u32 (member "tx_offset" u32 (member "rx_offset" u32 end))))))
