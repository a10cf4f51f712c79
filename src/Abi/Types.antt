-- ===== src/Abi/Types.antt =====
-- kernel-overlay/include/uapi/evl/types.h, factory-abi.h, control-abi.h, clock-abi.h,
-- observable-abi.h, poll-abi.h, proxy-abi.h and xbuf-abi.h: the structures.
use spacemit_xenomai.Abi.{
  CType, u32, s32, u64, s64, long_long, int, pointer, struct, union, end, member,
}

abbrev pub timespec : CType
timespec = struct (member "tv_sec" long_long (member "tv_nsec" long_long end))

abbrev pub itimerspec : CType
itimerspec = struct (member "it_interval" timespec (member "it_value" timespec end))

-- `union evl_value`
abbrev pub value : CType
value = union (member "val" s32 (member "lval" s64 (member "ptr" pointer end)))

abbrev pub element_ids : CType
element_ids = struct (member "minor" u32 (member "fundle" u32 (member "state_offset" u32 end)))

abbrev pub clone_req : CType
clone_req = struct (
    member "name_ptr" u64 (
      member "attrs_ptr" u64
        (member "clone_flags" u32 (member "eids" element_ids (member "efd" u32 end)))))

abbrev pub core_info : CType
core_info = struct (
    member "abi_base" u32
      (member "abi_current" u32 (member "fpu_features" u32 (member "shm_size" u64 end))))

abbrev pub cpu_state : CType
cpu_state = struct (member "cpu" u32 (member "state_ptr" u64 end))

abbrev pub timerfd_setreq : CType
timerfd_setreq = struct (member "value_ptr" u64 (member "ovalue_ptr" u64 end))

abbrev pub notice : CType
notice = struct (member "tag" u32 (member "event" value end))

abbrev pub subscription : CType
subscription = struct (member "backlog_count" u32 (member "flags" u32 end))

abbrev pub notification : CType
notification = struct (
    member "tag" u32 (
      member "serial" u32
        (member "issuer" s32 (member "event" value (member "date" timespec end)))))

abbrev pub poll_ctlreq : CType
poll_ctlreq =
    struct
      (member "action" u32 (member "fd" u32 (member "events" u32 (member "pollval" value end))))

abbrev pub poll_event : CType
poll_event = struct (member "fd" u32 (member "events" u32 (member "pollval" value end)))

abbrev pub poll_waitreq : CType
poll_waitreq = struct (member "timeout_ptr" u64 (member "pollset_ptr" u64 (member "nrset" int end)))

abbrev pub proxy_attrs : CType
proxy_attrs = struct (member "fd" u32 (member "bufsz" u32 (member "granularity" u32 end)))

abbrev pub xbuf_attrs : CType
xbuf_attrs = struct (member "i_bufsz" u32 (member "o_bufsz" u32 end))
