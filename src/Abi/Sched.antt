-- ===== src/Abi/Sched.antt =====
-- kernel-overlay/include/uapi/evl/sched-abi.h: the structures.
use spacemit_xenomai.Abi.{CType, u64, int, enumeration, array, struct, union, end, member}
use spacemit_xenomai.Abi.Types.{timespec}

abbrev pub rr_param : CType
rr_param = struct (member "__sched_rr_quantum" timespec end)

abbrev pub quota_param : CType
quota_param = struct (member "__sched_group" int end)

abbrev pub quota_ctlparam : CType
quota_ctlparam = struct (
    member "op" enumeration (
      member "u"
        (union (
          member "remove" (struct (member "tgid" int end)) (
            member "set"
              (struct (member "tgid" int (member "quota" int (member "quota_peak" int end))))
              (member "get" (struct (member "tgid" int end)) end))))
        end))

abbrev pub quota_ctlinfo : CType
quota_ctlinfo =
    struct (
      member "tgid" int (member "quota" int (member "quota_peak" int (member "quota_sum" int end))))

abbrev pub tp_param : CType
tp_param = struct (member "__sched_partition" int end)

abbrev pub tp_window : CType
tp_window = struct (member "offset" timespec (member "duration" timespec (member "ptid" int end)))

abbrev pub tp_ctlparam : CType
tp_ctlparam =
    struct
      (member "op" enumeration (member "nr_windows" int (member "windows" (array 0 tp_window) end)))

abbrev pub tp_ctlinfo : CType
tp_ctlinfo = struct (member "nr_windows" int (member "windows" (array 0 tp_window) end))

abbrev pub sched_attrs : CType
sched_attrs = struct (
    member "sched_policy" int (
      member "sched_priority" int (
        member "sched_u"
          (union (member "rr" rr_param (member "quota" quota_param (member "tp" tp_param end))))
          end)))

abbrev pub sched_ctlparam : CType
sched_ctlparam = union (member "quota" quota_ctlparam (member "tp" tp_ctlparam end))

abbrev pub sched_ctlinfo : CType
sched_ctlinfo = union (member "quota" quota_ctlinfo (member "tp" tp_ctlinfo end))

abbrev pub sched_ctlreq : CType
sched_ctlreq =
    struct
      (member "policy" int (member "cpu" int (member "param_ptr" u64 (member "info_ptr" u64 end))))
