-- ===== src/Thread/Flags.antt =====
-- kernel-overlay/include/uapi/evl/thread-abi.h: the flags of a thread's `state`, `info` and
-- `local_info` words, and the sets of flags that kernel-overlay/include/evl/thread.h names.
use spacemit_xenomai.Base.{ℕ, List, [], ◌∷◌, bit_or}

-- State flags, in the order of their declaration.
pub data StateFlag : Type 0 where
  susp pend delay wait ready dormant zombie inband halt boost ptsync rrb root weak user woss woli
        wosx ptrace observ hmsig hmobs woso :
      StateFlag

abbrev pub state_flag : StateFlag → ℕ
state_flag susp = 0x00000001
state_flag pend = 0x00000002
state_flag delay = 0x00000004
state_flag wait = 0x00000008
state_flag ready = 0x00000010
state_flag dormant = 0x00000020
state_flag zombie = 0x00000040
state_flag inband = 0x00000080
state_flag halt = 0x00000100
state_flag boost = 0x00000200
state_flag ptsync = 0x00000400
state_flag rrb = 0x00000800
state_flag root = 0x00001000
state_flag weak = 0x00002000
state_flag user = 0x00004000
state_flag woss = 0x00008000
state_flag woli = 0x00010000
state_flag wosx = 0x00020000
state_flag ptrace = 0x00040000
state_flag observ = 0x00080000
state_flag hmsig = 0x00100000
state_flag hmobs = 0x00200000
state_flag woso = 0x00400000

-- Information flags, in the order of their declaration.
pub data InfoFlag : Type 0 where
  timeo rmid break kicked wchan canceld pialert schedp bcast signal sxalert ptsig ptstop ptjoin
        nomem :
      InfoFlag

abbrev pub info_flag : InfoFlag → ℕ
info_flag timeo = 0x00000001
info_flag rmid = 0x00000002
info_flag break = 0x00000004
info_flag kicked = 0x00000008
info_flag wchan = 0x00000010
info_flag canceld = 0x00000040
info_flag pialert = 0x00000080
info_flag schedp = 0x00000100
info_flag bcast = 0x00000200
info_flag signal = 0x00000400
info_flag sxalert = 0x00000800
info_flag ptsig = 0x00001000
info_flag ptstop = 0x00002000
info_flag ptjoin = 0x00004000
info_flag nomem = 0x00008000

-- Local information flags, in the order of their declaration.
pub data LocalFlag : Type 0 where
  sysrst ignovr infault norst : LocalFlag

abbrev pub local_flag : LocalFlag → ℕ
local_flag sysrst = 0x00000001
local_flag ignovr = 0x00000002
local_flag infault = 0x00000004
local_flag norst = 0x00000008

abbrev pub any_of {ℓ} : {A : Type ℓ} → (A → ℕ) → List A → ℕ
any_of flag [] = 0
any_of flag (f ∷ fs) = bit_or (flag f) (any_of flag fs)

-- EVL_THREAD_BLOCK_BITS
abbrev pub block_bits : ℕ
block_bits = any_of state_flag (susp ∷ pend ∷ delay ∷ wait ∷ dormant ∷ inband ∷ halt ∷ ptsync ∷ [])

-- EVL_THREAD_INFO_MASK
abbrev pub info_mask : ℕ
info_mask = any_of info_flag (rmid ∷ timeo ∷ break ∷ kicked ∷ bcast ∷ nomem ∷ [])

-- EVL_THREAD_MODE_BITS
abbrev pub mode_bits : ℕ
mode_bits = any_of state_flag (woss ∷ woli ∷ wosx ∷ woso ∷ hmsig ∷ hmobs ∷ [])
