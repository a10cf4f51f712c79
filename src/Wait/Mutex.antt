-- ===== src/Wait/Mutex.antt =====
-- kernel-overlay/include/evl/mutex.h, kernel-overlay/include/evl/sem.h and the handles of
-- kernel-overlay/include/uapi/evl/types.h. `max_rt_prio` stands for the kernel's MAX_RT_PRIO; the
-- operations that mutex.h only declares are arguments. The fast lock is a word in memory.
use spacemit_xenomai.Base.{
  ℕ, zero, suc, ◌+◌, ◌/◌, ◌^◌, ◌≤◌, ◌<◌, ◌≡◌, ap, ◌∙◌, inl, inr, min, max, Bool, true, false,
  Bool-cases, arith, ◌==◌, if◌then◌else◌, u32, bit, bit_or, clear_flags, bit-zero, bit-le, bit-pow,
  bit-bit_or, bit-clear_flags, bit_ext, bit_and-lt, bit_or-lt,
}
use native.Mathlib.Nat.{pow-suc}
use spacemit_xenomai.Sched.{SchedParam}
use spacemit_xenomai.Sched.Fifo.{fifo_max_prio, chk_fifo_schedparam}
use spacemit_xenomai.Sched.Fifo.Range.{Accepts, chk_fifo_schedparam_lem, is_user}
use spacemit_xenomai.Thread.{Thread, SchedClass}
use spacemit_xenomai.Wait.{WaitChannel, WaitQueue, wait_initializer, TimeoutMode, rel, infinite}

abbrev pub mutex_pi : ℕ
mutex_pi = 1

abbrev pub mutex_pp : ℕ
mutex_pp = 2

abbrev pub mutex_piboost : ℕ
mutex_piboost = 4

abbrev pub mutex_ceiling : ℕ
mutex_ceiling = 8

abbrev pub mutex_counted : ℕ
mutex_counted = 16

pub record Boost : Type 0 where
  pub sched_class : SchedClass
  pub param : SchedParam
  pub wprio : ℕ  -- int

pub record Mutex : Type 0 where
  pub fastlock : ℕ
  pub flags : ℕ  -- int
  pub ceiling_addr : ℕ
  pub wchan : WaitChannel
  pub boost : Boost
  pub clock : ℕ

pub record Kmutex : Type 0 where
  pub mutex : Mutex
  pub fastlock : ℕ  -- atomic_t

module _ {W : Type 0} where
  -- `lock` stands for `evl_lock_mutex_timeout`.
  unfoldable pub lock_mutex : (Mutex → ℕ → TimeoutMode → W → W × ℕ) → Mutex → W → W × ℕ
  lock_mutex lock m w = lock m infinite rel w

  unfoldable pub lock_kmutex : (Mutex → ℕ → TimeoutMode → W → W × ℕ) → Kmutex → W → W × ℕ
  unfolding lock_mutex
  lock_kmutex lock k w = lock_mutex lock k.mutex w

  unfoldable pub trylock_kmutex : (Mutex → W → W × ℕ) → Kmutex → W → W × ℕ
  trylock_kmutex trylock k w = trylock k.mutex w

  unfoldable pub unlock_kmutex : (Mutex → W → W) → Kmutex → W → W
  unlock_kmutex unlock k w = unlock k.mutex w

  unfoldable pub destroy_kmutex : (Mutex → W → W) → Kmutex → W → W
  destroy_kmutex destroy k w = destroy k.mutex w

-- `init_pi` stands for evl_init_mutex_pi() on the mono clock and the mutex's own fast lock.
unfoldable pub init_kmutex : (Mutex → Mutex) → Kmutex → Kmutex
init_kmutex init_pi k = record { mutex = init_pi k.mutex; fastlock = 0 }

-- `struct evl_ksem`
pub record Ksem : Type 0 where
  pub wait : WaitQueue
  pub value : ℕ  -- unsigned int

unfoldable pub init_ksem : ℕ → ℕ → ℕ → Ksem
unfolding wait_initializer
init_ksem mono name value = record { wait = wait_initializer mono name; value = value }

unfoldable pub destroy_ksem : (WaitQueue → WaitQueue) → Ksem → Ksem
destroy_ksem destroy_wait k = record k { wait = destroy_wait k.wait }

-- `clamp` of the value in user memory.
unfoldable pub ceiling_priority : ℕ → ℕ → ℕ
ceiling_priority max_rt_prio value = min (max value 1) (u32 (fifo_max_prio max_rt_prio))

abbrev pub mutex_flclaim : ℕ
mutex_flclaim = 0x80000000

abbrev pub mutex_flceil : ℕ
mutex_flceil = 0x40000000

abbrev pub handle_index_mask : ℕ
handle_index_mask = bit_or mutex_flclaim mutex_flceil

unfoldable pub get_index : ℕ → ℕ
get_index handle = clear_flags 32 handle handle_index_mask

unfoldable pub is_mutex_owner : ℕ → ℕ → Bool
unfolding get_index
is_mutex_owner fastlock ownerh = get_index fastlock == ownerh

accepted :
    (max_rt_prio : ℕ) (thread : Thread) (prio : ℕ)
    → 1 ≤ prio
    → prio + 1 ≤ max_rt_prio
    → Accepts max_rt_prio thread prio
accepted max_rt_prio thread prio low high = elim (Bool-cases (is_user thread)) [
  | inl e ↦ rw e (low, high)
  | inr e ↦ rw e (omega arith)
]

-- Whatever stands in user memory, `evl_ceiling_priority` gives a priority from 1 to
-- EVL_FIFO_MAX_PRIO, the value itself if it is one of these, and `__evl_chk_fifo_schedparam`
-- accepts it for every thread.
pub ceiling_priority_lem :
    (max_rt_prio value : ℕ) (thread : Thread) (id : ℕ)
    → 2 ≤ max_rt_prio
    → max_rt_prio < 2 ^ 30
    → let prio = ceiling_priority max_rt_prio value in
      (1 ≤ prio)
      × (prio ≤ fifo_max_prio max_rt_prio)
      × (1 ≤ value → value ≤ fifo_max_prio max_rt_prio → prio ≡ value)
      × (chk_fifo_schedparam max_rt_prio thread (record { prio = prio; id = id }) ≡ 0)
unfolding ceiling_priority
ceiling_priority_lem max_rt_prio value thread id two small = (
  omega arith,
  omega arith,
  (λ a b. omega arith),
  (chk_fifo_schedparam_lem max_rt_prio thread
        (record { prio = min (max value 1) (u32 (fifo_max_prio max_rt_prio)); id = id })
        (omega arith) small (omega arith)).2
      (accepted max_rt_prio thread _ (omega arith) (omega arith)),
)

bit_high : (w k x : ℕ) → x < 2 ^ w → w ≤ k → bit x k ≡ 0
bit_high zero k x h le = let none : x ≡ 0 = omega arith in ap (λ t. bit t k) none ∙ bit-zero k
bit_high (suc w) zero x h le = absurd (omega arith)
bit_high (suc w) (suc k) x h le = bit_high w k (x / 2) (omega (arith, pow-suc 2 w)) (omega arith)

-- The reserved bits of a fast lock.
abbrev pub status_bits : Bool → Bool → ℕ
status_bits claimed ceiling =
    bit_or (if claimed then mutex_flclaim else 0) (if ceiling then mutex_flceil else 0)

index_of :
    (h : ℕ) (claimed ceiling : Bool)
    → h < 2 ^ 30
    → get_index (bit_or h (status_bits claimed ceiling)) ≡ h
unfolding get_index
index_of h claimed ceiling small =
    let f = status_bits claimed ceiling in
    bit_ext 32 (clear_flags 32 (bit_or h f) handle_index_mask) h
      (bit_and-lt 32 (bit_or h f) 1073741823
        (bit_or-lt 32 h f (omega arith) (status-lt claimed ceiling)))
      (omega arith)
      (λ k b.
        bit-clear_flags 32 k (bit_or h f) handle_index_mask (omega arith) b
        ∙ ground (
          arith,
          bit-bit_or k h f,
          status_digit k claimed ceiling,
          bit-bit_or k mutex_flclaim mutex_flceil,
          bit-pow 31 k,
          bit-pow 30 k,
          bit-le h k,
          λ (le : 30 ≤ k). bit_high 30 k h small le,
        ))
  where
    status-lt : (claimed ceiling : Bool) → status_bits claimed ceiling < 2 ^ 32
    status-lt true true = omega arith
    status-lt true false = omega arith
    status-lt false true = omega arith
    status-lt false false = omega arith

    flag_digit :
        (k j : ℕ) (set : Bool) → bit (if set then 2 ^ j else 0) k ≤ (if j == k then 1 else 0)
    flag_digit k j true = omega (arith, bit-pow j k)
    flag_digit k j false = omega (arith, bit-zero k)

    status_digit :
        (k : ℕ) (claimed ceiling : Bool)
        → bit (status_bits claimed ceiling) k
          ≤ max (if 31 == k then 1 else 0) (if 30 == k then 1 else 0)
    status_digit k claimed ceiling = omega (
      arith,
      bit-bit_or k (if claimed then mutex_flclaim else 0) (if ceiling then mutex_flceil else 0),
      flag_digit k 31 claimed,
      flag_digit k 30 ceiling,
    )

-- For handles below 2 ^ 30, `evl_is_mutex_owner` says whether the handle in the fast lock is the
-- one given, whichever of EVL_MUTEX_FLCLAIM and EVL_MUTEX_FLCEIL are set.
pub is_mutex_owner_lem :
    (h ownerh : ℕ) (claimed ceiling : Bool)
    → h < 2 ^ 30
    → is_mutex_owner (bit_or h (status_bits claimed ceiling)) ownerh ≡ (h == ownerh)
unfolding is_mutex_owner
is_mutex_owner_lem h ownerh claimed ceiling small =
    ap (λ i. i == ownerh) (index_of h claimed ceiling small)
