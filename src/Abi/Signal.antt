-- ===== src/Abi/Signal.antt =====
-- kernel-overlay/include/uapi/evl/signal.h, with the causes of thread-abi.h: the code that comes with
-- a SIGDEBUG signal, a word of 32 bits. The core puts the cause into the low byte of the marker.
use spacemit_xenomai.Base.{ℕ, ◌<◌, ◌≡◌, refl, Bool, true, arith, bit_and, bit_or, ◌==◌, neg32}

abbrev pub sigdebug_marker : ℕ
sigdebug_marker = 0xfccf0000

unfoldable pub sigdebug_cause : ℕ → ℕ
sigdebug_cause code = bit_and code 0xff

unfoldable pub sigdebug_marked : ℕ → Bool
sigdebug_marked code = bit_and code 0xffff0000 == sigdebug_marker

-- EVL_HMDIAG_NONE and EVL_HMDIAG_TRAP are those of evl/thread.h, which stay in the kernel.
pub data Hmdiag : Type 0 where
  none trap sigdemote sysdemote exdemote watchdog lkdepend lkimbalance lksleep stagex overrun :
      Hmdiag

abbrev pub hmdiag : Hmdiag → ℕ
hmdiag Hmdiag.none = 0
hmdiag Hmdiag.trap = neg32 1
hmdiag Hmdiag.sigdemote = 1
hmdiag Hmdiag.sysdemote = 2
hmdiag Hmdiag.exdemote = 3
hmdiag Hmdiag.watchdog = 4
hmdiag Hmdiag.lkdepend = 5
hmdiag Hmdiag.lkimbalance = 6
hmdiag Hmdiag.lksleep = 7
hmdiag Hmdiag.stagex = 8
hmdiag Hmdiag.overrun = 9

-- Each cause that a user may see is read back from the code that marks it, and the code is marked.
pub sigdebug_lem :
    (d : Hmdiag)
    → hmdiag d < 10
    → (sigdebug_cause (bit_or sigdebug_marker (hmdiag d)) ≡ hmdiag d)
      × (sigdebug_marked (bit_or sigdebug_marker (hmdiag d)) ≡ true)
unfolding sigdebug_cause sigdebug_marked
sigdebug_lem Hmdiag.trap h = absurd (omega arith)
sigdebug_lem Hmdiag.none h = (refl, refl)
sigdebug_lem Hmdiag.sigdemote h = (refl, refl)
sigdebug_lem Hmdiag.sysdemote h = (refl, refl)
sigdebug_lem Hmdiag.exdemote h = (refl, refl)
sigdebug_lem Hmdiag.watchdog h = (refl, refl)
sigdebug_lem Hmdiag.lkdepend h = (refl, refl)
sigdebug_lem Hmdiag.lkimbalance h = (refl, refl)
sigdebug_lem Hmdiag.lksleep h = (refl, refl)
sigdebug_lem Hmdiag.stagex h = (refl, refl)
sigdebug_lem Hmdiag.overrun h = (refl, refl)
