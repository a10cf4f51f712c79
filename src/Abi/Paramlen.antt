-- ===== src/Abi/Paramlen.antt =====
-- kernel-overlay/include/uapi/evl/sched-abi.h: the lengths of a schedule of the TP class, which ends
-- in an array of windows. `size_t` has 64 bits, so pointers have 8 bytes.
use Prim.Native.String.{String}
use text.Mathlib.Text.{◌==◌}
use spacemit_xenomai.Base.{
  ℕ, ◌+◌, ◌-◌, ◌*◌, ◌%◌, ◌^◌, ◌≤◌, ◌<◌, ◌≡◌, List, [], ◌∷◌, u64, ltb, if◌then◌else◌, arith,
}
use spacemit_xenomai.Abi.{CType, lp64, size_of, align_of, offsets}
use spacemit_xenomai.Abi.Sched.{tp_window, tp_ctlparam, tp_ctlinfo}

-- An `int` that is converted to `size_t` is extended by its sign.
abbrev int_to_size : ℕ → ℕ
int_to_size n = if ltb n (2 ^ 31) then n else n + (2 ^ 64 - 2 ^ 32)

unfoldable pub tp_paramlen : ℕ → ℕ
tp_paramlen nr_windows =
    u64 (size_of lp64 tp_ctlparam + u64 (int_to_size nr_windows * size_of lp64 tp_window))

unfoldable pub tp_infolen : ℕ → ℕ
tp_infolen nr_windows =
    u64 (size_of lp64 tp_ctlinfo + u64 (int_to_size nr_windows * size_of lp64 tp_window))

abbrev find_offset : String → List (String × ℕ) → ℕ
find_offset name [] = 0
find_offset name ((other, at) ∷ fs) = if other == name then at else find_offset name fs

-- Where the window `i` of a schedule starts, by the rules of an array member.
abbrev pub window_at : CType → ℕ → ℕ
window_at t i = find_offset "windows" (offsets lp64 0 t) + i * size_of lp64 tp_window

-- For a number of windows that is not negative as an `int`: every window is aligned, ends within
-- `evl_tp_paramlen` of a request to install a schedule and within `evl_tp_infolen` of an answer, and
-- the last one ends with them. For a negative number both lengths are 2^63 at least, more than any
-- object has.
pub tp_paramlen_lem :
    (nr_windows : ℕ)
    → nr_windows < 2 ^ 32
    → (nr_windows < 2 ^ 31
        → ((i : ℕ)
            → i < nr_windows
            → (window_at tp_ctlparam i % align_of lp64 tp_window ≡ 0)
              × (window_at tp_ctlparam i + size_of lp64 tp_window ≤ tp_paramlen nr_windows)
              × (window_at tp_ctlinfo i % align_of lp64 tp_window ≡ 0)
              × (window_at tp_ctlinfo i + size_of lp64 tp_window ≤ tp_infolen nr_windows))
          × (window_at tp_ctlparam nr_windows ≡ tp_paramlen nr_windows)
          × (window_at tp_ctlinfo nr_windows ≡ tp_infolen nr_windows))
      × (2 ^ 31 ≤ nr_windows → (2 ^ 63 ≤ tp_paramlen nr_windows) × (2 ^ 63 ≤ tp_infolen nr_windows))
unfolding tp_paramlen tp_infolen size_of align_of offsets
tp_paramlen_lem nr_windows fits =
    ((λ h. ((λ i b. ground arith), ground arith, ground arith)), (λ h. ground arith))
