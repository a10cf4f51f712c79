-- ===== src/Thread/Window.antt =====
-- kernel-overlay/include/evl/thread.h: the copy of a thread's words in its user window.
use spacemit_xenomai.Base.{ℕ, ◌-◌, ◌<◌, ◌≡◌, min, max, none, some, bit, set_flags, clear_flags}
use spacemit_xenomai.Thread.{Thread}

unfoldable pub sync_uwindow : Thread → Thread
sync_uwindow curr = elim curr.u_window [
  | none ↦ curr
  | some w ↦ record curr { u_window = some (record w { state = curr.state; info = curr.info }) }
]

unfoldable pub clear_sync_uwindow : Thread → ℕ → Thread
clear_sync_uwindow curr state_bits = elim curr.u_window [
  | none ↦ curr
  | some w ↦ record curr {
    u_window = some (record w { state = clear_flags 32 curr.state state_bits; info = curr.info });
  }
]

unfoldable pub set_sync_uwindow : Thread → ℕ → Thread
set_sync_uwindow curr state_bits = elim curr.u_window [
  | none ↦ curr
  | some w ↦ record curr {
    u_window = some (record w { state = set_flags curr.state state_bits; info = curr.info });
  }
]

-- What a window shows of a thread: digit `k` of its state, moved by `f`, and its info word.
abbrev pub Shows : (ℕ → ℕ → ℕ) → Thread → Thread → Type 0
Shows f curr curr' = (curr'.state ≡ curr.state) × (curr'.info ≡ curr.info) × elim curr'.u_window [
  | none ↦ curr.u_window ≡ none
  | some w ↦ (w.info ≡ curr.info) × ((k : ℕ) → k < 32 → bit w.state k ≡ f k (bit curr.state k))
]

abbrev Windows : Thread → ℕ → Type 0
Windows curr m =
    Shows (λ k b. b) curr (sync_uwindow curr)
    × Shows (λ k b. min b (1 - bit m k)) curr (clear_sync_uwindow curr m)
    × Shows (λ k b. max b (bit m k)) curr (set_sync_uwindow curr m)
