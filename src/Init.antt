-- ===== src/Init.antt =====
-- kernel-overlay/include/evl/init.h and kernel-overlay/include/evl/device.h: calls while the core is
-- brought up, and whether there is a core.
use spacemit_xenomai.Base.{ℕ, Bool, ◌==◌, if◌then◌else◌}

-- `struct evl_machine_cpudata`
pub record MachineCpudata : Type 0 where

-- Without CONFIG_EVL_DEBUG there is no warning.
unfoldable pub warn_init : {W : Type 0} → ℕ → ℕ → ℕ → W → W
warn_init fn level status w = w

-- EVL_INIT_CALL: `warn` is what `evl_warn_init` does, given the call's text, the level and the
-- result.
unfoldable pub init_call : {W : Type 0} → (ℕ → ℕ → ℕ → W → W) → ℕ → ℕ → (W → W × ℕ) → W → W × ℕ
init_call warn text level call w =
    let (w', ret) = call w in if ret == 0 then (w', ret) else (warn text level ret w', ret)

unfoldable pub evl_enabled : Bool → Bool
evl_enabled config_evl = config_evl
