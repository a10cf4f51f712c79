-- ===== src/Abi/Tests.antt =====
-- Layouts, lengths and command numbers on concrete inputs.
use spacemit_xenomai.Base.{◌+◌, ◌*◌, ◌^◌, ◌≡◌, ◌↔◌, refl, [], ◌∷◌, arith}
use spacemit_xenomai.Abi.{ilp32, lp64, size_of, align_of, offsets, layout}
use spacemit_xenomai.Abi.Stable.{sizes, command_number-stable}
use spacemit_xenomai.Abi.Types.{core_info}
use spacemit_xenomai.Ioctl.Commands.{command_code, monitor, thread}
use spacemit_xenomai.Ioctl.Core.{monioc_wait, monitor_code, thrioc_yield}
use spacemit_xenomai.Ioctl.Distinct.{IocMacro, command_number}

-- A word of 4 bytes is left out before the size of the shared memory.
layout-core_info : layout ilp32 core_info ≡ record {
  size = 24;
  align = 8;
  members = ("abi_base", 0) ∷ ("abi_current", 4) ∷ ("fpu_features", 8) ∷ ("shm_size", 16) ∷ [];
}
unfolding layout size_of align_of offsets
layout-core_info = refl

abbrev packed : IocMacro
packed = record {
  ioc = λ dir type nr size. dir * 2 ^ 30 + size * 2 ^ 16 + type * 2 ^ 8 + nr;
  read_back = λ dir type nr size dir' type' nr' size' h h' e. omega arith;
}

-- EVL_MONIOC_WAIT as the kernel's macro makes it.
monioc_wait_number : command_number packed (sizes lp64) (monitor monioc_wait) ≡ 0xc0186d03
unfolding command_number command_code monitor_code size_of align_of
monioc_wait_number = refl

command_number-stable_example :
    (command_number packed (sizes ilp32) (monitor monioc_wait)
      ≡ command_number packed (sizes lp64) (thread thrioc_yield))
    ↔ (monitor monioc_wait ≡ thread thrioc_yield)
command_number-stable_example =
    command_number-stable packed ilp32 lp64 (monitor monioc_wait) (thread thrioc_yield)
