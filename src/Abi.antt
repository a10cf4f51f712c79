-- ===== src/Abi.antt =====
-- kernel-overlay/include/uapi/evl: the structures that cross the boundary to user space, as C types,
-- and where a C compiler puts their members. A 64-bit integer is aligned on 8 bytes with pointers
-- of 4 bytes too, as on RISC-V.
pub mod Types
pub mod Sched
pub mod Requests
pub mod Paramlen
pub mod Constants
pub mod Signal
pub mod Stable
mod Tests
use Prim.Native.String.{String}
use spacemit_xenomai.Base.{ℕ, ◌+◌, ◌-◌, ◌*◌, ◌/◌, List, [], ◌∷◌, ◌++◌, ltb, if◌then◌else◌}

-- The size of a pointer: 4 or 8 bytes.
pub data Platform : Type 0 where
  ilp32 lp64 : Platform

abbrev pub pointer_size : Platform → ℕ
pointer_size ilp32 = 4
pointer_size lp64 = 8

-- Bit fields share one word of 32 bits; they are given by name and width.
mutual
  pub data CType : Type 0 where
    u8 u16 u32 s32 u64 s64 long_long int unsigned_int enumeration pointer : CType
    bit_fields : List (String × ℕ) → CType
    array : ℕ → CType → CType
    struct union : Members → CType

  pub data Members : Type 0 where
    end : Members
    member : String → CType → Members → Members

abbrev pub round_up : ℕ → ℕ → ℕ
round_up n align = (n + align - 1) / align * align

abbrev pub max : ℕ → ℕ → ℕ
max m n = if ltb m n then n else m

unfoldable mutual
  pub align_of : Platform → CType → ℕ
  align_of p u8 = 1
  align_of p u16 = 2
  align_of p u32 = 4
  align_of p s32 = 4
  align_of p u64 = 8
  align_of p s64 = 8
  align_of p long_long = 8
  align_of p int = 4
  align_of p unsigned_int = 4
  align_of p enumeration = 4
  align_of p pointer = pointer_size p
  align_of p (bit_fields fs) = 4
  align_of p (array n t) = align_of p t
  align_of p (struct ms) = max_align p ms
  align_of p (union ms) = max_align p ms

  pub max_align : Platform → Members → ℕ
  max_align p end = 1
  max_align p (member name t ms) = max (align_of p t) (max_align p ms)

-- `end_of` is the end of the last member of a structure, `max_size` the size of the largest one.
unfoldable mutual
  pub size_of : Platform → CType → ℕ
  size_of p u8 = 1
  size_of p u16 = 2
  size_of p u32 = 4
  size_of p s32 = 4
  size_of p u64 = 8
  size_of p s64 = 8
  size_of p long_long = 8
  size_of p int = 4
  size_of p unsigned_int = 4
  size_of p enumeration = 4
  size_of p pointer = pointer_size p
  size_of p (bit_fields fs) = 4
  size_of p (array n t) = n * size_of p t
  size_of p (struct ms) = round_up (end_of p 0 ms) (align_of p (struct ms))
  size_of p (union ms) = round_up (max_size p ms) (align_of p (union ms))

  pub end_of : Platform → ℕ → Members → ℕ
  end_of p offset end = offset
  end_of p offset (member name t ms) = end_of p (round_up offset (align_of p t) + size_of p t) ms

  pub max_size : Platform → Members → ℕ
  max_size p end = 0
  max_size p (member name t ms) = max (size_of p t) (max_size p ms)

-- The offsets of the members, nested ones too, of a type that starts at `base`.
unfoldable mutual
  pub offsets : Platform → ℕ → CType → List (String × ℕ)
  offsets p base (struct ms) = struct_offsets p base 0 ms
  offsets p base (union ms) = union_offsets p base ms
  offsets p base (array n t) = offsets p base t
  offsets p base t = []

  pub struct_offsets : Platform → ℕ → ℕ → Members → List (String × ℕ)
  struct_offsets p base offset end = []
  struct_offsets p base offset (member name t ms) =
      let at = round_up offset (align_of p t) in
      (name, base + at) ∷ (offsets p (base + at) t ++ struct_offsets p base (at + size_of p t) ms)

  pub union_offsets : Platform → ℕ → Members → List (String × ℕ)
  union_offsets p base end = []
  union_offsets p base (member name t ms) =
      (name, base) ∷ (offsets p base t ++ union_offsets p base ms)

pub record Layout : Type 0 where
  pub size : ℕ
  pub align : ℕ
  pub members : List (String × ℕ)

unfoldable pub layout : Platform → CType → Layout
layout p t = record { size = size_of p t; align = align_of p t; members = offsets p 0 t }
