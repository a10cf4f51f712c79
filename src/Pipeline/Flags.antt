-- ===== src/Pipeline/Flags.antt =====
-- The hardware flag over a critical section, and the two states in one word.
use native.Mathlib.Nat.{one-le-pow}
use spacemit_xenomai.Base.{
  ℕ, zero, suc, ◌-◌, ◌*◌, ◌^◌, ◌≤◌, ◌<◌, ◌≡◌, refl, ap, ap₂, ◌∙◌, inl, inr, min, arith, ◌==◌,
  if◌then◌else◌, bit_and, bit_or, bit, u32, clear_flags, bit-le, bit-zero, bit-bit_or,
  bit-clear_pow, bit_and-pow, bit_ext, bit_and-lt, bit_or-lt, bit-pow, bit-bit_and, bit-clear_flags,
  ◌⊎◌, bit-pow_self, pow-lt, ◌/◌, ℕ_discrete,
}
use spacemit_xenomai.Pipeline.{
  sr_ie, native_irq_save, native_irq_restore, native_irqs_disabled, native_irqs_disabled_flags,
  native_save_flags, virtual_to_native_flags, native_to_virtual_flags, merge_flags, split_flags,
}

module _ (ie : ℕ) where
  one_le_ie : 1 ≤ 2 ^ ie
  one_le_ie = one-le-pow ie 2 (omega arith)

  -- `x & SR_IE` is 0 or SR_IE.
  pub masked-cases :
      (x : ℕ)
      → ((bit x ie ≡ 0) × (bit_and x (2 ^ ie) ≡ 0))
        ⊎ ((bit x ie ≡ 1) × (bit_and x (2 ^ ie) ≡ 2 ^ ie))
  masked-cases x = elim (ℕ_discrete (bit x ie) 0) [
    | yes e ↦ inl (e, bit_and-pow ie x ∙ ap (λ (b : ℕ). b * 2 ^ ie) e ∙ omega arith)
    | no n ↦
        let one : bit x ie ≡ 1 = omega (arith, bit-le x ie) in
        inr (one, bit_and-pow ie x ∙ ap (λ (b : ℕ). b * 2 ^ ie) one ∙ omega arith)
  ]

  pub disabled_flags : (x : ℕ) → native_irqs_disabled_flags ie x ≡ 1 - bit x ie
  unfolding native_irqs_disabled_flags
  disabled_flags x = elim (masked-cases x) [
    | inl (b, e) ↦ ground (arith, e, b)
    | inr (b, e) ↦ ground (arith, e, b, one_le_ie)
  ]

  -- After `native_irq_save` the hardware flag is clear and native_irqs_disabled() returns 1; then
  -- `native_irq_restore` with what the save returned, if nothing else enables interrupts, brings
  -- back every digit of the status register.
  pub native_irq_save_lem :
      (status : ℕ)
      → ie < 64
      → let (flags, status') = native_irq_save ie status in
        (native_irqs_disabled ie status' ≡ 1)
        × ((k : ℕ) → k < 64 → bit (native_irq_restore ie flags status') k ≡ bit status k)
  unfolding native_irq_save native_irqs_disabled native_save_flags native_irq_restore
  native_irq_save_lem status small = (
    disabled_flags (clear_flags 64 status (2 ^ ie)) ∙ ground (arith, bit-clear_pow 64 ie ie status),
    λ k b.
        bit-bit_or k (clear_flags 64 status (2 ^ ie)) (bit_and status (2 ^ ie))
        ∙ ground (
          arith,
          bit-clear_pow 64 ie k status,
          bit-bit_and k status (2 ^ ie),
          bit-pow ie k,
          bit-le status k,
        ),
  )

  -- Taking away one of two flag words that share no digit leaves the other.
  disjoint :
      (a v : ℕ)
      → a < 2 ^ 64
      → v < 2 ^ 64
      → ((k : ℕ) → min (bit a k) (bit v k) ≡ 0)
      → clear_flags 64 (bit_or a v) a ≡ v
  disjoint a v ha hv d =
      bit_ext 64 (clear_flags 64 (bit_or a v) a) v
        (bit_and-lt 64 (bit_or a v) (2 ^ 64 - 1 - a) (bit_or-lt 64 a v ha hv)) hv
        (λ k b.
          bit-clear_flags 64 k (bit_or a v) a ha b
          ∙ omega (arith, bit-bit_or k a v, d k, bit-le a k, bit-le v k))

  small_bit : (v k : ℕ) → v ≤ 1 → 0 < k → bit v k ≡ 0
  small_bit v zero h pos = absurd (omega arith)
  small_bit v (suc k) h pos = ap (λ t. bit t k) (halved v h) ∙ bit-zero k
    where
      halved : (v : ℕ) → v ≤ 1 → v / 2 ≡ 0
      halved v h = omega arith

  native_of : (v : ℕ) → v ≤ 1 → virtual_to_native_flags ie (u32 v) ≡ (if v == 0 then 2 ^ ie else 0)
  unfolding virtual_to_native_flags
  native_of v h = elim (ℕ_discrete v 0) [ yes e ↦ ground arith | no n ↦ ground arith ]

  -- `irqs_split_flags` of a word with the hardware half `a` and the virtual half `v`.
  split_word :
      (a v s : ℕ)
      → native_irqs_disabled_flags ie (bit_or a v) ≡ s
      → virtual_to_native_flags ie s ≡ a
      → a < 2 ^ 64
      → v ≤ 1
      → ((k : ℕ) → min (bit a k) (bit v k) ≡ 0)
      → split_flags ie (bit_or a v) ≡ (if v == 0 then 2 ^ ie else 0, s)
  unfolding split_flags
  split_word a v s es ea ha hv d =
      ap
        (λ r. (
          virtual_to_native_flags ie
              (u32 (clear_flags 64 (bit_or a v) (virtual_to_native_flags ie r))),
          r,
        ))
        es
      ∙ ap (λ m. (virtual_to_native_flags ie (u32 (clear_flags 64 (bit_or a v) m)), s)) ea
      ∙ ap (λ t. (virtual_to_native_flags ie (u32 t), s)) (disjoint a v ha (omega arith) d)
      ∙ ap (λ t. (t, s)) (native_of v hv)

  word_lt : ie < 31 → 2 ^ ie < 2 ^ 64
  word_lt h = pow-lt ie 64 (omega arith)

  split-enabled :
      (v : ℕ)
      → 0 < ie
      → ie < 31
      → v ≤ 1
      → split_flags ie (bit_or (2 ^ ie) v) ≡ (if v == 0 then 2 ^ ie else 0, 0)
  split-enabled v pos small hv =
      split_word (2 ^ ie) v 0
        (disabled_flags (bit_or (2 ^ ie) v)
          ∙ omega (arith, bit-bit_or ie (2 ^ ie) v, bit-pow_self ie, bit-le v ie))
        (unfold virtual_to_native_flags in refl) (word_lt small) hv
        (λ k. ground (arith, bit-pow ie k, small_bit v k hv, bit-le v k))

  split-stalled :
      (v : ℕ)
      → 0 < ie
      → ie < 31
      → v ≤ 1
      → split_flags ie (bit_or 0 v) ≡ (if v == 0 then 2 ^ ie else 0, 1)
  split-stalled v pos small hv =
      split_word 0 v 1
        (disabled_flags (bit_or 0 v)
          ∙ omega (arith, bit-bit_or ie 0 v, bit-zero ie, small_bit v ie hv pos))
        (unfold virtual_to_native_flags in refl) (omega arith) hv
        (λ k. omega (arith, bit-zero k, bit-le v k))

  virtual_of :
      (stalled : ℕ) → virtual_to_native_flags ie stalled ≡ (if stalled == 0 then 2 ^ ie else 0)
  unfolding virtual_to_native_flags
  virtual_of stalled = ground arith

  hardware_of :
      (flags : ℕ)
      → native_to_virtual_flags ie flags ≡ (if bit_and flags (2 ^ ie) == 0 then 1 else 0)
  unfolding native_to_virtual_flags
  hardware_of flags = ground arith

  merge_word :
      (flags stalled : ℕ)
      → merge_flags ie flags stalled
        ≡ bit_or (if stalled == 0 then 2 ^ ie else 0) (if bit_and flags (2 ^ ie) == 0 then 1 else 0)
  unfolding merge_flags
  merge_word flags stalled = ap₂ bit_or (virtual_of stalled) (hardware_of flags)

  -- The virtual state and the hardware state that `irqs_merge_flags` puts into one word are what
  -- `irqs_split_flags` takes out of it: the stall flag as 0 or 1, and the flag SR_IE of the status
  -- word. SR_IE is not digit 0, and one of the 31 below bit 32.
  pub merge_flags_lem :
      (flags stalled : ℕ)
      → 0 < ie
      → ie < 31
      → split_flags ie (merge_flags ie flags stalled)
        ≡ (bit_and flags (sr_ie ie), if stalled == 0 then 0 else 1)
  merge_flags_lem flags stalled pos small = elim (ℕ_discrete stalled 0) [
    | yes z ↦
        ap (split_flags ie) (merge_word flags stalled ∙ ground arith)
        ∙ split-enabled (hardware flags) pos small (hardware-le flags)
        ∙ ground (arith, selected flags)
    | no n ↦
        ap (split_flags ie) (merge_word flags stalled ∙ ground arith)
        ∙ split-stalled (hardware flags) pos small (hardware-le flags)
        ∙ ground (arith, selected flags)
  ]
    where
      hardware : ℕ → ℕ
      hardware flags = if bit_and flags (2 ^ ie) == 0 then 1 else 0

      hardware-le : (flags : ℕ) → hardware flags ≤ 1
      hardware-le flags = ground arith

      selected : (flags : ℕ) → (if hardware flags == 0 then 2 ^ ie else 0) ≡ bit_and flags (2 ^ ie)
      selected flags = elim (masked-cases flags) [
        | inl (b, e) ↦ ground arith
        | inr (b, e) ↦ ground (arith, one_le_ie)
      ]
