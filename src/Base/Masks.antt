-- ===== src/Base/Masks.antt =====
-- Tests of a word against a mask of several flags.
use Prim.Native.Nat.{ℕ, zero, suc, ◌+◌, ◌^◌, ◌<◌, min, max, bit_and, bit_or}
use mathlib.Core.Path.{◌≡◌, sym, ap, ap₂, ◌∙◌}
use mathlib.Core.Logic.{◌≢◌, ◌↔◌}
use native.Mathlib.Nat.{pow-suc}
use native.Mathlib.Omega.{arith}
use native.Mathlib.Decide.{ℕ_discrete}
use spacemit_xenomai.Base.Tests.{◌==◌, if◌then◌else◌}
use spacemit_xenomai.Base.Bits.{bit}
use spacemit_xenomai.Base.Laws.{
  bit-le, bit-bit_and, bit-bit_or, bit_ext, bit_and-lt, bit-pow_self, bit-pow_ne, pow-lt,
}

lt-pow : (n : ℕ) → n < 2 ^ n
lt-pow zero = omega arith
lt-pow (suc n) = omega (arith, lt-pow n, pow-suc 2 n)

pub bit-pow : (j k : ℕ) → bit (2 ^ j) k ≡ (if j == k then 1 else 0)
bit-pow j k = elim (ℕ_discrete j k) [
  | yes e ↦ ground (arith, ap (λ t. bit (2 ^ j) t) e, bit-pow_self j)
  | no n ↦ ground (arith, bit-pow_ne j k n)
]

-- `(x & (a | b)) == b` for two different flags: the second is set, the first is not.
pub only_second_flag :
    (j k x : ℕ)
    → j ≢ k
    → (bit_and x (bit_or (2 ^ j) (2 ^ k)) ≡ 2 ^ k) ↔ ((bit x k ≡ 1) × (bit x j ≡ 0))
only_second_flag j k x ne = (
  λ e. (ground (arith, at k e, bit-le x k), ground (arith, at j e, bit-le x j)),
  λ h.
      let w = x + j + k + 1 in
      let small : x < 2 ^ w = omega (arith, lt-pow x, pow-lt x w (omega arith)) in
      bit_ext w (bit_and x (bit_or (2 ^ j) (2 ^ k))) (2 ^ k)
        (bit_and-lt w x (bit_or (2 ^ j) (2 ^ k)) small) (pow-lt k w (omega arith))
        (λ i b. ground (arith, digit i, bit-pow k i, h.0, h.1, ap (λ t. bit x t), bit-le x i)),
)
  where
    digit :
        (i : ℕ)
        → bit (bit_and x (bit_or (2 ^ j) (2 ^ k))) i
          ≡ min (bit x i) (max (if j == i then 1 else 0) (if k == i then 1 else 0))
    digit i =
        bit-bit_and i x (bit_or (2 ^ j) (2 ^ k))
        ∙ ap (λ t. min (bit x i) t) (bit-bit_or i (2 ^ j) (2 ^ k))
        ∙ ap₂ (λ s t. min (bit x i) (max s t)) (bit-pow j i) (bit-pow k i)

    at :
        (i : ℕ)
        → bit_and x (bit_or (2 ^ j) (2 ^ k)) ≡ 2 ^ k
        → min (bit x i) (max (if j == i then 1 else 0) (if k == i then 1 else 0))
          ≡ (if k == i then 1 else 0)
    at i e = sym (digit i) ∙ ap (λ t. bit t i) e ∙ bit-pow k i

-- `x & (a | b)` tests for either flag.
zero_or_bit :
    (x a b i : ℕ) → bit (bit_and x (bit_or a b)) i ≡ max (bit (bit_and x a) i) (bit (bit_and x b) i)
zero_or_bit x a b i =
    omega
      (arith, bit-bit_and i x (bit_or a b), bit-bit_or i a b, bit-bit_and i x a, bit-bit_and i x b)
