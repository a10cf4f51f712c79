-- ===== src/Base/Laws.antt =====
-- Digit laws of `bit_and`, `bit_or` and the complement, at variables.
use Prim.Native.Nat.{
  ℕ, zero, suc, ◌+◌, ◌-◌, ◌*◌, ◌/◌, ◌%◌, ◌^◌, ◌≤◌, ◌<◌, min, max, bit_and, bit_or, digits, bitwise,
  bit_and-bitwise, bit_or-bitwise,
}
use mathlib.Core.Path.{◌≡◌, refl, ap, ◌∙◌}
use mathlib.Core.Logic.{◌≢◌, ◌⊎◌, inl, inr}
use mathlib.Core.Bool.{true}
use native.Mathlib.Nat.{pow-suc, one-le-pow, zero-mul}
use native.Mathlib.Omega.{arith}
use native.Mathlib.Decide.{ℕ_discrete}
use spacemit_xenomai.Base.Tests.{◌==◌, if◌then◌else◌}
use spacemit_xenomai.Base.Bits.{bit, test_flags, clear_flags}

-- Any count of digits that covers `a` gives the same result.
module _ (z : ℕ → ℕ) (f : ℕ → ℕ → ℕ) where
  digits_any : (n m a b : ℕ) → a ≤ n → a ≤ m → digits z f n a b ≡ digits z f m a b
  digits_any zero zero a b p q = refl
  digits_any (suc n) zero zero b p q = refl
  digits_any (suc n) zero (suc a) b p q = absurd (omega arith)
  digits_any zero (suc m) zero b p q = refl
  digits_any zero (suc m) (suc a) b p q = absurd (omega arith)
  digits_any (suc n) (suc m) zero b p q = refl
  digits_any (suc n) (suc m) (suc a) b p q =
      ap (λ t. t * 2 + f (suc a % 2) (b % 2))
        (digits_any n m (suc a / 2) (b / 2) (omega arith) (omega arith))

  bitwise_digit :
      (a b : ℕ)
      → bitwise z f (suc a) b ≡ bitwise z f (suc a / 2) (b / 2) * 2 + f (suc a % 2) (b % 2)
  bitwise_digit a b =
      ap (λ t. t * 2 + f (suc a % 2) (b % 2))
        (digits_any a (suc a / 2) (suc a / 2) (b / 2) (omega arith) (omega arith))

pub bit_and_digit : (a b : ℕ) → bit_and a b ≡ bit_and (a / 2) (b / 2) * 2 + min (a % 2) (b % 2)
bit_and_digit zero b = simp bit_and-bitwise (omega arith)
bit_and_digit (suc a) b = simp bit_and-bitwise (bitwise_digit (λ _. 0) min a b)

pub bit_or_digit : (a b : ℕ) → bit_or a b ≡ bit_or (a / 2) (b / 2) * 2 + max (a % 2) (b % 2)
bit_or_digit zero b = simp bit_or-bitwise (omega arith)
bit_or_digit (suc a) b = simp bit_or-bitwise (bitwise_digit (λ y. y) max a b)

pub bit-le : (x k : ℕ) → bit x k ≤ 1
bit-le x zero = omega arith
bit-le x (suc k) = bit-le (x / 2) k

pub bit-bit_and : (k a b : ℕ) → bit (bit_and a b) k ≡ min (bit a k) (bit b k)
bit-bit_and zero a b = omega (arith, bit_and_digit a b)
bit-bit_and (suc k) a b =
    ap (λ t. bit t k) (omega (arith, bit_and_digit a b)) ∙ bit-bit_and k (a / 2) (b / 2)

pub bit-bit_or : (k a b : ℕ) → bit (bit_or a b) k ≡ max (bit a k) (bit b k)
bit-bit_or zero a b = omega (arith, bit_or_digit a b)
bit-bit_or (suc k) a b =
    ap (λ t. bit t k) (omega (arith, bit_or_digit a b)) ∙ bit-bit_or k (a / 2) (b / 2)

pub bit-zero : (k : ℕ) → bit 0 k ≡ 0
bit-zero zero = refl
bit-zero (suc k) = bit-zero k

-- The complement of a word of `w` bits flips each of its digits.
pub bit_complement : (w k x : ℕ) → x < 2 ^ w → k < w → bit (2 ^ w - 1 - x) k ≡ 1 - bit x k
bit_complement zero k x fits below = absurd (omega arith)
bit_complement (suc w) zero x fits below = omega (arith, pow-suc 2 w)
bit_complement (suc w) (suc k) x fits below =
    ap (λ t. bit t k) (omega (arith, pow-suc 2 w))
    ∙ bit_complement w k (x / 2) (omega (arith, pow-suc 2 w)) (omega arith)

-- `x &= ~m` keeps the digits of `x` that `m` lacks.
pub bit-clear_flags :
    (w k x m : ℕ) → m < 2 ^ w → k < w → bit (clear_flags w x m) k ≡ min (bit x k) (1 - bit m k)
bit-clear_flags w k x m fits below =
    bit-bit_and k x (2 ^ w - 1 - m) ∙ ap (λ t. min (bit x k) t) (bit_complement w k m fits below)

bit_and-zero_of_le : (n a : ℕ) → a ≤ n → bit_and a 0 ≡ 0
bit_and-zero_of_le n zero h = refl
bit_and-zero_of_le zero (suc a) h = absurd (omega arith)
bit_and-zero_of_le (suc n) (suc a) h =
    omega (arith, bit_and_digit (suc a) 0, bit_and-zero_of_le n (suc a / 2) (omega arith))

pub bit_and-zero : (a : ℕ) → bit_and a 0 ≡ 0
bit_and-zero a = bit_and-zero_of_le a a (omega arith)

pub bit_or-zero_left : (a : ℕ) → bit_or 0 a ≡ a
bit_or-zero_left a = simp bit_or-bitwise refl

half-pow : (k : ℕ) → 2 ^ suc k / 2 ≡ 2 ^ k
half-pow k = omega (arith, pow-suc 2 k)

pub bit_and-zero_left : (b : ℕ) → bit_and 0 b ≡ 0
bit_and-zero_left b = simp bit_and-bitwise refl

-- A mask of one digit selects it.
pub bit_and-pow : (k x : ℕ) → bit_and x (2 ^ k) ≡ bit x k * 2 ^ k
bit_and-pow zero x = omega (arith, bit_and_digit x 1, bit_and-zero (x / 2))
bit_and-pow (suc k) x = omega (
  arith,
  bit_and_digit x (2 ^ suc k),
  ap (λ t. bit_and (x / 2) t) (half-pow k),
  pow-suc 2 k,
  bit_and-pow k (x / 2),
  ap (λ (t : ℕ). bit (x / 2) k * t) (pow-suc 2 k),
)

digit_cases : (k x : ℕ) → (bit x k ≡ 0) ⊎ (bit x k ≡ 1)
digit_cases k x = omega (arith, bit-le x k)

pub test_flags-pow : (k x : ℕ) → test_flags x (2 ^ k) ≡ (bit x k == 1)
test_flags-pow k x = elim (digit_cases k x) [
  | inl e ↦ rw (bit_and-pow k x, e, zero-mul)
  | inr e ↦ rw (bit_and-pow k x, e) (ground (arith, one-le-pow k 2))
]

-- A mask is seen by any digit that it shares with the word.
pub test_flags_of_bit : (k x m : ℕ) → bit x k ≡ 1 → bit m k ≡ 1 → test_flags x m ≡ true
test_flags_of_bit k x m hx hm = ground (arith, bit-bit_and k x m, λ (e : bit_and x m ≡ 0). shared e)
  where
    shared : bit_and x m ≡ 0 → ⊥
    shared e = omega (arith, bit-bit_and k x m, ap (λ t. bit t k) e, bit-zero k)

pub bit_ext : (w a b : ℕ) → a < 2 ^ w → b < 2 ^ w → ((k : ℕ) → k < w → bit a k ≡ bit b k) → a ≡ b
bit_ext zero a b ha hb same = omega arith
bit_ext (suc w) a b ha hb same = omega (
  arith,
  same 0 (omega arith),
  bit_ext w (a / 2) (b / 2) (omega (arith, pow-suc 2 w)) (omega (arith, pow-suc 2 w))
      (λ k h. same (suc k) (omega arith)),
)

pub bit_or-lt : (w a b : ℕ) → a < 2 ^ w → b < 2 ^ w → bit_or a b < 2 ^ w
bit_or-lt zero zero b ha hb = omega (arith, bit_or-zero_left b)
bit_or-lt zero (suc a) b ha hb = absurd (omega arith)
bit_or-lt (suc w) a b ha hb = omega (
  arith,
  bit_or_digit a b,
  pow-suc 2 w,
  bit_or-lt w (a / 2) (b / 2) (omega (arith, pow-suc 2 w)) (omega (arith, pow-suc 2 w)),
)

pub bit_and-lt : (w a b : ℕ) → a < 2 ^ w → bit_and a b < 2 ^ w
bit_and-lt zero zero b h = omega (arith, bit_and-zero_left b)
bit_and-lt zero (suc a) b h = absurd (omega arith)
bit_and-lt (suc w) a b h = omega (
  arith,
  bit_and_digit a b,
  pow-suc 2 w,
  bit_and-lt w (a / 2) (b / 2) (omega (arith, pow-suc 2 w)),
)

pub bit-pow_self : (k : ℕ) → bit (2 ^ k) k ≡ 1
bit-pow_self zero = refl
bit-pow_self (suc k) = ap (λ t. bit t k) (half-pow k) ∙ bit-pow_self k

pub bit-pow_ne : (j k : ℕ) → j ≢ k → bit (2 ^ j) k ≡ 0
bit-pow_ne zero zero h = absurd (h refl)
bit-pow_ne zero (suc k) h = bit-zero k
bit-pow_ne (suc j) zero h = omega (arith, pow-suc 2 j)
bit-pow_ne (suc j) (suc k) h = ap (λ t. bit t k) (half-pow j) ∙ bit-pow_ne j k (λ e. h (ap suc e))

pub pow-lt : (k w : ℕ) → k < w → 2 ^ k < 2 ^ w
pow-lt k zero h = absurd (omega arith)
pow-lt zero (suc w) h = omega (arith, pow-suc 2 w, one-le-pow w 2)
pow-lt (suc k) (suc w) h = omega (arith, pow-suc 2 k, pow-suc 2 w, pow-lt k w (omega arith))

-- `__set_bit(k, &x)` and `__clear_bit(k, &x)`, digit by digit.
pub bit-set_pow : (j k x : ℕ) → bit (bit_or x (2 ^ j)) k ≡ (if j == k then 1 else bit x k)
bit-set_pow j k x = elim (ℕ_discrete j k) [
  | yes e ↦
      ground (arith, bit-bit_or k x (2 ^ j), ap (λ t. bit (2 ^ j) t) e, bit-pow_self j, bit-le x k)
  | no n ↦ ground (arith, bit-bit_or k x (2 ^ j), bit-pow_ne j k n, bit-le x k)
]

pub bit-clear_pow :
    (w j k x : ℕ)
    → j < w
    → k < w
    → bit (clear_flags w x (2 ^ j)) k ≡ (if j == k then 0 else bit x k)
bit-clear_pow w j k x hj hk = elim (ℕ_discrete j k) [
  | yes e ↦ ground (
    arith,
    bit-clear_flags w k x (2 ^ j) (pow-lt j w hj) hk,
    ap (λ t. bit (2 ^ j) t) e,
    bit-pow_self j,
    bit-le x k,
  )
  | no n ↦
      ground (arith, bit-clear_flags w k x (2 ^ j) (pow-lt j w hj) hk, bit-pow_ne j k n, bit-le x k)
]
