-- ===== src/Element/Tests.antt =====
-- An element on a concrete run: two gets, then three puts.
use spacemit_xenomai.Base.{
  ℕ, zero, suc, ◌+◌, ◌*◌, ◌^◌, ◌<◌, ◌≡◌, ◌≢◌, refl, Bool, true, false, none, List, [], ◌∷◌, arith,
  ltb, ◌==◌, if◌then◌else◌,
}
use spacemit_xenomai.Element.{Refcount, Element, get_element_not_zero}
use spacemit_xenomai.Element.Refs.{RefOp, gets, puts, Life, IsCounted, run_refs, run_refs_lem}

abbrev element : Element
element = record {
  factory = 1;
  dev = none;
  devname = none;
  minor = 0;
  refs = 1;
  fundle = 5;
  clone_flags = 0;
}

abbrev fresh : Life
fresh = record { element = element; held = 1; disposed = 0 }

-- Counts that saturate at 2 ^ 31, and then stay at 3 * 2 ^ 30.
abbrev stuck : ℕ
stuck = 3 * 2 ^ 30

abbrev inc_not_zero : ℕ → ℕ × Bool
inc_not_zero zero = (0, false)
inc_not_zero (suc n) = (if ltb (suc n + 1) (2 ^ 31) then suc n + 1 else stuck, true)

abbrev dec_and_test : ℕ → ℕ × Bool
dec_and_test zero = (stuck, false)
dec_and_test (suc n) = if ltb (suc n) (2 ^ 31) then (n, n == 0) else (stuck, false)

below_inc : (n : ℕ) → n ≢ 0 → n + 1 < 2 ^ 31 → inc_not_zero n ≡ (n + 1, true)
below_inc zero ne small = absurd (ne refl)
below_inc (suc n) ne small = ground arith

below_dec : (n : ℕ) → n + 1 < 2 ^ 31 → dec_and_test (n + 1) ≡ (n, n == 0)
below_dec n small = ground arith

abbrev saturating : Refcount
saturating = record {
  refcount_inc_not_zero = inc_not_zero;
  refcount_dec_and_test = dec_and_test;
  inc_zero = refl;
  inc_lem = below_inc;
  dec_lem = below_dec;
}

abbrev ops : List RefOp
ops = gets ∷ gets ∷ puts ∷ puts ∷ puts ∷ []

run_refs_example :
    let l = run_refs saturating fresh ops in
    IsCounted l × (l.held ≡ 0 → (get_element_not_zero saturating l.element).1 ≡ false)
run_refs_example = run_refs_lem saturating element ops refl (omega arith)
