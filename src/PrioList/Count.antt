-- ===== src/PrioList/Count.antt =====
-- How often an entry stands in a list, before and after an insertion or a removal.
use spacemit_xenomai.Base.{
  ℕ, ◌+◌, ◌≤◌, ◌≡◌, refl, sym, ap, ◌∙◌, inl, inr, Bool, true, false, Bool-cases, List, [], ◌∷◌,
  ◌++◌, reverse, arith, leb, ltb, ◌==◌, ==_iff, contains, erase, All,
}
use spacemit_xenomai.PrioList.{place, list_add_pri, list_add_priff, list_add_prilf}
use spacemit_xenomai.PrioList.Order.{reverse-cons}

abbrev pub once_if : Bool → ℕ
once_if true = 1
once_if false = 0

abbrev pub count : ℕ → List ℕ → ℕ
count t [] = 0
count t (x ∷ xs) = once_if (x == t) + count t xs

pub count-append : (t : ℕ) (xs ys : List ℕ) → count t (xs ++ ys) ≡ count t xs + count t ys
count-append t [] ys = omega arith
count-append t (x ∷ xs) ys = omega (arith, count-append t xs ys)

pub count-reverse : (t : ℕ) (xs : List ℕ) → count t (reverse xs) ≡ count t xs
count-reverse t [] = refl
count-reverse t (x ∷ xs) =
    ap (count t) (reverse-cons x xs)
    ∙ omega (arith, count-append t (reverse xs) (x ∷ []), count-reverse t xs)

count-place :
    (t : ℕ) (stop : ℕ → Bool) (new : ℕ) (before after : List ℕ)
    → count t (place stop new before after) ≡ once_if (new == t) + count t before + count t after
unfolding place
count-place t stop new [] after = omega arith
count-place t stop new (p ∷ before) after = elim (Bool-cases (stop p)) [
  | inl e ↦
      rw (e, place)
        (omega (arith, count-append t (reverse before) (p ∷ new ∷ after), count-reverse t before))
  | inr e ↦ rw (e, place) (omega (arith, count-place t stop new before (p ∷ after)))
]

count-list_add_pri :
    (t : ℕ) (relop : ℕ → ℕ → Bool) (pri : ℕ → ℕ) (new : ℕ) (xs : List ℕ)
    → count t (list_add_pri relop pri new xs) ≡ once_if (new == t) + count t xs
unfolding list_add_pri
count-list_add_pri t relop pri new [] = refl
count-list_add_pri t relop pri new (x ∷ xs) =
    count-place t (λ y. relop (pri new) (pri y)) new (reverse (x ∷ xs)) []
    ∙ omega (arith, count-reverse t (x ∷ xs))

pub count-list_add_priff :
    (t : ℕ) (pri : ℕ → ℕ) (new : ℕ) (xs : List ℕ)
    → count t (list_add_priff pri new xs) ≡ once_if (new == t) + count t xs
unfolding list_add_priff
count-list_add_priff t pri new xs = count-list_add_pri t leb pri new xs

pub count-list_add_prilf :
    (t : ℕ) (pri : ℕ → ℕ) (new : ℕ) (xs : List ℕ)
    → count t (list_add_prilf pri new xs) ≡ once_if (new == t) + count t xs
unfolding list_add_prilf
count-list_add_prilf t pri new xs = count-list_add_pri t ltb pri new xs

pub count-erase :
    (t new : ℕ) (xs : List ℕ)
    → contains new xs ≡ true
    → once_if (new == t) + count t (erase new xs) ≡ count t xs
unfolding erase
count-erase t new [] h = absurd (ground arith)
count-erase t new (x ∷ xs) h = elim (Bool-cases (x == new)) [
  | inl e ↦ rw (e, erase) (ap (λ y. once_if (y == t) + count t xs) (sym ((==_iff x new).0 e)))
  | inr e ↦ rw (e, erase) (omega (arith, count-erase t new xs (rw e at h)))
]

-- What holds of all that the list counts holds of its entries, and the other way round.
pub All-count {κ} : (P : ℕ → Type κ) (xs : List ℕ) → ((t : ℕ) → 1 ≤ count t xs → P t) → All P xs
All-count P [] h = tt
All-count P (x ∷ xs) h =
    (h x (ground (arith, (==_iff x x).1 refl)), All-count P xs (λ t le. h t (omega arith)))
