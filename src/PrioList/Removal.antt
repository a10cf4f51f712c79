-- ===== src/PrioList/Removal.antt =====
-- An entry that was inserted by priority is found again: taking it off undoes the insertion.
use spacemit_xenomai.Base.{
  ◌==◌, ◌≤◌, All-erase, erase, contains, ℕ, ◌≡◌, refl, sym, subst, ap, ◌∙◌, inl, inr, Bool, true,
  false, List, [], ◌∷◌, ◌++◌, ◌||◌, reverse, append_assoc, arith, ==_iff, Bool-cases,
}
use spacemit_xenomai.PrioList.{place}
use spacemit_xenomai.PrioList.Order.{reverse-cons, Sorted}

pub erase_self : (t : ℕ) (xs : List ℕ) → erase t (t ∷ xs) ≡ xs
unfolding erase
erase_self t xs = ground (arith, (==_iff t t).1 refl)

erase-append :
    (t : ℕ) (xs ys : List ℕ) → contains t xs ≡ false → erase t (xs ++ ys) ≡ xs ++ erase t ys
unfolding erase
erase-append t [] ys h = refl
erase-append t (x ∷ xs) ys h = ground (arith, erase-append t xs ys)

contains-append :
    (t : ℕ) (xs ys : List ℕ) → contains t (xs ++ ys) ≡ (contains t xs || contains t ys)
contains-append t [] ys = refl
contains-append t (x ∷ xs) ys = ground (arith, contains-append t xs ys)

pub contains-reverse : (t : ℕ) (xs : List ℕ) → contains t (reverse xs) ≡ contains t xs
contains-reverse t [] = refl
contains-reverse t (x ∷ xs) =
    rw (reverse-cons x xs, contains-append t (reverse xs) (x ∷ []), contains-reverse t xs)
      (ground arith)

-- A node that is put anywhere into a list and taken off leaves the list as it was.
pub erase-place :
    (stop : ℕ → Bool) (node : ℕ) (before after : List ℕ)
    → contains node before ≡ false
    → erase node (place stop node before after) ≡ reverse before ++ after
unfolding place
erase-place stop node [] after h = erase_self node after
erase-place stop node (p ∷ before) after h =
    rw (reverse-cons p before) (elim (Bool-cases (stop p)) [
      | inl e ↦
          rw (e, place)
            (erase-append node (reverse before) (p ∷ node ∷ after)
                (contains-reverse node before ∙ later)
              ∙ ap (λ r. reverse before ++ r)
                  (past (node ∷ after) ∙ ap (λ r. p ∷ r) (erase_self node after))
              ∙ sym (append_assoc (reverse before) (p ∷ []) after))
      | inr e ↦
          rw (e, place)
            (erase-place stop node before (p ∷ after) later
              ∙ sym (append_assoc (reverse before) (p ∷ []) after))
    ])
  where
    later : contains node before ≡ false
    later = ground arith

    past : (r : List ℕ) → erase node (p ∷ r) ≡ p ∷ erase node r
    past r = unfold erase in ground arith

contains_self : (t : ℕ) (xs ys : List ℕ) → contains t (xs ++ (t ∷ ys)) ≡ true
contains_self t [] ys = ground (arith, (==_iff t t).1 refl)
contains_self t (x ∷ xs) ys = ground (arith, contains_self t xs ys)

pub contains-place :
    (stop : ℕ → Bool) (node : ℕ) (before after : List ℕ)
    → contains node (place stop node before after) ≡ true
unfolding place
contains-place stop node [] after = contains_self node [] after
contains-place stop node (p ∷ before) after = elim (Bool-cases (stop p)) [
  | inl e ↦
      rw (e, place)
        (subst (λ r. contains node r ≡ true) (append_assoc (reverse before) (p ∷ []) (node ∷ after))
          (contains_self node (reverse before ++ (p ∷ [])) after))
  | inr e ↦ rw (e, place) (contains-place stop node before (p ∷ after))
]

pub Sorted-erase : (pri : ℕ → ℕ) (t : ℕ) (q : List ℕ) → Sorted pri q → Sorted pri (erase t q)
unfolding erase
Sorted-erase pri t [] s = tt
Sorted-erase pri t (x ∷ q) s = elim (Bool-cases (x == t)) [
  | inl e ↦ rw e s.1
  | inr e ↦ rw e (All-erase (λ y. pri y ≤ pri x) t q s.0, Sorted-erase pri t q s.1)
]
