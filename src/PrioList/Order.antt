-- ===== src/PrioList/Order.antt =====
-- Where a new entry lands, and that the order of the list is kept.
use mathlib.Core.List.{reverse-append, reverse-reverse}
use mathlib.Core.Path.{fun_ext}
use native.Mathlib.Nat.{le_trans}
use spacemit_xenomai.Base.{
  ℕ, ◌≤◌, ◌≡◌, refl, ap, ◌∙◌, Bool, true, false, not, List, [], ◌∷◌, ◌++◌, reverse, append_assoc,
  append-nil, arith, ltb, leb, Bool-cases, inl, inr, All, All-append, All-mono, if◌then◌else◌,
}
use spacemit_xenomai.PrioList.{place, list_add_pri, list_add_priff, list_add_prilf}

module _ {ℓ} {A : Type ℓ} where
  -- The entries that pass a test, in their order.
  abbrev pub keep : (A → Bool) → List A → List A
  keep p [] = []
  keep p (x ∷ xs) = if p x then x ∷ keep p xs else keep p xs

  abbrev pub drop_passing : (A → Bool) → List A → List A
  drop_passing p = keep (λ x. not (p x))

  pub keep-append : (p : A → Bool) (xs ys : List A) → keep p (xs ++ ys) ≡ keep p xs ++ keep p ys
  keep-append p [] ys = refl
  keep-append p (x ∷ xs) ys = ground (arith, keep-append p xs ys)

  pub keep-All : (p : A → Bool) (xs : List A) → All (λ x. p x ≡ true) xs → keep p xs ≡ xs
  keep-All p [] h = refl
  keep-All p (x ∷ xs) h = ground (arith, keep-All p xs h.1)

  pub keep_none : (p : A → Bool) (xs : List A) → All (λ x. p x ≡ false) xs → keep p xs ≡ []
  keep_none p [] h = refl
  keep_none p (x ∷ xs) h = ground (arith, keep_none p xs h.1)

  pub All-keep {κ} : (P : A → Type κ) (p : A → Bool) (xs : List A) → All P xs → All P (keep p xs)
  All-keep P p [] h = tt
  All-keep P p (x ∷ xs) h = elim (Bool-cases (p x)) [
    | inl e ↦ rw e (h.0, All-keep P p xs h.1)
    | inr e ↦ rw e (All-keep P p xs h.1)
  ]

  pub keep-passes : (p : A → Bool) (xs : List A) → All (λ x. p x ≡ true) (keep p xs)
  keep-passes p [] = tt
  keep-passes p (x ∷ xs) = elim (Bool-cases (p x)) [
    | inl e ↦ rw e (e, keep-passes p xs)
    | inr e ↦ rw e (keep-passes p xs)
  ]

pub reverse-cons {ℓ} :
    {A : Type ℓ} (x : A) (xs : List A) → reverse (x ∷ xs) ≡ reverse xs ++ (x ∷ [])
reverse-cons x xs = reverse-append (x ∷ []) xs

module _ {ℓ} {A : Type ℓ} (stop : A → Bool) where
  -- Seen from the last entry on: before an entry that stops the walk, all would.
  abbrev Falls : List A → Type ℓ
  Falls [] = Unit
  Falls (p ∷ before) = (stop p ≡ true → All (λ x. stop x ≡ true) before) × Falls before

  All-reverse : (xs : List A) → All (λ x. stop x ≡ true) xs → All (λ x. stop x ≡ true) (reverse xs)
  All-reverse [] h = tt
  All-reverse (x ∷ xs) h =
      rw (reverse-cons x xs)
        (All-append (λ x. stop x ≡ true) (reverse xs) (x ∷ []) (All-reverse xs h.1) (h.0, tt))

  place_lem :
      (new : A) (before after : List A)
      → Falls before
      → place stop new before after
        ≡ keep stop (reverse before) ++ (new ∷ (drop_passing stop (reverse before) ++ after))
  unfolding place
  place_lem new [] after f = refl
  place_lem new (p ∷ before) after f =
      rw
        (
          reverse-cons p before,
          keep-append stop (reverse before) (p ∷ []),
          keep-append (λ x. not (stop x)) (reverse before) (p ∷ []),
        )
        (elim (Bool-cases (stop p)) [
          | inl e ↦ rw (e, place) (stopped e)
          | inr e ↦
              rw (e, place) (simp (append_assoc, append-nil) (place_lem new before (p ∷ after) f.1))
        ])
    where
      stopped :
          stop p ≡ true
          → reverse before ++ (p ∷ new ∷ after)
            ≡ (keep stop (reverse before) ++ (p ∷ []))
              ++ (new ∷ ((drop_passing stop (reverse before) ++ []) ++ after))
      stopped e =
          let all = All-reverse before (f.0 e) in
          simp (
            keep-All stop (reverse before) all,
            keep_none (λ x. not (stop x)) (reverse before)
                (All-mono (λ x. stop x ≡ true) (λ x. not (stop x) ≡ false) (reverse before)
                  (λ x h. ap not h) all),
            append_assoc,
          )

module _ {ℓ} {A : Type ℓ} (pri : A → ℕ) where
  -- From the highest priority to the lowest.
  abbrev pub Sorted : List A → Type 0
  Sorted [] = Unit
  Sorted (x ∷ xs) = All (λ y. pri y ≤ pri x) xs × Sorted xs

  pub Sorted-append :
      (xs ys : List A)
      → Sorted xs
      → Sorted ys
      → All (λ x. All (λ y. pri y ≤ pri x) ys) xs
      → Sorted (xs ++ ys)
  Sorted-append [] ys sx sy h = sy
  Sorted-append (x ∷ xs) ys sx sy h =
      (All-append (λ y. pri y ≤ pri x) xs ys sx.0 h.0, Sorted-append xs ys sx.1 sy h.1)

  Sorted-keep : (p : A → Bool) (xs : List A) → Sorted xs → Sorted (keep p xs)
  Sorted-keep p [] s = tt
  Sorted-keep p (x ∷ xs) s = elim (Bool-cases (p x)) [
    | inl e ↦ rw e (All-keep (λ y. pri y ≤ pri x) p xs s.0, Sorted-keep p xs s.1)
    | inr e ↦ rw e (Sorted-keep p xs s.1)
  ]

  module _ (stop : A → Bool)
      (mono : (x y : A) → pri y ≤ pri x → stop y ≡ true → stop x ≡ true) where
    Falls-snoc :
        (x : A) (ys : List A)
        → All (λ y. pri y ≤ pri x) ys
        → Falls stop ys
        → Falls stop (ys ++ (x ∷ []))
    Falls-snoc x [] h f = ((λ _. tt), tt)
    Falls-snoc x (y ∷ ys) h f = (
      (λ e. All-append (λ z. stop z ≡ true) ys (x ∷ []) (f.0 e) (mono x y h.0 e, tt)),
      Falls-snoc x ys h.1 f.1,
    )

    All-reversed :
        (x : A) (xs : List A) → All (λ y. pri y ≤ pri x) xs → All (λ y. pri y ≤ pri x) (reverse xs)
    All-reversed x [] h = tt
    All-reversed x (z ∷ xs) h =
        rw (reverse-cons z xs)
          (All-append (λ y. pri y ≤ pri x) (reverse xs) (z ∷ []) (All-reversed x xs h.1) (h.0, tt))

    Falls-reverse : (xs : List A) → Sorted xs → Falls stop (reverse xs)
    Falls-reverse [] s = tt
    Falls-reverse (x ∷ xs) s =
        rw (reverse-cons x xs)
          (Falls-snoc x (reverse xs) (All-reversed x xs s.0) (Falls-reverse xs s.1))

  -- The insertion on a sorted list, for any comparison that agrees with the order.
  list_add_pri_lem :
      (relop : ℕ → ℕ → Bool)
      → ((k a b : ℕ) → b ≤ a → relop k b ≡ true → relop k a ≡ true)
      → (new : A) (xs : List A) → Sorted xs
      → let stop = λ (x : A). relop (pri new) (pri x) in
        list_add_pri relop pri new xs ≡ keep stop xs ++ (new ∷ drop_passing stop xs)
  unfolding list_add_pri
  list_add_pri_lem relop mono new [] s = refl
  list_add_pri_lem relop mono new (x ∷ xs) s =
      let stop = λ (y : A). relop (pri new) (pri y) in
      place_lem stop new (reverse (x ∷ xs)) []
        (Falls-reverse stop (λ a b h e. mono (pri new) (pri a) (pri b) h e) (x ∷ xs) s)
      ∙ simp (reverse-reverse, append-nil)

  -- Two parts, one of at least the priority `k` and one of at most `k`, round an entry of it.
  Sorted-around :
      (p q : A → Bool)
      → (new : A) → ((x : A) → p x ≡ true → pri new ≤ pri x)
      → ((x : A) → q x ≡ true → pri x ≤ pri new)
      → (xs : List A) → Sorted xs
      → Sorted (keep p xs ++ (new ∷ keep q xs))
  Sorted-around p q new above below xs s =
      let low =
        All-mono (λ x. q x ≡ true) (λ x. pri x ≤ pri new) (keep q xs) below (keep-passes q xs) in
      Sorted-append (keep p xs) (new ∷ keep q xs) (Sorted-keep p xs s) (low, Sorted-keep q xs s)
        (All-mono (λ x. p x ≡ true) (λ x. All (λ y. pri y ≤ pri x) (new ∷ keep q xs)) (keep p xs)
          (λ x h. (
            above x h,
            All-mono (λ y. pri y ≤ pri new) (λ y. pri y ≤ pri x) (keep q xs)
                (λ y le. le_trans le (above x h)) low,
          ))
          (keep-passes p xs))

  -- On a list sorted by falling priority `list_add_priff` puts the new entry behind all entries of
  -- at least its priority and before all of lower priority, in their order, and the result is
  -- sorted.
  pub list_add_priff_lem :
      (new : A) (xs : List A)
      → Sorted xs
      → (list_add_priff pri new xs
          ≡ keep (λ x. leb (pri new) (pri x)) xs ++ (new ∷ keep (λ x. ltb (pri x) (pri new)) xs))
        × Sorted (list_add_priff pri new xs)
  unfolding list_add_priff
  list_add_priff_lem new xs s = (lands, rw lands sorted)
    where
      lands :
          list_add_pri leb pri new xs
          ≡ keep (λ x. leb (pri new) (pri x)) xs ++ (new ∷ keep (λ x. ltb (pri x) (pri new)) xs)
      lands =
          list_add_pri_lem leb (λ k a b h e. ground arith) new xs s
          ∙ ap (λ r. keep (λ x. leb (pri new) (pri x)) xs ++ (new ∷ keep r xs))
              (fun_ext λ x. ground arith)

      sorted :
          Sorted
            (keep (λ x. leb (pri new) (pri x)) xs ++ (new ∷ keep (λ x. ltb (pri x) (pri new)) xs))
      sorted =
          Sorted-around (λ x. leb (pri new) (pri x)) (λ x. ltb (pri x) (pri new)) new
            (λ x h. ground arith) (λ x h. ground arith) xs s

  -- On a list sorted by falling priority `list_add_prilf` puts the new entry behind all entries of
  -- higher priority and before all of at most its priority, in their order, and the result is
  -- sorted.
  pub list_add_prilf_lem :
      (new : A) (xs : List A)
      → Sorted xs
      → (list_add_prilf pri new xs
          ≡ keep (λ x. ltb (pri new) (pri x)) xs ++ (new ∷ keep (λ x. leb (pri x) (pri new)) xs))
        × Sorted (list_add_prilf pri new xs)
  unfolding list_add_prilf
  list_add_prilf_lem new xs s = (lands, rw lands sorted)
    where
      lands :
          list_add_pri ltb pri new xs
          ≡ keep (λ x. ltb (pri new) (pri x)) xs ++ (new ∷ keep (λ x. leb (pri x) (pri new)) xs)
      lands =
          list_add_pri_lem ltb (λ k a b h e. ground arith) new xs s
          ∙ ap (λ r. keep (λ x. ltb (pri new) (pri x)) xs ++ (new ∷ keep r xs))
              (fun_ext λ x. ground arith)

      sorted :
          Sorted
            (keep (λ x. ltb (pri new) (pri x)) xs ++ (new ∷ keep (λ x. leb (pri x) (pri new)) xs))
      sorted =
          Sorted-around (λ x. ltb (pri new) (pri x)) (λ x. leb (pri x) (pri new)) new
            (λ x h. ground arith) (λ x h. ground arith) xs s
