-- ===== src/PrioList.antt =====
-- kernel-overlay/include/evl/list.h: insertion by priority and removal at the head.
-- A list is written from its first entry to its last.
pub mod Order
pub mod Removal
pub mod Count
use spacemit_xenomai.Base.{
  ℕ, Bool, true, false, List, [], ◌∷◌, ◌++◌, reverse, Option, none, some, ltb, leb,
}

module _ {ℓ} {A : Type ℓ} where
  -- The walk of `list_for_each_entry_reverse`: `before` is what is left to visit, last entry first,
  -- and `after` what was passed. Where no entry stops the walk, `__pos` ends up at the list head.
  unfoldable pub place : (A → Bool) → A → List A → List A → List A
  place stop new [] after = new ∷ after
  place stop new (pos ∷ before) after = elim (stop pos) [
    | true ↦ reverse before ++ (pos ∷ new ∷ after)
    | false ↦ place stop new before (pos ∷ after)
  ]

  -- `__list_add_pri`: `relop` compares the new entry's priority with that of the one visited.
  unfoldable pub list_add_pri : (ℕ → ℕ → Bool) → (A → ℕ) → A → List A → List A
  unfolding place
  list_add_pri relop pri new [] = new ∷ []
  list_add_pri relop pri new (x ∷ xs) =
      place (λ pos. relop (pri new) (pri pos)) new (reverse (x ∷ xs)) []

  unfoldable pub list_add_priff : (A → ℕ) → A → List A → List A
  unfolding list_add_pri
  list_add_priff = list_add_pri leb

  unfoldable pub list_add_prilf : (A → ℕ) → A → List A → List A
  unfolding list_add_pri
  list_add_prilf = list_add_pri ltb

  -- `list_get_entry` and `list_get_entry_init`; `none` is the read of an entry that is not there.
  unfoldable pub list_get_entry : List A → Option (A × List A)
  list_get_entry [] = none
  list_get_entry (x ∷ xs) = some (x, xs)
