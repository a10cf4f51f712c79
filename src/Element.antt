-- ===== src/Element.antt =====
-- kernel-overlay/include/evl/factory.h: elements, their clone flags and their reference counts. A
-- pointer is an address; operations that factory.h only declares are arguments.
pub mod Refs
pub mod Factory
pub mod Cache
mod Tests
use spacemit_xenomai.Base.{
  ℕ, ◌+◌, ◌^◌, ◌<◌, ◌≡◌, ◌≢◌, Bool, true, false, not, Option, none, some, ◌==◌, if◌then◌else◌,
  test_flags,
}

abbrev pub factory_clone : ℕ
factory_clone = 1

abbrev pub factory_single : ℕ
factory_single = 2

abbrev pub clone_public : ℕ
clone_public = 2 ^ 16

abbrev pub clone_observable : ℕ
clone_observable = 2 ^ 17

abbrev pub clone_coredev : ℕ
clone_coredev = 2 ^ 31

-- The kernel's `refcount_t`: a count of 0 is not incremented; from 2 ^ 31, above INT_MAX, it
-- saturates, and of that nothing is said.
pub record Refcount : Type 0 where
  pub refcount_inc_not_zero : ℕ → ℕ × Bool
  pub refcount_dec_and_test : ℕ → ℕ × Bool
  pub inc_zero : refcount_inc_not_zero 0 ≡ (0, false)
  pub inc_lem : (n : ℕ) → n ≢ 0 → n + 1 < 2 ^ 31 → refcount_inc_not_zero n ≡ (n + 1, true)
  pub dec_lem : (n : ℕ) → n + 1 < 2 ^ 31 → refcount_dec_and_test (n + 1) ≡ (n, n == 0)

pub record Element : Type 0 where
  pub factory : ℕ
  pub dev : Option ℕ
  pub devname : Option ℕ
  pub minor : ℕ  -- unsigned int
  pub refs : ℕ  -- refcount_t
  pub fundle : ℕ
  pub clone_flags : ℕ  -- int

-- `name_of` gives the name of a `struct filename`.
unfoldable pub element_name : (ℕ → ℕ) → Element → Option ℕ
element_name name_of e = elim e.devname [ none ↦ none | some f ↦ some (name_of f) ]

module _ (lib : Refcount) where
  unfoldable pub get_element_not_zero : Element → Element × Bool
  get_element_not_zero e =
      let (refs, ok) = lib.refcount_inc_not_zero e.refs in (record e { refs = refs }, ok)

  -- The element, and whether a warning is given.
  unfoldable pub get_element : Element → Element × Bool
  unfolding get_element_not_zero
  get_element e = let (e', ok) = get_element_not_zero e in (e', not ok)

  -- `dispose` stands for `__evl_put_element`.
  unfoldable pub put_element : {W : Type 0} → (Element → W → W) → Element → W → Element × W
  put_element dispose e w =
      let (refs, last) = lib.refcount_dec_and_test e.refs in
      let e' = record e { refs = refs } in (e', if last then dispose e' w else w)

-- `clear_drvdata` stands for `dev_set_drvdata` to a null pointer.
unfoldable pub hide_element : {W : Type 0} → (ℕ → W → W) → Element → W → W
hide_element clear_drvdata e w = elim e.dev [ none ↦ w | some dev ↦ clear_drvdata dev w ]

unfoldable pub element_is_public : Element → Bool
element_is_public e = test_flags e.clone_flags clone_public

unfoldable pub element_has_coredev : Element → Bool
element_has_coredev e = test_flags e.clone_flags clone_coredev

unfoldable pub element_is_observable : Element → Bool
element_is_observable e = test_flags e.clone_flags clone_observable

-- `find` stands for `__evl_get_element_by_fundle` on an index.
unfoldable pub get_element_by_fundle :
    {W : Type 0} → (ℕ → W → W × Option ℕ) → (ℕ → ℕ) → ℕ → W → W × Option ℕ
get_element_by_fundle find container fundle w =
    let (w', e) = find fundle w in (w', elim e [ none ↦ none | some a ↦ some (container a) ])
