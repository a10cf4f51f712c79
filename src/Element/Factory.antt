-- ===== src/Element/Factory.antt =====
-- kernel-overlay/include/evl/factory.h: factories, and how elements are found and indexed. Functions,
-- names, devices and the kernel's own objects are addresses.
use spacemit_xenomai.Base.{ℕ, Bool, false, Option, none, some}
use spacemit_xenomai.Element.{Refcount, Element, get_element}
use spacemit_xenomai.File.{FileBinding}

abbrev pub devhash_bits : ℕ
devhash_bits = 8

-- `struct evl_index`, less its lock: the element of a handle.
pub record Index : Type 0 where
  pub root : ℕ → Option ℕ
  pub generator : ℕ

-- `struct evl_factory`, less its tables of minors and of names.
pub record Factory : Type 0 where
  pub name : ℕ
  pub fops : ℕ
  pub nrdev : ℕ  -- unsigned int
  pub build : ℕ
  pub dispose : ℕ
  pub attrs : ℕ
  pub flags : ℕ  -- int
  pub dev : ℕ
  pub sub_rdev : ℕ
  pub kuid : ℕ
  pub kgid : ℕ
  pub index : Index

unfoldable pub fundle_of : Element → ℕ
fundle_of e = e.fundle

-- `binding` is the memory of bindings, `private_data` that of a file; `container_of` is the address
-- of the object that has the element.
unfoldable pub element_of : (ℕ → FileBinding) → (ℕ → ℕ) → (ℕ → ℕ) → ℕ → ℕ
element_of binding private_data container_of filp =
    container_of (binding (private_data filp)).element

-- The element of a device, which is referenced, and whether a warning is given. `elements` is the
-- memory of elements, `drvdata` stands for `dev_get_drvdata`.
unfoldable pub get_element_by_dev :
    Refcount → (ℕ → Option ℕ) → (ℕ → Element) → ℕ → Option (ℕ × Element) × Bool
unfolding get_element
get_element_by_dev lib drvdata elements dev = elim (drvdata dev) [
  | none ↦ (none, false)
  | some e ↦ let (element, warned) = get_element lib (elements e) in (some (e, element), warned)
]

-- `get_by_fundle` stands for `evl_get_element_by_fundle`.
unfoldable pub get_factory_element_by_fundle :
    {A : Type 0} → (Index → ℕ → Option A) → Factory → ℕ → Option A
get_factory_element_by_fundle get_by_fundle fac fundle = get_by_fundle fac.index fundle

-- `factories` is the memory of factories, `index_element` stands for `evl_index_element`, and
-- `unindex_element` for `evl_unindex_element`.
module _ {W : Type 0} (factories : ℕ → Factory) where
  unfoldable pub index_factory_element : (Index → Element → W → W) → Element → W → W
  index_factory_element index_element e w = index_element (factories e.factory).index e w

  unfoldable pub unindex_factory_element : (Index → Element → W → W) → Element → W → W
  unindex_factory_element unindex_element e w = unindex_element (factories e.factory).index e w
