-- ===== src/Element/Refs.antt =====
-- The life of an element under any order of gets and puts.
use spacemit_xenomai.Base.{
  ℕ, ◌+◌, ◌-◌, ◌^◌, ◌≤◌, ◌<◌, ◌≡◌, refl, sym, zero, suc, ◌∙◌, false, List, [], ◌∷◌, arith, length,
  ◌==◌, ==_iff, if◌then◌else◌,
}
use spacemit_xenomai.Element.{Refcount, Element, get_element_not_zero, put_element}

pub data RefOp : Type 0 where
  gets puts : RefOp

-- The element, the number of references that its users hold, and how often it was disposed of. A
-- user puts only a reference that it holds.
pub record Life : Type 0 where
  pub element : Element
  pub held : ℕ
  pub disposed : ℕ

-- The count is that of the references held, and the element was disposed of once, if none is.
abbrev pub IsCounted : Life → Type 0
IsCounted l = (l.element.refs ≡ l.held) × (l.disposed ≡ (if l.held == 0 then 1 else 0))

module _ (lib : Refcount) where
  open lib use {refcount_inc_not_zero, refcount_dec_and_test, inc_zero, inc_lem, dec_lem}

  unfoldable pub apply_ref : Life → RefOp → Life
  unfolding get_element_not_zero put_element
  apply_ref l gets =
      let (e, ok) = get_element_not_zero lib l.element in
      record l { element = e; held = if ok then l.held + 1 else l.held }
  apply_ref l puts =
      let (e, n) = put_element lib (λ e n. n + 1) l.element l.disposed in
      if l.held == 0 then l else record { element = e; held = l.held - 1; disposed = n }

  unfoldable pub run_refs : Life → List RefOp → Life
  unfolding apply_ref
  run_refs l [] = l
  run_refs l (op ∷ ops) = run_refs (apply_ref l op) ops

  -- The two kinds of step, at a count of `n` and of `n + 1`.
  gets-IsCounted :
      (l : Life) (n : ℕ) → n ≡ l.held → n + 1 < 2 ^ 31 → IsCounted l → IsCounted (apply_ref l gets)
  unfolding apply_ref get_element_not_zero
  gets-IsCounted l zero z small c = rw (c.0 ∙ sym z, inc_zero) (ground arith)
  gets-IsCounted l (suc n) z small c =
      rw (c.0 ∙ sym z, inc_lem (suc n) (omega arith) small) (ground arith)

  puts-IsCounted :
      (l : Life) (n : ℕ) → n ≡ l.held → n + 1 < 2 ^ 31 → IsCounted l → IsCounted (apply_ref l puts)
  unfolding apply_ref put_element
  puts-IsCounted l zero z small c = rw ((==_iff l.held 0).1 (sym z)) c
  puts-IsCounted l (suc n) z small c =
      let e : l.element.refs ≡ n + 1 = omega (arith, c.0) in
      rw (e, dec_lem n (omega arith)) (ground arith)

  apply_ref-IsCounted :
      (l : Life) (op : RefOp) → l.held + 1 < 2 ^ 31 → IsCounted l → IsCounted (apply_ref l op)
  apply_ref-IsCounted l gets small c = gets-IsCounted l l.held refl small c
  apply_ref-IsCounted l puts small c = puts-IsCounted l l.held refl small c

  apply_ref-held : (l : Life) (op : RefOp) → (apply_ref l op).held ≤ l.held + 1
  unfolding apply_ref get_element_not_zero put_element
  apply_ref-held l gets = ground arith
  apply_ref-held l puts = ground arith

  run_refs-IsCounted :
      (ops : List RefOp) (l : Life)
      → l.held + length ops + 1 < 2 ^ 31
      → IsCounted l
      → IsCounted (run_refs l ops)
  unfolding run_refs
  run_refs-IsCounted [] l small c = c
  run_refs-IsCounted (op ∷ ops) l small c =
      run_refs-IsCounted ops (apply_ref l op) (omega (arith, apply_ref-held l op))
        (apply_ref-IsCounted l op (omega arith) c)

  -- Over any sequence of gets and puts, from an element with one reference held, too short for the
  -- count to reach 2 ^ 31: the count is the number of references held; `__evl_put_element` has been
  -- called once if none is held and else never; and once none is held, a get fails. The kernel's
  -- `refcount_t` does what it documents.
  pub run_refs_lem :
      (e : Element) (ops : List RefOp)
      → e.refs ≡ 1
      → length ops + 2 < 2 ^ 31
      → let l = run_refs (record { element = e; held = 1; disposed = 0 }) ops in
        IsCounted l × (l.held ≡ 0 → (get_element_not_zero lib l.element).1 ≡ false)
  run_refs_lem e ops one small =
      let l = run_refs (record { element = e; held = 1; disposed = 0 }) ops in
      let c =
        run_refs-IsCounted ops (record { element = e; held = 1; disposed = 0 }) (omega arith)
          (one, refl) in
      (c, (λ z. fails l.element (c.0 ∙ z)))
    where
      fails : (e : Element) → e.refs ≡ 0 → (get_element_not_zero lib e).1 ≡ false
      fails e z = unfold get_element_not_zero in rw (z, inc_zero) refl
