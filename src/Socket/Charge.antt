-- ===== src/Socket/Charge.antt =====
-- The bound on what a socket is charged, and the length of a transfer.
use spacemit_xenomai.Base.{
  ℕ, ◌+◌, ◌-◌, ◌^◌, ◌≤◌, ◌<◌, ◌≡◌, refl, sym, subst, ap, inl, inr, Bool, true, false, Bool-cases,
  List, [], ◌∷◌, ◌++◌, arith, ltb, leb, u32, u64, signed32,
}
use spacemit_xenomai.Socket.{
  Socket, charge_socket_rmem, uncharge_socket_rmem, flat_length_from, iov_flat_length,
}

-- What `charge_socket_rmem_lem` says of the result of a charge.
abbrev Charged : Socket → ℕ → Socket × Bool → Type 0
Charged esk size r =
    (r.1 ≡ ltb esk.rmem_count esk.rmem_max)
    × (r.1 ≡ false → r.0 ≡ esk)
    × (r.1 ≡ true
        → (r.0.rmem_count ≡ esk.rmem_count + size)
          × (r.0.rmem_count + 1 ≤ esk.rmem_max + size)
          × (uncharge_socket_rmem r.0 size ≡ esk))

signed_leb : (a b : ℕ) → a < 2 ^ 31 → b < 2 ^ 31 → leb (signed32 a) (signed32 b) ≡ leb a b
signed_leb a b ha hb = ground arith

refusing :
    (esk : Socket) (size : ℕ)
    → esk.rmem_max < 2 ^ 31
    → esk.rmem_count + size < 2 ^ 31
    → leb esk.rmem_max esk.rmem_count ≡ true
    → charge_socket_rmem esk size ≡ (esk, false)
unfolding charge_socket_rmem
refusing esk size hm hc full =
    rw (signed_leb esk.rmem_max esk.rmem_count hm (omega arith), full) refl

charging :
    (esk : Socket) (size : ℕ)
    → esk.rmem_max < 2 ^ 31
    → esk.rmem_count + size < 2 ^ 31
    → leb esk.rmem_max esk.rmem_count ≡ false
    → charge_socket_rmem esk size ≡ (record esk { rmem_count = esk.rmem_count + size }, true)
unfolding charge_socket_rmem
charging esk size hm hc room =
    let fits : u32 (esk.rmem_count + size) ≡ esk.rmem_count + size = omega arith in
    rw (signed_leb esk.rmem_max esk.rmem_count hm (omega arith), room)
      (ap (λ n. (record esk { rmem_count = n }, true)) fits)

uncharging :
    (esk : Socket) (size : ℕ)
    → esk.rmem_count + size < 2 ^ 31
    → uncharge_socket_rmem (record esk { rmem_count = esk.rmem_count + size }) size ≡ esk
unfolding uncharge_socket_rmem
uncharging esk size hc =
    let back : u32 (esk.rmem_count + size + 2 ^ 32 - u32 size) ≡ esk.rmem_count = omega arith in
    ap (λ n. record esk { rmem_count = n }) back

-- For a count and a maximum that are not negative, and a size with which the count stays within
-- `int`: the charge is refused if and only if the count has reached the maximum, and then changes
-- nothing; a charge that is made leaves the count above the maximum by at most the size less one;
-- and `evl_uncharge_socket_rmem` of the same size takes it back.
pub charge_socket_rmem_lem :
    (esk : Socket) (size : ℕ)
    → esk.rmem_max < 2 ^ 31
    → esk.rmem_count + size < 2 ^ 31
    → let (esk', charged) = charge_socket_rmem esk size in
      (charged ≡ ltb esk.rmem_count esk.rmem_max)
      × (charged ≡ false → esk' ≡ esk)
      × (charged ≡ true
          → (esk'.rmem_count ≡ esk.rmem_count + size)
            × (esk'.rmem_count + 1 ≤ esk.rmem_max + size)
            × (uncharge_socket_rmem esk' size ≡ esk))
charge_socket_rmem_lem esk size hm hc = elim (Bool-cases (leb esk.rmem_max esk.rmem_count)) [
  | inl full ↦
      subst (Charged esk size) (sym (refusing esk size hm hc full))
        (ground arith, (λ e. refl), (λ e. cc))
  | inr room ↦
      subst (Charged esk size) (sym (charging esk size hm hc room))
        (ground arith, (λ e. cc), (λ e. (refl, ground arith, uncharging esk size hc)))
]

-- The sum of the lengths.
abbrev pub sum : List ℕ → ℕ
sum [] = 0
sum (n ∷ ns) = n + sum ns

flat_length_from_lem :
    (count : ℕ) (iov : List ℕ) → count < 2 ^ 64 → flat_length_from count iov ≡ u64 (count + sum iov)
unfolding flat_length_from
flat_length_from_lem count [] h = omega arith
flat_length_from_lem count (n ∷ iov) h =
    omega (arith, flat_length_from_lem (u64 (count + n)) iov (omega arith))

sum-append : (xs ys : List ℕ) → sum (xs ++ ys) ≡ sum xs + sum ys
sum-append [] ys = omega arith
sum-append (x ∷ xs) ys = omega (arith, sum-append xs ys)

-- `evl_iov_flat_length` is the sum of the lengths of the vectors, in 64-bit arithmetic, and the
-- length of vectors one after the other is the sum of their lengths.
pub iov_flat_length_lem :
    (xs ys : List ℕ)
    → (iov_flat_length xs ≡ u64 (sum xs))
      × (iov_flat_length (xs ++ ys) ≡ u64 (iov_flat_length xs + iov_flat_length ys))
unfolding iov_flat_length
iov_flat_length_lem xs ys = (
  omega (arith, flat_length_from_lem 0 xs (omega arith)),
  omega (
    arith,
    flat_length_from_lem 0 (xs ++ ys) (omega arith),
    flat_length_from_lem 0 xs (omega arith),
    flat_length_from_lem 0 ys (omega arith),
    sum-append xs ys,
  ),
)
