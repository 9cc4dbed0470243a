-- ===== src/Amm/Product.antt =====
-- What a swap does to the reserves of a pair.
use native.Mathlib.Nat.{div-le_of_le-mul, mul-div-le, lt-mul-div-succ}
use truth_seeker.Common.{
  ℕ, ◌+◌, ◌-◌, ◌*◌, ◌/◌, ◌≤◌, ◌<◌, ◌≡◌, some, arith, u128_mod, add_u128_lem, sub_u128_lem,
  mul_u128_lem,
}
use truth_seeker.Amm.{amount_out, swap_reserves}

module _ (x y from : ℕ) (fits : x * y < u128_mod) (room : x + from < u128_mod)
    (some_x : 0 < x + from) (y_fits : y < u128_mod) where
  quotient-le : x * y / (x + from) ≤ y
  quotient-le = div-le_of_le-mul (x + from) (omega arith)

  amount_out_lem : amount_out x y from ≡ some (y - x * y / (x + from))
  unfolding amount_out
  amount_out_lem = ground (
    arith,
    add_u128_lem x from room,
    mul_u128_lem x y fits,
    sub_u128_lem y (x * y / (x + from)) y_fits quotient-le,
  )

  -- Where nothing wraps round, the second reserve becomes the floor of `x * y / (x + from)`.
  pub swap_reserves_lem :
      swap_reserves x y from ≡ some ((x + from, x * y / (x + from)), y - x * y / (x + from))
  unfolding swap_reserves
  swap_reserves_lem = ground (
    arith,
    amount_out_lem,
    add_u128_lem x from room,
    sub_u128_lem y (y - x * y / (x + from)) y_fits (omega arith),
    quotient-le,
  )

  -- The product of the reserves does not grow, and shrinks by less than the new first reserve.
  pub product_bounds : let d = x + from in (d * (x * y / d) ≤ x * y) × (x * y < d * (x * y / d) + d)
  product_bounds =
      (mul-div-le (x * y) (x + from), omega (arith, lt-mul-div-succ (x * y) {b = x + from} some_x))
