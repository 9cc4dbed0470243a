-- ===== src/Amm/Swaps.antt =====
-- What a swap that the exchange accepts has done.
use truth_seeker.Common.{
  ℕ, ◌+◌, ◌-◌, ◌*◌, ◌/◌, ◌≤◌, ◌<◌, ◌≡◌, ◌≢◌, refl, String, Bool, true, false, some, arith, ==_ne,
  string_eq, pair_eq, str_leb, if◌then◌else◌, u128_mod, mul_u128_lem, ok, err, Option-cases, inl,
  inr,
}
use truth_seeker.Common.Maps.{get, insert}
use truth_seeker.Amm.{
  Amm, Amounts, invalid_swap, Reply, swap_valid, normalize, swap_reserves, swap_stored,
  out_of_range, verify_swap,
}
use truth_seeker.Amm.Product.{swap_reserves_lem, product_bounds}
use truth_seeker.Amm.Pairs.{reserves, orient, get-insert_self}

verify_run :
    (s : Amm) (a b : String) (from to paid : ℕ) (v v' : Amounts)
    → a ≢ b
    → get s.pairs (normalize a b) ≡ some v
    → swap_stored (str_leb a b) v from ≡ some (v', paid)
    → verify_swap s (a, b) from to ≡ (
      record { pairs = insert s.pairs (normalize a b) v' },
      if out_of_range paid to then err (invalid_swap paid) else ok (swap_valid from a to b),
    )
unfolding verify_swap
verify_run s a b from to paid v v' ne there swapped =
    rw (==_ne {A = String} a b ne, there, swapped) refl

swap_stored-orient :
    (order : Bool) (v : Amounts) (from x y x' y' paid : ℕ)
    → orient order (some v) ≡ some (x, y)
    → swap_reserves x y from ≡ some ((x', y'), paid)
    → (v' : Amounts) × (swap_stored order v from ≡ some (v', paid))
      × (orient order (some v') ≡ some (x', y'))
unfolding swap_stored
swap_stored-orient true (p, q) from x y x' y' paid o swapped = ((x', y'), ground arith, refl)
swap_stored-orient false (p, q) from x y x' y' paid o swapped = ((y', x'), ground arith, refl)

stored_there :
    (s : Amm) (a b : String) (x y : ℕ)
    → reserves s a b ≡ some (x, y)
    → (v : Amounts) × (get s.pairs (normalize a b) ≡ some v)
      × (orient (str_leb a b) (some v) ≡ some (x, y))
stored_there s a b x y held = elim (Option-cases (get s.pairs (normalize a b))) [
  | inl absent ↦ ground arith
  | inr (v, there) ↦ (v, there, rw there at held)
]

-- `verify_swap` in terms of the reserves of its two tokens, whichever way their names are ordered.
swap_oriented :
    (s : Amm) (a b : String) (from to x y x' y' paid : ℕ)
    → a ≢ b
    → reserves s a b ≡ some (x, y)
    → swap_reserves x y from ≡ some ((x', y'), paid)
    → (reserves (verify_swap s (a, b) from to).0 a b ≡ some (x', y'))
      × ((verify_swap s (a, b) from to).1
          ≡ (if out_of_range paid to then err (invalid_swap paid) else ok (swap_valid from a to b)))
swap_oriented s a b from to x y x' y' paid ne held swapped =
    let (v, there, oriented) = stored_there s a b x y held in
    let (v', run, oriented') =
      swap_stored-orient (str_leb a b) v from x y x' y' paid oriented swapped in
    rw (verify_run s a b from to paid v v' ne there run)
      (rw (get-insert_self s.pairs (normalize a b) v') oriented', refl)

in_range :
    (paid to : ℕ)
    → paid * 98 < u128_mod
    → out_of_range paid to ≡ false
    → (to ≤ paid) × (paid * 98 / 100 ≤ to)
unfolding out_of_range
in_range paid to fits h = ground (arith, mul_u128_lem paid 98 fits)

-- A swap that is accepted, where no `u128` wraps round: the first reserve grows by the amount paid
-- in, the second becomes the floor of the old product over it, the payout is at most what the
-- second reserve loses and at least 98% of it, and the product of the reserves never grows and
-- loses less than the new first reserve.
swap_accepted :
    (s : Amm) (a b : String) (from to x y : ℕ) (r : Reply)
    → a ≢ b
    → reserves s a b ≡ some (x, y)
    → x * y < u128_mod
    → x + from < u128_mod
    → 0 < x + from
    → y * 98 < u128_mod
    → (verify_swap s (a, b) from to).1 ≡ ok r
    → let y' = x * y / (x + from) in
      (reserves (verify_swap s (a, b) from to).0 a b ≡ some (x + from, y'))
      × (to ≤ y - y')
      × ((y - y') * 98 / 100 ≤ to)
      × ((x + from) * y' ≤ x * y)
      × (x * y < (x + from) * y' + (x + from))
swap_accepted s a b from to x y r ne held fits room pos y_fits done =
    let y' = x * y / (x + from) in
    let (after, result) =
      swap_oriented s a b from to x y (x + from) y' (y - y') ne held
        (swap_reserves_lem x y from fits room pos (omega arith)) in
    let (small, large) = in_range (y - y') to (omega arith) (ground arith) in
    let (down, up) = product_bounds x y from fits room pos (omega arith) in
    (after, small, large, down, up)
