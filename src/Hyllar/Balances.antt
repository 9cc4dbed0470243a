-- ===== src/Hyllar/Balances.antt =====
-- The sum of the balances, and what a move of tokens does to each balance.
use truth_seeker.Common.{
  ℕ, ◌+◌, ◌-◌, ◌≤◌, ◌<◌, ◌≡◌, ap, String, [], ◌∷◌, ◌==◌, string_eq, arith, if◌then◌else◌, u128_mod,
  add_u128_lem, sub_u128_lem,
}
use truth_seeker.Common.Maps.{Map, get, insert, get-insert}
use truth_seeker.Hyllar.{or_zero, debit, credit, move_tokens}

abbrev pub sum : Map String ℕ → ℕ
sum [] = 0
sum ((k, v) ∷ m) = v + sum m

-- The balance of an account, zero if it has none.
abbrev pub held : Map String ℕ → String → ℕ
held m a = or_zero (get m a)

pub held-le-sum : (m : Map String ℕ) (a : String) → held m a ≤ sum m
unfolding get
held-le-sum [] a = omega arith
held-le-sum ((k, v) ∷ m) a = ground (arith, held-le-sum m a)

pub sum-insert : (m : Map String ℕ) (k : String) (v : ℕ) → sum (insert m k v) + held m k ≡ sum m + v
unfolding get insert
sum-insert [] k v = omega arith
sum-insert ((j, w) ∷ m) k v = ground (arith, sum-insert m k v)

module _ (m : Map String ℕ) (from to : String) (amount : ℕ) (bounded : sum m < u128_mod)
    (covered : amount ≤ held m from) where
  debit_lem : debit from amount m ≡ insert m from (held m from - amount)
  unfolding debit
  debit_lem =
      ap (insert m from)
        (sub_u128_lem (held m from) amount (omega (arith, held-le-sum m from)) covered)

  sum-debit : sum (debit from amount m) + amount ≡ sum m
  sum-debit =
      rw debit_lem (omega (arith, sum-insert m from (held m from - amount), held-le-sum m from))

  credit_lem :
      credit to amount (debit from amount m)
      ≡ insert (debit from amount m) to (held (debit from amount m) to + amount)
  unfolding credit
  credit_lem =
      let m' = debit from amount m in
      ap (insert m' to)
        (add_u128_lem (held m' to) amount (omega (arith, held-le-sum m' to, sum-debit)))

  -- A covered move keeps the sum of the balances.
  pub sum-move_tokens : sum (move_tokens from to amount m) ≡ sum m
  sum-move_tokens =
      let m' = debit from amount m in
      rw credit_lem (omega (arith, sum-insert m' to (held m' to + amount), sum-debit))

  held-debit :
      (a : String)
      → held (debit from amount m) a ≡ (if from == a then held m from - amount else held m a)
  held-debit a = rw debit_lem (ground (arith, get-insert m from a (held m from - amount)))

  held-credit :
      (a : String)
      → held (move_tokens from to amount m) a
        ≡ (if to == a then held (debit from amount m) to + amount else held (debit from amount m) a)
  held-credit a =
      let m' = debit from amount m in
      rw credit_lem (ground (arith, get-insert m' to a (held m' to + amount)))

  -- It takes the amount from one account and gives it to the other; a move to oneself is none.
  pub held-move_tokens :
      (a : String)
      → held (move_tokens from to amount m) a
        ≡ held m a - (if from == a then amount else 0) + (if to == a then amount else 0)
  held-move_tokens a = ground (
    arith,
    held-credit a,
    held-debit a,
    held-debit to,
    string_eq.beq_iff from a,
    string_eq.beq_iff to a,
    string_eq.beq_iff from to,
  )
