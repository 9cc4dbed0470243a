-- ===== src/Staking/Conservation.antt =====
-- What `distribute` of fees.rs does to the sum of all balances.
use truth_seeker.Common.{
  ℕ, ◌+◌, ◌-◌, ◌*◌, ◌/◌, ◌%◌, ◌^◌, ◌≤◌, ◌<◌, ◌≡◌, refl, List, [], ◌∷◌, ◌==◌, list_eq, nat_eq, ltb,
  length, arith, Bool-cases, Option-cases, inl, inr, ◌⊎◌, All, add_u128, sub_u128, u128_mod, Result,
  ok, err,
}
use truth_seeker.Common.Maps.{Map, get, insert}
use truth_seeker.Sdk.Types.{Bytes}
use truth_seeker.Staking.{
  ValidatorFeeState, Staking, or_default, add_balance, pay_all, distribute_one, distribute_all,
  distribute,
}

step_cases :
    {A E : Type 0} (x : A × Result E Unit)
    → ((a : A) × (x ≡ (a, ok tt))) ⊎ ((a : A) × (e : E) × (x ≡ (a, err e)))
step_cases (a, ok tt) = inl (a, refl)
step_cases (a, err e) = inr (a, e, refl)

-- The sum of the balances, of whose bits the `i128`s consist.
unfoldable pub balance_sum : Map Bytes ValidatorFeeState → ℕ
balance_sum [] = 0
balance_sum ((v, state) ∷ m) = state.balance + balance_sum m

balance_sum-insert :
    (m : Map Bytes ValidatorFeeState) (v : Bytes) (state : ValidatorFeeState)
    → balance_sum (insert m v state) + (or_default (get m v)).balance
      ≡ balance_sum m + state.balance
unfolding balance_sum insert get
balance_sum-insert [] v state = omega arith
balance_sum-insert ((u, old) ∷ m) v state = ground (arith, balance_sum-insert m v state)

balance_sum-pay_all :
    (m : Map Bytes ValidatorFeeState) (vs : List Bytes) (fee : ℕ)
    → balance_sum (pay_all m vs fee) % u128_mod ≡ (balance_sum m + length vs * fee) % u128_mod
unfolding pay_all add_u128
balance_sum-pay_all m [] fee = ground arith
balance_sum-pay_all m (v ∷ vs) fee =
    let state = or_default (get m v) in
    let paid = record state { balance = add_u128 state.balance fee } in
    grind (arith, balance_sum-insert m v paid, balance_sum-pay_all (add_balance m v fee) vs fee)

-- One entry in bits: `whole` is the sum of all balances and `paid` the one in which the balance `b`
-- has paid the fee, of which `nq` is handed out and `r` is the rest.
split_fee :
    (sum paid whole b nq r fee : ℕ)
    → fee ≤ u128_mod
    → fee ≡ nq + r
    → paid + b ≡ whole + (b + u128_mod - fee) % u128_mod
    → sum % u128_mod ≡ (paid + nq) % u128_mod
    → (sum + r) % u128_mod ≡ whole % u128_mod
split_fee sum paid whole b nq r fee h e k l = omega arith

-- One fee is lost up to the rounding of the division only.
distribute_one_loss :
    (m m' : Map Bytes ValidatorFeeState) (bonded : List Bytes) (v : Bytes) (size : ℕ)
    → size < 2 ^ 64
    → distribute_one m bonded (v, size) ≡ (m', ok tt)
    → (lost : ℕ) × (lost < length bonded)
      × ((balance_sum m' + lost) % u128_mod ≡ balance_sum m % u128_mod)
unfolding distribute_one sub_u128
distribute_one_loss m m' bonded v size bound h = elim (Option-cases (get m v)) [
  | inl unknown ↦ ground arith
  | inr (state, known) ↦ elim (Bool-cases (ltb size state.paid_cumul_size)) [
    | inl decreased ↦ ground arith
    | inr grown ↦ elim (Bool-cases (length bonded == 0)) [
      | inl nobody ↦ ground arith
      | inr someone ↦
          let fee = size - state.paid_cumul_size in
          let n = length bonded in
          let next : ValidatorFeeState = record {
            balance = sub_u128 state.balance fee;
            paid_cumul_size = size;
          } in
          let e : m' ≡ pay_all (insert m v next) bonded (fee / n) = ground arith in
          let old : (or_default (get m v)).balance ≡ state.balance = ground arith in
          (
            fee % n,
            grind arith,
            split_fee (balance_sum m') (balance_sum (insert m v next)) (balance_sum m) state.balance
                (n * (fee / n)) (fee % n) fee (omega arith) (grind arith)
                (omega (arith, balance_sum-insert m v next, old))
                (rw e (balance_sum-pay_all (insert m v next) bonded (fee / n))),
          )
    ]
  ]
]

-- The sizes of the pending fees are `u64`.
abbrev pub AreWords : List (Bytes × ℕ) → Type 0
AreWords ps = All (λ (p : Bytes × ℕ). p.1 < 2 ^ 64) ps

distribute_all_loss :
    (m m' : Map Bytes ValidatorFeeState) (bonded : List Bytes) (ps : List (Bytes × ℕ))
    → AreWords ps
    → distribute_all m bonded ps ≡ (m', ok tt)
    → (lost : ℕ) × (lost ≤ length ps * length bonded)
      × ((balance_sum m' + lost) % u128_mod ≡ balance_sum m % u128_mod)
unfolding distribute_all
distribute_all_loss m m' bonded [] words h =
    let e : m' ≡ m = ground arith in (0, grind arith, rw e (omega arith))
distribute_all_loss m m' bonded ((v, size) ∷ ps) (word, words) h =
    elim (step_cases (distribute_one m bonded (v, size))) [
      | inl (m1, done) ↦
          let (lost, few, kept) = distribute_one_loss m m1 bonded v size word done in
          let (lost', few', kept') = distribute_all_loss m1 m' bonded ps words (ground arith) in
          (lost + lost', grind arith, omega (arith, kept, kept'))
      | inr (m1, e, failed) ↦ ground arith
    ]

-- When the pending fees are distributed, the sum of all balances goes down by the rounding of the
-- divisions only: by at most the number of the fees times that of the bonded validators. The fees
-- are then no longer pending.
pub distribute_loss :
    (s s' : Staking)
    → AreWords (s.fees).pending_fees
    → distribute s ≡ (s', ok tt)
    → (lost : ℕ) × (lost ≤ length (s.fees).pending_fees * length s.bonded)
      × ((balance_sum (s'.fees).balances + lost) % u128_mod
          ≡ balance_sum (s.fees).balances % u128_mod)
      × ((s'.fees).pending_fees ≡ [])
unfolding distribute
distribute_loss s s' words h =
    elim (step_cases (distribute_all (s.fees).balances s.bonded (s.fees).pending_fees)) [
      | inl (m, done) ↦
          let (lost, few, kept) =
            distribute_all_loss (s.fees).balances m s.bonded (s.fees).pending_fees words done in
          let e : s' ≡ record s { fees = record { pending_fees = []; balances = m } } =
            ground arith in
          rw e (lost, few, kept, refl)
      | inr (m, e, failed) ↦ ground arith
    ]
