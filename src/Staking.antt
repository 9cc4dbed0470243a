-- ===== src/Staking.antt =====
-- manual_Scaffold/hyli/crates/contracts/staking/src/state.rs and fees.rs: the stakes, the bonded
-- validators with their voting power, and the fees. A key of a validator is a `Vec<u8>`, a lane is
-- its key, and the balances, which are `i128`, are kept as their bits.
pub mod Order
pub mod Sums
pub mod Power
pub mod Bonds
pub mod Contract
pub mod Conservation
use mathlib.Core.Option
use truth_seeker.Common.{
  ℕ, ◌+◌, ◌-◌, ◌*◌, ◌/◌, ◌%◌, Bool, true, false, String, Option, none, some, List, [], ◌∷◌, ◌==◌,
  string_eq, nat_eq, list_eq, not, ltb, any, push, contains, length, if◌then◌else◌, add_u128,
  sub_u128, Result, ok, err,
}
use truth_seeker.Common.Maps.{Map, get, insert, contains_key}
use truth_seeker.Sdk.Types.{Bytes}
use truth_seeker.Staking.Order.{sort, dedup}

-- The cumulative sizes are `u64`.
pub record ValidatorFeeState : Type 0 where
  pub balance : ℕ
  pub paid_cumul_size : ℕ

pub record Fees : Type 0 where
  pub pending_fees : List (Bytes × ℕ)
  pub balances : Map Bytes ValidatorFeeState

-- Without `rewarded`, which nothing reads or writes but the hash of the state.
pub record Staking : Type 0 where
  pub stakes : Map String ℕ
  pub delegations : Map Bytes (List String)
  pub bonded : List Bytes
  pub total_bond : ℕ
  pub fees : Fees

pub data StakingError : Type 0 where
  already_bonded not_enough_stake already_staked already_delegated : StakingError
  disseminator_not_found cumul_size_decreased division_by_zero not_implemented : StakingError

abbrev pub min_stake : ℕ
min_stake = 32

-- `Iterator::sum`
abbrev pub sum_u128 : List ℕ → ℕ
sum_u128 [] = 0
sum_u128 (x ∷ xs) = add_u128 x (sum_u128 xs)

abbrev pub or_zero : Option ℕ → ℕ
or_zero none = 0
or_zero (some n) = n

abbrev pub is_known : Staking → Bytes → Bool
is_known s key = contains_key s.delegations key

abbrev pub is_bonded : Staking → Bytes → Bool
is_bonded s pubkey = contains s.bonded pubkey

abbrev pub stake_of : Staking → String → ℕ
stake_of s delegator = or_zero (get s.stakes delegator)

abbrev pub stakes_of : Staking → List String → List ℕ
stakes_of s [] = []
stakes_of s (d ∷ ds) = stake_of s d ∷ stakes_of s ds

unfoldable pub get_stake : Staking → Bytes → Option ℕ
get_stake s validator = Option.map (λ ds. sum_u128 (stakes_of s ds)) (get s.delegations validator)

unfoldable pub bond : Staking → Bytes → Staking × Result StakingError Unit
bond s validator =
    if is_bonded s validator then (s, err already_bonded) else elim (get_stake s validator) [
      | none ↦ (s, err not_enough_stake)
      | some stake ↦ if ltb stake min_stake then (s, err not_enough_stake) else (
        record s {
          bonded = sort (push s.bonded validator);
          total_bond = add_u128 s.total_bond stake;
        },
        ok tt,
      )
    ]

abbrev pub compute_f : Staking → ℕ
compute_f s = s.total_bond / 3

-- The stake that counts for a validator; the `flat_map` drops the ones that have none.
abbrev pub power : Staking → Bytes → ℕ
power s validator = or_zero (get_stake s validator)

abbrev pub powers : Staking → List Bytes → List ℕ
powers s [] = []
powers s (v ∷ vs) = power s v ∷ powers s vs

unfoldable pub compute_voting_power : Staking → List Bytes → ℕ
compute_voting_power s validators = sum_u128 (powers s (dedup (sort validators)))

unfoldable pub stake : Staking → String → ℕ → Staking × Result StakingError Unit
stake s staker amount =
    if contains_key s.stakes staker
    then (s, err already_staked)
    else (record s { stakes = insert s.stakes staker amount }, ok tt)

-- `values().flatten().any(…)`
abbrev pub is_delegated : Map Bytes (List String) → String → Bool
is_delegated delegations staker = any (λ (p : Bytes × List String). contains p.1 staker) delegations

abbrev pub or_nobody : Option (List String) → List String
or_nobody none = []
or_nobody (some ds) = ds

unfoldable pub delegate_to : Staking → String → Bytes → Staking × Result StakingError Unit
delegate_to s staker validator =
    if is_delegated s.delegations staker then (s, err already_delegated) else (
      record s {
        delegations =
            insert s.delegations validator (push (or_nobody (get s.delegations validator)) staker);
      },
      ok tt,
    )

abbrev pub or_default : Option ValidatorFeeState → ValidatorFeeState
or_default none = record { balance = 0; paid_cumul_size = 0 }
or_default (some state) = state

-- `entry(validator).or_default().balance += amount`
abbrev pub add_balance : Map Bytes ValidatorFeeState → Bytes → ℕ → Map Bytes ValidatorFeeState
add_balance balances validator amount =
    let state = or_default (get balances validator) in
    insert balances validator (record state { balance = add_u128 state.balance amount })

unfoldable pub deposit_for_fees : Staking → Bytes → ℕ → Staking
deposit_for_fees s holder amount = record s {
  fees = record (s.fees) { balances = add_balance (s.fees).balances holder amount };
}

unfoldable pub pay_for_dadi : Staking → Bytes → ℕ → Staking
pay_for_dadi s disseminator cumul_size = record s {
  fees = record (s.fees) { pending_fees = push (s.fees).pending_fees (disseminator, cumul_size) };
}

-- the loop over the bonded validators
unfoldable pub pay_all : Map Bytes ValidatorFeeState → List Bytes → ℕ → Map Bytes ValidatorFeeState
pay_all balances [] fee = balances
pay_all balances (v ∷ vs) fee = pay_all (add_balance balances v fee) vs fee

-- the body of the loop over the pending fees; the division panics if no validator is bonded
unfoldable pub distribute_one :
    Map Bytes ValidatorFeeState
    → List Bytes
    → Bytes × ℕ
    → Map Bytes ValidatorFeeState × Result StakingError Unit
distribute_one balances bonded (disseminator, cumul_size) = elim (get balances disseminator) [
  | none ↦ (balances, err disseminator_not_found)
  | some state ↦
      if ltb cumul_size state.paid_cumul_size
      then (balances, err cumul_size_decreased)
      else let fee = cumul_size - state.paid_cumul_size in
        let paid =
          insert balances disseminator
            (record { balance = sub_u128 state.balance fee; paid_cumul_size = cumul_size }) in
        if length bonded == 0
        then (paid, err division_by_zero)
        else (pay_all paid bonded (fee / length bonded), ok tt)
]

unfoldable pub distribute_all :
    Map Bytes ValidatorFeeState
    → List Bytes
    → List (Bytes × ℕ)
    → Map Bytes ValidatorFeeState × Result StakingError Unit
distribute_all balances bonded [] = (balances, ok tt)
distribute_all balances bonded (p ∷ ps) =
    let (balances', r) = distribute_one balances bonded p in
    elim r [ err e ↦ (balances', err e) | ok _ ↦ distribute_all balances' bonded ps ]

-- `drain(..)` empties the list on an error too.
unfoldable pub distribute : Staking → Staking × Result StakingError Unit
distribute s =
    let (balances, r) = distribute_all (s.fees).balances s.bonded (s.fees).pending_fees in
    (record s { fees = record { pending_fees = []; balances = balances } }, r)

-- hyle-model's `StakingAction`
pub data StakingAction : Type 0 where
  stake_action : ℕ → StakingAction
  delegate_action : Bytes → StakingAction
  distribute_action : Bytes → StakingAction
  deposit_action : Bytes → ℕ → StakingAction

-- the body of the loop over the staking actions of a block; `todo!()` panics
unfoldable pub process_action :
    Staking → String × StakingAction → Staking × Result StakingError Unit
process_action s (identity, stake_action amount) = stake s identity amount
process_action s (identity, delegate_action validator) = delegate_to s identity validator
process_action s (identity, distribute_action claim) = (s, err not_implemented)
process_action s (identity, deposit_action holder amount) =
    (deposit_for_fees s holder amount, ok tt)

unfoldable pub process_actions :
    Staking → List (String × StakingAction) → Staking × Result StakingError Unit
process_actions s [] = (s, ok tt)
process_actions s (a ∷ actions) =
    let (s', r) = process_action s a in
    elim r [ err e ↦ (s', err e) | ok _ ↦ process_actions s' actions ]

unfoldable pub bond_all : Staking → List Bytes → Staking × Result StakingError Unit
bond_all s [] = (s, ok tt)
bond_all s (v ∷ vs) =
    let (s', r) = bond s v in elim r [ err e ↦ (s', err e) | ok _ ↦ bond_all s' vs ]

-- The fields of a block that are read are its staking actions and its new validators.
unfoldable pub process_block :
    Staking → List (String × StakingAction) → List Bytes → Staking × Result StakingError Unit
process_block s actions new_bounded_validators =
    let (s', r) = process_actions s actions in
    elim r [ err e ↦ (s', err e) | ok _ ↦ bond_all s' new_bounded_validators ]
