-- ===== src/Tests/Staking.antt =====
-- The theorems on stakes, voting power and fees at concrete inputs.
use truth_seeker.Common.{
  ℕ, ◌+◌, ◌*◌, ◌%◌, ◌≤◌, ◌≡◌, refl, true, List, [], ◌∷◌, list_eq, nat_eq, string_eq, arith,
  contains, u128_mod, list_beq_iff, length, add_u128, sub_u128,
}
use truth_seeker.Common.Maps.{get, insert}
use truth_seeker.Sdk.Types.{Bytes}
use truth_seeker.Staking.{
  Staking, power, get_stake, bond, delegate_to, stake_of, compute_voting_power, distribute,
  distribute_all, distribute_one, pay_all,
}
use truth_seeker.Staking.Order.{sort, insert_sorted}
use truth_seeker.Staking.Sums.{part}
use truth_seeker.Staking.Bonds.{IsValid, bond-IsValid, delegate_to_power}
use truth_seeker.Staking.Power.{AreBonded, compute_voting_power_lem}
use truth_seeker.Staking.Conservation.{balance_sum, distribute_loss}

-- Two validators of equal stake; the total bond is two more than a multiple of three.
abbrev pub two : Staking
two = record {
  stakes = ("a", 34) ∷ ("b", 34) ∷ ("c", 40) ∷ [];
  delegations = (1 ∷ [], "a" ∷ []) ∷ (2 ∷ [], "b" ∷ []) ∷ [];
  bonded = (1 ∷ []) ∷ (2 ∷ []) ∷ [];
  total_bond = 68;
  fees = record {
    pending_fees = (1 ∷ [], 11) ∷ [];
    balances = (1 ∷ [], record { balance = 100; paid_cumul_size = 0 }) ∷ [];
  };
}

pub two-IsValid : IsValid two
unfolding part get_stake get add_u128
two-IsValid = record {
  sorted = ((refl, tt), (tt, tt));
  distinct = (refl, (refl, tt));
  total_bond = refl;
}

abbrev one : Staking
one = record two { bonded = (1 ∷ []) ∷ []; total_bond = 34 }

one-IsValid : IsValid one
unfolding part get_stake get add_u128
one-IsValid = record { sorted = (tt, tt); distinct = (refl, tt); total_bond = refl }

bond-IsValid_example :
    IsValid two
    × (contains two.bonded (2 ∷ []) ≡ true)
    × (32 ≤ power one (2 ∷ []))
    × (two.total_bond ≡ (one.total_bond + power one (2 ∷ [])) % u128_mod)
    × (two ≡ record one { bonded = two.bonded; total_bond = two.total_bond })
unfolding bond get_stake get add_u128 sort insert_sorted
bond-IsValid_example = bond-IsValid one two (2 ∷ []) one-IsValid refl

abbrev delegated : Staking
delegated = (delegate_to two "c" (1 ∷ [])).0

delegate_to_power_example :
    (power delegated (1 ∷ []) ≡ (power two (1 ∷ []) + stake_of two "c") % u128_mod)
    × (delegated.bonded ≡ two.bonded)
    × (delegated.total_bond ≡ two.total_bond)
unfolding delegate_to get insert
delegate_to_power_example = delegate_to_power two delegated "c" (1 ∷ []) refl

abbrev named : List Bytes
named = (2 ∷ []) ∷ (1 ∷ []) ∷ (2 ∷ []) ∷ []

named-AreBonded : AreBonded two named
named-AreBonded v m = ground (arith, list_beq_iff (1 ∷ []) v, list_beq_iff (2 ∷ []) v)

compute_voting_power_lem_example :
    compute_voting_power two named ≡ part (power two) (λ v. contains named v) two.bonded % u128_mod
compute_voting_power_lem_example = compute_voting_power_lem two named two-IsValid named-AreBonded

abbrev distributed : Staking
distributed = (distribute two).0

distribute_loss_example :
    (lost : ℕ) × (lost ≤ length (two.fees).pending_fees * length two.bonded)
    × ((balance_sum (distributed.fees).balances + lost) % u128_mod
        ≡ balance_sum (two.fees).balances % u128_mod)
    × ((distributed.fees).pending_fees ≡ [])
unfolding distribute distribute_all distribute_one get insert pay_all add_u128 sub_u128
distribute_loss_example = distribute_loss two distributed (omega arith, tt) refl
