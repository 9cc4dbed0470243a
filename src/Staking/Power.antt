-- ===== src/Staking/Power.antt =====
-- What the voting power of state.rs means for quorums.
use truth_seeker.Common.{
  ◌*◌, ◌%◌, ◌≤◌, ◌<◌, ◌≡◌, ◌⊎◌, true, List, nat_eq, list_eq, ◌&&◌, contains, arith, u128_mod, ◌∙◌,
}
use truth_seeker.Sdk.Types.{Bytes}
use truth_seeker.Staking.{Staking, power, compute_f, compute_voting_power}
use truth_seeker.Staking.Order.{
  sort, dedup, sort-IsSorted, contains-sort, contains-dedup, dedup-Distinct,
}
use truth_seeker.Staking.Sums.{part, total, total-part, part-ext, part-and}
use truth_seeker.Staking.Bonds.{IsValid, sum_u128-powers}

-- All the validators are bonded.
abbrev pub AreBonded : Staking → List Bytes → Type 0
AreBonded s vs = (v : Bytes) → contains vs v ≡ true → contains s.bonded v ≡ true

-- The voting power of bonded validators is the stake of those that are named, each taken once,
-- however often and in whatever order they are named.
pub compute_voting_power_lem :
    (s : Staking) (vs : List Bytes)
    → IsValid s
    → AreBonded s vs
    → compute_voting_power s vs ≡ part (power s) (λ v. contains vs v) s.bonded % u128_mod
unfolding compute_voting_power
compute_voting_power_lem s vs valid bonded =
    let once = dedup (sort vs) in
    let same : (v : Bytes) → contains once v ≡ contains vs v =
      λ v. contains-dedup v (sort vs) ∙ contains-sort v vs in
    let count =
      total-part (power s) once s.bonded (dedup-Distinct (sort vs) (sort-IsSorted vs))
        valid.distinct (λ v m. bonded v (ground (arith, same v))) in
    let named = part-ext (power s) (λ v. contains once v) (λ v. contains vs v) s.bonded same in
    omega (arith, sum_u128-powers s once, count, named)

-- Two quorums of bonded validators have voting power at least `f` in common, and more than `f`
-- unless the total bond is two more than a multiple of three.
pub quorums_meet :
    (s : Staking) (xs ys : List Bytes)
    → IsValid s
    → total (power s) s.bonded < u128_mod
    → AreBonded s xs
    → AreBonded s ys
    → 2 * compute_f s < compute_voting_power s xs
    → 2 * compute_f s < compute_voting_power s ys
    → let common = part (power s) (λ v. contains xs v && contains ys v) s.bonded in
      (compute_f s ≤ common) × ((s.total_bond % 3 ≡ 2) ⊎ (compute_f s < common))
quorums_meet s xs ys valid fits bx by qx qy =
    let both = part-and (power s) (λ v. contains xs v) (λ v. contains ys v) s.bonded in
    let x = compute_voting_power_lem s xs valid bx in
    let y = compute_voting_power_lem s ys valid by in
    let all = valid.total_bond in (omega (arith, both, x, y, all), ground (arith, both, x, y, all))
