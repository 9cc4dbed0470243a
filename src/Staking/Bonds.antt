-- ===== src/Staking/Bonds.antt =====
-- What `bond` of state.rs keeps true of the bonded validators, and what a delegation does to it.
use truth_seeker.Common.{
  ◌+◌, ◌%◌, ◌≤◌, ◌≡◌, refl, true, false, ◌||◌, String, some, List, [], ◌∷◌, ◌==◌, list_eq, nat_eq,
  list_beq_iff, contains, push, arith, Bool-cases, Option-cases, inl, inr, add_u128, u128_mod, ok,
  string_eq,
}
use truth_seeker.Common.Maps.{get, insert, get-insert}
use truth_seeker.Sdk.Types.{Bytes}
use truth_seeker.Staking.{
  Staking, sum_u128, power, powers, get_stake, bond, delegate_to, stake_of, stakes_of, or_nobody,
  is_delegated,
}
use truth_seeker.Staking.Order.{
  insert_sorted, contains-insert_sorted, sort, contains-sort, Distinct, IsSorted, sort-IsSorted,
}
use truth_seeker.Staking.Sums.{part, total, total-sort, total-push}

-- The bonded validators are in order, each once, and the total bond is their stake.
pub record IsValid (s : Staking) : Type 0 where
  pub sorted : IsSorted s.bonded
  pub distinct : Distinct s.bonded
  pub total_bond : s.total_bond ≡ total (power s) s.bonded % u128_mod

pub sum_u128-powers :
    (s : Staking) (vs : List Bytes) → sum_u128 (powers s vs) ≡ total (power s) vs % u128_mod
unfolding part add_u128
sum_u128-powers s [] = refl
sum_u128-powers s (v ∷ vs) = omega (arith, sum_u128-powers s vs)

insert_sorted-Distinct :
    (x : Bytes) (vs : List Bytes)
    → contains vs x ≡ false
    → Distinct vs
    → Distinct (insert_sorted x vs)
unfolding insert_sorted
insert_sorted-Distinct x [] h d = (refl, tt)
insert_sorted-Distinct x (v ∷ vs) h (new, d) = ground (
  arith,
  list_beq_iff v x,
  list_beq_iff x v,
  contains-insert_sorted v x vs,
  insert_sorted-Distinct x vs,
)

sort-Distinct : (vs : List Bytes) → Distinct vs → Distinct (sort vs)
unfolding sort
sort-Distinct [] d = tt
sort-Distinct (v ∷ vs) (new, d) =
    insert_sorted-Distinct v (sort vs) (ground (arith, contains-sort v vs)) (sort-Distinct vs d)

contains-push : (vs : List Bytes) (x v : Bytes) → contains (push vs x) v ≡ (contains vs v || x == v)
contains-push [] x v = ground arith
contains-push (u ∷ vs) x v = ground (arith, contains-push vs x v)

push-Distinct :
    (vs : List Bytes) (x : Bytes) → contains vs x ≡ false → Distinct vs → Distinct (push vs x)
push-Distinct [] x h d = (refl, tt)
push-Distinct (v ∷ vs) x h (new, d) = (
  ground (arith, list_beq_iff v x, list_beq_iff x v, contains-push vs x v),
  push-Distinct vs x (ground arith) d,
)

-- A validator that is bonded has the minimal stake at least, and from then on stands among the
-- bonded validators, once and in order, with its stake in the total bond. Nothing else changes.
pub bond-IsValid :
    (s s' : Staking) (v : Bytes)
    → IsValid s
    → bond s v ≡ (s', ok tt)
    → IsValid s'
      × (contains s'.bonded v ≡ true)
      × (32 ≤ power s v)
      × (s'.total_bond ≡ (s.total_bond + power s v) % u128_mod)
      × (s' ≡ record s { bonded = s'.bonded; total_bond = s'.total_bond })
unfolding bond add_u128 get_stake
bond-IsValid s s' v valid h = elim (Bool-cases (contains s.bonded v)) [
  | inl already ↦ ground arith
  | inr new ↦ elim (Option-cases (get_stake s v)) [
    | inl unknown ↦ ground arith
    | inr (stake, known) ↦
        let e : s' ≡ record s {
          bonded = sort (push s.bonded v);
          total_bond = add_u128 s.total_bond stake;
        } =
          ground arith in
        let amount : power s v ≡ stake = ground arith in
        let weights = total-sort (power s) (push s.bonded v) in
        let more = total-push (power s) s.bonded v in
        rw e (
          record {
            sorted = sort-IsSorted (push s.bonded v);
            distinct =
                sort-Distinct (push s.bonded v) (push-Distinct s.bonded v new valid.distinct);
            total_bond = omega (arith, valid.total_bond, weights, more, amount);
          },
          ground (
            arith,
            contains-sort v (push s.bonded v),
            contains-push s.bonded v v,
            list_beq_iff v v,
          ),
          ground arith,
          omega (arith, amount),
          refl,
        )
  ]
]

sum_u128-push :
    (s : Staking) (ds : List String) (d : String)
    → sum_u128 (stakes_of s (push ds d)) ≡ (sum_u128 (stakes_of s ds) + stake_of s d) % u128_mod
unfolding add_u128
sum_u128-push s [] d = omega arith
sum_u128-push s (x ∷ ds) d = omega (arith, sum_u128-push s ds d)

-- A delegation raises the voting power of its validator by the stake of the delegator, whether the
-- validator is bonded or not, and leaves the total bond, of which the quorums are a part, as it is.
pub delegate_to_power :
    (s s' : Staking) (staker : String) (v : Bytes)
    → delegate_to s staker v ≡ (s', ok tt)
    → (power s' v ≡ (power s v + stake_of s staker) % u128_mod)
      × (s'.bonded ≡ s.bonded)
      × (s'.total_bond ≡ s.total_bond)
unfolding delegate_to get_stake
delegate_to_power s s' staker v h = elim (Bool-cases (is_delegated s.delegations staker)) [
  | inl twice ↦ ground arith
  | inr once ↦
      let ds = or_nobody (get s.delegations v) in
      let e : s' ≡ record s { delegations = insert s.delegations v (push ds staker) } =
        ground arith in
      let found : get (insert s.delegations v (push ds staker)) v ≡ some (push ds staker) =
        ground (arith, get-insert s.delegations v v (push ds staker), list_beq_iff v v) in
      let grows = sum_u128-push s ds staker in
      rw e (elim (Option-cases (get s.delegations v)) [
        | inl none_yet ↦ (ground (arith, found, grows), refl, refl)
        | inr (old, known) ↦ (ground (arith, found, grows), refl, refl)
      ])
]
