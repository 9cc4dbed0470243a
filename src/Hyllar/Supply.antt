-- ===== src/Hyllar/Supply.antt =====
-- The token contract neither creates nor destroys tokens.
use truth_seeker.Common.{
  ℕ, ◌≤◌, ◌<◌, ◌≡◌, String, arith, u128_mod, sub_u128, ◌⊎◌, ltb, ok, err, Option-cases, Bool-cases,
  inl, inr, string_eq, pair_eq,
}
use truth_seeker.Common.Maps.{Map, get, insert}
use truth_seeker.Hyllar.{
  Hyllar, HyllarAction, total_supply_action, balance_of_action, transfer_action,
  transfer_from_action, approve_action, allowance_action, Error, account_not_found,
  insufficient_balance, allowance_exceeded, custom, move_tokens, transfer, allowance, transfer_from,
  execute_token_action,
}
use truth_seeker.Hyllar.Balances.{sum, held, sum-move_tokens}

-- The balances add up to the supply, which fits a u128.
pub record IsValid (s : Hyllar) : Type 0 where
  pub conserved : sum s.balances ≡ s.total_supply
  pub bounded : s.total_supply < u128_mod

pub custom-IsValid : (faucet : String) → IsValid (custom faucet)
unfolding custom
custom-IsValid faucet = omega arith

abbrev pub after_move : Hyllar → String → String → ℕ → Map (String × String) ℕ → Hyllar
after_move s from to amount allowances = record s {
  balances = move_tokens from to amount s.balances;
  allowances = allowances;
}

after_move-IsValid :
    (s : Hyllar) (from to : String) (amount : ℕ) (allowances : Map (String × String) ℕ)
    → IsValid s
    → amount ≤ held s.balances from
    → IsValid (after_move s from to amount allowances)
after_move-IsValid s from to amount allowances h covered = record {
  conserved = rw (sum-move_tokens s.balances from to amount (omega arith) covered) h.conserved;
  bounded = h.bounded;
}

-- A transfer fails and changes nothing, or it moves an amount that the sender holds.
pub transfer_cases :
    (s : Hyllar) (sender recipient : String) (amount : ℕ)
    → ((e : Error) × (transfer s sender recipient amount ≡ (s, err e)))
      ⊎ ((amount ≤ held s.balances sender)
          × (transfer s sender recipient amount
              ≡ (after_move s sender recipient amount s.allowances, ok tt)))
unfolding transfer
transfer_cases s sender recipient amount = elim (Option-cases (get s.balances sender)) [
  | inl absent ↦ inl (account_not_found sender, ground arith)
  | inr (b, present) ↦ elim (Bool-cases (ltb b amount)) [
    | inl short ↦ inl (insufficient_balance, ground arith)
    | inr enough ↦ inr (ground arith, ground arith)
  ]
]

-- The same for a transfer by a spender, whose allowance must cover the amount and is lowered by it.
pub transfer_from_cases :
    (s : Hyllar) (owner spender recipient : String) (amount : ℕ)
    → ((e : Error) × (transfer_from s owner spender recipient amount ≡ (s, err e)))
      ⊎ ((amount ≤ held s.balances owner)
          × (amount ≤ allowance s owner spender)
          × (transfer_from s owner spender recipient amount ≡ (
            after_move s owner recipient amount (
                insert s.allowances (owner, spender) (sub_u128 (allowance s owner spender) amount)),
            ok tt,
          )))
unfolding transfer_from
transfer_from_cases s owner spender recipient amount = elim (Option-cases (get s.balances owner)) [
  | inl absent ↦ inl (account_not_found owner, ground arith)
  | inr (b, present) ↦ elim (Bool-cases (ltb (allowance s owner spender) amount)) [
    | inl over ↦ inl (allowance_exceeded spender owner (allowance s owner spender), ground arith)
    | inr under ↦ elim (Bool-cases (ltb b amount)) [
      | inl short ↦ inl (insufficient_balance, ground arith)
      | inr enough ↦ inr (ground arith, ground arith, ground arith)
    ]
  ]
]

pub transfer-IsValid :
    (s : Hyllar) (sender recipient : String) (amount : ℕ)
    → IsValid s
    → IsValid (transfer s sender recipient amount).0
transfer-IsValid s sender recipient amount h = elim (transfer_cases s sender recipient amount) [
  | inl (e, failed) ↦ rw failed h
  | inr (covered, moved) ↦
      rw moved (after_move-IsValid s sender recipient amount s.allowances h covered)
]

pub transfer_from-IsValid :
    (s : Hyllar) (owner spender recipient : String) (amount : ℕ)
    → IsValid s
    → IsValid (transfer_from s owner spender recipient amount).0
transfer_from-IsValid s owner spender recipient amount h =
    elim (transfer_from_cases s owner spender recipient amount) [
      | inl (e, failed) ↦ rw failed h
      | inr (covered, allowed, moved) ↦
          rw moved (after_move-IsValid s owner recipient amount _ h covered)
    ]

-- Whatever the caller and the action, the balances still add up to the supply, and the supply has
-- not changed.
pub execute-IsValid :
    (s : Hyllar) (caller : String) (action : HyllarAction)
    → IsValid s
    → let s' = (execute_token_action s caller action).0 in
      IsValid s' × (s'.total_supply ≡ s.total_supply)
unfolding execute_token_action
execute-IsValid s caller total_supply_action h = ground arith
execute-IsValid s caller (balance_of_action account) h = ground arith
execute-IsValid s caller (transfer_action recipient amount) h =
    (transfer-IsValid s caller recipient amount h, unfold transfer in ground arith)
execute-IsValid s caller (transfer_from_action owner recipient amount) h =
    (transfer_from-IsValid s owner caller recipient amount h, unfold transfer_from in ground arith)
execute-IsValid s caller (approve_action spender amount) h = ground arith
execute-IsValid s caller (allowance_action owner spender) h = ground arith
