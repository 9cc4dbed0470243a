-- ===== src/Hyllar.antt =====
-- manual_Scaffold/hyli/crates/contracts/hyllar/src/lib.rs and erc20.rs: the token contract.
-- A method that may fail returns the new state with its result. `execute_token_action` returns
-- texts, which are the constructors of `Reply`.
pub mod Balances
pub mod Supply
pub mod Moves
pub mod Actions
use truth_seeker.Common.{
  ℕ, String, Bool, true, false, Option, none, some, List, [], ◌∷◌, ltb, if◌then◌else◌, string_eq,
  pair_eq, Result, ok, err, ◌>>=◌, add_u128, sub_u128,
}
use truth_seeker.Common.Maps.{Map, get, insert}

abbrev pub faucet_id : String
faucet_id = "faucet@hydentity"

abbrev pub initial_supply : ℕ
initial_supply = 100_000_000_000_000

pub record Hyllar : Type 0 where
  pub total_supply : ℕ
  pub balances : Map String ℕ
  pub allowances : Map (String × String) ℕ

pub data HyllarAction : Type 0 where
  total_supply_action : HyllarAction
  balance_of_action : String → HyllarAction
  transfer_action : String → ℕ → HyllarAction
  transfer_from_action : String → String → ℕ → HyllarAction
  approve_action : String → ℕ → HyllarAction
  allowance_action : String → String → HyllarAction

pub data Error : Type 0 where
  account_not_found : String → Error
  insufficient_balance : Error
  allowance_exceeded : String → String → ℕ → Error

pub data Reply : Type 0 where
  supply_is : ℕ → Reply
  balance_is : String → ℕ → Reply
  transferred : ℕ → String → Reply
  transferred_from : ℕ → String → String → Reply
  approved : ℕ → String → Reply
  allowance_is : String → String → ℕ → Reply

unfoldable pub custom : String → Hyllar
custom faucet = record {
  total_supply = initial_supply;
  balances = (faucet, initial_supply) ∷ [];
  allowances = [];
}

unfoldable pub balance_of : Hyllar → String → Result Error ℕ
balance_of s account = elim (get s.balances account) [
  | some balance ↦ ok balance
  | none ↦ err (account_not_found account)
]

abbrev pub or_zero : Option ℕ → ℕ
or_zero none = 0
or_zero (some n) = n

-- `*entry(account).or_insert(0) -= amount`, and `+=`
unfoldable pub debit : String → ℕ → Map String ℕ → Map String ℕ
debit account amount m = insert m account (sub_u128 (or_zero (get m account)) amount)

unfoldable pub credit : String → ℕ → Map String ℕ → Map String ℕ
credit account amount m = insert m account (add_u128 (or_zero (get m account)) amount)

abbrev pub move_tokens : String → String → ℕ → Map String ℕ → Map String ℕ
move_tokens from to amount m = credit to amount (debit from amount m)

unfoldable pub transfer : Hyllar → String → String → ℕ → Hyllar × Result Error Unit
unfolding balance_of
transfer s sender recipient amount = elim (balance_of s sender) [
  | err e ↦ (s, err e)
  | ok sender_balance ↦
      if ltb sender_balance amount
      then (s, err insufficient_balance)
      else (record s { balances = move_tokens sender recipient amount s.balances }, ok tt)
]

unfoldable pub allowance : Hyllar → String → String → ℕ
allowance s owner spender = or_zero (get s.allowances (owner, spender))

unfoldable pub transfer_from : Hyllar → String → String → String → ℕ → Hyllar × Result Error Unit
unfolding balance_of allowance
transfer_from s owner spender recipient amount =
    let allowed = allowance s owner spender in
    elim (balance_of s owner) [
      | err e ↦ (s, err e)
      | ok owner_balance ↦
          if ltb allowed amount
          then (s, err (allowance_exceeded spender owner allowed))
          else if ltb owner_balance amount
          then (s, err insufficient_balance)
          else (
            record s {
              balances = move_tokens owner recipient amount s.balances;
              allowances = insert s.allowances (owner, spender) (sub_u128 allowed amount);
            },
            ok tt,
          )
    ]

unfoldable pub approve : Hyllar → String → String → ℕ → Hyllar
approve s owner spender amount = record s {
  allowances = insert s.allowances (owner, spender) amount;
}

abbrev pub map_ok : {A : Type 0} → (A → Reply) → Result Error A → Result Error Reply
map_ok f (ok a) = ok (f a)
map_ok f (err e) = err e

abbrev pub replying : Hyllar × Result Error Unit → Reply → Hyllar × Result Error Reply
replying (s, r) reply = (s, map_ok (λ _. reply) r)

-- `execute_token_action`, for the caller of the execution context
unfoldable pub execute_token_action : Hyllar → String → HyllarAction → Hyllar × Result Error Reply
unfolding balance_of transfer allowance transfer_from approve
execute_token_action s caller total_supply_action = (s, ok (supply_is s.total_supply))
execute_token_action s caller (balance_of_action account) =
    (s, map_ok (balance_is account) (balance_of s account))
execute_token_action s caller (transfer_action recipient amount) =
    replying (transfer s caller recipient amount) (transferred amount recipient)
execute_token_action s caller (transfer_from_action owner recipient amount) =
    replying (transfer_from s owner caller recipient amount)
      (transferred_from amount owner recipient)
execute_token_action s caller (approve_action spender amount) =
    (approve s caller spender amount, ok (approved amount spender))
execute_token_action s caller (allowance_action owner spender) =
    (s, ok (allowance_is spender owner (allowance s owner spender)))
