-- ===== src/Tests/Tokens.antt =====
-- The theorems on the token and the exchange at concrete inputs.
use truth_seeker.Common.{
  ℕ, ◌-◌, ◌≤◌, ◌≡◌, refl, String, Option, none, some, List, [], ◌∷◌, arith, ◌==◌, string_eq, nat_eq,
  add_u128, sub_u128, mul_u128, pair_beq, if◌then◌else◌,
}
use truth_seeker.Common.Maps.{get}
use truth_seeker.Sdk.Types.{Bytes, Blob}
use truth_seeker.Sdk.Context.{
  StructuredBlobData, Borsh, ExecutionContext, remove_first, is_in_callee_blobs,
}
use truth_seeker.Hyllar.{
  Hyllar, HyllarAction, transfer_action, transfer_from_action, transfer_from, allowance,
  execute_token_action,
}
use truth_seeker.Hyllar.Balances.{held}
use truth_seeker.Hyllar.Supply.{IsValid, execute-IsValid}
use truth_seeker.Hyllar.Moves.{moved, transfer_from_moves}
use truth_seeker.Amm.{
  Amm, AmmAction, swap, swap_valid, normalize, create_new_pair, verify_swap, swap_stored,
  swap_reserves, out_of_range, apply, check_calls, run_action,
}
use truth_seeker.Amm.Pairs.{reserves, reserves-create_new_pair}
use truth_seeker.Amm.Calls.{Paid, run_action-Paid}

abbrev bank : Hyllar
bank = record {
  total_supply = 100;
  balances = ("bob", 60) ∷ ("ann", 40) ∷ [];
  allowances = (("bob", "amm"), 50) ∷ [];
}

bank-IsValid : IsValid bank
bank-IsValid = record { conserved = refl; bounded = omega arith }

execute-IsValid_example :
    let s' = (execute_token_action bank "bob" (transfer_action "cy" 10)).0 in
    IsValid s' × (s'.total_supply ≡ 100)
execute-IsValid_example = execute-IsValid bank "bob" (transfer_action "cy" 10) bank-IsValid

transfer_from_moves_example :
    let s' = (transfer_from bank "bob" "amm" "cy" 10).0 in
    (10 ≤ 60)
    × (10 ≤ allowance bank "bob" "amm")
    × ((a : String) → held s'.balances a ≡ moved "bob" "cy" 10 a (held bank.balances a))
    × ((o p : String)
        → allowance s' o p
          ≡ allowance bank o p - (if pair_beq ("bob", "amm") (o, p) then 10 else 0))
unfolding get transfer_from
transfer_from_moves_example =
    transfer_from_moves bank "bob" "amm" "cy" 10 bank-IsValid (omega arith) refl

abbrev no_pairs : Amm
no_pairs = record { pairs = [] }

reserves-create_new_pair_example :
    reserves (create_new_pair no_pairs ("b", "a") (3, 4)).0 "b" "a" ≡ some (4, 3)
unfolding create_new_pair get normalize
reserves-create_new_pair_example =
    reserves-create_new_pair no_pairs "b" "a" 3 4 (ground (arith, string_eq.beq_iff "b" "a")) refl

abbrev exchange : Amm
exchange = record { pairs = (("a", "b"), (100, 200)) ∷ [] }

-- The tag 1 is the payment of the swap, any other one the payout.
abbrev decode : Bytes → Option (StructuredBlobData HyllarAction)
decode (n ∷ rest) = some (record {
  caller = some 0;
  callees = none;
  parameters = if n == 1 then transfer_from_action "bob" "amm" 100 else transfer_action "bob" 99;
})
decode [] = none

abbrev hyllar : Borsh HyllarAction
hyllar = record { raw = λ _. none; structured = decode; header = λ _. none }

abbrev amm : Borsh AmmAction
amm = record { raw = λ _. none; structured = λ _. none; header = λ _. none }

abbrev blob : String → ℕ → Blob
blob name tag = record { contract_name = name; payload = tag ∷ [] }

abbrev context : List Blob → ExecutionContext
context blobs = record { callees_blobs = blobs; caller = "bob"; contract_name = "amm" }

abbrev paid : List Blob
paid = blob "b" 2 ∷ blob "a" 1 ∷ []

run_action-Paid_example : Paid amm hyllar (context paid) (context []) (swap ("a", "b") (100, 99))
unfolding run_action verify_swap get normalize swap_stored check_calls remove_first
    is_in_callee_blobs apply swap_reserves add_u128 out_of_range sub_u128 mul_u128
run_action-Paid_example =
    run_action-Paid amm hyllar exchange (context paid) (context []) (swap ("a", "b") (100, 99))
      (swap_valid 100 "a" 99 "b") [] refl
