-- ===== src/Tests/SmtToken.antt =====
-- The token with accounts in a tree, on a tree that accepts every proof.
use truth_seeker.Common.{◌≡◌, refl, true, String, some, none, [], ◌∷◌, string_eq, arith, ok}
use truth_seeker.Common.Maps.{get, insert}
use truth_seeker.Sdk.Types.{Calldata}
use truth_seeker.Sdk.Context.{
  Borsh, ExecutionContext, callees_of, check_caller_callees, parse_calldata, parse_structured_blob,
}
use truth_seeker.SmtToken.{
  Account, SmtTokenAction, SmtTokenContract, SmtTokenStep, Tree, check_accounts, credit, execute,
  find_owner, pay, pop, receive, returned, set_root, spend, store_accounts, transfer,
  transfer_action, transfer_from, transfer_noverif, transferred,
}
use truth_seeker.SmtToken.Callers.{execute_any_caller}
use truth_seeker.SmtToken.Roots.{transfer_from_unverified}
use truth_seeker.SmtToken.Transfers.{IsTransfer, transfer-IsTransfer}

abbrev tree : Tree
tree = record {
  verify = λ _ _ _. some true;
  compute_root = λ _ _. some (9 ∷ []);
  compute_key = λ _. [];
  hash_of = λ a. a.balance ∷ [];
}

abbrev bob : Account
bob = record { address = "bob"; balance = 100; allowances = ("amm", 50) ∷ [] }

abbrev cy : Account
cy = record { address = "cy"; balance = 7; allowances = [] }

abbrev step : SmtTokenStep
step = record { proof = []; accounts = ("bob", bob) ∷ ("cy", cy) ∷ [] }

abbrev token : SmtTokenContract
token = record { commitment = 1 ∷ []; steps = step ∷ [] }

abbrev after : SmtTokenContract
after = record { commitment = 9 ∷ []; steps = [] }

transfer-IsTransfer_example : IsTransfer tree token after "bob" "cy" 10
unfolding transfer pop check_accounts get transfer_noverif pay credit insert receive store_accounts
    set_root
transfer-IsTransfer_example =
    transfer-IsTransfer tree token after "bob" "cy" 10 (transferred 10 "cy")
      (λ e. ground (arith, string_eq.beq_iff "bob" "cy", e)) refl

transfer_from_unverified_example :
    transfer_from tree (record token { commitment = [] }) "bob" "amm" "cy" 10
    ≡ (after, returned (ok (transferred 10 "cy")))
unfolding transfer_from pop find_owner get spend transfer_noverif insert pay credit receive
    store_accounts set_root
transfer_from_unverified_example =
    transfer_from_unverified tree token after "bob" "amm" "cy" 10 (transferred 10 "cy") [] refl

abbrev takes : SmtTokenAction
takes = transfer_action "bob" "cy" 10

-- Every blob holds the transfer.
abbrev borsh : Borsh SmtTokenAction
borsh = record {
  raw = λ _. none;
  structured = λ _. some (record { caller = none; callees = none; parameters = takes });
  header = λ _. none;
}

abbrev call_by : String → Calldata
call_by identity = record {
  tx_hash = "tx";
  identity = identity;
  blobs = (0, record { contract_name = "smt-token"; payload = [] }) ∷ [];
  tx_blob_count = 1;
  index = 0;
  tx_ctx = none;
  private_input = [];
}

abbrev context_by : String → ExecutionContext
context_by identity = record { callees_blobs = []; caller = identity; contract_name = "smt-token" }

-- The transfer, from the accounts of the step.
bob_pays : IsTransfer tree token after "bob" "cy" 10
unfolding pop get
bob_pays = record {
  steps = [];
  step = step;
  a = bob;
  b = cy;
  popped = refl;
  paying = refl;
  paid = refl;
  verified = refl;
  enough = omega arith;
  room = omega arith;
  root = refl;
  rest = refl;
}

execute_any_caller_example :
    execute tree borsh token (call_by "eve")
    ≡ (after, returned (ok (transferred 10 "cy", context_by "eve", [])))
unfolding parse_calldata parse_structured_blob check_caller_callees callees_of bob_pays
execute_any_caller_example =
    execute_any_caller tree borsh token after (call_by "eve") "bob" "cy" 10 (context_by "eve") refl
      (λ e. ground (arith, string_eq.beq_iff "bob" "cy", e)) bob_pays
