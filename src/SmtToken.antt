-- ===== src/SmtToken.antt =====
-- manual_Scaffold/hyli/crates/contracts/smt-token/src/lib.rs and account.rs: the token whose accounts
-- are in a sparse Merkle tree, of which the contract holds the root. The tree and its hashes are
-- third-party code, the record `Tree`; an `expect` that fails is the outcome `panicked`.
pub mod Callers
pub mod Roots
pub mod Transfers
use truth_seeker.Common.{
  ℕ, zero, suc, ◌+◌, ◌-◌, Bool, true, false, String, Option, none, some, List, [], ◌∷◌, ◌==◌,
  nat_eq, string_eq, ltb, leb, not, if◌then◌else◌, Result, ok, err, u128_mod,
}
use truth_seeker.Common.Maps.{Map, get, insert}
use truth_seeker.Sdk.Types.{Bytes, Calldata, OnchainEffect}
use truth_seeker.Sdk.Context.{Borsh, SdkError, ExecutionContext, parse_calldata}

pub record Account : Type 0 where
  pub address : String
  pub balance : ℕ
  pub allowances : Map String ℕ

-- `verify proof root leaves`, `none` for an error or a root that has not 32 bytes; `compute_root`,
-- `none` for an error; the key of an address; and the hash of an account.
pub record Tree : Type 0 where
  pub verify : Bytes → Bytes → List (Bytes × Bytes) → Option Bool
  pub compute_root : Bytes → List (Bytes × Bytes) → Option Bytes
  pub compute_key : String → Bytes
  pub hash_of : Account → Bytes

pub data SmtTokenAction : Type 0 where
  transfer_action : String → String → ℕ → SmtTokenAction
  transfer_from_action : String → String → String → ℕ → SmtTokenAction
  approve_action : String → String → ℕ → SmtTokenAction

pub record SmtTokenStep : Type 0 where
  pub proof : Bytes
  pub accounts : Map String Account

pub record SmtTokenContract : Type 0 where
  pub commitment : Bytes
  pub steps : List SmtTokenStep

pub data Error : Type 0 where
  sender_not_found recipient_not_found owner_not_found invalid_proof : Error
  insufficient_balance recipient_overflow : Error
  recipient_mismatch owner_mismatch : Error
  allowance_exceeded : String → String → ℕ → Error
  bad_calldata : SdkError → Error

pub data Reply : Type 0 where
  transferred approved : ℕ → String → Reply

pub data Outcome (A : Type 0) : Type 0 where
  returned : Result Error A → Outcome A
  panicked : Outcome A

abbrev pub zeros : ℕ → Bytes
zeros zero = []
zeros (suc n) = 0 ∷ zeros n

abbrev pub or_zero : Option ℕ → ℕ
or_zero none = 0
or_zero (some n) = n

-- `Vec::pop`
unfoldable pub pop : List SmtTokenStep → Option (List SmtTokenStep × SmtTokenStep)
pop [] = none
pop (x ∷ xs) = elim (pop xs) [ none ↦ some ([], x) | some (ys, y) ↦ some (x ∷ ys, y) ]

abbrev pub update_allowances : Account → String → ℕ → Account
update_allowances a spender amount = record a { allowances = insert a.allowances spender amount }

-- `balance.checked_sub` and `checked_add`
unfoldable pub pay : Account → ℕ → Result Error Account
pay a amount =
    if ltb a.balance amount
    then err insufficient_balance
    else ok (record a { balance = a.balance - amount })

unfoldable pub receive : Account → ℕ → Result Error Account
receive a amount =
    if leb u128_mod (a.balance + amount)
    then err recipient_overflow
    else ok (record a { balance = a.balance + amount })

module _ (tree : Tree) where
  abbrev pub get_key : Account → Bytes
  get_key a = tree.compute_key a.address

  abbrev pub to_h256 : Account → Bytes
  to_h256 a = if a.balance == 0 then zeros 32 else tree.hash_of a

  abbrev pub leaf : Account → Bytes × Bytes
  leaf a = (get_key a, to_h256 a)

  abbrev pub leaves : String → String → Account → Account → List (Bytes × Bytes)
  leaves sender recipient a b = if sender == recipient then leaf a ∷ [] else leaf a ∷ leaf b ∷ []

  abbrev pub Step : Type 0
  Step = SmtTokenContract × Outcome Reply

  -- the new root
  unfoldable pub set_root : SmtTokenContract → Bytes → List (Bytes × Bytes) → Reply → Step
  set_root c proof new_leaves reply = elim (tree.compute_root proof new_leaves) [
    | none ↦ (c, panicked)
    | some root ↦ (record c { commitment = root }, returned (ok reply))
  ]

  -- the end of `transfer_noverif`, on the accounts that it has changed
  unfoldable pub store_accounts :
      SmtTokenContract → Map String Account → Bytes → String → String → ℕ → Step
  store_accounts c accounts proof sender recipient amount = elim (get accounts sender) [
    | none ↦ (c, panicked)
    | some a ↦ elim (get accounts recipient) [
      | none ↦ (c, panicked)
      | some b ↦ set_root c proof (leaves sender recipient a b) (transferred amount b.address)
    ]
  ]

  unfoldable pub credit : SmtTokenContract → Map String Account → Bytes → String → String → ℕ → Step
  credit c accounts proof sender recipient amount = elim (get accounts recipient) [
    | none ↦ (c, panicked)
    | some b ↦ elim (receive b amount) [
      | err e ↦ (c, returned (err e))
      | ok b' ↦ store_accounts c (insert accounts recipient b') proof sender recipient amount
    ]
  ]

  unfoldable pub transfer_noverif :
      SmtTokenContract → Map String Account → Bytes → String → String → ℕ → Step
  transfer_noverif c accounts proof sender recipient amount = elim (get accounts sender) [
    | none ↦ (c, panicked)
    | some a ↦ elim (pay a amount) [
      | err e ↦ (c, returned (err e))
      | ok a' ↦ credit c (insert accounts sender a') proof sender recipient amount
    ]
  ]

  -- the tests of `transfer` on the accounts of its step
  unfoldable pub check_accounts : SmtTokenContract → SmtTokenStep → String → String → Outcome Unit
  check_accounts c step sender recipient = elim (get step.accounts sender) [
    | none ↦ returned (err sender_not_found)
    | some a ↦ elim (get step.accounts recipient) [
      | none ↦ returned (err recipient_not_found)
      | some b ↦ elim (tree.verify step.proof c.commitment (leaves sender recipient a b)) [
        | none ↦ panicked
        | some valid ↦ returned (if valid then ok tt else err invalid_proof)
      ]
    ]
  ]

  unfoldable pub transfer : SmtTokenContract → String → String → ℕ → Step
  transfer c sender recipient amount = elim (pop c.steps) [
    | none ↦ (c, panicked)
    | some (steps, step) ↦
        let c' : SmtTokenContract = record c { steps = steps } in
        elim (check_accounts c' step sender recipient) [
          | panicked ↦ (c', panicked)
          | returned (err e) ↦ (c', returned (err e))
          | returned (ok u) ↦ transfer_noverif c' step.accounts step.proof sender recipient amount
        ]
  ]

  -- the owner's account with the smaller allowance
  unfoldable pub spend : Account → String → String → ℕ → Result Error Account
  spend a owner spender amount =
      let allowance = or_zero (get a.allowances spender) in
      if not (a.address == owner)
      then err owner_mismatch
      else if ltb allowance amount
      then err (allowance_exceeded spender a.address allowance)
      else ok (update_allowances a spender (allowance - amount))

  unfoldable pub find_owner :
      Map String Account → String → String → String → ℕ → Result Error Account
  find_owner accounts owner spender recipient amount = elim (get accounts recipient) [
    | none ↦ err recipient_not_found
    | some b ↦
        if not (b.address == recipient) then err recipient_mismatch else elim (get accounts owner) [
          | none ↦ err owner_not_found
          | some a ↦ spend a owner spender amount
        ]
  ]

  -- There is no test of the proof here.
  unfoldable pub transfer_from : SmtTokenContract → String → String → String → ℕ → Step
  transfer_from c owner spender recipient amount = elim (pop c.steps) [
    | none ↦ (c, panicked)
    | some (steps, step) ↦
        let c' : SmtTokenContract = record c { steps = steps } in
        elim (find_owner step.accounts owner spender recipient amount) [
          | err e ↦ (c', returned (err e))
          | ok a ↦
              transfer_noverif c' (insert step.accounts owner a) step.proof owner recipient amount
        ]
  ]

  -- An account with no balance counts as none.
  unfoldable pub approve_account : SmtTokenContract → SmtTokenStep → Account → String → ℕ → Step
  approve_account c step a spender amount =
      elim (tree.verify step.proof c.commitment (leaf a ∷ [])) [
        | none ↦ (c, panicked)
        | some false ↦ (c, returned (err invalid_proof))
        | some true ↦
            if a.balance == 0
            then (c, returned (err owner_not_found))
            else set_root c step.proof (leaf (update_allowances a spender amount) ∷ [])
                (approved amount spender)
      ]

  unfoldable pub approve : SmtTokenContract → String → String → ℕ → Step
  approve c owner spender amount = elim (pop c.steps) [
    | none ↦ (c, panicked)
    | some (steps, step) ↦
        let c' : SmtTokenContract = record c { steps = steps } in
        elim (get step.accounts owner) [
          | none ↦ (c', returned (err owner_not_found))
          | some a ↦ approve_account c' step a spender amount
        ]
  ]

  unfoldable pub run_action : SmtTokenContract → SmtTokenAction → Step
  run_action c (transfer_action sender recipient amount) = transfer c sender recipient amount
  run_action c (transfer_from_action owner spender recipient amount) =
      transfer_from c owner spender recipient amount
  run_action c (approve_action owner spender amount) = approve c owner spender amount

  abbrev pub with_context :
      ExecutionContext → Outcome Reply → Outcome (Reply × ExecutionContext × List OnchainEffect)
  with_context ctx panicked = panicked
  with_context ctx (returned (err e)) = returned (err e)
  with_context ctx (returned (ok reply)) = returned (ok (reply, ctx, []))

  unfoldable pub execute :
      Borsh SmtTokenAction
      → SmtTokenContract
      → Calldata
      → SmtTokenContract × Outcome (Reply × ExecutionContext × List OnchainEffect)
  execute borsh c calldata = elim (parse_calldata borsh calldata) [
    | err e ↦ (c, returned (err (bad_calldata e)))
    | ok (action, ctx) ↦ let (c', outcome) = run_action c action in (c', with_context ctx outcome)
  ]
