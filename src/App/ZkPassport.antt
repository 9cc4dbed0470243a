-- ===== src/App/ZkPassport.antt =====
-- app_scaffold/contracts/zkpassport/src/lib.rs: the contract that records verified humans, and its
-- `handle` in src/client/tx_executor_handler.rs.
-- A method returns the new state with its result, since what was written before an error stays.
-- The texts that are returned are the constructors of `Reply` and `Error`; `unique_id` is stored,
-- so it is the text that `format!` builds.
pub mod Verify
pub mod Invariant
pub mod Ids
use Prim.Native.String.{◌++◌, len}
use text.Mathlib.Text.{starts_with}
use truth_seeker.Common.{
  ℕ, zero, suc, ◌/◌, ◌%◌, Bool, true, false, String, Option, none, some, List, [], ◌∷◌, ◌==◌, not,
  nat_eq, string_eq, if◌then◌else◌, ltb, any, find, Result, ok, err, get_or, push,
}
use truth_seeker.Sdk.Types.{Bytes, Blob, Calldata, OnchainEffect, HyleOutput}
use truth_seeker.Sdk.Context.{Borsh, SdkError, ExecutionContext, parse_raw_calldata}
use truth_seeker.Sdk.Output.{RunResult, as_hyle_output}

pub record CompareAgeEvm : Type 0 where
  pub current_date : String
  pub min_age : ℕ
  pub max_age : ℕ

pub record BindEvmData : Type 0 where
  pub user_address : String
  pub custom_data : String

pub record CommittedInputs : Type 0 where
  pub compare_age_evm : CompareAgeEvm
  pub bind_evm : BindEvmData

pub record ZkPassportProof : Type 0 where
  pub proof : String
  pub vkey_hash : String
  pub name : String
  pub version : String
  pub committed_inputs : CommittedInputs

pub record VerifiedUser : Type 0 where
  pub unique_id : String
  pub user_address : String
  pub verified_at : String
  pub age_verified : Bool
  pub custom_data : String

pub record ZkPassport : Type 0 where
  pub verified_users : List VerifiedUser

pub data ZkPassportAction : Type 0 where
  verify_identity_action : ZkPassportProof → String → ZkPassportAction
  check_verification_action : String → ZkPassportAction

pub data Error : Type 0 where
  invalid_proof_name age_requirement_not_met invalid_user_address : Error
  bad_calldata : SdkError → Error

pub data Reply : Type 0 where
  already_verified : Reply
  verified : String → String → Reply
  is_verified : String → String → String → Reply
  is_not_verified : String → Reply

abbrev hex_digits : List String
hex_digits =
    "0" ∷ "1" ∷ "2" ∷ "3" ∷ "4" ∷ "5" ∷ "6" ∷ "7" ∷ "8" ∷ "9" ∷ "a" ∷ "b" ∷ "c" ∷ "d" ∷ "e" ∷ "f"
    ∷ []

-- The last `k` digits of `n`, in hexadecimal: `{:016x}` at `k = 16`, since a `usize` has 64 bits.
unfoldable pub hex : ℕ → ℕ → String
hex zero n = ""
hex (suc k) n = hex k (n / 16) ++ get_or hex_digits (n % 16) ""

unfoldable pub unique_id_of : String → String
unfolding hex
unique_id_of user_address = "zkp_" ++ hex 16 (len user_address)

abbrev pub is_user : String → VerifiedUser → Bool
is_user user_address u = u.user_address == user_address

unfoldable pub new_user : ZkPassportProof → VerifiedUser
new_user p = record {
  unique_id = unique_id_of p.committed_inputs.bind_evm.user_address;
  user_address = p.committed_inputs.bind_evm.user_address;
  verified_at = p.committed_inputs.compare_age_evm.current_date;
  age_verified = true;
  custom_data = p.committed_inputs.bind_evm.custom_data;
}

unfoldable pub verify_identity :
    ZkPassport → ZkPassportProof → String → ZkPassport × Result Error Reply
unfolding new_user
verify_identity s p hyli_identity =
    let user_address = p.committed_inputs.bind_evm.user_address in
    if not (p.name == "outer_evm_count_5")
    then (s, err invalid_proof_name)
    else if ltb p.committed_inputs.compare_age_evm.min_age 18
    then (s, err age_requirement_not_met)
    else if not (starts_with user_address "0x")
    then (s, err invalid_user_address)
    else if any (is_user user_address) s.verified_users
    then (s, ok already_verified)
    else (
      record { verified_users = push s.verified_users (new_user p) },
      ok (verified user_address (unique_id_of user_address)),
    )

unfoldable pub get_verified_user : ZkPassport → String → Option VerifiedUser
get_verified_user s user_address = find (is_user user_address) s.verified_users

unfoldable pub check_verification : ZkPassport → String → Result Error Reply
check_verification s user_address = elim (get_verified_user s user_address) [
  | some u ↦ ok (is_verified u.user_address u.unique_id u.verified_at)
  | none ↦ ok (is_not_verified user_address)
]

unfoldable pub execute_action : ZkPassport → ZkPassportAction → ZkPassport × Result Error Reply
execute_action s (verify_identity_action p hyli_identity) = verify_identity s p hyli_identity
execute_action s (check_verification_action user_address) = (s, check_verification s user_address)

abbrev pub Run : Type 0
Run = Result Error (Reply × ExecutionContext × List OnchainEffect)

abbrev pub with_context : ExecutionContext → Result Error Reply → Run
with_context ctx (ok reply) = ok (reply, ctx, [])
with_context ctx (err e) = err e

-- The run with its reply or error as the bytes of its text.
abbrev pub run_result : (Reply → Bytes) → (Error → Bytes) → Run → RunResult
run_result print message (ok (reply, ctx, effects)) = ok (print reply, ctx, effects)
run_result print message (err e) = err (message e)

-- the part of `execute` behind `parse_raw_calldata`
unfoldable pub dispatch :
    ZkPassport → Result SdkError (ZkPassportAction × ExecutionContext) → ZkPassport × Run
unfolding execute_action
dispatch s (err e) = (s, err (bad_calldata e))
dispatch s (ok (action, ctx)) =
    let (s', res) = execute_action s action in (s', with_context ctx res)

module _ (borsh : Borsh ZkPassportAction) where
  -- `ZkContract::execute`
  unfoldable pub execute : ZkPassport → Calldata → ZkPassport × Run
  unfolding dispatch
  execute s calldata = dispatch s (parse_raw_calldata borsh calldata)

  -- `TxExecutorHandler::handle`: the commitment before and after the run. `commit` is the borsh
  -- encoding of the state, `print` and `message` the texts of replies and errors.
  module _ (commit : ZkPassport → Bytes) (print : Reply → Bytes) (message : Error → Bytes)
      (unconsumed : List Blob → Bytes) where
    unfoldable pub handle : ZkPassport → Calldata → ZkPassport × HyleOutput
    unfolding execute
    handle s calldata =
        let (s', res) = execute s calldata in
        (
          s',
          as_hyle_output unconsumed (commit s) (commit s') calldata (run_result print message res),
        )
