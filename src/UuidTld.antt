-- ===== src/UuidTld.antt =====
-- manual_Scaffold/hyli/crates/contracts/uuid-tld/src/lib.rs: the contract that gives out UUIDs as
-- names, and registers a contract under a name for the identity that claimed it.
-- The crates that hash and draw a UUID, that read one, and borsh are third-party code: `draw`,
-- `parse_uuid`, `serialize` and the decoders are arguments. An `unwrap()` of nothing is `panicked`.
mod Claims
use Prim.Native.String.{String, ◌++◌}
use truth_seeker.Common.{
  ℕ, Bool, true, false, Option, none, some, List, [], ◌∷◌, ◌==◌, string_eq, nat_eq, ◌||◌, is_some,
  if◌then◌else◌, Result, ok, err,
}
use truth_seeker.Common.Maps.{Map, get, insert, contains_key}
use truth_seeker.Sdk.Types.{Bytes, TxContext, Calldata, OnchainEffect, register_contract, blob_at}
use truth_seeker.Sdk.Context.{Borsh, SdkError, ExecutionContext, parse_raw_calldata, parse_calldata}
use truth_seeker.Node.Types.{RegisterContractAction}
use truth_seeker.Node.Outputs.{effect_of}
use truth_seeker.Node.Registration.{split_once}

pub data UuidTldAction : Type 0 where
  claim : UuidTldAction

-- the UUIDs, as `u128`, with the identities that claimed them
pub record UuidTld : Type 0 where
  pub registered_contracts : Map ℕ String

pub data Error : Type 0 where
  invalid_identity missing_tx_context already_registered : Error
  claimed_by_other not_claimed invalid_uuid unknown_action : Error

pub data Reply : Type 0 where
  claimed registered : ℕ → Reply

pub data Outcome : Type 0 where
  returned : Result Error (Reply × ExecutionContext × List OnchainEffect) → Outcome
  panicked : Outcome

-- `ends_with(…)`
unfoldable pub ends_with : String → String → Bool
ends_with String.[] t = String.[] == t
ends_with (String.◌∷◌ c s) t = String.◌∷◌ c s == t || ends_with s t

-- `split('.')`, its first piece
abbrev pub first_part : String → String
first_part name = elim (split_once name) [ none ↦ name | some (part, _) ↦ part ]

unfoldable pub check_claim : UuidTld → ℕ → String → Result Error Unit
check_claim s uuid identity = elim (get s.registered_contracts uuid) [
  | none ↦ err not_claimed
  | some claimer ↦ if claimer == identity then ok tt else err claimed_by_other
]

module _ (serialize : UuidTld → Bytes) (draw : Bytes → String → String → ℕ → ℕ)
    (parse_uuid : String → Option ℕ) where
  abbrev pub claim_id : UuidTld → ℕ → String → UuidTld × Result Error ℕ
  claim_id s id identity =
      if contains_key s.registered_contracts id
      then (s, err already_registered)
      else (record { registered_contracts = insert s.registered_contracts id identity }, ok id)

  unfoldable pub claim_contract : UuidTld → Calldata → UuidTld × Result Error ℕ
  claim_contract s calldata = elim calldata.tx_ctx [
    | none ↦ (s, err missing_tx_context)
    | some tx_ctx ↦
        claim_id s (draw (serialize s) calldata.tx_hash tx_ctx.block_hash tx_ctx.timestamp)
          calldata.identity
  ]

  abbrev pub answer_claim : ExecutionContext → UuidTld × Result Error ℕ → UuidTld × Outcome
  answer_claim ctx (s, err e) = (s, returned (err e))
  answer_claim ctx (s, ok id) = (s, returned (ok (claimed id, ctx, [])))

  abbrev pub answer_register :
      ExecutionContext → RegisterContractAction → ℕ → Result Error Unit → Outcome
  answer_register ctx action uuid (err e) = returned (err e)
  answer_register ctx action uuid (ok _) =
      returned (ok (registered uuid, ctx, register_contract (effect_of action) ∷ []))

  unfoldable pub run_register :
      UuidTld → Calldata → RegisterContractAction → ExecutionContext → Outcome
  run_register s calldata action ctx = elim (parse_uuid (first_part action.contract_name)) [
    | none ↦ returned (err invalid_uuid)
    | some uuid ↦ answer_register ctx action uuid (check_claim s uuid calldata.identity)
  ]

  module _ (claims : Borsh UuidTldAction) (registrations : Borsh RegisterContractAction) where
    unfoldable pub run_action : UuidTld → Calldata → UuidTld × Outcome
    run_action s calldata = elim (parse_raw_calldata claims calldata) [
      | ok (action, ctx) ↦ answer_claim ctx (claim_contract s calldata)
      | err _ ↦ elim (parse_calldata registrations calldata) [
        | ok (action, ctx) ↦ (s, run_register s calldata action ctx)
        | err _ ↦ (s, returned (err unknown_action))
      ]
    ]

    unfoldable pub execute : UuidTld → Calldata → UuidTld × Outcome
    execute s calldata = elim (blob_at calldata.blobs calldata.index) [
      | none ↦ (s, panicked)
      | some blob ↦
          if ends_with calldata.identity ("@" ++ blob.contract_name)
          then (s, returned (err invalid_identity))
          else run_action s calldata
    ]
