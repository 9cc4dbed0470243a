-- ===== src/Node/Settlement.antt =====
-- node_state.rs: `process_proof` and `settle_blobs_recursively`, which look for proofs of the blobs
-- of a transaction that fit one after the other. The messages that are logged are the constructors
-- of `SettleEvent`.
pub mod Outcomes
pub mod Loop
pub mod Sound
pub mod Checked
use truth_seeker.Common.{
  ℕ, suc, Bool, true, false, String, Option, none, some, List, [], ◌∷◌, ◌==◌, string_eq, list_eq,
  nat_eq, not, push, if◌then◌else◌, Result, ok, err, ◌>>=◌, ◌>>◌, bail_if, ok_or,
}
use truth_seeker.Common.Maps.{get, insert}
use truth_seeker.Sdk.Types.{
  Bytes, Blob, RegisterContractEffect, OnchainEffect, register_contract, delete_contract,
  TimeoutWindow, HyleOutput,
}
use truth_seeker.Node.Types.{Contract, UnsettledBlobMetadata, Decoders}
use truth_seeker.Node.Registration.{
  validate_contract_name_registration, validate_state_commitment_size,
  validate_contract_registration_metadata,
}
use truth_seeker.Node.Changes.{
  SideEffect, register, update_state, delete, all_fields, no_fields, ModifiedContractData,
  Contracts, Changes, SettleError, metadata_not_decoded, initial_state_mismatch,
  program_id_mismatch, state_read_mismatch, registering, get_contract,
}
use truth_seeker.Node.Tld.{handle_blob_for_hyle_tld}

unfoldable pub check_state_reads :
    Contracts → Changes → List (String × Bytes) → Result SettleError Unit
check_state_reads contracts changes [] = ok tt
check_state_reads contracts changes ((name, state) ∷ reads) = do
  contract ← get_contract contracts changes name
  bail_if (not (state == contract.state)) state_read_mismatch
  check_state_reads contracts changes reads

abbrev or_window : Option TimeoutWindow → TimeoutWindow → TimeoutWindow
or_window none w = w
or_window (some w) _ = w

abbrev registered_by : Contract → RegisterContractEffect → Contract
registered_by contract effect = record {
  name = effect.contract_name;
  program_id = effect.program_id;
  state = effect.state_commitment;
  verifier = effect.verifier;
  timeout_window = or_window effect.timeout_window contract.timeout_window;
}

abbrev deleted : Option ModifiedContractData → ModifiedContractData
deleted none = (none, all_fields, delete ∷ [])
deleted (some (contract, fields, effects)) = (none, fields, push effects delete)

-- The generic update of the state, under the name that the contract itself has.
unfoldable pub update_contract_state : Contract → Bytes → Changes → Changes
update_contract_state contract next changes = elim (get changes contract.name) [
  | none ↦ insert changes contract.name (
    some (record contract { state = next }),
    record no_fields { state = true },
    update_state ∷ [],
  )
  | some (none, fields, effects) ↦ changes
  | some (some c, fields, effects) ↦
      insert changes contract.name (
        some (record c { state = next }),
        record fields { state = true },
        push effects update_state,
      )
]

pub record SettlementResult : Type 0 where
  pub contract_changes : Changes
  pub blob_proof_output_indices : List ℕ

pub data SettleEvent : Type 0 where
  hyle_not_settled : SettleError → SettleEvent
  proof_not_settled : ℕ → String → SettleError → SettleEvent
  proven_failure : ℕ → Bytes → SettleEvent

-- `none` if the transaction is not ready, `err tt` if it is settled as failed; and the events.
abbrev pub Settled : Type 0
Settled = Option (Result Unit SettlementResult) × List SettleEvent

module _ (valid_program : String → Bytes → Bool) (decoders : Decoders) (contracts : Contracts) where
  -- One round of the loop over the effects.
  unfoldable pub apply_effect :
      Contract → Bytes → Changes → OnchainEffect → Result SettleError Changes
  apply_effect contract payload changes (register_contract effect) = do
    registering (
        validate_contract_registration_metadata valid_program contract.name effect.contract_name
          effect.verifier effect.program_id effect.state_commitment)
    metadata ← ok_or (decoders.register payload) metadata_not_decoded
    ok (
        insert changes effect.contract_name (
          some (registered_by contract effect),
          all_fields,
          register metadata.parameters.constructor_metadata ∷ [],
        ))
  apply_effect contract payload changes (delete_contract name) = do
    registering (validate_contract_name_registration contract.name name)
    ok (insert changes name (deleted (get changes name)))

  unfoldable pub apply_effects :
      Contract → Bytes → Changes → List OnchainEffect → Result SettleError Changes
  apply_effects contract payload changes [] = ok changes
  apply_effects contract payload changes (effect ∷ effects) = do
    changes' ← apply_effect contract payload changes effect
    apply_effects contract payload changes' effects

  unfoldable pub process_proof :
      Changes → String → Bytes × HyleOutput → Blob → Result SettleError Changes
  process_proof changes name (program_id, output) blob = do
    registering (validate_state_commitment_size output.next_state)
    contract ← get_contract contracts changes name
    bail_if (not (output.initial_state == contract.state)) initial_state_mismatch
    bail_if (not (program_id == contract.program_id)) program_id_mismatch
    check_state_reads contracts changes output.state_reads
    changes' ← apply_effects contract blob.payload changes output.onchain_effects
    ok (update_contract_state contract output.next_state changes')

  -- The loop over the proofs of a blob, the first of which has the index `i`. `rest` settles the
  -- blobs that follow.
  unfoldable pub try_proofs :
      (Changes → List ℕ → List SettleEvent → Settled)
      → Changes
      → List ℕ
      → Blob
      → ℕ
      → List (Bytes × HyleOutput)
      → List SettleEvent
      → Settled
  try_proofs rest changes indices blob i [] events = (none, events)
  try_proofs rest changes indices blob i (p ∷ ps) events =
      elim (process_proof changes blob.contract_name p blob) [
        | err e ↦
            try_proofs rest changes indices blob (suc i) ps
              (push events (proof_not_settled i blob.contract_name e))
        | ok changes' ↦ elim (p.1).success [
          | false ↦ (some (err tt), push events (proven_failure i (p.1).program_outputs))
          | true ↦
              let (result, events') = rest changes' (push indices i) events in
              elim result [
                | some r ↦ (some r, events')
                | none ↦ try_proofs rest changes indices blob (suc i) ps events'
              ]
        ]
      ]

  unfoldable pub settle_blob :
      (Changes → List ℕ → List SettleEvent → Settled)
      → UnsettledBlobMetadata
      → Changes
      → List ℕ
      → List SettleEvent
      → Settled
  settle_blob rest metadata changes indices events =
      if metadata.blob.contract_name == "hyle"
      then elim (handle_blob_for_hyle_tld valid_program decoders contracts changes metadata.blob) [
        | ok changes' ↦ rest changes' (push indices 0) events
        | err e ↦ (some (err tt), push events (hyle_not_settled e))
      ]
      else try_proofs rest changes indices metadata.blob 0 metadata.possible_proofs events

  unfoldable pub settle_blobs_recursively :
      List UnsettledBlobMetadata → Changes → List ℕ → List SettleEvent → Settled
  settle_blobs_recursively [] changes indices events = (
    some (ok (record { contract_changes = changes; blob_proof_output_indices = indices })),
    events,
  )
  settle_blobs_recursively (metadata ∷ blobs) changes indices events =
      settle_blob (settle_blobs_recursively blobs) metadata changes indices events
