-- ===== src/Node/Effects.antt =====
-- `on_settled_blob_tx` of node_state.rs: what a settled transaction does to the contracts, to the
-- other unsettled transactions and to the block, and which transactions are to be tried next.
pub mod Left
pub mod Nukes
use truth_seeker.Common.{
  ℕ, zero, suc, Bool, true, false, String, Option, none, some, List, [], ◌∷◌, ◌==◌, string_eq,
  nat_eq, not, push, nth, length, if◌then◌else◌, Result, ok, err,
}
use truth_seeker.Common.Maps.{Map, get, insert, remove, contains_key}
use truth_seeker.Common.Sorted.{add_to, add_all, put, put_all}
use truth_seeker.Sdk.Types.{Bytes, HyleOutput, RegisterContractEffect}
use truth_seeker.Staking.{StakingAction}
use truth_seeker.Node.Types.{Contract, UnsettledBlobMetadata, UnsettledBlobTransaction, Decoders}
use truth_seeker.Node.Changes.{
  SideEffect, register, update_state, update_program_id, update_timeout_window, delete,
  ModifiedContractFields, ModifiedContractData, Contracts, Changes,
}
use truth_seeker.Node.Orders.{OrderedTxMap, get_next_unsettled_tx, remove_tx}
use truth_seeker.Node.Settlement.{SettlementResult}
use truth_seeker.Node.Store.{NodeStateStore}
use truth_seeker.Node.Proofs.{Block, new_proof, settled, settled_as_failed, timed_out, add_event}

-- The borsh decoders of `StructuredBlobData` for the actions that a settlement reads: the `txs` of a
-- `NukeTxAction`, in the order of the hashes, and the actions of the contract `staking`.
pub record Readers : Type 0 where
  pub nuke_txs : Bytes → Option (Map String (List HyleOutput))
  pub staking_action : Bytes → Option StakingAction

-- The first transactions in the queues of the contracts of the blobs.
unfoldable pub next_of : OrderedTxMap → Map ℕ UnsettledBlobMetadata → List String
next_of m [] = []
next_of m ((i, metadata) ∷ blobs) =
    let rest = next_of m blobs in
    elim (get_next_unsettled_tx m metadata.blob.contract_name) [
      | none ↦ rest
      | some hash ↦ add_to hash rest
    ]

abbrev pub fail_tx : Block → String → Block
fail_tx block hash =
    let block' = add_event block hash settled_as_failed in
    record block' { failed_txs = push block'.failed_txs hash }

abbrev pub succeed_tx : Block → String → Block
succeed_tx block hash = record block { successful_txs = push block.successful_txs hash }

abbrev pub time_out_tx : Block → String → UnsettledBlobTransaction → Block
time_out_tx block hash tx =
    let block' = add_event block hash timed_out in
    record block' {
      dp_parent_hashes = insert block'.dp_parent_hashes hash tx.parent_dp_hash;
      lane_ids = insert block'.lane_ids hash (tx.tx_context).lane_id;
    }

module _ (readers : Readers) where
  abbrev pub nukes_of : UnsettledBlobMetadata → Map String (List HyleOutput)
  nukes_of metadata = elim (readers.nuke_txs metadata.blob.payload) [ none ↦ [] | some txs ↦ txs ]

  abbrev pub note_staking : Block → String → UnsettledBlobMetadata → Block
  note_staking block identity metadata =
      if metadata.blob.contract_name == "staking"
      then elim (readers.staking_action metadata.blob.payload) [
        | none ↦ block
        | some action ↦ record block {
          staking_actions = push block.staking_actions (identity, action);
        }
      ]
      else block

  -- the loop over the blobs, with the transactions to nuke
  unfoldable pub note_blobs :
      String
      → String
      → List ℕ
      → Map ℕ UnsettledBlobMetadata
      → Block
      → Map String (List HyleOutput)
      → Block × Map String (List HyleOutput)
  note_blobs hash identity indices [] block nukes = (block, nukes)
  note_blobs hash identity indices ((i, metadata) ∷ blobs) block nukes =
      let block' = record block {
        verified_blobs = push block.verified_blobs (hash, i, nth indices i);
      } in
      note_blobs hash identity indices blobs (note_staking block' identity metadata)
        (put_all nukes (nukes_of metadata))

-- The metadata of the first registration among the side effects.
abbrev pub metadata_of : List SideEffect → Option Bytes
metadata_of [] = none
metadata_of (register m ∷ effects) = m
metadata_of (update_state ∷ effects) = metadata_of effects
metadata_of (update_program_id ∷ effects) = metadata_of effects
metadata_of (update_timeout_window ∷ effects) = metadata_of effects
metadata_of (delete ∷ effects) = metadata_of effects

abbrev pub registration_of : String → Contract → RegisterContractEffect
registration_of name contract = record {
  verifier = contract.verifier;
  program_id = contract.program_id;
  state_commitment = contract.state;
  contract_name = name;
  timeout_window = some contract.timeout_window;
}

unfoldable pub note_registration :
    String → String → Contract → List SideEffect → Contracts → Block → Block
note_registration hash name contract effects contracts block =
    if contains_key contracts name then block else record block {
      registered_contracts =
          insert block.registered_contracts name
            (hash, registration_of name contract, metadata_of effects);
      deleted_contracts = remove block.deleted_contracts name;
    }

-- The fields that have changed.
unfoldable pub note_fields : Contract → ModifiedContractFields → Block → Block
note_fields contract fields block = record block {
  updated_states =
      if fields.state
      then insert block.updated_states contract.name contract.state
      else block.updated_states;
  updated_program_ids =
      if fields.program_id
      then insert block.updated_program_ids contract.name contract.program_id
      else block.updated_program_ids;
  updated_timeout_windows =
      if fields.timeout_window
      then insert block.updated_timeout_windows contract.name contract.timeout_window
      else block.updated_timeout_windows;
}

module _ (decoders : Decoders) where
  -- the `while let` over the queue of a contract that is deleted, on fuel; `none` if the loop does
  -- not end, which it does not when a transaction of the queue is not in the map either
  unfoldable pub time_out_all : ℕ → OrderedTxMap → Block → String → Option (OrderedTxMap × Block)
  time_out_all zero m block name = elim (get_next_unsettled_tx m name) [
    | none ↦ some (m, block)
    | some hash ↦ none
  ]
  time_out_all (suc n) m block name = elim (get_next_unsettled_tx m name) [
    | none ↦ some (m, block)
    | some hash ↦
        let (m', removed) = remove_tx decoders m hash in
        elim removed [ none ↦ none | some tx ↦ time_out_all n m' (time_out_tx block hash tx) name ]
  ]

  unfoldable pub delete_contract :
      NodeStateStore → Block → String → String → Option (NodeStateStore × Block)
  delete_contract s block hash name =
      let txs = s.unsettled_transactions in
      elim (time_out_all (length txs.map) txs block name) [
        | none ↦ none
        | some (m, block') ↦ some (
          record s { contracts = remove s.contracts name; unsettled_transactions = m },
          record block' {
            registered_contracts = remove block'.registered_contracts name;
            deleted_contracts = insert block'.deleted_contracts name hash;
          },
        )
      ]

  -- the body of the loop over the changes
  unfoldable pub apply_change :
      String
      → String × ModifiedContractData
      → NodeStateStore
      → Block
      → Option (NodeStateStore × Block)
  apply_change hash (name, (none, fields, effects)) s block = delete_contract s block hash name
  apply_change hash (name, (some contract, fields, effects)) s block = some (
    record s { contracts = insert s.contracts contract.name contract },
    note_fields contract fields (note_registration hash name contract effects s.contracts block),
  )

  unfoldable pub apply_changes :
      String → Changes → NodeStateStore → Block → Option (NodeStateStore × Block)
  apply_changes hash [] s block = some (s, block)
  apply_changes hash (change ∷ changes) s block = elim (apply_change hash change s block) [
    | none ↦ none
    | some (s', block') ↦ apply_changes hash changes s' block'
  ]

-- A failed output is set to the state that the contract has.
abbrev pub at_state : Contract → HyleOutput → HyleOutput
at_state contract output =
    if output.success
    then output
    else record output { initial_state = contract.state; next_state = contract.state }

unfoldable pub proofs_for :
    Contracts → UnsettledBlobTransaction → List HyleOutput → List (Bytes × HyleOutput)
proofs_for contracts tx [] = []
proofs_for contracts tx (output ∷ outputs) =
    let rest = proofs_for contracts tx outputs in
    elim (get tx.blobs output.index) [
      | none ↦ rest
      | some metadata ↦ elim (get contracts metadata.blob.contract_name) [
        | none ↦ rest
        | some contract ↦ (contract.program_id, at_state contract output) ∷ rest
      ]
    ]

-- the `updates`; a transaction without one is left out when they are made
unfoldable pub updates_for :
    NodeStateStore → Map String (List HyleOutput) → Map String (List (Bytes × HyleOutput))
updates_for s [] = []
updates_for s ((hash, outputs) ∷ nukes) =
    let rest = updates_for s nukes in
    elim (get (s.unsettled_transactions).map hash) [
      | none ↦ rest
      | some tx ↦ (hash, proofs_for s.contracts tx outputs) ∷ rest
    ]

abbrev pub with_output :
    UnsettledBlobTransaction → Bytes × HyleOutput → UnsettledBlobMetadata → UnsettledBlobTransaction
with_output tx (program_id, output) metadata = record tx {
  blobs =
      insert tx.blobs output.index
        (record metadata { possible_proofs = push metadata.possible_proofs (program_id, output) });
}

-- The proofs of a transaction that is forced, and whether there was one.
unfoldable pub force_proofs :
    String
    → String
    → List (Bytes × HyleOutput)
    → UnsettledBlobTransaction
    → Block
    → Bool
    → UnsettledBlobTransaction × Block × Bool
force_proofs hash by [] tx block forced = (tx, block, forced)
force_proofs hash by ((program_id, output) ∷ proofs) tx block forced =
    elim (get tx.blobs output.index) [
      | none ↦ force_proofs hash by proofs tx block forced
      | some metadata ↦
          force_proofs hash by proofs (with_output tx (program_id, output) metadata)
            (add_event block hash (new_proof output.index by output.program_outputs)) true
    ]

-- the loop over the updates, with the transactions that are forced
unfoldable pub force_all :
    String
    → Map String (List (Bytes × HyleOutput))
    → OrderedTxMap
    → Block
    → OrderedTxMap × Block × List String
force_all by [] m block = (m, block, [])
force_all by ((hash, proofs) ∷ updates) m block = elim (get m.map hash) [
  | none ↦ force_all by updates m block
  | some tx ↦
      let (tx', block', forced) = force_proofs hash by proofs tx block false in
      let (m', block'', all_forced) =
        force_all by updates (record m { map = insert m.map hash tx' }) block' in
      (m', block'', if forced then add_to hash all_forced else all_forced)
]

module _ (readers : Readers) (decoders : Decoders) where
  -- The store, the block, and the transactions to try next.
  abbrev pub Done : Type 0
  Done = NodeStateStore × Block × List String

  -- behind the loop over the changes
  unfoldable pub force_nuked :
      String → Map String (List HyleOutput) → List String → NodeStateStore × Block → Done
  force_nuked hash nukes next (s, block) =
      let (m, block', forced) =
        force_all hash (updates_for s nukes) s.unsettled_transactions block in
      (record s { unsettled_transactions = m }, succeed_tx block' hash, add_all forced next)

  unfoldable pub settle_changes :
      NodeStateStore
      → Block
      → String
      → UnsettledBlobTransaction
      → SettlementResult
      → List String
      → Option Done
  settle_changes s block hash tx r next =
      let (block', nukes) =
        note_blobs readers hash tx.identity r.blob_proof_output_indices tx.blobs
          (add_event block hash settled) [] in
      elim (apply_changes decoders hash (put_all [] r.contract_changes) s block') [
        | none ↦ none
        | some done ↦ some (force_nuked hash nukes next done)
      ]

  -- `none` if the loop over the queue of a deleted contract does not end
  unfoldable pub on_settled_blob_tx :
      NodeStateStore
      → Block
      → String
      → UnsettledBlobTransaction
      → Result Unit SettlementResult
      → Option Done
  on_settled_blob_tx s block hash tx (err _) =
      some (s, fail_tx block hash, next_of s.unsettled_transactions tx.blobs)
  on_settled_blob_tx s block hash tx (ok r) =
      settle_changes s block hash tx r (next_of s.unsettled_transactions tx.blobs)
