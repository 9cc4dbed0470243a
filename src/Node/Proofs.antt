-- ===== src/Node/Proofs.antt =====
-- `handle_blob_proof` of node_state.rs, which saves the output of a proof with the blob that it is
-- for. `Block` holds those fields of the `Block` of hyle-model/src/block.rs that it adds to; the
-- types of their entries are in hyle-model/src/node/data_availability.rs.
pub mod Saved
use truth_seeker.Common.{
  ℕ, Bool, String, Option, none, some, List, [], ◌∷◌, string_eq, nat_eq, length, push,
  if◌then◌else◌, Result, ok, err,
}
use truth_seeker.Common.Maps.{Map, get, insert}
use truth_seeker.Sdk.Types.{Bytes, Blob, HyleOutput, RegisterContractEffect, TimeoutWindow}
use truth_seeker.Staking.{StakingAction}
use truth_seeker.Node.Store.{TryError}
use truth_seeker.Node.Sequencing.{BlobTxError}
use truth_seeker.Node.Types.{UnsettledBlobMetadata, UnsettledBlobTransaction, Decoders}
use truth_seeker.Node.Orders.{OrderedTxMap, get_for_settlement}
use truth_seeker.Node.Outputs.{OutputError, verify_hyle_output}
use truth_seeker.Node.Settlement.{SettleEvent}

-- Without `original_proof_hash`, which no function of the node's state reads.
pub record BlobProofOutput : Type 0 where
  pub blob_tx_hash : String
  pub hyle_output : HyleOutput
  pub program_id : Bytes

pub record HandledBlobProofOutput : Type 0 where
  pub proof_tx_hash : String
  pub blob_tx_hash : String
  pub blob_index : ℕ
  pub contract_name : String
  pub hyle_output : HyleOutput
  pub blob_proof_output_index : ℕ

pub data ProofError : Type 0 where
  blob_tx_not_found blob_not_found : ProofError
  output_refused : OutputError → ProofError

-- The texts of the errors are constructors: that of a blob transaction, and that of a proof with the
-- index of its blob.
pub data TransactionStateEvent : Type 0 where
  sequenced : TransactionStateEvent
  blob_tx_error : BlobTxError → TransactionStateEvent
  proof_error : ℕ → ProofError → TransactionStateEvent
  new_proof : ℕ → String → Bytes → TransactionStateEvent
  settle_event : SettleEvent → TransactionStateEvent
  not_settled : TryError → TransactionStateEvent
  settled settled_as_failed timed_out dropped_as_duplicate : TransactionStateEvent

pub record Block : Type 0 where
  pub dp_parent_hashes : Map String String
  pub lane_ids : Map String Bytes
  pub transactions_events : Map String (List TransactionStateEvent)
  pub blob_proof_outputs : List HandledBlobProofOutput
  pub successful_txs : List String
  pub failed_txs : List String
  pub timed_out_txs : List String
  pub dropped_duplicate_txs : List (String × String)
  pub verified_blobs : List (String × ℕ × Option ℕ)
  pub staking_actions : List (String × StakingAction)
  pub registered_contracts : Map String (String × RegisterContractEffect × Option Bytes)
  pub deleted_contracts : Map String String
  pub updated_states : Map String Bytes
  pub updated_program_ids : Map String Bytes
  pub updated_timeout_windows : Map String TimeoutWindow

-- `entry(…).or_default()`
abbrev pub or_default : {A : Type 0} → Option (List A) → List A
or_default none = []
or_default (some xs) = xs

abbrev pub labelled : Block → UnsettledBlobTransaction → Block
labelled block tx = record block {
  dp_parent_hashes = insert block.dp_parent_hashes tx.hash tx.parent_dp_hash;
  lane_ids = insert block.lane_ids tx.hash (tx.tx_context).lane_id;
}

abbrev pub add_event : Block → String → TransactionStateEvent → Block
add_event block hash event = record block {
  transactions_events =
      insert block.transactions_events hash
        (push (or_default (get block.transactions_events hash)) event);
}

abbrev pub add_output : Block → HandledBlobProofOutput → Block
add_output block output = record block { blob_proof_outputs = push block.blob_proof_outputs output }

abbrev pub with_proof :
    UnsettledBlobTransaction → BlobProofOutput → UnsettledBlobMetadata → UnsettledBlobTransaction
with_proof tx proof metadata = record tx {
  blobs = insert tx.blobs proof.hyle_output.index (record metadata {
    possible_proofs = push metadata.possible_proofs (proof.program_id, proof.hyle_output);
  });
}

-- The transactions, the block, and the transaction to settle if it is its turn.
abbrev pub Handled : Type 0
Handled = OrderedTxMap × Block × Result ProofError (Option String)

-- `handle_blob_proof` from the `get_mut` on
unfoldable pub save_proof :
    OrderedTxMap → Block → String → BlobProofOutput → UnsettledBlobTransaction → Bool → Handled
save_proof m block proof_tx_hash proof tx should_settle_tx =
    elim (get tx.blobs proof.hyle_output.index) [
      | none ↦ (m, block, err blob_not_found)
      | some metadata ↦ (
        record m { map = insert m.map proof.blob_tx_hash (with_proof tx proof metadata) },
        add_output
            (add_event block proof.blob_tx_hash
              (new_proof proof.hyle_output.index proof_tx_hash proof.hyle_output.program_outputs))
            (record {
              proof_tx_hash = proof_tx_hash;
              blob_tx_hash = tx.hash;
              blob_index = proof.hyle_output.index;
              contract_name = metadata.blob.contract_name;
              hyle_output = proof.hyle_output;
              blob_proof_output_index = length metadata.possible_proofs;
            }),
        ok (if should_settle_tx then some tx.hash else none),
      )
    ]

module _ (decoders : Decoders) (blob_hash : Blob → String) where
  unfoldable pub handle_blob_proof : OrderedTxMap → Block → String → BlobProofOutput → Handled
  handle_blob_proof m block proof_tx_hash proof = elim (get_for_settlement m proof.blob_tx_hash) [
    | none ↦ (m, block, err blob_tx_not_found)
    | some (tx, should_settle_tx) ↦
        elim (verify_hyle_output decoders blob_hash tx proof.hyle_output) [
          | err e ↦ (m, labelled block tx, err (output_refused e))
          | ok _ ↦ save_proof m (labelled block tx) proof_tx_hash proof tx should_settle_tx
        ]
  ]
