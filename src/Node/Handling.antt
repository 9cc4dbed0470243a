-- ===== src/Node/Handling.antt =====
-- `handle_signed_block` of node_state.rs: the timeouts of a block (`clear_timeouts`) and its
-- transactions; and the order of the transactions, of hyle-model/src/block.rs. The fields of the
-- block that is made which only copy the signed block are not modelled.
pub mod Timed
pub mod Steady
use truth_seeker.Common.{
  ℕ, ◌+◌, ◌%◌, ◌^◌, Bool, true, false, String, Option, none, some, List, [], ◌∷◌, ◌++◌, ◌==◌, map,
  string_eq, nat_eq, not, ◌&&◌, ◌||◌, push, if◌then◌else◌, Result, ok, err,
}
use truth_seeker.Common.Maps.{Map, get, insert}
use truth_seeker.Common.Sorted.{add_to}
use truth_seeker.Sdk.Types.{Bytes, Blob, BlobTransaction, TxContext}
use truth_seeker.Sdk.Secp256k1.{Secp256k1Blob}
use truth_seeker.Node.Types.{UnsettledBlobMetadata, UnsettledBlobTransaction, Decoders}
use truth_seeker.Node.Orders.{is_next_to_settle, remove_tx}
use truth_seeker.Node.Store.{NodeStateStore, drop, blobs_of}
use truth_seeker.Node.Sequencing.{
  NativeVerifier, BlobTxError, BlobTxHandled, should_settle, duplicate, handled, set_timeout,
  handle_blob_tx,
}
use truth_seeker.Node.Proofs.{
  Block, BlobProofOutput, sequenced, dropped_as_duplicate, blob_tx_error, proof_error, add_event,
  handle_blob_proof,
}
use truth_seeker.Node.Effects.{Readers, next_of, time_out_tx}
use truth_seeker.Node.Blocks.{settle_txs_until_done}

-- A proof that has not been verified, which a block may not hold, is ignored.
pub data TransactionData : Type 0 where
  blob_transaction : BlobTransaction → TransactionData
  proof_transaction : TransactionData
  verified_proof_transaction : List BlobProofOutput → TransactionData

pub record DataProposal : Type 0 where
  pub parent_data_proposal_hash : Option String
  pub txs : List TransactionData

-- Of the consensus proposal the height and the timestamp, and the hash of the block.
pub record SignedBlock : Type 0 where
  pub height : ℕ
  pub timestamp : ℕ
  pub hash : String
  pub data_proposals : List (Bytes × List DataProposal)

pub data BlockError : Type 0 where
  wrong_height : BlockError

abbrev pub hyle_testnet_chain_id : ℕ
hyle_testnet_chain_id = 0x68796C655F746573746E6574

-- The block under construction, at the start.
abbrev pub empty_block : Block
empty_block = record {
  dp_parent_hashes = [];
  lane_ids = [];
  transactions_events = [];
  blob_proof_outputs = [];
  successful_txs = [];
  failed_txs = [];
  timed_out_txs = [];
  dropped_duplicate_txs = [];
  verified_blobs = [];
  staking_actions = [];
  registered_contracts = [];
  deleted_contracts = [];
  updated_states = [];
  updated_program_ids = [];
  updated_timeout_windows = [];
}

-- The lane, the hash of the parent data proposal, the hash of the transaction, and the transaction.
abbrev pub IdTx : Type 0
IdTx = Bytes × String × String × TransactionData

-- The text of a lane, which stands for the hash of the parent of its first data proposal.
abbrev pub parent_of : (Bytes → String) → Bytes → DataProposal → String
parent_of lane_text lane_id dp = elim dp.parent_data_proposal_hash [
  | none ↦ lane_text lane_id
  | some hash ↦ hash
]

module _ (lane_text : Bytes → String) (tx_hash : TransactionData → String) where
  unfoldable pub txs_of_lane : Bytes → List DataProposal → List IdTx
  txs_of_lane lane_id [] = []
  txs_of_lane lane_id (dp ∷ dps) =
      map (λ (tx : TransactionData). (lane_id, parent_of lane_text lane_id dp, tx_hash tx, tx))
        dp.txs
      ++ txs_of_lane lane_id dps

  unfoldable pub iter_txs_with_id : List (Bytes × List DataProposal) → List IdTx
  iter_txs_with_id [] = []
  iter_txs_with_id ((lane_id, dps) ∷ lanes) = txs_of_lane lane_id dps ++ iter_txs_with_id lanes

abbrev pub labelled_by : Block → Bytes → String → String → Block
labelled_by block lane_id dp_hash hash = record block {
  lane_ids = insert block.lane_ids hash lane_id;
  dp_parent_hashes = insert block.dp_parent_hashes hash dp_hash;
}

abbrev pub context_of : SignedBlock → Bytes → TxContext
context_of signed lane_id = record {
  lane_id = lane_id;
  block_hash = signed.hash;
  block_height = signed.height;
  timestamp = signed.timestamp;
  chain_id = hyle_testnet_chain_id;
}

abbrev pub is_wrong_height : ℕ → ℕ → Bool
is_wrong_height current height =
    not (height == (current + 1) % 2 ^ 64) && not (current == 0 && height == 0)

-- The blobs of the metadata.
abbrev pub blobs_in : UnsettledBlobTransaction → List Blob
blobs_in tx = map (λ (m : UnsettledBlobMetadata). m.blob) (blobs_of tx)

-- The timeouts of those that could not be settled and are the next ones.
unfoldable pub set_timeouts : List String → NodeStateStore → NodeStateStore
set_timeouts [] s = s
set_timeouts (hash ∷ hashes) s =
    if is_next_to_settle s.unsettled_transactions hash
    then elim (get (s.unsettled_transactions).map hash) [
      | none ↦ set_timeouts hashes s
      | some tx ↦ set_timeouts hashes (set_timeout s hash (blobs_in tx))
    ]
    else set_timeouts hashes s

module _ (valid_program : String → Bytes → Bool) (readers : Readers) (decoders : Decoders) where
  -- The settlement of some transactions and the timeouts of those that it leaves.
  unfoldable pub settle_and_set :
      NodeStateStore → Block → List String → Option (NodeStateStore × Block)
  settle_and_set s block to_try =
      elim (settle_txs_until_done valid_program readers decoders s block to_try) [
        | none ↦ none
        | some (s', block', unsettlable) ↦ some (set_timeouts unsettlable s', block')
      ]

  -- the loop over the transactions that are due, with those that were still unsettled
  unfoldable pub time_out_due :
      List String → NodeStateStore → Block → Option (NodeStateStore × Block × List String)
  time_out_due [] s block = some (s, block, [])
  time_out_due (hash ∷ hashes) s block =
      let (m, removed) = remove_tx decoders s.unsettled_transactions hash in
      elim removed [
        | none ↦ time_out_due hashes s block
        | some tx ↦
            elim (settle_and_set (record s { unsettled_transactions = m })
              (time_out_tx block tx.hash tx) (next_of m tx.blobs)) [
                | none ↦ none
                | some (s', block') ↦ elim (time_out_due hashes s' block') [
                  | none ↦ none
                  | some (s'', block'', timed_out) ↦ some (s'', block'', hash ∷ timed_out)
                ]
              ]
      ]

  unfoldable pub clear_timeouts : NodeStateStore → Block → ℕ → Option (NodeStateStore × Block)
  clear_timeouts s block height =
      let (timeouts, due) = drop s.timeouts height in
      elim (time_out_due due (record s { timeouts = timeouts }) block) [
        | none ↦ none
        | some (s', block', timed_out) ↦ some (s', record block' { timed_out_txs = timed_out })
      ]

  module _ (hashed : BlobTransaction → String) (blob_hash : Blob → String)
      (decode : Bytes → Option Secp256k1Blob) (sha256 : Bytes → Bytes) (tld_pubkey : Option Bytes)
      (verify_native_impl : Blob → NativeVerifier → Option (String × Bool)) where
    -- the loop over the proven blobs, with the transactions that are to be settled
    unfoldable pub handle_proofs :
        String
        → List BlobProofOutput
        → NodeStateStore
        → Block
        → NodeStateStore × Block × List String
    handle_proofs proof_tx_hash [] s block = (s, block, [])
    handle_proofs proof_tx_hash (proof ∷ proofs) s block =
        let (m, block', r) =
          handle_blob_proof decoders blob_hash s.unsettled_transactions block proof_tx_hash proof in
        let s' : NodeStateStore = record s { unsettled_transactions = m } in
        elim r [
          | err e ↦
              handle_proofs proof_tx_hash proofs s'
                (add_event block' proof_tx_hash (proof_error proof.hyle_output.index e))
          | ok none ↦ handle_proofs proof_tx_hash proofs s' block'
          | ok (some hash) ↦
              let (s'', block'', to_try) = handle_proofs proof_tx_hash proofs s' block' in
              (s'', block'', add_to hash to_try)
        ]

    -- the result of `handle_blob_tx`
    unfoldable pub after_blob_tx :
        String
        → String
        → Result BlobTxError BlobTxHandled
        → NodeStateStore
        → Block
        → Option (NodeStateStore × Block)
    after_blob_tx dp_hash hash (ok (should_settle tx)) s block = settle_and_set s block (tx ∷ [])
    after_blob_tx dp_hash hash (ok duplicate) s block =
        let block' = add_event block hash dropped_as_duplicate in
        some (
          s,
          record block' {
            dropped_duplicate_txs = push block'.dropped_duplicate_txs (dp_hash, hash);
          },
        )
    after_blob_tx dp_hash hash (ok handled) s block = some (s, add_event block hash sequenced)
    after_blob_tx dp_hash hash (err e) s block =
        let block' = add_event block hash (blob_tx_error e) in
        some (s, record block' { failed_txs = push block'.failed_txs hash })

    -- the body of the loop over the transactions
    unfoldable pub handle_tx :
        SignedBlock → IdTx → NodeStateStore → Block → Option (NodeStateStore × Block)
    handle_tx signed (lane_id, dp_hash, hash, blob_transaction tx) s block =
        let (s', r) =
          handle_blob_tx decoders hashed blob_hash decode sha256 tld_pubkey verify_native_impl s
            dp_hash tx (context_of signed lane_id) in
        after_blob_tx dp_hash hash r s' (labelled_by block lane_id dp_hash hash)
    handle_tx signed (lane_id, dp_hash, hash, proof_transaction) s block =
        some (s, labelled_by block lane_id dp_hash hash)
    handle_tx signed (lane_id, dp_hash, hash, verified_proof_transaction proofs) s block =
        let (s', block', to_try) =
          handle_proofs hash proofs s (labelled_by block lane_id dp_hash hash) in
        settle_and_set s' block' to_try

    unfoldable pub handle_txs :
        SignedBlock → List IdTx → NodeStateStore → Block → Option (NodeStateStore × Block)
    handle_txs signed [] s block = some (s, block)
    handle_txs signed (tx ∷ txs) s block = elim (handle_tx signed tx s block) [
      | none ↦ none
      | some (s', block') ↦ handle_txs signed txs s' block'
    ]

    -- `none` if the handling does not end
    unfoldable pub handle_signed_block :
        (Bytes → String)
        → (TransactionData → String)
        → NodeStateStore
        → SignedBlock
        → Option (NodeStateStore × Result BlockError Block)
    handle_signed_block lane_text tx_hash s signed =
        if is_wrong_height s.current_height signed.height
        then some (s, err wrong_height)
        else elim (clear_timeouts (record s { current_height = signed.height }) empty_block
            signed.height) [
              | none ↦ none
              | some (s', block) ↦
                  elim (handle_txs signed (iter_txs_with_id lane_text tx_hash signed.data_proposals)
                    s' block) [ none ↦ none | some (s'', block') ↦ some (s'', ok block') ]
            ]
