-- ===== src/Node/Handling/Steady.antt =====
-- The unsettled transactions of node_state.rs and `handle_signed_block`.
use truth_seeker.Common.{
  ◌≡◌, refl, ap, Bool, String, Option, some, List, [], ◌∷◌, string_eq, nat_eq, push, arith, Result,
  ok, err, Bool-cases, Option-cases, Result-cases, inl, inr,
}
use truth_seeker.Common.Maps.{get}
use truth_seeker.Sdk.Types.{Bytes, Blob, BlobTransaction, TxContext}
use truth_seeker.Sdk.Secp256k1.{Secp256k1Blob}
use truth_seeker.Node.Types.{UnsettledBlobTransaction, Decoders}
use truth_seeker.Node.Orders.{OrderedTxMap, is_next_to_settle, get_for_settlement, add}
use truth_seeker.Node.Orders.Arrivals.{lookup}
use truth_seeker.Node.Orders.Refines.{add-Models, add-known}
use truth_seeker.Node.Orders.Replacing.{blocked_by-insert}
use truth_seeker.Node.Outputs.{verify_hyle_output}
use truth_seeker.Node.Store.{NodeStateStore, get_tx_timeout_window}
use truth_seeker.Node.Sequencing.{
  NativeVerifier, BlobTxError, BlobTxHandled, should_settle, duplicate, handled, check_blob_tx,
  sequence_tx, handle_blob_tx,
}
use truth_seeker.Node.Proofs.{
  Block, BlobProofOutput, proof_error, add_event, with_proof, labelled, save_proof,
  handle_blob_proof,
}
use truth_seeker.Node.Effects.{Readers}
use truth_seeker.Node.Effects.Left.{forced-Left}
use truth_seeker.Node.Handling.Timed.{
  set_window-unsettled, Steady, settle_and_set-Steady, clear_timeouts-Steady,
}
use truth_seeker.Node.Handling.{
  TransactionData, blob_transaction, proof_transaction, verified_proof_transaction, SignedBlock,
  BlockError, wrong_height, IdTx, handle_proofs, after_blob_tx, context_of, handle_tx, handle_txs,
  is_wrong_height, iter_txs_with_id, empty_block, handle_signed_block,
}

module _ (valid_program : String → Bytes → Bool) (readers : Readers) (decoders : Decoders) where
  get_for_settlement-get :
      (m : OrderedTxMap) (hash : String) (r : UnsettledBlobTransaction × Bool)
      → get_for_settlement m hash ≡ some r
      → get m.map hash ≡ some r.0
  unfolding get_for_settlement
  get_for_settlement-get m hash r h = elim (Option-cases (get m.map hash)) [
    | inl absent ↦ ground arith
    | inr (tx, found) ↦ ground arith
  ]

  save_proof-Steady :
      (m : OrderedTxMap) (block : Block) (by : String) (proof : BlobProofOutput)
      (tx : UnsettledBlobTransaction) (should_settle_tx : Bool)
      → Steady decoders m
      → get m.map proof.blob_tx_hash ≡ some tx
      → Steady decoders (save_proof m block by proof tx should_settle_tx).0
  unfolding save_proof
  save_proof-Steady m block by proof tx should_settle_tx h found =
      elim (Option-cases (get tx.blobs proof.hyle_output.index)) [
        | inl absent ↦ rw (absent, save_proof) h
        | inr (metadata, there) ↦
            let l =
              forced-Left decoders m h.txs proof.blob_tx_hash tx (with_proof tx proof metadata)
                h.models found refl
                (blocked_by-insert decoders tx.blobs proof.hyle_output.index metadata _ there
                  refl) in
            rw (there, save_proof) (record { txs = l.left; models = l.models })
      ]

  module _ (hashed : BlobTransaction → String) (blob_hash : Blob → String)
      (decode : Bytes → Option Secp256k1Blob) (sha256 : Bytes → Bytes) (tld_pubkey : Option Bytes)
      (verify_native_impl : Blob → NativeVerifier → Option (String × Bool)) where
    handle_blob_proof-Steady :
        (m : OrderedTxMap) (block : Block) (by : String) (proof : BlobProofOutput)
        → Steady decoders m
        → Steady decoders (handle_blob_proof decoders blob_hash m block by proof).0
    unfolding handle_blob_proof
    handle_blob_proof-Steady m block by proof h =
        elim (Option-cases (get_for_settlement m proof.blob_tx_hash)) [
          | inl absent ↦ rw (absent, handle_blob_proof) h
          | inr (r, found) ↦
              elim (Result-cases (verify_hyle_output decoders blob_hash r.0 proof.hyle_output)) [
                | inr (e, refused) ↦ rw (found, refused, handle_blob_proof) h
                | inl (u, accepted) ↦
                    rw (found, accepted, handle_blob_proof)
                      (save_proof-Steady m (labelled block r.0) by proof r.0 r.1 h
                        (get_for_settlement-get m proof.blob_tx_hash r found))
              ]
        ]

    handle_proofs-Steady :
        (by : String) (proofs : List BlobProofOutput) (s : NodeStateStore) (block : Block)
        → Steady decoders s.unsettled_transactions
        → Steady decoders
            ((handle_proofs valid_program readers decoders hashed blob_hash decode sha256 tld_pubkey
                verify_native_impl by proofs s block).0
              ).unsettled_transactions
    unfolding handle_proofs
    handle_proofs-Steady by [] s block h = h
    handle_proofs-Steady by (proof ∷ proofs) s block h =
        let x = handle_blob_proof decoders blob_hash s.unsettled_transactions block by proof in
        let s' : NodeStateStore = record s { unsettled_transactions = x.0 } in
        let k = handle_blob_proof-Steady s.unsettled_transactions block by proof h in
        elim (Result-cases x.2) [
          | inr (e, refused) ↦
              rw (refused, handle_proofs)
                (handle_proofs-Steady by proofs s'
                  (add_event x.1 by (proof_error proof.hyle_output.index e)) k)
          | inl (o, accepted) ↦ elim (Option-cases o) [
            | inl later ↦
                rw (accepted, later, handle_proofs) (handle_proofs-Steady by proofs s' x.1 k)
            | inr (hash, now) ↦
                rw (accepted, now, handle_proofs) (handle_proofs-Steady by proofs s' x.1 k)
          ]
        ]

    add-Steady :
        (m : OrderedTxMap) (tx : UnsettledBlobTransaction)
        → Steady decoders m
        → Steady decoders (add decoders m tx).0
    add-Steady m tx h = elim (Option-cases (lookup tx.hash h.txs)) [
      | inl fresh ↦ record {
        txs = push h.txs tx;
        models = (add-Models decoders m h.txs tx h.models fresh).0;
      }
      | inr (old, known) ↦ rw (ap (λ r. r.0) (add-known decoders m h.txs tx old h.models known)) h
    ]

    sequence_tx-Steady :
        (s : NodeStateStore) (tx : BlobTransaction) (unsettled : UnsettledBlobTransaction)
        (should_try : Bool)
        → Steady decoders s.unsettled_transactions
        → Steady decoders
            ((sequence_tx decoders hashed blob_hash decode sha256 tld_pubkey verify_native_impl s tx
                unsettled should_try).0
              ).unsettled_transactions
    unfolding sequence_tx
    sequence_tx-Steady s tx unsettled should_try h =
        let x = add decoders s.unsettled_transactions unsettled in
        let s' : NodeStateStore = record s { unsettled_transactions = x.0 } in
        let k = add-Steady s.unsettled_transactions unsettled h in
        elim (Option-cases x.1) [
          | inl known ↦ rw (known, sequence_tx) k
          | inr (is_first, fresh) ↦ elim (Bool-cases (is_next_to_settle x.0 (hashed tx))) [
            | inr later ↦ rw (fresh, later, sequence_tx) k
            | inl next ↦
                rw
                  (
                    fresh,
                    next,
                    sequence_tx,
                    set_window-unsettled s' (hashed tx) (get_tx_timeout_window s' tx.blobs),
                  )
                  k
          ]
        ]

    handle_blob_tx-Steady :
        (s : NodeStateStore) (dp_hash : String) (tx : BlobTransaction) (ctx : TxContext)
        → Steady decoders s.unsettled_transactions
        → Steady decoders
            ((handle_blob_tx decoders hashed blob_hash decode sha256 tld_pubkey verify_native_impl s
                dp_hash tx ctx).0
              ).unsettled_transactions
    unfolding handle_blob_tx
    handle_blob_tx-Steady s dp_hash tx ctx h =
        elim (Result-cases (
          check_blob_tx decoders hashed blob_hash decode sha256 tld_pubkey verify_native_impl s
            tx)) [
              | inr (e, refused) ↦ rw (refused, handle_blob_tx) h
              | inl (u, accepted) ↦ rw (accepted, handle_blob_tx) (sequence_tx-Steady s tx _ _ h)
            ]

    -- The handling ends, in a state that is steady.
    abbrev Ends : Option (NodeStateStore × Block) → Type 0
    Ends o =
        (r : NodeStateStore × Block) × (o ≡ some r) × Steady decoders (r.0).unsettled_transactions

    after_blob_tx-Steady :
        (dp_hash hash : String) (r : Result BlobTxError BlobTxHandled) (s : NodeStateStore)
        (block : Block)
        → Steady decoders s.unsettled_transactions
        → Ends (
            after_blob_tx valid_program readers decoders hashed blob_hash decode sha256 tld_pubkey
              verify_native_impl dp_hash hash r s block)
    unfolding after_blob_tx
    after_blob_tx-Steady dp_hash hash (ok (should_settle tx)) s block h =
        settle_and_set-Steady valid_program readers decoders s block (tx ∷ []) h
    after_blob_tx-Steady dp_hash hash (ok duplicate) s block h = (_, refl, h)
    after_blob_tx-Steady dp_hash hash (ok handled) s block h = (_, refl, h)
    after_blob_tx-Steady dp_hash hash (err e) s block h = (_, refl, h)

    handle_tx-Steady :
        (signed : SignedBlock) (tx : IdTx) (s : NodeStateStore) (block : Block)
        → Steady decoders s.unsettled_transactions
        → Ends (
            handle_tx valid_program readers decoders hashed blob_hash decode sha256 tld_pubkey
              verify_native_impl signed tx s block)
    unfolding handle_tx
    handle_tx-Steady signed (lane_id, dp_hash, hash, blob_transaction tx) s block h =
        after_blob_tx-Steady dp_hash hash _ _ _
          (handle_blob_tx-Steady s dp_hash tx (context_of signed lane_id) h)
    handle_tx-Steady signed (lane_id, dp_hash, hash, proof_transaction) s block h = (_, refl, h)
    handle_tx-Steady signed (lane_id, dp_hash, hash, verified_proof_transaction proofs) s block h =
        settle_and_set-Steady valid_program readers decoders _ _ _
          (handle_proofs-Steady hash proofs s _ h)

    handle_txs-Steady :
        (signed : SignedBlock) (txs : List IdTx) (s : NodeStateStore) (block : Block)
        → Steady decoders s.unsettled_transactions
        → Ends (
            handle_txs valid_program readers decoders hashed blob_hash decode sha256 tld_pubkey
              verify_native_impl signed txs s block)
    unfolding handle_txs
    handle_txs-Steady signed [] s block h = ((s, block), refl, h)
    handle_txs-Steady signed (tx ∷ txs) s block h =
        let (r, done, k) = handle_tx-Steady signed tx s block h in
        let (r', done', k') = handle_txs-Steady signed txs r.0 r.1 k in
        (r', rw (done, handle_txs) done', k')

    -- A node whose map of unsettled transactions stands for a list of them, with the queues of the
    -- contracts in its order, handles every signed block in the end: there is a result, an error or
    -- the block, and the map stands for such a list again.
    pub handle_signed_block-Steady :
        (lane_text : Bytes → String) (tx_hash : TransactionData → String) (s : NodeStateStore)
        (signed : SignedBlock)
        → Steady decoders s.unsettled_transactions
        → (r : NodeStateStore × Result BlockError Block) × (handle_signed_block valid_program
              readers decoders hashed blob_hash decode sha256 tld_pubkey verify_native_impl
              lane_text tx_hash s signed
            ≡ some r)
          × Steady decoders (r.0).unsettled_transactions
    unfolding handle_signed_block
    handle_signed_block-Steady lane_text tx_hash s signed h =
        elim (Bool-cases (is_wrong_height s.current_height signed.height)) [
          | inl wrong ↦ ((s, err wrong_height), rw (wrong, handle_signed_block) refl, h)
          | inr right ↦
              let (r, done, k) =
                clear_timeouts-Steady valid_program readers decoders
                  (record s { current_height = signed.height }) empty_block signed.height h in
              let (r', done', k') =
                handle_txs-Steady signed (iter_txs_with_id lane_text tx_hash signed.data_proposals)
                  r.0 r.1 k in
              ((r'.0, ok r'.1), rw (right, done, done', handle_signed_block) refl, k')
        ]
