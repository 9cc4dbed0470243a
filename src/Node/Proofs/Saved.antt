-- ===== src/Node/Proofs/Saved.antt =====
-- What `handle_blob_proof` of node_state.rs changes of the unsettled transactions.
use truth_seeker.Common.{
  ℕ, ◌≡◌, ap, ◌∙◌, String, Option, none, some, ◌==◌, string_eq, nat_eq, push, if◌then◌else◌, arith,
  ok, inl, inr, Option-cases, Result-cases,
}
use truth_seeker.Common.Maps.{get, insert, get-insert}
use truth_seeker.Sdk.Types.{Blob}
use truth_seeker.Node.Types.{UnsettledBlobMetadata, UnsettledBlobTransaction, Decoders}
use truth_seeker.Node.Orders.{OrderedTxMap, get_for_settlement, is_first}
use truth_seeker.Node.Outputs.{verify_hyle_output}
use truth_seeker.Node.Outputs.Verified.{IsVerified, verify-IsVerified}
use truth_seeker.Node.Proofs.{
  BlobProofOutput, Block, with_proof, labelled, save_proof, handle_blob_proof,
}

module _ (decoders : Decoders) (blob_hash : Blob → String) where
  pub record IsSaved (m m' : OrderedTxMap) (proof : BlobProofOutput) (next : Option String)
      : Type 0 where
    pub tx : UnsettledBlobTransaction
    pub metadata : UnsettledBlobMetadata
    pub found : get m.map proof.blob_tx_hash ≡ some tx
    pub verified : IsVerified decoders blob_hash tx proof.hyle_output
    pub blob : get tx.blobs proof.hyle_output.index ≡ some metadata
    pub others :
        (hash : String)
        → get m'.map hash ≡ (
            if proof.blob_tx_hash == hash
            then some (with_proof tx proof metadata)
            else get m.map hash)
    pub other_blobs :
        (i : ℕ)
        → get (with_proof tx proof metadata).blobs i ≡ (
            if proof.hyle_output.index == i
            then some (record metadata {
              possible_proofs = push metadata.possible_proofs (proof.program_id, proof.hyle_output);
            })
            else get tx.blobs i)
    pub queues : m'.tx_order ≡ m.tx_order
    pub turn : next ≡ (if is_first m tx.hash tx.blobs then some tx.hash else none)

  save_proof-IsSaved :
      (m m' : OrderedTxMap) (block block' : Block) (proof_tx_hash : String)
      (proof : BlobProofOutput) (tx : UnsettledBlobTransaction) (next : Option String)
      → get m.map proof.blob_tx_hash ≡ some tx
      → IsVerified decoders blob_hash tx proof.hyle_output
      → save_proof m block proof_tx_hash proof tx (is_first m tx.hash tx.blobs)
        ≡ (m', block', ok next)
      → IsSaved m m' proof next
  unfolding save_proof
  save_proof-IsSaved m m' block block' proof_tx_hash proof tx next found verified h =
      elim (Option-cases (get tx.blobs proof.hyle_output.index)) [
        | inl absent ↦ ground arith
        | inr (metadata, blob) ↦
            let after : m' ≡ record m {
              map = insert m.map proof.blob_tx_hash (with_proof tx proof metadata);
            } =
              ground arith in
            record {
              tx = tx;
              metadata = metadata;
              found = found;
              verified = verified;
              blob = blob;
              others = λ hash.
                  ap (λ (x : OrderedTxMap). get x.map hash) after
                  ∙ get-insert m.map proof.blob_tx_hash hash (with_proof tx proof metadata);
              other_blobs = λ i. get-insert tx.blobs proof.hyle_output.index i (record metadata {
                possible_proofs =
                    push metadata.possible_proofs (proof.program_id, proof.hyle_output);
              });
              queues = ap (λ (x : OrderedTxMap). x.tx_order) after;
              turn = ground arith;
            }
      ]

  -- A proof that is handled is for an unsettled transaction, which it has been verified against,
  -- and is put behind the proofs that its blob has; no other blob, no other transaction and no
  -- queue changes; and the transaction is to be settled next just if it is first in the queues of
  -- all of its contracts.
  pub handle-IsSaved :
      (m m' : OrderedTxMap) (block block' : Block) (proof_tx_hash : String)
      (proof : BlobProofOutput) (next : Option String)
      → handle_blob_proof decoders blob_hash m block proof_tx_hash proof ≡ (m', block', ok next)
      → IsSaved m m' proof next
  unfolding handle_blob_proof get_for_settlement
  handle-IsSaved m m' block block' proof_tx_hash proof next h =
      elim (Option-cases (get m.map proof.blob_tx_hash)) [
        | inl absent ↦ ground arith
        | inr (tx, found) ↦
            elim (Result-cases (verify_hyle_output decoders blob_hash tx proof.hyle_output)) [
              | inr (e, refused) ↦ ground arith
              | inl (tt, accepted) ↦
                  save_proof-IsSaved m m' (labelled block tx) block' proof_tx_hash proof tx next
                    found (verify-IsVerified decoders blob_hash tx proof.hyle_output accepted)
                    (ground arith)
            ]
      ]
