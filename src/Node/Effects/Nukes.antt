-- ===== src/Node/Effects/Nukes.antt =====
-- Who may nuke a transaction: `validate_hyle_contract_blobs` of node_state/hyle_tld.rs and the
-- collection of nukes in `on_settled_blob_tx` of node_state.rs.
use truth_seeker.Common.{
  ℕ, ◌≡◌, ◌≢◌, refl, ap, String, Option, none, some, List, [], ◌∷◌, string_eq, nat_eq, ==_ne, arith,
  All, Bool-cases, inl, inr, ok,
}
use truth_seeker.Common.Maps.{get, get-insert}
use truth_seeker.Common.Sorted.{add_to, add_all, put, put_all}
use truth_seeker.Sdk.Types.{Bytes, Blob, BlobTransaction, HyleOutput}
use truth_seeker.Sdk.Secp256k1.{Secp256k1Blob}
use truth_seeker.Node.Types.{Contract, UnsettledBlobMetadata, UnsettledBlobTransaction, Decoders}
use truth_seeker.Node.Tld.Privileged.{validate_hyle_contract_blobs, check_blobs}
use truth_seeker.Node.Orders.{OrderedTxMap}
use truth_seeker.Node.Store.{NodeStateStore}
use truth_seeker.Node.Proofs.{Block}
use truth_seeker.Node.Effects.{
  Readers, note_blobs, at_state, proofs_for, updates_for, with_output, force_proofs, force_all,
  force_nuked,
}

index-at_state :
    (contract : Contract) (output : HyleOutput) → (at_state contract output).index ≡ output.index
index-at_state contract output = elim (Bool-cases output.success) [
  | inl success ↦ rw success refl
  | inr failure ↦ rw failure refl
]

updates-one :
    (s : NodeStateStore) (victim : String) (output : HyleOutput) (v : UnsettledBlobTransaction)
    (metadata : UnsettledBlobMetadata) (contract : Contract)
    → get (s.unsettled_transactions).map victim ≡ some v
    → get v.blobs output.index ≡ some metadata
    → get s.contracts metadata.blob.contract_name ≡ some contract
    → updates_for s ((victim, output ∷ []) ∷ [])
      ≡ (victim, (contract.program_id, at_state contract output) ∷ []) ∷ []
unfolding updates_for proofs_for
updates-one s victim output v metadata contract found there known =
    rw (found, there, known, updates_for, proofs_for) refl

forced-one :
    (m : OrderedTxMap) (block : Block) (hash victim : String) (proof : Bytes × HyleOutput)
    (v : UnsettledBlobTransaction) (metadata : UnsettledBlobMetadata)
    → get m.map victim ≡ some v
    → get v.blobs (proof.1).index ≡ some metadata
    → let r = force_all hash ((victim, proof ∷ []) ∷ []) m block in
      (get (r.0).map victim ≡ some (with_output v proof metadata)) × (r.2 ≡ victim ∷ [])
unfolding force_all force_proofs add_to
forced-one m block hash victim proof v metadata found there =
    rw (found, there, force_all, force_proofs)
      (
        ground (
          arith,
          get-insert m.map victim victim (with_output v proof metadata),
          string_eq.beq_iff victim victim,
        ),
        refl,
      )

module _ (readers : Readers) (decoders : Decoders) where
  -- The transaction that is nuked gets the proof, and is to be settled next.
  nuked :
      (s : NodeStateStore) (block : Block) (hash victim : String) (output : HyleOutput)
      (v : UnsettledBlobTransaction) (metadata : UnsettledBlobMetadata) (contract : Contract)
      → get (s.unsettled_transactions).map victim ≡ some v
      → get v.blobs output.index ≡ some metadata
      → get s.contracts metadata.blob.contract_name ≡ some contract
      → let r = force_nuked readers decoders hash ((victim, output ∷ []) ∷ []) [] (s, block) in
        (get ((r.0).unsettled_transactions).map victim
          ≡ some (with_output v (contract.program_id, at_state contract output) metadata))
        × (r.2 ≡ victim ∷ [])
  unfolding force_nuked add_to
  nuked s block hash victim output v metadata contract found there known =
      let forced =
        forced-one s.unsettled_transactions block hash victim
          (contract.program_id, at_state contract output) v metadata found
          (rw (index-at_state contract output) there) in
      rw (updates-one s victim output v metadata contract found there known)
        (forced.0, ap (λ xs. add_all xs []) forced.1)

  foreign-valid :
      (hashed : BlobTransaction → String) (decode : Bytes → Option Secp256k1Blob)
      (sha256 : Bytes → Bytes) (tld_pubkey : Option Bytes) (tx : BlobTransaction) (index : ℕ)
      (blobs : List Blob)
      → All (λ blob. blob.contract_name ≢ "hyle") blobs
      → check_blobs decoders hashed decode sha256 tld_pubkey tx index blobs ≡ ok tt
  unfolding check_blobs
  foreign-valid hashed decode sha256 tld_pubkey tx index [] other = refl
  foreign-valid hashed decode sha256 tld_pubkey tx index (blob ∷ blobs) other =
      rw (==_ne {A = String} blob.contract_name "hyle" other.0, check_blobs)
        (foreign-valid hashed decode sha256 tld_pubkey tx _ blobs other.1)

  noted :
      (hash identity : String) (index : ℕ) (indices : List ℕ) (nuking : UnsettledBlobMetadata)
      (block : Block) (victim : String) (outputs : List HyleOutput)
      → readers.nuke_txs nuking.blob.payload ≡ some ((victim, outputs) ∷ [])
      → (note_blobs readers hash identity indices ((index, nuking) ∷ []) block []).1
        ≡ (victim, outputs) ∷ []
  unfolding note_blobs put
  noted hash identity index indices nuking block victim outputs reads =
      ap (λ o. put_all [] (elim o [ none ↦ [] | some txs ↦ txs ])) reads

  -- The list of transactions to nuke is read from the blobs of every contract, while its signature is
  -- asked for only of those for `hyle`. A transaction without blobs for `hyle` passes the validation,
  -- whatever it holds and whoever sends it; and when one blob, of any contract, is settled that holds
  -- a list of one transaction with one output, this transaction, if it is unsettled and the output is
  -- for one of its blobs of a contract that exists, gets the output as a proof, on the state that the
  -- contract has if it is one of a failure, and is to be settled next.
  pub nuke_unsigned :
      (hashed : BlobTransaction → String) (decode : Bytes → Option Secp256k1Blob)
      (sha256 : Bytes → Bytes) (tld_pubkey : Option Bytes) (tx : BlobTransaction)
      (s : NodeStateStore) (block : Block) (hash identity victim : String) (index : ℕ)
      (indices : List ℕ) (nuking metadata : UnsettledBlobMetadata) (output : HyleOutput)
      (v : UnsettledBlobTransaction) (contract : Contract)
      → All (λ blob. blob.contract_name ≢ "hyle") tx.blobs
      → readers.nuke_txs nuking.blob.payload ≡ some ((victim, output ∷ []) ∷ [])
      → get (s.unsettled_transactions).map victim ≡ some v
      → get v.blobs output.index ≡ some metadata
      → get s.contracts metadata.blob.contract_name ≡ some contract
      → let nukes = (note_blobs readers hash identity indices ((index, nuking) ∷ []) block []).1 in
        let r = force_nuked readers decoders hash nukes [] (s, block) in
        (validate_hyle_contract_blobs decoders hashed decode sha256 tld_pubkey tx ≡ ok tt)
        × (get ((r.0).unsettled_transactions).map victim
            ≡ some (with_output v (contract.program_id, at_state contract output) metadata))
        × (r.2 ≡ victim ∷ [])
  unfolding validate_hyle_contract_blobs
  nuke_unsigned hashed decode sha256 tld_pubkey tx s block hash identity victim index indices nuking
        metadata output v contract other reads found there known =
      let (proof, next) = nuked s block hash victim output v metadata contract found there known in
      let same = noted hash identity index indices nuking block victim (output ∷ []) reads in
      (
        foreign-valid hashed decode sha256 tld_pubkey tx 0 tx.blobs other,
        rw same proof,
        rw same next,
      )
