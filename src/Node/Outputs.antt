-- ===== src/Node/Outputs.antt =====
-- `verify_hyle_output` of node_state.rs, which compares the output of a proof with the transaction
-- that it is for, and the `BlobsHashes` of hyle-model/src/transaction.rs.
pub mod Verified
pub mod Duplicates
use truth_seeker.Common.{
  ℕ, ◌≡◌, ◌↔◌, Bool, true, false, String, Option, none, some, List, [], ◌∷◌, ◌==◌, string_eq,
  nat_eq, list_eq, pair_eq, option_eq, not, ◌&&◌, all, any, first, Eq, Result, ok, err, ◌>>=◌, ◌>>◌,
  bail_if, ok_or, arith, list_beq_iff, option_beq_iff,
}
use truth_seeker.Common.Maps.{Map, get, remove}
use truth_seeker.Sdk.Types.{
  Bytes, Blob, IndexedBlobs, TxContext, tx_context_beq, TimeoutWindow, no_timeout, timeout,
  RegisterContractEffect, OnchainEffect, register_contract, delete_contract, HyleOutput,
}
use truth_seeker.Node.Types.{
  UnsettledBlobMetadata, UnsettledBlobTransaction, RegisterContractAction, Decoders,
}

abbrev pub window_beq : TimeoutWindow → TimeoutWindow → Bool
window_beq no_timeout no_timeout = true
window_beq no_timeout (timeout b) = false
window_beq (timeout a) no_timeout = false
window_beq (timeout a) (timeout b) = a == b

pub window_beq_iff : (a b : TimeoutWindow) → (window_beq a b ≡ true) ↔ (a ≡ b)
window_beq_iff no_timeout no_timeout = ground arith
window_beq_iff no_timeout (timeout b) = ground arith
window_beq_iff (timeout a) no_timeout = ground arith
window_beq_iff (timeout a) (timeout b) = ground (arith, nat_eq.beq_iff a b)

instance abbrev pub window_eq : Eq TimeoutWindow
window_eq = record { beq = window_beq; beq_iff = window_beq_iff }

abbrev pub register_effect_beq : RegisterContractEffect → RegisterContractEffect → Bool
register_effect_beq a b =
    a.verifier == b.verifier
    && a.program_id == b.program_id
    && a.state_commitment == b.state_commitment
    && a.contract_name == b.contract_name
    && a.timeout_window == b.timeout_window

-- `From<RegisterContractAction>`
abbrev pub effect_of : RegisterContractAction → RegisterContractEffect
effect_of action = record {
  verifier = action.verifier;
  program_id = action.program_id;
  state_commitment = action.state_commitment;
  contract_name = action.contract_name;
  timeout_window = action.timeout_window;
}

-- In the code the keys are in order, on which `includes_all` does not depend.
abbrev pub BlobsHashes : Type 0
BlobsHashes = Map ℕ String

pub data OutputError : Type 0 where
  other_identity other_tx_hash other_tx_context other_blobs : OutputError
  index_out_of_bounds no_effect effect_mismatch wrong_effect : OutputError

abbrev pub is_recorded : BlobsHashes → ℕ × String → Bool
is_recorded hashes p = any (λ q. p == q) hashes

unfoldable pub includes_all : BlobsHashes → BlobsHashes → Bool
includes_all hashes other = all (is_recorded hashes) other

module _ (blob_hash : Blob → String) where
  -- `collect` into a map: of two entries with one key, the later one stays.
  unfoldable pub collected : BlobsHashes → IndexedBlobs → BlobsHashes
  collected hashes [] = hashes
  collected hashes ((i, blob) ∷ blobs) = collected ((i, blob_hash blob) ∷ remove hashes i) blobs

  -- `From<&IndexedBlobs>`
  abbrev pub blobs_hashes : IndexedBlobs → BlobsHashes
  blobs_hashes blobs = collected [] blobs

abbrev pub context_differs : Option TxContext → TxContext → Bool
context_differs none ctx = false
context_differs (some c) ctx = not (tx_context_beq c ctx)

abbrev pub check_register_effect :
    RegisterContractAction → Option OnchainEffect → Result OutputError Unit
check_register_effect action none = err no_effect
check_register_effect action (some (register_contract effect)) =
    bail_if (not (register_effect_beq effect (effect_of action))) effect_mismatch
check_register_effect action (some (delete_contract name)) = err wrong_effect

abbrev pub check_delete_effect : String → Option OnchainEffect → Result OutputError Unit
check_delete_effect contract_name none = err no_effect
check_delete_effect contract_name (some (register_contract effect)) = err wrong_effect
check_delete_effect contract_name (some (delete_contract name)) =
    bail_if (not (name == contract_name)) effect_mismatch

module _ (decoders : Decoders) where
  unfoldable pub check_effects : Blob → List OnchainEffect → Result OutputError Unit
  check_effects blob effects = elim (decoders.register blob.payload) [
    | some reg ↦ check_register_effect reg.parameters (first effects)
    | none ↦ elim (decoders.delete blob.payload) [
      | some del ↦ check_delete_effect del.parameters.contract_name (first effects)
      | none ↦ ok tt
    ]
  ]

  module _ (blob_hash : Blob → String) where
    unfoldable pub verify_hyle_output :
        UnsettledBlobTransaction → HyleOutput → Result OutputError Unit
    verify_hyle_output tx output = do
      bail_if (not (tx.identity == output.identity)) other_identity
      bail_if (not (output.tx_hash == tx.hash)) other_tx_hash
      bail_if (context_differs output.tx_ctx tx.tx_context) other_tx_context
      bail_if (not (includes_all tx.blobs_hash (blobs_hashes blob_hash output.blobs))) other_blobs
      metadata ← ok_or (get tx.blobs output.index) index_out_of_bounds
      check_effects metadata.blob output.onchain_effects
