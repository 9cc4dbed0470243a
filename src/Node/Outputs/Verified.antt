-- ===== src/Node/Outputs/Verified.antt =====
-- What `verify_hyle_output` of node_state.rs has compared.
use truth_seeker.Common.{
  ◌≡◌, true, false, String, Option, none, some, List, string_eq, nat_eq, list_eq, option_eq,
  pair_eq, first, arith, ok, inl, inr, Option-cases, list_beq_iff, option_beq_iff,
}
use truth_seeker.Common.Maps.{get}
use truth_seeker.Sdk.Context.{StructuredBlobData}
use truth_seeker.Sdk.Types.{
  Blob, TxContext, tx_context_beq, RegisterContractEffect, OnchainEffect, register_contract,
  delete_contract, HyleOutput,
}
use truth_seeker.Node.Types.{
  UnsettledBlobMetadata, UnsettledBlobTransaction, RegisterContractAction, DeleteContractAction,
  Decoders,
}
use truth_seeker.Node.Outputs.{
  window_eq, register_effect_beq, effect_of, context_differs, check_register_effect,
  check_delete_effect, check_effects, verify_hyle_output,
}
use truth_seeker.Node.Outputs.Duplicates.{lasts_recorded, includes_all-lasts}

-- An output that names a context names that of the transaction.
abbrev pub Agrees : Option TxContext → TxContext → Type 0
Agrees none ctx = Unit
Agrees (some c) ctx = c ≡ ctx

-- The first effect is the registration or the deletion that the blob asks for, if it does.
abbrev pub Matches :
    Option (StructuredBlobData RegisterContractAction)
    → Option (StructuredBlobData DeleteContractAction)
    → List OnchainEffect
    → Type 0
Matches (some reg) _ effects = first effects ≡ some (register_contract (effect_of reg.parameters))
Matches none (some del) effects =
    first effects ≡ some (delete_contract del.parameters.contract_name)
Matches none none effects = Unit

tx_context_eq : (a b : TxContext) → tx_context_beq a b ≡ true → a ≡ b
tx_context_eq a b h =
    ground (arith, list_beq_iff a.lane_id b.lane_id, string_eq.beq_iff a.block_hash b.block_hash)

register_effect_eq : (a b : RegisterContractEffect) → register_effect_beq a b ≡ true → a ≡ b
register_effect_eq a b h = ground (
  arith,
  string_eq.beq_iff a.verifier b.verifier,
  list_beq_iff a.program_id b.program_id,
  list_beq_iff a.state_commitment b.state_commitment,
  string_eq.beq_iff a.contract_name b.contract_name,
  option_beq_iff a.timeout_window b.timeout_window,
)

differs-Agrees :
    (c : Option TxContext) (ctx : TxContext) → context_differs c ctx ≡ false → Agrees c ctx
differs-Agrees none ctx h = tt
differs-Agrees (some c) ctx h = tx_context_eq c ctx (ground arith)

register-first :
    (action : RegisterContractAction) (effect : Option OnchainEffect)
    → check_register_effect action effect ≡ ok tt
    → effect ≡ some (register_contract (effect_of action))
register-first action none h = cc
register-first action (some (delete_contract name)) h = cc
register-first action (some (register_contract effect)) h =
    let e = register_effect_eq effect (effect_of action) (ground arith) in ground (arith, e)

delete-first :
    (name : String) (effect : Option OnchainEffect)
    → check_delete_effect name effect ≡ ok tt
    → effect ≡ some (delete_contract name)
delete-first name none h = cc
delete-first name (some (register_contract effect)) h = cc
delete-first name (some (delete_contract name')) h = ground (arith, string_eq.beq_iff name' name)

module _ (decoders : Decoders) (blob_hash : Blob → String) where
  pub record IsVerified (tx : UnsettledBlobTransaction) (output : HyleOutput) : Type 0 where
    pub identity : output.identity ≡ tx.identity
    pub tx_hash : output.tx_hash ≡ tx.hash
    pub context : Agrees output.tx_ctx tx.tx_context
    pub blobs : lasts_recorded blob_hash tx.blobs_hash output.blobs ≡ true
    pub metadata : UnsettledBlobMetadata
    pub found : get tx.blobs output.index ≡ some metadata
    pub effects :
        Matches
          (decoders.register metadata.blob.payload)
          (decoders.delete metadata.blob.payload)
          output.onchain_effects

  check_effects-Matches :
      (blob : Blob) (effects : List OnchainEffect)
      → check_effects decoders blob effects ≡ ok tt
      → Matches (decoders.register blob.payload) (decoders.delete blob.payload) effects
  unfolding check_effects
  check_effects-Matches blob effects h = elim (Option-cases (decoders.register blob.payload)) [
    | inr (reg, registers) ↦
        rw registers (register-first reg.parameters (first effects) (ground arith))
    | inl other ↦ elim (Option-cases (decoders.delete blob.payload)) [
      | inr (del, deletes) ↦
          rw (other, deletes)
            (delete-first del.parameters.contract_name (first effects) (ground arith))
      | inl neither ↦ rw (other, neither) tt
    ]
  ]

  -- An output that is accepted is for this transaction, by its identity, its hash and, if it names
  -- one, its context; of its blobs, the last one of each index has the hash that the transaction
  -- recorded there; it is for one of the blobs of the transaction; and if that blob registers or
  -- deletes a contract, the first effect of the output is just that.
  pub verify-IsVerified :
      (tx : UnsettledBlobTransaction) (output : HyleOutput)
      → verify_hyle_output decoders blob_hash tx output ≡ ok tt
      → IsVerified tx output
  unfolding verify_hyle_output
  verify-IsVerified tx output h = elim (Option-cases (get tx.blobs output.index)) [
    | inl absent ↦ ground arith
    | inr (metadata, found) ↦ record {
      identity = ground (arith, string_eq.beq_iff tx.identity output.identity);
      tx_hash = ground (arith, string_eq.beq_iff output.tx_hash tx.hash);
      context = differs-Agrees output.tx_ctx tx.tx_context (ground arith);
      blobs = ground (arith, includes_all-lasts blob_hash tx.blobs_hash output.blobs);
      metadata = metadata;
      found = found;
      effects = check_effects-Matches metadata.blob output.onchain_effects (ground arith);
    }
  ]
