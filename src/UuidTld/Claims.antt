-- ===== src/UuidTld/Claims.antt =====
-- What a claim of a UUID is worth.
use truth_seeker.Common.{
  ℕ, ◌≡◌, String, Option, some, List, nat_eq, string_eq, arith, ok, inl, inr, Option-cases,
}
use truth_seeker.Common.Maps.{get, get-insert}
use truth_seeker.Sdk.Types.{Bytes, Calldata, OnchainEffect}
use truth_seeker.Sdk.Context.{ExecutionContext}
use truth_seeker.Node.Types.{RegisterContractAction}
use truth_seeker.UuidTld.{
  UuidTld, Reply, returned, claim_id, claim_contract, run_register, check_claim, first_part,
}

module _ (serialize : UuidTld → Bytes) (draw : Bytes → String → String → ℕ → ℕ)
    (parse_uuid : String → Option ℕ) where
  claim_id_keeps :
      (s : UuidTld) (id uuid : ℕ) (identity owner : String)
      → get s.registered_contracts uuid ≡ some owner
      → get ((claim_id serialize draw parse_uuid s id identity).0).registered_contracts uuid
        ≡ some owner
  claim_id_keeps s id uuid identity owner owned =
      ground (arith, get-insert s.registered_contracts id uuid identity, nat_eq.beq_iff id uuid)

  -- A claim of a UUID leaves what others have claimed.
  claim_contract_keeps :
      (s : UuidTld) (calldata : Calldata) (uuid : ℕ) (owner : String)
      → get s.registered_contracts uuid ≡ some owner
      → get ((claim_contract serialize draw parse_uuid s calldata).0).registered_contracts uuid
        ≡ some owner
  unfolding claim_contract
  claim_contract_keeps s calldata uuid owner owned = elim (Option-cases calldata.tx_ctx) [
    | inl absent ↦ ground arith
    | inr (tx_ctx, present) ↦ ground (
      arith,
      claim_id_keeps s (draw (serialize s) calldata.tx_hash tx_ctx.block_hash tx_ctx.timestamp) uuid
          calldata.identity owner owned,
    )
  ]

  -- A registration that is granted is of a name whose UUID the identity of the call has claimed.
  run_register_claimed :
      (s : UuidTld) (calldata : Calldata) (action : RegisterContractAction) (ctx : ExecutionContext)
      {out : Reply × ExecutionContext × List OnchainEffect}
      → run_register serialize draw parse_uuid s calldata action ctx ≡ returned (ok out)
      → (uuid : ℕ) × (parse_uuid (first_part action.contract_name) ≡ some uuid)
        × (get s.registered_contracts uuid ≡ some calldata.identity)
  unfolding run_register check_claim
  run_register_claimed s calldata action ctx {out} h =
      elim (Option-cases (parse_uuid (first_part action.contract_name))) [
        | inl unread ↦ absurd (ground arith)
        | inr (uuid, read) ↦ elim (Option-cases (get s.registered_contracts uuid)) [
          | inl free ↦ absurd (ground arith)
          | inr (owner, owned) ↦
              (uuid, read, ground (arith, string_eq.beq_iff owner calldata.identity))
        ]
      ]
