-- ===== src/Sdk/Secp256k1.antt =====
-- manual_Scaffold/hyli/crates/contract-sdk/src/secp256k1.rs: the check that a signature blob of the
-- transaction covers the expected data. Decoding and SHA-256 are arguments.
pub mod Check
use mathlib.Core.Option
use truth_seeker.Common.{
  ℕ, Bool, String, Option, none, some, ◌==◌, string_eq, nat_eq, list_eq, not, find, Result, ok, err,
  ◌>>=◌, ◌>>◌, bail_if, ok_or,
}
use truth_seeker.Sdk.Types.{Bytes, Blob, blob_at, Calldata}

-- hyle-model/src/verifiers.rs; the field `data` is `message_hash`
pub record Secp256k1Blob : Type 0 where
  pub identity : String
  pub message_hash : Bytes
  pub public_key : Bytes
  pub signature : Bytes

pub data SecpError : Type 0 where
  invalid_blob_index invalid_contract_name missing_blob not_decoded : SecpError
  identity_mismatch data_mismatch : SecpError

module _ (decode : Bytes → Option Secp256k1Blob) (sha256 : Bytes → Bytes) where
  unfoldable pub find_blob : Calldata → Option ℕ → Result SecpError Blob
  find_blob calldata (some idx) = do
    blob ← ok_or (blob_at calldata.blobs idx) invalid_blob_index
    bail_if (not (blob.contract_name == "secp256k1")) invalid_contract_name
    ok blob
  find_blob calldata none =
      ok_or
        (Option.map (λ (p : ℕ × Blob). p.1)
          (find (λ (p : ℕ × Blob). (p.1).contract_name == "secp256k1") calldata.blobs))
        missing_blob

  -- `CheckSecp256k1::expect`
  unfoldable pub expect : Calldata → Bytes → Option ℕ → Result SecpError Secp256k1Blob
  expect calldata expected_data blob_index = do
    blob ← find_blob calldata blob_index
    secp ← ok_or (decode blob.payload) not_decoded
    bail_if (not (secp.identity == calldata.identity)) identity_mismatch
    bail_if (not (secp.message_hash == sha256 expected_data)) data_mismatch
    ok secp
