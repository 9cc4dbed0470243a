-- ===== src/Node/Types.antt =====
-- hyle-model/src/contract.rs and node/data_availability.rs: contracts, unsettled transactions and
-- the actions that blobs hold. The `BTreeMap`s of blobs are lists in the order of the indices.
use truth_seeker.Common.{ℕ, String, Option, List}
use truth_seeker.Common.Maps.{Map}
use truth_seeker.Sdk.Types.{Bytes, Blob, TxContext, TimeoutWindow, HyleOutput}
use truth_seeker.Sdk.Context.{StructuredBlobData}

pub record Contract : Type 0 where
  pub name : String
  pub program_id : Bytes
  pub state : Bytes
  pub verifier : String
  pub timeout_window : TimeoutWindow

pub record UnsettledBlobMetadata : Type 0 where
  pub blob : Blob
  pub possible_proofs : List (Bytes × HyleOutput)

pub record UnsettledBlobTransaction : Type 0 where
  pub identity : String
  pub parent_dp_hash : String
  pub hash : String
  pub tx_context : TxContext
  pub blobs_hash : Map ℕ String
  pub blobs : Map ℕ UnsettledBlobMetadata

pub record RegisterContractAction : Type 0 where
  pub verifier : String
  pub program_id : Bytes
  pub state_commitment : Bytes
  pub contract_name : String
  pub timeout_window : Option TimeoutWindow
  pub constructor_metadata : Option Bytes

pub record UpdateContractProgramIdAction : Type 0 where
  pub contract_name : String
  pub program_id : Bytes

pub record UpdateContractTimeoutWindowAction : Type 0 where
  pub contract_name : String
  pub timeout_window : TimeoutWindow

pub record DeleteContractAction : Type 0 where
  pub contract_name : String

-- The borsh decoders of `StructuredBlobData` for the actions that the node itself reads; `nuke`
-- gives the encoding of the `txs` of a `NukeTxAction`.
pub record Decoders : Type 0 where
  pub register : Bytes → Option (StructuredBlobData RegisterContractAction)
  pub delete : Bytes → Option (StructuredBlobData DeleteContractAction)
  pub update_program_id : Bytes → Option (StructuredBlobData UpdateContractProgramIdAction)
  pub update_timeout_window : Bytes → Option (StructuredBlobData UpdateContractTimeoutWindowAction)
  pub nuke : Bytes → Option Bytes
