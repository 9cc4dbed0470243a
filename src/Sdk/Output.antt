-- ===== src/Sdk/Output.antt =====
-- `as_hyle_output` and `fail` of manual_Scaffold/hyli/crates/contract-sdk/src/utils.rs.
use truth_seeker.Common.{true, false, List, [], ◌∷◌, Result, ok, err}
use truth_seeker.Sdk.Types.{Bytes, Blob, Calldata, OnchainEffect, HyleOutput}
use truth_seeker.Sdk.Context.{ExecutionContext}

-- `RunResult`, its error message encoded
abbrev pub RunResult : Type 0
RunResult = Result Bytes (Bytes × ExecutionContext × List OnchainEffect)

unfoldable pub fail : Calldata → Bytes → Bytes → HyleOutput
fail calldata initial_state message = record {
  version = 1;
  initial_state = initial_state;
  next_state = initial_state;
  identity = calldata.identity;
  index = calldata.index;
  blobs = calldata.blobs;
  tx_blob_count = calldata.tx_blob_count;
  tx_hash = calldata.tx_hash;
  success = false;
  state_reads = [];
  tx_ctx = calldata.tx_ctx;
  onchain_effects = [];
  program_outputs = message;
}

-- `unconsumed` prints the blobs that the run left in its context.
module _ (unconsumed : List Blob → Bytes) where
  abbrev succeed : Bytes → Bytes → Calldata → Bytes → List OnchainEffect → HyleOutput
  succeed initial next calldata output effects = record {
    version = 1;
    initial_state = initial;
    next_state = next;
    identity = calldata.identity;
    index = calldata.index;
    blobs = calldata.blobs;
    tx_blob_count = calldata.tx_blob_count;
    tx_hash = calldata.tx_hash;
    success = true;
    state_reads = [];
    tx_ctx = calldata.tx_ctx;
    onchain_effects = effects;
    program_outputs = output;
  }

  unfoldable pub as_hyle_output : Bytes → Bytes → Calldata → RunResult → HyleOutput
  unfolding fail
  as_hyle_output initial next calldata (err message) = fail calldata initial message
  as_hyle_output initial next calldata (ok (output, ctx, effects)) = elim ctx.callees_blobs [
    | [] ↦ succeed initial next calldata output effects
    | b ∷ bs ↦ fail calldata initial (unconsumed (b ∷ bs))
  ]
