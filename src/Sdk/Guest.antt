-- ===== src/Sdk/Guest.antt =====
-- `execute` of manual_Scaffold/hyli/crates/contract-sdk/src/guest.rs, the loop of a proved program
-- over its calls, and the traits `ZkContract` and `TransactionalZkContract` of lib.rs that it uses.
pub mod Chains
use truth_seeker.Common.{◌≡◌, List, [], ◌∷◌, Result, ok, err, map}
use truth_seeker.Sdk.Types.{Bytes, Blob, Calldata, HyleOutput}
use truth_seeker.Sdk.Output.{RunResult, as_hyle_output}

-- A contract with the states `Z` and the snapshots `S`: `&mut self` is a state that is passed on.
pub record ZkContract (Z S : Type 0) : Type 0 where
  pub execute : Z → Calldata → Z × RunResult
  pub commit : Z → Bytes
  pub initialize : Z → Z × Result Bytes Unit
  pub initial_state : Z → S
  pub revert : Z → S → Z
  pub on_success : Z → Z × Bytes

module _ (unconsumed : List Blob → Bytes) where
  -- the answers of a program whose state `initialize` refuses
  unfoldable pub refuse_all : Bytes → Bytes → List Calldata → List HyleOutput
  refuse_all initial e [] = []
  refuse_all initial e (calldata ∷ rest) =
      as_hyle_output unconsumed initial initial calldata (err e) ∷ refuse_all initial e rest

module _ (unconsumed : List Blob → Bytes) {Z S : Type 0} (c : ZkContract Z S) where
  -- the state, and its commitment, behind a run from `z` that left `z'`
  abbrev pub settle : Z → Bytes → Z × RunResult → Z × Bytes
  settle z initial (z', err e) = (c.revert z' (c.initial_state z), initial)
  settle z initial (z', ok _) = c.on_success z'

  unfoldable pub execute_all : Z → Bytes → List Calldata → List HyleOutput
  execute_all z initial [] = []
  execute_all z initial (calldata ∷ rest) =
      let run = c.execute z calldata in
      let after = settle z initial run in
      as_hyle_output unconsumed initial after.1 calldata run.1 ∷ execute_all after.0 after.1 rest

  -- what follows `initialize`
  abbrev pub run_ready : Z → List Calldata → Z × Result Bytes Unit → List HyleOutput
  run_ready z calldata (z', err e) = refuse_all unconsumed (c.commit z) e calldata
  run_ready z calldata (z', ok _) = execute_all z' (c.commit z) calldata

  -- `z` is the state that the metadata decodes to
  unfoldable pub execute : Z → List Calldata → List HyleOutput
  execute z calldata = run_ready z calldata (c.initialize z)
