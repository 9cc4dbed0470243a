-- ===== src/Sdk/Context.antt =====
-- manual_Scaffold/hyli/crates/contract-sdk/src/caller.rs and utils.rs: how a contract reads its
-- blob, who its caller is, and which blobs it calls.
-- `borsh` is not under the repository: its decoders are the record `Borsh`.
use mathlib.Core.Option
use truth_seeker.Common.{
  ℕ, Bool, true, false, String, Option, none, some, List, [], ◌∷◌, ◌&&◌, Eq, ◌==◌, nat_eq,
  string_eq, option_eq, list_eq, if◌then◌else◌, any, contains, not, Result, ok, err, ◌>>=◌, ◌>>◌,
  bail_if, ok_or,
}
use truth_seeker.Sdk.Types.{Bytes, Blob, IndexedBlobs, blob_at, Calldata}

pub record StructuredBlobData (A : Type 0) : Type 0 where
  pub caller : Option ℕ
  pub callees : Option (List ℕ)
  pub parameters : A

-- `raw` decodes an `Action`, `structured` a `StructuredBlobData<Action>`, and `header` a
-- `StructuredBlobData<DropEndOfReader>`.
pub record Borsh (A : Type 0) : Type 0 where
  pub raw : Bytes → Option A
  pub structured : Bytes → Option (StructuredBlobData A)
  pub header : Bytes → Option (StructuredBlobData Unit)

pub data SdkError : Type 0 where
  blob_not_found blob_not_decoded caller_not_decoded caller_not_found : ℕ → SdkError
  input_not_parsed callees_mismatch self_reference caller_without_callees : SdkError
  incorrect_caller claimed_as_callee : SdkError
  callee_not_found : String → SdkError

pub record ExecutionContext : Type 0 where
  pub callees_blobs : List Blob
  pub caller : String
  pub contract_name : String

-- `callees_blobs.iter().position(…)` followed by `remove(index)`: the first match goes.
unfoldable pub remove_first : (Blob → Bool) → List Blob → Option (List Blob)
remove_first p [] = none
remove_first p (b ∷ bs) = if p b then some bs else Option.map (λ rest. b ∷ rest) (remove_first p bs)

module _ {A : Type 0} ⦃e : Eq A⦄ (borsh : Borsh A) where
  -- the closure of `is_in_callee_blobs`
  abbrev pub is_call : String → A → Blob → Bool
  is_call name action b =
      b.contract_name == name
      && (elim (borsh.structured b.payload) [ none ↦ false | some s ↦ e.beq s.parameters action ])

  unfoldable pub is_in_callee_blobs :
      ExecutionContext → String → A → Result SdkError ExecutionContext
  is_in_callee_blobs ctx name action = elim (remove_first (is_call name action) ctx.callees_blobs) [
    | none ↦ err (callee_not_found name)
    | some rest ↦ ok (record ctx { callees_blobs = rest })
  ]

module _ {A : Type 0} (borsh : Borsh A) where
  unfoldable pub parse_raw_calldata : Calldata → Result SdkError (A × ExecutionContext)
  parse_raw_calldata calldata = do
    blob ← ok_or (blob_at calldata.blobs calldata.index) (blob_not_found calldata.index)
    parameters ← ok_or (borsh.raw blob.payload) (blob_not_decoded calldata.index)
    ok (
      parameters,
      record { callees_blobs = []; caller = calldata.identity; contract_name = blob.contract_name },
    )

  unfoldable pub parse_structured_blob : IndexedBlobs → ℕ → Option (String × StructuredBlobData A)
  parse_structured_blob blobs index = elim (blob_at blobs index) [
    | none ↦ none
    | some b ↦
        Option.map (λ (s : StructuredBlobData A). (b.contract_name, s)) (borsh.structured b.payload)
  ]

  -- The blob decodes as a structured blob that names `index` as its caller.
  abbrev pub has_caller : ℕ → Blob → Bool
  has_caller index b = elim (borsh.header b.payload) [
    | none ↦ false
    | some s ↦ s.caller == some index
  ]

  -- The blob decodes as a structured blob that lists `index` among its callees.
  abbrev pub claims : ℕ → Blob → Bool
  claims index b = elim (borsh.header b.payload) [
    | none ↦ false
    | some s ↦ elim s.callees [ none ↦ false | some callees ↦ contains callees index ]
  ]

  unfoldable pub indices_with_caller : ℕ → IndexedBlobs → List ℕ
  indices_with_caller index [] = []
  indices_with_caller index ((i, b) ∷ blobs) =
      let rest = indices_with_caller index blobs in if has_caller index b then i ∷ rest else rest

  unfoldable pub callees_of : ℕ → IndexedBlobs → List Blob
  callees_of index [] = []
  callees_of index ((i, b) ∷ blobs) =
      let rest = callees_of index blobs in if has_caller index b then b ∷ rest else rest

  unfoldable pub check_caller : Calldata → ℕ → Result SdkError String
  check_caller calldata caller_index = do
    bail_if (caller_index == calldata.index) self_reference
    caller_blob ← ok_or (blob_at calldata.blobs caller_index) (caller_not_found caller_index)
    caller_data ← ok_or (borsh.header caller_blob.payload) (caller_not_decoded caller_index)
    callees ← ok_or caller_data.callees caller_without_callees
    bail_if (not (contains callees calldata.index)) incorrect_caller
    ok caller_blob.contract_name

  -- `callees.iter().eq(blobs_with_this_as_caller)`, when the blob has a list of callees
  abbrev pub callees_match : Calldata → Option (List ℕ) → Bool
  callees_match calldata none = true
  callees_match calldata (some callees) =
      callees == indices_with_caller calldata.index calldata.blobs

  unfoldable pub check_caller_callees : Calldata → StructuredBlobData A → Result SdkError String
  check_caller_callees calldata parameters =
      if not (callees_match calldata parameters.callees)
      then err callees_mismatch
      else elim parameters.caller [
        | some caller_index ↦ check_caller calldata caller_index
        | none ↦
            if any (λ (p : ℕ × Blob). claims calldata.index p.1) calldata.blobs
            then err claimed_as_callee
            else ok calldata.identity
      ]

  unfoldable pub parse_calldata : Calldata → Result SdkError (A × ExecutionContext)
  parse_calldata calldata = do
    (name, call) ← ok_or (parse_structured_blob calldata.blobs calldata.index) input_not_parsed
    caller ← check_caller_callees calldata call
    ok (
      call.parameters,
      record {
        callees_blobs = callees_of calldata.index calldata.blobs;
        caller = caller;
        contract_name = name;
      },
    )
