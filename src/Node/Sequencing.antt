-- ===== src/Node/Sequencing.antt =====
-- `handle_blob_tx` of node_state.rs, which takes in a blob transaction; `validate_identity` of
-- hyle-model/src/transaction.rs; the native verifiers of hyle-model/src/verifiers.rs and the output
-- that hyle-verifiers/src/lib.rs makes of their answer. The signatures and hashes that they check
-- are third-party code: `verify_native_impl` is an argument, `none` where it fails.
use Prim.Native.Char.{code}
use Prim.Native.String.{String}
use truth_seeker.Common.{
  ℕ, suc, Bool, true, false, Option, none, some, List, [], ◌∷◌, ◌==◌, string_eq, nat_eq, not, ◌&&◌,
  ◌||◌, any, filter, map, length, if◌then◌else◌, Result, ok, err, ◌>>◌, bail_if,
}
use truth_seeker.Common.Maps.{Map, get, contains_key}
use truth_seeker.Sdk.Types.{
  Bytes, Blob, IndexedBlobs, BlobTransaction, TxContext, TimeoutWindow, no_timeout, timeout,
  HyleOutput, as_bytes,
}
use truth_seeker.Sdk.Secp256k1.{Secp256k1Blob}
use truth_seeker.Node.Types.{UnsettledBlobMetadata, UnsettledBlobTransaction, Decoders}
use truth_seeker.Node.Changes.{Contracts}
use truth_seeker.Node.Registration.{is_empty_text}
use truth_seeker.Node.Tld.Privileged.{BlobError, enumerated, validate_hyle_contract_blobs}
use truth_seeker.Node.Orders.{is_empty, add, is_next_to_settle}
use truth_seeker.Node.Store.{NodeStateStore, set, get_tx_timeout_window}

-- `rsplit_once("@")`
unfoldable pub rsplit_once : String → Option (String × String)
rsplit_once String.[] = none
rsplit_once (String.◌∷◌ c s) = elim (rsplit_once s) [
  | some (a, b) ↦ some (String.◌∷◌ c a, b)
  | none ↦ if code c == 64 then some ("", s) else none
]

pub data BlobTxError : Type 0 where
  malformed_identity empty_identity unproved_identity no_blobs : BlobTxError
  invalid_hyle_blobs : BlobError → BlobTxError
  unknown_contracts : List String → BlobTxError

unfoldable pub validate_identity : BlobTransaction → Result BlobTxError Unit
validate_identity tx = elim (rsplit_once tx.identity) [
  | none ↦ err malformed_identity
  | some (identity, contract_name) ↦
      if is_empty_text identity || is_empty_text contract_name
      then err empty_identity
      else bail_if (not (any (λ (b : Blob). b.contract_name == contract_name) tx.blobs))
          unproved_identity
]

pub data NativeVerifier : Type 0 where
  blst sha3_256 secp256k1 : NativeVerifier

-- `TryFrom<&Verifier>`
abbrev pub native_of : String → Option NativeVerifier
native_of verifier =
    if verifier == "blst"
    then some blst
    else if verifier == "sha3_256"
    then some sha3_256
    else if verifier == "secp256k1"
    then some secp256k1
    else none

-- `From<NativeVerifiers> for ProgramId`
abbrev pub program_of : NativeVerifier → Bytes
program_of blst = as_bytes "blst"
program_of sha3_256 = as_bytes "sha3_256"
program_of secp256k1 = as_bytes "secp256k1"

pub data BlobTxHandled : Type 0 where
  should_settle : String → BlobTxHandled
  duplicate handled : BlobTxHandled

abbrev pub is_unknown : Contracts → Blob → Bool
is_unknown contracts blob = not (contains_key contracts blob.contract_name)

-- The native verifier of the contract of a blob.
abbrev pub native_verifier : Contracts → Blob → Option NativeVerifier
native_verifier contracts blob = elim (get contracts blob.contract_name) [
  | none ↦ none
  | some contract ↦ native_of contract.verifier
]

-- The timeout of a transaction, if its contracts have one.
abbrev pub set_window : NodeStateStore → String → TimeoutWindow → NodeStateStore
set_window s hash no_timeout = s
set_window s hash (timeout window) = record s {
  timeouts = set s.timeouts hash s.current_height window;
}

abbrev pub set_timeout : NodeStateStore → String → List Blob → NodeStateStore
set_timeout s hash blobs = set_window s hash (get_tx_timeout_window s blobs)

abbrev pub answer_of : Option (String × Bool) → String × Bool
answer_of none = ("", false)
answer_of (some answer) = answer

module _ (decoders : Decoders) (hashed : BlobTransaction → String) (blob_hash : Blob → String)
    (decode : Bytes → Option Secp256k1Blob) (sha256 : Bytes → Bytes) (tld_pubkey : Option Bytes)
    (verify_native_impl : Blob → NativeVerifier → Option (String × Bool)) where
  -- `native::verify`
  unfoldable pub verify_native : BlobTransaction → ℕ → Blob → NativeVerifier → HyleOutput
  verify_native tx index blob verifier =
      let (identity, success) = answer_of (verify_native_impl blob verifier) in
      record {
        version = 1;
        initial_state = [];
        next_state = [];
        identity = identity;
        index = index;
        blobs = enumerated 0 tx.blobs;
        tx_blob_count = length tx.blobs;
        tx_hash = hashed tx;
        success = success;
        state_reads = [];
        tx_ctx = none;
        onchain_effects = [];
        program_outputs = [];
      }

  abbrev pub new_metadata : Blob → List (Bytes × HyleOutput) → UnsettledBlobMetadata
  new_metadata blob proofs = record { blob = blob; possible_proofs = proofs }

  -- The blobs that are to be settled, without those of native verifiers that succeed; and whether
  -- there is no blob that waits for a proof.
  unfoldable pub unsettled_blobs :
      Contracts → BlobTransaction → ℕ → List Blob → Map ℕ UnsettledBlobMetadata × Bool
  unsettled_blobs contracts tx index [] = ([], true)
  unsettled_blobs contracts tx index (blob ∷ blobs) =
      let (rest, should_try) = unsettled_blobs contracts tx (suc index) blobs in
      elim (native_verifier contracts blob) [
        | some verifier ↦
            let output = verify_native tx index blob verifier in
            if output.success then (rest, should_try) else (
              (index, new_metadata blob ((program_of verifier, output) ∷ [])) ∷ rest,
              should_try,
            )
        | none ↦ ((index, new_metadata blob []) ∷ rest, blob.contract_name == "hyle" && should_try)
      ]

  -- the checks, up to the one on unknown contracts
  unfoldable pub check_blob_tx : NodeStateStore → BlobTransaction → Result BlobTxError Unit
  check_blob_tx s tx = do
    validate_identity tx
    bail_if (is_empty tx.blobs) no_blobs
    elim (validate_hyle_contract_blobs decoders hashed decode sha256 tld_pubkey tx) [
      | err e ↦ err (invalid_hyle_blobs e)
      | ok u ↦ ok tt
    ]
    bail_if (any (is_unknown s.contracts) tx.blobs) (
        unknown_contracts
          (map (λ (b : Blob). b.contract_name) (filter (is_unknown s.contracts) tx.blobs)))

  abbrev pub hashes_of : IndexedBlobs → Map ℕ String
  hashes_of blobs = map (λ (p : ℕ × Blob). (p.0, blob_hash p.1)) blobs

  abbrev pub unsettled_tx :
      BlobTransaction → String → TxContext → Map ℕ UnsettledBlobMetadata → UnsettledBlobTransaction
  unsettled_tx tx parent_dp_hash tx_context blobs = record {
    identity = tx.identity;
    parent_dp_hash = parent_dp_hash;
    hash = hashed tx;
    tx_context = tx_context;
    blobs_hash = hashes_of (enumerated 0 tx.blobs);
    blobs = blobs;
  }

  -- from the call of `add` on
  unfoldable pub sequence_tx :
      NodeStateStore
      → BlobTransaction
      → UnsettledBlobTransaction
      → Bool
      → NodeStateStore × BlobTxHandled
  sequence_tx s tx unsettled should_try =
      let (m, added) = add decoders s.unsettled_transactions unsettled in
      let s' : NodeStateStore = record s { unsettled_transactions = m } in
      elim added [
        | none ↦ (s', duplicate)
        | some is_first ↦ (
          if is_next_to_settle m (hashed tx) then set_timeout s' (hashed tx) tx.blobs else s',
          if is_first && should_try then should_settle (hashed tx) else handled,
        )
      ]

  unfoldable pub handle_blob_tx :
      NodeStateStore
      → String
      → BlobTransaction
      → TxContext
      → NodeStateStore × Result BlobTxError BlobTxHandled
  handle_blob_tx s parent_dp_hash tx tx_context = elim (check_blob_tx s tx) [
    | err e ↦ (s, err e)
    | ok u ↦
        let (blobs, should_try) = unsettled_blobs s.contracts tx 0 tx.blobs in
        let (s', result) =
          sequence_tx s tx (unsettled_tx tx parent_dp_hash tx_context blobs) should_try in
        (s', ok result)
  ]
