-- ===== src/Node/Tld/Privileged.antt =====
-- `validate_hyle_contract_blobs` of node_state/hyle_tld.rs: which blobs for the contract `hyle` a
-- transaction may hold. The key of the environment is an argument, `none` if it is not set or no
-- hexadecimal text; so are the hash of the transaction and the parts of the signature check.
use mathlib.Core.List.{Memᴰ}
use mathlib.Core.List.Memᴰ.{head, tail}
use truth_seeker.Common.{
  ℕ, suc, ◌≡◌, ◌≢◌, Bool, true, false, String, Option, none, some, List, [], ◌∷◌, ◌==◌, string_eq,
  nat_eq, list_eq, not, ◌||◌, is_some, length, if◌then◌else◌, arith, Result, ok, err, ◌>>◌, bail_if,
  ◌⊎◌, inl, inr, Option-cases, ==_ne,
}
use truth_seeker.Common.Maps.{get}
use truth_seeker.Sdk.Types.{Bytes, Blob, IndexedBlobs, BlobTransaction, Calldata}
use truth_seeker.Sdk.Secp256k1.{Secp256k1Blob, SecpError, expect}
use truth_seeker.Node.Types.{RegisterContractAction, Decoders}
use truth_seeker.Node.Changes.{Contracts, Changes}
use truth_seeker.Node.Tld.{handle_register_blob, handle_blob_for_hyle_tld}
use truth_seeker.Node.Tld.Names.{handle_register_blob_fresh, register_elsewhere}

abbrev pub hyli_tld_id : String
hyli_tld_id = "hyli@wallet"

pub data BlobError : Type 0 where
  unauthorized : String → BlobError
  bad_signature : SecpError → BlobError
  no_public_key not_from_hyli unsupported : BlobError

-- `enumerate`
abbrev pub enumerated : ℕ → List Blob → IndexedBlobs
enumerated i [] = []
enumerated i (b ∷ bs) = (i, b) ∷ enumerated (suc i) bs

-- A name that an earlier blob has changed, or that a contract but `hyle` has.
abbrev pub IsTaken : Contracts → Changes → String → Type 0
IsTaken contracts changes name =
    (is_some (get changes name) ≡ true) ⊎ ((name ≢ "hyle") × (is_some (get contracts name) ≡ true))

module _ (decoders : Decoders) (hashed : BlobTransaction → String)
    (decode : Bytes → Option Secp256k1Blob) (sha256 : Bytes → Bytes)
    (tld_pubkey : Option Bytes) where
  abbrev pub calldata_of : BlobTransaction → ℕ → Calldata
  calldata_of tx index = record {
    tx_hash = hashed tx;
    identity = tx.identity;
    blobs = enumerated 0 tx.blobs;
    tx_blob_count = length tx.blobs;
    index = index;
    tx_ctx = none;
    private_input = [];
  }

  -- The blob decodes as an action that only Hyli may take.
  abbrev pub is_privileged : Blob → Bool
  is_privileged blob =
      is_some (decoders.update_program_id blob.payload)
      || (is_some (decoders.delete blob.payload)
          || is_some (decoders.update_timeout_window blob.payload))

  unfoldable pub check_nuke : BlobTransaction → ℕ → Bytes → Result BlobError Unit
  check_nuke tx index txs = elim (expect decode sha256 (calldata_of tx index) txs none) [
    | err e ↦ err (bad_signature e)
    | ok secp ↦ elim tld_pubkey [
      | none ↦ err no_public_key
      | some key ↦ bail_if (not (secp.public_key == key)) not_from_hyli
    ]
  ]

  -- the body of the loop, for a blob of the contract `hyle`
  unfoldable pub check_blob : BlobTransaction → ℕ → Blob → Result BlobError Unit
  check_blob tx index blob =
      if is_privileged blob
      then bail_if (not (tx.identity == hyli_tld_id)) (unauthorized tx.identity)
      else elim (decoders.nuke blob.payload) [
        | some txs ↦ check_nuke tx index txs
        | none ↦ bail_if (not (is_some (decoders.register blob.payload))) unsupported
      ]

  unfoldable pub check_blobs : BlobTransaction → ℕ → List Blob → Result BlobError Unit
  check_blobs tx index [] = ok tt
  check_blobs tx index (blob ∷ blobs) = do
    if blob.contract_name == "hyle" then check_blob tx index blob else ok tt
    check_blobs tx (suc index) blobs

  unfoldable pub validate_hyle_contract_blobs : BlobTransaction → Result BlobError Unit
  validate_hyle_contract_blobs tx = check_blobs tx 0 tx.blobs

  -- An accepted blob for the contract `hyle` of anyone but Hyli is no privileged action.
  check_blobs-unprivileged :
      (tx : BlobTransaction) (index : ℕ) (blobs : List Blob) (blob : Blob)
      → tx.identity ≢ hyli_tld_id
      → check_blobs tx index blobs ≡ ok tt
      → Memᴰ blob blobs
      → blob.contract_name ≡ "hyle"
      → is_privileged blob ≡ false
  unfolding check_blobs check_blob
  check_blobs-unprivileged tx index [] blob other h absent tld = elim absent [ ]
  check_blobs-unprivileged tx index (b ∷ bs) blob other h (tail there) tld =
      check_blobs-unprivileged tx (suc index) bs blob other (ground arith) there tld
  check_blobs-unprivileged tx index (b ∷ bs) blob other h (head same) tld = rw same (
      ground (
        arith,
        same,
        tld,
        string_eq.beq_iff b.contract_name "hyle",
        ==_ne {A = String} tx.identity hyli_tld_id other,
      ))

  module _ (valid_program : String → Bytes → Bool) (contracts : Contracts) (changes : Changes) where
    -- A registration changes no name that is known, but for `hyle` where no earlier blob has.
    register_spares :
        (after : Changes) (reg : RegisterContractAction) (name : String)
        → handle_register_blob valid_program decoders contracts changes reg ≡ ok after
        → IsTaken contracts changes name
        → get after name ≡ get changes name
    register_spares after reg name h taken =
        let (fresh, unless) =
          handle_register_blob_fresh valid_program decoders contracts changes after reg h in
        register_elsewhere valid_program decoders contracts changes after reg name h
          (λ same. ground (arith, fresh, unless, taken, same))

    unprivileged_spares :
        (blob : Blob) (after : Changes) (name : String)
        → is_privileged blob ≡ false
        → handle_blob_for_hyle_tld valid_program decoders contracts changes blob ≡ ok after
        → IsTaken contracts changes name
        → get after name ≡ get changes name
    unfolding handle_blob_for_hyle_tld
    unprivileged_spares blob after name h ran taken =
        elim (Option-cases (decoders.register blob.payload)) [
          | inr (reg, registers) ↦ register_spares after reg.parameters name (ground arith) taken
          | inl other ↦ ground arith
        ]

    -- If a transaction of anyone but Hyli is accepted, a blob of it for the contract `hyle` that the
    -- node runs without an error, on whatever contracts and changes, leaves what the changes say of
    -- each name that an earlier blob has changed, and of each contract but `hyle` that there is: it
    -- deletes none of them, and replaces the state, the program and the timeout window of none.
    pub validate_spares :
        (tx : BlobTransaction) (blob : Blob) (after : Changes) (name : String)
        → tx.identity ≢ hyli_tld_id
        → validate_hyle_contract_blobs tx ≡ ok tt
        → Memᴰ blob tx.blobs
        → blob.contract_name ≡ "hyle"
        → handle_blob_for_hyle_tld valid_program decoders contracts changes blob ≡ ok after
        → IsTaken contracts changes name
        → get after name ≡ get changes name
    unfolding validate_hyle_contract_blobs
    validate_spares tx blob after name other h held tld ran taken =
        unprivileged_spares blob after name
          (check_blobs-unprivileged tx 0 tx.blobs blob other h held tld) ran taken
