-- ===== src/Wallet.antt =====
-- manual_Scaffold/wallet/contracts/wallet/src/lib.rs: the accounts of the wallet contract.
-- A method returns the new account with its result. Texts are the constructors of `Reply` and
-- `Error`; the nonces are `u128`.
pub mod Account
pub mod Sessions
pub mod Authentication
pub mod View
use mathlib.Core.Option
use truth_seeker.Common.{
  ℕ, Bool, true, false, String, Option, none, some, List, [], ◌∷◌, ◌==◌, string_eq, nat_eq, list_eq,
  option_eq, not, ◌&&◌, ◌||◌, any, ◌++◌, find, filter, contains, push, length, leb, ltb, is_some,
  if◌then◌else◌, Result, ok, err, ◌>>=◌, ◌>>◌, bail_if, ok_or, add_u128,
}
use truth_seeker.Sdk.Types.{Bytes, Blob, IndexedBlobs, TxContext, Calldata, as_bytes, decimal}
use truth_seeker.Sdk.Secp256k1.{Secp256k1Blob, SecpError, expect}

pub record SessionKey : Type 0 where
  pub public_key : String
  pub expiration_date : ℕ
  pub nonce : ℕ
  pub whitelist : Option (List String)
  pub lane_id : Option Bytes

pub data AuthMethod : Type 0 where
  password : String → AuthMethod
  uninitialized : AuthMethod

pub record AccountInfo : Type 0 where
  pub identity : String
  pub auth_method : AuthMethod
  pub session_keys : List SessionKey
  pub nonce : ℕ

pub data WalletAction : Type 0 where
  register_identity_action :
      (account : String) (nonce : ℕ) (salt : String) (auth_method : AuthMethod)
      (invite_code : String)
      → WalletAction
  verify_identity_action : (account : String) (nonce : ℕ) → WalletAction
  add_session_key_action :
      (account key : String) (expiration_date : ℕ) (whitelist : Option (List String))
      (lane_id : Option Bytes)
      → WalletAction
  remove_session_key_action : (account key : String) → WalletAction
  use_session_key_action : (account : String) (nonce : ℕ) → WalletAction
  update_invite_code_public_key_action : (public_key smt_root : Bytes) → WalletAction

pub data Error : Type 0 where
  not_initialized missing_check_secret : Error
  invalid_authentication : (expected got : String) → Error
  bad_signature : SecpError → Error
  invalid_public_key account_mismatch already_registered invalid_nonce : Error
  key_exists key_not_found missing_tx_ctx missing_blobs : Error
  not_whitelisted : String → Error
  wrong_lane key_expired : Error

pub data Reply : Type 0 where
  registered : String → Reply
  verified key_added key_removed key_valid : Reply

abbrev pub from_secp : {A : Type 0} → Result SecpError A → Result Error A
from_secp (ok a) = ok a
from_secp (err e) = err (bad_signature e)

abbrev pub is_check_secret : ℕ × Blob → Bool
is_check_secret p = (p.1).contract_name == "check_secret"

abbrev invitation : String → String → List ℕ
invitation invite_code account =
    as_bytes "Invite - " ++ as_bytes invite_code ++ as_bytes " for " ++ as_bytes account

abbrev pub Step : Type 0
Step = AccountInfo × Result Error Reply

abbrev pub is_initialized : AuthMethod → Bool
is_initialized uninitialized = false
is_initialized (password _) = true

unfoldable pub register_identity : AccountInfo → String → ℕ → AuthMethod → Step
register_identity a account nonce auth_method =
    if not (a.identity == account)
    then (a, err already_registered)
    else if is_initialized a.auth_method
    then (a, err already_registered)
    else (record a { auth_method = auth_method; nonce = nonce }, ok (registered account))

unfoldable pub verify_identity : AccountInfo → ℕ → Step
verify_identity a nonce =
    if leb nonce a.nonce then (a, err invalid_nonce) else (record a { nonce = nonce }, ok verified)

abbrev pub has_key : String → SessionKey → Bool
has_key key sk = sk.public_key == key

unfoldable pub add_session_key :
    AccountInfo → String → ℕ → Option (List String) → Option Bytes → Step
add_session_key a key expiration_date whitelist lane_id =
    if any (has_key key) a.session_keys then (a, err key_exists) else (
      record a {
        session_keys = push a.session_keys (record {
          public_key = key;
          expiration_date = expiration_date;
          nonce = 0;
          whitelist = whitelist;
          lane_id = lane_id;
        });
        nonce = add_u128 a.nonce 1;
      },
      ok key_added,
    )

-- `retain` has run before the lengths are compared; if they are equal it has removed nothing.
unfoldable pub remove_session_key : AccountInfo → String → Step
remove_session_key a key =
    let kept = filter (λ sk. not (has_key key sk)) a.session_keys in
    if length kept == length a.session_keys
    then (record a { session_keys = kept }, err key_not_found)
    else (record a { session_keys = kept; nonce = add_u128 a.nonce 1 }, ok key_removed)

abbrev pub allows : Option (List String) → String → Bool
allows none name = true
allows (some names) name = contains names name

-- The blob is the contract's own, the signature, or of a contract on the whitelist.
abbrev pub blob_allowed : ℕ → SessionKey → ℕ × Blob → Bool
blob_allowed index sk (i, blob) =
    i == index || blob.contract_name == "secp256k1" || allows sk.whitelist blob.contract_name

abbrev pub lane_allowed : Option Bytes → Bytes → Bool
lane_allowed none lane = true
lane_allowed (some expected) lane = expected == lane

-- The tests on a session key that was found, in the order of the code.
unfoldable pub check_session_key : SessionKey → Calldata → TxContext → Result Error Unit
check_session_key sk calldata tx_ctx =
    elim (find (λ p. not (blob_allowed calldata.index sk p)) calldata.blobs) [
      | some p ↦ err (not_whitelisted (p.1).contract_name)
      | none ↦
          if not (lane_allowed sk.lane_id tx_ctx.lane_id)
          then err wrong_lane
          else if ltb tx_ctx.timestamp sk.expiration_date
          then ok tt
          else err key_expired
    ]

-- `session_key.nonce = nonce`, on the first key that `find` gives
unfoldable pub set_key_nonce : String → ℕ → List SessionKey → List SessionKey
set_key_nonce key nonce [] = []
set_key_nonce key nonce (sk ∷ sks) =
    if has_key key sk then record sk { nonce = nonce } ∷ sks else sk ∷ set_key_nonce key nonce sks

unfoldable pub use_session_key : AccountInfo → String → Calldata → ℕ → Step
use_session_key a public_key calldata nonce = elim calldata.tx_ctx [
  | none ↦ (a, err missing_tx_ctx)
  | some tx_ctx ↦
      if not (length calldata.blobs == calldata.tx_blob_count)
      then (a, err missing_blobs)
      else elim (find (has_key public_key) a.session_keys) [
        | none ↦ (a, err key_not_found)
        | some sk ↦ elim (check_session_key sk calldata tx_ctx) [
          | err e ↦ (a, err e)
          | ok _ ↦ (
            record a { session_keys = set_key_nonce public_key nonce a.session_keys },
            ok key_valid,
          )
        ]
      ]
]

-- the `match` of `handle_authenticated_action`; the last clause is its `unreachable!()`
unfoldable pub authenticated : AccountInfo → WalletAction → Step
authenticated a (verify_identity_action account nonce) =
    if not (a.identity == account) then (a, err account_mismatch) else verify_identity a nonce
authenticated a (add_session_key_action account key expiration_date whitelist lane_id) =
    if not (a.identity == account)
    then (a, err account_mismatch)
    else add_session_key a key expiration_date whitelist lane_id
authenticated a (remove_session_key_action account key) = remove_session_key a key
authenticated a _ = (a, err account_mismatch)

-- `hex` is `hex::encode`; `decode` and `sha256` are those of the signature check.
module _ (hex : Bytes → String) (decode : Bytes → Option Secp256k1Blob)
    (sha256 : Bytes → Bytes) where
  -- `AuthMethod::verify`
  unfoldable pub verify : AuthMethod → Calldata → Result Error Unit
  verify uninitialized calldata = err not_initialized
  verify (password hash) calldata = elim (find is_check_secret calldata.blobs) [
    | none ↦ err missing_check_secret
    | some p ↦
        if hex (p.1).payload == hash
        then ok tt
        else err (invalid_authentication hash (hex (p.1).payload))
  ]

  unfoldable pub check_for_invite_code : String → String → Calldata → Bytes → Result Error Unit
  check_for_invite_code account invite_code calldata public_key = do
    secp ← from_secp (expect decode sha256 calldata (invitation invite_code account) none)
    bail_if (not (secp.public_key == public_key)) invalid_public_key

  unfoldable pub handle_registration : AccountInfo → String → ℕ → AuthMethod → Calldata → Step
  handle_registration a account nonce auth_method calldata = elim (verify auth_method calldata) [
    | err e ↦ (a, err e)
    | ok _ ↦ register_identity a account nonce auth_method
  ]

  unfoldable pub handle_session_key_usage : AccountInfo → String → ℕ → Calldata → Step
  handle_session_key_usage a account nonce calldata =
      if not (a.identity == account)
      then (a, err account_mismatch)
      else elim (expect decode sha256 calldata (decimal 39 nonce) none) [
        | err e ↦ (a, err (bad_signature e))
        | ok secp ↦ use_session_key a (hex secp.public_key) calldata nonce
      ]

  unfoldable pub handle_authenticated_action : AccountInfo → WalletAction → Calldata → Step
  handle_authenticated_action a action calldata = elim (verify a.auth_method calldata) [
    | err e ↦ (a, err e)
    | ok _ ↦ authenticated a action
  ]

  -- The dispatch of `execute` on the account that the proof is about.
  unfoldable pub run_action : AccountInfo → WalletAction → Calldata → Bytes → Step
  run_action a (register_identity_action account nonce salt auth_method invite_code) calldata pk =
      elim (check_for_invite_code account invite_code calldata pk) [
        | err e ↦ (a, err e)
        | ok _ ↦ handle_registration a account nonce auth_method calldata
      ]
  run_action a (use_session_key_action account nonce) calldata pk =
      handle_session_key_usage a account nonce calldata
  run_action a action calldata pk = handle_authenticated_action a action calldata
