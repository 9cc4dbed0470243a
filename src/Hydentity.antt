-- ===== src/Hydentity.antt =====
-- manual_Scaffold/hyli/crates/contracts/hydentity/src/lib.rs and identity_provider.rs: the contract
-- that registers the hash of a password under a name, and checks a password once per nonce.
-- SHA-256, `hex` and `serde_json` are third-party code: `sha256`, `hex` and `to_json` are arguments.
-- A nonce is a `u32`, which wraps around in a release build. The messages of errors and answers are constructors with what the text shows.
pub mod Ids
pub mod Logins
use Prim.Native.Char.{code}
use Prim.Native.String.{String, ◌++◌}
use truth_seeker.Common.{
  ℕ, ◌+◌, ◌%◌, ◌^◌, Bool, true, false, Option, none, some, List, [], ◌∷◌, ◌==◌, string_eq, nat_eq,
  not, is_some, if◌then◌else◌, Result, ok, err, from_utf8, ok_or, ◌>>=◌,
}
use truth_seeker.Common.Maps.{Map, get, insert}
use truth_seeker.Sdk.Types.{Bytes, Calldata, OnchainEffect, as_bytes}
use truth_seeker.Sdk.Context.{Borsh, SdkError, ExecutionContext, parse_raw_calldata}

pub record AccountInfo : Type 0 where
  pub hash : String
  pub nonce : ℕ

pub record Hydentity : Type 0 where
  pub identities : Map String AccountInfo

pub data HydentityAction : Type 0 where
  register_identity_action : String → HydentityAction
  verify_identity_action : String → ℕ → HydentityAction
  get_identity_info_action : String → HydentityAction

pub data IdentityError : Type 0 where
  no_hash invalid_hash identity_exists invalid_nonce identity_not_found : IdentityError
  not_serialized not_parsed : IdentityError

pub data Error : Type 0 where
  bad_calldata : SdkError → Error
  invalid_utf8 : Error
  not_registered not_verified no_info : IdentityError → Error
  verification_failed : String → Error

pub data Reply : Type 0 where
  registered verified : String → Reply
  retrieved : String → String → Reply

-- `split(':')`: the piece before the first colon, and the pieces behind it.
unfoldable pub split : String → String × List String
split String.[] = ("", [])
split (String.◌∷◌ c s) =
    let rest = split s in
    if code c == 58 then ("", rest.0 ∷ rest.1) else (String.◌∷◌ c rest.0, rest.1)

unfoldable pub parse_id : String → Result IdentityError (String × String)
parse_id id =
    let (name, rest) = split id in elim rest [ [] ↦ err no_hash | hash ∷ _ ↦ ok (name, hash) ]

module _ (sha256 : Bytes → Bytes) (hex : Bytes → String) where
  -- the hash of `format!("{account}:{private_input}")`, in hexadecimal
  abbrev pub hash_of : String → String → String
  hash_of account private_input = hex (sha256 (as_bytes (account ++ ":" ++ private_input)))

  unfoldable pub build_id : String → String → String
  build_id account private_input = account ++ ":" ++ hash_of account private_input

  -- `insert(…)`, with the error behind it if there was a value
  abbrev pub store_new : Hydentity → String → AccountInfo → Hydentity × Result IdentityError Unit
  store_new h name info = (
    record { identities = insert h.identities name info },
    if is_some (get h.identities name) then err identity_exists else ok tt,
  )

  unfoldable pub register_identity :
      Hydentity → String → String → Hydentity × Result IdentityError Unit
  register_identity h registration private_input =
      let (name, rest) = split registration in
      elim rest [
        | [] ↦ (h, err no_hash)
        | hash ∷ _ ↦
            if not (hash == hash_of name private_input)
            then (h, err invalid_hash)
            else store_new h name (record { hash = hash_of name private_input; nonce = 0 })
      ]

  -- the account is known
  abbrev pub check_known :
      Hydentity → String → ℕ → String → AccountInfo → Hydentity × Result IdentityError Bool
  check_known h account nonce private_input info =
      if not (nonce == info.nonce)
      then (h, err invalid_nonce)
      else if not (info.hash == hash_of account private_input)
      then (h, ok false)
      else (
        record {
          identities =
              insert h.identities account (record info { nonce = (info.nonce + 1) % 2 ^ 32 });
        },
        ok true,
      )

  unfoldable pub verify_identity :
      Hydentity → String → ℕ → String → Hydentity × Result IdentityError Bool
  verify_identity h account nonce private_input = elim (get h.identities account) [
    | none ↦ (h, err identity_not_found)
    | some info ↦ check_known h account nonce private_input info
  ]

  module _ (to_json : AccountInfo → Option String) where
    unfoldable pub get_identity_info : Hydentity → String → Result IdentityError String
    get_identity_info h account = elim (get h.identities account) [
      | none ↦ err identity_not_found
      | some info ↦ ok_or (to_json info) not_serialized
    ]

    -- `from_json` is `serde_json::from_str`.
    unfoldable pub get_nonce :
        (String → Option AccountInfo) → Hydentity → String → Result IdentityError ℕ
    get_nonce from_json h username = do
      info ← get_identity_info h username
      state ← ok_or (from_json info) not_parsed
      ok state.nonce

    abbrev answer_register :
        String → Hydentity × Result IdentityError Unit → Hydentity × Result Error Reply
    answer_register account (h, ok _) = (h, ok (registered account))
    answer_register account (h, err e) = (h, err (not_registered e))

    abbrev answer_verify :
        String → Hydentity × Result IdentityError Bool → Hydentity × Result Error Reply
    answer_verify account (h, ok true) = (h, ok (verified account))
    answer_verify account (h, ok false) = (h, err (verification_failed account))
    answer_verify account (h, err e) = (h, err (not_verified e))

    abbrev answer_info : String → Result IdentityError String → Result Error Reply
    answer_info account (ok info) = ok (retrieved account info)
    answer_info account (err e) = err (no_info e)

    unfoldable pub execute_identity_action :
        Hydentity → HydentityAction → String → Hydentity × Result Error Reply
    execute_identity_action h (register_identity_action account) private_input =
        answer_register account (register_identity h account private_input)
    execute_identity_action h (verify_identity_action account nonce) private_input =
        answer_verify account (verify_identity h account nonce private_input)
    execute_identity_action h (get_identity_info_action account) private_input =
        (h, answer_info account (get_identity_info h account))

    abbrev with_context :
        ExecutionContext
        → Hydentity × Result Error Reply
        → Hydentity × Result Error (Reply × ExecutionContext × List OnchainEffect)
    with_context ctx (h, ok reply) = (h, ok (reply, ctx, []))
    with_context ctx (h, err e) = (h, err e)

    unfoldable pub execute :
        Borsh HydentityAction
        → Hydentity
        → Calldata
        → Hydentity × Result Error (Reply × ExecutionContext × List OnchainEffect)
    execute borsh h calldata = elim (parse_raw_calldata borsh calldata) [
      | err e ↦ (h, err (bad_calldata e))
      | ok (action, ctx) ↦ elim (from_utf8 calldata.private_input) [
        | none ↦ (h, err invalid_utf8)
        | some private_input ↦ with_context ctx (execute_identity_action h action private_input)
      ]
    ]
