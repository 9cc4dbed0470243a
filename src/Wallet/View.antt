-- ===== src/Wallet/View.antt =====
-- `WalletZkView` of manual_Scaffold/wallet/contracts/wallet/src/lib.rs: the contract as it runs in
-- the proof, on one account and its Merkle proof at a time.
-- The tree, its hashes and borsh are not under the repository: the record `Merkle`. An `expect`,
-- an `unwrap` or a `panic!` that fails is the outcome `panicked`, after which no proof exists.
pub mod Commitment
pub mod Execute
use truth_seeker.Common.{
  ℕ, Bool, true, false, String, Option, none, some, List, [], ◌∷◌, ◌==◌, list_eq, nat_eq, not,
  if◌then◌else◌, Result, ok, err,
}
use truth_seeker.Sdk.Types.{Bytes, Calldata, OnchainEffect}
use truth_seeker.Sdk.Context.{Borsh, SdkError, ExecutionContext, parse_raw_calldata}
use truth_seeker.Sdk.Secp256k1.{Secp256k1Blob}
use truth_seeker.Wallet.{
  AccountInfo, WalletAction, update_invite_code_public_key_action, Error, Reply, run_action,
}

-- `root proof key leaf` computes a root; `check proof root key leaf` verifies one, `none` for an
-- error; `commitment root key` is `get_state_commitment`.
pub record Merkle : Type 1 where
  pub Proof : Type 0
  pub key_of : String → Bytes
  pub leaf_of : AccountInfo → Bytes
  pub root : Proof → Bytes → Bytes → Option Bytes
  pub check : Proof → Bytes → Bytes → Bytes → Option Bool
  pub commitment : Bytes → Bytes → Bytes

abbrev pub default_invite_code_public_key : Bytes
default_invite_code_public_key =
    2 ∷ 82 ∷ 222 ∷ 37 ∷ 58 ∷ 251 ∷ 184 ∷ 56 ∷ 112 ∷ 182 ∷ 255 ∷ 255 ∷ 252 ∷ 221 ∷ 235 ∷ 53 ∷ 107 ∷ 2
    ∷ 98 ∷ 178 ∷ 4 ∷ 234 ∷ 13 ∷ 218 ∷ 118 ∷ 136 ∷ 8 ∷ 202 ∷ 95 ∷ 190 ∷ 184 ∷ 177 ∷ 226 ∷ []

pub data ViewError : Type 0 where
  bad_calldata : SdkError → ViewError
  key_already_set : ViewError
  proof_not_verified : ViewError
  account : Error → ViewError

pub data ViewReply : Type 0 where
  key_updated : ViewReply
  replied : Reply → ViewReply

abbrev pub Run : Type 0
Run = Result ViewError (ViewReply × ExecutionContext × List OnchainEffect)

pub data Outcome : Type 0 where
  returned : Run → Outcome
  panicked : Outcome

module _ (hex : Bytes → String) (decode : Bytes → Option Secp256k1Blob) (sha256 : Bytes → Bytes)
    (m : Merkle) where
  pub record PartialWalletData : Type 0 where
    pub proof : m.Proof
    pub account_info : AccountInfo

  pub record WalletZkView : Type 0 where
    pub commitment : Bytes
    pub invite_code_public_key : Bytes
    pub partial_data : List PartialWalletData

  -- The new commitment after the account's run.
  unfoldable pub settle :
      WalletZkView
      → ExecutionContext
      → m.Proof
      → Bytes
      → AccountInfo × Result Error Reply
      → WalletZkView × Outcome
  settle v ctx proof key (a, err e) = (v, returned (err (account e)))
  settle v ctx proof key (a, ok reply) = elim (m.root proof key (m.leaf_of a)) [
    | none ↦ (v, panicked)
    | some new_root ↦ (
      record v { commitment = m.commitment new_root v.invite_code_public_key },
      returned (ok (replied reply, ctx, [])),
    )
  ]

  -- `execute` on the account data that was popped, with the data that is left already in `v`.
  unfoldable pub run_on :
      WalletZkView
      → ExecutionContext
      → WalletAction
      → Calldata
      → PartialWalletData
      → WalletZkView × Outcome
  run_on v ctx action calldata d =
      let key = m.key_of d.account_info.identity in
      let leaf = m.leaf_of d.account_info in
      elim (m.root d.proof key leaf) [
        | none ↦ (v, panicked)
        | some root ↦ elim (m.check d.proof root key leaf) [
          | none ↦ (v, returned (err proof_not_verified))
          | some verified ↦
              if not (v.commitment == m.commitment root v.invite_code_public_key)
              then (v, panicked)
              else if not verified
              then (v, panicked)
              else settle v ctx d.proof key (
                  run_action hex decode sha256 d.account_info action calldata
                    v.invite_code_public_key)
        ]
      ]

  -- `self.partial_data.pop()` takes the last element.
  unfoldable pub pop : List PartialWalletData → Option (PartialWalletData × List PartialWalletData)
  pop [] = none
  pop (d ∷ ds) = elim (pop ds) [ none ↦ some (d, []) | some (l, init) ↦ some (l, d ∷ init) ]

  unfoldable pub run_account :
      WalletZkView → ExecutionContext → WalletAction → Calldata → WalletZkView × Outcome
  run_account v ctx action calldata = elim (pop v.partial_data) [
    | none ↦ (v, panicked)
    | some (d, rest) ↦ run_on (record v { partial_data = rest }) ctx action calldata d
  ]

  unfoldable pub dispatch :
      WalletZkView → ExecutionContext → WalletAction → Calldata → WalletZkView × Outcome
  dispatch v ctx (update_invite_code_public_key_action public_key smt_root) calldata =
      if not (v.invite_code_public_key == default_invite_code_public_key)
      then (v, returned (err key_already_set))
      else (
        record v {
          invite_code_public_key = public_key;
          commitment = m.commitment smt_root public_key;
        },
        returned (ok (key_updated, ctx, [])),
      )
  dispatch v ctx action calldata = run_account v ctx action calldata

  -- `ZkContract::execute`
  unfoldable pub execute : Borsh WalletAction → WalletZkView → Calldata → WalletZkView × Outcome
  execute borsh v calldata = elim (parse_raw_calldata borsh calldata) [
    | err e ↦ (v, returned (err (bad_calldata e)))
    | ok (action, ctx) ↦ dispatch v ctx action calldata
  ]
