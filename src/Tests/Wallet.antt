-- ===== src/Tests/Wallet.antt =====
-- The theorems on the wallet contract at concrete inputs.
use truth_seeker.Common.{◌<◌, ◌≡◌, refl, true, String, Option, none, some, [], ◌∷◌, ok, err}
use truth_seeker.Sdk.Types.{Bytes, IndexedBlobs, TxContext, Calldata, decimal}
use truth_seeker.Sdk.Context.{Borsh, ExecutionContext, parse_raw_calldata}
use truth_seeker.Sdk.Secp256k1.{Secp256k1Blob, expect, find_blob}
use truth_seeker.Sdk.Secp256k1.Check.{IsSigned}
use truth_seeker.Wallet.{
  SessionKey, password, uninitialized, AccountInfo, WalletAction, verify_identity_action,
  invalid_nonce, verified, key_valid, verify, handle_authenticated_action, handle_session_key_usage,
  run_action, authenticated, use_session_key, check_session_key, verify_identity,
}
use truth_seeker.Wallet.Authentication.{verify_identity_once}
use truth_seeker.Wallet.Sessions.{IsUsed, handle_session_key_usage_sound}
use truth_seeker.Wallet.Sessions.Replay.{session_key_replay}
use truth_seeker.Wallet.View.{
  Merkle, default_invite_code_public_key, WalletZkView, execute, dispatch, run_account, pop, run_on,
  settle,
}
use truth_seeker.Wallet.View.Commitment.{IsProved}
use truth_seeker.Wallet.View.Execute.{execute-IsProved}

abbrev hex : Bytes → String
hex _ = "hash"

abbrev sha256 : Bytes → Bytes
sha256 _ = 9 ∷ []

abbrev decode : Bytes → Option Secp256k1Blob
decode _ =
    some (record {
      identity = "bob@wallet";
      message_hash = 9 ∷ [];
      public_key = 1 ∷ [];
      signature = [];
    })

abbrev session_key : SessionKey
session_key = record {
  public_key = "hash";
  expiration_date = 100;
  nonce = 0;
  whitelist = none;
  lane_id = none;
}

abbrev bob : AccountInfo
bob = record {
  identity = "bob";
  auth_method = password "hash";
  session_keys = session_key ∷ [];
  nonce = 5;
}

abbrev new_bob : AccountInfo
new_bob = record { identity = "bob"; auth_method = uninitialized; session_keys = []; nonce = 0 }

abbrev now : TxContext
now = record { lane_id = []; block_hash = ""; block_height = 1; timestamp = 50; chain_id = 1 }

abbrev blobs : IndexedBlobs
blobs =
    (0, record { contract_name = "wallet"; payload = 1 ∷ [] })
    ∷ (1, record { contract_name = "check_secret"; payload = [] })
    ∷ (2, record { contract_name = "secp256k1"; payload = [] })
    ∷ []

abbrev call : Calldata
call = record {
  tx_hash = "tx";
  identity = "bob@wallet";
  blobs = blobs;
  tx_blob_count = 3;
  index = 0;
  tx_ctx = some now;
  private_input = [];
}

verify_identity_once_example :
    let b =
      (handle_authenticated_action hex decode sha256 bob (verify_identity_action "bob" 6) call).0 in
    (5 < 6)
    × (b ≡ record bob { nonce = 6 })
    × (handle_authenticated_action hex decode sha256 b (verify_identity_action "bob" 6) call
        ≡ (b, err invalid_nonce))
unfolding handle_authenticated_action verify authenticated verify_identity
verify_identity_once_example = verify_identity_once hex decode sha256 bob "bob" 6 call verified refl

handle_session_key_usage_sound_example :
    (bob.identity ≡ "bob")
    × (secp : Secp256k1Blob) × IsSigned decode sha256 call (decimal 39 7) secp
    × IsUsed bob (handle_session_key_usage hex decode sha256 bob "bob" 7 call).0 "hash" call 7
unfolding handle_session_key_usage expect find_blob use_session_key check_session_key
handle_session_key_usage_sound_example =
    handle_session_key_usage_sound hex decode sha256 bob "bob" 7 call key_valid refl

session_key_replay_example :
    let b = (handle_session_key_usage hex decode sha256 bob "bob" 7 call).0 in
    handle_session_key_usage hex decode sha256 b "bob" 7 call ≡ (b, ok key_valid)
unfolding handle_session_key_usage expect find_blob use_session_key check_session_key
session_key_replay_example = session_key_replay hex decode sha256 bob "bob" 7 call key_valid refl

-- A tree whose root is the leaf that it is asked about.
abbrev tree : Merkle
tree = record {
  Proof = Unit;
  key_of = λ _. [];
  leaf_of = λ a. a.nonce ∷ [];
  root = λ _ key leaf. some leaf;
  check = λ _ root key leaf. some true;
  commitment = λ root key. root;
}

abbrev view : WalletZkView hex decode sha256 tree
view = record {
  commitment = 5 ∷ [];
  invite_code_public_key = default_invite_code_public_key;
  partial_data = record { proof = tt; account_info = bob } ∷ [];
}

abbrev borsh : WalletAction → Borsh WalletAction
borsh action = record { raw = λ _. some action; structured = λ _. none; header = λ _. none }

abbrev wallet_context : ExecutionContext
wallet_context = record { callees_blobs = []; caller = "bob@wallet"; contract_name = "wallet" }

execute-IsProved_example :
    IsProved hex decode sha256 tree view
      (execute hex decode sha256 tree (borsh (verify_identity_action "bob" 6)) view call).0
      (verify_identity_action "bob" 6)
      call
      verified
unfolding parse_raw_calldata execute dispatch run_account pop run_on settle run_action
    handle_authenticated_action verify authenticated verify_identity
execute-IsProved_example =
    execute-IsProved hex decode sha256 tree (borsh (verify_identity_action "bob" 6)) view call
      (verify_identity_action "bob" 6) wallet_context wallet_context verified [] refl refl
