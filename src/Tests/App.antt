-- ===== src/Tests/App.antt =====
-- The theorems on the application's contracts and server at concrete inputs.
use truth_seeker.Common.{
  ◌≡◌, ◌≢◌, refl, String, Option, none, some, List, [], ◌∷◌, arith, length, if◌then◌else◌, ◌==◌,
  string_eq, nat_eq, list_eq,
}
use truth_seeker.Sdk.Types.{Bytes, Blob, Calldata}
use truth_seeker.Sdk.Context.{Borsh}
use truth_seeker.App.ZkPassport.{
  ZkPassportProof, VerifiedUser, ZkPassport, ZkPassportAction, verify_identity_action,
  verify_identity, get_verified_user, handle,
}
use truth_seeker.App.ZkPassport.Verify.{IsAccepted}
use truth_seeker.App.ZkPassport.Invariant.{IsHandled, handle-IsHandled}
use truth_seeker.App.ZkPassport.Ids.{unique_ids_collide}
use truth_seeker.App.Counter.{Contract1Action, increment_action}
use truth_seeker.App.Server.{RouterCtx, ContractInit}

-- a proof for an address
abbrev proof_of : String → ZkPassportProof
proof_of address = record {
  proof = "";
  vkey_hash = "";
  name = "outer_evm_count_5";
  version = "0.5.2";
  committed_inputs = record {
    compare_age_evm = record { current_date = "2025-01-01"; min_age = 18; max_age = 0 };
    bind_evm = record { user_address = address; custom_data = "" };
  };
}

abbrev no_users : ZkPassport
no_users = record { verified_users = [] }

abbrev one_blob : Bytes → Calldata
one_blob payload = record {
  tx_hash = "tx";
  identity = "bob@wallet";
  blobs = (0, record { contract_name = "zkpassport"; payload = payload }) ∷ [];
  tx_blob_count = 1;
  index = 0;
  tx_ctx = none;
  private_input = [];
}

-- An encoding in which the bytes `[1]` are `a`, and no other bytes are anything.
abbrev decode_one : {A : Type 0} → A → Bytes → Option A
decode_one a bytes = if bytes == 1 ∷ [] then some a else none

abbrev borsh_one : {A : Type 0} → A → Borsh A
borsh_one a = record { raw = decode_one a; structured = λ _. none; header = λ _. none }

IsAccepted-aa : IsAccepted (proof_of "0xaa")
IsAccepted-aa = record { name = refl; age = omega arith; address = refl }

IsAccepted-bb : IsAccepted (proof_of "0xbb")
IsAccepted-bb = record { name = refl; age = omega arith; address = refl }

unique_ids_collide_example :
    let s' =
      (verify_identity
        (verify_identity no_users (proof_of "0xaa") "bob@wallet").0
        (proof_of "0xbb")
        "bob@wallet").0 in
    (u : VerifiedUser) × (v : VerifiedUser) × (get_verified_user s' "0xaa" ≡ some u)
    × (get_verified_user s' "0xbb" ≡ some v)
    × (u.user_address ≢ v.user_address)
    × (u.unique_id ≡ v.unique_id)
unfolding get_verified_user
unique_ids_collide_example =
    unique_ids_collide no_users (proof_of "0xaa") (proof_of "0xbb") "bob@wallet" IsAccepted-aa
      IsAccepted-bb (ground (arith, string_eq.beq_iff "0xaa" "0xbb")) refl refl refl

abbrev count_users : ZkPassport → Bytes
count_users s = length s.verified_users ∷ []

abbrev silent : {A : Type 0} → A → Bytes
silent _ = []

abbrev verify_aa : Borsh ZkPassportAction
verify_aa = borsh_one (verify_identity_action (proof_of "0xaa") "bob@wallet")

handle-IsHandled_example :
    let (s', out) =
      handle verify_aa count_users silent silent silent no_users (one_blob (1 ∷ [])) in
    IsHandled count_users silent silent silent no_users s' out
handle-IsHandled_example =
    handle-IsHandled count_users silent silent silent verify_aa no_users (one_blob (1 ∷ []))
      (record { recorded = tt; distinct = tt })

abbrev calls : List Calldata
calls = one_blob (1 ∷ []) ∷ one_blob [] ∷ one_blob (1 ∷ []) ∷ []

abbrev increment_call : Borsh Contract1Action
increment_call = borsh_one increment_action

abbrev router : RouterCtx
router = record {
  contract1_cn = "contract1";
  contract2_cn = "contract2";
  zkpassport_cn = "zkpassport";
}

abbrev wallet_blob : Blob
wallet_blob = record { contract_name = "wallet"; payload = [] }

abbrev contract : String → ContractInit
contract name = record { name = name; program_id = 1 ∷ []; initial_state = [] }

-- The indexer knows the first contract.
abbrev indexer : String → Option Bytes
indexer name = if name == "contract1" then some (1 ∷ []) else none

abbrev both : List ContractInit
both = contract "contract1" ∷ contract "contract2" ∷ []
