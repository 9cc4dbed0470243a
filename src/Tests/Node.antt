-- ===== src/Tests/Node.antt =====
-- The theorems on the node's unsettled transactions and their settlement at concrete inputs.
use mathlib.Core.List.Memᴰ.{head, tail}
use truth_seeker.Common.{
  inr, ◌≡◌, refl, Bool, true, String, none, some, List, [], ◌∷◌, arith, ok, all, string_eq, ◌⊎◌,
}
use truth_seeker.Common.Maps.{get, insert, remove, get-empty}
use truth_seeker.Sdk.Types.{
  register_contract, blob_at, Bytes, Blob, BlobTransaction, TxContext, timeout, HyleOutput,
}
use truth_seeker.Node.Types.{
  Contract, UnsettledBlobMetadata, UnsettledBlobTransaction, RegisterContractAction, Decoders,
}
use truth_seeker.Node.Registration.{
  validate_contract_name_registration, split_once, validate_contract_registration_metadata,
  validate_state_commitment_size,
}
use truth_seeker.Node.Changes.{
  Contracts, Changes, get_contract, no_fields, all_fields, update_state, register,
  program_id_mismatch,
}
use truth_seeker.Node.Tld.{handle_register_blob, handle_blob_for_hyle_tld}
use truth_seeker.Node.Tld.Names.{handle_register_blob_fresh}
use truth_seeker.Node.Tld.Privileged.{
  check_blob, check_blobs, validate_hyle_contract_blobs, validate_spares,
}
use truth_seeker.Node.Orders.{
  OrderedTxMap, add, remove_tx, is_next_to_settle, enqueue, blocked_by, get_next_unsettled_tx,
  get_for_settlement,
}
use truth_seeker.Node.Orders.Arrivals.{Models, lookup}
use truth_seeker.Node.Orders.Refines.{add-Models, remove_tx-Models, is_next_to_settle-Models}
use truth_seeker.Node.Settlement.{
  SettlementResult, proof_not_settled, process_proof, check_state_reads, apply_effects,
  update_contract_state, try_proofs, settle_blob, settle_blobs_recursively,
}
use truth_seeker.Node.Settlement.Outcomes.{Settles}
use truth_seeker.Node.Settlement.Sound.{settle-none}
use truth_seeker.Node.Settlement.Checked.{IsChecked, process_proof-IsChecked}
use truth_seeker.Node.Outputs.{
  collected, effect_of, includes_all, check_effects, verify_hyle_output,
}
use truth_seeker.Node.Outputs.Verified.{IsVerified, verify-IsVerified}
use truth_seeker.Node.Outputs.Duplicates.{verify-duplicate}
use truth_seeker.Node.Proofs.{BlobProofOutput, Block, save_proof, handle_blob_proof}
use truth_seeker.Node.Handling.{empty_block}
use truth_seeker.Node.Proofs.Saved.{IsSaved, handle-IsSaved}
use truth_seeker.Node.Store.{
  NodeStateStore, is_known, try_to_settle_blob_tx, attempt, settle_result, label_of,
}
use truth_seeker.Node.Store.Settling.{Grounds, try_to_settle_sound}

-- No blob holds an action of the node.
abbrev pub no_actions : Decoders
no_actions = record {
  register = λ _. none;
  delete = λ _. none;
  update_program_id = λ _. none;
  update_timeout_window = λ _. none;
  nuke = λ _. none;
}

abbrev pub any_program : String → Bytes → Bool
any_program _ _ = true

abbrev pub token : Contract
token = record {
  name = "token";
  program_id = 7 ∷ [];
  state = 1 ∷ [];
  verifier = "risc0-1";
  timeout_window = timeout 100;
}

abbrev pub contracts : Contracts
contracts = ("token", token) ∷ []

abbrev here : TxContext
here = record { lane_id = []; block_hash = ""; block_height = 5; timestamp = 0; chain_id = 0 }

abbrev pub output : Bool → HyleOutput
output success = record {
  version = 1;
  initial_state = 1 ∷ [];
  next_state = 2 ∷ [];
  identity = "bob@wallet";
  index = 0;
  blobs = [];
  tx_blob_count = 1;
  tx_hash = "tx";
  success = success;
  state_reads = [];
  tx_ctx = none;
  onchain_effects = [];
  program_outputs = [];
}

abbrev pub token_blob : Blob
token_blob = record { contract_name = "token"; payload = [] }

abbrev proven : List (Bytes × HyleOutput) → UnsettledBlobMetadata
proven proofs = record { blob = token_blob; possible_proofs = proofs }

-- A proof of another program stands before the one that fits.
abbrev pub won : UnsettledBlobMetadata
won = proven ((8 ∷ [], output true) ∷ (7 ∷ [], output true) ∷ [])

abbrev pub tx : UnsettledBlobTransaction
tx = record {
  identity = "bob@wallet";
  parent_dp_hash = "";
  hash = "tx";
  tx_context = here;
  blobs_hash = [];
  blobs = (0, won) ∷ [];
}

abbrev pub empty_map : OrderedTxMap
empty_map = record { map = []; tx_order = [] }

pub empty-Models : Models no_actions empty_map []
empty-Models = record {
  distinct = tt;
  entries = λ hash. get-empty hash;
  orders = λ name. get-empty name;
}

add-Models_example :
    Models no_actions (add no_actions empty_map tx).0 (tx ∷ [])
    × ((add no_actions empty_map tx).1 ≡ some true)
unfolding blocked_by
add-Models_example = add-Models no_actions empty_map [] tx empty-Models refl

abbrev pub one_tx : OrderedTxMap
one_tx = (add no_actions empty_map tx).0

pub one_tx-Models : Models no_actions one_tx (tx ∷ [])
one_tx-Models = (add-Models no_actions empty_map [] tx empty-Models refl).0

remove_tx-Models_example :
    ((remove_tx no_actions one_tx "tx").1 ≡ some tx)
    × Models no_actions (remove_tx no_actions one_tx "tx").0 []
remove_tx-Models_example = remove_tx-Models no_actions one_tx (tx ∷ []) "tx" one_tx-Models

is_next_to_settle-Models_example : is_next_to_settle one_tx "tx" ≡ true
unfolding blocked_by
is_next_to_settle-Models_example =
    is_next_to_settle-Models no_actions one_tx (tx ∷ []) "tx" one_tx-Models

abbrev settled : SettlementResult
settled = record {
  contract_changes =
      (
        "token",
        (
          some (record token { state = 2 ∷ [] }),
          record no_fields { state = true },
          update_state ∷ [],
        ),
      )
      ∷ [];
  blob_proof_output_indices = 1 ∷ [];
}

settle-none_example :
    ¬ Settles any_program no_actions contracts
      (proven ((8 ∷ [], output true) ∷ []) ∷ [])
      []
      (0 ∷ [])
      []
unfolding settle_blobs_recursively settle_blob try_proofs process_proof
    validate_state_commitment_size get_contract get
settle-none_example =
    settle-none any_program no_actions contracts (proven ((8 ∷ [], output true) ∷ []) ∷ []) [] [] []
      (0 ∷ []) [] refl

process_proof-IsChecked_example :
    IsChecked any_program no_actions contracts [] "token"
      (7 ∷ [])
      (output true)
      token_blob
      settled.contract_changes
unfolding process_proof validate_state_commitment_size get_contract get check_state_reads
    apply_effects update_contract_state insert
process_proof-IsChecked_example =
    process_proof-IsChecked any_program no_actions contracts [] settled.contract_changes "token"
      (7 ∷ []) (output true) token_blob refl

abbrev hyle : String
hyle = "hyle"

abbrev sub_hyle : String
sub_hyle = "sub.hyle"

abbrev registration : RegisterContractAction
registration = record {
  verifier = "risc0-1";
  program_id = [];
  state_commitment = [];
  contract_name = "dex";
  timeout_window = none;
  constructor_metadata = none;
}

abbrev dex : Changes
dex =
    (
      "dex",
      (
        some (record {
          name = "dex";
          program_id = [];
          state = [];
          verifier = "risc0-1";
          timeout_window = timeout 100;
        }),
        all_fields,
        register none ∷ [],
      ),
    )
    ∷ []

abbrev no_changes : Changes
no_changes = []

handle_register_blob_fresh_example :
    (get no_changes "dex" ≡ none)
    × ((registration.contract_name ≡ "hyle") ⊎ (get contracts "dex" ≡ none))
unfolding handle_register_blob validate_contract_registration_metadata
    validate_contract_name_registration split_once validate_state_commitment_size get insert
handle_register_blob_fresh_example =
    handle_register_blob_fresh any_program no_actions contracts no_changes dex registration refl

-- Every blob holds the registration above.
abbrev registers : Decoders
registers = record no_actions {
  register = λ _. some (record { caller = none; callees = none; parameters = registration });
}

abbrev registering : BlobTransaction
registering = record {
  identity = "bob@wallet";
  blobs = token_blob ∷ record { contract_name = "hyle"; payload = [] } ∷ [];
}

validate_spares_example : get dex "token" ≡ get no_changes "token"
unfolding validate_hyle_contract_blobs check_blobs check_blob handle_blob_for_hyle_tld
    handle_register_blob validate_contract_registration_metadata validate_contract_name_registration
    split_once validate_state_commitment_size get insert
validate_spares_example =
    validate_spares registers (λ _. "tx") (λ _. none) (λ x. x) none any_program contracts no_changes
      registering (record { contract_name = "hyle"; payload = [] }) dex "token"
      (ground (arith, string_eq.beq_iff "bob@wallet" "hyli@wallet")) refl (tail (head refl)) refl
      refl (inr (λ e. ground (arith, string_eq.beq_iff "token" "hyle", e), refl))

abbrev pub store : OrderedTxMap → NodeStateStore
store txs = record {
  timeouts = record { by_block = [] };
  current_height = 500_000;
  contracts = contracts;
  unsettled_transactions = txs;
}

try_to_settle_sound_example :
    (lookup "tx" (tx ∷ []) ≡ some tx)
    × (all (is_known contracts) tx.blobs ≡ true)
    × Grounds any_program no_actions (store one_tx) "tx" tx (ok settled)
    × (label_of tx ≡ label_of tx)
    × Models no_actions (remove_tx no_actions one_tx "tx").0 []
    × (store (remove_tx no_actions one_tx "tx").0 ≡ store (remove_tx no_actions one_tx "tx").0)
unfolding try_to_settle_blob_tx get add insert enqueue blocked_by settle_result attempt
    settle_blobs_recursively settle_blob try_proofs process_proof validate_state_commitment_size
    get_contract check_state_reads apply_effects update_contract_state is_next_to_settle
    get_next_unsettled_tx
try_to_settle_sound_example =
    try_to_settle_sound any_program no_actions (store one_tx)
      (store (remove_tx no_actions one_tx "tx").0) (tx ∷ []) "tx" []
      (proof_not_settled 0 "token" program_id_mismatch ∷ []) ("", []) ("", []) tx (ok settled)
      one_tx-Models refl

-- A hash of the names only.
abbrev pub name_hash : Blob → String
name_hash blob = blob.contract_name

abbrev recorded_tx : UnsettledBlobTransaction
recorded_tx = record tx { blobs_hash = (0, "token") ∷ (1, "wallet") ∷ [] }

abbrev full_output : HyleOutput
full_output = record (output true) { blobs = (0, token_blob) ∷ [] }

-- Its blob registers the contract `dex`.
abbrev dex_output : HyleOutput
dex_output = record full_output {
  onchain_effects = register_contract (effect_of registration) ∷ [];
}

verify-IsVerified_example : IsVerified registers name_hash recorded_tx dex_output
unfolding verify_hyle_output includes_all collected check_effects remove get
verify-IsVerified_example = verify-IsVerified registers name_hash recorded_tx dex_output refl

abbrev forged_blob : Blob
forged_blob = record { contract_name = "forged"; payload = 1 ∷ [] }

verify-duplicate_example :
    (verify_hyle_output no_actions name_hash recorded_tx
        (record full_output { blobs = (0, forged_blob) ∷ full_output.blobs })
      ≡ verify_hyle_output no_actions name_hash recorded_tx full_output)
    × (blob_at ((0, forged_blob) ∷ full_output.blobs) 0 ≡ some forged_blob)
verify-duplicate_example =
    verify-duplicate no_actions name_hash recorded_tx full_output 0 forged_blob refl

abbrev recorded : OrderedTxMap
recorded = (add no_actions empty_map recorded_tx).0

abbrev proof : BlobProofOutput
proof = record { blob_tx_hash = "tx"; hyle_output = full_output; program_id = 7 ∷ [] }

abbrev handled : OrderedTxMap × Block
handled =
    let (m, block, _) = handle_blob_proof no_actions name_hash recorded empty_block "p" proof in
    (m, block)

handle-IsSaved_example : IsSaved no_actions name_hash recorded handled.0 proof (some "tx")
unfolding handle_blob_proof get_for_settlement get add insert verify_hyle_output includes_all
    collected remove check_effects save_proof get_next_unsettled_tx enqueue blocked_by
handle-IsSaved_example =
    handle-IsSaved no_actions name_hash recorded handled.0 empty_block handled.1 "p" proof
      (some "tx") refl
