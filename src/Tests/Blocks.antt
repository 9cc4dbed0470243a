-- ===== src/Tests/Blocks.antt =====
-- The handling of blocks of node_state.rs on a store with one transaction.
use truth_seeker.Common.{
  ◌≡◌, refl, Bool, false, String, Option, none, some, [], ◌∷◌, string_eq, arith, Result, ok,
}
use truth_seeker.Common.Maps.{get, insert}
use truth_seeker.Sdk.Types.{Blob, BlobTransaction}
use truth_seeker.Node.Orders.{add, remove_tx}
use truth_seeker.Node.Orders.Arrivals.{Models}
use truth_seeker.Node.Orders.Refines.{remove_tx-add}
use truth_seeker.Node.Store.{NodeStateStore}
use truth_seeker.Node.Sequencing.{NativeVerifier}
use truth_seeker.Node.Proofs.{Block}
use truth_seeker.Node.Tld.Privileged.{validate_hyle_contract_blobs}
use truth_seeker.Node.Effects.{Readers, note_blobs, force_nuked, with_output, at_state}
use truth_seeker.Node.Effects.Nukes.{nuke_unsigned}
use truth_seeker.Node.Blocks.{Rounds, settle_txs_until_done}
use truth_seeker.Node.Blocks.Ends.{IsDone, settle_txs-IsDone}
use truth_seeker.Node.Handling.{
  blob_transaction, SignedBlock, BlockError, empty_block, handle_signed_block,
}
use truth_seeker.Node.Handling.Timed.{Steady}
use truth_seeker.Node.Handling.Steady.{handle_signed_block-Steady}
use truth_seeker.Tests.Node.{
  no_actions, any_program, token, output, won, token_blob, tx, one_tx, one_tx-Models, empty_map,
  empty-Models, store, name_hash,
}

abbrev no_readers : Readers
no_readers = record { nuke_txs = λ _. none; staking_action = λ _. none }

settle_txs-IsDone_example :
    (r : Rounds any_program no_readers no_actions) × (settle_txs_until_done any_program no_readers
        no_actions
        (store one_tx)
        empty_block
        ("other" ∷ "tx" ∷ [])
      ≡ some r)
    × IsDone any_program no_readers no_actions (tx ∷ []) ("other" ∷ "tx" ∷ []) [] r
settle_txs-IsDone_example =
    settle_txs-IsDone any_program no_readers no_actions (store one_tx) empty_block
      ("other" ∷ "tx" ∷ []) (tx ∷ []) one_tx-Models

remove_tx-add_example :
    ((remove_tx no_actions one_tx "tx").1 ≡ some tx)
    × Models no_actions (remove_tx no_actions one_tx "tx").0 []
remove_tx-add_example = remove_tx-add no_actions empty_map [] tx empty-Models refl

abbrev call : BlobTransaction
call = record { identity = "bob@token"; blobs = token_blob ∷ [] }

abbrev signed : SignedBlock
signed = record {
  height = 500_001;
  timestamp = 9;
  hash = "block";
  data_proposals =
      (1 ∷ [], record { parent_data_proposal_hash = none; txs = blob_transaction call ∷ [] } ∷ [])
      ∷ [];
}

abbrev refuses : Blob → NativeVerifier → Option (String × Bool)
refuses _ _ = none

handle_signed_block-Steady_example :
    (r : NodeStateStore × Result BlockError Block) × (handle_signed_block any_program no_readers
        no_actions
        (λ _. "call")
        name_hash
        (λ _. none)
        (λ x. x)
        none
        refuses
        (λ _. "lane")
        (λ _. "call")
        (store one_tx)
        signed
      ≡ some r)
    × Steady no_actions (r.0).unsettled_transactions
handle_signed_block-Steady_example =
    handle_signed_block-Steady any_program no_readers no_actions (λ _. "call") name_hash (λ _. none)
      (λ x. x) none refuses (λ _. "lane") (λ _. "call") (store one_tx) signed
      (record { txs = tx ∷ []; models = one_tx-Models })

-- Every blob is read as a list that names the transaction of the store.
abbrev nuking_readers : Readers
nuking_readers = record {
  nuke_txs = λ _. some (("tx", output false ∷ []) ∷ []);
  staking_action = λ _. none;
}

nuke_unsigned_example :
    let nukes =
      (note_blobs nuking_readers "call" "bob@token" [] ((0, won) ∷ []) empty_block []).1 in
    let r = force_nuked nuking_readers no_actions "call" nukes [] (store one_tx, empty_block) in
    (validate_hyle_contract_blobs no_actions (λ _. "call") (λ _. none) (λ x. x) none call ≡ ok tt)
    × (get ((r.0).unsettled_transactions).map "tx"
        ≡ some (with_output tx (token.program_id, at_state token (output false)) won))
    × (r.2 ≡ "tx" ∷ [])
unfolding get add insert
nuke_unsigned_example =
    nuke_unsigned nuking_readers no_actions (λ _. "call") (λ _. none) (λ x. x) none call
      (store one_tx) empty_block "call" "bob@token" "tx" 0 [] won won (output false) tx token
      ((λ e. ground (arith, string_eq.beq_iff "token" "hyle", e)), tt) refl refl refl refl
