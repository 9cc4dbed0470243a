-- ===== src/Node/Blocks.antt =====
-- node_state.rs: `settle_txs_until_done` and `clear_timeouts`, the loops that settle what can be
-- settled while a block is handled.
pub mod Ends
use truth_seeker.Common.{
  ℕ, zero, suc, Bool, true, false, String, Option, none, some, List, [], ◌∷◌, ◌++◌, map, string_eq,
  nat_eq, push, length, if◌then◌else◌, Result, ok, err,
}
use truth_seeker.Common.Maps.{Map, get, insert}
use truth_seeker.Common.Sorted.{add_to, add_all}
use truth_seeker.Sdk.Types.{Bytes, Blob, TimeoutWindow, no_timeout, timeout}
use truth_seeker.Node.Types.{UnsettledBlobMetadata, UnsettledBlobTransaction, Decoders}
use truth_seeker.Node.Orders.{is_next_to_settle, remove_tx}
use truth_seeker.Node.Settlement.{SettleEvent}
use truth_seeker.Node.Store.{
  NodeStateStore, TryError, Label, Tried, drop, set, get_tx_timeout_window, blobs_of,
  try_to_settle_blob_tx,
}
use truth_seeker.Node.Proofs.{
  Block, TransactionStateEvent, settle_event, not_settled, or_default, add_event,
}
use truth_seeker.Node.Effects.{Readers, next_of, time_out_tx, on_settled_blob_tx}

abbrev pub or_text : Option String → String
or_text none = ""
or_text (some t) = t

abbrev pub or_key : Option Bytes → Bytes
or_key none = []
or_key (some k) = k

-- the `entry(…).or_default()` of the parent hash and the lane
abbrev pub label_in : Block → String → Label
label_in block hash = (or_text (get block.dp_parent_hashes hash), or_key (get block.lane_ids hash))

-- What `try_to_settle_blob_tx` writes to the block: the events, the parent hash and the lane.
abbrev pub with_events : Block → String → List SettleEvent → Label → Block
with_events block hash events (parent_hash, lane_id) = record block {
  transactions_events =
      insert block.transactions_events hash
        (or_default (get block.transactions_events hash) ++ map settle_event events);
  dp_parent_hashes = insert block.dp_parent_hashes hash parent_hash;
  lane_ids = insert block.lane_ids hash lane_id;
}

module _ (valid_program : String → Bytes → Bool) (readers : Readers) (decoders : Decoders) where
  -- The store, the block, and the transactions that could not be settled.
  abbrev pub Rounds : Type 0
  Rounds = NodeStateStore × Block × List String

  -- One round of the loop of `settle_txs_until_done` for each transaction to try, with what is to
  -- be done after a transaction has been settled.
  unfoldable pub try_all :
      (NodeStateStore → Block → List String → List String → Option Rounds)
      → NodeStateStore
      → Block
      → List String
      → List String
      → Option Rounds
  try_all continue s block unsettlable [] = some (s, block, unsettlable)
  try_all continue s block unsettlable (hash ∷ to_try) =
      let (s', events, label, r) =
        try_to_settle_blob_tx valid_program decoders s hash [] (label_in block hash) in
      let block' = with_events block hash events label in
      elim r [
        | err e ↦
            try_all continue s' (add_event block' hash (not_settled e)) (add_to hash unsettlable)
              to_try
        | ok (tx, result) ↦ elim (on_settled_blob_tx readers decoders s' block' hash tx result) [
          | none ↦ none
          | some (s'', block'', next) ↦ continue s'' block'' unsettlable (add_all next to_try)
        ]
      ]

  -- The loop, with a number of transactions that may be settled; `none` if there are more, or if a
  -- settlement does not end.
  unfoldable pub settle_at_most :
      ℕ → NodeStateStore → Block → List String → List String → Option Rounds
  settle_at_most zero s block unsettlable to_try =
      try_all (λ _ _ _ _. none) s block unsettlable to_try
  settle_at_most (suc n) s block unsettlable to_try =
      try_all (settle_at_most n) s block unsettlable to_try

  unfoldable pub settle_txs_until_done : NodeStateStore → Block → List String → Option Rounds
  settle_txs_until_done s block to_try =
      settle_at_most (length (s.unsettled_transactions).map) s block [] to_try
