-- ===== src/Node/Store.antt =====
-- node_state.rs: the store of the node, timeout windows, and `try_to_settle_blob_tx`; and
-- node_state/timeouts.rs. A `BlockHeight` is a `u64`.
pub mod Settling
pub mod Windows
use truth_seeker.Common.{
  ℕ, ◌+◌, ◌%◌, ◌^◌, Bool, true, false, String, Option, none, some, List, [], ◌∷◌, ◌==◌, string_eq,
  nat_eq, not, ◌&&◌, any, all, map, push, contains, ltb, leb, if◌then◌else◌, Result, ok, err, is_ok,
}
use truth_seeker.Common.Maps.{Map, get, insert, remove, contains_key}
use truth_seeker.Sdk.Types.{Bytes, Blob, TimeoutWindow, no_timeout, timeout, HyleOutput}
use truth_seeker.Node.Types.{Contract, UnsettledBlobMetadata, UnsettledBlobTransaction, Decoders}
use truth_seeker.Node.Orders.{OrderedTxMap, is_next_to_settle, remove_tx}
use truth_seeker.Node.Changes.{Contracts}
use truth_seeker.Node.Settlement.{SettlementResult, SettleEvent, Settled, settle_blobs_recursively}

pub record Timeouts : Type 0 where
  pub by_block : Map ℕ (List String)

abbrev pub or_none : Option (List String) → List String
or_none none = []
or_none (some txs) = txs

unfoldable pub drop : Timeouts → ℕ → Timeouts × List String
drop t height = (record { by_block = remove t.by_block height }, or_none (get t.by_block height))

-- The sum of the heights wraps round in a release build.
unfoldable pub set : Timeouts → String → ℕ → ℕ → Timeouts
set t tx height window =
    let at = (height + window) % 2 ^ 64 in
    record { by_block = insert t.by_block at (push (or_none (get t.by_block at)) tx) }

pub record NodeStateStore : Type 0 where
  pub timeouts : Timeouts
  pub current_height : ℕ
  pub contracts : Contracts
  pub unsettled_transactions : OrderedTxMap

-- `min` by the order on windows, in which `no_timeout` is the greatest
abbrev pub min_window : TimeoutWindow → TimeoutWindow → TimeoutWindow
min_window no_timeout w = w
min_window (timeout a) no_timeout = timeout a
min_window (timeout a) (timeout b) = if leb a b then timeout a else timeout b

-- The `match` of the heights up to 445 000.
abbrev pub old_window : TimeoutWindow → TimeoutWindow → TimeoutWindow
old_window no_timeout w = w
old_window (timeout a) no_timeout = no_timeout
old_window (timeout a) (timeout b) = if leb a b then timeout a else timeout b

unfoldable pub fold_windows :
    (TimeoutWindow → TimeoutWindow → TimeoutWindow)
    → Contracts
    → TimeoutWindow
    → List Blob
    → TimeoutWindow
fold_windows f contracts w [] = w
fold_windows f contracts w (blob ∷ blobs) =
    fold_windows f contracts
      (elim (get contracts blob.contract_name) [ none ↦ w | some c ↦ f w c.timeout_window ]) blobs

unfoldable pub get_tx_timeout_window : NodeStateStore → List Blob → TimeoutWindow
unfolding fold_windows
get_tx_timeout_window s blobs =
    if ltb 445_000 s.current_height
    then fold_windows min_window s.contracts no_timeout blobs
    else fold_windows old_window s.contracts no_timeout blobs

pub data TryError : Type 0 where
  tx_not_found contracts_not_registered not_ready not_next : TryError

-- The out-parameters `dp_parent_hash` and `lane_id`.
abbrev pub Label : Type 0
Label = String × Bytes

abbrev pub label_of : UnsettledBlobTransaction → Label
label_of tx = (tx.parent_dp_hash, (tx.tx_context).lane_id)

abbrev native_contracts : List String
native_contracts = "blst" ∷ "sha3_256" ∷ "secp256k1" ∷ []

-- A blob of a native verifier that holds an output of a failure.
abbrev pub native_failed : ℕ × UnsettledBlobMetadata → Bool
native_failed (i, metadata) =
    contains native_contracts metadata.blob.contract_name
    && any (λ (p : Bytes × HyleOutput). not (p.1).success) metadata.possible_proofs

abbrev pub blobs_of : UnsettledBlobTransaction → List UnsettledBlobMetadata
blobs_of tx = map (λ (p : ℕ × UnsettledBlobMetadata). p.1) tx.blobs

abbrev pub is_known : Contracts → ℕ × UnsettledBlobMetadata → Bool
is_known contracts (i, metadata) = contains_key contracts metadata.blob.contract_name

module _ (valid_program : String → Bytes → Bool) (decoders : Decoders) where
  -- the `if any(…)` of `try_to_settle_blob_tx`
  unfoldable pub attempt : Contracts → UnsettledBlobTransaction → List SettleEvent → Settled
  attempt contracts tx events =
      if any native_failed tx.blobs
      then (some (err tt), events)
      else settle_blobs_recursively valid_program decoders contracts (blobs_of tx) [] [] events

  -- The store, the events, the parent hash and lane, and the settled transaction with its result.
  abbrev pub Tried : Type 0
  Tried =
      NodeStateStore
      × List SettleEvent
      × Label
      × Result TryError (UnsettledBlobTransaction × Result Unit SettlementResult)

  unfoldable pub settle_result :
      NodeStateStore → UnsettledBlobTransaction → String → Settled → Tried
  settle_result s tx hash (none, events) = (s, events, label_of tx, err not_ready)
  settle_result s tx hash (some r, events) =
      if is_ok r && not (is_next_to_settle s.unsettled_transactions hash)
      then (s, events, label_of tx, err not_next)
      else (
        record s { unsettled_transactions = (remove_tx decoders s.unsettled_transactions hash).0 },
        events,
        label_of tx,
        ok (tx, r),
      )

  unfoldable pub try_to_settle_blob_tx : NodeStateStore → String → List SettleEvent → Label → Tried
  try_to_settle_blob_tx s hash events label = elim (get (s.unsettled_transactions).map hash) [
    | none ↦ (s, events, label, err tx_not_found)
    | some tx ↦
        if not (all (is_known s.contracts) tx.blobs)
        then (s, events, label_of tx, err contracts_not_registered)
        else settle_result s tx hash (attempt s.contracts tx events)
  ]
