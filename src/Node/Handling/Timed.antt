-- ===== src/Node/Handling/Timed.antt =====
-- The unsettled transactions of node_state.rs and `clear_timeouts`.
use truth_seeker.Common.{
  ℕ, ◌≡◌, refl, ◌∙◌, Bool, String, some, List, [], ◌∷◌, string_eq, nat_eq, filter, Bool-cases,
  Option-cases, inl, inr,
}
use truth_seeker.Common.Maps.{get}
use truth_seeker.Sdk.Types.{Bytes, TimeoutWindow, no_timeout, timeout}
use truth_seeker.Node.Types.{UnsettledBlobTransaction, Decoders}
use truth_seeker.Node.Orders.{OrderedTxMap, is_next_to_settle, remove_tx}
use truth_seeker.Node.Orders.Arrivals.{other_hash, Models}
use truth_seeker.Node.Orders.Refines.{remove_tx-Models}
use truth_seeker.Node.Store.{NodeStateStore, drop, get_tx_timeout_window}
use truth_seeker.Node.Sequencing.{set_timeout, set_window}
use truth_seeker.Node.Proofs.{Block}
use truth_seeker.Node.Effects.{Readers, next_of, time_out_tx}
use truth_seeker.Node.Blocks.Ends.{settle_txs-IsDone}
use truth_seeker.Node.Handling.{
  blobs_in, set_timeouts, settle_and_set, time_out_due, clear_timeouts,
}

pub set_window-unsettled :
    (s : NodeStateStore) (hash : String) (w : TimeoutWindow)
    → (set_window s hash w).unsettled_transactions ≡ s.unsettled_transactions
set_window-unsettled s hash no_timeout = refl
set_window-unsettled s hash (timeout window) = refl

set_timeouts-unsettled :
    (hashes : List String) (s : NodeStateStore)
    → (set_timeouts hashes s).unsettled_transactions ≡ s.unsettled_transactions
unfolding set_timeouts
set_timeouts-unsettled [] s = refl
set_timeouts-unsettled (hash ∷ hashes) s =
    elim (Bool-cases (is_next_to_settle s.unsettled_transactions hash)) [
      | inr later ↦ rw (later, set_timeouts) (set_timeouts-unsettled hashes s)
      | inl next ↦ elim (Option-cases (get (s.unsettled_transactions).map hash)) [
        | inl absent ↦ rw (next, absent, set_timeouts) (set_timeouts-unsettled hashes s)
        | inr (tx, found) ↦
            rw (next, found, set_timeouts)
              (set_timeouts-unsettled hashes (set_timeout s hash (blobs_in tx))
                ∙ set_window-unsettled s hash (get_tx_timeout_window s (blobs_in tx)))
      ]
    ]

-- The map of unsettled transactions stands for a list of them in the order of their arrival.
pub record Steady (decoders : Decoders) (m : OrderedTxMap) : Type 0 where
  pub txs : List UnsettledBlobTransaction
  pub models : Models decoders m txs

module _ (valid_program : String → Bytes → Bool) (readers : Readers) (decoders : Decoders) where
  remove_tx-Steady :
      (m : OrderedTxMap) (hash : String)
      → Steady decoders m
      → Steady decoders (remove_tx decoders m hash).0
  remove_tx-Steady m hash h = record {
    txs = filter (other_hash hash) h.txs;
    models = (remove_tx-Models decoders m h.txs hash h.models).1;
  }

  pub settle_and_set-Steady :
      (s : NodeStateStore) (block : Block) (to_try : List String)
      → Steady decoders s.unsettled_transactions
      → (r : NodeStateStore × Block) × (settle_and_set valid_program readers decoders s block to_try
          ≡ some r)
        × Steady decoders (r.0).unsettled_transactions
  unfolding settle_and_set
  settle_and_set-Steady s block to_try h =
      let (r, done, d) =
        settle_txs-IsDone valid_program readers decoders s block to_try h.txs h.models in
      (
        (set_timeouts r.2 r.0, r.1),
        rw (done, settle_and_set) refl,
        rw (set_timeouts-unsettled r.2 r.0) (record { txs = d.left; models = d.models }),
      )

  time_out_due-Steady :
      (due : List String) (s : NodeStateStore) (block : Block)
      → Steady decoders s.unsettled_transactions
      → (r : NodeStateStore × Block × List String) × (time_out_due valid_program readers decoders
            due s block
          ≡ some r)
        × Steady decoders (r.0).unsettled_transactions
  unfolding time_out_due
  time_out_due-Steady [] s block h = ((s, block, []), refl, h)
  time_out_due-Steady (hash ∷ due) s block h =
      let x = remove_tx decoders s.unsettled_transactions hash in
      elim (Option-cases x.1) [
        | inl absent ↦
            let (r, done, k) = time_out_due-Steady due s block h in
            (r, rw (absent, time_out_due) done, k)
        | inr (tx, found) ↦
            let (r, done, k) =
              settle_and_set-Steady (record s { unsettled_transactions = x.0 })
                (time_out_tx block tx.hash tx) (next_of x.0 tx.blobs)
                (remove_tx-Steady s.unsettled_transactions hash h) in
            let (r', done', k') = time_out_due-Steady due r.0 r.1 k in
            ((r'.0, r'.1, hash ∷ r'.2), rw (found, done, done', time_out_due) refl, k')
      ]

  pub clear_timeouts-Steady :
      (s : NodeStateStore) (block : Block) (height : ℕ)
      → Steady decoders s.unsettled_transactions
      → (r : NodeStateStore × Block) × (clear_timeouts valid_program readers decoders s block height
          ≡ some r)
        × Steady decoders (r.0).unsettled_transactions
  unfolding clear_timeouts
  clear_timeouts-Steady s block height h =
      let d = drop s.timeouts height in
      let (r, done, k) = time_out_due-Steady d.1 (record s { timeouts = d.0 }) block h in
      ((r.0, record (r.1) { timed_out_txs = r.2 }), rw (done, clear_timeouts) refl, k)
