-- ===== src/Node/Store/Settling.antt =====
-- What `try_to_settle_blob_tx` of node_state.rs promises of the transaction that it settles.
use truth_seeker.Common.{
  ◌≡◌, refl, sym, ap, ◌∙◌, Bool, true, false, String, none, some, List, [], string_eq, not, ◌&&◌,
  any, all, filter, arith, Result, ok, err, is_ok, ◌⊎◌, inl, inr, Bool-cases, Option-cases,
}
use truth_seeker.Common.Maps.{get}
use truth_seeker.Sdk.Types.{Bytes}
use truth_seeker.Node.Types.{UnsettledBlobTransaction, Decoders}
use truth_seeker.Node.Orders.{is_next_to_settle, remove_tx}
use truth_seeker.Node.Orders.Arrivals.{Models, lookup, other_hash}
use truth_seeker.Node.Orders.Refines.{remove_tx-Models}
use truth_seeker.Node.Settlement.{SettlementResult, SettleEvent, Settled}
use truth_seeker.Node.Settlement.Outcomes.{Settles, Fails}
use truth_seeker.Node.Settlement.Sound.{settle-Settles, settle-Fails}
use truth_seeker.Node.Store.{
  NodeStateStore, native_failed, blobs_of, is_known, attempt, settle_result, try_to_settle_blob_tx,
  Label, label_of,
}

module _ (valid_program : String → Bytes → Bool) (decoders : Decoders) where
  -- How a transaction of the store has been settled: as a success, in its turn, with proofs that
  -- settle all of its blobs, or as a failure that is shown.
  pub Grounds :
      NodeStateStore → String → UnsettledBlobTransaction → Result Unit SettlementResult → Type 0
  Grounds s hash tx (ok r) =
      (is_next_to_settle s.unsettled_transactions hash ≡ true)
      × Settles valid_program decoders s.contracts (blobs_of tx) [] r.blob_proof_output_indices
          r.contract_changes
  Grounds s hash tx (err _) =
      (any native_failed tx.blobs ≡ true)
      ⊎ Fails valid_program decoders s.contracts (blobs_of tx) []

  -- The tests that a transaction that is settled has passed.
  pub record IsSettled (s s' : NodeStateStore) (hash : String) (tx : UnsettledBlobTransaction)
      (events : List SettleEvent) (label' : Label) (r : Result Unit SettlementResult) : Type 0 where
    pub found : get (s.unsettled_transactions).map hash ≡ some tx
    pub known : all (is_known s.contracts) tx.blobs ≡ true
    pub attempted : (attempt valid_program decoders s.contracts tx events).0 ≡ some r
    pub in_turn : (is_ok r && not (is_next_to_settle s.unsettled_transactions hash)) ≡ false
    pub labelled : label' ≡ label_of tx
    pub after :
        s'
        ≡ record s { unsettled_transactions = (remove_tx decoders s.unsettled_transactions hash).0 }

  settled_cases :
      (s s' : NodeStateStore) (hash : String) (tx t : UnsettledBlobTransaction)
      (events events' : List SettleEvent) (label' : Label) (r : Result Unit SettlementResult)
      (a : Settled)
      → settle_result valid_program decoders s t hash a ≡ (s', events', label', ok (tx, r))
      → (t ≡ tx)
        × (a.0 ≡ some r)
        × ((is_ok r && not (is_next_to_settle s.unsettled_transactions hash)) ≡ false)
        × (label' ≡ label_of t)
        × (s' ≡ record s {
          unsettled_transactions = (remove_tx decoders s.unsettled_transactions hash).0;
        })
  unfolding settle_result
  settled_cases s s' hash tx t events events' label' r (none, ev) h = cc
  settled_cases s s' hash tx t events events' label' r (some r', ev) h =
      elim (Bool-cases (is_ok r' && not (is_next_to_settle s.unsettled_transactions hash))) [
        | inl waits ↦ ground arith
        | inr ready ↦ (ground arith, ground arith, ground arith, ground arith, ground arith)
      ]

  reaches :
      (s : NodeStateStore) (hash : String) (events : List SettleEvent) (label : Label)
      (t : UnsettledBlobTransaction)
      → get (s.unsettled_transactions).map hash ≡ some t
      → all (is_known s.contracts) t.blobs ≡ true
      → try_to_settle_blob_tx valid_program decoders s hash events label
        ≡ settle_result valid_program decoders s t hash
            (attempt valid_program decoders s.contracts t events)
  unfolding try_to_settle_blob_tx
  reaches s hash events label t found known = rw (found, known, try_to_settle_blob_tx) refl

  pub try-IsSettled :
      (s s' : NodeStateStore) (hash : String) (events events' : List SettleEvent)
      (label label' : Label) (tx : UnsettledBlobTransaction) (r : Result Unit SettlementResult)
      → try_to_settle_blob_tx valid_program decoders s hash events label
        ≡ (s', events', label', ok (tx, r))
      → IsSettled s s' hash tx events label' r
  unfolding try_to_settle_blob_tx
  try-IsSettled s s' hash events events' label label' tx r h =
      elim (Option-cases (get (s.unsettled_transactions).map hash)) [
        | inl absent ↦ ground arith
        | inr (t, found) ↦ elim (Bool-cases (all (is_known s.contracts) t.blobs)) [
          | inr unknown ↦ ground arith
          | inl known ↦
              let (same, attempted, in_turn, labelled, after) =
                settled_cases s s' hash tx t events events' label' r
                  (attempt valid_program decoders s.contracts t events)
                  (sym (reaches s hash events label t found known) ∙ h) in
              record {
                found = found ∙ ap some same;
                known =
                    ap (λ (x : UnsettledBlobTransaction). all (is_known s.contracts) x.blobs)
                      (sym same)
                    ∙ known;
                attempted =
                    ap (λ x. (attempt valid_program decoders s.contracts x events).0) (sym same)
                    ∙ attempted;
                in_turn = in_turn;
                labelled = labelled ∙ ap label_of same;
                after = after;
              }
        ]
      ]

  attempt-Grounds :
      (s : NodeStateStore) (hash : String) (tx : UnsettledBlobTransaction)
      (events : List SettleEvent) (r : Result Unit SettlementResult)
      → (attempt valid_program decoders s.contracts tx events).0 ≡ some r
      → (is_ok r && not (is_next_to_settle s.unsettled_transactions hash)) ≡ false
      → Grounds s hash tx r
  unfolding attempt Grounds
  attempt-Grounds s hash tx events (ok r) h next =
      let (found, same, settles) =
        settle-Settles valid_program decoders s.contracts (blobs_of tx) [] [] events r
          (ground arith) in
      (ground arith, rw same settles)
  attempt-Grounds s hash tx events (err u) h next = elim (Bool-cases (any native_failed tx.blobs)) [
    | inl native ↦ inl native
    | inr proofs ↦
        inr (
          settle-Fails valid_program decoders s.contracts (blobs_of tx) [] [] events (ground arith))
  ]

  -- A transaction that is settled was in the list of unsettled ones, with all of its contracts
  -- registered; there are grounds for the result; the parent hash and the lane that are handed out
  -- are its own; and the list is the one without it. Nothing else of the store has changed.
  pub try_to_settle_sound :
      (s s' : NodeStateStore) (txs : List UnsettledBlobTransaction) (hash : String)
      (events events' : List SettleEvent) (label label' : Label) (tx : UnsettledBlobTransaction)
      (r : Result Unit SettlementResult)
      → Models decoders s.unsettled_transactions txs
      → try_to_settle_blob_tx valid_program decoders s hash events label
        ≡ (s', events', label', ok (tx, r))
      → (lookup hash txs ≡ some tx)
        × (all (is_known s.contracts) tx.blobs ≡ true)
        × Grounds s hash tx r
        × (label' ≡ label_of tx)
        × Models decoders s'.unsettled_transactions (filter (other_hash hash) txs)
        × (s' ≡ record s { unsettled_transactions = s'.unsettled_transactions })
  try_to_settle_sound s s' txs hash events events' label label' tx r m h =
      let t = try-IsSettled s s' hash events events' label label' tx r h in
      let (_, models) = remove_tx-Models decoders s.unsettled_transactions txs hash m in
      (
        sym (m.entries hash) ∙ t.found,
        t.known,
        attempt-Grounds s hash tx events r t.attempted t.in_turn,
        t.labelled,
        rw (t.after) models,
        rw (t.after) refl,
      )
