-- ===== src/Node/Blocks/Ends.antt =====
-- On the loop of `settle_txs_until_done` of node_state.rs.
use truth_seeker.Common.{
  ℕ, zero, suc, ◌≤◌, ◌<◌, ◌≡◌, refl, ap, Bool, true, String, Option, none, some, List, [], ◌∷◌,
  ◌==◌, string_eq, contains, filter, length, arith, Result, ok, err, Result-cases, Bool-cases,
  Option-cases, ◌⊎◌, inl, inr,
}
use truth_seeker.Common.Maps.{get}
use truth_seeker.Common.Sorted.{add_to, add_all, contains-add_to, contains-add_all}
use truth_seeker.Sdk.Types.{Bytes}
use truth_seeker.Node.Types.{UnsettledBlobTransaction, Decoders}
use truth_seeker.Node.Orders.Arrivals.{lookup, other_hash, Models, lookup-filter}
use truth_seeker.Node.Settlement.{SettlementResult, Settled}
use truth_seeker.Node.Store.{
  NodeStateStore, TryError, Tried, attempt, settle_result, try_to_settle_blob_tx,
}
use truth_seeker.Node.Store.Settling.{try-IsSettled}
use truth_seeker.Node.Proofs.{Block, not_settled, add_event}
use truth_seeker.Node.Effects.{Readers}
use truth_seeker.Node.Effects.Left.{removed, on_settled-Left, fewer-filter}
use truth_seeker.Node.Orders.Refines.{remove_tx-Models}
use truth_seeker.Node.Blocks.{
  Rounds, label_in, with_events, try_all, settle_at_most, settle_txs_until_done,
}

module _ (valid_program : String → Bytes → Bool) (readers : Readers) (decoders : Decoders) where
  abbrev try : NodeStateStore → String → Block → Tried valid_program decoders
  try s hash block = try_to_settle_blob_tx valid_program decoders s hash [] (label_in block hash)

  refused_result :
      (s : NodeStateStore) (tx : UnsettledBlobTransaction) (hash : String) (e : TryError)
      (a : Settled)
      → (settle_result valid_program decoders s tx hash a).3 ≡ err e
      → (settle_result valid_program decoders s tx hash a).0 ≡ s
  unfolding settle_result
  refused_result s tx hash e (none, events) h = refl
  refused_result s tx hash e (some r, events) h = ground arith

  -- A transaction that is not settled leaves the store as it is.
  refused :
      (s : NodeStateStore) (hash : String) (block : Block) (e : TryError)
      → (try s hash block).3 ≡ err e
      → (try s hash block).0 ≡ s
  unfolding try_to_settle_blob_tx
  refused s hash block e h = elim (Option-cases (get (s.unsettled_transactions).map hash)) [
    | inl absent ↦ ground arith
    | inr (tx, found) ↦ ground (
      arith,
      found,
      refused_result s tx hash e (attempt valid_program decoders s.contracts tx []),
    )
  ]

  -- What the loop has done with transactions to try: each of them is among those that could not be
  -- settled, or is not left.
  pub record IsDone (txs : List UnsettledBlobTransaction) (to_try unsettlable : List String)
      (r : Rounds valid_program readers decoders) : Type 0 where
    pub left : List UnsettledBlobTransaction
    pub models : Models decoders (r.0).unsettled_transactions left
    pub fewer : (hash : String) → lookup hash txs ≡ none → lookup hash left ≡ none
    pub tried :
        (hash : String)
        → contains to_try hash ≡ true
        → (contains r.2 hash ≡ true) ⊎ (lookup hash left ≡ none)
    pub kept : (hash : String) → contains unsettlable hash ≡ true → contains r.2 hash ≡ true

  -- A transaction that is settled is not left.
  settled-Left :
      (s : NodeStateStore) (hash : String) (block : Block) (tx : UnsettledBlobTransaction)
      (result : Result Unit SettlementResult) (txs : List UnsettledBlobTransaction)
      → Models decoders s.unsettled_transactions txs
      → (try s hash block).3 ≡ ok (tx, result)
      → let m = ((try s hash block).0).unsettled_transactions in
        Models decoders m (filter (other_hash hash) txs)
        × (length m.map < length (s.unsettled_transactions).map)
  settled-Left s hash block tx result txs h tried =
      let x = try s hash block in
      let t =
        try-IsSettled valid_program decoders s x.0 hash [] x.1 (label_in block hash) x.2 tx result
          (ap (λ r. (x.0, x.1, x.2, r)) tried) in
      rw (t.after) (
        (remove_tx-Models decoders s.unsettled_transactions txs hash h).1,
        (removed decoders s.unsettled_transactions hash tx t.found).1,
      )

  -- What is asked of what is to be done after a transaction has been settled, which leaves fewer
  -- than `n`.
  abbrev Finishes :
      (NodeStateStore
        → Block
        → List String
        → List String
        → Option (Rounds valid_program readers decoders))
      → ℕ
      → Type 0
  Finishes continue n =
      (s : NodeStateStore) (block : Block) (unsettlable to_try : List String)
      (txs : List UnsettledBlobTransaction)
      → Models decoders s.unsettled_transactions txs
      → length (s.unsettled_transactions).map < n
      → (r : Rounds valid_program readers decoders) × (continue s block unsettlable to_try ≡ some r)
        × IsDone txs to_try unsettlable r

  -- After a transaction that was not settled.
  IsDone-refused :
      (txs : List UnsettledBlobTransaction) (hash : String) (to_try unsettlable : List String)
      (r : Rounds valid_program readers decoders)
      → IsDone txs to_try (add_to hash unsettlable) r
      → IsDone txs (hash ∷ to_try) unsettlable r
  IsDone-refused txs hash to_try unsettlable r d = record {
    left = d.left;
    models = d.models;
    fewer = d.fewer;
    tried = λ h listed. elim (Bool-cases (hash == h)) [
      | inl same ↦ inl (d.kept h (ground (arith, contains-add_to hash h unsettlable, same)))
      | inr other ↦ d.tried h (ground arith)
    ];
    kept = λ h listed. d.kept h (ground (arith, contains-add_to hash h unsettlable, listed));
  }

  -- After a transaction that was settled, with those that it makes the next ones.
  IsDone-settled :
      (txs ts : List UnsettledBlobTransaction) (hash : String)
      (to_try next unsettlable : List String) (r : Rounds valid_program readers decoders)
      → ((h : String) → lookup h (filter (other_hash hash) txs) ≡ none → lookup h ts ≡ none)
      → IsDone ts (add_all next to_try) unsettlable r
      → IsDone txs (hash ∷ to_try) unsettlable r
  IsDone-settled txs ts hash to_try next unsettlable r f d = record {
    left = d.left;
    models = d.models;
    fewer = λ h absent. d.fewer h (f h (fewer-filter decoders hash txs h absent));
    tried = λ h listed. elim (Bool-cases (hash == h)) [
      | inl same ↦ inr (d.fewer h (f h (ground (arith, lookup-filter hash h txs, same))))
      | inr other ↦ d.tried h (ground (arith, contains-add_all next to_try h, listed, other))
    ];
    kept = d.kept;
  }

  try_all-IsDone :
      (continue : NodeStateStore
        → Block
        → List String
        → List String
        → Option (Rounds valid_program readers decoders))
      (n : ℕ)
      → Finishes continue n
      → (to_try unsettlable : List String) (s : NodeStateStore) (block : Block)
        (txs : List UnsettledBlobTransaction)
      → Models decoders s.unsettled_transactions txs
      → length (s.unsettled_transactions).map ≤ n
      → (r : Rounds valid_program readers decoders) × (try_all valid_program readers decoders
            continue s block unsettlable to_try
          ≡ some r)
        × IsDone txs to_try unsettlable r
  unfolding try_all
  try_all-IsDone continue n finishes [] unsettlable s block txs h le = (
    (s, block, unsettlable),
    refl,
    record {
      left = txs;
      models = h;
      fewer = λ hash absent. absent;
      tried = λ hash listed. absurd (cc);
      kept = λ hash listed. listed;
    },
  )
  try_all-IsDone continue n finishes (hash ∷ to_try) unsettlable s block txs h le =
      let x = try s hash block in
      let block' = with_events block hash x.1 x.2 in
      elim (Result-cases x.3) [
        | inr (e, failed) ↦
            let same = refused s hash block e failed in
            let (r, done, d) =
              try_all-IsDone continue n finishes to_try (add_to hash unsettlable) x.0
                (add_event block' hash (not_settled e)) txs (rw same h) (rw same le) in
            (r, rw (failed, try_all) done, IsDone-refused txs hash to_try unsettlable r d)
        | inl ((tx, result), settled) ↦
            let (models, fewer) = settled-Left s hash block tx result txs h settled in
            let (r, done, l) =
              on_settled-Left decoders readers x.0 block' hash tx result
                (filter (other_hash hash) txs) models in
            let (r', done', d) =
              finishes r.0 r.1 unsettlable (add_all r.2 to_try) l.left l.models
                (omega (arith, l.size, fewer, le)) in
            (
              r',
              rw (settled, done, try_all) done',
              IsDone-settled txs l.left hash to_try r.2 unsettlable r' l.fewer d,
            )
      ]

  settle_at_most-IsDone :
      (n : ℕ) (s : NodeStateStore) (block : Block) (unsettlable to_try : List String)
      (txs : List UnsettledBlobTransaction)
      → Models decoders s.unsettled_transactions txs
      → length (s.unsettled_transactions).map ≤ n
      → (r : Rounds valid_program readers decoders) × (settle_at_most valid_program readers decoders
            n s block unsettlable to_try
          ≡ some r)
        × IsDone txs to_try unsettlable r
  unfolding settle_at_most
  settle_at_most-IsDone zero s block unsettlable to_try txs h le =
      try_all-IsDone _ 0 (λ s' block' unsettlable' to_try' txs' h' lt. absurd (omega arith)) to_try
        unsettlable s block txs h le
  settle_at_most-IsDone (suc n) s block unsettlable to_try txs h le =
      try_all-IsDone (settle_at_most valid_program readers decoders n) (suc n)
        (λ s' block' unsettlable' to_try' txs' h' lt.
          settle_at_most-IsDone n s' block' unsettlable' to_try' txs' h' (omega (arith, lt)))
        to_try unsettlable s block txs h le

  -- On a map that stands for a list of transactions the loop ends. The map that it leaves stands for
  -- a list again, in which no other transactions are; and of the transactions that were to be tried,
  -- each is either returned, as one that cannot be settled yet, or no longer in the list.
  pub settle_txs-IsDone :
      (s : NodeStateStore) (block : Block) (to_try : List String)
      (txs : List UnsettledBlobTransaction)
      → Models decoders s.unsettled_transactions txs
      → (r : Rounds valid_program readers decoders) × (settle_txs_until_done valid_program readers
            decoders s block to_try
          ≡ some r)
        × IsDone txs to_try [] r
  unfolding settle_txs_until_done
  settle_txs-IsDone s block to_try txs h =
      settle_at_most-IsDone (length (s.unsettled_transactions).map) s block [] to_try txs h
        (omega arith)
