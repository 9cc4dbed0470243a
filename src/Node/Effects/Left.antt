-- ===== src/Node/Effects/Left.antt =====
-- What `on_settled_blob_tx` of node_state.rs leaves of the unsettled transactions.
use truth_seeker.Common.{
  ℕ, zero, suc, ◌≤◌, ◌<◌, ◌≡◌, refl, sym, ap, ◌∙◌, Bool, true, false, String, none, some, List, [],
  ◌∷◌, string_eq, nat_eq, filter, length, arith, Result, ok, err, Option-cases, inl, inr,
}
use truth_seeker.Common.Maps.{Map, get, insert, remove, length-remove_known, length-insert_known}
use truth_seeker.Common.Sorted.{put_all}
use truth_seeker.Sdk.Types.{Bytes, HyleOutput}
use truth_seeker.Node.Types.{UnsettledBlobTransaction, Decoders}
use truth_seeker.Node.Changes.{ModifiedContractData, Changes}
use truth_seeker.Node.Orders.{
  OrderedTxMap, get_contracts_blocked_by_tx, get_next_unsettled_tx, remove_tx,
}
use truth_seeker.Node.Orders.Arrivals.{lookup, other_hash, Models, lookup-filter, lookup-hash}
use truth_seeker.Node.Orders.Refines.{remove_tx-Models}
use truth_seeker.Node.Orders.Replacing.{
  replace, replace-Models, lookup-replace, next-found, blocked_by-insert,
}
use truth_seeker.Node.Settlement.{SettlementResult}
use truth_seeker.Node.Store.{NodeStateStore}
use truth_seeker.Node.Proofs.{Block, settled, add_event}
use truth_seeker.Node.Effects.{
  Readers, next_of, time_out_tx, note_blobs, time_out_all, delete_contract, apply_change,
  apply_changes, updates_for, with_output, force_proofs, force_all, force_nuked, settle_changes,
  on_settled_blob_tx, Done,
}

module _ (decoders : Decoders) where
  -- The map stands for a list of transactions whose hashes are hashes of `txs`, and has at most `n`
  -- entries.
  pub record Left (txs : List UnsettledBlobTransaction) (n : ℕ) (m : OrderedTxMap) : Type 0 where
    pub left : List UnsettledBlobTransaction
    pub models : Models decoders m left
    pub fewer : (hash : String) → lookup hash txs ≡ none → lookup hash left ≡ none
    pub size : length m.map ≤ n

  Left-refl :
      (txs : List UnsettledBlobTransaction) (m : OrderedTxMap)
      → Models decoders m txs
      → Left txs (length m.map) m
  Left-refl txs m h = record {
    left = txs;
    models = h;
    fewer = λ hash absent. absent;
    size = omega arith;
  }

  Left-trans :
      (txs ts : List UnsettledBlobTransaction) (n k : ℕ) (m : OrderedTxMap)
      → ((hash : String) → lookup hash txs ≡ none → lookup hash ts ≡ none)
      → k ≤ n
      → Left ts k m
      → Left txs n m
  Left-trans txs ts n k m f le l = record {
    left = l.left;
    models = l.models;
    fewer = λ hash absent. l.fewer hash (f hash absent);
    size = omega (arith, l.size);
  }

  -- A transaction of the map is removed.
  pub removed :
      (m : OrderedTxMap) (hash : String) (tx : UnsettledBlobTransaction)
      → get m.map hash ≡ some tx
      → ((remove_tx decoders m hash).1 ≡ some tx)
        × (length (remove_tx decoders m hash).0.map < length m.map)
  unfolding remove_tx
  removed m hash tx found = rw (found, remove_tx) (refl, length-remove_known m.map hash tx found)

  pub fewer-filter :
      (hash : String) (txs : List UnsettledBlobTransaction) (h : String)
      → lookup h txs ≡ none
      → lookup h (filter (other_hash hash) txs) ≡ none
  fewer-filter hash txs h absent = ground (arith, lookup-filter hash h txs)

  time_out_all-none :
      (n : ℕ) (m : OrderedTxMap) (block : Block) (name : String)
      → get_next_unsettled_tx m name ≡ none
      → time_out_all decoders n m block name ≡ some (m, block)
  unfolding time_out_all
  time_out_all-none zero m block name nobody = rw (nobody, time_out_all) refl
  time_out_all-none (suc n) m block name nobody = rw (nobody, time_out_all) refl

  time_out_all-suc :
      (n : ℕ) (m : OrderedTxMap) (block : Block) (name hash : String)
      (tx : UnsettledBlobTransaction)
      → get_next_unsettled_tx m name ≡ some hash
      → get m.map hash ≡ some tx
      → time_out_all decoders (suc n) m block name
        ≡ time_out_all decoders n (remove_tx decoders m hash).0 (time_out_tx block hash tx) name
  unfolding time_out_all
  time_out_all-suc n m block name hash tx next found =
      rw (next, (removed m hash tx found).0, time_out_all) refl

  front :
      (m : OrderedTxMap) (txs : List UnsettledBlobTransaction) (name hash : String)
      → Models decoders m txs
      → get_next_unsettled_tx m name ≡ some hash
      → (tx : UnsettledBlobTransaction) × (get m.map hash ≡ some tx)
  front m txs name hash h next = elim (Option-cases (get m.map hash)) [
    | inl absent ↦ ground (arith, next-found decoders m txs name hash h next, absent)
    | inr found ↦ found
  ]

  empty-none :
      (m : OrderedTxMap) (txs : List UnsettledBlobTransaction) (name : String)
      → Models decoders m txs
      → length m.map ≤ 0
      → get_next_unsettled_tx m name ≡ none
  empty-none m txs name h le = elim (Option-cases (get_next_unsettled_tx m name)) [
    | inl nobody ↦ nobody
    | inr (hash, next) ↦
        let (tx, found) = front m txs name hash h next in
        ground (arith, (removed m hash tx found).1, le)
  ]

  -- One transaction of the map is taken out.
  pub removed-Left :
      (m : OrderedTxMap) (txs : List UnsettledBlobTransaction) (hash : String)
      (tx : UnsettledBlobTransaction) (n : ℕ)
      → Models decoders m txs
      → get m.map hash ≡ some tx
      → length m.map ≤ suc n
      → Left (filter (other_hash hash) txs) n (remove_tx decoders m hash).0
  removed-Left m txs hash tx n h found le = record {
    left = filter (other_hash hash) txs;
    models = (remove_tx-Models decoders m txs hash h).1;
    fewer = λ k absent. absent;
    size = omega (arith, (removed m hash tx found).1);
  }

  time_out_all-Left :
      (n : ℕ) (m : OrderedTxMap) (txs : List UnsettledBlobTransaction) (block : Block)
      (name : String)
      → Models decoders m txs
      → length m.map ≤ n
      → (r : OrderedTxMap × Block) × (time_out_all decoders n m block name ≡ some r)
        × Left txs (length m.map) r.0
  time_out_all-Left zero m txs block name h le =
      ((m, block), time_out_all-none 0 m block name (empty-none m txs name h le), Left-refl txs m h)
  time_out_all-Left (suc n) m txs block name h le =
      elim (Option-cases (get_next_unsettled_tx m name)) [
        | inl nobody ↦
            ((m, block), time_out_all-none (suc n) m block name nobody, Left-refl txs m h)
        | inr (hash, next) ↦
            let (tx, found) = front m txs name hash h next in
            let l = removed-Left m txs hash tx n h found le in
            let (r, done, k) =
              time_out_all-Left n (remove_tx decoders m hash).0 l.left (time_out_tx block hash tx)
                name l.models l.size in
            (
              r,
              time_out_all-suc n m block name hash tx next found ∙ done,
              Left-trans txs l.left (length m.map) (length (remove_tx decoders m hash).0.map) r.0
                  (λ h absent. l.fewer h (fewer-filter hash txs h absent))
                  (omega (arith, (removed m hash tx found).1)) k,
            )
      ]

  apply_change-Left :
      (hash : String) (change : String × ModifiedContractData) (s : NodeStateStore) (block : Block)
      (txs : List UnsettledBlobTransaction)
      → Models decoders s.unsettled_transactions txs
      → (r : NodeStateStore × Block) × (apply_change decoders hash change s block ≡ some r)
        × Left txs (length (s.unsettled_transactions).map) (r.0).unsettled_transactions
  unfolding apply_change delete_contract
  apply_change-Left hash (name, (none, fields, effects)) s block txs h =
      let m = s.unsettled_transactions in
      let (r, done, l) = time_out_all-Left (length m.map) m txs block name h (omega arith) in
      (
        (
          record s { contracts = remove s.contracts name; unsettled_transactions = r.0 },
          record (r.1) {
            registered_contracts = remove (r.1).registered_contracts name;
            deleted_contracts = insert (r.1).deleted_contracts name hash;
          },
        ),
        rw (done, apply_change, delete_contract) refl,
        l,
      )
  apply_change-Left hash (name, (some contract, fields, effects)) s block txs h =
      (_, refl, Left-refl txs s.unsettled_transactions h)

  apply_changes-Left :
      (hash : String) (changes : Changes) (s : NodeStateStore) (block : Block)
      (txs : List UnsettledBlobTransaction)
      → Models decoders s.unsettled_transactions txs
      → (r : NodeStateStore × Block) × (apply_changes decoders hash changes s block ≡ some r)
        × Left txs (length (s.unsettled_transactions).map) (r.0).unsettled_transactions
  unfolding apply_changes
  apply_changes-Left hash [] s block txs h =
      ((s, block), refl, Left-refl txs s.unsettled_transactions h)
  apply_changes-Left hash (change ∷ changes) s block txs h =
      let (r, done, l) = apply_change-Left hash change s block txs h in
      let (r', done', l') = apply_changes-Left hash changes r.0 r.1 l.left l.models in
      (
        r',
        rw (done, apply_changes) done',
        Left-trans txs l.left (length (s.unsettled_transactions).map)
            (length ((r.0).unsettled_transactions).map) (r'.0).unsettled_transactions l.fewer l.size
            l',
      )

  force_proofs-same :
      (hash by : String) (proofs : List (Bytes × HyleOutput)) (tx : UnsettledBlobTransaction)
      (block : Block) (forced : Bool)
      → let t = (force_proofs hash by proofs tx block forced).0 in
        (t.hash ≡ tx.hash)
        × (get_contracts_blocked_by_tx decoders t ≡ get_contracts_blocked_by_tx decoders tx)
  unfolding force_proofs
  force_proofs-same hash by [] tx block forced = (refl, refl)
  force_proofs-same hash by ((program_id, output) ∷ proofs) tx block forced =
      elim (Option-cases (get tx.blobs output.index)) [
        | inl absent ↦ rw (absent, force_proofs) (force_proofs-same hash by proofs tx block forced)
        | inr (metadata, found) ↦
            let (same, blocked) =
              force_proofs-same hash by proofs (with_output tx (program_id, output) metadata) _
                true in
            rw (found, force_proofs)
              (
                same,
                blocked ∙ blocked_by-insert decoders tx.blobs output.index metadata _ found refl,
              )
      ]

  pub forced-Left :
      (m : OrderedTxMap) (txs : List UnsettledBlobTransaction) (hash : String)
      (tx changed : UnsettledBlobTransaction)
      → Models decoders m txs
      → get m.map hash ≡ some tx
      → changed.hash ≡ tx.hash
      → get_contracts_blocked_by_tx decoders changed ≡ get_contracts_blocked_by_tx decoders tx
      → Left txs (length m.map) (record m { map = insert m.map hash changed })
  forced-Left m txs hash tx changed h found same blocked =
      let key = same ∙ lookup-hash hash txs tx (sym (h.entries hash) ∙ found) in
      let found' = ap (λ k. get m.map k) key ∙ found in
      record {
        left = replace changed txs;
        models = rw (sym key) (replace-Models decoders m txs changed tx h found' blocked);
        fewer = λ k absent. ground (
          arith,
          lookup-replace changed k txs,
          absent,
          string_eq.beq_iff changed.hash k,
          h.entries hash,
          found,
          key,
        );
        size = omega (arith, length-insert_known m.map hash tx changed found);
      }

  force_all-Left :
      (by : String) (updates : Map String (List (Bytes × HyleOutput))) (m : OrderedTxMap)
      (block : Block) (txs : List UnsettledBlobTransaction)
      → Models decoders m txs
      → Left txs (length m.map) (force_all by updates m block).0
  unfolding force_all
  force_all-Left by [] m block txs h = Left-refl txs m h
  force_all-Left by ((hash, proofs) ∷ updates) m block txs h =
      elim (Option-cases (get m.map hash)) [
        | inl absent ↦ rw (absent, force_all) (force_all-Left by updates m block txs h)
        | inr (tx, found) ↦
            let proofs_of = force_proofs hash by proofs tx block false in
            let (same, blocked) = force_proofs-same hash by proofs tx block false in
            let l = forced-Left m txs hash tx proofs_of.0 h found same blocked in
            let m' : OrderedTxMap = record m { map = insert m.map hash proofs_of.0 } in
            rw (found, force_all)
              (Left-trans txs l.left (length m.map) (length m'.map) _ l.fewer l.size
                (force_all-Left by updates m' proofs_of.1 l.left l.models))
      ]

  module _ (readers : Readers) where
    settle_changes-Left :
        (s : NodeStateStore) (block : Block) (hash : String) (tx : UnsettledBlobTransaction)
        (result : SettlementResult) (next : List String) (txs : List UnsettledBlobTransaction)
        → Models decoders s.unsettled_transactions txs
        → (r : Done readers decoders) × (settle_changes readers decoders s block hash tx result next
            ≡ some r)
          × Left txs (length (s.unsettled_transactions).map) (r.0).unsettled_transactions
    unfolding settle_changes force_nuked
    settle_changes-Left s block hash tx result next txs h =
        let noted =
          note_blobs readers hash tx.identity result.blob_proof_output_indices tx.blobs
            (add_event block hash settled) [] in
        let (r, done, l) =
          apply_changes-Left hash (put_all [] result.contract_changes) s noted.0 txs h in
        (
          force_nuked readers decoders hash noted.1 next r,
          rw (done, settle_changes) refl,
          Left-trans txs l.left (length (s.unsettled_transactions).map)
              (length ((r.0).unsettled_transactions).map) _ l.fewer l.size
              (force_all-Left hash (updates_for r.0 noted.1) (r.0).unsettled_transactions r.1 l.left
                l.models),
        )

    -- What is left when a transaction has been settled.
    pub on_settled-Left :
        (s : NodeStateStore) (block : Block) (hash : String) (tx : UnsettledBlobTransaction)
        (result : Result Unit SettlementResult) (txs : List UnsettledBlobTransaction)
        → Models decoders s.unsettled_transactions txs
        → (r : Done readers decoders) × (on_settled_blob_tx readers decoders s block hash tx result
            ≡ some r)
          × Left txs (length (s.unsettled_transactions).map) (r.0).unsettled_transactions
    unfolding on_settled_blob_tx
    on_settled-Left s block hash tx (err u) txs h =
        (_, refl, Left-refl txs s.unsettled_transactions h)
    on_settled-Left s block hash tx (ok result) txs h =
        settle_changes-Left s block hash tx result (next_of s.unsettled_transactions tx.blobs) txs h
