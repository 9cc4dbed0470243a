-- ===== src/Node/Orders/Refines.antt =====
-- The map of unsettled transactions of node_state/ordered_tx_map.rs implements a list of them in the
-- order of their arrival: the queue of a contract holds the transactions that it blocks, in order.
use truth_seeker.Common.{
  ℕ, ◌≡◌, refl, sym, ap, ◌∙◌, fun_ext, append-nil, Bool, true, false, String, none, some, List, [],
  ◌∷◌, ◌++◌, ◌&&◌, not, ◌==◌, string_eq, option_eq, all, any, find, filter, filter-append, first,
  push, arith, Option-cases, Bool-cases, inl, inr,
}
use truth_seeker.Common.Maps.{get, get-insert, get-remove}
use truth_seeker.Node.Types.{UnsettledBlobMetadata, UnsettledBlobTransaction, Decoders}
use truth_seeker.Node.Orders.{
  OrderedTxMap, is_empty, enqueue, dequeue, get_contracts_blocked_by_tx, add, remove_tx,
  is_next_to_settle, get_next_unsettled_tx,
}
use truth_seeker.Node.Orders.Queues.{
  queue, non_empty, drop, get-enqueue, enqueue-is_next, get-dequeue, blocked_by-DistinctNames,
}
use truth_seeker.Node.Orders.Arrivals.{
  lookup, other_hash, blocks, waiting, Models, lookup-push, DistinctHashes-push, lookup-filter,
  DistinctHashes-filter, lookup-hash, waiting-push, waiting-is_empty, waiting-filter, first-waiting,
  filter-absent, filter-unblocked,
}

queue_of-non_empty : (xs : List String) → (elim (non_empty xs) [ none ↦ [] | some q ↦ q ]) ≡ xs
queue_of-non_empty [] = refl
queue_of-non_empty (x ∷ xs) = refl

first-non_empty :
    (xs : List String) → (elim (non_empty xs) [ none ↦ none | some q ↦ first q ]) ≡ first xs
first-non_empty [] = refl
first-non_empty (x ∷ xs) = refl

and-true : (b : Bool) → (b && true) ≡ b
and-true b = ground arith

non_empty-push : (xs : List String) (x : String) → non_empty (xs ++ x ∷ []) ≡ some (xs ++ x ∷ [])
non_empty-push [] x = refl
non_empty-push (y ∷ xs) x = refl

drop-non_empty :
    (hash : String) (xs : List String)
    → drop hash (non_empty xs) ≡ non_empty (filter (λ h. not (h == hash)) xs)
drop-non_empty hash [] = refl
drop-non_empty hash (x ∷ xs) = refl

module _ (decoders : Decoders) (m : OrderedTxMap) (txs : List UnsettledBlobTransaction) where
  queue-Models :
      (name : String) → Models decoders m txs → queue m.tx_order name ≡ waiting decoders name txs
  queue-Models name h = rw (h.orders name, queue) (queue_of-non_empty (waiting decoders name txs))

  add-orders :
      (tx : UnsettledBlobTransaction) (name : String)
      → Models decoders m txs
      → get (enqueue tx.hash (get_contracts_blocked_by_tx decoders tx) m.tx_order true).0 name
        ≡ non_empty (waiting decoders name (push txs tx))
  add-orders tx name h =
      rw
        (
          get-enqueue tx.hash (get_contracts_blocked_by_tx decoders tx) m.tx_order true name
              (blocked_by-DistinctNames decoders tx.blobs),
          queue-Models name h,
          waiting-push decoders name txs tx,
        )
        (elim (Bool-cases (blocks decoders name tx)) [
          | inl waits ↦
              rw (waits, blocks) (sym (non_empty-push (waiting decoders name txs) tx.hash))
          | inr free ↦ rw (free, blocks, append-nil (waiting decoders name txs)) (h.orders name)
        ])

  unwanted :
      (name : String)
      → Models decoders m txs
      → is_empty (queue m.tx_order name) ≡ not (any (blocks decoders name) txs)
  unwanted name h = ap is_empty (queue-Models name h) ∙ waiting-is_empty decoders name txs

  -- A transaction whose hash is new is put last, and the answer is whether no transaction before it
  -- blocks a contract that it blocks.
  pub add-Models :
      (tx : UnsettledBlobTransaction)
      → Models decoders m txs
      → lookup tx.hash txs ≡ none
      → Models decoders (add decoders m tx).0 (push txs tx)
        × ((add decoders m tx).1
            ≡ some (
                all
                  (λ name. not (any (blocks decoders name) txs))
                  (get_contracts_blocked_by_tx decoders tx)))
  unfolding add
  add-Models tx h fresh =
      let gone = h.entries tx.hash ∙ fresh in
      let names = get_contracts_blocked_by_tx decoders tx in
      rw (gone, add)
        (
          record {
            distinct = DistinctHashes-push txs tx h.distinct fresh;
            entries = λ hash.
                rw (get-insert m.map tx.hash hash tx, lookup-push hash txs tx fresh, h.entries hash)
                  refl;
            orders = λ name. add-orders tx name h;
          },
          ap some (
              enqueue-is_next tx.hash names m.tx_order true
                (blocked_by-DistinctNames decoders tx.blobs)
              ∙ and-true (all (λ name. is_empty (queue m.tx_order name)) names)
              ∙ ap (λ (p : String → Bool). all p names) (fun_ext (λ name. unwanted name h))),
        )

  -- A transaction whose hash is known changes nothing and is reported.
  pub add-known :
      (tx old : UnsettledBlobTransaction)
      → Models decoders m txs
      → lookup tx.hash txs ≡ some old
      → add decoders m tx ≡ (m, none)
  unfolding add
  add-known tx old h known = rw (h.entries tx.hash ∙ known, add) refl

  remove-orders :
      (hash name : String) (tx : UnsettledBlobTransaction)
      → Models decoders m txs
      → lookup hash txs ≡ some tx
      → get (dequeue tx.hash (get_contracts_blocked_by_tx decoders tx) m.tx_order) name
        ≡ non_empty (waiting decoders name (filter (other_hash hash) txs))
  remove-orders hash name tx h found =
      rw
        (
          get-dequeue tx.hash (get_contracts_blocked_by_tx decoders tx) m.tx_order name
              (blocked_by-DistinctNames decoders tx.blobs),
          lookup-hash hash txs tx found,
          h.orders name,
          waiting-filter decoders name hash txs,
        )
        (elim (Bool-cases (blocks decoders name tx)) [
          | inl waits ↦ rw (waits, blocks) (drop-non_empty hash (waiting decoders name txs))
          | inr free ↦
              rw (free, blocks)
                (ap non_empty
                  (sym (filter-unblocked decoders name hash txs tx h.distinct found free)))
        ])

  -- Removing a hash gives the transaction of that hash, if there is one, and leaves the others in
  -- their order.
  pub remove_tx-Models :
      (hash : String)
      → Models decoders m txs
      → ((remove_tx decoders m hash).1 ≡ lookup hash txs)
        × Models decoders (remove_tx decoders m hash).0 (filter (other_hash hash) txs)
  unfolding remove_tx
  remove_tx-Models hash h = elim (Option-cases (lookup hash txs)) [
    | inl absent ↦
        rw (h.entries hash ∙ absent, remove_tx)
          (
            sym absent,
            record {
              distinct = DistinctHashes-filter hash txs h.distinct;
              entries = λ k.
                  ground (arith, h.entries k, lookup-filter hash k txs, string_eq.beq_iff hash k);
              orders = λ name.
                  h.orders name
                  ∙ ap non_empty (
                      sym (
                        waiting-filter decoders name hash txs
                        ∙ filter-absent decoders name hash txs absent));
            },
          )
    | inr (tx, found) ↦
        rw (h.entries hash ∙ found, remove_tx)
          (
            sym found,
            record {
              distinct = DistinctHashes-filter hash txs h.distinct;
              entries =
                  λ k. rw (get-remove m.map hash k, lookup-filter hash k txs, h.entries k) refl;
              orders = λ name. remove-orders hash name tx h found;
            },
          )
  ]

  next-Models :
      (hash name : String)
      → Models decoders m txs
      → (get_next_unsettled_tx m name == some hash)
        ≡ (elim (find (blocks decoders name) txs) [ none ↦ false | some t ↦ t.hash == hash ])
  unfolding get_next_unsettled_tx
  next-Models hash name h =
      rw
        (
          h.orders name,
          get_next_unsettled_tx,
          first-non_empty (waiting decoders name txs),
          first-waiting decoders name txs,
        )
        (ground arith)

  -- A transaction is the next to settle if it is there and is, of each contract of its blobs, the
  -- first that blocks it.
  pub is_next_to_settle-Models :
      (hash : String)
      → Models decoders m txs
      → is_next_to_settle m hash ≡ (elim (lookup hash txs) [
        | none ↦ false
        | some tx ↦
            all
              (λ (p : ℕ × UnsettledBlobMetadata).
                elim (find (blocks decoders (p.1).blob.contract_name) txs) [
                  | none ↦ false
                  | some t ↦ t.hash == hash
                ])
              tx.blobs
      ])
  unfolding is_next_to_settle
  is_next_to_settle-Models hash h =
      rw (h.entries hash, is_next_to_settle)
        (ap
          (λ (p : ℕ × UnsettledBlobMetadata → Bool). elim (lookup hash txs) [
            | none ↦ false
            | some tx ↦ all p tx.blobs
          ])
          (fun_ext
            (λ (p : ℕ × UnsettledBlobMetadata). next-Models hash (p.1).blob.contract_name h)))

filter-fresh :
    (hash : String) (txs : List UnsettledBlobTransaction)
    → lookup hash txs ≡ none
    → filter (other_hash hash) txs ≡ txs
filter-fresh hash [] fresh = refl
filter-fresh hash (t ∷ txs) fresh = ground (arith, filter-fresh hash txs)

-- A transaction that is new to the map, taken in and then removed, comes out as it was, and the map
-- stands for the same list as before.
pub remove_tx-add :
    (decoders : Decoders) (m : OrderedTxMap) (txs : List UnsettledBlobTransaction)
    (tx : UnsettledBlobTransaction)
    → Models decoders m txs
    → lookup tx.hash txs ≡ none
    → let r = remove_tx decoders (add decoders m tx).0 tx.hash in
      (r.1 ≡ some tx) × Models decoders r.0 txs
remove_tx-add decoders m txs tx h fresh =
    let (found, models) =
      remove_tx-Models decoders (add decoders m tx).0 (push txs tx) tx.hash
        (add-Models decoders m txs tx h fresh).0 in
    let same : filter (other_hash tx.hash) (push txs tx) ≡ txs =
      filter-append (other_hash tx.hash) txs (tx ∷ [])
      ∙ ground
          (arith, filter-fresh tx.hash txs, string_eq.beq_iff tx.hash tx.hash, append-nil txs) in
    (
      found ∙ ground (arith, lookup-push tx.hash txs tx fresh, string_eq.beq_iff tx.hash tx.hash),
      rw (sym same) models,
    )
