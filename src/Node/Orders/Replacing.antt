-- ===== src/Node/Orders/Replacing.antt =====
-- The map of unsettled transactions of node_state/ordered_tx_map.rs when a transaction of it is
-- changed in its place, without its hash or the contracts that it blocks, and the front of a queue.
use truth_seeker.Common.{
  ◌≡◌, refl, sym, ap, ◌∙◌, ℕ, Bool, true, String, none, some, List, [], ◌∷◌, ◌==◌, string_eq,
  nat_eq, if◌then◌else◌, find, contains, is_some, arith, Bool-cases, Option-cases, inl, inr,
}
use truth_seeker.Common.Maps.{Map, get, insert, get-insert}
use truth_seeker.Node.Types.{UnsettledBlobMetadata, UnsettledBlobTransaction, Decoders}
use truth_seeker.Node.Orders.{
  OrderedTxMap, blocked_by, get_contracts_blocked_by_tx, get_next_unsettled_tx,
}
use truth_seeker.Node.Orders.Queues.{non_empty}
use truth_seeker.Node.Orders.Arrivals.{
  lookup, DistinctHashes, blocks, waiting, Models, first-waiting,
}

-- The transactions with `tx` in the place of the one of its hash.
unfoldable pub replace :
    UnsettledBlobTransaction → List UnsettledBlobTransaction → List UnsettledBlobTransaction
replace tx [] = []
replace tx (t ∷ txs) =
    let rest = replace tx txs in if t.hash == tx.hash then tx ∷ rest else t ∷ rest

pub lookup-replace :
    (tx : UnsettledBlobTransaction) (hash : String) (txs : List UnsettledBlobTransaction)
    → lookup hash (replace tx txs) ≡ (
        if tx.hash == hash
        then (if is_some (lookup tx.hash txs) then some tx else none)
        else lookup hash txs)
unfolding replace
lookup-replace tx hash [] = ground arith
lookup-replace tx hash (t ∷ txs) = ground (
  arith,
  lookup-replace tx hash txs,
  string_eq.beq_iff tx.hash hash,
  string_eq.beq_iff t.hash tx.hash,
  string_eq.beq_iff t.hash hash,
  string_eq.beq_iff tx.hash t.hash,
)

DistinctHashes-replace :
    (tx : UnsettledBlobTransaction) (txs : List UnsettledBlobTransaction)
    → DistinctHashes txs
    → DistinctHashes (replace tx txs)
unfolding replace
DistinctHashes-replace tx [] d = tt
DistinctHashes-replace tx (t ∷ txs) d = elim (Bool-cases (t.hash == tx.hash)) [
  | inl same ↦ rw same (
    ground (arith, d.0, lookup-replace tx tx.hash txs, string_eq.beq_iff t.hash tx.hash),
    DistinctHashes-replace tx txs d.1,
  )
  | inr other ↦ rw other (
    ground (
      arith,
      d.0,
      lookup-replace tx t.hash txs,
      string_eq.beq_iff t.hash tx.hash,
      string_eq.beq_iff tx.hash t.hash,
    ),
    DistinctHashes-replace tx txs d.1,
  )
]

module _ (decoders : Decoders) where
  waiting-absent :
      (name : String) (tx : UnsettledBlobTransaction) (txs : List UnsettledBlobTransaction)
      → lookup tx.hash txs ≡ none
      → waiting decoders name (replace tx txs) ≡ waiting decoders name txs
  unfolding replace
  waiting-absent name tx [] absent = refl
  waiting-absent name tx (t ∷ txs) absent = ground (arith, waiting-absent name tx txs)

  waiting-replace :
      (name : String) (tx old : UnsettledBlobTransaction) (txs : List UnsettledBlobTransaction)
      → DistinctHashes txs
      → lookup tx.hash txs ≡ some old
      → blocks decoders name tx ≡ blocks decoders name old
      → waiting decoders name (replace tx txs) ≡ waiting decoders name txs
  unfolding replace
  waiting-replace name tx old [] d found same = cc
  waiting-replace name tx old (t ∷ txs) d found same = ground (
    arith,
    d.0,
    waiting-absent name tx txs,
    waiting-replace name tx old txs d.1,
    string_eq.beq_iff t.hash tx.hash,
  )

  -- A transaction is changed in its place.
  pub replace-Models :
      (m : OrderedTxMap) (txs : List UnsettledBlobTransaction) (tx old : UnsettledBlobTransaction)
      → Models decoders m txs
      → get m.map tx.hash ≡ some old
      → get_contracts_blocked_by_tx decoders tx ≡ get_contracts_blocked_by_tx decoders old
      → Models decoders (record m { map = insert m.map tx.hash tx }) (replace tx txs)
  replace-Models m txs tx old h found same = record {
    distinct = DistinctHashes-replace tx txs h.distinct;
    entries = λ hash. ground (
      arith,
      get-insert m.map tx.hash hash tx,
      lookup-replace tx hash txs,
      h.entries hash,
      h.entries tx.hash,
      found,
    );
    orders = λ name.
        h.orders name
        ∙ ap non_empty (
            sym (
              waiting-replace name tx old txs h.distinct (sym (h.entries tx.hash) ∙ found)
                (ap (λ names. contains names name) same)));
  }

  find-lookup :
      (p : UnsettledBlobTransaction → Bool) (txs : List UnsettledBlobTransaction)
      (t : UnsettledBlobTransaction)
      → find p txs ≡ some t
      → is_some (lookup t.hash txs) ≡ true
  find-lookup p [] t h = cc
  find-lookup p (x ∷ txs) t h =
      ground (
        arith,
        find-lookup p txs t,
        string_eq.beq_iff x.hash t.hash,
        string_eq.beq_iff t.hash t.hash,
      )

  -- What stands at the front of a queue is in the map.
  pub next-found :
      (m : OrderedTxMap) (txs : List UnsettledBlobTransaction) (name hash : String)
      → Models decoders m txs
      → get_next_unsettled_tx m name ≡ some hash
      → is_some (get m.map hash) ≡ true
  unfolding get_next_unsettled_tx
  next-found m txs name hash h next = elim (Option-cases (find (blocks decoders name) txs)) [
    | inl nobody ↦ ground (arith, h.orders name, first-waiting decoders name txs, next)
    | inr (t, found) ↦ ground (
      arith,
      h.orders name,
      first-waiting decoders name txs,
      next,
      h.entries hash,
      find-lookup (blocks decoders name) txs t found,
    )
  ]

-- The contracts that are blocked do not depend on the proofs.
pub blocked_by-insert :
    (decoders : Decoders) (blobs : Map ℕ UnsettledBlobMetadata) (i : ℕ)
    (metadata changed : UnsettledBlobMetadata)
    → get blobs i ≡ some metadata
    → changed.blob ≡ metadata.blob
    → blocked_by decoders (insert blobs i changed) ≡ blocked_by decoders blobs
unfolding get insert blocked_by
blocked_by-insert decoders [] i metadata changed found same = cc
blocked_by-insert decoders ((j, b) ∷ blobs) i metadata changed found same =
    elim (Bool-cases (j == i)) [
      | inl here ↦ ground (arith, found, same, here)
      | inr there ↦
          ground (arith, there, blocked_by-insert decoders blobs i metadata changed, found, same)
    ]
