-- ===== src/Node/Orders/Arrivals.antt =====
-- Transactions in the order of their arrival: the specification of the map of unsettled
-- transactions of node_state/ordered_tx_map.rs, and the laws of its lists.
use truth_seeker.Common.{
  ◌≡◌, refl, Bool, false, String, Option, none, some, List, [], ◌∷◌, ◌++◌, not, ◌==◌, string_eq,
  option_eq, if◌then◌else◌, any, find, contains, filter, first, push, map, arith, Bool-cases, inl,
  inr,
}
use truth_seeker.Common.Maps.{get}
use truth_seeker.Node.Types.{UnsettledBlobTransaction, Decoders}
use truth_seeker.Node.Orders.{OrderedTxMap, is_empty, get_contracts_blocked_by_tx}
use truth_seeker.Node.Orders.Queues.{non_empty}

abbrev pub hash_of : UnsettledBlobTransaction → String
hash_of tx = tx.hash

abbrev pub has_hash : String → UnsettledBlobTransaction → Bool
has_hash hash tx = tx.hash == hash

abbrev pub lookup : String → List UnsettledBlobTransaction → Option UnsettledBlobTransaction
lookup hash txs = find (has_hash hash) txs

-- No hash stands twice.
abbrev pub DistinctHashes : List UnsettledBlobTransaction → Type 0
DistinctHashes [] = Unit
DistinctHashes (tx ∷ txs) = (lookup tx.hash txs ≡ none) × DistinctHashes txs

find-append :
    (p : UnsettledBlobTransaction → Bool) (txs : List UnsettledBlobTransaction)
    (tx : UnsettledBlobTransaction)
    → find p (txs ++ tx ∷ [])
      ≡ (elim (find p txs) [ some t ↦ some t | none ↦ if p tx then some tx else none ])
find-append p [] tx = refl
find-append p (t ∷ txs) tx = ground (arith, find-append p txs tx)

pub lookup-push :
    (hash : String) (txs : List UnsettledBlobTransaction) (tx : UnsettledBlobTransaction)
    → lookup tx.hash txs ≡ none
    → lookup hash (push txs tx) ≡ (if tx.hash == hash then some tx else lookup hash txs)
lookup-push hash txs tx fresh =
    ground (arith, find-append (has_hash hash) txs tx, string_eq.beq_iff tx.hash hash)

pub DistinctHashes-push :
    (txs : List UnsettledBlobTransaction) (tx : UnsettledBlobTransaction)
    → DistinctHashes txs
    → lookup tx.hash txs ≡ none
    → DistinctHashes (push txs tx)
DistinctHashes-push [] tx d fresh = (refl, tt)
DistinctHashes-push (t ∷ txs) tx d fresh = (
  ground (
    arith,
    d.0,
    fresh,
    find-append (has_hash t.hash) txs tx,
    string_eq.beq_iff tx.hash t.hash,
    string_eq.beq_iff t.hash tx.hash,
  ),
  DistinctHashes-push txs tx d.1 (ground arith),
)

abbrev pub other_hash : String → UnsettledBlobTransaction → Bool
other_hash hash tx = not (has_hash hash tx)

pub lookup-filter :
    (hash k : String) (txs : List UnsettledBlobTransaction)
    → lookup k (filter (other_hash hash) txs) ≡ (if hash == k then none else lookup k txs)
lookup-filter hash k [] = ground arith
lookup-filter hash k (t ∷ txs) = ground (
  arith,
  lookup-filter hash k txs,
  string_eq.beq_iff hash k,
  string_eq.beq_iff t.hash k,
  string_eq.beq_iff t.hash hash,
)

pub DistinctHashes-filter :
    (hash : String) (txs : List UnsettledBlobTransaction)
    → DistinctHashes txs
    → DistinctHashes (filter (other_hash hash) txs)
DistinctHashes-filter hash [] d = tt
DistinctHashes-filter hash (t ∷ txs) d = elim (Bool-cases (t.hash == hash)) [
  | inl gone ↦ rw gone (DistinctHashes-filter hash txs d.1)
  | inr kept ↦
      rw kept
        (ground (arith, d.0, lookup-filter hash t.hash txs), DistinctHashes-filter hash txs d.1)
]

pub lookup-hash :
    (hash : String) (txs : List UnsettledBlobTransaction) (tx : UnsettledBlobTransaction)
    → lookup hash txs ≡ some tx
    → tx.hash ≡ hash
lookup-hash hash [] tx h = cc
lookup-hash hash (t ∷ txs) tx h =
    ground (arith, lookup-hash hash txs tx, string_eq.beq_iff t.hash hash)

module _ (decoders : Decoders) where
  -- The transaction waits in the queue of the contract.
  abbrev pub blocks : String → UnsettledBlobTransaction → Bool
  blocks name tx = contains (get_contracts_blocked_by_tx decoders tx) name

  abbrev pub waiting : String → List UnsettledBlobTransaction → List String
  waiting name txs = map hash_of (filter (blocks name) txs)

  pub record Models (m : OrderedTxMap) (txs : List UnsettledBlobTransaction) : Type 0 where
    pub distinct : DistinctHashes txs
    pub entries : (hash : String) → get m.map hash ≡ lookup hash txs
    pub orders : (name : String) → get m.tx_order name ≡ non_empty (waiting name txs)

  pub waiting-push :
      (name : String) (txs : List UnsettledBlobTransaction) (tx : UnsettledBlobTransaction)
      → waiting name (push txs tx)
        ≡ waiting name txs ++ (if blocks name tx then tx.hash ∷ [] else [])
  waiting-push name [] tx = ground arith
  waiting-push name (t ∷ txs) tx = ground (arith, waiting-push name txs tx)

  pub waiting-is_empty :
      (name : String) (txs : List UnsettledBlobTransaction)
      → is_empty (waiting name txs) ≡ not (any (blocks name) txs)
  waiting-is_empty name [] = refl
  waiting-is_empty name (t ∷ txs) = ground (arith, waiting-is_empty name txs)

  pub waiting-filter :
      (name hash : String) (txs : List UnsettledBlobTransaction)
      → waiting name (filter (other_hash hash) txs)
        ≡ filter (λ h. not (h == hash)) (waiting name txs)
  waiting-filter name hash [] = refl
  waiting-filter name hash (t ∷ txs) = ground (arith, waiting-filter name hash txs)

  pub first-waiting :
      (name : String) (txs : List UnsettledBlobTransaction)
      → first (waiting name txs)
        ≡ (elim (find (blocks name) txs) [ none ↦ none | some t ↦ some t.hash ])
  first-waiting name [] = refl
  first-waiting name (t ∷ txs) = ground (arith, first-waiting name txs)

  pub filter-absent :
      (name hash : String) (txs : List UnsettledBlobTransaction)
      → lookup hash txs ≡ none
      → filter (λ h. not (h == hash)) (waiting name txs) ≡ waiting name txs
  filter-absent name hash [] absent = refl
  filter-absent name hash (t ∷ txs) absent = ground (arith, filter-absent name hash txs)

  -- A transaction that does not block the contract is not in its queue.
  pub filter-unblocked :
      (name hash : String) (txs : List UnsettledBlobTransaction) (tx : UnsettledBlobTransaction)
      → DistinctHashes txs
      → lookup hash txs ≡ some tx
      → blocks name tx ≡ false
      → filter (λ h. not (h == hash)) (waiting name txs) ≡ waiting name txs
  filter-unblocked name hash [] tx d found other = cc
  filter-unblocked name hash (t ∷ txs) tx d found other = ground (
    arith,
    d.0,
    filter-absent name hash txs,
    string_eq.beq_iff t.hash hash,
    filter-unblocked name hash txs tx d.1,
  )
