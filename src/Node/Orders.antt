-- ===== src/Node/Orders.antt =====
-- node_state/ordered_tx_map.rs: the unsettled transactions, and for each contract the queue of those
-- that wait for it. A `HashSet` of names is a list in which each name stands once; the code takes
-- its elements in an order of its own, and no result depends on it.
pub mod Queues
pub mod Arrivals
pub mod Refines
pub mod Replacing
use truth_seeker.Common.{
  ℕ, Bool, true, false, String, Option, none, some, List, [], ◌∷◌, ◌&&◌, not, ◌==◌, nat_eq,
  string_eq, option_eq, if◌then◌else◌, all, contains, filter, first, length, push,
}
use truth_seeker.Common.Maps.{Map, get, insert, remove, contains_key}
use truth_seeker.Node.Types.{UnsettledBlobMetadata, UnsettledBlobTransaction, Decoders}

pub record OrderedTxMap : Type 0 where
  pub map : Map String UnsettledBlobTransaction
  pub tx_order : Map String (List String)

-- `HashSet::insert`
abbrev pub insert_name : String → List String → List String
insert_name name names = if contains names name then names else name ∷ names

abbrev pub is_empty : {A : Type 0} → List A → Bool
is_empty [] = true
is_empty (x ∷ xs) = false

unfoldable pub get_next_unsettled_tx : OrderedTxMap → String → Option String
get_next_unsettled_tx m contract = elim (get m.tx_order contract) [
  | none ↦ none
  | some queue ↦ first queue
]

-- Whether the transaction is at the front of the queue of each of its blobs' contracts.
abbrev pub is_first : OrderedTxMap → String → Map ℕ UnsettledBlobMetadata → Bool
is_first m hash blobs =
    all
      (λ (p : ℕ × UnsettledBlobMetadata).
        get_next_unsettled_tx m (p.1).blob.contract_name == some hash)
      blobs

unfoldable pub is_next_to_settle : OrderedTxMap → String → Bool
is_next_to_settle m hash = elim (get m.map hash) [
  | none ↦ false
  | some tx ↦ is_first m hash tx.blobs
]

unfoldable pub get_for_settlement : OrderedTxMap → String → Option (UnsettledBlobTransaction × Bool)
get_for_settlement m hash = elim (get m.map hash) [
  | none ↦ none
  | some tx ↦ some (tx, is_first m tx.hash tx.blobs)
]

-- the loop of `add`
unfoldable pub enqueue :
    String → List String → Map String (List String) → Bool → Map String (List String) × Bool
enqueue hash [] orders is_next = (orders, is_next)
enqueue hash (name ∷ names) orders is_next = elim (get orders name) [
  | some queue ↦
      enqueue hash names (insert orders name (push queue hash))
        (length (push queue hash) == 1 && is_next)
  | none ↦ enqueue hash names (insert orders name (hash ∷ [])) (true && is_next)
]

-- the loop of `remove`
unfoldable pub dequeue : String → List String → Map String (List String) → Map String (List String)
dequeue hash [] orders = orders
dequeue hash (name ∷ names) orders = elim (get orders name) [
  | none ↦ dequeue hash names orders
  | some queue ↦
      let kept = filter (λ h. not (h == hash)) queue in
      dequeue hash names (if is_empty kept then remove orders name else insert orders name kept)
]

module _ (decoders : Decoders) where
  -- The contract that a blob registers or deletes.
  abbrev pub also_blocked : UnsettledBlobMetadata → List String → List String
  also_blocked metadata names = elim (decoders.register metadata.blob.payload) [
    | some reg ↦ insert_name reg.parameters.contract_name names
    | none ↦ elim (decoders.delete metadata.blob.payload) [
      | some del ↦ insert_name del.parameters.contract_name names
      | none ↦ names
    ]
  ]

  unfoldable pub blocked_by : Map ℕ UnsettledBlobMetadata → List String
  blocked_by [] = []
  blocked_by ((i, metadata) ∷ blobs) =
      also_blocked metadata (insert_name metadata.blob.contract_name (blocked_by blobs))

  abbrev pub get_contracts_blocked_by_tx : UnsettledBlobTransaction → List String
  get_contracts_blocked_by_tx tx = blocked_by tx.blobs

  unfoldable pub add : OrderedTxMap → UnsettledBlobTransaction → OrderedTxMap × Option Bool
  add m tx =
      if contains_key m.map tx.hash
      then (m, none)
      else let (orders, is_next) =
          enqueue tx.hash (get_contracts_blocked_by_tx tx) m.tx_order true in
        (record { map = insert m.map tx.hash tx; tx_order = orders }, some is_next)

  unfoldable pub remove_tx : OrderedTxMap → String → OrderedTxMap × Option UnsettledBlobTransaction
  remove_tx m hash = elim (get m.map hash) [
    | none ↦ (m, none)
    | some tx ↦ (
      record {
        map = remove m.map hash;
        tx_order = dequeue tx.hash (get_contracts_blocked_by_tx tx) m.tx_order;
      },
      some tx,
    )
  ]
