-- ===== src/Node/Orders/Queues.antt =====
-- The queues of the contracts after a transaction was added or removed.
use truth_seeker.Common.{
  ℕ, ◌≡◌, refl, Bool, true, false, String, Option, none, some, List, [], ◌∷◌, ◌++◌, ◌&&◌, not, ◌==◌,
  nat_eq, string_eq, if◌then◌else◌, all, contains, filter, length, arith, Option-cases, Bool-cases,
  inl, inr, ==_ne, length-append,
}
use truth_seeker.Common.Maps.{Map, get, insert, remove, get-insert, get-remove}
use truth_seeker.Node.Types.{UnsettledBlobMetadata, Decoders}
use truth_seeker.Node.Orders.{enqueue, dequeue, insert_name, is_empty, also_blocked, blocked_by}

-- No name stands twice.
abbrev pub DistinctNames : List String → Type 0
DistinctNames [] = Unit
DistinctNames (x ∷ xs) = (contains xs x ≡ false) × DistinctNames xs

-- The queue of a contract; a contract without one has the empty queue.
abbrev pub queue : Map String (List String) → String → List String
queue orders name = elim (get orders name) [ none ↦ [] | some q ↦ q ]

abbrev pub non_empty : List String → Option (List String)
non_empty [] = none
non_empty (x ∷ xs) = some (x ∷ xs)

insert_name-DistinctNames :
    (x : String) (xs : List String) → DistinctNames xs → DistinctNames (insert_name x xs)
insert_name-DistinctNames x xs d = elim (Bool-cases (contains xs x)) [
  | inl old ↦ rw old d
  | inr new ↦ rw new (new, d)
]

also_blocked-DistinctNames :
    (decoders : Decoders) (b : UnsettledBlobMetadata) (names : List String)
    → DistinctNames names
    → DistinctNames (also_blocked decoders b names)
also_blocked-DistinctNames decoders b names d =
    elim (Option-cases (decoders.register b.blob.payload)) [
      | inr (reg, registers) ↦
          rw (registers, also_blocked)
            (insert_name-DistinctNames reg.parameters.contract_name names d)
      | inl other ↦ elim (Option-cases (decoders.delete b.blob.payload)) [
        | inr (del, deletes) ↦
            rw (other, deletes, also_blocked)
              (insert_name-DistinctNames del.parameters.contract_name names d)
        | inl neither ↦ rw (other, neither, also_blocked) d
      ]
    ]

pub blocked_by-DistinctNames :
    (decoders : Decoders) (blobs : Map ℕ UnsettledBlobMetadata)
    → DistinctNames (blocked_by decoders blobs)
unfolding blocked_by
blocked_by-DistinctNames decoders [] = tt
blocked_by-DistinctNames decoders ((i, b) ∷ blobs) =
    let names = blocked_by decoders blobs in
    also_blocked-DistinctNames decoders b (insert_name b.blob.contract_name names) (
      insert_name-DistinctNames b.blob.contract_name names
        (blocked_by-DistinctNames decoders blobs))

-- Both branches of the loop of `add`, in one.
enqueue-step :
    (hash x : String) (names : List String) (orders : Map String (List String)) (is_next : Bool)
    → enqueue hash (x ∷ names) orders is_next
      ≡ enqueue hash names
          (insert orders x (queue orders x ++ hash ∷ []))
          (is_empty (queue orders x) && is_next)
unfolding enqueue
enqueue-step hash x names orders is_next = elim (Option-cases (get orders x)) [
  | inl absent ↦ rw (absent, enqueue, queue) refl
  | inr ([], found) ↦ rw (found, enqueue, queue) refl
  | inr (h ∷ hs, found) ↦
      rw
        (
          found,
          enqueue,
          queue,
          ==_ne {A = ℕ} (length (h ∷ hs ++ hash ∷ [])) 1
              (λ e. omega (arith, length-append hs (hash ∷ []), e)),
        )
        refl
]

all-queue :
    (orders : Map String (List String)) (x : String) (q names : List String)
    → contains names x ≡ false
    → all (λ name. is_empty (queue (insert orders x q) name)) names
      ≡ all (λ name. is_empty (queue orders name)) names
all-queue orders x q [] h = refl
all-queue orders x q (y ∷ names) h = ground (
  arith,
  all-queue orders x q names,
  get-insert orders x y q,
  string_eq.beq_iff y x,
  string_eq.beq_iff x y,
)

pub get-enqueue :
    (hash : String) (names : List String) (orders : Map String (List String)) (is_next : Bool)
    (name : String)
    → DistinctNames names
    → get (enqueue hash names orders is_next).0 name
      ≡ (if contains names name then some (queue orders name ++ hash ∷ []) else get orders name)
get-enqueue hash [] orders is_next name d = unfold enqueue in refl
get-enqueue hash (x ∷ names) orders is_next name d =
    let orders' = insert orders x (queue orders x ++ hash ∷ []) in
    let next = is_empty (queue orders x) && is_next in
    rw (enqueue-step hash x names orders is_next) (
      ground (
        arith,
        get-enqueue hash names orders' next name d.1,
        d.0,
        get-insert orders x name (queue orders x ++ hash ∷ []),
        string_eq.beq_iff x name,
      ))

pub enqueue-is_next :
    (hash : String) (names : List String) (orders : Map String (List String)) (is_next : Bool)
    → DistinctNames names
    → (enqueue hash names orders is_next).1
      ≡ (all (λ name. is_empty (queue orders name)) names && is_next)
enqueue-is_next hash [] orders is_next d = unfold enqueue in refl
enqueue-is_next hash (x ∷ names) orders is_next d =
    let orders' = insert orders x (queue orders x ++ hash ∷ []) in
    let next = is_empty (queue orders x) && is_next in
    rw
      (
        enqueue-step hash x names orders is_next,
        enqueue-is_next hash names orders' next d.1,
        all-queue orders x (queue orders x ++ hash ∷ []) names d.0,
      )
      (ground arith)

pub non_empty-none : (xs : List String) → is_empty xs ≡ true → non_empty xs ≡ none
non_empty-none [] h = refl
non_empty-none (x ∷ xs) h = cc

pub non_empty-some : (xs : List String) → is_empty xs ≡ false → non_empty xs ≡ some xs
non_empty-some [] h = cc
non_empty-some (x ∷ xs) h = refl

abbrev pub drop : String → Option (List String) → Option (List String)
drop hash none = none
drop hash (some q) = non_empty (filter (λ h. not (h == hash)) q)

-- One round of the loop of `remove`.
drop_from : String → String → Map String (List String) → Map String (List String)
drop_from hash x orders = elim (get orders x) [
  | none ↦ orders
  | some q ↦
      let kept = filter (λ h. not (h == hash)) q in
      if is_empty kept then remove orders x else insert orders x kept
]

dequeue-step :
    (hash x : String) (names : List String) (orders : Map String (List String))
    → dequeue hash (x ∷ names) orders ≡ dequeue hash names (drop_from hash x orders)
unfolding dequeue drop_from
dequeue-step hash x names orders = elim (Option-cases (get orders x)) [
  | inl absent ↦ rw (absent, dequeue, drop_from) refl
  | inr (q, found) ↦ rw (found, dequeue, drop_from) refl
]

get-drop_from :
    (hash x name : String) (orders : Map String (List String))
    → get (drop_from hash x orders) name
      ≡ (if x == name then drop hash (get orders name) else get orders name)
unfolding drop_from
get-drop_from hash x name orders = elim (Option-cases (get orders x)) [
  | inl absent ↦ rw (absent, drop_from) (ground (arith, string_eq.beq_iff x name))
  | inr (q, found) ↦
      let kept = filter (λ h. not (h == hash)) q in
      elim (Bool-cases (is_empty kept)) [
        | inl none_left ↦
            rw (found, none_left, drop_from, get-remove)
              (ground (arith, string_eq.beq_iff x name, non_empty-none kept none_left))
        | inr some_left ↦
            rw (found, some_left, drop_from, get-insert)
              (ground (arith, string_eq.beq_iff x name, non_empty-some kept some_left))
      ]
]

pub get-dequeue :
    (hash : String) (names : List String) (orders : Map String (List String)) (name : String)
    → DistinctNames names
    → get (dequeue hash names orders) name
      ≡ (if contains names name then drop hash (get orders name) else get orders name)
get-dequeue hash [] orders name d = unfold dequeue in refl
get-dequeue hash (x ∷ names) orders name d = rw (dequeue-step hash x names orders) (
    ground (
      arith,
      get-dequeue hash names (drop_from hash x orders) name d.1,
      d.0,
      get-drop_from hash x name orders,
      string_eq.beq_iff x name,
    ))
