-- ===== src/App/Server/Waiting.antt =====
-- How a request to the server ends.
use truth_seeker.Common.{
  true, ◌⊎◌, inl, inr, Option-cases, String, ◌≡◌, ◌≢◌, refl, Bool, Option, none, some, List, [],
  ◌∷◌, ◌++◌, string_eq, list_eq, list_beq_iff, nat_eq, arith, All, Result, ok, err,
}
use truth_seeker.Sdk.Types.{BlobTransaction, Bytes, Blob}
use truth_seeker.App.ZkPassport.{ZkPassportAction}
use truth_seeker.App.Counter.{Contract1Action}
use truth_seeker.App.Server.{
  RouterCtx, AppError, bad_request, AutoProverEvent, success_tx, failed_tx, Received, wait_for,
  increment_tx, increment, ContractInit, init_node,
}

-- The event is one about another transaction.
abbrev pub IsAboutOther : String → Received → Type 0
IsAboutOther tx_hash none = ⊥
IsAboutOther tx_hash (some (success_tx h)) = h ≢ tx_hash
IsAboutOther tx_hash (some (failed_tx h e)) = h ≢ tx_hash

wait_skip :
    (tx_hash : String) (before after : List Received)
    → All (IsAboutOther tx_hash) before
    → wait_for tx_hash (before ++ after) ≡ wait_for tx_hash after
unfolding wait_for
wait_skip tx_hash [] after h = refl
wait_skip tx_hash (none ∷ before) after h = absurd h.0
wait_skip tx_hash (some (success_tx g) ∷ before) after h =
    ground (arith, string_eq.beq_iff g tx_hash, wait_skip tx_hash before after h.1)
wait_skip tx_hash (some (failed_tx g e) ∷ before) after h =
    ground (arith, string_eq.beq_iff g tx_hash, wait_skip tx_hash before after h.1)

-- The outcome that an event reports.
abbrev pub outcome : AutoProverEvent → Result AppError String
outcome (success_tx h) = ok h
outcome (failed_tx h e) = err (bad_request e)

abbrev pub subject : AutoProverEvent → String
subject (success_tx h) = h
subject (failed_tx h e) = h

wait_hit :
    (tx_hash : String) (e : AutoProverEvent) (after : List Received)
    → subject e ≡ tx_hash
    → wait_for tx_hash (some e ∷ after) ≡ outcome e
unfolding wait_for
wait_hit tx_hash (success_tx h) after same = ground (arith, string_eq.beq_iff h tx_hash)
wait_hit tx_hash (failed_tx h e) after same = ground (arith, string_eq.beq_iff h tx_hash)

-- A request with a user that the node takes ends as the first event about its own transaction
-- says, whatever events about others come before it.
pub increment-outcome :
    (encode : Contract1Action → Bytes) (encode_passport : ZkPassportAction → Bytes)
    (send_tx_blob : BlobTransaction → Result String String) (ctx : RouterCtx) (user : String)
    (wallet_blobs : Blob × Blob) (tx_hash : String) (before : List Received) (e : AutoProverEvent)
    (after : List Received)
    → send_tx_blob (increment_tx encode encode_passport ctx user wallet_blobs) ≡ ok tx_hash
    → All (IsAboutOther tx_hash) before
    → subject e ≡ tx_hash
    → increment encode encode_passport send_tx_blob ctx
        (some user)
        wallet_blobs
        (before ++ some e ∷ after)
      ≡ outcome e
unfolding increment
increment-outcome encode ep send_tx_blob ctx user blobs tx_hash before e after sent others same =
    ground (arith, wait_skip tx_hash before (some e ∷ after) others, wait_hit tx_hash e after same)

module _ (indexed : String → Option Bytes) (register ready : ContractInit → Bool) where
  -- When it succeeds, every contract that the indexer knew had the program of the server, and
  -- every other one was taken by the node and seen within the time.
  pub init_node_checks :
      (cs : List ContractInit)
      → (init_node indexed register ready cs).1 ≡ ok tt
      → All
          (λ c.
            (indexed c.name ≡ some c.program_id)
            ⊎ ((indexed c.name ≡ none) × (register c ≡ true) × (ready c ≡ true)))
          cs
  unfolding init_node
  init_node_checks [] h = tt
  init_node_checks (c ∷ cs) h = (
    elim (Option-cases (indexed c.name)) [
      | inl absent ↦ inr (absent, ground arith, ground arith)
      | inr (p, known) ↦ inl (ground (arith, list_beq_iff p c.program_id))
    ],
    init_node_checks cs (ground arith),
  )
