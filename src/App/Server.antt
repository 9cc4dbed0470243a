-- ===== src/App/Server.antt =====
-- app_scaffold/server/src/app.rs: the HTTP handlers that turn a request into a blob transaction and
-- wait for its fate, and app_scaffold/server/src/init.rs: the registration of the contracts.
-- The node's client, borsh and the message bus are not under the repository: what the client
-- answers, the encodings and the events that arrive within the five seconds are arguments.
pub mod Waiting
use truth_seeker.Common.{
  ℕ, String, Bool, Option, none, some, List, [], ◌∷◌, ◌++◌, ◌==◌, string_eq, list_eq, nat_eq, not,
  if◌then◌else◌, Result, ok, err, ◌>>=◌, ◌>>◌, ok_or,
}
use truth_seeker.Sdk.Types.{Bytes, Blob, BlobTransaction}
use truth_seeker.App.ZkPassport.{ZkPassportAction}
use truth_seeker.App.Counter.{Contract1Action, increment_action}

-- the part of `RouterCtx` that the handlers read
pub record RouterCtx : Type 0 where
  pub contract1_cn : String
  pub contract2_cn : String
  pub zkpassport_cn : String

pub data AppError : Type 0 where
  unauthorized : AppError
  bad_request : String → AppError
  bus_closed : AppError
  timed_out : AppError

-- `AutoProverEvent::<Contract1>`
pub data AutoProverEvent : Type 0 where
  success_tx : String → AutoProverEvent
  failed_tx : String → String → AutoProverEvent

-- One `bus.recv()`: an event, or an error of the bus.
abbrev pub Received : Type 0
Received = Option AutoProverEvent

-- `AuthHeaders::from_headers`, on the value of the header `x-user`
unfoldable pub from_headers : Option String → Result AppError String
from_headers user = ok_or user unauthorized

-- The loop under `tokio::time::timeout`: the list holds what arrives in time.
unfoldable pub wait_for : String → List Received → Result AppError String
wait_for tx_hash [] = err timed_out
wait_for tx_hash (none ∷ events) = err bus_closed
wait_for tx_hash (some (success_tx h) ∷ events) =
    if h == tx_hash then ok h else wait_for tx_hash events
wait_for tx_hash (some (failed_tx h e) ∷ events) =
    if h == tx_hash then err (bad_request e) else wait_for tx_hash events

abbrev blob_of : {A : Type 0} → (A → Bytes) → A → String → Blob
blob_of encode action contract_name = record {
  contract_name = contract_name;
  payload = encode action;
}

module _ (encode : Contract1Action → Bytes) (encode_passport : ZkPassportAction → Bytes) where
  -- The transaction that `send` posts.
  unfoldable pub increment_tx : RouterCtx → String → Blob × Blob → BlobTransaction
  increment_tx ctx user (first, second) = record {
    identity = user;
    blobs =
        first
        ∷ second
        ∷ blob_of encode increment_action ctx.contract1_cn
        ∷ blob_of encode increment_action ctx.contract2_cn
        ∷ [];
  }

  unfoldable pub zkpassport_tx : RouterCtx → String → ZkPassportAction → BlobTransaction
  zkpassport_tx ctx user action = record {
    identity = user;
    blobs = blob_of encode_passport action ctx.zkpassport_cn ∷ [];
  }

  module _ (send_tx_blob : BlobTransaction → Result String String) where
    abbrev post : BlobTransaction → Result AppError String
    post tx = elim (send_tx_blob tx) [ ok tx_hash ↦ ok tx_hash | err e ↦ err (bad_request e) ]

    unfoldable pub send : RouterCtx → String → Blob × Blob → List Received → Result AppError String
    unfolding wait_for
    send ctx user wallet_blobs events = do
      tx_hash ← post (increment_tx ctx user wallet_blobs)
      wait_for tx_hash events

    -- `POST /api/increment`
    unfoldable pub increment :
        RouterCtx → Option String → Blob × Blob → List Received → Result AppError String
    unfolding from_headers send
    increment ctx header wallet_blobs events = do
      user ← from_headers header
      send ctx user wallet_blobs events

    -- `POST /api/zkpassport/verify`: the hash of the transaction, which is not waited for
    unfoldable pub zkpassport_verify :
        RouterCtx → Option String → ZkPassportAction → Result AppError String
    unfolding from_headers zkpassport_tx
    zkpassport_verify ctx header action = do
      user ← from_headers header
      post (zkpassport_tx ctx user action)

-- init.rs
pub record ContractInit : Type 0 where
  pub name : String
  pub program_id : Bytes
  pub initial_state : Bytes

pub data InitError : Type 0 where
  invalid_program_id : String → InitError
  register_failed : String → InitError
  not_ready : String → InitError

-- What `init_node` leaves: the contracts that it registered, in order, and how it ended.
abbrev pub InitRun : Type 0
InitRun = List ContractInit × Result InitError Unit

-- `indexed` is the program that the indexer answers with, `register` whether the node takes the
-- registration, `ready` whether `wait_contract_state` sees the contract within its 30 seconds.
module _ (indexed : String → Option Bytes) (register ready : ContractInit → Bool) where
  unfoldable pub init_contract : ContractInit → InitRun
  init_contract c = elim (indexed c.name) [
    | some program_id ↦
        ([], if program_id == c.program_id then ok tt else err (invalid_program_id c.name))
    | none ↦
        if not (register c)
        then ([], err (register_failed c.name))
        else (c ∷ [], if ready c then ok tt else err (not_ready c.name))
  ]

  abbrev then_init : InitRun → InitRun → InitRun
  then_init (done, ok _) (more, r) = (done ++ more, r)
  then_init (done, err e) next = (done, err e)

  unfoldable pub init_node : List ContractInit → InitRun
  unfolding init_contract
  init_node [] = ([], ok tt)
  init_node (c ∷ cs) = then_init (init_contract c) (init_node cs)
