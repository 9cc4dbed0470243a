-- ===== src/Sdk/Types.antt =====
-- manual_Scaffold/hyli/crates/hyle-model/src/contract.rs: the data that contracts and node share.
-- Newtypes over `String`, `Vec<u8>`, `u64` and `usize` are the type that they wrap.
use Prim.Native.Char.{code}
use truth_seeker.Common.{
  zero, suc, ◌+◌, ◌/◌, ◌%◌, ◌∷◌, [], ◌++◌, push, ltb, if◌then◌else◌, ℕ, Bool, String, Option, List,
  ◌==◌, ◌&&◌, list_eq, option_eq, nat_eq, string_eq, find,
}
use mathlib.Core.Option

-- `Vec<u8>`
abbrev pub Bytes : Type 0
Bytes = List ℕ

-- The field `data` is `payload`.
pub record Blob : Type 0 where
  pub contract_name : String
  pub payload : Bytes

abbrev pub IndexedBlobs : Type 0
IndexedBlobs = List (ℕ × Blob)

-- `IndexedBlobs::get`
abbrev pub blob_at : IndexedBlobs → ℕ → Option Blob
blob_at blobs index = Option.map (λ (p : ℕ × Blob). p.1) (find (λ p. p.0 == index) blobs)

-- node/transaction.rs, without the cached hashes
pub record BlobTransaction : Type 0 where
  pub identity : String
  pub blobs : List Blob

pub record TxContext : Type 0 where
  pub lane_id : Bytes
  pub block_hash : String
  pub block_height : ℕ
  pub timestamp : ℕ
  pub chain_id : ℕ

abbrev pub tx_context_beq : TxContext → TxContext → Bool
tx_context_beq a b =
    a.lane_id == b.lane_id
    && a.block_hash == b.block_hash
    && a.block_height == b.block_height
    && a.timestamp == b.timestamp
    && a.chain_id == b.chain_id

pub record Calldata : Type 0 where
  pub tx_hash : String
  pub identity : String
  pub blobs : IndexedBlobs
  pub tx_blob_count : ℕ
  pub index : ℕ
  pub tx_ctx : Option TxContext
  pub private_input : Bytes

pub data TimeoutWindow : Type 0 where
  no_timeout : TimeoutWindow
  timeout : ℕ → TimeoutWindow

pub record RegisterContractEffect : Type 0 where
  pub verifier : String
  pub program_id : Bytes
  pub state_commitment : Bytes
  pub contract_name : String
  pub timeout_window : Option TimeoutWindow

pub data OnchainEffect : Type 0 where
  register_contract : RegisterContractEffect → OnchainEffect
  delete_contract : String → OnchainEffect

pub record HyleOutput : Type 0 where
  pub version : ℕ
  pub initial_state : Bytes
  pub next_state : Bytes
  pub identity : String
  pub index : ℕ
  pub blobs : IndexedBlobs
  pub tx_blob_count : ℕ
  pub tx_hash : String
  pub success : Bool
  pub state_reads : List (String × Bytes)
  pub tx_ctx : Option TxContext
  pub onchain_effects : List OnchainEffect
  pub program_outputs : Bytes

-- The UTF-8 of a character: `str::as_bytes`.
abbrev utf8 : ℕ → Bytes
utf8 c =
    if ltb c 0x80
    then c ∷ []
    else if ltb c 0x800
    then (0xC0 + c / 0x40) ∷ (0x80 + c % 0x40) ∷ []
    else if ltb c 0x10000
    then (0xE0 + c / 0x1000) ∷ (0x80 + c / 0x40 % 0x40) ∷ (0x80 + c % 0x40) ∷ []
    else (0xF0 + c / 0x40000)
      ∷ (0x80 + c / 0x1000 % 0x40)
      ∷ (0x80 + c / 0x40 % 0x40)
      ∷ (0x80 + c % 0x40)
      ∷ []

unfoldable pub as_bytes : String → Bytes
as_bytes String.[] = []
as_bytes (String.◌∷◌ c s) = utf8 (code c) ++ as_bytes s

-- The decimal digits of a number, as `to_string` writes them: 39 are enough for a `u128`.
unfoldable pub decimal : ℕ → ℕ → Bytes
decimal zero n = []
decimal (suc k) n =
    let rest = decimal k (n / 10) in if ltb n 10 then (48 + n) ∷ [] else push rest (48 + n % 10)
