-- ===== src/Wallet/Sessions.antt =====
-- What a session key may be used for.
pub mod Replay
use mathlib.Core.Option
use truth_seeker.Common.{
  ℕ, ◌+◌, ◌≤◌, ◌<◌, ◌≡◌, ◌≢◌, refl, Bool, true, false, String, Option, none, some, List, [], ◌∷◌,
  ◌==◌, string_eq, nat_eq, list_eq, list_beq_iff, nat_beq_iff, not, find, any, length, arith, ap,
  sym, ◌∙◌, ltb, ltb→lt, if◌then◌else◌, All, contains, Result, ok, err, Option-cases, Result-cases,
  Bool-cases, inl, inr, ◌⊎◌, ◌||◌, ◌&&◌,
}
use truth_seeker.Sdk.Types.{Bytes, Blob, TxContext, Calldata, decimal}
use truth_seeker.Sdk.Secp256k1.{Secp256k1Blob, expect}
use truth_seeker.Sdk.Secp256k1.Check.{IsSigned, expect-IsSigned}
use truth_seeker.Wallet.{
  SessionKey, AccountInfo, Step, Error, Reply, key_valid, has_key, allows, blob_allowed,
  lane_allowed, check_session_key, set_key_nonce, use_session_key, handle_session_key_usage,
}

find-none-All :
    (index : ℕ) (sk : SessionKey) (blobs : List (ℕ × Blob))
    → find (λ p. not (blob_allowed index sk p)) blobs ≡ none
    → All (λ p. blob_allowed index sk p ≡ true) blobs
find-none-All index sk [] h = tt
find-none-All index sk (p ∷ ps) h = ground (arith, find-none-All index sk ps)

-- The grant under which the session key `sk` is used in the transaction: every blob is the
-- contract's own, the signature, or of a contract on the whitelist; the lane is the key's, if it
-- has one; the key has not expired.
pub record IsGranted (sk : SessionKey) (c : Calldata) (ctx : TxContext) : Type 0 where
  pub blobs : All (λ p. blob_allowed c.index sk p ≡ true) c.blobs
  pub lane : lane_allowed sk.lane_id ctx.lane_id ≡ true
  pub alive : ctx.timestamp < sk.expiration_date

check-IsGranted :
    (sk : SessionKey) (c : Calldata) (ctx : TxContext)
    → check_session_key sk c ctx ≡ ok tt
    → IsGranted sk c ctx
unfolding check_session_key
check-IsGranted sk c ctx h = record {
  blobs = find-none-All c.index sk c.blobs (ground arith);
  lane = ground arith;
  alive = ground arith;
}

-- What a successful use of a key has been.
pub record IsUsed (a b : AccountInfo) (key : String) (c : Calldata) (nonce : ℕ) : Type 0 where
  pub sk : SessionKey
  pub ctx : TxContext
  pub found : find (has_key key) a.session_keys ≡ some sk
  pub context : c.tx_ctx ≡ some ctx
  pub all_blobs : length c.blobs ≡ c.tx_blob_count
  pub granted : IsGranted sk c ctx
  pub after : b ≡ record a { session_keys = set_key_nonce key nonce a.session_keys }

pub use_session_key-IsUsed :
    (a : AccountInfo) (key : String) (c : Calldata) (nonce : ℕ) (r : Reply)
    → (use_session_key a key c nonce).1 ≡ ok r
    → IsUsed a (use_session_key a key c nonce).0 key c nonce
unfolding use_session_key
use_session_key-IsUsed a key c nonce r h = elim (Option-cases c.tx_ctx) [
  | inl absent ↦ ground arith
  | inr (ctx, context) ↦ elim (Option-cases (find (has_key key) a.session_keys)) [
    | inl absent ↦ ground arith
    | inr (sk, found) ↦ elim (Result-cases (check_session_key sk c ctx)) [
      | inr (e, bad) ↦ ground arith
      | inl (u, good) ↦ record {
        sk = sk;
        ctx = ctx;
        found = found;
        context = context;
        all_blobs = ground (arith, nat_beq_iff (length c.blobs) c.tx_blob_count);
        granted = check-IsGranted sk c ctx good;
        after = ground (arith, nat_beq_iff (length c.blobs) c.tx_blob_count);
      }
    ]
  ]
]

module _ (hex : Bytes → String) (decode : Bytes → Option Secp256k1Blob) (sha256 : Bytes → Bytes)
    (a : AccountInfo) (account : String) (nonce : ℕ) (c : Calldata) where
  -- A use of a session key is signed: the transaction holds a blob of the contract `secp256k1` that
  -- decodes to a signature of its own identity, over the hash of the nonce in decimal digits, and of
  -- the session key that is used (the node checks the signature itself). The key is one of the account, every
  -- blob of the transaction is there and allowed by it, its lane is right and it has not expired.
  -- Only the key's nonce changes.
  pub handle_session_key_usage_sound :
      (r : Reply)
      → (handle_session_key_usage hex decode sha256 a account nonce c).1 ≡ ok r
      → (a.identity ≡ account)
        × (secp : Secp256k1Blob) × IsSigned decode sha256 c (decimal 39 nonce) secp
        × IsUsed a
            (handle_session_key_usage hex decode sha256 a account nonce c).0
            (hex secp.public_key)
            c
            nonce
  unfolding handle_session_key_usage
  handle_session_key_usage_sound r h = elim (Bool-cases (a.identity == account)) [
    | inr other ↦ ground arith
    | inl same ↦ elim (Result-cases (expect decode sha256 c (decimal 39 nonce) none)) [
      | inr (e, bad) ↦ ground arith
      | inl (secp, good) ↦ (
        (string_eq.beq_iff a.identity account).0 same,
        secp,
        expect-IsSigned decode sha256 c (decimal 39 nonce) none secp good,
        rw (same, good, handle_session_key_usage)
            (use_session_key-IsUsed a (hex secp.public_key) c nonce r (ground arith)),
      )
    ]
  ]
