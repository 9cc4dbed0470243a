-- ===== src/Wallet/Sessions/Replay.antt =====
-- The same use of a session key of the wallet contract, sent twice.
use mathlib.Core.Option
use truth_seeker.Common.{
  ℕ, ◌≡◌, refl, Bool, true, String, Option, none, some, List, [], ◌∷◌, string_eq, nat_eq, list_eq,
  nat_beq_iff, not, find, length, arith, ap, sym, ◌∙◌, All, ok, Result-cases, inl, inr,
}
use truth_seeker.Sdk.Types.{Bytes, Blob, TxContext, Calldata, decimal}
use truth_seeker.Sdk.Secp256k1.{Secp256k1Blob, expect}
use truth_seeker.Wallet.Sessions.{IsGranted, IsUsed, use_session_key-IsUsed}
use truth_seeker.Wallet.{
  SessionKey, AccountInfo, Step, Reply, key_valid, has_key, blob_allowed, check_session_key,
  set_key_nonce, use_session_key, handle_session_key_usage,
}

All-find-none :
    (allowed : ℕ × Blob → Bool) (blobs : List (ℕ × Blob))
    → All (λ p. allowed p ≡ true) blobs
    → find (λ p. not (allowed p)) blobs ≡ none
All-find-none allowed [] all = refl
All-find-none allowed (p ∷ ps) all = ground (arith, all.0, All-find-none allowed ps all.1)

granted-check :
    (sk : SessionKey) (c : Calldata) (ctx : TxContext)
    → IsGranted sk c ctx
    → check_session_key sk c ctx ≡ ok tt
unfolding check_session_key
granted-check sk c ctx g =
    rw (All-find-none (λ p. blob_allowed c.index sk p) c.blobs g.blobs, check_session_key)
      (ground (arith, g.lane, g.alive))

find-set :
    (key : String) (nonce : ℕ) (sks : List SessionKey)
    → find (has_key key) (set_key_nonce key nonce sks)
      ≡ Option.map (λ (sk : SessionKey). record sk { nonce = nonce }) (find (has_key key) sks)
unfolding set_key_nonce
find-set key nonce [] = refl
find-set key nonce (sk ∷ sks) = ground (arith, find-set key nonce sks)

set-set :
    (key : String) (nonce : ℕ) (sks : List SessionKey)
    → set_key_nonce key nonce (set_key_nonce key nonce sks) ≡ set_key_nonce key nonce sks
unfolding set_key_nonce
set-set key nonce [] = refl
set-set key nonce (sk ∷ sks) = ground (arith, set-set key nonce sks)

check-nonce :
    (sk : SessionKey) (nonce : ℕ) (c : Calldata) (ctx : TxContext)
    → check_session_key (record sk { nonce = nonce }) c ctx ≡ check_session_key sk c ctx
unfolding check_session_key
check-nonce sk nonce c ctx = refl

use_again :
    (a : AccountInfo) (key : String) (c : Calldata) (nonce : ℕ) (sk : SessionKey) (ctx : TxContext)
    → find (has_key key) a.session_keys ≡ some sk
    → c.tx_ctx ≡ some ctx
    → length c.blobs ≡ c.tx_blob_count
    → check_session_key sk c ctx ≡ ok tt
    → use_session_key a key c nonce
      ≡ (record a { session_keys = set_key_nonce key nonce a.session_keys }, ok key_valid)
unfolding use_session_key
use_again a key c nonce sk ctx found context all good =
    ground (arith, nat_beq_iff (length c.blobs) c.tx_blob_count)

replay_after :
    (a b : AccountInfo) (key : String) (c : Calldata) (nonce : ℕ)
    → IsUsed a b key c nonce
    → use_session_key b key c nonce ≡ (b, ok key_valid)
replay_after a b key c nonce u =
    rw
      (
        u.after,
        use_again (record a { session_keys = set_key_nonce key nonce a.session_keys }) key c nonce
            (record u.sk { nonce = nonce }) u.ctx
            (rw (find-set key nonce a.session_keys, u.found) refl) u.context u.all_blobs
            (rw (check-nonce u.sk nonce c u.ctx) (granted-check u.sk c u.ctx u.granted)),
        set-set key nonce a.session_keys,
      )
      refl

handle_run :
    (hex : Bytes → String) (decode : Bytes → Option Secp256k1Blob) (sha256 : Bytes → Bytes)
    (a : AccountInfo) (account : String) (nonce : ℕ) (c : Calldata) (secp : Secp256k1Blob)
    → a.identity ≡ account
    → expect decode sha256 c (decimal 39 nonce) none ≡ ok secp
    → handle_session_key_usage hex decode sha256 a account nonce c
      ≡ use_session_key a (hex secp.public_key) c nonce
unfolding handle_session_key_usage
handle_run hex decode sha256 a account nonce c secp same good =
    ground (arith, string_eq.beq_iff a.identity account)

module _ (hex : Bytes → String) (decode : Bytes → Option Secp256k1Blob) (sha256 : Bytes → Bytes)
    (a : AccountInfo) (account : String) (nonce : ℕ) (c : Calldata) where
  accepted :
      (r : Reply)
      → (handle_session_key_usage hex decode sha256 a account nonce c).1 ≡ ok r
      → (a.identity ≡ account)
        × (secp : Secp256k1Blob) × (expect decode sha256 c (decimal 39 nonce) none ≡ ok secp)
  unfolding handle_session_key_usage
  accepted r h = elim (Result-cases (expect decode sha256 c (decimal 39 nonce) none)) [
    | inr (e, bad) ↦ ground (arith, string_eq.beq_iff a.identity account)
    | inl (secp, good) ↦ (ground (arith, string_eq.beq_iff a.identity account), secp, good)
  ]

  -- A transaction with a session key that succeeds once succeeds again, with the same blobs, the
  -- same signature and the same nonce: the contract sets the key's nonce but never tests it.
  pub session_key_replay :
      (r : Reply)
      → (handle_session_key_usage hex decode sha256 a account nonce c).1 ≡ ok r
      → let b = (handle_session_key_usage hex decode sha256 a account nonce c).0 in
        handle_session_key_usage hex decode sha256 b account nonce c ≡ (b, ok key_valid)
  session_key_replay r h =
      let (same, secp, good) = accepted r h in
      let here = handle_run hex decode sha256 a account nonce c secp same good in
      let used =
        use_session_key-IsUsed a (hex secp.public_key) c nonce r
          (ap (λ (s : Step). s.1) (sym here) ∙ h) in
      rw (here) (
        handle_run hex decode sha256 (use_session_key a (hex secp.public_key) c nonce).0 account
          nonce c secp (rw (used.after) same) good
        ∙ replay_after a (use_session_key a (hex secp.public_key) c nonce).0 (hex secp.public_key) c
            nonce used)
