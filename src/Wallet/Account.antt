-- ===== src/Wallet/Account.antt =====
-- What the wallet contract promises of an account, whatever the action.
use truth_seeker.Common.{
  ℕ, ◌≡◌, refl, Bool, false, String, Option, none, List, [], ◌∷◌, ◌==◌, string_eq, not, any, filter,
  push, arith, Bool-cases, Result-cases, inl, inr, ◌||◌,
}
use truth_seeker.Sdk.Types.{Bytes, Calldata, decimal}
use truth_seeker.Sdk.Secp256k1.{Secp256k1Blob, expect}
use truth_seeker.Wallet.{
  SessionKey, AuthMethod, AccountInfo, WalletAction, register_identity_action,
  verify_identity_action, add_session_key_action, remove_session_key_action, use_session_key_action,
  verify, register_identity, verify_identity, has_key, add_session_key, remove_session_key,
  set_key_nonce, use_session_key, handle_registration, handle_session_key_usage, authenticated,
  handle_authenticated_action, run_action,
}

abbrev pub key_in : String → List SessionKey → Bool
key_in key sks = any (has_key key) sks

-- No public key is listed twice.
abbrev pub DistinctKeys : List SessionKey → Type 0
DistinctKeys [] = Unit
DistinctKeys (sk ∷ sks) = (key_in sk.public_key sks ≡ false) × DistinctKeys sks

key_in-push :
    (key : String) (sks : List SessionKey) (sk : SessionKey)
    → key_in key (push sks sk) ≡ (key_in key sks || (sk.public_key == key))
key_in-push key [] sk = ground arith
key_in-push key (s ∷ sks) sk = ground (arith, key_in-push key sks sk)

DistinctKeys-push :
    (sks : List SessionKey) (sk : SessionKey)
    → DistinctKeys sks
    → key_in sk.public_key sks ≡ false
    → DistinctKeys (push sks sk)
DistinctKeys-push [] sk d h = (refl, tt)
DistinctKeys-push (s ∷ sks) sk d h = ground (
  arith,
  key_in-push s.public_key sks sk,
  string_eq.beq_iff s.public_key sk.public_key,
  string_eq.beq_iff sk.public_key s.public_key,
  DistinctKeys-push sks sk d.1,
)

key_in-filter :
    (key : String) (p : SessionKey → Bool) (sks : List SessionKey)
    → key_in key sks ≡ false
    → key_in key (filter p sks) ≡ false
key_in-filter key p [] h = refl
key_in-filter key p (s ∷ sks) h = ground (arith, key_in-filter key p sks)

DistinctKeys-filter :
    (p : SessionKey → Bool) (sks : List SessionKey) → DistinctKeys sks → DistinctKeys (filter p sks)
DistinctKeys-filter p [] d = tt
DistinctKeys-filter p (s ∷ sks) d =
    ground (arith, key_in-filter s.public_key p sks d.0, DistinctKeys-filter p sks d.1)

key_in-set :
    (k key : String) (nonce : ℕ) (sks : List SessionKey)
    → key_in k (set_key_nonce key nonce sks) ≡ key_in k sks
unfolding set_key_nonce
key_in-set k key nonce [] = refl
key_in-set k key nonce (s ∷ sks) = ground (arith, key_in-set k key nonce sks)

DistinctKeys-set :
    (key : String) (nonce : ℕ) (sks : List SessionKey)
    → DistinctKeys sks
    → DistinctKeys (set_key_nonce key nonce sks)
unfolding set_key_nonce
DistinctKeys-set key nonce [] d = tt
DistinctKeys-set key nonce (s ∷ sks) d =
    ground (arith, key_in-set s.public_key key nonce sks, DistinctKeys-set key nonce sks d.1)

-- What every step keeps: the identity, and that the keys are distinct.
record Keeps (a b : AccountInfo) : Type 0 where
  identity : b.identity ≡ a.identity
  distinct : DistinctKeys a.session_keys → DistinctKeys b.session_keys

add-Keeps :
    (a : AccountInfo) (key : String) (t : ℕ) (w : Option (List String)) (l : Option Bytes)
    → Keeps a (add_session_key a key t w l).0
unfolding add_session_key
add-Keeps a key t w l = elim (Bool-cases (key_in key a.session_keys)) [
  | inl old ↦ rw (old, add_session_key) (record { identity = refl; distinct = λ d. d })
  | inr new ↦
      rw (new, add_session_key)
        (record { identity = refl; distinct = λ d. DistinctKeys-push a.session_keys _ d new })
]

remove-Keeps : (a : AccountInfo) (key : String) → Keeps a (remove_session_key a key).0
unfolding remove_session_key
remove-Keeps a key = record {
  identity = ground arith;
  distinct = λ d. ground (arith, DistinctKeys-filter (λ sk. not (has_key key sk)) a.session_keys d);
}

use-Keeps :
    (a : AccountInfo) (key : String) (c : Calldata) (nonce : ℕ)
    → Keeps a (use_session_key a key c nonce).0
unfolding use_session_key
use-Keeps a key c nonce = record {
  identity = ground arith;
  distinct = λ d. ground (arith, DistinctKeys-set key nonce a.session_keys d);
}

register-Keeps :
    (a : AccountInfo) (account : String) (nonce : ℕ) (auth : AuthMethod)
    → Keeps a (register_identity a account nonce auth).0
unfolding register_identity
register-Keeps a account nonce auth = record {
  identity = ground arith;
  distinct = λ d. ground arith;
}

authenticated-Keeps : (a : AccountInfo) (action : WalletAction) → Keeps a (authenticated a action).0
unfolding authenticated
authenticated-Keeps a (verify_identity_action account nonce) =
    unfold verify_identity in record { identity = ground arith; distinct = λ d. ground arith }
authenticated-Keeps a (add_session_key_action account key t w l) =
    let k = add-Keeps a key t w l in
    record { identity = ground arith; distinct = λ d. ground (arith, k.distinct d) }
authenticated-Keeps a (remove_session_key_action account key) = remove-Keeps a key
authenticated-Keeps a _ = record { identity = refl; distinct = λ d. d }

module _ (hex : Bytes → String) (decode : Bytes → Option Secp256k1Blob)
    (sha256 : Bytes → Bytes) where
  handle_authenticated_action-Keeps :
      (a : AccountInfo) (action : WalletAction) (c : Calldata)
      → Keeps a (handle_authenticated_action hex decode sha256 a action c).0
  unfolding handle_authenticated_action
  handle_authenticated_action-Keeps a action c =
      elim (Result-cases (verify hex decode sha256 a.auth_method c)) [
        | inl (u, good) ↦ rw (good, handle_authenticated_action) (authenticated-Keeps a action)
        | inr (e, bad) ↦
            rw (bad, handle_authenticated_action) (record { identity = refl; distinct = λ d. d })
      ]

  run_action-Keeps :
      (a : AccountInfo) (action : WalletAction) (c : Calldata) (public_key : Bytes)
      → Keeps a (run_action hex decode sha256 a action c public_key).0
  unfolding run_action
  run_action-Keeps a (register_identity_action account nonce salt auth code) c pk =
      let k = register-Keeps a account nonce auth in
      unfold handle_registration in
      record { identity = ground (arith, k.identity); distinct = λ d. ground (arith, k.distinct d) }
  run_action-Keeps a (use_session_key_action account nonce) c pk =
      elim (Result-cases (expect decode sha256 c (decimal 39 nonce) none)) [
        | inl (secp, good) ↦
            let k = use-Keeps a (hex secp.public_key) c nonce in
            unfold handle_session_key_usage in
            record {
              identity = ground (arith, k.identity);
              distinct = λ d. ground (arith, k.distinct d);
            }
        | inr (e, bad) ↦
            unfold handle_session_key_usage in
            record { identity = ground arith; distinct = λ d. ground arith }
      ]
  run_action-Keeps a action c pk = handle_authenticated_action-Keeps a action c

  -- Whatever the action, an account keeps its identity, and session keys that were distinct are
  -- distinct afterwards, also when the action fails.
  pub run_action-DistinctKeys :
      (a : AccountInfo) (action : WalletAction) (c : Calldata) (public_key : Bytes)
      → DistinctKeys a.session_keys
      → let b = (run_action hex decode sha256 a action c public_key).0 in
        (b.identity ≡ a.identity) × DistinctKeys b.session_keys
  run_action-DistinctKeys a action c pk d =
      let k = run_action-Keeps a action c pk in (k.identity, k.distinct d)
