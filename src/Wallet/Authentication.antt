-- ===== src/Wallet/Authentication.antt =====
-- Which actions of the wallet contract are authenticated, and which can be repeated.
use truth_seeker.Common.{
  is_ok, ℕ, ◌<◌, ◌≡◌, refl, true, false, String, Option, some, string_eq, find, arith, ap, ok, err,
  Option-cases, Result-cases, inl, inr,
}
use truth_seeker.Sdk.Types.{Bytes, Blob, Calldata}
use truth_seeker.Sdk.Secp256k1.{Secp256k1Blob}
use truth_seeker.Wallet.{
  AuthMethod, password, uninitialized, AccountInfo, WalletAction, verify_identity_action,
  invalid_nonce, already_registered, Reply, is_initialized, is_check_secret, verify,
  verify_identity, register_identity, authenticated, handle_authenticated_action,
  handle_registration,
}

not_initialized-uninitialized :
    (auth : AuthMethod) → is_initialized auth ≡ false → auth ≡ uninitialized
not_initialized-uninitialized uninitialized h = refl
not_initialized-uninitialized (password hash) h = cc

register_identity_cases :
    (a : AccountInfo) (account : String) (nonce : ℕ) (auth : AuthMethod) (r : Reply)
    → (register_identity a account nonce auth).1 ≡ ok r
    → (a.identity ≡ account)
      × (is_initialized a.auth_method ≡ false)
      × ((register_identity a account nonce auth).0
          ≡ record a { auth_method = auth; nonce = nonce })
unfolding register_identity
register_identity_cases a account nonce auth r h = (
  ground (arith, string_eq.beq_iff a.identity account),
  ground arith,
  ground (arith, string_eq.beq_iff a.identity account),
)

register_identity_closed :
    (a : AccountInfo) (account : String) (nonce : ℕ) (auth : AuthMethod)
    → is_initialized a.auth_method ≡ true
    → register_identity a account nonce auth ≡ (a, err already_registered)
unfolding register_identity
register_identity_closed a account nonce auth h = ground arith

module _ (hex : Bytes → String) (decode : Bytes → Option Secp256k1Blob)
    (sha256 : Bytes → Bytes) where
  -- The first blob for the contract `check_secret` holds the account's password hash.
  pub record IsAuthenticated (auth : AuthMethod) (c : Calldata) : Type 0 where
    pub hash : String
    pub entry : ℕ × Blob
    pub initialized : auth ≡ password hash
    pub found : find is_check_secret c.blobs ≡ some entry
    pub matches : hex (entry.1).payload ≡ hash

  verify_sound :
      (auth : AuthMethod) (c : Calldata)
      → verify hex decode sha256 auth c ≡ ok tt
      → IsAuthenticated auth c
  unfolding verify
  verify_sound uninitialized c h = cc
  verify_sound (password hash) c h = elim (Option-cases (find is_check_secret c.blobs)) [
    | inl absent ↦ ground arith
    | inr (p, found) ↦ record {
      hash = hash;
      entry = p;
      initialized = refl;
      found = found;
      matches = ground (arith, string_eq.beq_iff (hex (p.1).payload) hash);
    }
  ]

  -- An authenticated action that succeeds has shown the account's secret.
  pub handle_authenticated_action_sound :
      (a : AccountInfo) (action : WalletAction) (c : Calldata) (r : Reply)
      → (handle_authenticated_action hex decode sha256 a action c).1 ≡ ok r
      → IsAuthenticated a.auth_method c
  unfolding handle_authenticated_action
  handle_authenticated_action_sound a action c r h =
      elim (Result-cases (verify hex decode sha256 a.auth_method c)) [
        | inl (u, good) ↦ verify_sound a.auth_method c good
        | inr (e, bad) ↦ ground arith
      ]

  -- An identity check that succeeds raises the account's nonce to the one of the action, and the
  -- same action is then refused as long as no other has changed the account.
  pub verify_identity_once :
      (a : AccountInfo) (account : String) (nonce : ℕ) (c : Calldata) (r : Reply)
      → (handle_authenticated_action hex decode sha256 a (verify_identity_action account nonce) c).1
        ≡ ok r
      → let b =
          (handle_authenticated_action hex decode sha256 a
            (verify_identity_action account nonce)
            c).0 in
        (a.nonce < nonce)
        × (b ≡ record a { nonce = nonce })
        × (handle_authenticated_action hex decode sha256 b (verify_identity_action account nonce) c
            ≡ (b, err invalid_nonce))
  unfolding handle_authenticated_action authenticated verify_identity
  verify_identity_once a account nonce c r h =
      elim (Result-cases (verify hex decode sha256 a.auth_method c)) [
        | inr (e, bad) ↦ ground arith
        | inl (u, good) ↦ (ground arith, ground arith, ground arith)
      ]

  IsAuthenticated-initialized :
      (auth : AuthMethod) (c : Calldata) → IsAuthenticated auth c → is_initialized auth ≡ true
  IsAuthenticated-initialized auth c shown = ap is_initialized shown.initialized

  registration_closed :
      (a : AccountInfo) (account : String) (nonce : ℕ) (auth : AuthMethod) (c : Calldata)
      → is_initialized a.auth_method ≡ true
      → is_ok (handle_registration hex decode sha256 a account nonce auth c).1 ≡ false
  unfolding handle_registration
  registration_closed a account nonce auth c set =
      elim (Result-cases (verify hex decode sha256 auth c)) [
        | inr (e, bad) ↦ ground arith
        | inl (u, good) ↦ ground (arith, register_identity_closed a account nonce auth set)
      ]

  -- A registration that succeeds was of this account, which had no authentication yet, and has
  -- shown the secret that it sets; from then on no registration succeeds.
  pub registration_once :
      (a : AccountInfo) (account account' : String) (nonce nonce' : ℕ) (auth auth' : AuthMethod)
      (c c' : Calldata) (r : Reply)
      → (handle_registration hex decode sha256 a account nonce auth c).1 ≡ ok r
      → let b = (handle_registration hex decode sha256 a account nonce auth c).0 in
        (a.identity ≡ account)
        × (a.auth_method ≡ uninitialized)
        × IsAuthenticated auth c
        × (b ≡ record a { auth_method = auth; nonce = nonce })
        × (is_ok (handle_registration hex decode sha256 b account' nonce' auth' c').1 ≡ false)
  unfolding handle_registration
  registration_once a account account' nonce nonce' auth auth' c c' r h =
      elim (Result-cases (verify hex decode sha256 auth c)) [
        | inr (e, bad) ↦ ground arith
        | inl (u, good) ↦
            let (same, fresh, after) =
              register_identity_cases a account nonce auth r (ground arith) in
            let shown = verify_sound auth c good in
            (
              same,
              not_initialized-uninitialized a.auth_method fresh,
              shown,
              ground arith,
              registration_closed (handle_registration hex decode sha256 a account nonce auth c).0
                  account' nonce' auth' c' (ground arith),
            )
      ]
