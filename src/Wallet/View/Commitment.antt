-- ===== src/Wallet/View/Commitment.antt =====
-- What a run of the wallet contract does to its commitment.
use truth_seeker.Common.{
  ◌≡◌, refl, ap, ◌∙◌, sym, true, String, Option, some, List, list_eq, nat_eq, list_beq_iff, arith,
  Result, ok, err, Option-cases, ◌⊎◌, inl, inr,
}
use truth_seeker.Sdk.Types.{Bytes, Calldata, OnchainEffect}
use truth_seeker.Sdk.Context.{ExecutionContext}
use truth_seeker.Sdk.Secp256k1.{Secp256k1Blob}
use truth_seeker.Wallet.{AccountInfo, WalletAction, Error, Reply, run_action}
use truth_seeker.Wallet.View.{
  Merkle, ViewError, replied, Run, Outcome, returned, PartialWalletData, WalletZkView, settle,
  run_on, pop, run_account, proof_not_verified,
}

module _ (hex : Bytes → String) (decode : Bytes → Option Secp256k1Blob) (sha256 : Bytes → Bytes)
    (m : Merkle) where
  -- A run of `action` on an account whose leaf the commitment of `v` has been shown to hold, to the
  -- commitment of the tree with the account's new leaf in its place.
  pub record IsProved (v v' : WalletZkView hex decode sha256 m) (action : WalletAction)
      (c : Calldata) (reply : Reply) : Type 0 where
    pub data_ : PartialWalletData hex decode sha256 m
    pub rest : List (PartialWalletData hex decode sha256 m)
    pub popped : pop hex decode sha256 m v.partial_data ≡ some (data_, rest)
    pub old_root : Bytes
    pub new_root : Bytes
    pub root_before :
        m.root data_.proof (m.key_of data_.account_info.identity) (m.leaf_of data_.account_info)
        ≡ some old_root
    pub proof_verified :
        m.check data_.proof old_root
          (m.key_of data_.account_info.identity)
          (m.leaf_of data_.account_info)
        ≡ some true
    pub commitment_before : v.commitment ≡ m.commitment old_root v.invite_code_public_key
    pub runs :
        (run_action hex decode sha256 data_.account_info action c v.invite_code_public_key).1
        ≡ ok reply
    pub root_after :
        m.root data_.proof (m.key_of data_.account_info.identity) (
          m.leaf_of
            (run_action hex decode sha256 data_.account_info action c v.invite_code_public_key).0)
        ≡ some new_root
    pub after : v' ≡ record {
      commitment = m.commitment new_root v.invite_code_public_key;
      invite_code_public_key = v.invite_code_public_key;
      partial_data = rest;
    }

  settle-err :
      (v : WalletZkView hex decode sha256 m) (ctx : ExecutionContext) (proof : m.Proof)
      (key : Bytes) (s : AccountInfo × Result Error Reply) (e : ViewError)
      → (settle hex decode sha256 m v ctx proof key s).1 ≡ returned (err e)
      → (settle hex decode sha256 m v ctx proof key s).0 ≡ v
  unfolding settle
  settle-err v ctx proof key (a, err e') e h = refl
  settle-err v ctx proof key (a, ok reply) e h =
      elim (Option-cases (m.root proof key (m.leaf_of a))) [
        | inl absent ↦ ground arith
        | inr (new_root, found) ↦ ground arith
      ]

  settle-ok :
      (v : WalletZkView hex decode sha256 m) (ctx ctx' : ExecutionContext) (proof : m.Proof)
      (key : Bytes) (s : AccountInfo × Result Error Reply) (reply : Reply)
      (effects : List OnchainEffect)
      → (settle hex decode sha256 m v ctx proof key s).1
        ≡ returned (ok (replied reply, ctx', effects))
      → (s.1 ≡ ok reply)
        × (new_root : Bytes) × (m.root proof key (m.leaf_of s.0) ≡ some new_root)
        × ((settle hex decode sha256 m v ctx proof key s).0
            ≡ record v { commitment = m.commitment new_root v.invite_code_public_key })
  unfolding settle
  settle-ok v ctx ctx' proof key (a, err e') reply effects h = ground arith
  settle-ok v ctx ctx' proof key (a, ok reply') reply effects h =
      elim (Option-cases (m.root proof key (m.leaf_of a))) [
        | inl absent ↦ ground arith
        | inr (new_root, found) ↦ (ground arith, new_root, found, ground arith)
      ]

  -- What an account run that returns has checked first: the account's leaf is in the tree of the
  -- commitment. It is then `settle` on the action's run.
  record IsChecked (v : WalletZkView hex decode sha256 m)
      (d : PartialWalletData hex decode sha256 m) (ctx : ExecutionContext) (action : WalletAction)
      (c : Calldata) : Type 0 where
    old_root : Bytes
    root_before :
        m.root d.proof (m.key_of d.account_info.identity) (m.leaf_of d.account_info) ≡ some old_root
    proof_verified :
        m.check d.proof old_root (m.key_of d.account_info.identity) (m.leaf_of d.account_info)
        ≡ some true
    commitment_before : v.commitment ≡ m.commitment old_root v.invite_code_public_key
    settles :
        run_on hex decode sha256 m v ctx action c d
        ≡ settle hex decode sha256 m v ctx d.proof
            (m.key_of d.account_info.identity)
            (run_action hex decode sha256 d.account_info action c v.invite_code_public_key)

  run_on_cases :
      (v : WalletZkView hex decode sha256 m) (d : PartialWalletData hex decode sha256 m)
      (ctx : ExecutionContext) (action : WalletAction) (c : Calldata) (r : Run)
      → (run_on hex decode sha256 m v ctx action c d).1 ≡ returned r
      → (run_on hex decode sha256 m v ctx action c d ≡ (v, returned (err proof_not_verified)))
        ⊎ IsChecked v d ctx action c
  unfolding run_on
  run_on_cases v d ctx action c r h =
      let key = m.key_of d.account_info.identity in
      let leaf = m.leaf_of d.account_info in
      elim (Option-cases (m.root d.proof key leaf)) [
        | inl absent ↦ ground arith
        | inr (root, found) ↦ elim (Option-cases (m.check d.proof root key leaf)) [
          | inl failed ↦ inl (ground arith)
          | inr (verified, checked) ↦ inr (record {
            old_root = root;
            root_before = found;
            proof_verified = ground arith;
            commitment_before =
                ground
                  (arith, list_beq_iff v.commitment (m.commitment root v.invite_code_public_key));
            settles =
                ground
                  (arith, list_beq_iff v.commitment (m.commitment root v.invite_code_public_key));
          })
        ]
      ]

  run_account-pops :
      (v : WalletZkView hex decode sha256 m) (ctx : ExecutionContext) (action : WalletAction)
      (c : Calldata) (r : Run)
      → (run_account hex decode sha256 m v ctx action c).1 ≡ returned r
      → (d : PartialWalletData hex decode sha256 m) × (rest : List
          (PartialWalletData hex decode sha256 m))
        × (pop hex decode sha256 m v.partial_data ≡ some (d, rest))
        × (run_account hex decode sha256 m v ctx action c
            ≡ run_on hex decode sha256 m (record v { partial_data = rest }) ctx action c d)
  unfolding run_account
  run_account-pops v ctx action c r h =
      elim (Option-cases (pop hex decode sha256 m v.partial_data)) [
        | inl absent ↦ ground arith
        | inr ((d, rest), popped) ↦ (d, rest, popped, rw (popped, run_account) refl)
      ]

  pub run_account-IsProved :
      (v : WalletZkView hex decode sha256 m) (ctx ctx' : ExecutionContext) (action : WalletAction)
      (c : Calldata) (reply : Reply) (effects : List OnchainEffect)
      → (run_account hex decode sha256 m v ctx action c).1
        ≡ returned (ok (replied reply, ctx', effects))
      → IsProved v (run_account hex decode sha256 m v ctx action c).0 action c reply
  run_account-IsProved v ctx ctx' action c reply effects h =
      let (d, rest, popped, same) =
        run_account-pops v ctx action c (ok (replied reply, ctx', effects)) h in
      let w = record v { partial_data = rest } in
      let out = λ (x : WalletZkView hex decode sha256 m × Outcome). x.1 in
      let h' = ap out (sym same) ∙ h in
      elim (run_on_cases w d ctx action c (ok (replied reply, ctx', effects)) h') [
        | inl refused ↦ cc
        | inr k ↦
            let (runs, new_root, found, after) =
              settle-ok w ctx ctx' d.proof (m.key_of d.account_info.identity)
                (run_action hex decode sha256 d.account_info action c v.invite_code_public_key)
                reply effects (ap out (sym k.settles) ∙ h') in
            record {
              data_ = d;
              rest = rest;
              popped = popped;
              old_root = k.old_root;
              new_root = new_root;
              root_before = k.root_before;
              proof_verified = k.proof_verified;
              commitment_before = k.commitment_before;
              runs = runs;
              root_after = found;
              after = rw (same, k.settles) after;
            }
      ]

  pub run_account-err :
      (v : WalletZkView hex decode sha256 m) (ctx : ExecutionContext) (action : WalletAction)
      (c : Calldata) (e : ViewError)
      → (run_account hex decode sha256 m v ctx action c).1 ≡ returned (err e)
      → (run_account hex decode sha256 m v ctx action c).0.commitment ≡ v.commitment
  run_account-err v ctx action c e h =
      let (d, rest, popped, same) = run_account-pops v ctx action c (err e) h in
      let w = record v { partial_data = rest } in
      let out = λ (x : WalletZkView hex decode sha256 m × Outcome). x.1 in
      let h' = ap out (sym same) ∙ h in
      let key = m.key_of d.account_info.identity in
      let ran = run_action hex decode sha256 d.account_info action c v.invite_code_public_key in
      elim (run_on_cases w d ctx action c (err e) h') [
        | inl refused ↦ rw (same, refused) refl
        | inr k ↦
            rw (same, k.settles, settle-err w ctx d.proof key ran e (ap out (sym k.settles) ∙ h'))
              refl
      ]
