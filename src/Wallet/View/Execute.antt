-- ===== src/Wallet/View/Execute.antt =====
-- What `ZkContract::execute` of the wallet contract promises.
use truth_seeker.Common.{
  ◌≡◌, ◌≢◌, refl, ap, ◌∙◌, sym, String, Option, List, ◌==◌, list_eq, nat_eq, list_beq_iff, arith,
  ok, err, Result-cases, Bool-cases, inl, inr,
}
use truth_seeker.Sdk.Types.{Bytes, Calldata, OnchainEffect}
use truth_seeker.Sdk.Context.{Borsh, ExecutionContext, parse_raw_calldata}
use truth_seeker.Sdk.Secp256k1.{Secp256k1Blob}
use truth_seeker.Wallet.View.Commitment.{IsProved, run_account-IsProved, run_account-err}
use truth_seeker.Wallet.{
  register_identity_action, verify_identity_action, add_session_key_action,
  remove_session_key_action, use_session_key_action, WalletAction,
  update_invite_code_public_key_action, Reply,
}
use truth_seeker.Wallet.View.{
  Merkle, default_invite_code_public_key, ViewError, ViewReply, replied, Outcome, returned,
  WalletZkView, dispatch, execute, key_already_set,
}

module _ (hex : Bytes → String) (decode : Bytes → Option Secp256k1Blob) (sha256 : Bytes → Bytes)
    (m : Merkle) where
  dispatch-IsProved :
      (v : WalletZkView hex decode sha256 m) (ctx ctx' : ExecutionContext) (action : WalletAction)
      (c : Calldata) (reply : Reply) (effects : List OnchainEffect)
      → (dispatch hex decode sha256 m v ctx action c).1
        ≡ returned (ok (replied reply, ctx', effects))
      → IsProved hex decode sha256 m v
          (dispatch hex decode sha256 m v ctx action c).0
          action
          c
          reply
  unfolding dispatch
  dispatch-IsProved v ctx ctx' (update_invite_code_public_key_action pk root) c reply effects h =
      ground arith
  dispatch-IsProved v ctx ctx' (register_identity_action a n s am i) c reply effects h =
      run_account-IsProved hex decode sha256 m v ctx ctx' (register_identity_action a n s am i) c
        reply effects h
  dispatch-IsProved v ctx ctx' (verify_identity_action a n) c reply effects h =
      run_account-IsProved hex decode sha256 m v ctx ctx' (verify_identity_action a n) c reply
        effects h
  dispatch-IsProved v ctx ctx' (add_session_key_action a k e w l) c reply effects h =
      run_account-IsProved hex decode sha256 m v ctx ctx' (add_session_key_action a k e w l) c reply
        effects h
  dispatch-IsProved v ctx ctx' (remove_session_key_action a k) c reply effects h =
      run_account-IsProved hex decode sha256 m v ctx ctx' (remove_session_key_action a k) c reply
        effects h
  dispatch-IsProved v ctx ctx' (use_session_key_action a n) c reply effects h =
      run_account-IsProved hex decode sha256 m v ctx ctx' (use_session_key_action a n) c reply
        effects h

  dispatch-err :
      (v : WalletZkView hex decode sha256 m) (ctx : ExecutionContext) (action : WalletAction)
      (c : Calldata) (e : ViewError)
      → (dispatch hex decode sha256 m v ctx action c).1 ≡ returned (err e)
      → (dispatch hex decode sha256 m v ctx action c).0.commitment ≡ v.commitment
  unfolding dispatch
  dispatch-err v ctx (update_invite_code_public_key_action pk root) c e h = ground arith
  dispatch-err v ctx (register_identity_action a n s am i) c e h =
      run_account-err hex decode sha256 m v ctx (register_identity_action a n s am i) c e h
  dispatch-err v ctx (verify_identity_action a n) c e h =
      run_account-err hex decode sha256 m v ctx (verify_identity_action a n) c e h
  dispatch-err v ctx (add_session_key_action a k x w l) c e h =
      run_account-err hex decode sha256 m v ctx (add_session_key_action a k x w l) c e h
  dispatch-err v ctx (remove_session_key_action a k) c e h =
      run_account-err hex decode sha256 m v ctx (remove_session_key_action a k) c e h
  dispatch-err v ctx (use_session_key_action a n) c e h =
      run_account-err hex decode sha256 m v ctx (use_session_key_action a n) c e h

  execute_parsed :
      (borsh : Borsh WalletAction) (v : WalletZkView hex decode sha256 m) (c : Calldata)
      (action : WalletAction) (ctx : ExecutionContext)
      → parse_raw_calldata borsh c ≡ ok (action, ctx)
      → execute hex decode sha256 m borsh v c ≡ dispatch hex decode sha256 m v ctx action c
  unfolding execute
  execute_parsed borsh v c action ctx parsed = rw (parsed, execute) refl

  outcome : WalletZkView hex decode sha256 m × Outcome → Outcome
  outcome x = x.1

  -- A run of the contract that succeeds with an account's action has proved it: the account's leaf
  -- was in the tree of the commitment before, with the same invite code key, the action succeeded
  -- on that account, and the new commitment is that of the tree with the account's new leaf.
  pub execute-IsProved :
      (borsh : Borsh WalletAction) (v : WalletZkView hex decode sha256 m) (c : Calldata)
      (action : WalletAction) (ctx ctx' : ExecutionContext) (reply : Reply)
      (effects : List OnchainEffect)
      → parse_raw_calldata borsh c ≡ ok (action, ctx)
      → (execute hex decode sha256 m borsh v c).1 ≡ returned (ok (replied reply, ctx', effects))
      → IsProved hex decode sha256 m v (execute hex decode sha256 m borsh v c).0 action c reply
  execute-IsProved borsh v c action ctx ctx' reply effects parsed h =
      let same = execute_parsed borsh v c action ctx parsed in
      rw (same) (
        dispatch-IsProved v ctx ctx' action c reply effects
          (ap (λ (x : WalletZkView hex decode sha256 m × Outcome). x.1) (sym same) ∙ h))

  -- A run of the contract that returns an error leaves the commitment.
  execute-err :
      (borsh : Borsh WalletAction) (v : WalletZkView hex decode sha256 m) (c : Calldata)
      (e : ViewError)
      → (execute hex decode sha256 m borsh v c).1 ≡ returned (err e)
      → (execute hex decode sha256 m borsh v c).0.commitment ≡ v.commitment
  unfolding execute
  execute-err borsh v c e h = elim (Result-cases (parse_raw_calldata borsh c)) [
    | inr (e', bad) ↦ rw (bad, execute) refl
    | inl ((action, ctx), parsed) ↦
        let same = execute_parsed borsh v c action ctx parsed in
        rw (same) (
          dispatch-err v ctx action c e
            (ap (λ (x : WalletZkView hex decode sha256 m × Outcome). x.1) (sym same) ∙ h))
  ]

  update_ok :
      (v : WalletZkView hex decode sha256 m) (c : Calldata) (public_key smt_root : Bytes)
      (ctx : ExecutionContext) (ran : ViewReply × ExecutionContext × List OnchainEffect)
      → (dispatch hex decode sha256 m v ctx
          (update_invite_code_public_key_action public_key smt_root)
          c).1
        ≡ returned (ok ran)
      → let w =
          (dispatch hex decode sha256 m v ctx
            (update_invite_code_public_key_action public_key smt_root)
            c).0 in
        (v.invite_code_public_key ≡ default_invite_code_public_key)
        × (w.invite_code_public_key ≡ public_key)
        × (w.commitment ≡ m.commitment smt_root public_key)
  unfolding dispatch
  update_ok v c public_key smt_root ctx ran h =
      elim (Bool-cases (v.invite_code_public_key == default_invite_code_public_key)) [
        | inr other ↦ ground arith
        | inl same ↦ (
          (list_beq_iff v.invite_code_public_key default_invite_code_public_key).0 same,
          rw (same, dispatch) refl,
          rw (same, dispatch) refl,
        )
      ]

  update_refused :
      (v : WalletZkView hex decode sha256 m) (c : Calldata) (public_key smt_root : Bytes)
      (ctx : ExecutionContext)
      → v.invite_code_public_key ≢ default_invite_code_public_key
      → dispatch hex decode sha256 m v ctx
          (update_invite_code_public_key_action public_key smt_root)
          c
        ≡ (v, returned (err key_already_set))
  unfolding dispatch
  update_refused v c public_key smt_root ctx other =
      elim (Bool-cases (v.invite_code_public_key == default_invite_code_public_key)) [
        | inl same ↦
            absurd (
              other ((list_beq_iff v.invite_code_public_key default_invite_code_public_key).0 same))
        | inr differs ↦ rw (differs, dispatch) refl
      ]

  -- The invite code key is replaced once: an update that succeeds finds the default key, sets its
  -- own with the root that it gives, and if that is not the default key again, any other update
  -- is refused and changes nothing.
  pub update_key_once :
      (borsh : Borsh WalletAction) (v : WalletZkView hex decode sha256 m) (c c' : Calldata)
      (public_key public_key' smt_root smt_root' : Bytes) (ctx ctx' : ExecutionContext)
      (ran : ViewReply × ExecutionContext × List OnchainEffect)
      → parse_raw_calldata borsh c
        ≡ ok (update_invite_code_public_key_action public_key smt_root, ctx)
      → parse_raw_calldata borsh c'
        ≡ ok (update_invite_code_public_key_action public_key' smt_root', ctx')
      → public_key ≢ default_invite_code_public_key
      → (execute hex decode sha256 m borsh v c).1 ≡ returned (ok ran)
      → let w = (execute hex decode sha256 m borsh v c).0 in
        (v.invite_code_public_key ≡ default_invite_code_public_key)
        × (w.invite_code_public_key ≡ public_key)
        × (w.commitment ≡ m.commitment smt_root public_key)
        × (execute hex decode sha256 m borsh w c' ≡ (w, returned (err key_already_set)))
  update_key_once borsh v c c' public_key public_key' smt_root smt_root' ctx ctx' ran parsed parsed'
        other h =
      let action = update_invite_code_public_key_action public_key smt_root in
      let action' = update_invite_code_public_key_action public_key' smt_root' in
      let w = (execute hex decode sha256 m borsh v c).0 in
      let same = execute_parsed borsh v c action ctx parsed in
      let (default_before, key, commitment) =
        update_ok v c public_key smt_root ctx ran
          (ap (λ (x : WalletZkView hex decode sha256 m × Outcome). x.1) (sym same) ∙ h) in
      let key' =
        ap (λ (x : WalletZkView hex decode sha256 m × Outcome). x.0.invite_code_public_key) same
        ∙ key in
      (
        default_before,
        key',
        ap (λ (x : WalletZkView hex decode sha256 m × Outcome). x.0.commitment) same ∙ commitment,
        execute_parsed borsh w c' action' ctx' parsed'
            ∙ update_refused w c' public_key' smt_root' ctx' (λ e. other (sym key' ∙ e)),
      )
