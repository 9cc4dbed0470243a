-- ===== src/Staking/Contract.antt =====
-- manual_Scaffold/hyli/crates/contracts/staking/src/lib.rs: the contract around the stakes. A
-- `todo!()` that is reached is the outcome `panicked`.
use truth_seeker.Common.{
  ℕ, suc, ◌≡◌, ap, ◌∙◌, String, none, some, List, [], ◌==◌, string_eq, nat_eq, not, if◌then◌else◌,
  arith, Result, ok, err, Option-cases, Result-cases, inl, inr,
}
use truth_seeker.Sdk.Types.{IndexedBlobs, Calldata, OnchainEffect}
use truth_seeker.Sdk.Context.{
  Borsh, SdkError, ExecutionContext, StructuredBlobData, parse_structured_blob, parse_calldata,
}
use truth_seeker.Hyllar.{
  HyllarAction, transfer_action, total_supply_action, balance_of_action, transfer_from_action,
  approve_action, allowance_action,
}
use truth_seeker.Staking.{
  Staking, StakingError, StakingAction, stake_action, delegate_action, distribute_action,
  deposit_action, stake, delegate_to, deposit_for_fees,
}

pub data Error : Type 0 where
  bad_calldata : SdkError → Error
  no_transfer_blob wrong_hyllar_action : Error
  wrong_recipient wrong_token : String → Error
  amount_mismatch : ℕ → ℕ → Error
  refused : StakingError → Error

pub data Reply : Type 0 where
  staked delegated deposited : Reply

pub data Outcome : Type 0 where
  returned : Result Error (Reply × ExecutionContext × List OnchainEffect) → Outcome
  panicked : Outcome

abbrev pub check_transfer : String → ℕ → HyllarAction → Result Error Unit
check_transfer token amount (transfer_action recipient transfer_amount) =
    if not (recipient == "staking")
    then err (wrong_recipient recipient)
    else if not (token == "hyllar")
    then err (wrong_token token)
    else if not (amount == transfer_amount)
    then err (amount_mismatch transfer_amount amount)
    else ok tt
check_transfer token amount total_supply_action = err wrong_hyllar_action
check_transfer token amount (balance_of_action a) = err wrong_hyllar_action
check_transfer token amount (transfer_from_action a b n) = err wrong_hyllar_action
check_transfer token amount (approve_action a n) = err wrong_hyllar_action
check_transfer token amount (allowance_action a b) = err wrong_hyllar_action

module _ (hyllar : Borsh HyllarAction) where
  unfoldable pub check_transfer_blob : IndexedBlobs → ℕ → ℕ → Result Error Unit
  check_transfer_blob blobs index amount = elim (parse_structured_blob hyllar blobs index) [
    | none ↦ err no_transfer_blob
    | some (token, call) ↦ check_transfer token amount call.parameters
  ]

  abbrev pub answer :
      ExecutionContext → Reply → Staking × Result StakingError Unit → Staking × Outcome
  answer ctx reply (s, err e) = (s, returned (err (refused e)))
  answer ctx reply (s, ok _) = (s, returned (ok (reply, ctx, [])))

  -- the `match` of the action
  unfoldable pub run_action :
      Staking → Calldata → StakingAction → ExecutionContext → Staking × Outcome
  run_action s calldata (stake_action amount) ctx =
      elim (check_transfer_blob calldata.blobs (suc calldata.index) amount) [
        | err e ↦ (s, returned (err e))
        | ok _ ↦ answer ctx staked (stake s ctx.caller amount)
      ]
  run_action s calldata (delegate_action validator) ctx =
      answer ctx delegated (delegate_to s ctx.caller validator)
  run_action s calldata (distribute_action claim) ctx = (s, panicked)
  run_action s calldata (deposit_action holder amount) ctx =
      elim (check_transfer_blob calldata.blobs (suc calldata.index) amount) [
        | err e ↦ (s, returned (err e))
        | ok _ ↦ answer ctx deposited (deposit_for_fees s holder amount, ok tt)
      ]

  unfoldable pub execute : Borsh StakingAction → Staking → Calldata → Staking × Outcome
  execute borsh s calldata = elim (parse_calldata borsh calldata) [
    | err e ↦ (s, returned (err (bad_calldata e)))
    | ok (action, ctx) ↦ run_action s calldata action ctx
  ]

  transfer_checked :
      (token : String) (amount : ℕ) (action : HyllarAction)
      → check_transfer token amount action ≡ ok tt
      → (action ≡ transfer_action "staking" amount) × (token ≡ "hyllar")
  transfer_checked token amount (transfer_action recipient n) h = (
    ground (arith, string_eq.beq_iff recipient "staking"),
    ground (arith, string_eq.beq_iff token "hyllar", string_eq.beq_iff recipient "staking"),
  )
  transfer_checked token amount total_supply_action h = (cc, cc)
  transfer_checked token amount (balance_of_action a) h = (cc, cc)
  transfer_checked token amount (transfer_from_action a b n) h = (cc, cc)
  transfer_checked token amount (approve_action a n) h = (cc, cc)
  transfer_checked token amount (allowance_action a b) h = (cc, cc)

  -- The blob behind the call is a transfer of the amount to the contract, in the token hyllar.
  record IsBacked (calldata : Calldata) (amount : ℕ) : Type 0 where
    pub call : StructuredBlobData HyllarAction
    pub found :
        parse_structured_blob hyllar calldata.blobs (suc calldata.index) ≡ some ("hyllar", call)
    pub transfers : call.parameters ≡ transfer_action "staking" amount

  check_transfer_blob-IsBacked :
      (calldata : Calldata) (amount : ℕ)
      → check_transfer_blob calldata.blobs (suc calldata.index) amount ≡ ok tt
      → IsBacked calldata amount
  unfolding check_transfer_blob
  check_transfer_blob-IsBacked calldata amount h =
      elim (Option-cases (parse_structured_blob hyllar calldata.blobs (suc calldata.index))) [
        | inl absent ↦ absurd (ground arith)
        | inr ((token, call), found) ↦
            let (transfers, same) = transfer_checked token amount call.parameters (ground arith) in
            record {
              call = call;
              found = found ∙ ap (λ t. some (t, call)) same;
              transfers = transfers;
            }
      ]

  answer_lem :
      (ctx : ExecutionContext) (reply : Reply) (step : Staking × Result StakingError Unit)
      {s' : Staking} {out : Reply × ExecutionContext × List OnchainEffect}
      → answer ctx reply step ≡ (s', returned (ok out))
      → step ≡ (s', ok tt)
  answer_lem ctx reply (s, err e) h = absurd (ground arith)
  answer_lem ctx reply (s, ok _) h = ground arith

  -- A stake that the contract accepts is backed by a transfer, and is the stake of the caller.
  run_action-IsBacked :
      (s s' : Staking) (calldata : Calldata) (amount : ℕ) (ctx : ExecutionContext)
      {out : Reply × ExecutionContext × List OnchainEffect}
      → run_action s calldata (stake_action amount) ctx ≡ (s', returned (ok out))
      → IsBacked calldata amount × (stake s ctx.caller amount ≡ (s', ok tt))
  unfolding run_action
  run_action-IsBacked s s' calldata amount ctx {out} h =
      elim (Result-cases (check_transfer_blob calldata.blobs (suc calldata.index) amount)) [
        | inr (e, failed) ↦ absurd (ground arith)
        | inl (_, checked) ↦ (
          check_transfer_blob-IsBacked calldata amount checked,
          answer_lem ctx staked (stake s ctx.caller amount) {s' = s'} {out = out} (ground arith),
        )
      ]
