-- ===== src/App/Counter.antt =====
-- app_scaffold/contracts/contract1/src/lib.rs: a counter on chain. contract2 has the same text.
-- `n` is a `u128`: the guest program is a release build, where `+=` wraps round.
pub mod Runs
use truth_seeker.Common.{ℕ, add_u128, List, [], Result, ok, err}
use truth_seeker.Sdk.Types.{Calldata, OnchainEffect}
use truth_seeker.Sdk.Context.{Borsh, SdkError, ExecutionContext, parse_raw_calldata}

pub record Contract1 : Type 0 where
  pub n : ℕ

pub data Contract1Action : Type 0 where
  increment_action : Contract1Action

-- the text "Successfully incremented to {n}"
pub data Reply : Type 0 where
  incremented_to : ℕ → Reply

unfoldable pub increment : Contract1 → Contract1 × Reply
unfolding add_u128
increment s = let n' = add_u128 s.n 1 in (record { n = n' }, incremented_to n')

abbrev pub Run : Type 0
Run = Result SdkError (Reply × ExecutionContext × List OnchainEffect)

-- the part of `execute` behind `parse_raw_calldata`
unfoldable pub dispatch :
    Contract1 → Result SdkError (Contract1Action × ExecutionContext) → Contract1 × Run
unfolding increment
dispatch s (err e) = (s, err e)
dispatch s (ok (increment_action, ctx)) = let (s', reply) = increment s in (s', ok (reply, ctx, []))

-- `ZkContract::execute`
unfoldable pub execute : Borsh Contract1Action → Contract1 → Calldata → Contract1 × Run
unfolding dispatch
execute borsh s calldata = dispatch s (parse_raw_calldata borsh calldata)
