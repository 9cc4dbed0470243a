-- ===== src/App/Counter/Runs.antt =====
-- A sequence of calls of the counter contract.
use truth_seeker.Common.{
  u128_mod, ◌+◌, ◌%◌, ◌<◌, ◌≡◌, refl, Bool, List, [], ◌∷◌, length, filter, Result, ok, err, is_ok,
  arith, inl, inr, Bool-cases, true, false, if◌then◌else◌,
}
use truth_seeker.Sdk.Types.{Calldata}
use truth_seeker.Sdk.Context.{Borsh, SdkError, ExecutionContext, parse_raw_calldata}
use truth_seeker.App.Counter.{Contract1, Contract1Action, increment_action, dispatch, execute}

dispatch-n :
    (s : Contract1) (r : Result SdkError (Contract1Action × ExecutionContext))
    → s.n < u128_mod
    → ((dispatch s r).0).n ≡ (s.n + (if is_ok r then 1 else 0)) % u128_mod
unfolding dispatch
dispatch-n s (err e) h = omega arith
dispatch-n s (ok (increment_action, ctx)) h = refl

module _ (borsh : Borsh Contract1Action) where
  -- The state after a list of calls, one after the other.
  pub run : Contract1 → List Calldata → Contract1
  run s [] = s
  run s (c ∷ cs) = run (execute borsh s c).0 cs

  -- The calls whose blob is there and decodes.
  abbrev pub is_call : Calldata → Bool
  is_call c = is_ok (parse_raw_calldata borsh c)

  execute-n :
      (s : Contract1) (c : Calldata)
      → s.n < u128_mod
      → ((execute borsh s c).0).n ≡ (s.n + (if is_call c then 1 else 0)) % u128_mod
  unfolding execute
  execute-n s c h = dispatch-n s (parse_raw_calldata borsh c) h

  execute_good :
      (s : Contract1) (c : Calldata)
      → s.n < u128_mod
      → is_call c ≡ true
      → ((execute borsh s c).0).n ≡ (s.n + 1) % u128_mod
  execute_good s c h good = ground (arith, execute-n s c h)

  execute_bad :
      (s : Contract1) (c : Calldata)
      → s.n < u128_mod
      → is_call c ≡ false
      → ((execute borsh s c).0).n ≡ s.n
  execute_bad s c h bad = ground (arith, execute-n s c h)

  -- After any calls the counter has gone up by the number of calls that decode, modulo 2^128:
  -- a call that does not decode leaves it alone.
  pub run-n :
      (s : Contract1) (cs : List Calldata)
      → s.n < u128_mod
      → (run s cs).n ≡ (s.n + length (filter is_call cs)) % u128_mod
  unfolding run
  run-n s [] h = omega arith
  run-n s (c ∷ cs) h = elim (Bool-cases (is_call c)) [
    | inl good ↦ rw good (
        omega (
          arith,
          execute_good s c h good,
          run-n (execute borsh s c).0 cs (omega (arith, execute_good s c h good)),
        ))
    | inr bad ↦ rw bad (
        omega (
          arith,
          execute_bad s c h bad,
          run-n (execute borsh s c).0 cs (omega (arith, execute_bad s c h bad)),
        ))
  ]
