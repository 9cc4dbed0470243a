-- ===== src/Amm/Calls.antt =====
-- The token transfers that an action of the exchange rests on.
use mathlib.Core.List.{Perm}
use mathlib.Core.List.Perm
use truth_seeker.Common.{
  ◌≡◌, true, String, List, ◌∷◌, arith, ok, >>=-eq-ok, ◌>>=◌, Result-cases, inl, inr,
}
use truth_seeker.Sdk.Types.{Blob, OnchainEffect}
use truth_seeker.Sdk.Context.{Borsh, ExecutionContext, is_call, is_in_callee_blobs}
use truth_seeker.Sdk.Callees.{is_in_callee_blobs_sound}
use truth_seeker.Hyllar.{HyllarAction, transfer_action, transfer_from_action}
use truth_seeker.Hyllar.Actions.{action_eq}
use truth_seeker.Amm.{Amm, AmmAction, swap, new_pair, Reply, check_calls, apply, run_action}

module _ (borsh : Borsh AmmAction) (hyllar : Borsh HyllarAction) where
  -- Two of the callees are calls of the tokens `a` and `b` with the actions `m` and `n`, and the
  -- callees that are left are the others.
  pub record Consumes (ctx ctx' : ExecutionContext) (a : String) (m : HyllarAction) (b : String)
      (n : HyllarAction) : Type 0 where
    pub first : Blob
    pub second : Blob
    pub first_call : is_call hyllar a m first ≡ true
    pub second_call : is_call hyllar b n second ≡ true
    pub rest : Perm ctx.callees_blobs (first ∷ second ∷ ctx'.callees_blobs)

  consume_two :
      (ctx ctx' : ExecutionContext) (a : String) (m : HyllarAction) (b : String) (n : HyllarAction)
      → (is_in_callee_blobs hyllar ctx a m >>= λ c. is_in_callee_blobs hyllar c b n) ≡ ok ctx'
      → Consumes ctx ctx' a m b n
  consume_two ctx ctx' a m b n h =
      let (mid, one, two) =
        >>=-eq-ok (is_in_callee_blobs hyllar ctx a m) (λ c. is_in_callee_blobs hyllar c b n) h in
      let (first, first_call, p, _, _) = is_in_callee_blobs_sound hyllar ctx mid a m one in
      let (second, second_call, q, _, _) = is_in_callee_blobs_sound hyllar mid ctx' b n two in
      record {
        first = first;
        second = second;
        first_call = first_call;
        second_call = second_call;
        rest = Perm.trans p (Perm.cons first q);
      }

  -- The transfers that an action asks for.
  abbrev pub Paid : ExecutionContext → ExecutionContext → AmmAction → Type 0
  Paid ctx ctx' (swap (a, b) (from, to)) =
      Consumes ctx ctx' a (transfer_from_action ctx.caller ctx.contract_name from) b
        (transfer_action ctx.caller to)
  Paid ctx ctx' (new_pair (a, b) (m, n)) =
      Consumes ctx ctx' a (transfer_from_action ctx.caller ctx.contract_name m) b
        (transfer_from_action ctx.caller ctx.contract_name n)

  check_calls-Paid :
      (ctx ctx' : ExecutionContext) (action : AmmAction)
      → check_calls borsh hyllar ctx action ≡ ok ctx'
      → Paid ctx ctx' action
  unfolding check_calls
  check_calls-Paid ctx ctx' (swap (a, b) (from, to)) h = consume_two ctx ctx' a _ b _ h
  check_calls-Paid ctx ctx' (new_pair (a, b) (m, n)) h = consume_two ctx ctx' a _ b _ h

  checked :
      (s : Amm) (ctx ctx' : ExecutionContext) (action : AmmAction) (reply : Reply)
      (effects : List OnchainEffect)
      → (run_action borsh hyllar s ctx action).1 ≡ ok (reply, ctx', effects)
      → check_calls borsh hyllar ctx action ≡ ok ctx'
  unfolding run_action
  checked s ctx ctx' action reply effects h =
      elim (Result-cases (check_calls borsh hyllar ctx action)) [
        | inr (e, refused) ↦ ground arith
        | inl (c, found) ↦ elim (Result-cases (apply borsh hyllar s action).1) [
          | inl (r, done) ↦ ground arith
          | inr (e, failed) ↦ ground arith
        ]
      ]

  -- An action that succeeds has found both of its transfers among the callees: for a swap the one
  -- of the amount paid in, from the caller to the exchange, and the one of the payout, to the
  -- caller; for a new pair the two deposits of the caller. The callees left over are the others.
  pub run_action-Paid :
      (s : Amm) (ctx ctx' : ExecutionContext) (action : AmmAction) (reply : Reply)
      (effects : List OnchainEffect)
      → (run_action borsh hyllar s ctx action).1 ≡ ok (reply, ctx', effects)
      → Paid ctx ctx' action
  run_action-Paid s ctx ctx' action reply effects h =
      check_calls-Paid ctx ctx' action (checked s ctx ctx' action reply effects h)
