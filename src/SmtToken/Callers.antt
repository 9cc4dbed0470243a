-- ===== src/SmtToken/Callers.antt =====
-- Who may call `execute` of smt-token/src/lib.rs for a transfer.
use truth_seeker.Common.{
  ℕ, ◌-◌, ◌+◌, ◌≡◌, ◌≢◌, refl, ◌∙◌, true, String, some, List, [], ◌∷◌, string_eq, ==_ne, arith, ok,
}
use truth_seeker.Common.Maps.{get}
use truth_seeker.Sdk.Types.{Bytes, Calldata}
use truth_seeker.Sdk.Context.{Borsh, ExecutionContext, parse_calldata}
use truth_seeker.SmtToken.{
  Account, Tree, SmtTokenAction, transfer_action, SmtTokenStep, SmtTokenContract, Reply,
  transferred, returned, leaf, pop, pay, receive, set_root, check_accounts, transfer,
  transfer_noverif, run_action, execute,
}
use truth_seeker.SmtToken.Transfers.{IsTransfer, noverif-run}

module _ (tree : Tree) where
  accounts_pass :
      (c : SmtTokenContract) (step : SmtTokenStep) (sender recipient : String) (a b : Account)
      → sender ≢ recipient
      → get step.accounts sender ≡ some a
      → get step.accounts recipient ≡ some b
      → tree.verify step.proof c.commitment (leaf tree a ∷ leaf tree b ∷ []) ≡ some true
      → check_accounts tree c step sender recipient ≡ returned (ok tt)
  unfolding check_accounts
  accounts_pass c step sender recipient a b apart paying paid verified =
      ground (arith, ==_ne {A = String} sender recipient apart, paying, paid, verified)

  set_root_to :
      (c c' : SmtTokenContract) (proof : Bytes) (l : List (Bytes × Bytes)) (reply : Reply)
      → tree.compute_root proof l ≡ some c'.commitment
      → c'.steps ≡ c.steps
      → set_root tree c proof l reply ≡ (c', returned (ok reply))
  unfolding set_root
  set_root_to c c' proof l reply root rest = ground (arith, root, rest)

  transfer_passes :
      (c : SmtTokenContract) (steps : List SmtTokenStep) (step : SmtTokenStep)
      (sender recipient : String) (amount : ℕ)
      → pop c.steps ≡ some (steps, step)
      → check_accounts tree (record c { steps = steps }) step sender recipient ≡ returned (ok tt)
      → transfer tree c sender recipient amount
        ≡ transfer_noverif tree
            (record c { steps = steps })
            step.accounts
            step.proof
            sender
            recipient
            amount
  unfolding transfer
  transfer_passes c steps step sender recipient amount popped passed =
      rw (popped, passed, transfer) refl

  transfer_able :
      (c c' : SmtTokenContract) (sender recipient : String) (amount : ℕ)
      → sender ≢ recipient
      → (h : IsTransfer tree c c' sender recipient amount)
      → transfer tree c sender recipient amount
        ≡ (c', returned (ok (transferred amount (h.b).address)))
  unfolding pay receive
  transfer_able c c' sender recipient amount apart h =
      let left : SmtTokenContract = record c { steps = h.steps } in
      let a' : Account = record (h.a) { balance = (h.a).balance - amount } in
      let b' : Account = record (h.b) { balance = (h.b).balance + amount } in
      transfer_passes c h.steps h.step sender recipient amount h.popped
        (accounts_pass left h.step sender recipient h.a h.b apart h.paying h.paid h.verified)
      ∙ noverif-run tree left (h.step).accounts (h.step).proof sender recipient amount h.a a' h.b b'
          apart h.paying h.paid (ground (arith, h.enough)) (ground (arith, h.room))
      ∙ set_root_to left c' (h.step).proof (leaf tree a' ∷ leaf tree b' ∷ [])
          (transferred amount (h.b).address) h.root h.rest

  -- A call that asks for a transfer succeeds, whoever its caller is, once the last step holds two
  -- accounts of different names under the root of the contract, the sender has the amount, the
  -- recipient has room for it, and the new root can be computed: the tokens of the sender move, and
  -- the sender is not compared with the caller.
  pub execute_any_caller :
      (borsh : Borsh SmtTokenAction) (c c' : SmtTokenContract) (calldata : Calldata)
      (sender recipient : String) (amount : ℕ) (ctx : ExecutionContext)
      → parse_calldata borsh calldata ≡ ok (transfer_action sender recipient amount, ctx)
      → sender ≢ recipient
      → (h : IsTransfer tree c c' sender recipient amount)
      → execute tree borsh c calldata
        ≡ (c', returned (ok (transferred amount (h.b).address, ctx, [])))
  unfolding execute run_action
  execute_any_caller borsh c c' calldata sender recipient amount ctx parsed apart h =
      rw (parsed, execute)
        (rw (transfer_able c c' sender recipient amount apart h, run_action) refl)
