-- ===== src/SmtToken/Transfers.antt =====
-- What an accepted `transfer` of smt-token/src/lib.rs has tested, and the root that it leaves.
use truth_seeker.Common.{
  ℕ, ◌+◌, ◌-◌, ◌≤◌, ◌<◌, ◌≡◌, ◌≢◌, refl, sym, ap, ◌∙◌, true, String, Option, some, List, [], ◌∷◌,
  string_eq, ==_ne, arith, ok, err, u128_mod, Option-cases, Result-cases, inl, inr,
}
use truth_seeker.Common.Maps.{Map, get, insert, get-insert}
use truth_seeker.Sdk.Types.{Bytes}
use truth_seeker.SmtToken.{
  Account, Tree, SmtTokenStep, SmtTokenContract, Reply, transferred, Outcome, returned, panicked,
  pop, pay, receive, leaf, set_root, store_accounts, credit, transfer_noverif, check_accounts,
  transfer,
}

pay_lem :
    (a a' : Account) (amount : ℕ)
    → pay a amount ≡ ok a'
    → (amount ≤ a.balance) × (a' ≡ record a { balance = a.balance - amount })
unfolding pay
pay_lem a a' amount h = (ground arith, ground arith)

receive_lem :
    (b b' : Account) (amount : ℕ)
    → receive b amount ≡ ok b'
    → (b.balance + amount < u128_mod) × (b' ≡ record b { balance = b.balance + amount })
unfolding receive
receive_lem b b' amount h = (ground arith, ground arith)

module _ (tree : Tree) where
  -- The accounts of the step are under the root of the contract, the sender has the amount, the
  -- recipient has room for it, and the new root is that of the accounts after the transfer.
  pub record IsTransfer (c c' : SmtTokenContract) (sender recipient : String) (amount : ℕ)
      : Type 0 where
    pub steps : List SmtTokenStep
    pub step : SmtTokenStep
    pub a : Account
    pub b : Account
    pub popped : pop c.steps ≡ some (steps, step)
    pub paying : get step.accounts sender ≡ some a
    pub paid : get step.accounts recipient ≡ some b
    pub verified : tree.verify step.proof c.commitment (leaf tree a ∷ leaf tree b ∷ []) ≡ some true
    pub enough : amount ≤ a.balance
    pub room : b.balance + amount < u128_mod
    pub root :
        tree.compute_root step.proof (
          leaf tree (record a { balance = a.balance - amount })
          ∷ leaf tree (record b { balance = b.balance + amount })
          ∷ [])
        ≡ some c'.commitment
    pub rest : c'.steps ≡ steps

  set_root-ok :
      (c c' : SmtTokenContract) (proof : Bytes) (l : List (Bytes × Bytes)) (r reply : Reply)
      → set_root tree c proof l r ≡ (c', returned (ok reply))
      → (tree.compute_root proof l ≡ some c'.commitment) × (c'.steps ≡ c.steps)
  unfolding set_root
  set_root-ok c c' proof l r reply h = elim (Option-cases (tree.compute_root proof l)) [
    | inl absent ↦ ground arith
    | inr (root, found) ↦ ground (arith, found)
  ]

  -- `transfer_noverif` on the accounts of different names, when both can be changed.
  pub noverif-run :
      (c : SmtTokenContract) (accounts : Map String Account) (proof : Bytes)
      (sender recipient : String) (amount : ℕ) (a a' b b' : Account)
      → sender ≢ recipient
      → get accounts sender ≡ some a
      → get accounts recipient ≡ some b
      → pay a amount ≡ ok a'
      → receive b amount ≡ ok b'
      → transfer_noverif tree c accounts proof sender recipient amount
        ≡ set_root tree c proof (leaf tree a' ∷ leaf tree b' ∷ []) (transferred amount b'.address)
  unfolding transfer_noverif credit store_accounts
  noverif-run c accounts proof sender recipient amount a a' b b' apart paying paid pays receives =
      let ne = ==_ne {A = String} sender recipient apart in
      let ne' = ==_ne {A = String} recipient sender (λ e. apart (sym e)) in
      let accounts' = insert accounts sender a' in
      let first : get accounts' recipient ≡ some b =
        ground (arith, get-insert accounts sender recipient a', ne, paid) in
      let second : get (insert accounts' recipient b') sender ≡ some a' = ground (
        arith,
        get-insert accounts' recipient sender b',
        get-insert accounts sender sender a',
        ne',
        string_eq.beq_iff sender sender,
      ) in
      let third : get (insert accounts' recipient b') recipient ≡ some b' = ground (
        arith,
        get-insert accounts' recipient recipient b',
        string_eq.beq_iff recipient recipient,
      ) in
      rw
        (paying, pays, first, receives, second, third, ne, transfer_noverif, credit, store_accounts)
        refl

  -- It fails if one of them cannot.
  noverif-able :
      (c c' : SmtTokenContract) (accounts : Map String Account) (proof : Bytes)
      (sender recipient : String) (amount : ℕ) (reply : Reply) (a b : Account)
      → sender ≢ recipient
      → get accounts sender ≡ some a
      → get accounts recipient ≡ some b
      → transfer_noverif tree c accounts proof sender recipient amount ≡ (c', returned (ok reply))
      → (a' : Account) × (b' : Account) × (pay a amount ≡ ok a') × (receive b amount ≡ ok b')
  unfolding transfer_noverif credit
  noverif-able c c' accounts proof sender recipient amount reply a b apart paying paid h =
      elim (Result-cases (pay a amount)) [
        | inr (e, poor) ↦ absurd (ground (arith, paying, poor))
        | inl (a', pays) ↦ elim (Result-cases (receive b amount)) [
          | inl (b', receives) ↦ (a', b', pays, receives)
          | inr (e, full) ↦
              let first : get (insert accounts sender a') recipient ≡ some b = ground (
                arith,
                get-insert accounts sender recipient a',
                paid,
                ==_ne {A = String} sender recipient apart,
              ) in
              absurd (ground (arith, paying, pays, first, full))
        ]
      ]

  checked :
      (c : SmtTokenContract) (step : SmtTokenStep) (sender recipient : String)
      → sender ≢ recipient
      → check_accounts tree c step sender recipient ≡ returned (ok tt)
      → (a : Account) × (b : Account) × (get step.accounts sender ≡ some a)
        × (get step.accounts recipient ≡ some b)
        × (tree.verify step.proof c.commitment (leaf tree a ∷ leaf tree b ∷ []) ≡ some true)
  unfolding check_accounts
  checked c step sender recipient apart h =
      let ne = ==_ne {A = String} sender recipient apart in
      elim (Option-cases (get step.accounts sender)) [
        | inl absent ↦ absurd (ground arith)
        | inr (a, paying) ↦ elim (Option-cases (get step.accounts recipient)) [
          | inl absent ↦ absurd (ground arith)
          | inr (b, paid) ↦ (a, b, paying, paid, ground (arith, ne, paying, paid))
        ]
      ]

  re_root :
      (proof : Bytes) (x a' y b' : Account) (r : Option Bytes)
      → a' ≡ x
      → b' ≡ y
      → tree.compute_root proof (leaf tree a' ∷ leaf tree b' ∷ []) ≡ r
      → tree.compute_root proof (leaf tree x ∷ leaf tree y ∷ []) ≡ r
  re_root proof x a' y b' r p q h =
      sym (
        ap (λ z. tree.compute_root proof (leaf tree z ∷ leaf tree b' ∷ [])) p
        ∙ ap (λ z. tree.compute_root proof (leaf tree x ∷ leaf tree z ∷ [])) q)
      ∙ h

  check-passed :
      (c c' : SmtTokenContract) (steps : List SmtTokenStep) (step : SmtTokenStep)
      (sender recipient : String) (amount : ℕ) (reply : Reply) (o : Outcome Unit)
      → pop c.steps ≡ some (steps, step)
      → check_accounts tree (record c { steps = steps }) step sender recipient ≡ o
      → transfer tree c sender recipient amount ≡ (c', returned (ok reply))
      → (o ≡ returned (ok tt))
        × (transfer_noverif tree
              (record c { steps = steps })
              step.accounts
              step.proof
              sender
              recipient
              amount
            ≡ (c', returned (ok reply)))
  unfolding transfer
  check-passed c c' steps step sender recipient amount reply panicked popped h done =
      absurd (ground (arith, popped, h))
  check-passed c c' steps step sender recipient amount reply (returned (err e)) popped h done =
      absurd (ground (arith, popped, h))
  check-passed c c' steps step sender recipient amount reply (returned (ok u)) popped h done =
      (refl, ground (arith, popped, h))

  -- A transfer between accounts of different names that is accepted: the two accounts of the last
  -- step are under the root that the contract holds, the sender has the amount and the recipient's
  -- balance stays below 2^128, the new root is that of the two accounts with the amount moved from
  -- the one to the other, and the step is used up.
  pub transfer-IsTransfer :
      (c c' : SmtTokenContract) (sender recipient : String) (amount : ℕ) (reply : Reply)
      → sender ≢ recipient
      → transfer tree c sender recipient amount ≡ (c', returned (ok reply))
      → IsTransfer c c' sender recipient amount
  unfolding transfer
  transfer-IsTransfer c c' sender recipient amount reply apart h =
      elim (Option-cases (pop c.steps)) [
        | inl empty ↦ absurd (ground (arith, empty))
        | inr ((steps, step), popped) ↦
            let left : SmtTokenContract = record c { steps = steps } in
            let (passed, moved) =
              check-passed c c' steps step sender recipient amount reply
                (check_accounts tree left step sender recipient) popped refl h in
            let (a, b, paying, paid, verified) = checked left step sender recipient apart passed in
            let (a', b', pays, receives) =
              noverif-able left c' step.accounts step.proof sender recipient amount reply a b apart
                paying paid moved in
            let (enough, same) = pay_lem a a' amount pays in
            let (room, same') = receive_lem b b' amount receives in
            let (root, rest) =
              set_root-ok left c' step.proof (leaf tree a' ∷ leaf tree b' ∷ [])
                (transferred amount b'.address) reply
                (sym (
                    noverif-run left step.accounts step.proof sender recipient amount a a' b b'
                      apart paying paid pays receives)
                  ∙ moved) in
            record {
              steps = steps;
              step = step;
              a = a;
              b = b;
              popped = popped;
              paying = paying;
              paid = paid;
              verified = verified;
              enough = enough;
              room = room;
              root =
                  re_root step.proof (record a { balance = a.balance - amount }) a'
                    (record b { balance = b.balance + amount }) b' (some c'.commitment) same same'
                    root;
              rest = rest;
            }
      ]
