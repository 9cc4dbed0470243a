-- ===== src/SmtToken/Roots.antt =====
-- The roots that `transfer_from` of smt-token/src/lib.rs accepts.
use truth_seeker.Common.{
  ℕ, ◌≡◌, String, List, string_eq, arith, ok, Option-cases, Result-cases, inl, inr,
}
use truth_seeker.Common.Maps.{Map, get, insert}
use truth_seeker.Sdk.Types.{Bytes}
use truth_seeker.SmtToken.{
  Account, Tree, SmtTokenContract, Reply, returned, pop, pay, receive, leaves, set_root,
  store_accounts, credit, transfer_noverif, find_owner, transfer_from,
}

module _ (tree : Tree) where
  at : Bytes → SmtTokenContract → SmtTokenContract
  at root c = record c { commitment = root }

  set_root-any :
      (c c' : SmtTokenContract) (proof x : Bytes) (l : List (Bytes × Bytes)) (r reply : Reply)
      → set_root tree c proof l r ≡ (c', returned (ok reply))
      → set_root tree (record c { commitment = x }) proof l r ≡ (c', returned (ok reply))
  unfolding set_root
  set_root-any c c' proof x l r reply h = elim (Option-cases (tree.compute_root proof l)) [
    | inl none_found ↦ ground arith
    | inr (root, found) ↦ ground (arith, found)
  ]

  store_accounts-any :
      (c c' : SmtTokenContract) (accounts : Map String Account) (proof x : Bytes)
      (sender recipient : String) (amount : ℕ) (reply : Reply)
      → store_accounts tree c accounts proof sender recipient amount ≡ (c', returned (ok reply))
      → store_accounts tree (record c { commitment = x }) accounts proof sender recipient amount
        ≡ (c', returned (ok reply))
  unfolding store_accounts
  store_accounts-any c c' accounts proof x sender recipient amount reply h =
      elim (Option-cases (get accounts sender)) [
        | inl absent ↦ ground arith
        | inr (a, found) ↦ elim (Option-cases (get accounts recipient)) [
          | inl absent ↦ ground arith
          | inr (b, there) ↦ ground (
            arith,
            found,
            there,
            set_root-any c c' proof x (leaves tree sender recipient a b)
                (Reply.transferred amount b.address) reply,
          )
        ]
      ]

  credit-any :
      (c c' : SmtTokenContract) (accounts : Map String Account) (proof x : Bytes)
      (sender recipient : String) (amount : ℕ) (reply : Reply)
      → credit tree c accounts proof sender recipient amount ≡ (c', returned (ok reply))
      → credit tree (record c { commitment = x }) accounts proof sender recipient amount
        ≡ (c', returned (ok reply))
  unfolding credit
  credit-any c c' accounts proof x sender recipient amount reply h =
      elim (Option-cases (get accounts recipient)) [
        | inl absent ↦ ground arith
        | inr (b, there) ↦ elim (Result-cases (receive b amount)) [
          | inr (e, overflow) ↦ ground arith
          | inl (b', received) ↦ ground (
            arith,
            there,
            received,
            store_accounts-any c c' (insert accounts recipient b') proof x sender recipient amount
                reply,
          )
        ]
      ]

  noverif-any :
      (c c' : SmtTokenContract) (accounts : Map String Account) (proof x : Bytes)
      (sender recipient : String) (amount : ℕ) (reply : Reply)
      → transfer_noverif tree c accounts proof sender recipient amount ≡ (c', returned (ok reply))
      → transfer_noverif tree (record c { commitment = x }) accounts proof sender recipient amount
        ≡ (c', returned (ok reply))
  unfolding transfer_noverif
  noverif-any c c' accounts proof x sender recipient amount reply h =
      elim (Option-cases (get accounts sender)) [
        | inl absent ↦ ground arith
        | inr (a, there) ↦ elim (Result-cases (pay a amount)) [
          | inr (e, poor) ↦ ground arith
          | inl (a', paid) ↦ ground (
            arith,
            there,
            paid,
            credit-any c c' (insert accounts sender a') proof x sender recipient amount reply,
          )
        ]
      ]

  -- A transfer on an allowance that is accepted is accepted on every other commitment, with the same
  -- new root: the accounts of its step need not be those that the contract is committed to.
  pub transfer_from_unverified :
      (c c' : SmtTokenContract) (owner spender recipient : String) (amount : ℕ) (reply : Reply)
      (x : Bytes)
      → transfer_from tree c owner spender recipient amount ≡ (c', returned (ok reply))
      → transfer_from tree (record c { commitment = x }) owner spender recipient amount
        ≡ (c', returned (ok reply))
  unfolding transfer_from
  transfer_from_unverified c c' owner spender recipient amount reply x h =
      elim (Option-cases (pop c.steps)) [
        | inl empty ↦ ground arith
        | inr (p, popped) ↦
            elim (Result-cases (find_owner tree (p.1).accounts owner spender recipient amount)) [
              | inr (e, refused) ↦ ground arith
              | inl (a, found) ↦ ground (
                arith,
                popped,
                found,
                noverif-any (record c { steps = p.0 }) c' (insert (p.1).accounts owner a)
                    (p.1).proof x owner recipient amount reply,
              )
            ]
      ]
