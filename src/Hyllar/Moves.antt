-- ===== src/Hyllar/Moves.antt =====
-- What a transfer does to the balance of every account and to every allowance.
use truth_seeker.Common.{
  ℕ, ◌+◌, ◌-◌, ◌≤◌, ◌<◌, ◌≡◌, refl, String, true, arith, u128_mod, sub_u128, sub_u128_lem,
  if◌then◌else◌, ok, ◌==◌, pair_eq, pair_beq, string_eq, inl, inr,
}
use truth_seeker.Common.Maps.{Map, insert, get-insert}
use truth_seeker.Hyllar.{Hyllar, move_tokens, transfer, allowance, transfer_from}
use truth_seeker.Hyllar.Balances.{held, held-move_tokens}
use truth_seeker.Hyllar.Supply.{IsValid, transfer_cases, transfer_from_cases}

-- What is left of the balance `n` of account `a` when `amount` goes from `from` to `to`.
abbrev pub moved : String → String → ℕ → String → ℕ → ℕ
moved from to amount a n = n - (if from == a then amount else 0) + (if to == a then amount else 0)

-- A transfer that succeeds was covered by the sender's balance, moves exactly the amount, and
-- touches no other balance and no allowance.
pub transfer_moves :
    (s : Hyllar) (sender recipient : String) (amount : ℕ)
    → IsValid s
    → (transfer s sender recipient amount).1 ≡ ok tt
    → let s' = (transfer s sender recipient amount).0 in
      (amount ≤ held s.balances sender)
      × ((a : String) → held s'.balances a ≡ moved sender recipient amount a (held s.balances a))
      × (s'.allowances ≡ s.allowances)
transfer_moves s sender recipient amount h done = elim (transfer_cases s sender recipient amount) [
  | inl (e, failed) ↦ cc
  | inr (covered, run) ↦ rw run (
    covered,
    λ a. held-move_tokens s.balances sender recipient amount (omega arith) covered a,
    refl,
  )
]

allowance-insert :
    (s : Hyllar) (owner spender o p : String) (n : ℕ) (balances : Map String ℕ)
    → allowance
        (record s { balances = balances; allowances = insert s.allowances (owner, spender) n })
        o
        p
      ≡ (if pair_beq (owner, spender) (o, p) then n else allowance s o p)
unfolding allowance
allowance-insert s owner spender o p n balances =
    ground (arith, get-insert s.allowances (owner, spender) (o, p) n)

allowance-same :
    (s : Hyllar) (owner spender o p : String)
    → pair_beq (owner, spender) (o, p) ≡ true
    → allowance s o p ≡ allowance s owner spender
allowance-same s owner spender o p h =
    cc
      ((string_eq.beq_iff owner o).0 (ground arith), (string_eq.beq_iff spender p).0 (ground arith))

-- A transfer by a spender that succeeds was covered by the owner's balance and by the allowance,
-- moves exactly the amount, and takes it from that allowance and from no other.
pub transfer_from_moves :
    (s : Hyllar) (owner spender recipient : String) (amount : ℕ)
    → IsValid s
    → allowance s owner spender < u128_mod
    → (transfer_from s owner spender recipient amount).1 ≡ ok tt
    → let s' = (transfer_from s owner spender recipient amount).0 in
      (amount ≤ held s.balances owner)
      × (amount ≤ allowance s owner spender)
      × ((a : String) → held s'.balances a ≡ moved owner recipient amount a (held s.balances a))
      × ((o p : String)
          → allowance s' o p
            ≡ allowance s o p - (if pair_beq (owner, spender) (o, p) then amount else 0))
transfer_from_moves s owner spender recipient amount h fits done =
    elim (transfer_from_cases s owner spender recipient amount) [
      | inl (e, failed) ↦ cc
      | inr (covered, allowed, run) ↦ rw run (
        covered,
        allowed,
        λ a. held-move_tokens s.balances owner recipient amount (omega arith) covered a,
        λ o p. ground (
          arith,
          allowance-insert s owner spender o p (sub_u128 (allowance s owner spender) amount)
              (move_tokens owner recipient amount s.balances),
          sub_u128_lem (allowance s owner spender) amount fits allowed,
          allowance-same s owner spender o p,
        ),
      )
    ]
