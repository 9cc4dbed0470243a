-- ===== src/Consensus/Checks.antt =====
-- What the checks of consensus.rs and of the roles promise of what they let pass.
use truth_seeker.Common.{
  ℕ, ◌+◌, ◌*◌, ◌%◌, ◌≤◌, ◌<◌, ◌≡◌, ◌≢◌, ◌⊎◌, inl, inr, true, none, some, List, [], ◌∷◌, ◌==◌,
  string_eq, nat_eq, list_eq, list_beq_iff, ◌&&◌, all, contains, arith, All, Bool-cases,
  Option-cases, Result-cases, ok, add_u128, u128_mod,
}
use truth_seeker.Sdk.Types.{Bytes}
use truth_seeker.Staking.{Staking, is_bonded, is_known, power, compute_f, compute_voting_power}
use truth_seeker.Staking.Sums.{part, total}
use truth_seeker.Staking.Bonds.{IsValid}
use truth_seeker.Staking.Power.{AreBonded, quorums_meet}
use truth_seeker.Consensus.Types.{
  AggregateSignature, CutEntry, Cut, ConsensusProposal, Message, data_proposal, BftRoundState, Env,
  Consensus, Vote, await_votes, await_acks, full,
}
use truth_seeker.Consensus.Actions.{modify, check, or_fail, pure, fail, send, ◌>>=◌}
use truth_seeker.Consensus.Rounds.{verify_quorum_certificate, get_own_voting_power}
use truth_seeker.Consensus.Leader.{has_quorum, send_confirm, on_prepare_vote, voters}
use truth_seeker.Consensus.Follower.{
  keeps_lanes, entry_of, verify_signers, verify_entry, verify_entries, verify_poda,
  verify_timestamp,
}
use truth_seeker.Consensus.Moves.Runs.{verify-IsQuorum}

all-AreBonded : (s : Staking) (vs : List Bytes) → all (is_bonded s) vs ≡ true → AreBonded s vs
all-AreBonded s [] h v m = ground arith
all-AreBonded s (u ∷ vs) h v m = elim (Bool-cases (u == v)) [
  | inl here ↦ let e : u ≡ v = (list_beq_iff u v).0 here in rw (← e) (ground arith)
  | inr there ↦ all-AreBonded s vs (ground arith) v (ground arith)
]

module _ (env : Env) where
  -- Two certificates that pass in one state, on whatever messages, have signers in common with
  -- voting power at least `f`, and more than `f` unless the total bond is two more than a multiple
  -- of three. The total bond must be that of the bonded validators, and fit its type.
  pub certificates_meet :
      (bft : BftRoundState) (m n : Message) (p q : AggregateSignature)
      → IsValid bft.staking
      → total (power bft.staking) (bft.staking).bonded < u128_mod
      → verify_quorum_certificate env m p bft ≡ ok tt
      → verify_quorum_certificate env n q bft ≡ ok tt
      → let common =
          part
            (power bft.staking)
            (λ v. contains p.validators v && contains q.validators v)
            (bft.staking).bonded in
        (compute_f bft.staking ≤ common)
        × (((bft.staking).total_bond % 3 ≡ 2) ⊎ (compute_f bft.staking < common))
  certificates_meet bft m n p q valid fits hp hq =
      let x = verify-IsQuorum env m p bft hp in
      let y = verify-IsQuorum env n q bft hq in
      quorums_meet bft.staking p.validators q.validators valid fits
        (all-AreBonded bft.staking p.validators x.bonded)
        (all-AreBonded bft.staking q.validators y.bonded) x.power y.power

  -- The data proposal is the one of the parent's cut; or it is longer than that one, if there was
  -- one, and validators with more than f have signed it.
  pub data IsAvailable (staking : Staking) (parent : Cut) (e : CutEntry) : Type 0 where
    unchanged :
        (last : CutEntry)
        → entry_of parent e.lane_id ≡ some last
        → last.data_proposal_hash ≡ e.data_proposal_hash
        → IsAvailable staking parent e
    signed :
        ((entry_of parent e.lane_id ≡ none)
          ⊎ ((last : CutEntry) × (entry_of parent e.lane_id ≡ some last)
              × (last.lane_size < e.lane_size)))
        → compute_f staking < compute_voting_power staking (e.poda).validators
        → env.verify_aggregate (data_proposal e.data_proposal_hash e.lane_size) e.poda ≡ some true
        → IsAvailable staking parent e

  verify_signers_sound :
      (now : ℕ) (staking : Staking) (e : CutEntry)
      → verify_signers env now staking e ≡ ok tt
      → (compute_f staking < compute_voting_power staking (e.poda).validators)
        × (env.verify_aggregate (data_proposal e.data_proposal_hash e.lane_size) e.poda ≡ some true)
  unfolding verify_signers
  verify_signers_sound now staking e h =
      elim (Option-cases
        (env.verify_aggregate (data_proposal e.data_proposal_hash e.lane_size) e.poda)) [
          | inl unverified ↦ ground arith
          | inr (valid, verified) ↦ (ground arith, ground arith)
        ]

  verify_entry-IsAvailable :
      (now : ℕ) (staking : Staking) (parent : Cut) (e : CutEntry)
      → verify_entry env now staking parent e ≡ ok tt
      → (is_known staking e.lane_id ≡ true) × IsAvailable staking parent e
  unfolding verify_entry
  verify_entry-IsAvailable now staking parent e h =
      elim (Option-cases (entry_of parent e.lane_id)) [
        | inl new ↦
            let (enough, valid) = verify_signers_sound now staking e (ground arith) in
            (ground arith, signed (inl new) enough valid)
        | inr (last, found) ↦ elim (Bool-cases (last.data_proposal_hash == e.data_proposal_hash)) [
          | inl same ↦ (
            ground arith,
            unchanged last found
                ((string_eq.beq_iff last.data_proposal_hash e.data_proposal_hash).0 same),
          )
          | inr other ↦
              let (enough, valid) = verify_signers_sound now staking e (ground arith) in
              (ground arith, signed (inr (last, found, ground arith)) enough valid)
        ]
      ]

  verify_entries-IsAvailable :
      (now : ℕ) (staking : Staking) (parent es : Cut)
      → verify_entries env now staking parent es ≡ ok tt
      → All (λ e. (is_known staking e.lane_id ≡ true) × IsAvailable staking parent e) es
  unfolding verify_entries
  verify_entries-IsAvailable now staking parent [] h = tt
  verify_entries-IsAvailable now staking parent (e ∷ es) h =
      elim (Result-cases (verify_entry env now staking parent e)) [
        | inr (x, bad) ↦ ground arith
        | inl (tt, good) ↦ (
          verify_entry-IsAvailable now staking parent e good,
          verify_entries-IsAvailable now staking parent es (ground arith),
        )
      ]

  -- A cut that is verified has all the lanes of the parent's cut, each lane is known, and each of
  -- its data proposals either was in the parent's cut already or is longer than the one there and
  -- signed by validators with more than f.
  pub verify_poda-IsAvailable :
      (now : ℕ) (proposal : ConsensusProposal) (bft : BftRoundState)
      → verify_poda env now proposal bft ≡ ok tt
      → (keeps_lanes bft.parent_cut proposal.cut ≡ true)
        × All
            (λ e.
              (is_known bft.staking e.lane_id ≡ true) × IsAvailable bft.staking bft.parent_cut e)
            proposal.cut
  unfolding verify_poda
  verify_poda-IsAvailable now proposal bft h = (
    ground arith,
    verify_entries-IsAvailable now bft.staking bft.parent_cut proposal.cut (ground arith),
  )

  -- With the full checks, and a parent that has a timestamp, the timestamp of a proposal that is
  -- verified is after that of the parent, by at most two slots and five seconds for each view.
  pub verify_timestamp_bounds :
      (now : ℕ) (proposal : ConsensusProposal) (bft : BftRoundState)
      → env.timestamp_checks ≡ full
      → bft.parent_timestamp ≢ 0
      → verify_timestamp env now proposal bft ≡ ok tt
      → (bft.parent_timestamp < proposal.timestamp)
        × (proposal.timestamp ≤ bft.parent_timestamp + 2 * env.slot_duration + 5000 * bft.view)
  unfolding verify_timestamp
  verify_timestamp_bounds now proposal bft checks started h =
      (ground (arith, checks), ground (arith, checks))

  -- When a vote makes the leader broadcast the certificate of the prepare votes, which takes it to
  -- the step of the acks, the vote is for its current proposal, and the votes that it has then, with
  -- its own voting power, are more than 2f.
  on_prepare_vote_quorum :
      (s s' : Consensus) (v : Vote)
      → on_prepare_vote env v s ≡ (s', ok tt)
      → ((s.bft).leader_state).step ≡ await_votes
      → ((s'.bft).leader_state).step ≡ await_acks
      → (own : ℕ) × (get_own_voting_power env s.bft ≡ ok own)
        × (v.proposal_hash ≡ env.hashed (s.bft).current_proposal)
        × (2 * compute_f (s.bft).staking
            < add_u128
                (compute_voting_power
                  (s.bft).staking
                  (voters ((s'.bft).leader_state).prepare_votes))
                own)
  unfolding on_prepare_vote has_quorum send_confirm modify check or_fail pure fail send ◌>>=◌
      get_own_voting_power
  on_prepare_vote_quorum s s' v h before after =
      elim (Result-cases (get_own_voting_power env s.bft)) [
        | inr (e, unknown) ↦ absurd (ground arith)
        | inl (own, known) ↦ (
          own,
          known,
          ground (arith, string_eq.beq_iff v.proposal_hash (env.hashed (s.bft).current_proposal)),
          ground arith,
        )
      ]
