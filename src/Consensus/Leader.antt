-- ===== src/Consensus/Leader.antt =====
-- manual_Scaffold/hyli/src/consensus/role_leader.rs: how the leader opens a round and collects votes.
use truth_seeker.Common.{
  ℕ, ◌*◌, Bool, true, false, String, Option, none, some, List, [], ◌++◌, ◌==◌, string_eq, nat_eq,
  list_eq, not, ◌&&◌, ltb, any, filter, map, push, if◌then◌else◌, add_u128, Result, ok, err,
}
use truth_seeker.Sdk.Types.{Bytes}
use truth_seeker.Staking.{
  Staking, is_bonded, get_stake, or_zero, compute_f, compute_voting_power, min_stake,
}
use truth_seeker.Consensus.Types.{
  AggregateSignature, CutEntry, Cut, cut_beq, Candidacy, ConsensusStakingAction, bond_candidate,
  pay_fees_for_dadi, Ticket, genesis, commit_qc, timeout_qc, forced_commit_qc, prepare_vote_marker,
  confirm_ack_marker, vote, Vote, vote_beq, prepare, confirm, commit, Step, start_new_slot,
  await_votes, await_acks, BftRoundState, start_new_slot_command, ConsensusError, wrong_step,
  not_leader, no_ticket, wrong_hash, no_aggregate, Env,
}
use truth_seeker.Consensus.Actions.{
  Action, pure, gets, check, or_fail, fail_if, modify, send, broadcast_net_message, ◌>>=◌, ◌>>◌,
}
use truth_seeker.Consensus.Rounds.{
  is_leader, is_round_leader, current_slot_prepare_is_present, buffer_prepare, get_own_voting_power,
  verify_commit, emit_commit_event, set_pending, advance_round,
}

abbrev pub is_step : Step → Step → Bool
is_step start_new_slot start_new_slot = true
is_step start_new_slot await_votes = false
is_step start_new_slot await_acks = false
is_step await_votes start_new_slot = false
is_step await_votes await_votes = true
is_step await_votes await_acks = false
is_step await_acks start_new_slot = false
is_step await_acks await_votes = false
is_step await_acks await_acks = true

abbrev pub set_step : Step → BftRoundState → BftRoundState
set_step step bft = record bft { leader_state = record (bft.leader_state) { step = step } }

-- `HashSet::insert` into the votes
abbrev pub insert_vote : Vote → List Vote → List Vote
insert_vote v votes = if any (vote_beq v) votes then votes else push votes v

abbrev pub voters : List Vote → List Bytes
voters votes = map (λ (v : Vote). v.validator) votes

abbrev pub signatures : List Vote → List (Bytes × Bytes)
signatures votes = map (λ (v : Vote). (v.validator, v.signature)) votes

abbrev pub is_timeout : Ticket → Bool
is_timeout (timeout_qc qc kind) = true
is_timeout genesis = false
is_timeout (commit_qc qc) = false
is_timeout forced_commit_qc = false

-- `retain`: the candidates with enough stake that are not bonded.
abbrev pub is_new_validator : Staking → Candidacy → Bool
is_new_validator staking c =
    ltb min_stake (or_zero (get_stake staking c.validator)) && not (is_bonded staking c.validator)

abbrev pub fees_of : Cut → List ConsensusStakingAction
fees_of cut = map (λ (e : CutEntry). pay_fees_for_dadi e.lane_id e.lane_size) cut

module _ (env : Env) where
  abbrev pub take_ticket : Action Ticket
  take_ticket s = (
    record s {
      bft = record (s.bft) {
        leader_state = record ((s.bft).leader_state) { pending_ticket = none };
      };
    },
    elim ((s.bft).leader_state).pending_ticket [ none ↦ err no_ticket | some t ↦ ok t ],
  )

  -- A new proposal on the cut, with the candidates that are to be bonded and the fees.
  unfoldable pub propose : ℕ → Cut → Action Unit
  propose timestamp cut s = (
    record s {
      validator_candidates = [];
      bft = record (s.bft) {
        current_proposal = record {
          slot = (s.bft).slot;
          parent_hash = (s.bft).parent_hash;
          cut = cut;
          staking_actions =
              map bond_candidate (filter (is_new_validator (s.bft).staking) s.validator_candidates)
              ++ fees_of cut;
          timestamp = timestamp;
        };
      };
    },
    ok tt,
  )

  -- From the step on: the prepare message is buffered and broadcast.
  unfoldable pub open_round : Ticket → Action Unit
  open_round ticket s =
      (do
        modify (set_step await_votes)
        buffer_prepare env (env.validator_pubkey, (s.bft).current_proposal, ticket, (s.bft).view)
        broadcast_net_message (prepare (s.bft).current_proposal ticket (s.bft).view))
        s

  -- the choice of the cut; `none` if the mempool gave no answer in time
  unfoldable pub choose_cut : ℕ → Bool → Ticket → Option Cut → Action Unit
  choose_cut timestamp may_delay ticket none s =
      (do propose timestamp (s.bft).parent_cut; open_round ticket) s
  choose_cut timestamp may_delay ticket (some cut) s =
      if may_delay && (not (is_timeout ticket) && cut_beq cut (s.bft).parent_cut)
      then (do modify (set_pending env ticket); send (start_new_slot_command false)) s
      else (do propose timestamp cut; open_round ticket) s

  -- `start_round`; `answer` is what the mempool answers when it is asked for a cut.
  unfoldable pub start_round : ℕ → Bool → Option Cut → Action Unit
  start_round timestamp may_delay answer = do
    bft ← gets (λ b. b)
    fail_if (not (is_step bft.leader_state.step start_new_slot)) wrong_step
    fail_if (not (is_round_leader bft)) not_leader
    ticket ← take_ticket
    if current_slot_prepare_is_present bft
        then open_round ticket
        else choose_cut timestamp may_delay ticket answer

  abbrev pub set_prepare_votes : List Vote → BftRoundState → BftRoundState
  set_prepare_votes votes bft = record bft {
    leader_state = record (bft.leader_state) { prepare_votes = votes };
  }

  abbrev pub set_confirm_acks : List Vote → BftRoundState → BftRoundState
  set_confirm_acks votes bft = record bft {
    leader_state = record (bft.leader_state) { confirm_acks = votes };
  }

  -- More than 2f with the voting power of the node itself.
  unfoldable pub has_quorum : List Vote → BftRoundState → Result ConsensusError Bool
  has_quorum votes bft = elim (get_own_voting_power env bft) [
    | err e ↦ err e
    | ok own ↦ ok (
        ltb (2 * compute_f bft.staking)
          (add_u128 (compute_voting_power bft.staking (voters votes)) own))
  ]

  unfoldable pub send_confirm : List Vote → Action Unit
  send_confirm votes s =
      let hash = env.hashed (s.bft).current_proposal in
      (do
        qc ←
            or_fail (env.sign_aggregate (vote hash prepare_vote_marker) (signatures votes))
              no_aggregate
        modify (set_step await_acks)
        broadcast_net_message (confirm qc hash))
        s

  unfoldable pub on_prepare_vote : Vote → Action Unit
  on_prepare_vote v s =
      if not (is_leader (s.bft).state_tag)
      then (s, ok tt)
      else if not (is_step ((s.bft).leader_state).step await_votes)
      then (s, ok tt)
      else if not (v.proposal_hash == env.hashed (s.bft).current_proposal)
      then (s, err wrong_hash)
      else let votes = insert_vote v ((s.bft).leader_state).prepare_votes in
        (do
          modify (set_prepare_votes votes)
          quorum ← check (has_quorum votes)
          if quorum then send_confirm votes else pure tt)
          s

  unfoldable pub commit_locally : ℕ → AggregateSignature → Action Unit
  commit_locally now qc = do
    check (verify_commit env qc)
    emit_commit_event env qc
    advance_round env now (commit_qc qc)

  unfoldable pub send_commit : ℕ → String → List Vote → Action Unit
  send_commit now hash votes s =
      (do
        qc ←
            or_fail
              (env.sign_aggregate (vote (env.hashed (s.bft).current_proposal) confirm_ack_marker)
                (signatures votes))
              no_aggregate
        broadcast_net_message (commit qc hash)
        commit_locally now qc)
        s

  unfoldable pub on_confirm_ack : ℕ → Vote → Action Unit
  on_confirm_ack now v s =
      if not (is_leader (s.bft).state_tag)
      then (s, ok tt)
      else if not (is_step ((s.bft).leader_state).step await_acks)
      then (s, ok tt)
      else if not (v.proposal_hash == env.hashed (s.bft).current_proposal)
      then (s, err wrong_hash)
      else if any (vote_beq v) ((s.bft).leader_state).confirm_acks
      then (s, ok tt)
      else let votes = push ((s.bft).leader_state).confirm_acks v in
        (do
          modify (set_confirm_acks votes)
          quorum ← check (has_quorum votes)
          if quorum then send_commit now v.proposal_hash votes else pure tt)
          s
