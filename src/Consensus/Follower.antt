-- ===== src/Consensus/Follower.antt =====
-- manual_Scaffold/hyli/src/consensus/role_follower.rs and role_sync.rs: how a follower verifies a
-- proposal, votes on it and commits it. `on_prepare` ends with a call of itself if the next proposal
-- has already come; its model returns the arguments of that call.
use truth_seeker.Common.{
  ℕ, ◌+◌, ◌-◌, ◌*◌, ◌%◌, ◌^◌, Bool, true, false, String, Option, none, some, List, [], ◌∷◌, ◌==◌,
  string_eq, nat_eq, list_eq, not, ◌&&◌, ◌||◌, ltb, leb, all, any, find, filter, if◌then◌else◌,
  Result, ok, err, bail_if,
}
use truth_seeker.Common.Maps.{get, contains_key}
use truth_seeker.Sdk.Types.{Bytes}
use truth_seeker.Staking.{Staking, is_known, get_stake, compute_f, compute_voting_power, min_stake}
use truth_seeker.Consensus.Types.{
  AggregateSignature, signature_beq, CutEntry, Cut, Candidacy, ConsensusStakingAction,
  bond_candidate, pay_fees_for_dadi, ConsensusProposal, proposal_beq, TcKind, nil_proposal,
  prepare_qc, Ticket, genesis, commit_qc, timeout_qc, forced_commit_qc, Marker, prepare_vote_marker,
  confirm_ack_marker, vote, data_proposal, Vote, Prepare, prepare_vote, confirm_ack, sync_reply,
  StateTag, follower, BftRoundState, connect_to, ConsensusError, lane_missing, unknown_lane,
  smaller_data_proposal, not_enough_signers, invalid_poda, timestamp_too_old, timestamp_too_late,
  malformed_fees, not_staking, not_enough_power, invalid_signature, genesis_ticket, invalid_ticket,
  wrong_slot, wrong_view, wrong_leader, proposal_mismatch, changes_voting_power, not_current_slot,
  Env, full, monotonic, no_check, not_verifiable,
}
use truth_seeker.Consensus.Actions.{
  Action, pure, fail, gets, check, fail_if, modify, send, send_net_message, ◌>>=◌, ◌>>◌,
}
use truth_seeker.Consensus.Rounds.{
  round_leader, is_follower, is_joining, current_slot_prepare_is_present, is_part_of_consensus,
  timeout_ms, next_prepare, buffer_prepare, verify_quorum_certificate, verify_commit,
  emit_commit_event, advance_round,
}
use truth_seeker.Consensus.Leader.{commit_locally}
use truth_seeker.Consensus.Timeouts.{update_highest_seen_prepare_qc, verify_tc}

abbrev pub keeps_lanes : Cut → Cut → Bool
keeps_lanes parent cut =
    all (λ (e : CutEntry). any (λ (l : CutEntry). l.lane_id == e.lane_id) cut) parent

abbrev pub entry_of : Cut → Bytes → Option CutEntry
entry_of parent lane_id = find (λ (e : CutEntry). e.lane_id == lane_id) parent

-- `QuorumCertificate(AggregateSignature::default(), ConfirmAckMarker)`
abbrev pub empty_certificate : AggregateSignature
empty_certificate = record { signature = []; validators = [] }

abbrev pub is_bond : ConsensusStakingAction → Bool
is_bond (bond_candidate c) = true
is_bond (pay_fees_for_dadi l n) = false

abbrev pub current_proposal_changes_voting_power : BftRoundState → Bool
current_proposal_changes_voting_power bft = any is_bond (bft.current_proposal).staking_actions

unfoldable pub verify_dadi_fees : Cut → Bytes → ℕ → Result ConsensusError Unit
verify_dadi_fees cut lane_id cumul_size =
    bail_if (not (any (λ (e : CutEntry). e.lane_id == lane_id && e.lane_size == cumul_size) cut))
      malformed_fees

-- `matches!(tc_kind_data, PrepareQC((_, cp)))` with another proposal
abbrev pub is_for_other : TcKind → ConsensusProposal → Bool
is_for_other nil_proposal proposal = false
is_for_other (prepare_qc qc cp) proposal = not (proposal_beq cp proposal)

-- What is left to do after a prepare message: nothing, to process another one, or to look for the
-- first parent that is not buffered, from a proposal on.
pub data Next : Type 0 where
  finished : Next
  again : Prepare → Next
  fetch_from : String → Next

module _ (env : Env) (now : ℕ) where
  -- the aggregated signatures of one data proposal
  unfoldable pub verify_signers : Staking → CutEntry → Result ConsensusError Unit
  verify_signers staking e =
      if ltb (compute_voting_power staking (e.poda).validators) (compute_f staking + 1)
      then err not_enough_signers
      else elim (env.verify_aggregate (data_proposal e.data_proposal_hash e.lane_size) e.poda) [
        | none ↦ err not_verifiable
        | some valid ↦ bail_if (not valid) invalid_poda
      ]

  -- the body of the loop over the cut
  unfoldable pub verify_entry : Staking → Cut → CutEntry → Result ConsensusError Unit
  verify_entry staking parent e =
      if not (is_known staking e.lane_id)
      then err unknown_lane
      else elim (entry_of parent e.lane_id) [
        | none ↦ verify_signers staking e
        | some last ↦
            if last.data_proposal_hash == e.data_proposal_hash
            then ok tt
            else if leb e.lane_size last.lane_size
            then err smaller_data_proposal
            else verify_signers staking e
      ]

  unfoldable pub verify_entries : Staking → Cut → Cut → Result ConsensusError Unit
  verify_entries staking parent [] = ok tt
  verify_entries staking parent (e ∷ es) = elim (verify_entry staking parent e) [
    | err x ↦ err x
    | ok _ ↦ verify_entries staking parent es
  ]

  unfoldable pub verify_poda : ConsensusProposal → BftRoundState → Result ConsensusError Unit
  verify_poda proposal bft =
      if not (keeps_lanes bft.parent_cut proposal.cut)
      then err lane_missing
      else verify_entries bft.staking bft.parent_cut proposal.cut

  abbrev pub next_max_timestamp : BftRoundState → ℕ
  next_max_timestamp bft =
      bft.parent_timestamp + (env.slot_duration * 2 + timeout_ms * (bft.view % 2 ^ 32))

  unfoldable pub verify_timestamp : ConsensusProposal → BftRoundState → Result ConsensusError Unit
  verify_timestamp proposal bft =
      if bft.parent_timestamp == 0 then ok tt else elim env.timestamp_checks [
        | no_check ↦ ok tt
        | monotonic ↦ bail_if (leb proposal.timestamp bft.parent_timestamp) timestamp_too_old
        | full ↦
            if leb proposal.timestamp bft.parent_timestamp
            then err timestamp_too_old
            else bail_if (ltb (next_max_timestamp bft) proposal.timestamp) timestamp_too_late
      ]

  abbrev pub drop_candidate : Bytes → Action Unit
  drop_candidate pubkey s = (
    record s {
      validator_candidates =
          filter (λ (c : Candidacy). not (c.validator == pubkey)) s.validator_candidates;
    },
    ok tt,
  )

  unfoldable pub check_candidate : Candidacy → BftRoundState → Result ConsensusError Unit
  check_candidate c bft = elim (get_stake bft.staking c.validator) [
    | none ↦ err not_staking
    | some stake ↦
        if ltb stake min_stake then err not_enough_power else elim (env.verify_candidacy c) [
          | none ↦ err not_verifiable
          | some valid ↦ bail_if (not valid) invalid_signature
        ]
  ]

  unfoldable pub verify_new_validators_to_bond : Candidacy → Action Unit
  verify_new_validators_to_bond c = do
    check (check_candidate c)
    drop_candidate c.validator
    send (connect_to c.peer_address)

  unfoldable pub verify_staking_actions : Cut → List ConsensusStakingAction → Action Unit
  verify_staking_actions cut [] = pure tt
  verify_staking_actions cut (bond_candidate c ∷ actions) = do
    verify_new_validators_to_bond c
    verify_staking_actions cut actions
  verify_staking_actions cut (pay_fees_for_dadi lane_id cumul_size ∷ actions) = do
    check (λ bft. verify_dadi_fees cut lane_id cumul_size)
    verify_staking_actions cut actions

  -- The proposal is for the current slot, or for the next one and the current proposal is known.
  abbrev pub is_next : ConsensusProposal → BftRoundState → Bool
  is_next proposal bft =
      proposal.slot == (bft.slot + 1) % 2 ^ 64 && current_slot_prepare_is_present bft

  abbrev pub is_buffered_certificate : AggregateSignature → BftRoundState → Bool
  is_buffered_certificate qc bft = elim (bft.follower_state).buffered_quorum_certificate [
    | none ↦ false
    | some known ↦ signature_beq known qc
  ]

  -- `true` for `Processed`
  unfoldable pub verify_and_process_commit_ticket :
      ConsensusProposal → AggregateSignature → Action Bool
  verify_and_process_commit_ticket proposal qc s =
      if proposal.slot == (s.bft).slot || is_next proposal s.bft
      then if is_buffered_certificate qc s.bft
        then (s, ok true)
        else if not (current_slot_prepare_is_present s.bft)
        then (do
          check (λ bft.
              verify_quorum_certificate env (vote bft.parent_hash confirm_ack_marker) qc bft)
          pure true)
            s
        else (do commit_locally env now qc; pure true) s
      else (s, ok false)

  -- The current proposal is committed without a certificate.
  unfoldable pub force_commit : Action Unit
  force_commit = do
    changes ← gets current_proposal_changes_voting_power
    fail_if changes changes_voting_power
    emit_commit_event env empty_certificate
    advance_round env now forced_commit_qc

  unfoldable pub process_tc : ConsensusProposal → ℕ → AggregateSignature → TcKind → Action Bool
  process_tc proposal view qc kind s =
      (do
        fail_if (not (proposal.slot == (s.bft).slot)) not_current_slot
        verify_tc env now qc kind (s.bft).slot ((view + 2 ^ 64 - 1) % 2 ^ 64)
        if view == ((s.bft).view + 1) % 2 ^ 64
            then advance_round env now (timeout_qc qc kind)
            else pure tt
        pure true)
        s

  unfoldable pub verify_and_process_tc_ticket :
      AggregateSignature → TcKind → ConsensusProposal → ℕ → Action Bool
  verify_and_process_tc_ticket qc kind proposal view s =
      if proposal.slot == (s.bft).slot || is_next proposal s.bft
      then (do
        fail_if (is_for_other kind proposal) proposal_mismatch
        if is_next proposal s.bft && proposal.parent_hash == env.hashed (s.bft).current_proposal
            then force_commit
            else pure tt
        process_tc proposal view qc kind)
          s
      else (s, ok false)

  unfoldable pub process_prepare_ticket : ConsensusProposal → Ticket → ℕ → Action Bool
  process_prepare_ticket proposal genesis view = do
    slot ← gets (λ bft. bft.slot)
    fail_if (not (slot == 1)) genesis_ticket
    pure true
  process_prepare_ticket proposal (commit_qc qc) view = verify_and_process_commit_ticket proposal qc
  process_prepare_ticket proposal (timeout_qc qc kind) view =
      verify_and_process_tc_ticket qc kind proposal view
  process_prepare_ticket proposal forced_commit_qc view = fail invalid_ticket

  abbrev pub set_tag : StateTag → BftRoundState → BftRoundState
  set_tag tag bft = record bft { state_tag = tag }

  abbrev pub set_proposal : ConsensusProposal → BftRoundState → BftRoundState
  set_proposal proposal bft = record bft { current_proposal = proposal }

  -- A prepare message that a node that joins has waited for.
  abbrev pub ends_joining : ConsensusProposal → ℕ → BftRoundState → Bool
  ends_joining proposal view bft =
      proposal.slot == bft.slot && not (current_slot_prepare_is_present bft)
      || (current_slot_prepare_is_present bft
          && (proposal.slot == (bft.slot + 1) % 2 ^ 64
              || (proposal.slot == bft.slot && ltb bft.view view)))

  unfoldable pub check_leader :
      Bytes → ConsensusProposal → ℕ → BftRoundState → Result ConsensusError Bytes
  check_leader sender proposal view bft =
      if not (proposal.slot == bft.slot)
      then err wrong_slot
      else if not (view == bft.view)
      then err wrong_view
      else elim (round_leader bft) [
        | err e ↦ err e
        | ok leader ↦ if sender == leader then ok leader else err wrong_leader
      ]

  abbrev pub signed_vote : String → Marker → Vote
  signed_vote hash marker = record {
    proposal_hash = hash;
    validator = env.validator_pubkey;
    signature = env.sign (vote hash marker);
  }

  unfoldable pub send_prepare_vote : Bytes → Action Unit
  send_prepare_vote leader s =
      if is_part_of_consensus s.bft env.validator_pubkey
      then send_net_message leader
          (prepare_vote (signed_vote (env.hashed (s.bft).current_proposal) prepare_vote_marker)) s
      else (s, ok tt)

  -- From the assignment of the current proposal on. If the next proposal is there already, the node
  -- goes on with it and does not vote.
  unfoldable pub accept_proposal : Bytes → Prepare → Action Next
  accept_proposal leader (sender, proposal, ticket, view) = do
    modify (set_proposal proposal)
    buffer_prepare env (sender, proposal, ticket, view)
    next ← gets (λ bft. next_prepare (bft.follower_state).buffered_prepares (env.hashed proposal))
    elim next [ some p ↦ pure (again p) | none ↦ (do send_prepare_vote leader; pure finished) ]

  unfoldable pub verify_proposal : Prepare → Action Next
  verify_proposal (sender, proposal, ticket, view) = do
    leader ← check (check_leader sender proposal view)
    check (verify_poda proposal)
    verify_staking_actions proposal.cut proposal.staking_actions
    check (verify_timestamp proposal)
    accept_proposal leader (sender, proposal, ticket, view)

  -- `buffer_prepare_message_and_fetch_missing_parent`, up to the walk to the missing parent
  unfoldable pub buffer_future : Prepare → Action Next
  buffer_future (sender, proposal, ticket, view) s =
      if contains_key ((s.bft).follower_state).buffered_prepares.prepares (env.hashed proposal)
      then (s, ok (fetch_from proposal.parent_hash))
      else (do
        buffer_prepare env (sender, proposal, ticket, view)
        pure (fetch_from proposal.parent_hash))
          s

  -- behind the joining mode
  unfoldable pub process_prepare : Prepare → Action Next
  process_prepare (sender, proposal, ticket, view) s =
      if ltb proposal.slot (s.bft).slot
      then (s, ok finished)
      else (do
        processed ← process_prepare_ticket proposal ticket view
        if processed
            then verify_proposal (sender, proposal, ticket, view)
            else buffer_future (sender, proposal, ticket, view))
          s

  unfoldable pub on_prepare : Prepare → Action Next
  on_prepare (sender, proposal, ticket, view) s =
      if is_joining (s.bft).state_tag
      then if ends_joining proposal view s.bft
        then (do modify (set_tag follower); process_prepare (sender, proposal, ticket, view)) s
        else (do buffer_prepare env (sender, proposal, ticket, view); pure finished) s
      else process_prepare (sender, proposal, ticket, view) s

  unfoldable pub send_confirm_ack : String → Action Unit
  send_confirm_ack hash s =
      if is_part_of_consensus s.bft env.validator_pubkey
      then (do
        leader ← check round_leader
        send_net_message leader (confirm_ack (signed_vote hash confirm_ack_marker)))
          s
      else (s, ok tt)

  unfoldable pub on_confirm : AggregateSignature → String → Action Unit
  on_confirm qc hash s =
      if not (is_follower (s.bft).state_tag)
      then (s, ok tt)
      else if not (hash == env.hashed (s.bft).current_proposal)
      then (s, ok tt)
      else (do
        check (verify_quorum_certificate env (vote hash prepare_vote_marker) qc)
        modify (λ bft. (update_highest_seen_prepare_qc bft.slot qc bft).0)
        send_confirm_ack hash)
          s

  -- The node takes the slot of the proposal and follows.
  abbrev pub join_at_proposal : BftRoundState → BftRoundState
  join_at_proposal bft = record bft {
    slot = (bft.current_proposal).slot;
    view = 0;
    state_tag = follower;
  }

  unfoldable pub join_with : AggregateSignature → ConsensusProposal → Action Unit
  join_with qc proposal = do
    modify (set_proposal proposal)
    check (verify_commit env qc)
    modify join_at_proposal
    emit_commit_event env qc
    advance_round env now (commit_qc qc)

  unfoldable pub on_commit_while_joining : AggregateSignature → String → Action Unit
  on_commit_while_joining qc hash s =
      elim (get ((s.bft).follower_state).buffered_prepares.prepares hash) [
        | none ↦ (s, ok tt)
        | some (sender, proposal, ticket, view) ↦
            if leb proposal.slot (s.bft).slot
            then (s, ok tt)
            else if ltb (((s.bft).staking_updated_to + 1) % 2 ^ 64) proposal.slot
            then (s, ok tt)
            else join_with qc proposal s
      ]

  unfoldable pub on_commit : AggregateSignature → String → Action Unit
  on_commit qc hash s =
      if is_joining (s.bft).state_tag
      then on_commit_while_joining qc hash s
      else if not (current_slot_prepare_is_present s.bft)
      then (s, ok tt)
      else if not (is_follower (s.bft).state_tag)
      then (s, ok tt)
      else if not (env.hashed (s.bft).current_proposal == hash)
      then (s, ok tt)
      else commit_locally env now qc s

  -- role_sync.rs
  unfoldable pub on_sync_request : Bytes → String → Action Unit
  on_sync_request sender hash s =
      elim (get ((s.bft).follower_state).buffered_prepares.prepares hash) [
        | none ↦ (s, ok tt)
        | some p ↦ send_net_message sender (sync_reply p) s
      ]
