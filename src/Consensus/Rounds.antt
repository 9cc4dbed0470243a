-- ===== src/Consensus/Rounds.antt =====
-- manual_Scaffold/hyli/src/consensus.rs: leaders, certificates, and the passage from one round to
-- the next. The clock, `now`, stands still while a message is handled.
use truth_seeker.Common.{
  ℕ, ◌+◌, ◌-◌, ◌*◌, ◌%◌, ◌^◌, Bool, true, false, String, Option, none, some, List, [], ◌∷◌, ◌==◌,
  string_eq, nat_eq, list_eq, not, ◌&&◌, ltb, all, length, get_or, is_some, push, if◌then◌else◌,
  Result, ok, err, bail_if,
}
use truth_seeker.Common.Maps.{get, insert}
use truth_seeker.Sdk.Types.{Bytes}
use truth_seeker.Staking.{
  Staking, is_bonded, get_stake, or_zero, compute_f, compute_voting_power, bond, pay_for_dadi,
  distribute, min_stake,
}
use truth_seeker.Consensus.Types.{
  AggregateSignature, Candidacy, ConsensusStakingAction, bond_candidate, pay_fees_for_dadi, Ticket,
  genesis, commit_qc, timeout_qc, forced_commit_qc, confirm_ack_marker, Message, vote,
  validator_candidacy, StateTag, joining, leader, follower, start_new_slot, LeaderState,
  BufferedPrepares, Prepare, scheduled, BftRoundState, commit_proposal, start_new_slot_command,
  ConsensusError, no_validators, not_synchronized, genesis_not_accepted, not_in_registry,
  staking_error, invalid_certificate, not_verifiable, non_consensus_validators, not_enough_power,
  not_staking, Env,
}
use truth_seeker.Consensus.Actions.{
  Action, fail, gets, check, fail_if, modify, send, broadcast_net_message, ◌>>=◌, ◌>>◌,
}

-- The remainder by the number of the bonded validators panics if there is none.
unfoldable pub round_leader : BftRoundState → Result ConsensusError Bytes
round_leader bft =
    let n = length (bft.staking).bonded in
    let before = ((bft.slot + bft.view) % 2 ^ 64 + 2 ^ 64 - 1) % 2 ^ 64 in
    if n == 0 then err no_validators else ok (get_or (bft.staking).bonded (before % n) [])

abbrev pub next_view_leader : BftRoundState → Result ConsensusError Bytes
next_view_leader bft = round_leader (record bft { view = (bft.view + 1) % 2 ^ 64 })

abbrev pub is_leader : StateTag → Bool
is_leader leader = true
is_leader follower = false
is_leader joining = false

abbrev pub is_follower : StateTag → Bool
is_follower follower = true
is_follower leader = false
is_follower joining = false

abbrev pub is_joining : StateTag → Bool
is_joining joining = true
is_joining leader = false
is_joining follower = false

abbrev pub is_round_leader : BftRoundState → Bool
is_round_leader bft = is_leader bft.state_tag

abbrev pub current_slot_prepare_is_present : BftRoundState → Bool
current_slot_prepare_is_present bft = (bft.current_proposal).slot == bft.slot

abbrev pub is_part_of_consensus : BftRoundState → Bytes → Bool
is_part_of_consensus bft pubkey = is_bonded bft.staking pubkey

-- `LeaderState::default()`
abbrev pub new_leader : LeaderState
new_leader = record {
  step = start_new_slot;
  prepare_votes = [];
  confirm_acks = [];
  pending_ticket = none;
}

abbrev pub timeout_ms : ℕ
timeout_ms = 5000

-- `BufferedPrepares::next_prepare`, `push`, `get` and `contains`
abbrev pub next_prepare : BufferedPrepares → String → Option Prepare
next_prepare b hash = elim (get b.children hash) [ none ↦ none | some child ↦ get b.prepares child ]

module _ (env : Env) where
  abbrev pub push_prepare : BufferedPrepares → Prepare → BufferedPrepares
  push_prepare b (sender, proposal, ticket, view) = record {
    children = insert b.children proposal.parent_hash (env.hashed proposal);
    prepares = insert b.prepares (env.hashed proposal) (sender, proposal, ticket, view);
  }

  abbrev pub buffer_prepare : Prepare → Action Unit
  buffer_prepare p = modify (λ bft. record bft {
    follower_state = record (bft.follower_state) {
      buffered_prepares = push_prepare (bft.follower_state).buffered_prepares p;
    };
  })

  abbrev pub has_no_buffered_children : BftRoundState → Bool
  has_no_buffered_children bft = not (
      is_some
        (next_prepare (bft.follower_state).buffered_prepares (env.hashed bft.current_proposal)))

  unfoldable pub get_own_voting_power : BftRoundState → Result ConsensusError ℕ
  get_own_voting_power bft =
      if is_part_of_consensus bft env.validator_pubkey
      then elim (get_stake bft.staking env.validator_pubkey) [
        | none ↦ err not_in_registry
        | some my_stake ↦ ok my_stake
      ]
      else ok 0

  -- `verify_quorum_signers_part_of_consensus`
  abbrev pub signers_are_bonded : Staking → AggregateSignature → Bool
  signers_are_bonded staking qc = all (is_bonded staking) qc.validators

  unfoldable pub verify_quorum_certificate :
      Message → AggregateSignature → BftRoundState → Result ConsensusError Unit
  verify_quorum_certificate message qc bft = elim (env.verify_aggregate message qc) [
    | none ↦ err not_verifiable
    | some valid ↦
        if not (signers_are_bonded bft.staking qc)
        then err non_consensus_validators
        else if not valid
        then err invalid_certificate
        else bail_if
            (ltb (compute_voting_power bft.staking qc.validators) (2 * compute_f bft.staking + 1))
            not_enough_power
  ]

  -- `verify_commit_quorum_certificate_against_current_proposal`
  abbrev pub verify_commit : AggregateSignature → BftRoundState → Result ConsensusError Unit
  verify_commit qc bft =
      verify_quorum_certificate (vote (env.hashed bft.current_proposal) confirm_ack_marker) qc bft

  unfoldable pub emit_commit_event : AggregateSignature → Action Unit
  emit_commit_event qc s = send (commit_proposal (s.bft).staking (s.bft).current_proposal qc) s

  -- the loop over the staking actions of a committed proposal
  unfoldable pub apply_actions :
      List ConsensusStakingAction → Staking → Staking × Result ConsensusError Unit
  apply_actions [] staking = (staking, ok tt)
  apply_actions (bond_candidate candidate ∷ actions) staking =
      let (staking', r) = bond staking candidate.validator in
      elim r [ err e ↦ (staking', err (staking_error e)) | ok _ ↦ apply_actions actions staking' ]
  apply_actions (pay_fees_for_dadi lane_id cumul_size ∷ actions) staking =
      apply_actions actions (pay_for_dadi staking lane_id cumul_size)

  abbrev pub on_staking : (Staking → Staking × Result ConsensusError Unit) → Action Unit
  on_staking f s =
      let (staking, r) = f (s.bft).staking in
      (record s { bft = record (s.bft) { staking = staking } }, r)

  abbrev pub distribute_fees : Staking → Staking × Result ConsensusError Unit
  distribute_fees staking =
      let (staking', r) = distribute staking in
      (staking', elim r [ err e ↦ err (staking_error e) | ok _ ↦ ok tt ])

  -- `mem::take` of the actions of the current proposal
  abbrev pub take_actions : Action (List ConsensusStakingAction)
  take_actions s = (
    record s {
      bft = record (s.bft) {
        current_proposal = record ((s.bft).current_proposal) { staking_actions = [] };
      };
    },
    ok ((s.bft).current_proposal).staking_actions,
  )

  abbrev pub next_slot : Option AggregateSignature → BftRoundState → BftRoundState
  next_slot qc bft = record bft {
    slot = (bft.slot + 1) % 2 ^ 64;
    view = 0;
    parent_hash = env.hashed bft.current_proposal;
    parent_timestamp = (bft.current_proposal).timestamp;
    parent_cut = (bft.current_proposal).cut;
    follower_state = record (bft.follower_state) { buffered_quorum_certificate = qc };
  }

  abbrev pub next_view : BftRoundState → BftRoundState
  next_view bft = record bft {
    view = (bft.view + 1) % 2 ^ 64;
    follower_state = record (bft.follower_state) { buffered_quorum_certificate = none };
  }

  unfoldable pub commit_round : Option AggregateSignature → Action Unit
  commit_round qc = do
    modify (next_slot qc)
    actions ← take_actions
    on_staking (apply_actions actions)
    on_staking distribute_fees

  -- the `match` of the ticket
  unfoldable pub process_ticket : Ticket → Action Unit
  process_ticket (commit_qc qc) = commit_round (some qc)
  process_ticket forced_commit_qc = commit_round none
  process_ticket (timeout_qc qc kind) = modify next_view
  process_ticket genesis = fail genesis_not_accepted

  abbrev pub schedule : ℕ → BftRoundState → BftRoundState
  schedule now bft = record bft {
    timeout_state = record (bft.timeout_state) { state = scheduled (now + timeout_ms) };
  }

  -- The new role, by the leader of the new round.
  unfoldable pub take_role : ℕ → Bytes → BftRoundState → BftRoundState
  take_role now round_leader bft =
      if round_leader == env.validator_pubkey
      then record bft { state_tag = leader }
      else schedule now (record bft { state_tag = follower })

  abbrev pub reset : BftRoundState → BftRoundState
  reset bft = record bft {
    leader_state = new_leader;
    timeout_state = record (bft.timeout_state) { requests = [] };
  }

  unfoldable pub apply_ticket : ℕ → Ticket → Action Unit
  apply_ticket now ticket = do
    tag ← gets (λ bft. bft.state_tag)
    fail_if (is_joining tag) not_synchronized
    modify reset
    process_ticket ticket
    next ← check round_leader
    modify (take_role now next)

  abbrev pub is_forced : Ticket → Bool
  is_forced forced_commit_qc = true
  is_forced genesis = false
  is_forced (commit_qc qc) = false
  is_forced (timeout_qc qc kind) = false

  abbrev pub set_pending : Ticket → BftRoundState → BftRoundState
  set_pending ticket bft = record bft {
    leader_state = record (bft.leader_state) { pending_ticket = some ticket };
  }

  unfoldable pub send_candidacy : Action Unit
  send_candidacy = broadcast_net_message (validator_candidacy env.sign_candidacy)

  -- what to do at the beginning of the next round
  unfoldable pub begin_round : Ticket → Action Unit
  begin_round ticket s =
      if is_round_leader s.bft && (has_no_buffered_children s.bft && not (is_forced ticket))
      then (do modify (set_pending ticket); send (start_new_slot_command true)) s
      else if is_part_of_consensus s.bft env.validator_pubkey
      then (s, ok tt)
      else if ltb min_stake (or_zero (get_stake (s.bft).staking env.validator_pubkey))
      then send_candidacy s
      else (s, ok tt)

  unfoldable pub advance_round : ℕ → Ticket → Action Unit
  advance_round now ticket = do apply_ticket now ticket; begin_round ticket

  unfoldable pub on_validator_candidacy : Candidacy → Action Unit
  on_validator_candidacy candidacy s =
      if is_part_of_consensus s.bft candidacy.validator
      then (s, ok tt)
      else elim (get_stake (s.bft).staking candidacy.validator) [
        | none ↦ (s, err not_staking)
        | some stake ↦
            if ltb stake min_stake
            then (s, err not_enough_power)
            else (record s { validator_candidates = push s.validator_candidates candidacy }, ok tt)
      ]
