-- ===== src/Tests/Consensus.antt =====
-- The theorems on the consensus at concrete inputs.
use truth_seeker.Common.{
  ◌%◌, ◌≤◌, ◌<◌, ◌≡◌, ◌⊎◌, refl, true, none, some, [], ◌∷◌, ◌&&◌, list_eq, nat_eq, string_eq, arith,
  contains, All, add_u128,
}
use truth_seeker.Common.Maps.{get}
use truth_seeker.Staking.{power, get_stake, compute_f, compute_voting_power, is_known}
use truth_seeker.Staking.Order.{sort, insert_sorted, dedup}
use truth_seeker.Staking.Sums.{part}
use truth_seeker.Consensus.Types.{
  AggregateSignature, CutEntry, ConsensusProposal, confirm_ack_marker, vote, Vote, commit, leader,
  follower, await_votes, inactive, BftRoundState, Consensus, full, Env,
}
use truth_seeker.Consensus.Rounds.{verify_quorum_certificate, new_leader}
use truth_seeker.Consensus.Leader.{on_prepare_vote}
use truth_seeker.Consensus.Follower.{
  keeps_lanes, verify_poda, verify_entries, verify_entry, verify_signers,
}
use truth_seeker.Consensus.Messages.{handle_net_message}
use truth_seeker.Consensus.Moves.{IsCommitted, round_of}
use truth_seeker.Consensus.Moves.Messages.{receives, here, next, reached-IsCommitted}
use truth_seeker.Consensus.Checks.{certificates_meet, IsAvailable, verify_poda-IsAvailable}
use truth_seeker.Tests.Staking.{two, two-IsValid}

abbrev both : AggregateSignature
both = record { signature = []; validators = (1 ∷ []) ∷ (2 ∷ []) ∷ [] }

-- The node is the validator 1; all signatures are good, and the hash of a proposal is its parent's.
abbrev env : Env
env = record {
  validator_pubkey = 1 ∷ [];
  hashed = λ p. p.parent_hash;
  sign = λ m. [];
  sign_aggregate = λ m signatures. some both;
  verify_aggregate = λ m qc. some true;
  verify_candidacy = λ c. some true;
  sign_candidacy = record { peer_address = ""; validator = 1 ∷ []; signature = [] };
  slot_duration = 1000;
  timestamp_checks = full;
}

abbrev entry : CutEntry
entry = record { lane_id = 1 ∷ []; data_proposal_hash = "d"; lane_size = 9; poda = both }

abbrev proposal : ConsensusProposal
proposal = record {
  slot = 5;
  parent_hash = "p";
  cut = entry ∷ [];
  staking_actions = [];
  timestamp = 1500;
}

abbrev bft : BftRoundState
bft = record {
  staking = two;
  slot = 5;
  view = 0;
  parent_hash = "o";
  parent_timestamp = 1000;
  parent_cut = [];
  current_proposal = proposal;
  leader_state = new_leader;
  follower_state = record {
    buffered_quorum_certificate = none;
    buffered_prepares = record { prepares = []; children = [] };
  };
  timeout_state = record { requests = []; state = inactive; highest_seen_prepare_qc = none };
  staking_updated_to = 4;
  state_tag = follower;
}

abbrev node : Consensus
node = record { bft = bft; validator_candidates = []; sent = [] }

abbrev committed : Consensus
committed = (handle_net_message env 0 (2 ∷ []) (commit both "p") node).0

reached-IsCommitted_example : All (IsCommitted env) (round_of committed).commits
reached-IsCommitted_example =
    reached-IsCommitted env node committed refl
      (next here (receives node 0 (2 ∷ []) (commit both "p")))

certificates_meet_example :
    let common =
      part (power two) (λ v. contains both.validators v && contains both.validators v) two.bonded in
    (compute_f two ≤ common) × ((two.total_bond % 3 ≡ 2) ⊎ (compute_f two < common))
unfolding verify_quorum_certificate compute_voting_power get_stake get sort insert_sorted dedup
    add_u128 part
certificates_meet_example =
    certificates_meet env bft (vote "p" confirm_ack_marker) (vote "q" confirm_ack_marker) both both
      two-IsValid (omega arith) refl refl

verify_poda-IsAvailable_example :
    (keeps_lanes bft.parent_cut proposal.cut ≡ true)
    × All
        (λ e.
          (is_known bft.staking e.lane_id ≡ true) × IsAvailable env bft.staking bft.parent_cut e)
        proposal.cut
unfolding verify_poda verify_entries verify_entry verify_signers compute_voting_power get_stake get
    sort insert_sorted dedup add_u128
verify_poda-IsAvailable_example = verify_poda-IsAvailable env 0 proposal bft refl

abbrev leading : Consensus
leading = record node {
  bft = record bft { state_tag = leader; leader_state = record new_leader { step = await_votes } };
}

abbrev cast : Vote
cast = record { proposal_hash = "p"; validator = 2 ∷ []; signature = [] }

abbrev voted : Consensus
voted = (on_prepare_vote env cast leading).0
