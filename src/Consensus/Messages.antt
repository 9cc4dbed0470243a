-- ===== src/Consensus/Messages.antt =====
-- manual_Scaffold/hyli/src/consensus.rs: the messages, commands and blocks that the consensus
-- handles. The metrics are not modelled.
use truth_seeker.Common.{
  ℕ, ◌+◌, ◌%◌, ◌^◌, Bool, String, Option, List, [], ltb, if◌then◌else◌, ok, err,
}
use truth_seeker.Sdk.Types.{Bytes}
use truth_seeker.Staking.{StakingAction, process_block}
use truth_seeker.Consensus.Types.{
  Cut, ConsensusProposal, NetMessage, prepare, prepare_vote, confirm_ack, confirm, commit, timeout,
  timeout_certificate, validator_candidacy, sync_request, sync_reply, BftRoundState, staking_error,
  Env,
}
use truth_seeker.Consensus.Actions.{Action, pure, ◌>>◌}
use truth_seeker.Consensus.Rounds.{is_joining, on_validator_candidacy}
use truth_seeker.Consensus.Leader.{start_round, on_prepare_vote, on_confirm_ack}
use truth_seeker.Consensus.Timeouts.{on_timeout, on_timeout_certificate, on_timeout_tick}
use truth_seeker.Consensus.Follower.{
  Next, finished, on_prepare, on_confirm, on_commit, on_sync_request,
}

-- The parts of a block that the consensus reads.
pub record BlockSummary : Type 0 where
  pub block_height : ℕ
  pub hash : String
  pub staking_actions : List (String × StakingAction)
  pub new_bounded_validators : List Bytes

pub data Command : Type 0 where
  timeout_tick : Command
  start_new_slot : Bool → Command

module _ (env : Env) (now : ℕ) where
  abbrev pub and_finish : Action Unit → Action Next
  and_finish m = do m; pure finished

  unfoldable pub handle_net_message : Bytes → NetMessage → Action Next
  handle_net_message sender (prepare proposal ticket view) =
      on_prepare env now (sender, proposal, ticket, view)
  handle_net_message sender (prepare_vote v) = and_finish (on_prepare_vote env v)
  handle_net_message sender (confirm qc hash) = and_finish (on_confirm env now qc hash)
  handle_net_message sender (confirm_ack v) = and_finish (on_confirm_ack env now v)
  handle_net_message sender (commit qc hash) = and_finish (on_commit env now qc hash)
  handle_net_message sender (timeout signed kind) = and_finish (on_timeout env now signed kind)
  handle_net_message sender (timeout_certificate qc kind slot view) =
      and_finish (on_timeout_certificate env now qc kind slot view)
  handle_net_message sender (validator_candidacy c) = and_finish (on_validator_candidacy env c)
  handle_net_message sender (sync_request hash) = and_finish (on_sync_request env now sender hash)
  handle_net_message sender (sync_reply p) = on_prepare env now p

  -- `answer` is the cut of the mempool, if it gives one in time.
  unfoldable pub handle_command : Option Cut → Command → Action Unit
  handle_command answer timeout_tick = on_timeout_tick env now
  handle_command answer (start_new_slot may_delay) = start_round env now may_delay answer

-- `ConsensusProposal { slot, ..Default::default() }`
abbrev pub empty_proposal : ℕ → ConsensusProposal
empty_proposal slot = record {
  slot = slot;
  parent_hash = "";
  cut = [];
  staking_actions = [];
  timestamp = 0;
}

abbrev pub catch_up : BlockSummary → BftRoundState → BftRoundState
catch_up block bft = record bft {
  staking_updated_to = block.block_height;
  slot = (block.block_height + 1) % 2 ^ 64;
  view = 0;
  parent_hash = block.hash;
  current_proposal = empty_proposal block.block_height;
  timeout_state = record (bft.timeout_state) { requests = [] };
}

-- behind the update of the staking
abbrev pub follow_block : BlockSummary → BftRoundState → BftRoundState
follow_block block bft =
    if is_joining bft.state_tag
    then if ltb bft.staking_updated_to block.block_height then catch_up block bft else bft
    else bft

unfoldable pub handle_node_state_event : BlockSummary → Action Unit
handle_node_state_event block s =
    let (staking, r) =
      process_block (s.bft).staking block.staking_actions block.new_bounded_validators in
    let bft = record (s.bft) { staking = staking } in
    elim r [
      | err e ↦ (record s { bft = bft }, err (staking_error e))
      | ok _ ↦ (record s { bft = follow_block block bft }, ok tt)
    ]
