-- ===== src/Consensus/Types.antt =====
-- The data of manual_Scaffold/hyli/src/consensus.rs, consensus/network.rs and the roles, and of
-- hyle-model/src/node/consensus.rs. Slots and views are `u64`, timestamps are in milliseconds, and a
-- `HashSet` of messages is a list in which each message stands once. The markers of certificates and
-- votes are a part of the message that is signed.
use truth_seeker.Common.{
  ℕ, Bool, true, false, String, Option, List, [], ◌∷◌, ◌==◌, string_eq, nat_eq, list_eq, ◌&&◌,
}
use truth_seeker.Common.Maps.{Map}
use truth_seeker.Sdk.Types.{Bytes}
use truth_seeker.Staking.{Staking, StakingError}

pub record AggregateSignature : Type 0 where
  pub signature : Bytes
  pub validators : List Bytes

pub record CutEntry : Type 0 where
  pub lane_id : Bytes
  pub data_proposal_hash : String
  pub lane_size : ℕ
  pub poda : AggregateSignature

abbrev pub Cut : Type 0
Cut = List CutEntry

pub record Candidacy : Type 0 where
  pub peer_address : String
  pub validator : Bytes
  pub signature : Bytes

pub data ConsensusStakingAction : Type 0 where
  bond_candidate : Candidacy → ConsensusStakingAction
  pay_fees_for_dadi : Bytes → ℕ → ConsensusStakingAction

pub record ConsensusProposal : Type 0 where
  pub slot : ℕ
  pub parent_hash : String
  pub cut : Cut
  pub staking_actions : List ConsensusStakingAction
  pub timestamp : ℕ

pub data TcKind : Type 0 where
  nil_proposal : TcKind
  prepare_qc : AggregateSignature → ConsensusProposal → TcKind

pub data Ticket : Type 0 where
  genesis : Ticket
  commit_qc : AggregateSignature → Ticket
  timeout_qc : AggregateSignature → TcKind → Ticket
  forced_commit_qc : Ticket

pub data Marker : Type 0 where
  prepare_vote_marker confirm_ack_marker : Marker

-- What validators sign.
pub data Message : Type 0 where
  vote : String → Marker → Message
  timeout_message : ℕ → ℕ → String → Message
  data_proposal : String → ℕ → Message

-- A `PrepareVote` or a `ConfirmAck`.
pub record Vote : Type 0 where
  pub proposal_hash : String
  pub validator : Bytes
  pub signature : Bytes

pub record SignedTimeout : Type 0 where
  pub slot : ℕ
  pub view : ℕ
  pub parent_hash : String
  pub validator : Bytes
  pub signature : Bytes

pub data TimeoutKind : Type 0 where
  nil_timeout : SignedTimeout → TimeoutKind
  prepare_timeout : AggregateSignature → ConsensusProposal → TimeoutKind

abbrev pub Prepare : Type 0
Prepare = Bytes × ConsensusProposal × Ticket × ℕ

pub data NetMessage : Type 0 where
  prepare : ConsensusProposal → Ticket → ℕ → NetMessage
  prepare_vote confirm_ack : Vote → NetMessage
  confirm commit : AggregateSignature → String → NetMessage
  timeout : SignedTimeout → TimeoutKind → NetMessage
  timeout_certificate : AggregateSignature → TcKind → ℕ → ℕ → NetMessage
  validator_candidacy : Candidacy → NetMessage
  sync_request : String → NetMessage
  sync_reply : Prepare → NetMessage

pub data StateTag : Type 0 where
  joining leader follower : StateTag

pub data Step : Type 0 where
  start_new_slot await_votes await_acks : Step

pub record LeaderState : Type 0 where
  pub step : Step
  pub prepare_votes : List Vote
  pub confirm_acks : List Vote
  pub pending_ticket : Option Ticket

pub record BufferedPrepares : Type 0 where
  pub prepares : Map String Prepare
  pub children : Map String String

pub record FollowerState : Type 0 where
  pub buffered_quorum_certificate : Option AggregateSignature
  pub buffered_prepares : BufferedPrepares

pub data TimeoutState : Type 0 where
  inactive : TimeoutState
  scheduled : ℕ → TimeoutState
  certificate_emitted : TimeoutState

pub record TimeoutRoleState : Type 0 where
  pub requests : List (SignedTimeout × TimeoutKind)
  pub state : TimeoutState
  pub highest_seen_prepare_qc : Option (ℕ × AggregateSignature)

pub record BftRoundState : Type 0 where
  pub staking : Staking
  pub slot : ℕ
  pub view : ℕ
  pub parent_hash : String
  pub parent_timestamp : ℕ
  pub parent_cut : Cut
  pub current_proposal : ConsensusProposal
  pub leader_state : LeaderState
  pub follower_state : FollowerState
  pub timeout_state : TimeoutRoleState
  pub staking_updated_to : ℕ
  pub state_tag : StateTag

-- What the consensus sends on the bus.
pub data Output : Type 0 where
  broadcast : NetMessage → Output
  send_to : Bytes → NetMessage → Output
  commit_proposal : Staking → ConsensusProposal → AggregateSignature → Output
  start_new_slot_command : Bool → Output
  connect_to : String → Output

-- The `ConsensusStore`, and what has been sent so far, the last one first.
pub record Consensus : Type 0 where
  pub bft : BftRoundState
  pub validator_candidates : List Candidacy
  pub sent : List Output

pub data ConsensusError : Type 0 where
  no_validators not_synchronized genesis_not_accepted not_in_registry : ConsensusError
  staking_error : StakingError → ConsensusError
  invalid_certificate not_verifiable non_consensus_validators not_enough_power : ConsensusError
  wrong_step not_leader no_ticket wrong_hash no_aggregate : ConsensusError
  lane_missing unknown_lane smaller_data_proposal not_enough_signers invalid_poda : ConsensusError
  timestamp_too_old timestamp_too_late : ConsensusError
  malformed_fees not_staking invalid_signature : ConsensusError
  genesis_ticket invalid_ticket wrong_slot wrong_view wrong_leader : ConsensusError
  proposal_mismatch changes_voting_power not_current_slot : ConsensusError
  wrong_certificate_slot not_all_nil : ConsensusError

pub data TimestampCheck : Type 0 where
  full monotonic no_check : TimestampCheck

-- The keys of the node with BLS signatures, the hash of proposals, the clock and the configuration.
-- `verify_aggregate` and `verify_candidacy` are `none` on an error, and so is `sign_aggregate`.
pub record Env : Type 0 where
  pub validator_pubkey : Bytes
  pub hashed : ConsensusProposal → String
  pub sign : Message → Bytes
  pub sign_aggregate : Message → List (Bytes × Bytes) → Option AggregateSignature
  pub verify_aggregate : Message → AggregateSignature → Option Bool
  pub verify_candidacy : Candidacy → Option Bool
  pub sign_candidacy : Candidacy
  pub slot_duration : ℕ
  pub timestamp_checks : TimestampCheck

abbrev pub signature_beq : AggregateSignature → AggregateSignature → Bool
signature_beq a b = a.signature == b.signature && a.validators == b.validators

abbrev pub entry_beq : CutEntry → CutEntry → Bool
entry_beq a b =
    a.lane_id == b.lane_id
    && a.data_proposal_hash == b.data_proposal_hash
    && a.lane_size == b.lane_size
    && signature_beq a.poda b.poda

abbrev pub cut_beq : Cut → Cut → Bool
cut_beq [] [] = true
cut_beq [] (b ∷ bs) = false
cut_beq (a ∷ es) [] = false
cut_beq (a ∷ es) (b ∷ bs) = entry_beq a b && cut_beq es bs

abbrev pub candidacy_beq : Candidacy → Candidacy → Bool
candidacy_beq a b =
    a.peer_address == b.peer_address && a.validator == b.validator && a.signature == b.signature

abbrev pub action_beq : ConsensusStakingAction → ConsensusStakingAction → Bool
action_beq (bond_candidate a) (bond_candidate b) = candidacy_beq a b
action_beq (bond_candidate a) (pay_fees_for_dadi l n) = false
action_beq (pay_fees_for_dadi l n) (bond_candidate b) = false
action_beq (pay_fees_for_dadi l n) (pay_fees_for_dadi k m) = l == k && n == m

abbrev pub actions_beq : List ConsensusStakingAction → List ConsensusStakingAction → Bool
actions_beq [] [] = true
actions_beq [] (b ∷ bs) = false
actions_beq (a ∷ es) [] = false
actions_beq (a ∷ es) (b ∷ bs) = action_beq a b && actions_beq es bs

abbrev pub proposal_beq : ConsensusProposal → ConsensusProposal → Bool
proposal_beq a b =
    a.slot == b.slot
    && a.parent_hash == b.parent_hash
    && cut_beq a.cut b.cut
    && actions_beq a.staking_actions b.staking_actions
    && a.timestamp == b.timestamp

abbrev pub vote_beq : Vote → Vote → Bool
vote_beq a b =
    a.proposal_hash == b.proposal_hash && a.validator == b.validator && a.signature == b.signature

abbrev pub signed_timeout_beq : SignedTimeout → SignedTimeout → Bool
signed_timeout_beq a b =
    a.slot == b.slot
    && a.view == b.view
    && a.parent_hash == b.parent_hash
    && a.validator == b.validator
    && a.signature == b.signature

abbrev pub kind_beq : TimeoutKind → TimeoutKind → Bool
kind_beq (nil_timeout a) (nil_timeout b) = signed_timeout_beq a b
kind_beq (nil_timeout a) (prepare_timeout q p) = false
kind_beq (prepare_timeout q p) (nil_timeout b) = false
kind_beq (prepare_timeout q p) (prepare_timeout r o) = signature_beq q r && proposal_beq p o
