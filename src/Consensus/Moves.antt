-- ===== src/Consensus/Moves.antt =====
-- The abstract view of the consensus: the slot, the view, and the proposals that the node has
-- committed. Its moves are the specification that the handlers of consensus.rs and of the roles
-- implement.
pub mod Runs
pub mod Calm
pub mod Advance
pub mod Leading
pub mod Timing
pub mod Following
pub mod Confirming
pub mod Messages
use mathlib.Core.Path.{subst}
use truth_seeker.Common.{
  ℕ, ◌+◌, ◌*◌, ◌%◌, ◌^◌, ◌<◌, ◌≡◌, refl, sym, ap, ◌∙◌, ◌⊎◌, inl, inr, Bool, true, false, String,
  Option, none, some, List, [], ◌∷◌, nat_eq, list_eq, all, any, not, ltb, leb, if◌then◌else◌,
  Result, ok, err, Result-cases, Bool-cases, Option-cases, arith, All,
}
use truth_seeker.Sdk.Types.{Bytes}
use truth_seeker.Staking.{Staking, is_bonded, compute_f, compute_voting_power}
use truth_seeker.Consensus.Types.{
  AggregateSignature, ConsensusProposal, confirm_ack_marker, Message, vote, timeout_message,
  NetMessage, BftRoundState, Output, commit_proposal, broadcast, send_to, start_new_slot_command,
  connect_to, Consensus, ConsensusError, Env,
}
use truth_seeker.Consensus.Actions.{
  Action, pure, fail, gets, check, or_fail, fail_if, modify, send, resume, ◌>>=◌, ◌>>◌,
}
use truth_seeker.Consensus.Rounds.{verify_quorum_certificate, is_joining}
use truth_seeker.Consensus.Follower.{empty_certificate, is_bond}

abbrev pub Commit : Type 0
Commit = Staking × ConsensusProposal × AggregateSignature

pub record Round : Type 0 where
  pub slot : ℕ
  pub view : ℕ
  pub joining : Bool
  pub commits : List Commit

abbrev pub commits_of : List Output → List Commit
commits_of [] = []
commits_of (commit_proposal staking proposal qc ∷ os) = (staking, proposal, qc) ∷ commits_of os
commits_of (broadcast m ∷ os) = commits_of os
commits_of (send_to to m ∷ os) = commits_of os
commits_of (start_new_slot_command d ∷ os) = commits_of os
commits_of (connect_to p ∷ os) = commits_of os

abbrev pub round_of : Consensus → Round
round_of s = record {
  slot = (s.bft).slot;
  view = (s.bft).view;
  joining = is_joining (s.bft).state_tag;
  commits = commits_of s.sent;
}

module _ (env : Env) where
  -- Bonded validators with voting power more than 2f have signed.
  pub record IsQuorum (message : Message) (staking : Staking) (qc : AggregateSignature)
      : Type 0 where
    pub valid : env.verify_aggregate message qc ≡ some true
    pub bonded : all (is_bonded staking) qc.validators ≡ true
    pub power : 2 * compute_f staking < compute_voting_power staking qc.validators

  -- A quorum has confirmed the proposal; or the node was forced to follow, and the proposal bonds
  -- no one.
  abbrev pub IsCommitted : Commit → Type 0
  IsCommitted (staking, proposal, qc) =
      IsQuorum (vote (env.hashed proposal) confirm_ack_marker) staking qc
      ⊎ ((qc ≡ empty_certificate) × (any is_bond proposal.staking_actions ≡ false))

  -- A certificate for a timeout in the slot and the view: a quorum has signed it, or the node has
  -- made it of the timeouts of others.
  abbrev pub IsTimedOut : ℕ → ℕ → Type 0
  IsTimedOut slot view =
      (parent : String) × (qc : AggregateSignature) × (((staking : Staking) × IsQuorum
            (timeout_message slot view parent) staking qc)
        ⊎ ((signatures : List (Bytes × Bytes)) × (env.sign_aggregate
                (timeout_message slot view parent) signatures
              ≡ some qc)))

  abbrev pub with_commit : Commit → Round → Round
  with_commit c r = record r { commits = c ∷ r.commits }

  abbrev pub slot_after : Round → Round
  slot_after r = record r { slot = (r.slot + 1) % 2 ^ 64; view = 0 }

  abbrev pub view_after : Round → Round
  view_after r = record r { view = (r.view + 1) % 2 ^ 64 }

  abbrev pub joined_at : Staking → ConsensusProposal → AggregateSignature → Round → Round
  joined_at staking p qc r =
      slot_after
        (with_commit (staking, p, qc) (record r { slot = p.slot; view = 0; joining = false }))

  -- A node that does not join leaves its slot by one commitment, to the next slot, and its view by
  -- a certificate for a timeout in this slot and view, to the next view. A node that joins takes a
  -- later slot with a quorum's certificate for a proposal of that slot, and leaves it at once; or it
  -- ends joining where it is.
  pub data Move : Round → Round → Type 0 where
    leaves_slot :
        (r : Round) (c : Commit)
        → r.joining ≡ false
        → IsCommitted c
        → Move r (slot_after (with_commit c r))
    leaves_view :
        (r : Round) (view : ℕ)
        → r.joining ≡ false
        → (view + 1) % 2 ^ 64 ≡ (r.view + 1) % 2 ^ 64
        → IsTimedOut r.slot view
        → Move r (view_after r)
    joins_slot :
        (r : Round) (staking : Staking) (p : ConsensusProposal) (qc : AggregateSignature)
        → r.joining ≡ true
        → r.slot < p.slot
        → IsQuorum (vote (env.hashed p) confirm_ack_marker) staking qc
        → Move r (joined_at staking p qc r)
    settles : (r : Round) → Move r (record r { joining = false })

  pub data Moves (r : Round) : Round → Type 0 where
    stays : Moves r r
    moves : {t u : Round} → Moves r t → Move t u → Moves r u

  pub Moves-trans : {r t u : Round} → Moves r t → Moves t u → Moves r u
  Moves-trans a stays = a
  Moves-trans a (moves b c) = moves (Moves-trans a b) c

  pub same-Moves : {r t : Round} → t ≡ r → Moves r t
  same-Moves {r} e = rw e stays

  pub one-Moves : {r t : Round} → Move r t → Moves r t
  one-Moves m = moves stays m

  Move-IsCommitted :
      {r t : Round} → Move r t → All IsCommitted r.commits → All IsCommitted t.commits
  Move-IsCommitted (leaves_slot r c settled h) hs = (h, hs)
  Move-IsCommitted (leaves_view r view settled h h') hs = hs
  Move-IsCommitted (joins_slot r staking p qc joins h h') hs = (inl h', hs)
  Move-IsCommitted (settles r) hs = hs

  -- Moves commit nothing without grounds.
  pub Moves-IsCommitted :
      {r t : Round} → Moves r t → All IsCommitted r.commits → All IsCommitted t.commits
  Moves-IsCommitted stays hs = hs
  Moves-IsCommitted (moves b m) hs = Move-IsCommitted m (Moves-IsCommitted b hs)

  -- The end of a run that fails between a commitment and the passage to the next slot: at a node
  -- that joins.
  pub record Stops (r t : Round) : Type 0 where
    pub before : Round
    pub joins : before.joining ≡ true
    pub last : Commit
    pub grounds : IsCommitted last
    pub reached : Moves r before
    pub same : t ≡ with_commit last before

  abbrev pub Ends : {A : Type 0} → Round → Result ConsensusError A → Round → Type 0
  Ends r (ok _) t = Moves r t
  Ends r (err _) t = Moves r t ⊎ Stops r t

  pub Moves-Ends :
      {A : Type 0} {r t : Round} (result : Result ConsensusError A) → Moves r t → Ends r result t
  Moves-Ends (ok _) m = m
  Moves-Ends (err _) m = inl m

  pub Ends-trans :
      {A : Type 0} {r t : Round} (u : Round) (result : Result ConsensusError A)
      → Moves r t
      → Ends t result u
      → Ends r result u
  Ends-trans u (ok _) m k = Moves-trans m k
  Ends-trans u (err _) m (inl k) = inl (Moves-trans m k)
  Ends-trans u (err _) m (inr k) = inr (record {
    before = k.before;
    joins = k.joins;
    last = k.last;
    grounds = k.grounds;
    reached = Moves-trans m k.reached;
    same = k.same;
  })

  -- The state that a run has led to is reached by moves; a run that fails may have made a
  -- commitment after them.
  pub record After {A : Type 0} (r : Round) (x : Consensus × Result ConsensusError A) : Type 0 where
    pub reached : Ends r x.1 (round_of x.0)

  pub record Keeps {A : Type 0} (m : Action A) : Type 0 where
    pub at : (s : Consensus) → After (round_of s) (m s)
