-- ===== src/Consensus/Moves/Messages.antt =====
-- Every run of the consensus, over all that it handles, is made of moves.
use mathlib.Core.Path.{subst}
use truth_seeker.Common.{
  Bool, false, if◌then◌else◌, true, sym, Result, ok, err, ℕ, ◌+◌, ◌%◌, ◌^◌, ◌≡◌, refl, String,
  Option, [], ltb, All, Result-cases, inl, inr,
}
use truth_seeker.Sdk.Types.{Bytes}
use truth_seeker.Staking.{process_block}
use truth_seeker.Consensus.Types.{
  Cut, Prepare, NetMessage, prepare, prepare_vote, confirm_ack, confirm, commit, timeout,
  timeout_certificate, validator_candidacy, sync_request, sync_reply, Consensus, ConsensusError,
  Env, broadcast, send_to,
}
use truth_seeker.Consensus.Actions.{Action, send}
use truth_seeker.Consensus.Rounds.{is_joining}
use truth_seeker.Consensus.Messages.{
  BlockSummary, Command, timeout_tick, start_new_slot, and_finish, handle_net_message,
  handle_command, catch_up, follow_block, handle_node_state_event,
}
use truth_seeker.Consensus.Follower.{finished, on_prepare}
use truth_seeker.Consensus.Moves.{
  Round, round_of, Moves, stays, Moves-IsCommitted, Stops, Ends, IsCommitted, Keeps,
}
use truth_seeker.Consensus.Moves.Runs.{bind-Keeps, pure-Keeps, send-Keeps}
use truth_seeker.Consensus.Moves.Advance.{on_validator_candidacy-Keeps}
use truth_seeker.Consensus.Moves.Leading.{
  start_round-Keeps, on_prepare_vote-Keeps, on_confirm_ack-Keeps,
}
use truth_seeker.Consensus.Moves.Timing.{
  on_timeout_certificate-Keeps, on_timeout-Keeps, on_timeout_tick-Keeps,
}
use truth_seeker.Consensus.Moves.Following.{on_prepare-Keeps}
use truth_seeker.Consensus.Moves.Confirming.{
  on_confirm-Keeps, on_commit-Keeps, on_sync_request-Keeps,
}

module _ (env : Env) where
  -- What happens at a node. A handler of a prepare message ends with a call of itself, which is a
  -- step of its own; and a request for a missing prepare message is sent to anyone.
  pub data Step : Consensus → Consensus → Type 0 where
    receives :
        (s : Consensus) (now : ℕ) (sender : Bytes) (m : NetMessage)
        → Step s (handle_net_message env now sender m s).0
    goes_on : (s : Consensus) (now : ℕ) (p : Prepare) → Step s (on_prepare env now p s).0
    fetches :
        (s : Consensus) (to : Bytes) (hash : String)
        → Step s (send (send_to to (sync_request hash)) s).0
    asks_all : (s : Consensus) (hash : String) → Step s (send (broadcast (sync_request hash)) s).0
    obeys :
        (s : Consensus) (now : ℕ) (answer : Option Cut) (c : Command)
        → Step s (handle_command env now answer c s).0
    processes : (s : Consensus) (b : BlockSummary) → Step s (handle_node_state_event b s).0

  pub data Reach (s : Consensus) : Consensus → Type 0 where
    here : Reach s s
    next : {t u : Consensus} → Reach s t → Step t u → Reach s u

  finish-Keeps : (now : ℕ) (m : Action Unit) → Keeps env m → Keeps env (and_finish env now m)
  finish-Keeps now m k = bind-Keeps env k (λ _. pure-Keeps env finished)

  pub handle_net_message-Keeps :
      (now : ℕ) (sender : Bytes) (m : NetMessage) → Keeps env (handle_net_message env now sender m)
  unfolding handle_net_message
  handle_net_message-Keeps now sender (prepare proposal ticket view) = on_prepare-Keeps env now _
  handle_net_message-Keeps now sender (prepare_vote v) =
      finish-Keeps now _ (on_prepare_vote-Keeps env v)
  handle_net_message-Keeps now sender (confirm qc hash) =
      finish-Keeps now _ (on_confirm-Keeps env now qc hash)
  handle_net_message-Keeps now sender (confirm_ack v) =
      finish-Keeps now _ (on_confirm_ack-Keeps env now v)
  handle_net_message-Keeps now sender (commit qc hash) =
      finish-Keeps now _ (on_commit-Keeps env now qc hash)
  handle_net_message-Keeps now sender (timeout signed kind) =
      finish-Keeps now _ (on_timeout-Keeps env now signed kind)
  handle_net_message-Keeps now sender (timeout_certificate qc kind slot view) =
      finish-Keeps now _ (on_timeout_certificate-Keeps env now qc kind slot view)
  handle_net_message-Keeps now sender (validator_candidacy c) =
      finish-Keeps now _ (on_validator_candidacy-Keeps env c)
  handle_net_message-Keeps now sender (sync_request hash) =
      finish-Keeps now _ (on_sync_request-Keeps env now sender hash)
  handle_net_message-Keeps now sender (sync_reply p) = on_prepare-Keeps env now p

  handle_command-Keeps :
      (now : ℕ) (answer : Option Cut) (c : Command) → Keeps env (handle_command env now answer c)
  unfolding handle_command
  handle_command-Keeps now answer timeout_tick = on_timeout_tick-Keeps env now
  handle_command-Keeps now answer (start_new_slot may_delay) =
      start_round-Keeps env now may_delay answer

  -- A run makes moves, or fails behind a commitment; or a node that joins takes the slot behind a
  -- block.
  pub data Follows (r : Round) : Round → Type 0 where
    by_moves : {t : Round} → Moves env r t → Follows r t
    by_failure : {t : Round} → Stops env r t → Follows r t
    by_block :
        (height : ℕ)
        → r.joining ≡ true
        → Follows r (record r { slot = (height + 1) % 2 ^ 64; view = 0 })

  Ends-Follows :
      {A : Type 0} {r : Round} (t : Round) (result : Result ConsensusError A)
      → Ends env r result t
      → Follows r t
  Ends-Follows t (ok _) m = by_moves m
  Ends-Follows t (err _) (inl m) = by_moves m
  Ends-Follows t (err _) (inr stop) = by_failure stop

  Keeps-Follows :
      {A : Type 0} {m : Action A}
      → Keeps env m
      → (s : Consensus) → Follows (round_of s) (round_of (m s).0)
  Keeps-Follows {m = m} k s = Ends-Follows _ (m s).1 (k.at s).reached

  catch_up-Follows :
      (b : BlockSummary) (s : Consensus) (joins new : Bool)
      → is_joining (s.bft).state_tag ≡ joins
      → Follows (round_of s) (
          round_of
            (record s { bft = if joins then if new then catch_up b s.bft else s.bft else s.bft }))
  catch_up-Follows b s true true h = by_block b.block_height h
  catch_up-Follows b s true false h = by_moves stays
  catch_up-Follows b s false new h = by_moves stays

  follow_block-Follows :
      (b : BlockSummary) (s : Consensus)
      → Follows (round_of s) (round_of (record s { bft = follow_block b s.bft }))
  follow_block-Follows b s =
      catch_up-Follows b s (is_joining (s.bft).state_tag)
        (ltb (s.bft).staking_updated_to b.block_height) refl

  handle_block-Follows :
      (b : BlockSummary) (s : Consensus)
      → Follows (round_of s) (round_of (handle_node_state_event b s).0)
  unfolding handle_node_state_event
  handle_block-Follows b s =
      let result = process_block (s.bft).staking b.staking_actions b.new_bounded_validators in
      elim (Result-cases result.1) [
        | inr (e, failed) ↦ rw (failed, handle_node_state_event) (by_moves stays)
        | inl (tt, done) ↦
            rw (done, handle_node_state_event)
              (follow_block-Follows b (record s { bft = record (s.bft) { staking = result.0 } }))
      ]

  Step-Follows : {s t : Consensus} → Step s t → Follows (round_of s) (round_of t)
  Step-Follows (receives s now sender m) = Keeps-Follows (handle_net_message-Keeps now sender m) s
  Step-Follows (goes_on s now p) = Keeps-Follows (on_prepare-Keeps env now p) s
  Step-Follows (fetches s to hash) =
      Keeps-Follows (send-Keeps env (send_to to (sync_request hash)) refl) s
  Step-Follows (asks_all s hash) =
      Keeps-Follows (send-Keeps env (broadcast (sync_request hash)) refl) s
  Step-Follows (obeys s now answer c) = Keeps-Follows (handle_command-Keeps now answer c) s
  Step-Follows (processes s b) = handle_block-Follows b s

  Follows-IsCommitted :
      {r t : Round}
      → Follows r t
      → All (IsCommitted env) r.commits
      → All (IsCommitted env) t.commits
  Follows-IsCommitted (by_moves m) hs = Moves-IsCommitted env m hs
  Follows-IsCommitted (by_failure {t} stop) hs =
      subst (λ (u : Round). All (IsCommitted env) u.commits) (sym stop.same)
        (stop.grounds, Moves-IsCommitted env stop.reached hs)
  Follows-IsCommitted (by_block height joins) hs = hs

  Reach-IsCommitted :
      {s t : Consensus}
      → Reach s t
      → All (IsCommitted env) (round_of s).commits
      → All (IsCommitted env) (round_of t).commits
  Reach-IsCommitted here hs = hs
  Reach-IsCommitted (next r st) hs = Follows-IsCommitted (Step-Follows st) (Reach-IsCommitted r hs)

  -- However long a node has run, every proposal that it has committed, if it had committed none at
  -- the start, was confirmed by a quorum of the validators that were bonded then; or it was passed
  -- over without a certificate, and then it bonded no one.
  pub reached-IsCommitted :
      (s t : Consensus)
      → (round_of s).commits ≡ []
      → Reach s t
      → All (IsCommitted env) (round_of t).commits
  reached-IsCommitted s t new r = Reach-IsCommitted r (rw new tt)
