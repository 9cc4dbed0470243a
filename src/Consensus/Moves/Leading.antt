-- ===== src/Consensus/Moves/Leading.antt =====
-- What the leader does by role_leader.rs is made of moves.
use truth_seeker.Common.{
  inl, ℕ, Bool, false, String, Option, none, some, List, ◌==◌, string_eq, not, refl, any, push,
  if◌then◌else◌,
}
use truth_seeker.Consensus.Types.{
  Env, Vote, Ticket, Cut, start_new_slot_command, vote_beq, await_votes, await_acks,
}
use truth_seeker.Consensus.Actions.{pure, check, modify, ◌>>=◌}
use truth_seeker.Consensus.Rounds.{is_leader}
use truth_seeker.Consensus.Leader.{
  propose, open_round, choose_cut, start_round, set_prepare_votes, set_confirm_acks, has_quorum,
  send_confirm, on_prepare_vote, send_commit, on_confirm_ack, insert_vote, is_step,
}
use truth_seeker.Consensus.Moves.{Keeps}
use truth_seeker.Consensus.Moves.Runs.{
  quiet, at-After, bind-Keeps, if-After, if-Keeps, fail_if-Keeps, or_fail-Keeps, modify-Keeps,
  gets-Keeps, pure-Keeps, check-Keeps, send-Keeps,
}
use truth_seeker.Consensus.Moves.Advance.{commit_locally-Keeps, buffer_prepare-Keeps}

module _ (env : Env) where
  propose-Keeps : (timestamp : ℕ) (cut : Cut) → Keeps env (propose env timestamp cut)
  unfolding propose
  propose-Keeps timestamp cut = record { at = λ s. quiet env refl }

  open_round-Keeps : (ticket : Ticket) → Keeps env (open_round env ticket)
  unfolding open_round
  open_round-Keeps ticket = record {
    at = λ s.
        at-After env
          (bind-Keeps env (modify-Keeps env _ (λ b. (refl, refl, inl refl)))
            (λ _. bind-Keeps env (buffer_prepare-Keeps env _) (λ _. send-Keeps env _ refl)))
          s;
  }

  choose_cut-Keeps :
      (timestamp : ℕ) (may_delay : Bool) (ticket : Ticket) (answer : Option Cut)
      → Keeps env (choose_cut env timestamp may_delay ticket answer)
  unfolding choose_cut
  choose_cut-Keeps timestamp may_delay ticket none = record {
    at = λ s.
        at-After env (bind-Keeps env (propose-Keeps timestamp _) (λ _. open_round-Keeps ticket)) s;
  }
  choose_cut-Keeps timestamp may_delay ticket (some cut) =
      let delays =
        bind-Keeps env (modify-Keeps env _ (λ b. (refl, refl, inl refl)))
          (λ _. send-Keeps env (start_new_slot_command false) refl) in
      let opens = bind-Keeps env (propose-Keeps timestamp cut) (λ _. open_round-Keeps ticket) in
      record { at = λ s. if-After env _ _ _ (at-After env delays s) (at-After env opens s) }

  pub start_round-Keeps :
      (timestamp : ℕ) (may_delay : Bool) (answer : Option Cut)
      → Keeps env (start_round env timestamp may_delay answer)
  unfolding start_round
  start_round-Keeps timestamp may_delay answer = bind-Keeps env (gets-Keeps env _) (λ bft.
      bind-Keeps env (fail_if-Keeps env _ _) (λ _. bind-Keeps env (fail_if-Keeps env _ _) (λ _.
        bind-Keeps env (record { at = λ s. quiet env refl })
          (λ ticket.
            if-Keeps env _ _ _ (open_round-Keeps ticket)
              (choose_cut-Keeps timestamp may_delay ticket answer)))))

  send_confirm-Keeps : (votes : List Vote) → Keeps env (send_confirm env votes)
  unfolding send_confirm
  send_confirm-Keeps votes = record {
    at = λ s.
        at-After env
          (bind-Keeps env (or_fail-Keeps env _ _) (λ qc.
            bind-Keeps env (modify-Keeps env _ (λ b. (refl, refl, inl refl)))
              (λ _. send-Keeps env _ refl)))
          s;
  }

  -- The votes are saved, and a quorum of them is passed on.
  votes-Keeps :
      (votes : List Vote)
      → Keeps env (
          modify (set_prepare_votes env votes) >>= λ _. check (has_quorum env votes) >>= λ quorum.
          if quorum then send_confirm env votes else pure tt)
  votes-Keeps votes = bind-Keeps env (modify-Keeps env _ (λ b. (refl, refl, inl refl))) (λ _.
      bind-Keeps env (check-Keeps env _)
        (λ quorum. if-Keeps env quorum _ _ (send_confirm-Keeps votes) (pure-Keeps env tt)))

  pub on_prepare_vote-Keeps : (v : Vote) → Keeps env (on_prepare_vote env v)
  unfolding on_prepare_vote
  on_prepare_vote-Keeps v = record {
    at = λ s.
        let votes = votes-Keeps (insert_vote v ((s.bft).leader_state).prepare_votes) in
        if-After env (not (is_leader (s.bft).state_tag)) _ _ (quiet env refl) (
          if-After env (not (is_step ((s.bft).leader_state).step await_votes)) _ _ (quiet env refl)
            (if-After env (not (v.proposal_hash == env.hashed (s.bft).current_proposal)) _ _
              (quiet env refl) (at-After env votes s)));
  }

  send_commit-Keeps :
      (now : ℕ) (hash : String) (votes : List Vote) → Keeps env (send_commit env now hash votes)
  unfolding send_commit
  send_commit-Keeps now hash votes = record {
    at = λ s.
        at-After env
          (bind-Keeps env (or_fail-Keeps env _ _)
            (λ qc. bind-Keeps env (send-Keeps env _ refl) (λ _. commit_locally-Keeps env now qc)))
          s;
  }

  acks-Keeps :
      (now : ℕ) (hash : String) (votes : List Vote)
      → Keeps env (
          modify (set_confirm_acks env votes) >>= λ _. check (has_quorum env votes) >>= λ quorum.
          if quorum then send_commit env now hash votes else pure tt)
  acks-Keeps now hash votes =
      bind-Keeps env (modify-Keeps env _ (λ b. (refl, refl, inl refl))) (λ _.
        bind-Keeps env (check-Keeps env _) (λ quorum.
          if-Keeps env quorum _ _ (send_commit-Keeps now hash votes) (pure-Keeps env tt)))

  pub on_confirm_ack-Keeps : (now : ℕ) (v : Vote) → Keeps env (on_confirm_ack env now v)
  unfolding on_confirm_ack
  on_confirm_ack-Keeps now v = record {
    at = λ s.
        let acks = acks-Keeps now v.proposal_hash (push ((s.bft).leader_state).confirm_acks v) in
        if-After env (not (is_leader (s.bft).state_tag)) _ _ (quiet env refl) (
          if-After env (not (is_step ((s.bft).leader_state).step await_acks)) _ _ (quiet env refl) (
            if-After env (not (v.proposal_hash == env.hashed (s.bft).current_proposal)) _ _
              (quiet env refl)
              (if-After env (any (vote_beq v) ((s.bft).leader_state).confirm_acks) _ _
                (quiet env refl) (at-After env acks s))));
  }
