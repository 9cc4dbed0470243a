-- ===== src/Consensus/Moves/Following.antt =====
-- What a follower does by role_follower.rs is made of moves.
use truth_seeker.Common.{
  ◌-◌, ◌≡◌, ◌∙◌, Bool, false, sym, if◌then◌else◌, ℕ, ◌+◌, ◌%◌, ◌^◌, true, Option, none, some, List,
  [], ◌∷◌, ◌==◌, string_eq, nat_eq, list_eq, not, ◌&&◌, ◌||◌, ltb, refl, arith, Bool-cases, inl,
  inr,
}
use truth_seeker.Common.Maps.{contains_key}
use truth_seeker.Sdk.Types.{Bytes}
use truth_seeker.Consensus.Types.{
  Env, AggregateSignature, ConsensusProposal, ConsensusStakingAction, bond_candidate,
  pay_fees_for_dadi, Candidacy, TcKind, Ticket, genesis, commit_qc, timeout_qc, forced_commit_qc,
  Prepare, Consensus, Cut,
}
use truth_seeker.Consensus.Actions.{Action, pure, gets, fail_if, ◌>>=◌}
use truth_seeker.Consensus.Rounds.{
  is_joining, is_part_of_consensus, current_slot_prepare_is_present, advance_round,
}
use truth_seeker.Consensus.Timeouts.{verify_tc}
use truth_seeker.Consensus.Follower.{
  Next, again, finished, current_proposal_changes_voting_power, empty_certificate,
  verify_new_validators_to_bond, verify_staking_actions, is_next, is_buffered_certificate,
  verify_and_process_commit_ticket, force_commit, process_tc, verify_and_process_tc_ticket,
  process_prepare_ticket, ends_joining, send_prepare_vote, accept_proposal, verify_proposal,
  buffer_future, process_prepare, on_prepare,
}
use truth_seeker.Consensus.Moves.{IsTimedOut, After, Keeps, round_of}
use truth_seeker.Consensus.Moves.Runs.{
  resume-After, quiet, at-After, bind-Keeps, if-After, if-Keeps, fail_if-Keeps, modify-Keeps,
  gets-Keeps, pure-Keeps, fail-Keeps, check-Keeps, send-Keeps,
}
use truth_seeker.Consensus.Moves.Calm.{bind_rest, fail_if-Calm}
use truth_seeker.Consensus.Moves.Advance.{
  advance_view-After, emit_here-After, without_certificate, commit_locally-Keeps,
  buffer_prepare-Keeps,
}
use truth_seeker.Consensus.Moves.Timing.{verify_tc-Calm, verify_tc-IsTimedOut}

module _ (env : Env) (now : ℕ) where
  bond-Keeps : (c : Candidacy) → Keeps env (verify_new_validators_to_bond env now c)
  unfolding verify_new_validators_to_bond
  bond-Keeps c =
      bind-Keeps env (check-Keeps env _)
        (λ _. bind-Keeps env (record { at = λ s. quiet env refl }) (λ _. send-Keeps env _ refl))

  actions-Keeps :
      (cut : Cut) (actions : List ConsensusStakingAction)
      → Keeps env (verify_staking_actions env now cut actions)
  unfolding verify_staking_actions
  actions-Keeps cut [] = pure-Keeps env _
  actions-Keeps cut (bond_candidate c ∷ actions) =
      bind-Keeps env (bond-Keeps c) (λ _. actions-Keeps cut actions)
  actions-Keeps cut (pay_fees_for_dadi lane_id size ∷ actions) =
      bind-Keeps env (check-Keeps env _) (λ _. actions-Keeps cut actions)

  commit_ticket-Keeps :
      (proposal : ConsensusProposal) (qc : AggregateSignature)
      → Keeps env (verify_and_process_commit_ticket env now proposal qc)
  unfolding verify_and_process_commit_ticket
  commit_ticket-Keeps proposal qc = record {
    at = λ s.
        if-After env (proposal.slot == (s.bft).slot || is_next env now proposal s.bft) _ _
          (if-After env (is_buffered_certificate env now qc s.bft) _ _ (quiet env refl) (
            if-After env (not (current_slot_prepare_is_present s.bft)) _ _
              (at-After env (bind-Keeps env (check-Keeps env _) (λ _. pure-Keeps env true)) s)
              (at-After env
                (bind-Keeps env (commit_locally-Keeps env now qc) (λ _. pure-Keeps env true)) s)))
          (quiet env refl);
  }

  -- A proposal that is committed without a certificate bonds no one.
  force_commit-Keeps : Keeps env (force_commit env now)
  unfolding force_commit gets fail_if ◌>>=◌
  force_commit-Keeps = record {
    at = λ s. elim (Bool-cases (current_proposal_changes_voting_power s.bft)) [
      | inl changes ↦ rw changes (quiet env refl)
      | inr same ↦ rw same (
          emit_here-After env now empty_certificate forced_commit_qc s (without_certificate env)
            (inr (refl, same)))
    ];
  }

  -- The certificate is for the view before the one of the message.
  view_before :
      (n v w : ℕ)
      → n ≡ (v + 1) % 2 ^ 64
      → w ≡ v
      → ((n + 2 ^ 64 - 1) % 2 ^ 64 + 1) % 2 ^ 64 ≡ (w + 1) % 2 ^ 64
  view_before n v w h same = omega arith

  enter_view-After :
      (view : ℕ) (qc : AggregateSignature) (kind : TcKind) (s s' : Consensus) (next : Bool)
      → (next ≡ true → view ≡ ((s.bft).view + 1) % 2 ^ 64)
      → (s'.bft).slot ≡ (s.bft).slot
      → (s'.bft).view ≡ (s.bft).view
      → IsTimedOut env (s.bft).slot ((view + 2 ^ 64 - 1) % 2 ^ 64)
      → After env
          (round_of s')
          ((if next then advance_round env now (timeout_qc qc kind) else pure tt) s')
  unfolding pure
  enter_view-After view qc kind s s' false h same_slot same_view passed = quiet env refl
  enter_view-After view qc kind s s' true h same_slot same_view passed =
      advance_view-After env now qc kind s' (s.bft).slot ((view + 2 ^ 64 - 1) % 2 ^ 64)
        (sym same_slot) (view_before view (s.bft).view (s'.bft).view (h refl) same_view) passed

  process_tc-Keeps :
      (proposal : ConsensusProposal) (view : ℕ) (qc : AggregateSignature) (kind : TcKind)
      → Keeps env (process_tc env now proposal view qc kind)
  unfolding process_tc ◌>>=◌
  process_tc-Keeps proposal view qc kind = record {
    at = λ s.
        bind_rest env _ _ s (fail_if-Calm env (not (proposal.slot == (s.bft).slot)) _)
          (λ _ s₁ slot₁ view₁ _.
            bind_rest env (verify_tc env now qc kind (s.bft).slot ((view + 2 ^ 64 - 1) % 2 ^ 64)) _
              s₁ (verify_tc-Calm env now qc kind _ _)
              (λ _ s₂ slot₂ view₂ passed.
                resume-After env _ _
                  (enter_view-After view qc kind s s₂ (view == ((s.bft).view + 1) % 2 ^ 64)
                    (λ same. ground arith) (slot₂ ∙ slot₁) (view₂ ∙ view₁)
                    (verify_tc-IsTimedOut env now qc kind _ _ s₁ s₂ passed))
                  (λ _. pure-Keeps env true)));
  }

  tc_ticket-Keeps :
      (qc : AggregateSignature) (kind : TcKind) (proposal : ConsensusProposal) (view : ℕ)
      → Keeps env (verify_and_process_tc_ticket env now qc kind proposal view)
  unfolding verify_and_process_tc_ticket
  tc_ticket-Keeps qc kind proposal view = record {
    at = λ s.
        if-After env (proposal.slot == (s.bft).slot || is_next env now proposal s.bft) _ _
          (at-After env
            (bind-Keeps env (fail_if-Keeps env _ _) (λ _.
              bind-Keeps env
                (if-Keeps env
                  (is_next env now proposal s.bft
                    && proposal.parent_hash == env.hashed (s.bft).current_proposal)
                  _ _ force_commit-Keeps (pure-Keeps env tt))
                (λ _. process_tc-Keeps proposal view qc kind)))
            s)
          (quiet env refl);
  }

  ticket-Keeps :
      (proposal : ConsensusProposal) (ticket : Ticket) (view : ℕ)
      → Keeps env (process_prepare_ticket env now proposal ticket view)
  unfolding process_prepare_ticket
  ticket-Keeps proposal genesis view =
      bind-Keeps env (gets-Keeps env _)
        (λ slot. bind-Keeps env (fail_if-Keeps env _ _) (λ _. pure-Keeps env true))
  ticket-Keeps proposal (commit_qc qc) view = commit_ticket-Keeps proposal qc
  ticket-Keeps proposal (timeout_qc qc kind) view = tc_ticket-Keeps qc kind proposal view
  ticket-Keeps proposal forced_commit_qc view = fail-Keeps env _

  send_prepare_vote-Keeps : (leader : Bytes) → Keeps env (send_prepare_vote env now leader)
  unfolding send_prepare_vote
  send_prepare_vote-Keeps leader = record {
    at = λ s.
        if-After env (is_part_of_consensus s.bft env.validator_pubkey) _ _
          (at-After env (send-Keeps env _ refl) s) (quiet env refl);
  }

  next-Keeps :
      (leader : Bytes) (next : Option Prepare)
      → Keeps env (elim next as (λ _. Action Next) [
        | some p ↦ pure (again p)
        | none ↦ (send_prepare_vote env now leader >>= λ _. pure finished)
      ])
  next-Keeps leader none = bind-Keeps env (send_prepare_vote-Keeps leader) (λ _. pure-Keeps env _)
  next-Keeps leader (some p) = pure-Keeps env _

  accept-Keeps : (leader : Bytes) (p : Prepare) → Keeps env (accept_proposal env now leader p)
  unfolding accept_proposal
  accept-Keeps leader (sender, proposal, ticket, view) =
      bind-Keeps env (modify-Keeps env _ (λ b. (refl, refl, inl refl))) (λ _.
        bind-Keeps env (buffer_prepare-Keeps env _)
          (λ _. bind-Keeps env (gets-Keeps env _) (λ next. next-Keeps leader next)))

  verify_proposal-Keeps : (p : Prepare) → Keeps env (verify_proposal env now p)
  unfolding verify_proposal
  verify_proposal-Keeps (sender, proposal, ticket, view) =
      bind-Keeps env (check-Keeps env _) (λ leader. bind-Keeps env (check-Keeps env _) (λ _.
        bind-Keeps env (actions-Keeps proposal.cut proposal.staking_actions) (λ _.
          bind-Keeps env (check-Keeps env _)
            (λ _. accept-Keeps leader (sender, proposal, ticket, view)))))

  buffer_future-Keeps : (p : Prepare) → Keeps env (buffer_future env now p)
  unfolding buffer_future
  buffer_future-Keeps (sender, proposal, ticket, view) = record {
    at = λ s.
        if-After env
          (contains_key ((s.bft).follower_state).buffered_prepares.prepares (env.hashed proposal)) _
          _ (quiet env refl)
          (at-After env (bind-Keeps env (buffer_prepare-Keeps env _) (λ _. pure-Keeps env _)) s);
  }

  process_prepare-Keeps : (p : Prepare) → Keeps env (process_prepare env now p)
  unfolding process_prepare
  process_prepare-Keeps (sender, proposal, ticket, view) = record {
    at = λ s. if-After env (ltb proposal.slot (s.bft).slot) _ _ (quiet env refl) (
        at-After env
          (bind-Keeps env (ticket-Keeps proposal ticket view) (λ processed.
            if-Keeps env processed _ _ (verify_proposal-Keeps (sender, proposal, ticket, view))
              (buffer_future-Keeps (sender, proposal, ticket, view))))
          s);
  }

  pub on_prepare-Keeps : (p : Prepare) → Keeps env (on_prepare env now p)
  unfolding on_prepare
  on_prepare-Keeps (sender, proposal, ticket, view) = record {
    at = λ s.
        if-After env (is_joining (s.bft).state_tag) _ _
          (if-After env (ends_joining env now proposal view s.bft) _ _
            (at-After env
              (bind-Keeps env (modify-Keeps env _ (λ b. (refl, refl, inr refl)))
                (λ _. process_prepare-Keeps (sender, proposal, ticket, view)))
              s)
            (at-After env (bind-Keeps env (buffer_prepare-Keeps env _) (λ _. pure-Keeps env _)) s))
          (at-After env (process_prepare-Keeps (sender, proposal, ticket, view)) s);
  }
