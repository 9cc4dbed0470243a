-- ===== src/Consensus/Moves/Advance.antt =====
-- The passage from round to round of consensus.rs is made of moves.
use mathlib.Core.Path.{subst}
use truth_seeker.Common.{
  ◌+◌, ◌%◌, ◌^◌, true, false, sym, ◌∷◌, ◌==◌, Bool-cases, ◌⊎◌, ℕ, ◌≡◌, refl, Option, none, some,
  list_eq, nat_eq, Result, ok, Result-cases, inl, inr, Option-cases,
}
use truth_seeker.Common.Maps.{get}
use truth_seeker.Sdk.Types.{Bytes}
use truth_seeker.Staking.{Staking, get_stake}
use truth_seeker.Consensus.Types.{
  AggregateSignature, TcKind, commit_proposal, Candidacy, Ticket, commit_qc, timeout_qc,
  forced_commit_qc, BftRoundState, ConsensusError, Consensus, Env, Prepare,
}
use truth_seeker.Consensus.Actions.{Action, check, gets, fail_if, fail, pure, modify, send, ◌>>=◌}
use truth_seeker.Consensus.Rounds.{
  on_staking, apply_actions, distribute_fees, commit_round, is_joining, reset, take_actions,
  next_slot, process_ticket, take_role, apply_ticket, send_candidacy, begin_round, advance_round,
  emit_commit_event, verify_commit, on_validator_candidacy, buffer_prepare,
}
use truth_seeker.Consensus.Leader.{commit_locally}
use truth_seeker.Consensus.Moves.{
  Round, Commit, Move, Moves, stays, Stops, leaves_slot, leaves_view, slot_after, with_commit,
  IsTimedOut, one-Moves, After, Keeps, round_of, IsCommitted,
}
use truth_seeker.Consensus.Moves.Runs.{
  moved-After, resume-After, quiet, bind-Keeps, if-After, modify-Keeps, check-Keeps, Stays,
  verify-IsQuorum,
}

module _ (env : Env) where
  on_staking-Keeps :
      (f : Staking → Staking × Result ConsensusError Unit) → Keeps env (on_staking env f)
  on_staking-Keeps f = record { at = λ s. quiet env refl }

  -- What follows the passage to the next slot.
  rest-Keeps : Keeps env (
      take_actions env >>= λ actions.
      on_staking env (apply_actions env actions) >>= λ _. on_staking env (distribute_fees env))
  rest-Keeps =
      bind-Keeps env (record { at = λ s. quiet env refl })
        (λ actions.
          bind-Keeps env (on_staking-Keeps (apply_actions env actions))
            (λ _. on_staking-Keeps (distribute_fees env)))

  -- The passage to the next slot, at the end of a move.
  commit_round-After :
      (r : Round) (s : Consensus) (qc : Option AggregateSignature)
      → Move env r (slot_after env (round_of s))
      → After env r (commit_round env qc s)
  unfolding commit_round modify ◌>>=◌
  commit_round-After r s qc m =
      moved-After env (one-Moves env m) (rest-Keeps.at (record s { bft = next_slot env qc s.bft }))

  take_role-Stays : (now : ℕ) (next : Bytes) → Stays env (take_role env now next)
  unfolding take_role
  take_role-Stays now next b = elim (Bool-cases (next == env.validator_pubkey)) [
    | inl mine ↦ rw (mine, take_role) (refl, refl, inr refl)
    | inr other ↦ rw (other, take_role) (refl, refl, inr refl)
  ]

  -- A node that joins does not advance; another one does what the ticket says.
  apply_ticket-After :
      (r : Round) (now : ℕ) (ticket : Ticket) (s : Consensus)
      → (is_joining (s.bft).state_tag ≡ true → Moves env r (round_of s) ⊎ Stops env r (round_of s))
      → (is_joining (s.bft).state_tag ≡ false
          → After env r (process_ticket env ticket (record s { bft = reset env s.bft })))
      → After env r (apply_ticket env now ticket s)
  unfolding apply_ticket gets fail_if fail pure modify ◌>>=◌
  apply_ticket-After r now ticket s stop go = elim (Bool-cases (is_joining (s.bft).state_tag)) [
    | inl joins ↦ rw joins (record { reached = stop joins })
    | inr settled ↦ rw settled (
        resume-After env (process_ticket env ticket (record s { bft = reset env s.bft })) _
          (go settled)
          (λ _.
            bind-Keeps env (check-Keeps env _)
              (λ next. modify-Keeps env _ (take_role-Stays now next))))
  ]

  begin_round-Keeps : (ticket : Ticket) → Keeps env (begin_round env ticket)
  unfolding begin_round send_candidacy get ◌>>=◌ get_stake modify send
  begin_round-Keeps ticket = record { at = λ s. search (if-After env, quiet env) }

  advance_round-After :
      (r : Round) (now : ℕ) (ticket : Ticket) (s : Consensus)
      → (is_joining (s.bft).state_tag ≡ true → Moves env r (round_of s) ⊎ Stops env r (round_of s))
      → (is_joining (s.bft).state_tag ≡ false
          → After env r (process_ticket env ticket (record s { bft = reset env s.bft })))
      → After env r (advance_round env now ticket s)
  unfolding advance_round ◌>>=◌
  advance_round-After r now ticket s stop go =
      resume-After env (apply_ticket env now ticket s) _ (apply_ticket-After r now ticket s stop go)
        (λ _. begin_round-Keeps ticket)

  -- With a certificate for a timeout in the view, the node goes to the next one.
  pub advance_view-After :
      (now : ℕ) (qc : AggregateSignature) (kind : TcKind) (s : Consensus) (slot view : ℕ)
      → slot ≡ (s.bft).slot
      → (view + 1) % 2 ^ 64 ≡ ((s.bft).view + 1) % 2 ^ 64
      → IsTimedOut env slot view
      → After env (round_of s) (advance_round env now (timeout_qc qc kind) s)
  unfolding process_ticket modify
  advance_view-After now qc kind s slot view here same grounds =
      advance_round-After (round_of s) now (timeout_qc qc kind) s (λ _. inl stays)
        (λ settled. record {
          reached = one-Moves env (
              leaves_view (round_of s) view settled same
                (subst (λ n. IsTimedOut env n view) here grounds));
        })

  -- The ticket takes the node to the next slot.
  abbrev pub IsCommitTicket : Ticket → Type 0
  IsCommitTicket ticket =
      (qc : Option AggregateSignature) × (process_ticket env ticket ≡ commit_round env qc)

  pub with_certificate : (qc : AggregateSignature) → IsCommitTicket (commit_qc qc)
  unfolding process_ticket
  with_certificate qc = (some qc, refl)

  pub without_certificate : IsCommitTicket forced_commit_qc
  unfolding process_ticket
  without_certificate = (none, refl)

  -- A commitment, and the passage to the next slot.
  pub emit-After :
      (r : Round) (now : ℕ) (qc : AggregateSignature) (ticket : Ticket) (s : Consensus)
      → IsCommitTicket ticket
      → let t = with_commit env ((s.bft).staking, (s.bft).current_proposal, qc) (round_of s) in
        (is_joining (s.bft).state_tag ≡ true → Stops env r t)
        → (is_joining (s.bft).state_tag ≡ false → Move env r (slot_after env t))
        → After env r ((emit_commit_event env qc >>= λ _. advance_round env now ticket) s)
  unfolding emit_commit_event send ◌>>=◌
  emit-After r now qc ticket s (q, commits) stop go =
      let sent : Consensus = record s {
        sent = commit_proposal (s.bft).staking (s.bft).current_proposal qc ∷ s.sent;
      } in
      advance_round-After r now ticket sent (λ joins. inr (stop joins))
        (λ settled.
          subst (λ (m : Action Unit). After env r (m (record sent { bft = reset env s.bft })))
            (sym commits)
            (commit_round-After r (record sent { bft = reset env s.bft }) q (go settled)))

  -- A commitment whose grounds are known, where the node is.
  pub emit_here-After :
      (now : ℕ) (qc : AggregateSignature) (ticket : Ticket) (s : Consensus)
      → IsCommitTicket ticket
      → IsCommitted env ((s.bft).staking, (s.bft).current_proposal, qc)
      → After env (round_of s) ((emit_commit_event env qc >>= λ _. advance_round env now ticket) s)
  emit_here-After now qc ticket s commits grounds =
      let c : Commit = ((s.bft).staking, (s.bft).current_proposal, qc) in
      emit-After (round_of s) now qc ticket s commits
        (λ joins. record {
          before = round_of s;
          joins = joins;
          last = c;
          grounds = grounds;
          reached = stays;
          same = refl;
        })
        (λ settled. leaves_slot (round_of s) c settled grounds)

  -- What follows a check may rest on it.
  pub check-After :
      {A B : Type 0} (f : BftRoundState → Result ConsensusError A) (k : A → Action B)
      (s : Consensus)
      → ((a : A) → f s.bft ≡ ok a → After env (round_of s) (k a s))
      → After env (round_of s) ((check f >>= k) s)
  unfolding check ◌>>=◌
  check-After f k s h = elim (Result-cases (f s.bft)) [
    | inl (a, good) ↦ rw good (h a good)
    | inr (e, bad) ↦ rw bad (quiet env refl)
  ]

  -- A commitment behind a certificate that passes is grounded.
  pub commit_locally-Keeps :
      (now : ℕ) (qc : AggregateSignature) → Keeps env (commit_locally env now qc)
  unfolding commit_locally
  commit_locally-Keeps now qc = record {
    at = λ s. check-After (verify_commit env qc) _ s (λ _ passed.
        emit_here-After now qc (commit_qc qc) s (with_certificate qc)
          (inl (verify-IsQuorum env _ qc s.bft passed)));
  }

  pub on_validator_candidacy-Keeps : (c : Candidacy) → Keeps env (on_validator_candidacy env c)
  unfolding on_validator_candidacy
  on_validator_candidacy-Keeps c = record {
    at = λ s. elim (Option-cases (get_stake (s.bft).staking c.validator)) [
      | inl unknown ↦ rw unknown (search (if-After env, quiet env))
      | inr (stake, known) ↦ rw known (search (if-After env, quiet env))
    ];
  }

  pub buffer_prepare-Keeps : (p : Prepare) → Keeps env (buffer_prepare env p)
  buffer_prepare-Keeps p = modify-Keeps env _ (λ b. (refl, refl, inl refl))
