-- ===== src/Consensus/Moves/Timing.antt =====
-- What a node does on timeouts by role_timeout.rs is made of moves.
use truth_seeker.Common.{
  ◌+◌, ◌%◌, ◌^◌, ◌≡◌, Bool, true, false, ap, Result, ok, inl, inr, Bool-cases, Option-cases, ℕ,
  ◌==◌, string_eq, nat_eq, list_eq, not, ◌||◌, ltb, refl, any, if◌then◌else◌, arith,
}
use truth_seeker.Sdk.Types.{Bytes}
use truth_seeker.Consensus.Types.{
  Env, AggregateSignature, ConsensusProposal, TcKind, nil_proposal, prepare_qc, timeout_qc,
  timeout_message, BftRoundState, Consensus, ConsensusError, SignedTimeout, TimeoutKind,
  nil_timeout, prepare_timeout,
}
use truth_seeker.Consensus.Actions.{check, modify, ◌>>=◌}
use truth_seeker.Consensus.Rounds.{
  is_joining, advance_round, is_part_of_consensus, schedule, next_view_leader,
}
use truth_seeker.Consensus.Timeouts.{
  Request, request_beq, update_highest_seen_prepare_qc, adopt, verify_tc, verify_timeout,
  create_certificate, highest_of, nil_signatures, request_signatures, is_before,
  on_timeout_certificate, timeout_of, join_mutiny, announce, emit_certificate, count_timeouts,
  process_kind, add_request, on_timeout, is_due, on_timeout_tick, leave_joining,
}
use truth_seeker.Consensus.Moves.{After, IsTimedOut, round_of, Keeps}
use truth_seeker.Consensus.Moves.Runs.{
  test-After, check_passed, verify-IsQuorum, Stays, quiet, at-After, bind-Keeps, if-After, if-Keeps,
  modify-Keeps, gets-Keeps, pure-Keeps, fail-Keeps, check-Keeps, send-Keeps,
}
use truth_seeker.Consensus.Moves.Calm.{
  Calm, bind_rest, check-Calm, modify-Calm, send-Calm, fail_if-Calm, bind-Calm, if-Calm,
}
use truth_seeker.Consensus.Moves.Advance.{advance_view-After}

module _ (env : Env) (now : ℕ) where
  adopt-Stays :
      (slot : ℕ) (qc : AggregateSignature) (cp : ConsensusProposal) → Stays env (adopt slot qc cp)
  unfolding adopt update_highest_seen_prepare_qc
  adopt-Stays slot qc cp b = (ground arith, ground arith, inl (ground arith))

  pub verify_tc-Calm :
      (certificate : AggregateSignature) (kind : TcKind) (slot view : ℕ)
      → Calm env (verify_tc env now certificate kind slot view)
  unfolding verify_tc
  verify_tc-Calm certificate nil_proposal slot view = check-Calm env _
  verify_tc-Calm certificate (prepare_qc qc cp) slot view =
      bind-Calm env _ _ (check-Calm env _) (λ _. bind-Calm env _ _ (fail_if-Calm env _ _) (λ _.
        bind-Calm env _ _ (check-Calm env _) (λ _. modify-Calm env _ (adopt-Stays slot qc cp))))

  -- A certificate that passes is one for a timeout.
  pub verify_tc-IsTimedOut :
      (certificate : AggregateSignature) (kind : TcKind) (slot view : ℕ) (s s' : Consensus)
      → verify_tc env now certificate kind slot view s ≡ (s', ok tt)
      → IsTimedOut env slot view
  unfolding verify_tc check ◌>>=◌
  verify_tc-IsTimedOut certificate nil_proposal slot view s s' h = (
    (s.bft).parent_hash,
    certificate,
    inl ((s.bft).staking, verify-IsQuorum env _ certificate s.bft (ap (λ x. x.1) h)),
  )
  verify_tc-IsTimedOut certificate (prepare_qc qc cp) slot view s s' h =
      let (tt, passed) =
        check_passed env s s' (verify_timeout env now slot view certificate s.bft) _ tt h in
      (
        (s.bft).parent_hash,
        certificate,
        inl ((s.bft).staking, verify-IsQuorum env _ certificate s.bft passed),
      )

  leave-Stays : Stays env leave_joining
  leave-Stays b = elim (Bool-cases (is_joining b.state_tag)) [
    | inl joins ↦ rw joins (refl, refl, inr refl)
    | inr settled ↦ rw settled (refl, refl, inl settled)
  ]

  leave_unless-Stays :
      (mine : Bool) → Stays env (λ bft. if not mine then leave_joining bft else bft)
  leave_unless-Stays true b = (refl, refl, inl refl)
  leave_unless-Stays false b = leave-Stays b

  certificate-After :
      (certificate : AggregateSignature) (kind : TcKind) (slot view : ℕ) (s : Consensus)
      → slot ≡ (s.bft).slot
      → view ≡ (s.bft).view
      → After env (round_of s) (
          (verify_tc env now certificate kind slot view >>= λ _. check next_view_leader >>= λ next.
          modify (λ bft. if not (next == env.validator_pubkey) then leave_joining bft else bft)
          >>= λ _. advance_round env now (timeout_qc certificate kind))
            s)
  certificate-After certificate kind slot view s at_slot at_view =
      bind_rest env (verify_tc env now certificate kind slot view) _ s
        (verify_tc-Calm certificate kind slot view)
        (λ _ s₁ slot₁ view₁ passed.
          bind_rest env (check next_view_leader) _ s₁ (check-Calm env _) (λ next s₂ slot₂ view₂ _.
            bind_rest env _ _ s₂
              (modify-Calm env _ (leave_unless-Stays (next == env.validator_pubkey)))
              (λ _ s₃ slot₃ view₃ _.
                advance_view-After env now certificate kind s₃ slot view (omega arith)
                  (ap (λ v. (v + 1) % 2 ^ 64) (omega arith))
                  (verify_tc-IsTimedOut certificate kind slot view s s₁ passed))))

  pub on_timeout_certificate-Keeps :
      (certificate : AggregateSignature) (kind : TcKind) (slot view : ℕ)
      → Keeps env (on_timeout_certificate env now certificate kind slot view)
  unfolding on_timeout_certificate
  on_timeout_certificate-Keeps certificate kind slot view = record {
    at = λ s.
        test-After env (is_before env now slot view s.bft) _ _ (λ _. quiet env refl)
          (λ not_before.
            test-After env (ltb (s.bft).slot slot || ltb (s.bft).view view) _ _
              (λ _. quiet env refl)
              (λ not_later.
                certificate-After certificate kind slot view s (ground arith) (ground arith)));
  }

  join_mutiny-Keeps : Keeps env (join_mutiny env now)
  unfolding join_mutiny
  join_mutiny-Keeps = record {
    at = λ s.
        at-After env
          (bind-Keeps env (modify-Keeps env _ (λ b. (refl, refl, inl refl))) (λ _.
            bind-Keeps env (send-Keeps env _ refl)
              (λ _. modify-Keeps env _ (λ b. (refl, refl, inl refl)))))
          s;
  }

  announce-Calm :
      (certificate : AggregateSignature) (kind : TcKind) (slot view : ℕ) (next : Bytes)
      → Calm env (announce env now certificate kind slot view next)
  unfolding announce
  announce-Calm certificate kind slot view next =
      if-Calm env (next == env.validator_pubkey) _ _ (modify-Calm env _ leave-Stays) (
        bind-Calm env _ _ (send-Calm env _ refl)
          (λ _. modify-Calm env _ (λ b. (refl, refl, inl refl))))

  -- A certificate that the node makes is for the slot and the view that it is in.
  create-IsTimedOut :
      (slot : ℕ) (bft : BftRoundState) (ticket : AggregateSignature × TcKind)
      → create_certificate env now slot bft ≡ ok ticket
      → IsTimedOut env bft.slot bft.view
  unfolding create_certificate
  create-IsTimedOut slot bft ticket h = elim (Option-cases (highest_of slot bft)) [
    | inr (qc, seen) ↦
        let signatures = request_signatures (bft.timeout_state).requests in
        elim (Option-cases
          (env.sign_aggregate (timeout_message bft.slot bft.view bft.parent_hash) signatures)) [
            | inl unsigned ↦ absurd (ground arith)
            | inr (certificate, signed) ↦ (bft.parent_hash, certificate, inr (signatures, signed))
          ]
    | inl unseen ↦ elim (Option-cases (nil_signatures (bft.timeout_state).requests)) [
      | inl other ↦ absurd (ground arith)
      | inr (signatures, nil) ↦
          elim (Option-cases
            (env.sign_aggregate (timeout_message bft.slot bft.view bft.parent_hash) signatures)) [
              | inl unsigned ↦ absurd (ground arith)
              | inr (certificate, signed) ↦ (bft.parent_hash, certificate, inr (signatures, signed))
            ]
    ]
  ]

  check_ran :
      {A : Type 0} (f : BftRoundState → Result ConsensusError A) (a : A) (s s' : Consensus)
      → check f s ≡ (s', ok a)
      → f s.bft ≡ ok a
  unfolding check
  check_ran f a s s' h = ap (λ x. x.1) h

  create-Calm : (slot : ℕ) → Calm env (check (create_certificate env now slot))
  create-Calm slot = check-Calm env _

  emit_certificate-Keeps : (slot view : ℕ) → Keeps env (emit_certificate env now slot view)
  unfolding emit_certificate
  emit_certificate-Keeps slot view = record {
    at = λ s.
        bind_rest env (check (create_certificate env now slot)) _ s (create-Calm slot)
          (λ ticket s₁ slot₁ view₁ made.
            bind_rest env (modify (schedule env now)) _ s₁
              (modify-Calm env _ (λ b. (refl, refl, inl refl)))
              (λ _ s₂ slot₂ view₂ _.
                bind_rest env (check next_view_leader) _ s₂ (check-Calm env _)
                  (λ next s₃ slot₃ view₃ _.
                    bind_rest env (announce env now ticket.0 ticket.1 slot view next) _ s₃
                      (announce-Calm ticket.0 ticket.1 slot view next)
                      (λ _ s₄ slot₄ view₄ _.
                        advance_view-After env now ticket.0 ticket.1 s₄ (s.bft).slot (s.bft).view
                          (omega arith) (ap (λ v. (v + 1) % 2 ^ 64) (omega arith))
                          (create-IsTimedOut slot s.bft ticket (check_ran _ ticket s s₁ made))))));
  }

  count_timeouts-Keeps : (slot view : ℕ) → Keeps env (count_timeouts env now slot view)
  unfolding count_timeouts
  count_timeouts-Keeps slot view = record {
    at = λ s.
        at-After env
          (bind-Keeps env
            (if-Keeps env _ _ _
              (bind-Keeps env join_mutiny-Keeps
                (λ _. bind-Keeps env (check-Keeps env _) (λ own. pure-Keeps env _)))
              (pure-Keeps env _))
            (λ power. bind-Keeps env (gets-Keeps env _) (λ emitted.
              if-Keeps env _ _ _ (emit_certificate-Keeps slot view) (pure-Keeps env _))))
          s;
  }

  process_kind-Keeps : (slot : ℕ) (kind : TimeoutKind) → Keeps env (process_kind env now slot kind)
  unfolding process_kind
  process_kind-Keeps slot (nil_timeout t) = pure-Keeps env _
  process_kind-Keeps slot (prepare_timeout qc cp) =
      if-Keeps env (cp.slot == slot) _ _
        (bind-Keeps env (check-Keeps env _) (λ _. modify-Keeps env _ (adopt-Stays slot qc cp)))
        (fail-Keeps env _)

  add_request-Keeps : (slot view : ℕ) (r : Request) → Keeps env (add_request env now slot view r)
  unfolding add_request
  add_request-Keeps slot view r = record {
    at = λ s.
        if-After env (any (request_beq r) ((s.bft).timeout_state).requests) _ _ (quiet env refl) (
          at-After env
            (bind-Keeps env (modify-Keeps env _ (λ b. (refl, refl, inl refl)))
              (λ _. count_timeouts-Keeps slot view))
            s);
  }

  pub on_timeout-Keeps :
      (received : SignedTimeout) (kind : TimeoutKind) → Keeps env (on_timeout env now received kind)
  unfolding on_timeout
  on_timeout-Keeps received kind = record {
    at = λ s.
        if-After env (not (is_part_of_consensus s.bft env.validator_pubkey)) _ _ (quiet env refl) (
          if-After env (not (received.parent_hash == (s.bft).parent_hash)) _ _ (quiet env refl) (
            if-After env (ltb received.slot (s.bft).slot) _ _ (quiet env refl) (
              if-After env
                (not (received.slot == (s.bft).slot) || not (received.view == (s.bft).view)) _ _
                (quiet env refl)
                (at-After env
                  (bind-Keeps env (process_kind-Keeps received.slot kind)
                    (λ _. add_request-Keeps received.slot received.view (received, kind)))
                  s))));
  }

  pub on_timeout_tick-Keeps : Keeps env (on_timeout_tick env now)
  unfolding on_timeout_tick
  on_timeout_tick-Keeps = record {
    at = λ s.
        if-After env (is_due env now ((s.bft).timeout_state).state) _ _
          (at-After env
            (bind-Keeps env
              (on_timeout-Keeps (timeout_of env now s.bft).0 (timeout_of env now s.bft).1)
              (λ _.
                bind-Keeps env (send-Keeps env _ refl)
                  (λ _. modify-Keeps env _ (λ b. (refl, refl, inl refl)))))
            s)
          (quiet env refl);
  }
