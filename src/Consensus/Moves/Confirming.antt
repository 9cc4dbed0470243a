-- ===== src/Consensus/Moves/Confirming.antt =====
-- What a follower does on confirmations and commitments, and on requests of role_sync.rs, is made of
-- moves.
use truth_seeker.Common.{
  ◌≡◌, ℕ, ◌+◌, ◌%◌, ◌^◌, ◌<◌, true, String, ◌==◌, string_eq, nat_eq, list_eq, not, ltb, leb, refl,
  arith, Option-cases, Bool-cases, inl, inr, Result-cases,
}
use truth_seeker.Common.Maps.{get}
use truth_seeker.Sdk.Types.{Bytes}
use truth_seeker.Consensus.Types.{Env, AggregateSignature, ConsensusProposal, commit_qc, Consensus}
use truth_seeker.Consensus.Actions.{check, modify, ◌>>=◌}
use truth_seeker.Consensus.Rounds.{
  is_joining, is_follower, is_part_of_consensus, current_slot_prepare_is_present, verify_commit,
}
use truth_seeker.Consensus.Timeouts.{update_highest_seen_prepare_qc}
use truth_seeker.Consensus.Follower.{
  send_confirm_ack, on_confirm, join_at_proposal, join_with, set_proposal, on_commit_while_joining,
  on_commit, on_sync_request,
}
use truth_seeker.Consensus.Moves.{joins_slot, After, Keeps, round_of}
use truth_seeker.Consensus.Moves.Runs.{
  test-After, quiet, at-After, bind-Keeps, if-After, modify-Keeps, check-Keeps, send-Keeps,
  verify-IsQuorum,
}
use truth_seeker.Consensus.Moves.Advance.{emit-After, with_certificate, commit_locally-Keeps}

module _ (env : Env) (now : ℕ) where
  send_ack-Keeps : (hash : String) → Keeps env (send_confirm_ack env now hash)
  unfolding send_confirm_ack
  send_ack-Keeps hash = record {
    at = λ s.
        if-After env (is_part_of_consensus s.bft env.validator_pubkey) _ _
          (at-After env (bind-Keeps env (check-Keeps env _) (λ leader. send-Keeps env _ refl)) s)
          (quiet env refl);
  }

  pub on_confirm-Keeps :
      (qc : AggregateSignature) (hash : String) → Keeps env (on_confirm env now qc hash)
  unfolding on_confirm update_highest_seen_prepare_qc
  on_confirm-Keeps qc hash = record {
    at = λ s. if-After env (not (is_follower (s.bft).state_tag)) _ _ (quiet env refl) (
        if-After env (not (hash == env.hashed (s.bft).current_proposal)) _ _ (quiet env refl) (
          at-After env
            (bind-Keeps env (check-Keeps env _) (λ _.
              bind-Keeps env
                (modify-Keeps env _ (λ b. (ground arith, ground arith, inl (ground arith))))
                (λ _. send_ack-Keeps hash)))
            s));
  }

  -- A node that joins goes to a later slot, whose proposal is committed there.
  join_with-After :
      (qc : AggregateSignature) (proposal : ConsensusProposal) (s : Consensus)
      → is_joining (s.bft).state_tag ≡ true
      → (s.bft).slot < proposal.slot
      → After env (round_of s) (join_with env now qc proposal s)
  unfolding join_with modify check ◌>>=◌
  join_with-After qc proposal s joins later =
      let bft = set_proposal env now proposal s.bft in
      elim (Result-cases (verify_commit env qc bft)) [
        | inr (e, refused) ↦ rw refused (quiet env refl)
        | inl (tt, passed) ↦
            let joined : Consensus = record s { bft = join_at_proposal env now bft } in
            rw passed (
              emit-After env (round_of s) now qc (commit_qc qc) joined (with_certificate env qc)
                (λ again. absurd (cc))
                (λ settled.
                  joins_slot (round_of s) (s.bft).staking proposal qc joins later
                    (verify-IsQuorum env _ qc bft passed)))
      ]

  joining-After :
      (qc : AggregateSignature) (hash : String) (s : Consensus)
      → is_joining (s.bft).state_tag ≡ true
      → After env (round_of s) (on_commit_while_joining env now qc hash s)
  unfolding on_commit_while_joining
  joining-After qc hash s joins =
      elim (Option-cases (get ((s.bft).follower_state).buffered_prepares.prepares hash)) [
        | inl unknown ↦ rw (unknown, on_commit_while_joining) (quiet env refl)
        | inr ((sender, proposal, ticket, view), known) ↦
            rw (known, on_commit_while_joining)
              (elim (Bool-cases (leb proposal.slot (s.bft).slot)) [
                | inl past ↦ rw past (quiet env refl)
                | inr later ↦ rw later (
                    if-After env (ltb (((s.bft).staking_updated_to + 1) % 2 ^ 64) proposal.slot) _ _
                      (quiet env refl) (join_with-After qc proposal s joins (ground arith)))
              ])
      ]

  pub on_commit-Keeps :
      (qc : AggregateSignature) (hash : String) → Keeps env (on_commit env now qc hash)
  unfolding on_commit
  on_commit-Keeps qc hash = record {
    at = λ s.
        test-After env (is_joining (s.bft).state_tag) _ _ (λ joins. joining-After qc hash s joins)
          (λ _. if-After env (not (current_slot_prepare_is_present s.bft)) _ _ (quiet env refl) (
            if-After env (not (is_follower (s.bft).state_tag)) _ _ (quiet env refl) (
              if-After env (not (env.hashed (s.bft).current_proposal == hash)) _ _ (quiet env refl)
                (at-After env (commit_locally-Keeps env now qc) s))));
  }

  pub on_sync_request-Keeps :
      (sender : Bytes) (hash : String) → Keeps env (on_sync_request env now sender hash)
  unfolding on_sync_request
  on_sync_request-Keeps sender hash = record {
    at = λ s. elim (Option-cases (get ((s.bft).follower_state).buffered_prepares.prepares hash)) [
      | inl unknown ↦ rw (unknown, on_sync_request) (quiet env refl)
      | inr (p, known) ↦ rw (known, on_sync_request) (at-After env (send-Keeps env _ refl) s)
    ];
  }
