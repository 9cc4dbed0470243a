-- ===== src/Node/Settlement/Loop.antt =====
-- The loop over the proofs of one blob in `settle_blobs_recursively` of node_state.rs.
use mathlib.Core.Path.{subst}
use truth_seeker.Common.{
  append_assoc, ℕ, zero, suc, ◌+◌, ◌≡◌, refl, sym, ap, ◌∙◌, Bool, true, false, String, Option, none,
  some, List, [], ◌∷◌, ◌++◌, string_eq, push, arith, Result, ok, err, ◌⊎◌, inl, inr, Bool-cases,
  Option-cases, Result-cases,
}
use truth_seeker.Sdk.Types.{Bytes, Blob, HyleOutput}
use truth_seeker.Node.Types.{UnsettledBlobMetadata, Decoders}
use truth_seeker.Node.Changes.{Contracts, Changes, SettleError}
use truth_seeker.Node.Settlement.Outcomes.{Proofs, Fits, Settles, Fails}
use truth_seeker.Node.Settlement.{
  SettlementResult, SettleEvent, proof_not_settled, Settled, process_proof, try_proofs,
}

module _ (valid_program : String → Bytes → Bool) (decoders : Decoders) (contracts : Contracts) where
  -- What a result says of the blobs that it is for.
  unfoldable pub Promise :
      List UnsettledBlobMetadata → Changes → List ℕ → Option (Result Unit SettlementResult) → Type 0
  Promise blobs changes indices none =
      (found : List ℕ) (final : Changes)
      → Settles valid_program decoders contracts blobs changes found final
      → ⊥
  Promise blobs changes indices (some (ok r)) =
      (found : List ℕ) × (r.blob_proof_output_indices ≡ indices ++ found)
      × Settles valid_program decoders contracts blobs changes found r.contract_changes
  Promise blobs changes indices (some (err _)) =
      Fails valid_program decoders contracts blobs changes

  -- The same of the loop over the proofs `ps` of a blob, the first of which has the index `j`.
  unfoldable pub Loop :
      List UnsettledBlobMetadata
      → Blob
      → Changes
      → List ℕ
      → ℕ
      → Proofs
      → Option (Result Unit SettlementResult)
      → Type 0
  Loop bs blob changes indices j ps none =
      (i : ℕ) (after : Changes) (found : List ℕ) (final : Changes)
      → Fits valid_program decoders contracts ps blob changes i true after
      → Settles valid_program decoders contracts bs after found final
      → ⊥
  Loop bs blob changes indices j ps (some (ok r)) =
      (i : ℕ) × (after : Changes) × (found : List ℕ) × (r.blob_proof_output_indices
        ≡ indices ++ (j + i) ∷ found)
      × Fits valid_program decoders contracts ps blob changes i true after
      × Settles valid_program decoders contracts bs after found r.contract_changes
  Loop bs blob changes indices j ps (some (err _)) =
      ((i : ℕ) × (after : Changes) × Fits valid_program decoders contracts ps blob changes i false
          after)
      ⊎ ((i : ℕ) × (after : Changes) × Fits valid_program decoders contracts ps blob changes i true
            after
          × Fails valid_program decoders contracts bs after)

  later :
      (p : Bytes × HyleOutput) (ps : Proofs) (blob : Blob) (changes after : Changes) (i : ℕ)
      (success : Bool)
      → Fits valid_program decoders contracts ps blob changes i success after
      → Fits valid_program decoders contracts (p ∷ ps) blob changes (suc i) success after
  later p ps blob changes after i success f = record {
    proof = f.proof;
    there = f.there;
    processed = f.processed;
    outcome = f.outcome;
  }

  module _ (bs : List UnsettledBlobMetadata) (rest : Changes → List ℕ → List SettleEvent → Settled)
      (blob : Blob) (changes : Changes) (indices : List ℕ) (j : ℕ) (p : Bytes × HyleOutput)
      (ps : Proofs) (events : List SettleEvent) where
    abbrev try_here : List SettleEvent → Settled
    try_here = try_proofs valid_program decoders contracts rest changes indices blob j (p ∷ ps)

    abbrev try_next : List SettleEvent → Settled
    try_next = try_proofs valid_program decoders contracts rest changes indices blob (suc j) ps

    try-err :
        (e : SettleError)
        → process_proof valid_program decoders contracts changes blob.contract_name p blob ≡ err e
        → try_here events ≡ try_next (push events (proof_not_settled j blob.contract_name e))
    unfolding try_proofs
    try-err e bad = rw (bad, try_proofs) refl

    try-failed :
        (after : Changes)
        → process_proof valid_program decoders contracts changes blob.contract_name p blob
          ≡ ok after
        → (p.1).success ≡ false
        → (try_here events).0 ≡ some (err tt)
    unfolding try_proofs
    try-failed after good failed = rw (good, failed, try_proofs) refl

    try-some :
        (after : Changes) (r : Result Unit SettlementResult)
        → process_proof valid_program decoders contracts changes blob.contract_name p blob
          ≡ ok after
        → (p.1).success ≡ true
        → (rest after (push indices j) events).0 ≡ some r
        → (try_here events).0 ≡ some r
    unfolding try_proofs
    try-some after r good won settled = rw (good, won, settled, try_proofs) refl

    try-none :
        (after : Changes)
        → process_proof valid_program decoders contracts changes blob.contract_name p blob
          ≡ ok after
        → (p.1).success ≡ true
        → (rest after (push indices j) events).0 ≡ none
        → try_here events ≡ try_next (rest after (push indices j) events).1
    unfolding try_proofs
    try-none after good won stuck = rw (good, won, stuck, try_proofs) refl

  no_fit :
      (bs : List UnsettledBlobMetadata) (blob : Blob) (changes : Changes) (p : Bytes × HyleOutput)
      (ps : Proofs) (i : ℕ) (after : Changes) (found : List ℕ) (final : Changes)
      → ((after : Changes) (found : List ℕ) (final : Changes)
          → Fits valid_program decoders contracts (p ∷ ps) blob changes 0 true after
          → Settles valid_program decoders contracts bs after found final
          → ⊥)
      → ((i : ℕ) (after : Changes) (found : List ℕ) (final : Changes)
          → Fits valid_program decoders contracts ps blob changes i true after
          → Settles valid_program decoders contracts bs after found final
          → ⊥)
      → Fits valid_program decoders contracts (p ∷ ps) blob changes i true after
      → Settles valid_program decoders contracts bs after found final
      → ⊥
  no_fit bs blob changes p ps zero after found final first_fails h f s =
      first_fails after found final f s
  no_fit bs blob changes p ps (suc i) after found final first_fails h f s =
      h i after found final
        (record { proof = f.proof; there = f.there; processed = f.processed; outcome = f.outcome })
        s

  -- The first proof does not lead to a success, and the loop goes on.
  shift :
      (bs : List UnsettledBlobMetadata) (blob : Blob) (changes : Changes) (indices : List ℕ) (j : ℕ)
      (p : Bytes × HyleOutput) (ps : Proofs) (r : Option (Result Unit SettlementResult))
      → ((after : Changes) (found : List ℕ) (final : Changes)
          → Fits valid_program decoders contracts (p ∷ ps) blob changes 0 true after
          → Settles valid_program decoders contracts bs after found final
          → ⊥)
      → Loop bs blob changes indices (suc j) ps r
      → Loop bs blob changes indices j (p ∷ ps) r
  unfolding Loop
  shift bs blob changes indices j p ps none first_fails h =
      λ i after found final f s. no_fit bs blob changes p ps i after found final first_fails h f s
  shift bs blob changes indices j p ps (some (ok r)) first_fails (i, after, found, same, f, s) = (
    suc i,
    after,
    found,
    same ∙ ap (λ k. indices ++ k ∷ found) (omega arith),
    later p ps blob changes after i true f,
    s,
  )
  shift bs blob changes indices j p ps (some (err _)) first_fails (inl (i, after, f)) =
      inl (suc i, after, later p ps blob changes after i false f)
  shift bs blob changes indices j p ps (some (err _)) first_fails (inr (i, after, f, fails)) =
      inr (suc i, after, later p ps blob changes after i true f, fails)

  refused :
      (p : Bytes × HyleOutput) (ps : Proofs) (blob : Blob) (changes after : Changes)
      (e : SettleError)
      → process_proof valid_program decoders contracts changes blob.contract_name p blob ≡ err e
      → Fits valid_program decoders contracts (p ∷ ps) blob changes 0 true after
      → ⊥
  refused p ps blob changes after e bad f =
      let there : some p ≡ some f.proof = f.there in let processed = f.processed in cc

  only :
      (p : Bytes × HyleOutput) (ps : Proofs) (blob : Blob) (changes after c : Changes)
      → process_proof valid_program decoders contracts changes blob.contract_name p blob ≡ ok after
      → Fits valid_program decoders contracts (p ∷ ps) blob changes 0 true c
      → after ≡ c
  only p ps blob changes after c good f =
      let there : some p ≡ some f.proof = f.there in let processed = f.processed in cc

  first-Loop :
      (bs : List UnsettledBlobMetadata) (blob : Blob) (changes after : Changes) (indices : List ℕ)
      (j : ℕ) (p : Bytes × HyleOutput) (ps : Proofs) (r : Result Unit SettlementResult)
      → Promise bs after (push indices j) (some r)
      → Fits valid_program decoders contracts (p ∷ ps) blob changes 0 true after
      → Loop bs blob changes indices j (p ∷ ps) (some r)
  unfolding Promise Loop
  first-Loop bs blob changes after indices j p ps (ok r) (found, same, s) f = (
    0,
    after,
    found,
    same ∙ append_assoc indices (j ∷ []) found ∙ ap (λ k. indices ++ k ∷ found) (omega arith),
    f,
    s,
  )
  first-Loop bs blob changes after indices j p ps (err u) fails f = inr (0, after, f, fails)

  failed-Loop :
      (bs : List UnsettledBlobMetadata) (blob : Blob) (changes after : Changes) (indices : List ℕ)
      (j : ℕ) (p : Bytes × HyleOutput) (ps : Proofs)
      → Fits valid_program decoders contracts (p ∷ ps) blob changes 0 false after
      → Loop bs blob changes indices j (p ∷ ps) (some (err tt))
  unfolding Loop
  failed-Loop bs blob changes after indices j p ps f = inl (0, after, f)

  nil-Loop :
      (bs : List UnsettledBlobMetadata) (rest : Changes → List ℕ → List SettleEvent → Settled)
      (blob : Blob) (changes : Changes) (indices : List ℕ) (j : ℕ) (events : List SettleEvent)
      → Loop bs blob changes indices j []
          (try_proofs valid_program decoders contracts rest changes indices blob j [] events).0
  unfolding Loop try_proofs
  nil-Loop bs rest blob changes indices j events =
      λ i after found final f s. let there : none ≡ some f.proof = f.there in cc

  pub stuck-none :
      (bs : List UnsettledBlobMetadata) (changes : Changes) (indices : List ℕ)
      (r : Option (Result Unit SettlementResult))
      → r ≡ none
      → Promise bs changes indices r
      → (found : List ℕ) (final : Changes)
      → Settles valid_program decoders contracts bs changes found final
      → ⊥
  unfolding Promise
  stuck-none bs changes indices none e h = h
  stuck-none bs changes indices (some r) e h = cc

  pub loop :
      (bs : List UnsettledBlobMetadata) (rest : Changes → List ℕ → List SettleEvent → Settled)
      (blob : Blob) (changes : Changes) (indices : List ℕ) (j : ℕ) (ps : Proofs)
      (events : List SettleEvent)
      → ((c : Changes) (is : List ℕ) (ev : List SettleEvent) → Promise bs c is (rest c is ev).0)
      → Loop bs blob changes indices j ps
          (try_proofs valid_program decoders contracts rest changes indices blob j ps events).0
  loop bs rest blob changes indices j [] events ih = nil-Loop bs rest blob changes indices j events
  loop bs rest blob changes indices j (p ∷ ps) events ih =
      elim (Result-cases
        (process_proof valid_program decoders contracts changes blob.contract_name p blob)) [
          | inr (e, bad) ↦
              let events' = push events (proof_not_settled j blob.contract_name e) in
              rw (try-err bs rest blob changes indices j p ps events e bad) (
                shift bs blob changes indices j p ps
                  (try_proofs valid_program decoders contracts rest changes indices blob (suc j) ps
                    events').0
                  (λ c found final f s. refused p ps blob changes c e bad f)
                  (loop bs rest blob changes indices (suc j) ps events' ih))
          | inl (after, good) ↦ elim (Bool-cases (p.1).success) [
            | inr failed ↦
                rw (try-failed bs rest blob changes indices j p ps events after good failed) (
                  failed-Loop bs blob changes after indices j p ps
                    (record { proof = p; there = refl; processed = good; outcome = failed }))
            | inl won ↦ elim (Option-cases (rest after (push indices j) events).0) [
              | inl stuck ↦
                  let events' = (rest after (push indices j) events).1 in
                  rw (try-none bs rest blob changes indices j p ps events after good won stuck) (
                    shift bs blob changes indices j p ps
                      (try_proofs valid_program decoders contracts rest changes indices blob (suc j)
                        ps events').0
                      (λ c found final f s.
                        let same = only p ps blob changes after c good f in
                        stuck-none bs c (push indices j) (rest c (push indices j) events).0
                          (ap (λ x. (rest x (push indices j) events).0) (sym same) ∙ stuck)
                          (ih c (push indices j) events) found final s)
                      (loop bs rest blob changes indices (suc j) ps events' ih))
              | inr (r, settled) ↦
                  rw (try-some bs rest blob changes indices j p ps events after r good won settled)
                    (first-Loop bs blob changes after indices j p ps r
                      (subst (λ x. Promise bs after (push indices j) x) settled
                        (ih after (push indices j) events))
                      (record { proof = p; there = refl; processed = good; outcome = won }))
            ]
          ]
        ]
