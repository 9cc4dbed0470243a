-- ===== src/Node/Settlement/Sound.antt =====
-- What the result of `settle_blobs_recursively` of node_state.rs says of the proofs of a transaction.
use mathlib.Core.Path.{subst}
use truth_seeker.Common.{
  append_assoc, append-nil, ℕ, ◌≡◌, refl, sym, ap, ◌∙◌, Bool, true, false, String, Option, none,
  some, List, [], ◌∷◌, ◌++◌, string_eq, push, arith, Result, ok, err, inl, inr, Bool-cases,
  Result-cases,
}
use truth_seeker.Sdk.Types.{Bytes}
use truth_seeker.Node.Types.{UnsettledBlobMetadata, Decoders}
use truth_seeker.Node.Changes.{Contracts, Changes, SettleError}
use truth_seeker.Node.Tld.{handle_blob_for_hyle_tld}
use truth_seeker.Node.Settlement.Outcomes.{is_hyle, Settles, Fails}
use truth_seeker.Node.Settlement.Loop.{Promise, Loop, loop, stuck-none}
use truth_seeker.Node.Settlement.{
  SettlementResult, SettleEvent, Settled, try_proofs, settle_blob, settle_blobs_recursively,
}

module _ (valid_program : String → Bytes → Bool) (decoders : Decoders) (contracts : Contracts) where
  abbrev settle : List UnsettledBlobMetadata → Changes → List ℕ → List SettleEvent → Settled
  settle = settle_blobs_recursively valid_program decoders contracts

  settle-tld :
      (b : UnsettledBlobMetadata) (bs : List UnsettledBlobMetadata) (changes after : Changes)
      (indices : List ℕ) (events : List SettleEvent)
      → is_hyle b ≡ true
      → handle_blob_for_hyle_tld valid_program decoders contracts changes b.blob ≡ ok after
      → settle (b ∷ bs) changes indices events ≡ settle bs after (push indices 0) events
  unfolding settle_blobs_recursively settle_blob
  settle-tld b bs changes after indices events hyle good = rw (hyle, good, settle_blob) refl

  settle-tld_err :
      (b : UnsettledBlobMetadata) (bs : List UnsettledBlobMetadata) (changes : Changes)
      (indices : List ℕ) (events : List SettleEvent) (e : SettleError)
      → is_hyle b ≡ true
      → handle_blob_for_hyle_tld valid_program decoders contracts changes b.blob ≡ err e
      → (settle (b ∷ bs) changes indices events).0 ≡ some (err tt)
  unfolding settle_blobs_recursively settle_blob
  settle-tld_err b bs changes indices events e hyle bad = rw (hyle, bad, settle_blob) refl

  settle-proofs :
      (b : UnsettledBlobMetadata) (bs : List UnsettledBlobMetadata) (changes : Changes)
      (indices : List ℕ) (events : List SettleEvent)
      → is_hyle b ≡ false
      → settle (b ∷ bs) changes indices events
        ≡ try_proofs valid_program decoders contracts
            (settle bs)
            changes
            indices
            b.blob
            0
            b.possible_proofs
            events
  unfolding settle_blobs_recursively settle_blob
  settle-proofs b bs changes indices events other = rw (other, settle_blob) refl

  tld-Promise :
      (b : UnsettledBlobMetadata) (bs : List UnsettledBlobMetadata) (changes after : Changes)
      (indices : List ℕ) (r : Option (Result Unit SettlementResult))
      → is_hyle b ≡ true
      → handle_blob_for_hyle_tld valid_program decoders contracts changes b.blob ≡ ok after
      → Promise valid_program decoders contracts bs after (push indices 0) r
      → Promise valid_program decoders contracts (b ∷ bs) changes indices r
  unfolding Promise
  tld-Promise b bs changes after indices none hyle good h = λ found final s.
      let (i, rest, c, same, step, s') = s in
      elim step [
        | inl (_, _, good') ↦
            let reached : c ≡ after = cc in
            h rest final
              (subst (λ x. Settles valid_program decoders contracts bs x rest final) reached s')
        | inr (other, f) ↦ cc
      ]
  tld-Promise b bs changes after indices (some (ok r)) hyle good (found, same, s) = (
    0 ∷ found,
    same ∙ append_assoc indices (0 ∷ []) found,
    (0, found, after, refl, inl (hyle, refl, good), s),
  )
  tld-Promise b bs changes after indices (some (err u)) hyle good fails =
      inr (0, after, inl (hyle, refl, good), fails)

  proofs-Promise :
      (b : UnsettledBlobMetadata) (bs : List UnsettledBlobMetadata) (changes : Changes)
      (indices : List ℕ) (r : Option (Result Unit SettlementResult))
      → is_hyle b ≡ false
      → Loop valid_program decoders contracts bs b.blob changes indices 0 b.possible_proofs r
      → Promise valid_program decoders contracts (b ∷ bs) changes indices r
  unfolding Promise Loop
  proofs-Promise b bs changes indices none other h = λ found final s.
      let (i, rest, c, same, step, s') = s in
      elim step [ inl (hyle, _, _) ↦ cc | inr (_, f) ↦ h i c rest final f s' ]
  proofs-Promise b bs changes indices (some (ok r)) other (i, after, found, same, f, s) = (
    i ∷ found,
    same ∙ ap (λ k. indices ++ k ∷ found) (omega arith),
    (i, found, after, refl, inr (other, f), s),
  )
  proofs-Promise b bs changes indices (some (err u)) other (inl (i, after, f)) =
      inl (inr (other, i, after, f))
  proofs-Promise b bs changes indices (some (err u)) other (inr (i, after, f, fails)) =
      inr (i, after, inr (other, f), fails)

  err-Promise :
      (b : UnsettledBlobMetadata) (bs : List UnsettledBlobMetadata) (changes : Changes)
      (indices : List ℕ) (e : SettleError)
      → is_hyle b ≡ true
      → handle_blob_for_hyle_tld valid_program decoders contracts changes b.blob ≡ err e
      → Promise valid_program decoders contracts (b ∷ bs) changes indices (some (err tt))
  unfolding Promise
  err-Promise b bs changes indices e hyle bad = inl (inl (hyle, e, bad))

  nil-Promise :
      (changes : Changes) (indices : List ℕ) (events : List SettleEvent)
      → Promise valid_program decoders contracts [] changes indices
          (settle [] changes indices events).0
  unfolding Promise settle_blobs_recursively
  nil-Promise changes indices events = ([], sym (append-nil indices), (refl, refl))

  settle-Promise :
      (blobs : List UnsettledBlobMetadata) (changes : Changes) (indices : List ℕ)
      (events : List SettleEvent)
      → Promise valid_program decoders contracts blobs changes indices
          (settle blobs changes indices events).0
  settle-Promise [] changes indices events = nil-Promise changes indices events
  settle-Promise (b ∷ bs) changes indices events = elim (Bool-cases (is_hyle b)) [
    | inr other ↦ rw (settle-proofs b bs changes indices events other) (
        proofs-Promise b bs changes indices
          (try_proofs valid_program decoders contracts (settle bs) changes indices b.blob 0
            b.possible_proofs events).0
          other
          (loop valid_program decoders contracts bs (settle bs) b.blob changes indices 0
            b.possible_proofs events (settle-Promise bs)))
    | inl hyle ↦
        elim (Result-cases
          (handle_blob_for_hyle_tld valid_program decoders contracts changes b.blob)) [
            | inl (after, good) ↦ rw (settle-tld b bs changes after indices events hyle good) (
                tld-Promise b bs changes after indices (settle bs after (push indices 0) events).0
                  hyle good (settle-Promise bs after (push indices 0) events))
            | inr (e, bad) ↦
                rw (settle-tld_err b bs changes indices events e hyle bad)
                  (err-Promise b bs changes indices e hyle bad)
          ]
  ]

  ok-Settles :
      (blobs : List UnsettledBlobMetadata) (changes : Changes) (indices : List ℕ)
      (r : SettlementResult)
      → Promise valid_program decoders contracts blobs changes indices (some (ok r))
      → (found : List ℕ) × (r.blob_proof_output_indices ≡ indices ++ found)
        × Settles valid_program decoders contracts blobs changes found r.contract_changes
  unfolding Promise
  ok-Settles blobs changes indices r h = h

  err-Fails :
      (blobs : List UnsettledBlobMetadata) (changes : Changes) (indices : List ℕ)
      → Promise valid_program decoders contracts blobs changes indices (some (err tt))
      → Fails valid_program decoders contracts blobs changes
  unfolding Promise
  err-Fails blobs changes indices h = h

  -- Blobs that are settled as a success have each been settled, one after the other: a blob of the
  -- contract `hyle` by the node, any other one by the proof at the index that is recorded for it,
  -- which fits the changes of the blobs before it and shows a success.
  pub settle-Settles :
      (blobs : List UnsettledBlobMetadata) (changes : Changes) (indices : List ℕ)
      (events : List SettleEvent) (r : SettlementResult)
      → (settle_blobs_recursively valid_program decoders contracts blobs changes indices events).0
        ≡ some (ok r)
      → (found : List ℕ) × (r.blob_proof_output_indices ≡ indices ++ found)
        × Settles valid_program decoders contracts blobs changes found r.contract_changes
  settle-Settles blobs changes indices events r h = ok-Settles blobs changes indices r (
      subst (λ x. Promise valid_program decoders contracts blobs changes indices x) h
        (settle-Promise blobs changes indices events))

  -- Blobs that are settled as a failure hold one that has failed, behind blobs that can be settled:
  -- the node has refused it, or one of its proofs fits and shows a failure.
  pub settle-Fails :
      (blobs : List UnsettledBlobMetadata) (changes : Changes) (indices : List ℕ)
      (events : List SettleEvent)
      → (settle_blobs_recursively valid_program decoders contracts blobs changes indices events).0
        ≡ some (err tt)
      → Fails valid_program decoders contracts blobs changes
  settle-Fails blobs changes indices events h = err-Fails blobs changes indices (
      subst (λ x. Promise valid_program decoders contracts blobs changes indices x) h
        (settle-Promise blobs changes indices events))

  -- Blobs that are not ready cannot be settled, whichever of their proofs are taken.
  pub settle-none :
      (blobs : List UnsettledBlobMetadata) (changes final : Changes) (indices found : List ℕ)
      (events : List SettleEvent)
      → (settle_blobs_recursively valid_program decoders contracts blobs changes indices events).0
        ≡ none
      → ¬ Settles valid_program decoders contracts blobs changes found final
  settle-none blobs changes final indices found events h s =
      stuck-none valid_program decoders contracts blobs changes indices
        (settle blobs changes indices events).0 h (settle-Promise blobs changes indices events)
        found final s
