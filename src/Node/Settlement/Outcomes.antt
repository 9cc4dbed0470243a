-- ===== src/Node/Settlement/Outcomes.antt =====
-- When a transaction of node_state.rs can be settled, and when it has failed: the specification of
-- `settle_blobs_recursively`.
use truth_seeker.Common.{
  ℕ, zero, suc, ◌≡◌, Bool, true, false, String, Option, none, some, List, [], ◌∷◌, ◌==◌, string_eq,
  ok, err, ◌⊎◌,
}
use truth_seeker.Sdk.Types.{Bytes, Blob, HyleOutput}
use truth_seeker.Node.Types.{UnsettledBlobMetadata, Decoders}
use truth_seeker.Node.Changes.{Contracts, Changes, SettleError}
use truth_seeker.Node.Tld.{handle_blob_for_hyle_tld}
use truth_seeker.Node.Settlement.{process_proof}

abbrev pub Proofs : Type 0
Proofs = List (Bytes × HyleOutput)

-- the proof at an index
abbrev pub nth : Proofs → ℕ → Option (Bytes × HyleOutput)
nth [] i = none
nth (p ∷ ps) zero = some p
nth (p ∷ ps) (suc i) = nth ps i

abbrev pub is_hyle : UnsettledBlobMetadata → Bool
is_hyle metadata = metadata.blob.contract_name == "hyle"

module _ (valid_program : String → Bytes → Bool) (decoders : Decoders) (contracts : Contracts) where
  -- The proof at the index `i` fits the changes so far, with the outcome `success`, and leads to
  -- `after`.
  pub record Fits (ps : Proofs) (blob : Blob) (changes : Changes) (i : ℕ) (success : Bool)
      (after : Changes) : Type 0 where
    pub proof : Bytes × HyleOutput
    pub there : nth ps i ≡ some proof
    pub processed :
        process_proof valid_program decoders contracts changes blob.contract_name proof blob
        ≡ ok after
    pub outcome : (proof.1).success ≡ success

  -- One blob is settled: by the node itself if it is of the contract `hyle`, and else by a proof of
  -- a success.
  abbrev pub Step : UnsettledBlobMetadata → Changes → ℕ → Changes → Type 0
  Step metadata changes i after =
      ((is_hyle metadata ≡ true)
        × (i ≡ 0)
        × (handle_blob_for_hyle_tld valid_program decoders contracts changes metadata.blob
            ≡ ok after))
      ⊎ ((is_hyle metadata ≡ false)
          × Fits metadata.possible_proofs metadata.blob changes i true after)

  -- All blobs are settled, one after the other, each on the changes of those before it.
  abbrev pub Settles : List UnsettledBlobMetadata → Changes → List ℕ → Changes → Type 0
  Settles [] changes indices final = (indices ≡ []) × (final ≡ changes)
  Settles (b ∷ bs) changes indices final =
      (i : ℕ) × (rest : List ℕ) × (after : Changes) × (indices ≡ i ∷ rest)
      × Step b changes i after
      × Settles bs after rest final

  -- One blob has failed: the node refuses it, or a proof that fits shows a failure.
  abbrev pub FailedStep : UnsettledBlobMetadata → Changes → Type 0
  FailedStep metadata changes =
      ((is_hyle metadata ≡ true)
        × (e : SettleError) × (handle_blob_for_hyle_tld valid_program decoders contracts changes
              metadata.blob
            ≡ err e))
      ⊎ ((is_hyle metadata ≡ false)
          × (i : ℕ) × (after : Changes) × Fits metadata.possible_proofs metadata.blob changes i
              false after)

  -- Blobs that can be settled are followed by one that has failed.
  abbrev pub Fails : List UnsettledBlobMetadata → Changes → Type 0
  Fails [] changes = ⊥
  Fails (b ∷ bs) changes =
      FailedStep b changes ⊎ ((i : ℕ) × (after : Changes) × Step b changes i after × Fails bs after)
