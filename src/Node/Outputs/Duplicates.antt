-- ===== src/Node/Outputs/Duplicates.antt =====
-- Which blobs of an output the comparison of the hashes reads.
use truth_seeker.Common.{
  ℕ, ◌≡◌, refl, Bool, true, String, [], ◌∷◌, some, ◌==◌, string_eq, nat_eq, pair_eq, ◌&&◌, ◌||◌,
  all, any, arith,
}
use truth_seeker.Common.Maps.{remove}
use truth_seeker.Sdk.Types.{Blob, IndexedBlobs, blob_at, HyleOutput}
use truth_seeker.Node.Types.{UnsettledBlobTransaction, Decoders}
use truth_seeker.Node.Outputs.{
  BlobsHashes, is_recorded, includes_all, collected, blobs_hashes, verify_hyle_output,
}

-- One of the blobs has the index.
abbrev pub has_index : IndexedBlobs → ℕ → Bool
has_index blobs i = any (λ (p : ℕ × Blob). p.0 == i) blobs

module _ (blob_hash : Blob → String) (hashes : BlobsHashes) where
  -- The last blob of each index has the hash that is recorded there.
  unfoldable pub lasts_recorded : IndexedBlobs → Bool
  lasts_recorded [] = true
  lasts_recorded ((i, blob) ∷ blobs) =
      (has_index blobs i || is_recorded hashes (i, blob_hash blob)) && lasts_recorded blobs

  -- Those entries that the blobs do not replace are recorded.
  abbrev kept_recorded : IndexedBlobs → BlobsHashes → Bool
  kept_recorded blobs m = all (λ (p : ℕ × String). has_index blobs p.0 || is_recorded hashes p) m

  all-remove :
      (i : ℕ) (blob : Blob) (blobs : IndexedBlobs) (m : BlobsHashes)
      → kept_recorded blobs (remove m i) ≡ kept_recorded ((i, blob) ∷ blobs) m
  unfolding remove
  all-remove i blob blobs [] = refl
  all-remove i blob blobs ((j, h) ∷ m) =
      ground (arith, nat_eq.beq_iff i j, nat_eq.beq_iff j i, all-remove i blob blobs m)

  all-collected :
      (m : BlobsHashes) (blobs : IndexedBlobs)
      → all (is_recorded hashes) (collected blob_hash m blobs)
        ≡ (kept_recorded blobs m && lasts_recorded blobs)
  unfolding collected lasts_recorded
  all-collected [] [] = refl
  all-collected ((j, h) ∷ m) [] = ground (arith, all-collected m [])
  all-collected m ((i, blob) ∷ blobs) =
      ground
        (arith, all-collected ((i, blob_hash blob) ∷ remove m i) blobs, all-remove i blob blobs m)

  pub includes_all-lasts :
      (blobs : IndexedBlobs)
      → includes_all hashes (blobs_hashes blob_hash blobs) ≡ lasts_recorded blobs
  unfolding includes_all
  includes_all-lasts blobs = all-collected [] blobs

module _ (decoders : Decoders) (blob_hash : Blob → String) where
  -- In front of blobs of which one has the index `i`, an output may list any blob at all at the
  -- index `i`: the node accepts it just as it accepts the output without that blob, while the blob
  -- that a contract reads at the index `i` is the one that was added.
  pub verify-duplicate :
      (tx : UnsettledBlobTransaction) (output : HyleOutput) (i : ℕ) (forged : Blob)
      → has_index output.blobs i ≡ true
      → (verify_hyle_output decoders blob_hash tx
            (record output { blobs = (i, forged) ∷ output.blobs })
          ≡ verify_hyle_output decoders blob_hash tx output)
        × (blob_at ((i, forged) ∷ output.blobs) i ≡ some forged)
  unfolding verify_hyle_output lasts_recorded
  verify-duplicate tx output i forged h =
      let whole = includes_all-lasts blob_hash tx.blobs_hash ((i, forged) ∷ output.blobs) in
      let rest = includes_all-lasts blob_hash tx.blobs_hash output.blobs in
      (ground (arith, whole, rest), ground (arith, nat_eq.beq_iff i i))
