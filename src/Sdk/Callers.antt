-- ===== src/Sdk/Callers.antt =====
-- Whom `check_caller_callees` takes for the caller of a blob.
use truth_seeker.Common.{
  ℕ, ◌≡◌, ◌≢◌, true, false, String, none, some, List, arith, nat_eq, list_eq, any, ok, ◌⊎◌, inl,
  inr, Option-cases, nat_beq_iff, list_beq_iff,
}
use truth_seeker.Sdk.Types.{Blob, blob_at, Calldata}
use truth_seeker.Sdk.Context.{
  Borsh, StructuredBlobData, claims, indices_with_caller, check_caller, check_caller_callees,
}

module _ {A : Type 0} (borsh : Borsh A) (c : Calldata) where
  -- The blob at `i` is another blob of the call, and it lists this blob among its callees.
  pub record IsCaller (i : ℕ) (name : String) : Type 0 where
    pub blob : Blob
    pub there : blob_at c.blobs i ≡ some blob
    pub other : i ≢ c.index
    pub claimed : claims borsh c.index blob ≡ true
    pub named : name ≡ blob.contract_name

  check_caller-IsCaller :
      (i : ℕ) (name : String) → check_caller borsh c i ≡ ok name → IsCaller i name
  unfolding check_caller
  check_caller-IsCaller i name h = elim (Option-cases (blob_at c.blobs i)) [
    | inl absent ↦ ground (arith, nat_beq_iff i c.index)
    | inr (b, there) ↦ record {
      blob = b;
      there = there;
      other = ground (arith, nat_beq_iff i c.index);
      claimed = ground arith;
      named = ground arith;
    }
  ]

  -- Whom a blob takes for its caller: a blob that it names, and that lists it among its callees,
  -- or, if it names none, the identity of the transaction; then no blob lists it.
  pub check_caller_callees_sound :
      (s : StructuredBlobData A) (name : String)
      → check_caller_callees borsh c s ≡ ok name
      → ((i : ℕ) × (s.caller ≡ some i) × IsCaller i name)
        ⊎ ((s.caller ≡ none)
            × (name ≡ c.identity)
            × (any (λ (p : ℕ × Blob). claims borsh c.index p.1) c.blobs ≡ false))
  unfolding check_caller_callees
  check_caller_callees_sound s name h = elim (Option-cases s.caller) [
    | inl absent ↦ inr (absent, ground arith, ground arith)
    | inr (i, named) ↦ inl (i, named, check_caller-IsCaller i name (ground arith))
  ]

  -- If a blob has a list of callees and its caller is accepted, the list is that of the blobs that
  -- name it as their caller, in order.
  pub check_caller_callees_listed :
      (s : StructuredBlobData A) (name : String) (callees : List ℕ)
      → check_caller_callees borsh c s ≡ ok name
      → s.callees ≡ some callees
      → callees ≡ indices_with_caller borsh c.index c.blobs
  unfolding check_caller_callees
  check_caller_callees_listed s name callees h listed =
      ground (arith, list_beq_iff callees (indices_with_caller borsh c.index c.blobs))
