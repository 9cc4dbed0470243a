-- ===== src/Sdk/Secp256k1/Check.antt =====
-- What an accepted signature blob is.
use mathlib.Core.List.{Memᴰ}
use mathlib.Core.List.Memᴰ.{head, tail}
use truth_seeker.Common.{
  ℕ, ◌≡◌, sym, Bool, true, Option, some, none, List, ◌∷◌, [], find, ◌==◌, arith, string_eq, list_eq,
  list_beq_iff, nat_eq, ok, Result-cases, Option-cases, Bool-cases, inl, inr,
}
use truth_seeker.Sdk.Types.{Bytes, Blob, Calldata}
use truth_seeker.Sdk.Secp256k1.{Secp256k1Blob, find_blob, expect}

-- What `find` finds is in the list, and passes the test.
find_sound :
    {A : Type 0} (p : A → Bool) (l : List A) (x : A) → find p l ≡ some x → Memᴰ x l × (p x ≡ true)
find_sound p [] x h = absurd (ground arith)
find_sound p (y ∷ ys) x h = elim (Bool-cases (p y)) [
  | inl good ↦ (head (ground arith), ground arith)
  | inr bad ↦ let (there, good) = find_sound p ys x (ground arith) in (tail there, good)
]

module _ (decode : Bytes → Option Secp256k1Blob) (sha256 : Bytes → Bytes) where
  -- The blob is one of the transaction's, of the contract `secp256k1`.
  pub record IsNative (c : Calldata) (blob : Blob) : Type 0 where
    pub index : ℕ
    pub held : Memᴰ (index, blob) c.blobs
    pub name : blob.contract_name ≡ "secp256k1"

  -- The transaction holds a blob of the contract `secp256k1` that decodes to the signature, of the
  -- transaction's identity and over the data.
  pub record IsSigned (c : Calldata) (data_bytes : Bytes) (secp : Secp256k1Blob) : Type 0 where
    pub blob : Blob
    pub native : IsNative c blob
    pub decoded : decode blob.payload ≡ some secp
    pub identity : secp.identity ≡ c.identity
    pub hash : secp.message_hash ≡ sha256 data_bytes

  find_blob-IsNative :
      (c : Calldata) (i : Option ℕ) (blob : Blob)
      → find_blob decode sha256 c i ≡ ok blob
      → IsNative c blob
  unfolding find_blob
  find_blob-IsNative c none blob h =
      elim (Option-cases (find (λ (p : ℕ × Blob). (p.1).contract_name == "secp256k1") c.blobs)) [
        | inl absent ↦ absurd (ground arith)
        | inr ((index, b), found) ↦
            let (held, good) =
              find_sound (λ (p : ℕ × Blob). (p.1).contract_name == "secp256k1") c.blobs (index, b)
                found in
            let same : b ≡ blob = ground arith in
            rw (sym same) (record {
              index = index;
              held = held;
              name = ground (arith, string_eq.beq_iff b.contract_name "secp256k1");
            })
      ]
  find_blob-IsNative c (some idx) blob h =
      elim (Option-cases (find (λ (p : ℕ × Blob). p.0 == idx) c.blobs)) [
        | inl absent ↦ absurd (ground arith)
        | inr ((index, b), found) ↦
            let (held, _) = find_sound (λ (p : ℕ × Blob). p.0 == idx) c.blobs (index, b) found in
            let same : b ≡ blob = ground (arith, string_eq.beq_iff b.contract_name "secp256k1") in
            rw (sym same) (record {
              index = index;
              held = held;
              name = ground (arith, string_eq.beq_iff b.contract_name "secp256k1");
            })
      ]

  -- A signature blob that is accepted is of the transaction's identity and over the expected data.
  pub expect-IsSigned :
      (c : Calldata) (data_bytes : Bytes) (i : Option ℕ) (secp : Secp256k1Blob)
      → expect decode sha256 c data_bytes i ≡ ok secp
      → IsSigned c data_bytes secp
  unfolding expect
  expect-IsSigned c data_bytes i secp h = elim (Result-cases (find_blob decode sha256 c i)) [
    | inr (e, failed) ↦ absurd (ground arith)
    | inl (b, found) ↦ elim (Option-cases (decode b.payload)) [
      | inl bad ↦ absurd (ground arith)
      | inr (s, good) ↦ record {
        blob = b;
        native = find_blob-IsNative c i b found;
        decoded = ground (
          arith,
          string_eq.beq_iff s.identity c.identity,
          list_beq_iff s.message_hash (sha256 data_bytes),
        );
        identity = ground (
          arith,
          string_eq.beq_iff s.identity c.identity,
          list_beq_iff s.message_hash (sha256 data_bytes),
        );
        hash = ground (
          arith,
          string_eq.beq_iff s.identity c.identity,
          list_beq_iff s.message_hash (sha256 data_bytes),
        );
      }
    ]
  ]
