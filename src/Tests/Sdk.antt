-- ===== src/Tests/Sdk.antt =====
-- The theorems on callers and callees at concrete inputs.
use truth_seeker.Common.{
  ℕ, ◌≡◌, refl, false, String, Option, none, some, List, [], ◌∷◌, ◌==◌, nat_eq, list_eq,
  if◌then◌else◌, any, ◌⊎◌,
}
use truth_seeker.Sdk.Types.{Bytes, Blob, Calldata}
use truth_seeker.Sdk.Context.{
  StructuredBlobData, Borsh, ExecutionContext, claims, check_caller_callees, check_caller,
}
use truth_seeker.Sdk.Callers.{IsCaller, check_caller_callees_sound}

abbrev blob : String → ℕ → Blob
blob name tag = record { contract_name = name; payload = tag ∷ [] }

-- An encoding in which the tag 1 is a blob that calls the blob at 1, and 2 one that is called by
-- the blob at 0.
abbrev decode : {A : Type 0} → A → Bytes → Option (StructuredBlobData A)
decode a bytes =
    if bytes == 1 ∷ []
    then some (record { caller = none; callees = some (1 ∷ []); parameters = a })
    else if bytes == 2 ∷ []
    then some (record { caller = some 0; callees = none; parameters = a })
    else none

abbrev borsh : Borsh ℕ
borsh = record { raw = λ _. none; structured = decode 7; header = decode tt }

abbrev call_at : ℕ → Calldata
call_at index = record {
  tx_hash = "tx";
  identity = "bob@wallet";
  blobs = (0, blob "amm" 1) ∷ (1, blob "token" 2) ∷ [];
  tx_blob_count = 2;
  index = index;
  tx_ctx = none;
  private_input = [];
}

abbrev called : StructuredBlobData ℕ
called = record { caller = some 0; callees = none; parameters = 7 }

abbrev amm : String
amm = "amm"

check_caller_callees_sound_example :
    ((i : ℕ) × (called.caller ≡ some i) × IsCaller borsh (call_at 1) i "amm")
    ⊎ ((called.caller ≡ none)
        × (amm ≡ (call_at 1).identity)
        × (any (λ (p : ℕ × Blob). claims borsh 1 p.1) (call_at 1).blobs ≡ false))
unfolding check_caller_callees check_caller
check_caller_callees_sound_example = check_caller_callees_sound borsh (call_at 1) called amm refl

abbrev context : List Blob → ExecutionContext
context blobs = record { callees_blobs = blobs; caller = "bob@wallet"; contract_name = "amm" }
