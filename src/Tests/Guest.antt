-- ===== src/Tests/Guest.antt =====
-- The theorems on the loop of a proved program at concrete inputs.
use truth_seeker.Common.{ℕ, ◌+◌, ◌≡◌, refl, arith, false, String, none, List, [], ◌∷◌, ok}
use truth_seeker.Sdk.Types.{Bytes, Blob, Calldata, HyleOutput}
use truth_seeker.Sdk.Context.{ExecutionContext}
use truth_seeker.Sdk.Guest.{ZkContract, execute}
use truth_seeker.Sdk.Guest.Chains.{IsLinked, IsConsuming, execute-IsLinked, execute_unlinked}

abbrev unconsumed : List Blob → Bytes
unconsumed _ = 255 ∷ []

abbrev call : String → Calldata
call tx = record {
  tx_hash = tx;
  identity = "bob@wallet";
  blobs = [];
  tx_blob_count = 0;
  index = 0;
  tx_ctx = none;
  private_input = [];
}

abbrev spare : Blob
spare = record { contract_name = "hyllar"; payload = [] }

-- what a run leaves in its context: nothing, or a call
abbrev context : List Blob → ExecutionContext
context left = record { callees_blobs = left; caller = "bob@wallet"; contract_name = "counter" }

-- A counter that each call moves on; `left` is what a call leaves in the context.
abbrev counter : List Blob → ZkContract ℕ ℕ
counter left = record {
  execute = λ n _. (n + 1, ok (n ∷ [], context left, []));
  commit = λ n. n ∷ [];
  initialize = λ n. (n, ok tt);
  initial_state = λ n. n;
  revert = λ _ n. n;
  on_success = λ n. (n, n ∷ []);
}

counter-IsConsuming : IsConsuming (counter [])
counter-IsConsuming z z' calldata output ctx effects ran = ground arith

execute-IsLinked_example :
    IsLinked (5 ∷ []) (execute unconsumed (counter []) 5 (call "one" ∷ call "two" ∷ []))
execute-IsLinked_example =
    execute-IsLinked unconsumed (counter []) 5 (call "one" ∷ call "two" ∷ []) counter-IsConsuming

execute_unlinked_example :
    (o : HyleOutput) × (p : HyleOutput) × (execute unconsumed
        (counter (spare ∷ []))
        5
        (call "one" ∷ call "two" ∷ [])
      ≡ o ∷ p ∷ [])
    × (o.success ≡ false)
    × (o.next_state ≡ 5 ∷ [])
    × (p.initial_state ≡ 6 ∷ [])
execute_unlinked_example =
    execute_unlinked unconsumed (counter (spare ∷ [])) 5 6 (call "one") (call "two") (5 ∷ [])
      (context (spare ∷ [])) [] spare [] refl refl refl
