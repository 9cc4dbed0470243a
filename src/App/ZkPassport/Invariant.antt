-- ===== src/App/ZkPassport/Invariant.antt =====
-- What holds of every state that the passport contract reaches.
use text.Mathlib.Text.{starts_with}
use truth_seeker.Common.{
  ◌⊎◌, ◌≡◌, refl, true, false, String, List, [], ◌∷◌, arith, string_eq, any, any-append, push, All,
  All-append, Result, ok, err, inl, inr, Bool-cases, Option-cases, Result-cases,
}
use truth_seeker.Sdk.Types.{blob_at, Bytes, Blob, Calldata, HyleOutput}
use truth_seeker.Sdk.Context.{SdkError, ExecutionContext, Borsh, parse_raw_calldata}
use truth_seeker.Sdk.Output.{as_hyle_output}
use truth_seeker.App.ZkPassport.{
  ZkPassport, ZkPassportProof, ZkPassportAction, verify_identity_action, check_verification_action,
  VerifiedUser, Error, Reply, unique_id_of, is_user, new_user, verify_identity, execute_action,
  dispatch, run_result, handle,
}
use truth_seeker.App.ZkPassport.Verify.{
  IsAccepted, address_of, verify_accepted, verify_sound, verify_refused,
}

-- A user as `verify_identity` records one.
pub record IsRecorded (u : VerifiedUser) : Type 0 where
  pub address : starts_with u.user_address "0x" ≡ true
  pub id : u.unique_id ≡ unique_id_of u.user_address
  pub age : u.age_verified ≡ true

-- No address is listed twice.
abbrev pub Distinct : List VerifiedUser → Type 0
Distinct [] = Unit
Distinct (u ∷ us) = (any (is_user u.user_address) us ≡ false) × Distinct us

pub record IsValid (s : ZkPassport) : Type 0 where
  pub recorded : All IsRecorded s.verified_users
  pub distinct : Distinct s.verified_users

Distinct-push :
    (us : List VerifiedUser) (u : VerifiedUser)
    → Distinct us
    → any (is_user u.user_address) us ≡ false
    → Distinct (push us u)
Distinct-push [] u d h = (refl, tt)
Distinct-push (v ∷ us) u d h = ground (
  arith,
  any-append (is_user v.user_address) us (u ∷ []),
  string_eq.beq_iff u.user_address v.user_address,
  string_eq.beq_iff v.user_address u.user_address,
  Distinct-push us u d.1,
)

new_user-IsRecorded : (p : ZkPassportProof) → IsAccepted p → IsRecorded (new_user p)
unfolding new_user
new_user-IsRecorded p h = record { address = h.address; id = refl; age = refl }

verify-IsValid :
    (s : ZkPassport) (p : ZkPassportProof) (hyli : String)
    → IsValid s
    → IsValid (verify_identity s p hyli).0
verify-IsValid s p hyli h = elim (Result-cases (verify_identity s p hyli).1) [
  | inr (e, refused) ↦ rw (verify_refused s p hyli e refused) h
  | inl (r, done) ↦
      let accepted = verify_sound s p hyli r done in
      rw (verify_accepted s p hyli accepted)
        (elim (Bool-cases (any (is_user (address_of p)) s.verified_users)) [
          | inl old ↦ rw old h
          | inr new ↦ rw new (record {
            recorded =
                All-append IsRecorded s.verified_users (new_user p ∷ []) h.recorded
                  (new_user-IsRecorded p accepted, tt);
            distinct =
                unfold new_user in Distinct-push s.verified_users (new_user p) h.distinct new;
          })
        ])
]

execute_action-IsValid :
    (s : ZkPassport) (action : ZkPassportAction) → IsValid s → IsValid (execute_action s action).0
unfolding execute_action
execute_action-IsValid s (verify_identity_action p hyli) h = verify-IsValid s p hyli h
execute_action-IsValid s (check_verification_action a) h = h

-- A run that ends in an error has changed nothing.
execute_action-err :
    (s : ZkPassport) (action : ZkPassportAction) (e : Error)
    → (execute_action s action).1 ≡ err e
    → (execute_action s action).0 ≡ s
unfolding execute_action
execute_action-err s (verify_identity_action p hyli) e h = verify_refused s p hyli e h
execute_action-err s (check_verification_action a) e h = refl

-- `parse_raw_calldata` gives a context with no callees.
abbrev NoCallees : Result SdkError (ZkPassportAction × ExecutionContext) → Type 0
NoCallees (ok (action, ctx)) = ctx.callees_blobs ≡ []
NoCallees (err e) = Unit

parse-NoCallees :
    (borsh : Borsh ZkPassportAction) (c : Calldata) → NoCallees (parse_raw_calldata borsh c)
unfolding parse_raw_calldata
parse-NoCallees borsh c = elim (Option-cases (blob_at c.blobs c.index)) [
  | inl absent ↦ rw absent tt
  | inr (b, present) ↦ rw present (elim (Option-cases (borsh.raw b.payload)) [
    | inl bad ↦ rw bad tt
    | inr (a, good) ↦ rw good refl
  ])
]

module _ (commit : ZkPassport → Bytes) (print : Reply → Bytes) (message : Error → Bytes)
    (unconsumed : List Blob → Bytes) where
  -- What `handle` promises of the state and the output that it gives for a start state.
  pub record IsHandled (s s' : ZkPassport) (out : HyleOutput) : Type 0 where
    pub valid : IsValid s'
    pub initial : out.initial_state ≡ commit s
    pub next : out.next_state ≡ commit s'
    pub kept : (out.success ≡ true) ⊎ (s' ≡ s)

  output-IsHandled :
      (s : ZkPassport) (c : Calldata) (r : Result SdkError (ZkPassportAction × ExecutionContext))
      → IsValid s
      → NoCallees r
      → let (s', run) = dispatch s r in
        IsHandled s s'
          (as_hyle_output unconsumed (commit s) (commit s') c (run_result print message run))
  unfolding dispatch as_hyle_output
  output-IsHandled s c (err e) h n = ground arith
  output-IsHandled s c (ok (action, ctx)) h n = elim (Result-cases (execute_action s action).1) [
    | inl (r, done) ↦
        rw (done, n)
          (record {
            valid = execute_action-IsValid s action h;
            initial = refl;
            next = refl;
            kept = inl refl;
          })
    | inr (e, refused) ↦
        rw (refused, execute_action-err s action e refused)
          (record { valid = h; initial = refl; next = refl; kept = inr refl })
  ]

  -- From a valid state, whatever the calldata: the new state is valid, the output commits to the
  -- states before and after the run, and a run that is not a success has left the state alone.
  pub handle-IsHandled :
      (borsh : Borsh ZkPassportAction) (s : ZkPassport) (c : Calldata)
      → IsValid s
      → let (s', out) = handle borsh commit print message unconsumed s c in IsHandled s s' out
  unfolding handle
  handle-IsHandled borsh s c h =
      output-IsHandled s c (parse_raw_calldata borsh c) h (parse-NoCallees borsh c)
