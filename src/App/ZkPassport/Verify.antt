-- ===== src/App/ZkPassport/Verify.antt =====
-- What `verify_identity` and `check_verification` of the passport contract do, branch by branch.
use text.Mathlib.Text.{starts_with}
use truth_seeker.Common.{
  ◌≤◌, ◌≡◌, refl, true, false, String, none, some, List, [], ◌∷◌, ◌==◌, ==_refl, nat_eq, string_eq,
  arith, any, find, push, ok, err, if◌then◌else◌, Bool-cases, inl, inr,
}
use truth_seeker.App.ZkPassport.{
  ZkPassport, ZkPassportProof, VerifiedUser, Error, Reply, already_verified, verified, unique_id_of,
  is_user, new_user, verify_identity, get_verified_user,
}

-- The proof passes the three checks of `verify_identity`.
pub record IsAccepted (p : ZkPassportProof) : Type 0 where
  pub name : p.name ≡ "outer_evm_count_5"
  pub age : 18 ≤ p.committed_inputs.compare_age_evm.min_age
  pub address : starts_with p.committed_inputs.bind_evm.user_address "0x" ≡ true

abbrev pub address_of : ZkPassportProof → String
address_of p = p.committed_inputs.bind_evm.user_address

find-push :
    (a : String) (us : List VerifiedUser) (u : VerifiedUser)
    → find (is_user a) (push us u)
      ≡ (elim (find (is_user a) us) [ some v ↦ some v | none ↦ find (is_user a) (u ∷ []) ])
find-push a [] u = ground arith
find-push a (v ∷ us) u = ground (arith, find-push a us u)

any-find :
    (a : String) (us : List VerifiedUser) → any (is_user a) us ≡ false → find (is_user a) us ≡ none
any-find a [] h = refl
any-find a (u ∷ us) h = ground (arith, any-find a us)

find-any :
    (a b : String) (us : List VerifiedUser)
    → any (is_user a) us ≡ true
    → find (is_user b) us ≡ none
    → (a == b) ≡ false
find-any a b [] h k = cc
find-any a b (u ∷ us) h k = ground (
  arith,
  find-any a b us,
  string_eq.beq_iff a b,
  string_eq.beq_iff u.user_address a,
  string_eq.beq_iff u.user_address b,
)

-- An accepted proof is never refused; a first one is added at the end, a repeated one changes nothing.
pub verify_accepted :
    (s : ZkPassport) (p : ZkPassportProof) (hyli : String)
    → IsAccepted p
    → verify_identity s p hyli ≡ (
        if any (is_user (address_of p)) s.verified_users then (s, ok already_verified) else (
          record { verified_users = push s.verified_users (new_user p) },
          ok (verified (address_of p) (unique_id_of (address_of p))),
        ))
unfolding verify_identity
verify_accepted s p hyli h =
    rw (h.name, h.address, ==_refl {A = String} "outer_evm_count_5") (ground arith)

-- A result that is no error comes from an accepted proof.
pub verify_sound :
    (s : ZkPassport) (p : ZkPassportProof) (hyli : String) (r : Reply)
    → (verify_identity s p hyli).1 ≡ ok r
    → IsAccepted p
unfolding verify_identity
verify_sound s p hyli r h = ground (arith, string_eq.beq_iff p.name "outer_evm_count_5")

-- A refused proof leaves the state as it was.
pub verify_refused :
    (s : ZkPassport) (p : ZkPassportProof) (hyli : String) (e : Error)
    → (verify_identity s p hyli).1 ≡ err e
    → (verify_identity s p hyli).0 ≡ s
unfolding verify_identity
verify_refused s p hyli e h = ground arith

-- After an accepted proof the look-up finds a user of its address: the one that was there, or the
-- new one. The users of every other address are found as before.
pub get-verify :
    (s : ZkPassport) (p : ZkPassportProof) (hyli a : String)
    → IsAccepted p
    → get_verified_user (verify_identity s p hyli).0 a ≡ (elim (get_verified_user s a) [
      | some u ↦ some u
      | none ↦ if address_of p == a then some (new_user p) else none
    ])
unfolding get_verified_user new_user
get-verify s p hyli a h =
    rw verify_accepted (elim (Bool-cases (any (is_user (address_of p)) s.verified_users)) [
      | inl old ↦ rw old (ground (arith, find-any (address_of p) a s.verified_users old))
      | inr new ↦ rw (new, find-push) (ground arith)
    ])
