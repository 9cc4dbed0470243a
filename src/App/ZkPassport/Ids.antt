-- ===== src/App/ZkPassport/Ids.antt =====
-- `unique_id` is made of the length of the address alone, so it does not identify a user.
use Prim.Native.String.{len}
use truth_seeker.Common.{◌≡◌, ◌≢◌, refl, String, none, some, arith, string_eq}
use truth_seeker.App.ZkPassport.{
  ZkPassport, ZkPassportProof, VerifiedUser, unique_id_of, new_user, verify_identity,
  get_verified_user,
}
use truth_seeker.App.ZkPassport.Verify.{IsAccepted, address_of, get-verify}

-- Two people with addresses of one length, both new to the contract and both accepted, are stored
-- under their two addresses with one and the same `unique_id`.
pub unique_ids_collide :
    (s : ZkPassport) (p q : ZkPassportProof) (hyli : String)
    → IsAccepted p
    → IsAccepted q
    → address_of p ≢ address_of q
    → len (address_of p) ≡ len (address_of q)
    → get_verified_user s (address_of p) ≡ none
    → get_verified_user s (address_of q) ≡ none
    → let s' = (verify_identity (verify_identity s p hyli).0 q hyli).0 in
      (u : VerifiedUser) × (v : VerifiedUser) × (get_verified_user s' (address_of p) ≡ some u)
      × (get_verified_user s' (address_of q) ≡ some v)
      × (u.user_address ≢ v.user_address)
      × (u.unique_id ≡ v.unique_id)
unfolding new_user unique_id_of
unique_ids_collide s p q hyli hp hq ne same np nq =
    let s₁ = (verify_identity s p hyli).0 in
    (
      new_user p,
      new_user q,
      ground (
        arith,
        get-verify s₁ q hyli (address_of p) hq,
        get-verify s p hyli (address_of p) hp,
        string_eq.beq_iff (address_of p) (address_of p),
      ),
      ground (
        arith,
        get-verify s₁ q hyli (address_of q) hq,
        get-verify s p hyli (address_of q) hp,
        string_eq.beq_iff (address_of q) (address_of q),
        string_eq.beq_iff (address_of p) (address_of q),
      ),
      ne,
      rw same refl,
    )
