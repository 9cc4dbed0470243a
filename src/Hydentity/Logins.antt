-- ===== src/Hydentity/Logins.antt =====
-- A registration, and the logins that come after it.
use Prim.Native.String.{String, ◌++◌}
use truth_seeker.Common.{
  ℕ, ◌+◌, ◌%◌, ◌^◌, ◌≡◌, ◌≢◌, refl, ap, ◌∙◌, Bool, true, false, none, some, [], ◌∷◌, string_eq,
  nat_eq, arith, Result, ok, err, inl, inr, Option-cases,
}
use truth_seeker.Common.Maps.{get, insert, get-insert}
use truth_seeker.Sdk.Types.{Bytes, as_bytes}
use truth_seeker.Hydentity.{
  AccountInfo, Hydentity, IdentityError, identity_exists, invalid_nonce, split, hash_of, build_id,
  register_identity, verify_identity, check_known, store_new,
}
use truth_seeker.Hydentity.Ids.{has_colon, split_at_colon}

module _ (sha256 : Bytes → Bytes) (hex : Bytes → String) where
  abbrev moved_on : AccountInfo → AccountInfo
  moved_on info = record info { nonce = (info.nonce + 1) % 2 ^ 32 }

  check_known_accepts :
      (h h' : Hydentity) (account password : String) (nonce : ℕ) (info : AccountInfo)
      → check_known sha256 hex h account nonce password info ≡ (h', ok true)
      → (nonce ≡ info.nonce)
        × (info.hash ≡ hash_of sha256 hex account password)
        × (h'.identities ≡ insert h.identities account (moved_on info))
  check_known_accepts h h' account password nonce info done = (
    ground arith,
    ground (arith, string_eq.beq_iff info.hash (hash_of sha256 hex account password)),
    ground arith,
  )

  check_known_stale :
      (h : Hydentity) (account password : String) (nonce : ℕ) (info : AccountInfo)
      → nonce ≢ info.nonce
      → check_known sha256 hex h account nonce password info ≡ (h, err invalid_nonce)
  check_known_stale h account password nonce info stale = ground arith

  get_inserted :
      (h h' : Hydentity) (account : String) (info : AccountInfo)
      → h'.identities ≡ insert h.identities account info
      → get h'.identities account ≡ some info
  get_inserted h h' account info same =
      ground
        (arith, get-insert h.identities account account info, string_eq.beq_iff account account)

  moved_on_ne : (n : ℕ) → n ≢ (n + 1) % 2 ^ 32
  moved_on_ne n = omega arith

  verify_of :
      (h : Hydentity) (account password : String) (nonce : ℕ) (info : AccountInfo)
      → get h.identities account ≡ some info
      → verify_identity sha256 hex h account nonce password
        ≡ check_known sha256 hex h account nonce password info
  unfolding verify_identity
  verify_of h account password nonce info known = ground arith

  -- A login moves the nonce of its account on, so the same one is refused from then on, whatever
  -- the password.
  verify_identity_replay :
      (h h' : Hydentity) (account password other : String) (nonce : ℕ)
      → verify_identity sha256 hex h account nonce password ≡ (h', ok true)
      → verify_identity sha256 hex h' account nonce other ≡ (h', err invalid_nonce)
  unfolding verify_identity
  verify_identity_replay h h' account password other nonce done =
      elim (Option-cases (get h.identities account)) [
        | inl absent ↦ absurd (ground arith)
        | inr (info, known) ↦
            let (same, _, stored) =
              check_known_accepts h h' account password nonce info (ground arith) in
            verify_of h' account other nonce (moved_on info)
              (get_inserted h h' account (moved_on info) stored)
            ∙ check_known_stale h' account other nonce (moved_on info)
                (ground (arith, moved_on_ne info.nonce))
      ]

  abbrev fresh_info : String → String → AccountInfo
  fresh_info name password = record { hash = hash_of sha256 hex name password; nonce = 0 }

  abbrev with_fresh : Hydentity → String → String → Hydentity
  with_fresh h name password = record {
    identities = insert h.identities name (fresh_info name password);
  }

  -- a registration whose text falls apart into the name and the hash
  register_of :
      (h : Hydentity) (id name password : String)
      → split id ≡ (name, hash_of sha256 hex name password ∷ [])
      → register_identity sha256 hex h id password
        ≡ store_new sha256 hex h name (fresh_info name password)
  unfolding register_identity
  register_of h id name password apart = ground (
    arith,
    string_eq.beq_iff (hash_of sha256 hex name password) (hash_of sha256 hex name password),
  )

  split_id :
      (name password : String)
      → has_colon name ≡ false
      → ((b : Bytes) → has_colon (hex b) ≡ false)
      → split (build_id sha256 hex name password) ≡ (name, hash_of sha256 hex name password ∷ [])
  unfolding build_id
  split_id name password plain plain_hex =
      split_at_colon name (hash_of sha256 hex name password) plain
        (plain_hex (sha256 (as_bytes (name ++ ":" ++ password))))

  check_known_wrong :
      (h : Hydentity) (account password : String) (info : AccountInfo)
      → info.hash ≢ hash_of sha256 hex account password
      → check_known sha256 hex h account info.nonce password info ≡ (h, ok false)
  check_known_wrong h account password info differ =
      ground (arith, string_eq.beq_iff info.hash (hash_of sha256 hex account password))

  check_known_right :
      (h : Hydentity) (account password : String) (info : AccountInfo)
      → info.hash ≡ hash_of sha256 hex account password
      → (check_known sha256 hex h account info.nonce password info).1 ≡ ok true
  check_known_right h account password info same =
      ground (arith, string_eq.beq_iff info.hash (hash_of sha256 hex account password))

  -- A new name, registered with the id that is built of it and a password, can log in with that
  -- password at the nonce 0, and not with a password of another hash. The name has no colon, nor
  -- has the hexadecimal text of a hash.
  pub register_identity_login :
      (h : Hydentity) (name password other : String)
      → has_colon name ≡ false
      → ((b : Bytes) → has_colon (hex b) ≡ false)
      → get h.identities name ≡ none
      → hash_of sha256 hex name password ≢ hash_of sha256 hex name other
      → (h' : Hydentity) × (register_identity sha256 hex h
            (build_id sha256 hex name password)
            password
          ≡ (h', ok tt))
        × ((verify_identity sha256 hex h' name 0 password).1 ≡ ok true)
        × (verify_identity sha256 hex h' name 0 other ≡ (h', ok false))
  register_identity_login h name password other plain plain_hex fresh differ =
      let h' = with_fresh h name password in
      let info = fresh_info name password in
      let known = get_inserted h h' name info refl in
      (
        h',
        register_of h (build_id sha256 hex name password) name password
              (split_id name password plain plain_hex)
            ∙ ground arith,
        ap (λ (p : Hydentity × Result IdentityError Bool). p.1)
              (verify_of h' name password 0 info known)
            ∙ check_known_right h' name password info refl,
        verify_of h' name other 0 info known ∙ check_known_wrong h' name other info differ,
      )

  -- A registration under a name that is taken answers with an error, yet what was stored under the
  -- name is gone: the password is the new one, and the nonce is 0 again.
  register_identity_taken :
      (h : Hydentity) (name password : String) (info : AccountInfo)
      → has_colon name ≡ false
      → ((b : Bytes) → has_colon (hex b) ≡ false)
      → get h.identities name ≡ some info
      → (h' : Hydentity) × (register_identity sha256 hex h
            (build_id sha256 hex name password)
            password
          ≡ (h', err identity_exists))
        × ((verify_identity sha256 hex h' name 0 password).1 ≡ ok true)
  register_identity_taken h name password info plain plain_hex known =
      let h' = with_fresh h name password in
      let new_info = fresh_info name password in
      (
        h',
        register_of h (build_id sha256 hex name password) name password
              (split_id name password plain plain_hex)
            ∙ ground arith,
        ap (λ (p : Hydentity × Result IdentityError Bool). p.1)
              (verify_of h' name password 0 new_info (get_inserted h h' name new_info refl))
            ∙ check_known_right h' name password new_info refl,
      )
