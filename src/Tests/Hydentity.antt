-- ===== src/Tests/Hydentity.antt =====
-- The theorem on registrations and logins at a concrete input.
use truth_seeker.Common.{
  ◌≡◌, refl, Bool, true, false, String, none, some, [], ◌∷◌, ok, arith, string_eq, from_utf8,
  length, nat_eq, ◌==◌,
}
use truth_seeker.Common.Maps.{get}
use truth_seeker.Sdk.Types.{Bytes, as_bytes}
use truth_seeker.Hydentity.{
  Hydentity, build_id, register_identity, verify_identity, parse_id, split,
}
use truth_seeker.Hydentity.Ids.{has_colon}
use truth_seeker.Hydentity.Logins.{register_identity_login}

abbrev sha256 : Bytes → Bytes
sha256 bytes = length bytes ∷ []

abbrev digits : Bool → String
digits true = "09"
digits false = "0a"

abbrev hex : Bytes → String
hex [] = "00"
hex (n ∷ _) = digits (n == 9)

digits_plain : (b : Bool) → has_colon (digits b) ≡ false
unfolding has_colon
digits_plain true = refl
digits_plain false = refl

hex_plain : (b : Bytes) → has_colon (hex b) ≡ false
unfolding has_colon
hex_plain [] = refl
hex_plain (n ∷ _) = digits_plain (n == 9)

abbrev nobody : Hydentity
nobody = record { identities = [] }

register_identity_login_example :
    (h' : Hydentity) × (register_identity sha256 hex nobody
        (build_id sha256 hex "alice" "pwd")
        "pwd"
      ≡ (h', ok tt))
    × ((verify_identity sha256 hex h' "alice" 0 "pwd").1 ≡ ok true)
    × (verify_identity sha256 hex h' "alice" 0 "word" ≡ (h', ok false))
unfolding has_colon get as_bytes
register_identity_login_example =
    register_identity_login sha256 hex nobody "alice" "pwd" "word" refl hex_plain refl
      (λ same. absurd (ground (arith, string_eq.beq_iff "09" "0a")))

parse_built : parse_id (build_id sha256 hex "alice" "pwd") ≡ ok ("alice", "09")
unfolding parse_id build_id split as_bytes
parse_built = refl

text_of_bytes : from_utf8 (0x41 ∷ 0xC3 ∷ 0xA9 ∷ 0xE2 ∷ 0x82 ∷ 0xAC ∷ []) ≡ some "Aé€"
unfolding from_utf8
text_of_bytes = refl

surrogate_refused : from_utf8 (0xED ∷ 0xA0 ∷ 0x80 ∷ []) ≡ none
unfolding from_utf8
surrogate_refused = refl
