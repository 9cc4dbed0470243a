-- ===== src/Node/Registration.antt =====
-- node_state/contract_registration.rs: the tests on a contract that is to be registered.
use Prim.Native.Char.{code}
use Prim.Native.String.{String}
use mathlib.Core.Option
use truth_seeker.Common.{
  ℕ, Bool, Option, none, some, ◌==◌, string_eq, nat_eq, not, ◌&&◌, ◌||◌, is_some, ltb, length,
  if◌then◌else◌, Result, ok, err, ◌>>◌, bail_if,
}
use truth_seeker.Sdk.Types.{Bytes}

pub data RegistrationError : Type 0 where
  no_dot empty_part not_subdomain invalid_program_id state_too_long : RegistrationError

-- `split_once(".")`
unfoldable pub split_once : String → Option (String × String)
split_once String.[] = none
split_once (String.◌∷◌ c s) =
    let rest = split_once s in
    if code c == 46
    then some ("", s)
    else Option.map (λ (p : String × String). (String.◌∷◌ c p.0, p.1)) rest

-- `contains(".")`
abbrev pub has_dot : String → Bool
has_dot s = is_some (split_once s)

abbrev pub is_empty_text : String → Bool
is_empty_text s = s == ""

-- the part behind the special cases
unfoldable pub check_subdomain : String → String → Result RegistrationError Unit
check_subdomain owner new_name = elim (split_once new_name) [
  | none ↦ err no_dot
  | some (name, tld) ↦
      if is_empty_text name || is_empty_text tld
      then err empty_part
      else bail_if (not (tld == owner)) not_subdomain
]

unfoldable pub validate_contract_name_registration : String → String → Result RegistrationError Unit
validate_contract_name_registration owner new_name =
    if owner == "hyle"
    then if new_name == "hyle" || not (is_empty_text new_name) && not (has_dot new_name)
      then ok tt
      else check_subdomain owner new_name
    else if owner == new_name && not (is_empty_text owner)
    then ok tt
    else check_subdomain owner new_name

abbrev pub max_state_commitment_size : ℕ
max_state_commitment_size = 10_485_760

unfoldable pub validate_state_commitment_size : Bytes → Result RegistrationError Unit
validate_state_commitment_size state =
    bail_if (ltb max_state_commitment_size (length state)) state_too_long

-- `valid_program` is `validate_program_id` of hyle-verifiers, which asks the proving systems.
module _ (valid_program : String → Bytes → Bool) where
  unfoldable pub validate_contract_registration_metadata :
      String → String → String → Bytes → Bytes → Result RegistrationError Unit
  validate_contract_registration_metadata owner new_name verifier program_id state = do
    validate_contract_name_registration owner new_name
    bail_if (not (valid_program verifier program_id)) invalid_program_id
    validate_state_commitment_size state
