-- ===== src/Node/Tld/Names.antt =====
-- Which contracts the contract `hyle` of node_state/hyle_tld.rs can register and delete.
use truth_seeker.Common.{
  ==_ne, [], ◌∷◌, ◌≡◌, ◌≢◌, refl, Bool, false, String, none, some, ◌==◌, string_eq, arith, ok, ◌⊎◌,
  inl, inr, Result-cases, Bool-cases, Option-cases,
}
use truth_seeker.Common.Maps.{get, get-insert}
use truth_seeker.Sdk.Types.{Bytes}
use truth_seeker.Node.Types.{RegisterContractAction, Decoders}
use truth_seeker.Node.Registration.{
  split_once, has_dot, check_subdomain, validate_contract_name_registration,
}
use truth_seeker.Node.Changes.{Contracts, Changes, register, all_fields}
use truth_seeker.Node.Tld.{handle_register_blob, or_default}

-- The names that the owner of a contract may register: its own, a direct subdomain of it, and for
-- `hyle` every name without a dot.
pub record IsSubdomain (owner name : String) : Type 0 where
  pub label : String
  pub labelled : label ≢ ""
  pub split : split_once name ≡ some (label, owner)

split_once_empty : split_once "" ≡ none
unfolding split_once
split_once_empty = refl

check_subdomain-IsSubdomain :
    (owner name : String) → check_subdomain owner name ≡ ok tt → IsSubdomain owner name
unfolding check_subdomain
check_subdomain-IsSubdomain owner name h = elim (Option-cases (split_once name)) [
  | inl absent ↦ ground arith
  | inr ((label, tld), found) ↦ record {
    label = label;
    labelled = λ e. ground (arith, string_eq.beq_iff label "", e);
    split = ground (arith, string_eq.beq_iff tld owner);
  }
]

-- A name that is accepted is one of these.
pub validate_name_sound :
    (owner name : String)
    → validate_contract_name_registration owner name ≡ ok tt
    → ((name ≡ owner) × (name ≢ ""))
      ⊎ (((owner ≡ "hyle") × (has_dot name ≡ false) × (name ≢ "")) ⊎ IsSubdomain owner name)
unfolding validate_contract_name_registration
validate_name_sound owner name h = elim (Result-cases (check_subdomain owner name)) [
  | inl (u, sub) ↦ inr (inr (check_subdomain-IsSubdomain owner name sub))
  | inr (e, other) ↦ elim (Bool-cases (owner == name)) [
    | inl same ↦ inl (
      ground (arith, string_eq.beq_iff owner name),
      λ e. ground (
        arith,
        string_eq.beq_iff owner name,
        string_eq.beq_iff owner "hyle",
        string_eq.beq_iff name "hyle",
        string_eq.beq_iff name "",
        string_eq.beq_iff owner "",
        string_eq.beq_iff "hyle" "",
        e,
      ),
    )
    | inr differs ↦ inr (
        inl (
          ground (arith, string_eq.beq_iff owner "hyle"),
          ground (
            arith,
            string_eq.beq_iff owner "hyle",
            string_eq.beq_iff name "hyle",
            string_eq.beq_iff owner name,
          ),
          λ e. ground (
            arith,
            string_eq.beq_iff owner "hyle",
            string_eq.beq_iff name "hyle",
            string_eq.beq_iff owner name,
            string_eq.beq_iff name "",
            e,
          ),
        ))
  ]
]

-- A registration that succeeds is of a name that no earlier blob of the transaction has changed,
-- and that no contract has, unless the name is `hyle`.
pub handle_register_blob_fresh :
    (valid_program : String → Bytes → Bool) (decoders : Decoders) (contracts : Contracts)
    (changes after : Changes) (reg : RegisterContractAction)
    → handle_register_blob valid_program decoders contracts changes reg ≡ ok after
    → (get changes reg.contract_name ≡ none)
      × ((reg.contract_name ≡ "hyle") ⊎ (get contracts reg.contract_name ≡ none))
unfolding handle_register_blob
handle_register_blob_fresh valid_program decoders contracts changes after reg h = (
  ground (arith),
  elim (Bool-cases (reg.contract_name == "hyle")) [
    | inl hyle ↦ inl ((string_eq.beq_iff reg.contract_name "hyle").0 hyle)
    | inr other ↦ inr (ground (arith))
  ],
)

-- A registration that succeeds changes what is said of its name alone.
pub register_elsewhere :
    (valid_program : String → Bytes → Bool) (decoders : Decoders) (contracts : Contracts)
    (changes after : Changes) (reg : RegisterContractAction) (name : String)
    → handle_register_blob valid_program decoders contracts changes reg ≡ ok after
    → reg.contract_name ≢ name
    → get after name ≡ get changes name
unfolding handle_register_blob
register_elsewhere valid_program decoders contracts changes after reg name h apart = ground (
  arith,
  get-insert changes reg.contract_name name (
    some (record {
      name = reg.contract_name;
      program_id = reg.program_id;
      state = reg.state_commitment;
      verifier = reg.verifier;
      timeout_window = or_default reg.timeout_window;
    }),
    all_fields,
    register reg.constructor_metadata ∷ [],
  ),
  ==_ne {A = String} reg.contract_name name apart,
)
