-- ===== src/Node/Changes.antt =====
-- node_state.rs: the changes of contracts that a settlement collects, and `get_contract`.
use truth_seeker.Common.{
  Bool, true, false, String, Option, none, some, List, string_eq, Result, ok, err, ok_or,
}
use truth_seeker.Common.Maps.{Map, get}
use truth_seeker.Sdk.Types.{Bytes}
use truth_seeker.Node.Types.{Contract}
use truth_seeker.Node.Registration.{RegistrationError}

pub data SideEffect : Type 0 where
  register : Option Bytes → SideEffect
  update_state update_program_id update_timeout_window delete : SideEffect

pub record ModifiedContractFields : Type 0 where
  pub program_id : Bool
  pub state : Bool
  pub verifier : Bool
  pub timeout_window : Bool

abbrev pub all_fields : ModifiedContractFields
all_fields = record { program_id = true; state = true; verifier = true; timeout_window = true }

abbrev pub no_fields : ModifiedContractFields
no_fields = record { program_id = false; state = false; verifier = false; timeout_window = false }

-- A contract that is `none` was deleted.
abbrev pub ModifiedContractData : Type 0
ModifiedContractData = Option Contract × ModifiedContractFields × List SideEffect

abbrev pub Contracts : Type 0
Contracts = Map String Contract

abbrev pub Changes : Type 0
Changes = Map String ModifiedContractData

pub data SettleError : Type 0 where
  no_longer_exists : String → SettleError
  bad_registration : RegistrationError → SettleError
  already_registered cannot_delete_hyle not_registered cannot_update_hyle : SettleError
  invalid_tld_blob metadata_not_decoded : SettleError
  initial_state_mismatch program_id_mismatch state_read_mismatch : SettleError

abbrev pub registering : Result RegistrationError Unit → Result SettleError Unit
registering (ok u) = ok u
registering (err e) = err (bad_registration e)

unfoldable pub get_contract : Contracts → Changes → String → Result SettleError Contract
get_contract contracts changes name = elim (get changes name) [
  | some (contract, fields, effects) ↦ ok_or contract (no_longer_exists name)
  | none ↦ ok_or (get contracts name) (no_longer_exists name)
]
