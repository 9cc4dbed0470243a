-- ===== src/Node/Tld.antt =====
-- node_state/hyle_tld.rs: the blobs of the contract `hyle`, which the node itself runs. A handler
-- that fails has not changed anything.
pub mod Names
pub mod Privileged
use truth_seeker.Common.{
  is_some, Bool, true, false, String, Option, none, some, List, [], ◌∷◌, ◌==◌, string_eq, not, ◌&&◌,
  ◌||◌, push, if◌then◌else◌, Result, ok, err, ◌>>=◌, ◌>>◌, bail_if,
}
use truth_seeker.Common.Maps.{get, insert, contains_key}
use truth_seeker.Sdk.Types.{Bytes, Blob, TimeoutWindow, timeout}
use truth_seeker.Node.Types.{
  Contract, RegisterContractAction, DeleteContractAction, UpdateContractProgramIdAction,
  UpdateContractTimeoutWindowAction, Decoders,
}
use truth_seeker.Node.Registration.{validate_contract_registration_metadata}
use truth_seeker.Node.Changes.{
  SideEffect, register, update_program_id, update_timeout_window, delete, all_fields, no_fields,
  Contracts, Changes, SettleError, already_registered, cannot_delete_hyle, not_registered,
  cannot_update_hyle, invalid_tld_blob, registering, get_contract,
}

-- `TimeoutWindow::default()`
abbrev pub or_default : Option TimeoutWindow → TimeoutWindow
or_default none = timeout 100
or_default (some w) = w

unfoldable pub handle_delete_blob :
    Contracts → Changes → DeleteContractAction → Result SettleError Changes
handle_delete_blob contracts changes action =
    if action.contract_name == "hyle"
    then err cannot_delete_hyle
    else if contains_key contracts action.contract_name || contains_key changes action.contract_name
    then ok (insert changes action.contract_name (none, all_fields, delete ∷ []))
    else err not_registered

unfoldable pub handle_update_program_id_blob :
    Contracts → Changes → UpdateContractProgramIdAction → Result SettleError Changes
handle_update_program_id_blob contracts changes update = do
  bail_if (update.contract_name == "hyle") cannot_update_hyle
  contract ← get_contract contracts changes update.contract_name
  ok (
      insert changes update.contract_name (elim (get changes update.contract_name) [
        | some (none, fields, effects) ↦
            (none, record fields { program_id = true }, push effects update_program_id)
        | some (some c, fields, effects) ↦ (
          some (record c { program_id = update.program_id }),
          record fields { program_id = true },
          push effects update_program_id,
        )
        | none ↦ (
          some (record contract { program_id = update.program_id }),
          record no_fields { program_id = true },
          update_program_id ∷ [],
        )
      ]))

unfoldable pub handle_update_timeout_window_blob :
    Contracts → Changes → UpdateContractTimeoutWindowAction → Result SettleError Changes
handle_update_timeout_window_blob contracts changes update = do
  bail_if (update.contract_name == "hyle") cannot_update_hyle
  contract ← get_contract contracts changes update.contract_name
  ok (
      insert changes update.contract_name (elim (get changes update.contract_name) [
        | some (none, fields, effects) ↦
            (none, record fields { timeout_window = true }, push effects update_timeout_window)
        | some (some c, fields, effects) ↦ (
          some (record c { timeout_window = update.timeout_window }),
          record fields { timeout_window = true },
          push effects update_timeout_window,
        )
        | none ↦ (
          some (record contract { timeout_window = update.timeout_window }),
          record no_fields { timeout_window = true },
          update_timeout_window ∷ [],
        )
      ]))

module _ (valid_program : String → Bytes → Bool) (decoders : Decoders) where
  unfoldable pub handle_register_blob :
      Contracts → Changes → RegisterContractAction → Result SettleError Changes
  handle_register_blob contracts changes reg = do
    registering (
        validate_contract_registration_metadata valid_program "hyle" reg.contract_name reg.verifier
          reg.program_id reg.state_commitment)
    bail_if
        (not (reg.contract_name == "hyle") && contains_key contracts reg.contract_name
          || contains_key changes reg.contract_name)
        already_registered
    ok (
        insert changes reg.contract_name (
          some (record {
            name = reg.contract_name;
            program_id = reg.program_id;
            state = reg.state_commitment;
            verifier = reg.verifier;
            timeout_window = or_default reg.timeout_window;
          }),
          all_fields,
          register reg.constructor_metadata ∷ [],
        ))

  unfoldable pub handle_blob_for_hyle_tld : Contracts → Changes → Blob → Result SettleError Changes
  handle_blob_for_hyle_tld contracts changes blob = elim (decoders.register blob.payload) [
    | some reg ↦ handle_register_blob contracts changes reg.parameters
    | none ↦ elim (decoders.delete blob.payload) [
      | some del ↦ handle_delete_blob contracts changes del.parameters
      | none ↦ elim (decoders.update_program_id blob.payload) [
        | some up ↦ handle_update_program_id_blob contracts changes up.parameters
        | none ↦ elim (decoders.update_timeout_window blob.payload) [
          | some up ↦ handle_update_timeout_window_blob contracts changes up.parameters
          | none ↦ if is_some (decoders.nuke blob.payload) then ok changes else err invalid_tld_blob
        ]
      ]
    ]
  ]
