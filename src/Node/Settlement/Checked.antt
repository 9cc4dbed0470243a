-- ===== src/Node/Settlement/Checked.antt =====
-- What `process_proof` of node_state.rs has checked of a proof, and what it does to the contract.
use truth_seeker.Common.{
  ◌≡◌, Bool, true, String, none, some, List, [], ◌∷◌, string_eq, nat_eq, list_eq, list_beq_iff,
  push, arith, All, ok, inl, inr, Option-cases, Result-cases,
}
use truth_seeker.Common.Maps.{get, get-insert}
use truth_seeker.Sdk.Types.{Bytes, Blob, HyleOutput}
use truth_seeker.Node.Types.{Contract, Decoders}
use truth_seeker.Node.Changes.{no_fields, update_state, Contracts, Changes, get_contract}
use truth_seeker.Node.Settlement.{
  check_state_reads, update_contract_state, apply_effects, process_proof,
}

module _ (valid_program : String → Bytes → Bool) (decoders : Decoders) (contracts : Contracts) where
  -- The contract as it is after the changes so far.
  abbrev pub HasState : Changes → String × Bytes → Type 0
  HasState changes (name, state) =
      (c : Contract) × (get_contract contracts changes name ≡ ok c) × (state ≡ c.state)

  pub record IsChecked (changes : Changes) (name : String) (program_id : Bytes)
      (output : HyleOutput) (blob : Blob) (after : Changes) : Type 0 where
    pub contract : Contract
    pub mid : Changes
    pub found : get_contract contracts changes name ≡ ok contract
    pub initial : output.initial_state ≡ contract.state
    pub program : program_id ≡ contract.program_id
    pub reads : All (HasState changes) output.state_reads
    pub effects :
        apply_effects valid_program decoders contracts contract blob.payload changes
          output.onchain_effects
        ≡ ok mid
    pub updated : after ≡ update_contract_state contract output.next_state mid

  check_state_reads-HasState :
      (changes : Changes) (reads : List (String × Bytes))
      → check_state_reads contracts changes reads ≡ ok tt
      → All (HasState changes) reads
  unfolding check_state_reads
  check_state_reads-HasState changes [] h = tt
  check_state_reads-HasState changes ((name, state) ∷ reads) h =
      elim (Result-cases (get_contract contracts changes name)) [
        | inr (e, bad) ↦ ground arith
        | inl (c, good) ↦ (
          (c, good, ground (arith, list_beq_iff state c.state)),
          check_state_reads-HasState changes reads (ground arith),
        )
      ]

  -- A proof that fits starts at the present state of its contract and is of its present program;
  -- every state that it has read is the present one; and it leads to its effects, followed by its
  -- next state.
  pub process_proof-IsChecked :
      (changes after : Changes) (name : String) (program_id : Bytes) (output : HyleOutput)
      (blob : Blob)
      → process_proof valid_program decoders contracts changes name (program_id, output) blob
        ≡ ok after
      → IsChecked changes name program_id output blob after
  unfolding process_proof
  process_proof-IsChecked changes after name program_id output blob h =
      elim (Result-cases (get_contract contracts changes name)) [
        | inr (e, bad) ↦ ground arith
        | inl (c, good) ↦
            elim (Result-cases (
              apply_effects valid_program decoders contracts c blob.payload changes
                output.onchain_effects)) [
                  | inr (e, bad) ↦ ground arith
                  | inl (mid, done) ↦ record {
                    contract = c;
                    mid = mid;
                    found = good;
                    initial = ground (arith, list_beq_iff output.initial_state c.state);
                    program = ground (arith, list_beq_iff program_id c.program_id);
                    reads = check_state_reads-HasState changes output.state_reads (ground arith);
                    effects = done;
                    updated = ground arith;
                  }
                ]
      ]

  -- Unless it was deleted, the contract has the next state afterwards, under its own name.
  pub get_contract-update_contract_state :
      (contract c : Contract) (next : Bytes) (changes : Changes)
      → get_contract contracts (update_contract_state contract next changes) contract.name ≡ ok c
      → c.state ≡ next
  unfolding get_contract update_contract_state
  get_contract-update_contract_state contract c next changes h =
      let name = contract.name in
      let named = string_eq.beq_iff name name in
      elim (Option-cases (get changes name)) [
        | inl absent ↦ ground (
          arith,
          named,
          get-insert changes name name (
            some (record contract { state = next }),
            record no_fields { state = true },
            update_state ∷ [],
          ),
        )
        | inr ((none, fields, effects), found) ↦ ground arith
        | inr ((some old, fields, effects), found) ↦ ground (
          arith,
          named,
          get-insert changes name name (
            some (record old { state = next }),
            record fields { state = true },
            push effects update_state,
          ),
        )
      ]
