-- ===== src/Consensus/Timeouts.antt =====
-- manual_Scaffold/hyli/src/consensus/role_timeout.rs: timeouts and their certificates.
use truth_seeker.Common.{
  ℕ, ◌*◌, Bool, true, false, Option, none, some, List, [], ◌∷◌, ◌==◌, string_eq, nat_eq, list_eq,
  not, ◌&&◌, ◌||◌, ltb, leb, any, contains, map, push, if◌then◌else◌, add_u128, Result, ok, err,
}
use truth_seeker.Sdk.Types.{Bytes}
use truth_seeker.Staking.{compute_f, compute_voting_power}
use truth_seeker.Consensus.Types.{
  AggregateSignature, ConsensusProposal, TcKind, nil_proposal, prepare_qc, timeout_qc,
  prepare_vote_marker, vote, timeout_message, SignedTimeout, signed_timeout_beq, TimeoutKind,
  nil_timeout, prepare_timeout, kind_beq, timeout, timeout_certificate, leader, TimeoutState,
  inactive, scheduled, certificate_emitted, BftRoundState, ConsensusError, no_aggregate,
  wrong_certificate_slot, not_all_nil, Env,
}
use truth_seeker.Consensus.Actions.{
  Action, pure, fail, gets, check, fail_if, modify, broadcast_net_message, ◌>>=◌, ◌>>◌,
}
use truth_seeker.Consensus.Rounds.{
  next_view_leader, is_joining, is_part_of_consensus, get_own_voting_power,
  verify_quorum_certificate, schedule, advance_round,
}

abbrev pub Request : Type 0
Request = SignedTimeout × TimeoutKind

abbrev pub request_beq : Request → Request → Bool
request_beq (a, k) (b, l) = signed_timeout_beq a b && kind_beq k l

abbrev pub insert_request : Request → List Request → List Request
insert_request r requests = if any (request_beq r) requests then requests else push requests r

-- `update_highest_seen_prepare_qc`: the slot of the highest one seen does not go down.
abbrev pub is_older : ℕ → Option (ℕ × AggregateSignature) → Bool
is_older slot none = false
is_older slot (some (s, qc)) = ltb slot s

unfoldable pub update_highest_seen_prepare_qc :
    ℕ → AggregateSignature → BftRoundState → BftRoundState × Bool
update_highest_seen_prepare_qc slot qc bft =
    if is_older slot (bft.timeout_state).highest_seen_prepare_qc then (bft, false) else (
      record bft {
        timeout_state = record (bft.timeout_state) { highest_seen_prepare_qc = some (slot, qc) };
      },
      true,
    )

-- The certificate is noted, and its proposal becomes the current one.
unfoldable pub adopt : ℕ → AggregateSignature → ConsensusProposal → BftRoundState → BftRoundState
adopt slot qc proposal bft =
    let (bft', updated) = update_highest_seen_prepare_qc slot qc bft in
    if updated then record bft' { current_proposal = proposal } else bft'

abbrev pub set_requests : List Request → BftRoundState → BftRoundState
set_requests requests bft = record bft {
  timeout_state = record (bft.timeout_state) { requests = requests };
}

abbrev pub set_leader : BftRoundState → BftRoundState
set_leader bft = record bft { state_tag = leader }

-- `if matches!(state_tag, Joining) { state_tag = Leader }`
abbrev pub leave_joining : BftRoundState → BftRoundState
leave_joining bft = if is_joining bft.state_tag then set_leader bft else bft

abbrev pub is_emitted : TimeoutState → Bool
is_emitted certificate_emitted = true
is_emitted inactive = false
is_emitted (scheduled t) = false

-- The signatures of the messages, if all of them are nil timeouts.
unfoldable pub nil_signatures : List Request → Option (List (Bytes × Bytes))
nil_signatures [] = some []
nil_signatures ((signed, nil_timeout s) ∷ rs) = elim (nil_signatures rs) [
  | none ↦ none
  | some ss ↦ some ((s.validator, s.signature) ∷ ss)
]
nil_signatures ((signed, prepare_timeout qc p) ∷ rs) = none

abbrev pub request_signatures : List Request → List (Bytes × Bytes)
request_signatures rs = map (λ (r : Request). ((r.0).validator, (r.0).signature)) rs

abbrev pub timeout_validators : List Request → List Bytes
timeout_validators rs = map (λ (r : Request). (r.0).validator) rs

-- The certificate for prepares of this slot, if there is one.
abbrev pub highest_of : ℕ → BftRoundState → Option AggregateSignature
highest_of slot bft = elim (bft.timeout_state).highest_seen_prepare_qc [
  | none ↦ none
  | some (s, qc) ↦ if s == slot then some qc else none
]

module _ (env : Env) (now : ℕ) where
  abbrev pub verify_timeout :
      ℕ → ℕ → AggregateSignature → BftRoundState → Result ConsensusError Unit
  verify_timeout slot view qc bft =
      verify_quorum_certificate env (timeout_message slot view bft.parent_hash) qc bft

  abbrev pub verify_prepares :
      AggregateSignature → ConsensusProposal → BftRoundState → Result ConsensusError Unit
  verify_prepares qc cp bft =
      verify_quorum_certificate env (vote (env.hashed cp) prepare_vote_marker) qc bft

  unfoldable pub verify_tc : AggregateSignature → TcKind → ℕ → ℕ → Action Unit
  verify_tc certificate nil_proposal slot view = check (verify_timeout slot view certificate)
  verify_tc certificate (prepare_qc qc cp) slot view = do
    check (verify_timeout slot view certificate)
    fail_if (not (cp.slot == slot)) wrong_certificate_slot
    check (verify_prepares qc cp)
    modify (adopt slot qc cp)

  abbrev pub is_before : ℕ → ℕ → BftRoundState → Bool
  is_before slot view bft = ltb slot bft.slot || (slot == bft.slot && ltb view bft.view)

  -- The leader of the next view is compared with `!=` here.
  unfoldable pub on_timeout_certificate : AggregateSignature → TcKind → ℕ → ℕ → Action Unit
  on_timeout_certificate certificate kind slot view s =
      if is_before slot view s.bft
      then (s, ok tt)
      else if ltb (s.bft).slot slot || ltb (s.bft).view view
      then (s, ok tt)
      else (do
        verify_tc certificate kind slot view
        next ← check next_view_leader
        modify (λ bft. if not (next == env.validator_pubkey) then leave_joining bft else bft)
        advance_round env now (timeout_qc certificate kind))
          s

  -- `get_timeout_message`
  unfoldable pub timeout_of : BftRoundState → Request
  timeout_of bft =
      let signed : SignedTimeout = record {
        slot = bft.slot;
        view = bft.view;
        parent_hash = bft.parent_hash;
        validator = env.validator_pubkey;
        signature = env.sign (timeout_message bft.slot bft.view bft.parent_hash);
      } in
      elim (highest_of bft.slot bft) [
        | some qc ↦ (signed, prepare_timeout qc bft.current_proposal)
        | none ↦ (signed, nil_timeout signed)
      ]

  -- The timeout of the node itself, when others with more than f have timed out.
  unfoldable pub join_mutiny : Action Unit
  join_mutiny s =
      let (signed, kind) = timeout_of s.bft in
      (do
        modify
            (λ bft. set_requests (insert_request (signed, kind) (bft.timeout_state).requests) bft)
        broadcast_net_message (timeout signed kind)
        modify (schedule env now))
        s

  -- the certificate that is created, with or without a certificate for prepares
  unfoldable pub create_certificate :
      ℕ → BftRoundState → Result ConsensusError (AggregateSignature × TcKind)
  create_certificate slot bft =
      let message = timeout_message bft.slot bft.view bft.parent_hash in
      let requests = (bft.timeout_state).requests in
      elim (highest_of slot bft) [
        | some qc ↦ elim (env.sign_aggregate message (request_signatures requests)) [
          | none ↦ err no_aggregate
          | some certificate ↦ ok (certificate, prepare_qc qc bft.current_proposal)
        ]
        | none ↦ elim (nil_signatures requests) [
          | none ↦ err not_all_nil
          | some signatures ↦ elim (env.sign_aggregate message signatures) [
            | none ↦ err no_aggregate
            | some certificate ↦ ok (certificate, nil_proposal)
          ]
        ]
      ]

  abbrev pub set_emitted : BftRoundState → BftRoundState
  set_emitted bft = record bft {
    timeout_state = record (bft.timeout_state) { state = certificate_emitted };
  }

  -- The leader of the next view keeps the certificate, the others broadcast it.
  unfoldable pub announce : AggregateSignature → TcKind → ℕ → ℕ → Bytes → Action Unit
  announce certificate kind slot view next =
      if next == env.validator_pubkey then modify leave_joining else (do
        broadcast_net_message (timeout_certificate certificate kind slot view)
        modify set_emitted)

  unfoldable pub emit_certificate : ℕ → ℕ → Action Unit
  emit_certificate slot view = do
    ticket ← check (create_certificate slot)
    modify (schedule env now)
    next ← check next_view_leader
    announce ticket.0 ticket.1 slot view next
    advance_round env now (timeout_qc ticket.0 ticket.1)

  -- from the count of the requests on
  unfoldable pub count_timeouts : ℕ → ℕ → Action Unit
  count_timeouts slot view s =
      let f = compute_f (s.bft).staking in
      let validators = timeout_validators ((s.bft).timeout_state).requests in
      let voting_power = compute_voting_power (s.bft).staking validators in
      (do
        power ←
            if ltb f voting_power && not (contains validators env.validator_pubkey)
            then (do
              join_mutiny
              own ← check (get_own_voting_power env)
              pure (add_u128 voting_power own))
            else pure voting_power
        emitted ← gets (λ bft. is_emitted (bft.timeout_state).state)
        if ltb (2 * f) power && not emitted then emit_certificate slot view else pure tt)
        s

  -- the certificate for prepares that a timeout comes with
  unfoldable pub process_kind : ℕ → TimeoutKind → Action Unit
  process_kind slot (nil_timeout s) = pure tt
  process_kind slot (prepare_timeout qc cp) =
      if cp.slot == slot
      then (do check (verify_prepares qc cp); modify (adopt slot qc cp))
      else fail wrong_certificate_slot

  unfoldable pub add_request : ℕ → ℕ → Request → Action Unit
  add_request slot view r s =
      let requests = ((s.bft).timeout_state).requests in
      if any (request_beq r) requests
      then (s, ok tt)
      else (do modify (set_requests (push requests r)); count_timeouts slot view) s

  unfoldable pub on_timeout : SignedTimeout → TimeoutKind → Action Unit
  on_timeout received kind s =
      if not (is_part_of_consensus s.bft env.validator_pubkey)
      then (s, ok tt)
      else if not (received.parent_hash == (s.bft).parent_hash)
      then (s, ok tt)
      else if ltb received.slot (s.bft).slot
      then (s, ok tt)
      else if not (received.slot == (s.bft).slot) || not (received.view == (s.bft).view)
      then (s, ok tt)
      else (do
        process_kind received.slot kind
        add_request received.slot received.view (received, kind))
          s

  abbrev pub is_due : TimeoutState → Bool
  is_due (scheduled timestamp) = leb timestamp now
  is_due inactive = false
  is_due certificate_emitted = false

  unfoldable pub on_timeout_tick : Action Unit
  on_timeout_tick s =
      if is_due ((s.bft).timeout_state).state
      then (let (signed, kind) = timeout_of s.bft in
          (do
            on_timeout signed kind
            broadcast_net_message (timeout signed kind)
            modify (schedule env now))
            s)
      else (s, ok tt)
