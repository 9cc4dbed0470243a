-- ===== src/Hyllar/Actions.antt =====
-- `PartialEq` of `HyllarAction`, by which a contract finds the transfers that it calls.
use truth_seeker.Common.{◌≡◌, ◌↔◌, Bool, true, false, ◌&&◌, Eq, nat_beq, string_eq, nat_eq, arith}
use truth_seeker.Hyllar.{
  HyllarAction, total_supply_action, balance_of_action, transfer_action, transfer_from_action,
  approve_action, allowance_action,
}

abbrev pub action_beq : HyllarAction → HyllarAction → Bool
action_beq total_supply_action total_supply_action = true
action_beq (balance_of_action a) (balance_of_action b) = string_eq.beq a b
action_beq (transfer_action r m) (transfer_action s n) = string_eq.beq r s && nat_beq m n
action_beq (transfer_from_action o r m) (transfer_from_action p s n) =
    string_eq.beq o p && string_eq.beq r s && nat_beq m n
action_beq (approve_action r m) (approve_action s n) = string_eq.beq r s && nat_beq m n
action_beq (allowance_action o r) (allowance_action p s) = string_eq.beq o p && string_eq.beq r s
action_beq _ _ = false

pub action_beq_iff : (x y : HyllarAction) → (action_beq x y ≡ true) ↔ (x ≡ y)
action_beq_iff total_supply_action total_supply_action = ground arith
action_beq_iff (balance_of_action a) (balance_of_action b) = ground (arith, string_eq.beq_iff a b)
action_beq_iff (transfer_action r m) (transfer_action s n) = ground (arith, string_eq.beq_iff r s)
action_beq_iff (transfer_from_action o r m) (transfer_from_action p s n) =
    ground (arith, string_eq.beq_iff o p, string_eq.beq_iff r s)
action_beq_iff (approve_action r m) (approve_action s n) = ground (arith, string_eq.beq_iff r s)
action_beq_iff (allowance_action o r) (allowance_action p s) =
    ground (arith, string_eq.beq_iff o p, string_eq.beq_iff r s)
action_beq_iff _ _ = ground arith

instance abbrev pub action_eq : Eq HyllarAction
action_eq = record { beq = action_beq; beq_iff = action_beq_iff }
