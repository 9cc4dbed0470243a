-- ===== src/Amm.antt =====
-- manual_Scaffold/hyli/crates/contracts/amm/src/lib.rs: the constant-product exchange.
-- Amounts are `u128`, which wrap round. A division by zero panics: the error `panicked`. The texts
-- of results are the constructors of `Reply` and `Error`.
pub mod Product
pub mod Pairs
pub mod Swaps
pub mod Calls
use truth_seeker.Common.{
  ℕ, ◌-◌, ◌*◌, ◌/◌, String, Bool, true, false, Option, none, some, List, [], ◌||◌, ltb, ◌==◌,
  if◌then◌else◌, string_eq, pair_eq, nat_beq, str_leb, Result, ok, err, ◌>>=◌, add_u128, sub_u128,
  mul_u128, is_some,
}
use truth_seeker.Common.Maps.{Map, get, insert, contains_key}
use truth_seeker.Sdk.Types.{Calldata, OnchainEffect}
use truth_seeker.Sdk.Context.{Borsh, SdkError, ExecutionContext, is_in_callee_blobs, parse_calldata}
use truth_seeker.Hyllar.{HyllarAction, transfer_action, transfer_from_action}
use truth_seeker.Hyllar.Actions.{action_eq}

abbrev pub TokenPair : Type 0
TokenPair = String × String

abbrev pub Amounts : Type 0
Amounts = ℕ × ℕ

pub record Amm : Type 0 where
  pub pairs : Map TokenPair Amounts

pub data AmmAction : Type 0 where
  swap : TokenPair → Amounts → AmmAction
  new_pair : TokenPair → Amounts → AmmAction

pub data Error : Type 0 where
  same_token : Error
  pair_exists : TokenPair → Error
  pair_not_found : TokenPair → Error
  invalid_swap : ℕ → Error
  panicked : Error
  bad_calldata : SdkError → Error

pub data Reply : Type 0 where
  pair_created : TokenPair → Reply
  swap_valid : ℕ → String → ℕ → String → Reply

-- `UnorderedTokenPair::new`
unfoldable pub normalize : String → String → TokenPair
normalize x y = if str_leb x y then (x, y) else (y, x)

-- `y - (x * y / (x + from))`, which panics where the sum is zero
unfoldable pub amount_out : ℕ → ℕ → ℕ → Option ℕ
amount_out x y from =
    let d = add_u128 x from in if nat_beq d 0 then none else some (sub_u128 y (mul_u128 x y / d))

abbrev pub paired : Option Amounts → ℕ → Option ℕ
paired none amount = none
paired (some (x, y)) amount = amount_out x y amount

-- `none` also stands for the panic of the division.
unfoldable pub get_paired_amount : Amm → String → String → ℕ → Option ℕ
get_paired_amount s token_a token_b amount_a =
    paired (get s.pairs (normalize token_a token_b)) amount_a

unfoldable pub create_new_pair : Amm → TokenPair → Amounts → Amm × Result Error Reply
create_new_pair s (a, b) amounts =
    let p = normalize a b in
    if a == b
    then (s, err same_token)
    else if contains_key s.pairs p
    then (s, err (pair_exists p))
    else (record { pairs = insert s.pairs p amounts }, ok (pair_created p))

-- The reserves after a swap of `from` of the first for the second, and the amount to be paid out.
unfoldable pub swap_reserves : ℕ → ℕ → ℕ → Option (Amounts × ℕ)
unfolding amount_out
swap_reserves x y from = elim (amount_out x y from) [
  | none ↦ none
  | some amount ↦ some ((add_u128 x from, sub_u128 y amount), amount)
]

abbrev pub flipped : Option (Amounts × ℕ) → Option (Amounts × ℕ)
flipped none = none
flipped (some ((x, y), amount)) = some ((y, x), amount)

-- `prev_x` and `prev_y` are the reserves of the normalized pair, whichever way the swap goes.
unfoldable pub swap_stored : Bool → Amounts → ℕ → Option (Amounts × ℕ)
swap_stored true (x, y) from = swap_reserves x y from
swap_stored false (x, y) from = flipped (swap_reserves y x from)

-- the test of the 2% tolerance
unfoldable pub out_of_range : ℕ → ℕ → Bool
out_of_range expected to = ltb expected to || ltb to (mul_u128 expected 98 / 100)

-- The reserves are written before the amount is tested.
unfoldable pub verify_swap : Amm → TokenPair → ℕ → ℕ → Amm × Result Error Reply
verify_swap s (a, b) from to =
    if a == b then (s, err same_token) else elim (get s.pairs (normalize a b)) [
      | none ↦ (s, err (pair_not_found (a, b)))
      | some stored ↦ elim (swap_stored (str_leb a b) stored from) [
        | none ↦ (s, err panicked)
        | some (stored', expected) ↦ (
          record { pairs = insert s.pairs (normalize a b) stored' },
          if out_of_range expected to
              then err (invalid_swap expected)
              else ok (swap_valid from a to b),
        )
      ]
    ]

module _ (borsh : Borsh AmmAction) (hyllar : Borsh HyllarAction) where
  -- The calls that an action needs among the callees, in the order of the tests.
  unfoldable pub check_calls : ExecutionContext → AmmAction → Result SdkError ExecutionContext
  check_calls ctx (swap (a, b) (from, to)) = do
    ctx' ← is_in_callee_blobs hyllar ctx a (transfer_from_action ctx.caller ctx.contract_name from)
    is_in_callee_blobs hyllar ctx' b (transfer_action ctx.caller to)
  check_calls ctx (new_pair (a, b) (m, n)) = do
    ctx' ← is_in_callee_blobs hyllar ctx a (transfer_from_action ctx.caller ctx.contract_name m)
    is_in_callee_blobs hyllar ctx' b (transfer_from_action ctx.caller ctx.contract_name n)

  unfoldable pub apply : Amm → AmmAction → Amm × Result Error Reply
  unfolding verify_swap create_new_pair
  apply s (swap pair (from, to)) = verify_swap s pair from to
  apply s (new_pair pair amounts) = create_new_pair s pair amounts

  abbrev pub Run : Type 0
  Run = Result Error (Reply × ExecutionContext × List OnchainEffect)

  abbrev pub with_context : ExecutionContext → Result Error Reply → Run
  with_context ctx (ok reply) = ok (reply, ctx, [])
  with_context ctx (err e) = err e

  -- `execute`, behind `parse_calldata`
  unfoldable pub run_action : Amm → ExecutionContext → AmmAction → Amm × Run
  run_action s ctx action = elim (check_calls ctx action) [
    | err e ↦ (s, err (bad_calldata e))
    | ok ctx' ↦ let (s', res) = apply s action in (s', with_context ctx' res)
  ]

  unfoldable pub execute : Amm → Calldata → Amm × Run
  unfolding run_action
  execute s calldata = elim (parse_calldata borsh calldata) [
    | err e ↦ (s, err (bad_calldata e))
    | ok (action, ctx) ↦ run_action s ctx action
  ]
