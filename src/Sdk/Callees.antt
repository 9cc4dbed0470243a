-- ===== src/Sdk/Callees.antt =====
-- What the context's check of a call has found and consumed.
use mathlib.Core.List.{Perm}
use mathlib.Core.List.Perm
use truth_seeker.Common.{
  ◌≡◌, refl, Bool, true, String, some, List, [], ◌∷◌, arith, Eq, ok, Bool-cases, Option-cases, inl,
  inr,
}
use truth_seeker.Sdk.Types.{Blob}
use truth_seeker.Sdk.Context.{Borsh, ExecutionContext, remove_first, is_call, is_in_callee_blobs}

remove_first-perm :
    (p : Blob → Bool) (bs rest : List Blob)
    → remove_first p bs ≡ some rest
    → (b : Blob) × (p b ≡ true) × Perm bs (b ∷ rest)
unfolding remove_first
remove_first-perm p [] rest h = cc
remove_first-perm p (b ∷ bs) rest h = elim (Bool-cases (p b)) [
  | inl hit ↦ (b, hit, let e : rest ≡ bs = ground arith in rw e (Perm.refl (b ∷ bs)))
  | inr miss ↦ elim (Option-cases (remove_first p bs)) [
    | inl absent ↦ ground arith
    | inr (rest', found) ↦
        let (c, pc, perm) = remove_first-perm p bs rest' found in
        let e : rest ≡ b ∷ rest' = ground arith in
        (c, pc, rw e (Perm.trans (Perm.cons b perm) (Perm.swap c b rest')))
  ]
]

module _ {A : Type 0} ⦃e : Eq A⦄ (borsh : Borsh A) where
  -- A call that is found is one of the context's blobs, of the contract and the action asked for,
  -- and the blobs that are left are the others.
  pub is_in_callee_blobs_sound :
      (ctx ctx' : ExecutionContext) (name : String) (action : A)
      → is_in_callee_blobs borsh ctx name action ≡ ok ctx'
      → (b : Blob) × (is_call borsh name action b ≡ true)
        × Perm ctx.callees_blobs (b ∷ ctx'.callees_blobs)
        × (ctx'.caller ≡ ctx.caller)
        × (ctx'.contract_name ≡ ctx.contract_name)
  unfolding is_in_callee_blobs
  is_in_callee_blobs_sound ctx ctx' name action h =
      elim (Option-cases (remove_first (is_call borsh name action) ctx.callees_blobs)) [
        | inl absent ↦ ground arith
        | inr (rest, found) ↦
            let (b, call, perm) =
              remove_first-perm (is_call borsh name action) ctx.callees_blobs rest found in
            let e : ctx' ≡ record ctx { callees_blobs = rest } = ground arith in
            rw e (b, call, perm, refl, refl)
      ]
