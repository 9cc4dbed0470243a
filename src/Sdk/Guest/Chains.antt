-- ===== src/Sdk/Guest/Chains.antt =====
-- Whether the outputs of a program follow on from each other.
use mathlib.Core.Path.{subst}
use truth_seeker.Common.{◌≡◌, refl, false, List, [], ◌∷◌, Result, ok, err, arith, ap, sym, ◌∙◌}
use truth_seeker.Sdk.Types.{Bytes, Blob, Calldata, OnchainEffect, HyleOutput}
use truth_seeker.Sdk.Context.{ExecutionContext}
use truth_seeker.Sdk.Output.{RunResult, as_hyle_output, fail}
use truth_seeker.Sdk.Guest.{ZkContract, settle, execute_all, execute, run_ready, refuse_all}

-- Each output starts from the state in which the one before it ended, the first from `initial`.
abbrev pub IsLinked : Bytes → List HyleOutput → Type 0
IsLinked initial [] = Unit
IsLinked initial (o ∷ os) = (o.initial_state ≡ initial) × IsLinked o.next_state os

-- A run that succeeds has used up the calls that it was given.
abbrev pub IsConsuming : {Z S : Type 0} → ZkContract Z S → Type 0
IsConsuming {Z} c =
    (z z' : Z) (calldata : Calldata) (output : Bytes) (ctx : ExecutionContext)
    (effects : List OnchainEffect)
    → c.execute z calldata ≡ (z', ok (output, ctx, effects))
    → ctx.callees_blobs ≡ []

module _ (unconsumed : List Blob → Bytes) where
  starts :
      (initial next : Bytes) (calldata : Calldata) (r : RunResult)
      → (as_hyle_output unconsumed initial next calldata r).initial_state ≡ initial
  unfolding as_hyle_output fail
  starts initial next calldata (err e) = refl
  starts initial next calldata (ok (output, ctx, effects)) = ground arith

  module _ {Z S : Type 0} (c : ZkContract Z S) (consuming : IsConsuming c) where
    ends :
        (z z' : Z) (initial : Bytes) (calldata : Calldata) (r : RunResult)
        → c.execute z calldata ≡ (z', r)
        → (as_hyle_output unconsumed initial
            (settle unconsumed c z initial (z', r)).1
            calldata
            r).next_state
          ≡ (settle unconsumed c z initial (z', r)).1
    unfolding as_hyle_output fail
    ends z z' initial calldata (err e) ran = refl
    ends z z' initial calldata (ok (output, ctx, effects)) ran =
        ground (arith, consuming z z' calldata output ctx effects ran)

    execute_all-IsLinked :
        (z : Z) (initial : Bytes) (calldata : List Calldata)
        → IsLinked initial (execute_all unconsumed c z initial calldata)
    unfolding execute_all
    execute_all-IsLinked z initial [] = tt
    execute_all-IsLinked z initial (call ∷ rest) = (
      starts _ _ call _,
      subst
          (λ reached. IsLinked reached (
            execute_all unconsumed c (settle unconsumed c z initial (c.execute z call)).0
              (settle unconsumed c z initial (c.execute z call)).1 rest))
          (sym (ends z (c.execute z call).0 initial call (c.execute z call).1 refl))
          (execute_all-IsLinked (settle unconsumed c z initial (c.execute z call)).0
            (settle unconsumed c z initial (c.execute z call)).1 rest),
    )

  -- the program that cannot start answers every call from its first state
  refuse_all-IsLinked :
      (initial e : Bytes) (calldata : List Calldata)
      → IsLinked initial (refuse_all unconsumed initial e calldata)
  unfolding refuse_all as_hyle_output fail
  refuse_all-IsLinked initial e [] = tt
  refuse_all-IsLinked initial e (call ∷ rest) = (refl, refuse_all-IsLinked initial e rest)

  from_start :
      {Z S : Type 0} (c : ZkContract Z S) (z : Z) (calldata : List Calldata)
      → IsConsuming c
      → (ready : Z × Result Bytes Unit)
      → IsLinked (c.commit z) (run_ready unconsumed c z calldata ready)
  from_start c z calldata consuming (z', err e) = refuse_all-IsLinked (c.commit z) e calldata
  from_start c z calldata consuming (z', ok _) =
      execute_all-IsLinked c consuming z' (c.commit z) calldata

  -- Where every run that succeeds has used up the calls that it was given, each output of a program
  -- starts from the state in which the one before it ended, and the first from the commitment to
  -- the state that the program was given.
  pub execute-IsLinked :
      {Z S : Type 0} (c : ZkContract Z S) (z : Z) (calldata : List Calldata)
      → IsConsuming c
      → IsLinked (c.commit z) (execute unconsumed c z calldata)
  unfolding execute
  execute-IsLinked c z calldata consuming = from_start c z calldata consuming (c.initialize z)

  unused_fails :
      (initial next : Bytes) (calldata : Calldata) (output : Bytes) (ctx : ExecutionContext)
      (effects : List OnchainEffect) (b : Blob) (bs : List Blob)
      → ctx.callees_blobs ≡ b ∷ bs
      → let o = as_hyle_output unconsumed initial next calldata (ok (output, ctx, effects)) in
        (o.success ≡ false) × (o.next_state ≡ initial)
  unfolding as_hyle_output fail
  unused_fails initial next calldata output ctx effects b bs left = (ground arith, ground arith)

  -- Of two calls, the first succeeds and leaves a call of its own unused: its output is a failure
  -- that ends in the state it started from, but the contract is not reverted, and the output of the
  -- second call starts from the commitment to the state that the first left.
  pub execute_unlinked :
      {Z S : Type 0} (c : ZkContract Z S) (z z' : Z) (first second : Calldata) (output : Bytes)
      (ctx : ExecutionContext) (effects : List OnchainEffect) (b : Blob) (bs : List Blob)
      → c.initialize z ≡ (z, ok tt)
      → c.execute z first ≡ (z', ok (output, ctx, effects))
      → ctx.callees_blobs ≡ b ∷ bs
      → (o : HyleOutput) × (p : HyleOutput) × (execute unconsumed c z (first ∷ second ∷ [])
          ≡ o ∷ p ∷ [])
        × (o.success ≡ false)
        × (o.next_state ≡ c.commit z)
        × (p.initial_state ≡ (c.on_success z').1)
  unfolding execute execute_all
  execute_unlinked {Z = Z} c z z' first second output ctx effects b bs ready ran left =
      let (z₂, reached) = c.on_success z' in
      let after = settle unconsumed c z₂ reached (c.execute z₂ second) in
      let (failed, kept) = unused_fails (c.commit z) reached first output ctx effects b bs left in
      (
        as_hyle_output unconsumed (c.commit z) reached first (ok (output, ctx, effects)),
        as_hyle_output unconsumed reached after.1 second (c.execute z₂ second).1,
        ap (λ start. run_ready unconsumed c z (first ∷ second ∷ []) start) ready
            ∙ ap
                (λ (run : Z × RunResult).
                  let next = settle unconsumed c z (c.commit z) run in
                  as_hyle_output unconsumed (c.commit z) next.1 first run.1
                  ∷ execute_all unconsumed c next.0 next.1 (second ∷ []))
                ran,
        failed,
        kept,
        starts reached after.1 second (c.execute z₂ second).1,
      )
