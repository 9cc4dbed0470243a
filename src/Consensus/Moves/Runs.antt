-- ===== src/Consensus/Moves/Runs.antt =====
-- How the runs of actions are put together of moves.
use mathlib.Core.Path.{subst}
use truth_seeker.Common.{
  ◌≡◌, refl, ◌⊎◌, inl, inr, Bool, true, false, Option, none, some, [], ◌∷◌, nat_eq, list_eq,
  if◌then◌else◌, Result, ok, err, Option-cases, arith,
}
use truth_seeker.Consensus.Types.{
  AggregateSignature, Message, BftRoundState, Output, commit_proposal, broadcast, send_to,
  start_new_slot_command, connect_to, Consensus, ConsensusError, Env,
}
use truth_seeker.Consensus.Actions.{
  Action, pure, fail, gets, check, or_fail, fail_if, modify, send, resume, ◌>>=◌,
}
use truth_seeker.Consensus.Rounds.{verify_quorum_certificate, is_joining}
use truth_seeker.Consensus.Moves.{
  Round, commits_of, round_of, IsQuorum, settles, Moves, one-Moves, same-Moves, Ends-trans,
  Moves-Ends, After, Keeps,
}

module _ (env : Env) where
  module _ {A : Type 0} where
    -- Nothing that the moves see has changed.
    pub quiet :
        {r : Round} {x : Consensus × Result ConsensusError A} → round_of x.0 ≡ r → After env r x
    quiet {x = x} e = record { reached = Moves-Ends env x.1 (same-Moves env e) }

    pub at-After : {m : Action A} → Keeps env m → (s : Consensus) → After env (round_of s) (m s)
    at-After k s = k.at s

    pub resume-After :
        {B : Type 0} {r : Round} (x : Consensus × Result ConsensusError A) (f : A → Action B)
        → After env r x
        → ((a : A) → Keeps env (f a))
        → After env r (resume x f)
    resume-After (s, ok a) f m k = record {
      reached = Ends-trans env _ (f a s).1 m.reached ((k a).at s).reached;
    }
    resume-After (s, err e) f m k = record { reached = m.reached }

    -- Moves that come before a run.
    pub moved-After :
        {r t : Round} {x : Consensus × Result ConsensusError A}
        → Moves env r t
        → After env t x
        → After env r x
    moved-After {x = x} m k = record { reached = Ends-trans env _ x.1 m k.reached }

    pub bind-Keeps :
        {B : Type 0} {m : Action A} {f : A → Action B}
        → Keeps env m
        → ((a : A) → Keeps env (f a))
        → Keeps env (m >>= f)
    unfolding ◌>>=◌
    bind-Keeps {m = m} {f = f} km kf = record { at = λ s. resume-After (m s) f (km.at s) kf }

    pub if-After :
        {r : Round} (b : Bool) (x y : Consensus × Result ConsensusError A)
        → After env r x
        → After env r y
        → After env r (if b then x else y)
    if-After true x y mx my = mx
    if-After false x y mx my = my

    pub if-Keeps :
        (b : Bool) (m k : Action A) → Keeps env m → Keeps env k → Keeps env (if b then m else k)
    if-Keeps true m k km kk = km
    if-Keeps false m k km kk = kk

    pub gets-Keeps : (f : BftRoundState → A) → Keeps env (gets f)
    unfolding gets
    gets-Keeps f = record { at = λ s. quiet refl }

    pub pure-Keeps : (a : A) → Keeps env (pure a)
    unfolding pure
    pure-Keeps a = record { at = λ s. quiet refl }

    pub fail-Keeps : (e : ConsensusError) → Keeps env {A = A} (fail e)
    unfolding fail
    fail-Keeps e = record { at = λ s. quiet refl }

    pub check-Keeps : (f : BftRoundState → Result ConsensusError A) → Keeps env (check f)
    unfolding check
    check-Keeps f = record { at = λ s. quiet refl }

    pub or_fail-Keeps : (o : Option A) (e : ConsensusError) → Keeps env (or_fail o e)
    unfolding or_fail
    or_fail-Keeps none e = fail-Keeps e
    or_fail-Keeps (some a) e = pure-Keeps a

  pub fail_if-Keeps : (b : Bool) (e : ConsensusError) → Keeps env (fail_if b e)
  unfolding fail_if
  fail_if-Keeps true e = fail-Keeps e
  fail_if-Keeps false e = pure-Keeps tt

  -- The function changes neither the slot nor the view, and makes no node join.
  abbrev pub Stays : (BftRoundState → BftRoundState) → Type 0
  Stays f =
      (b : BftRoundState)
      → ((f b).slot ≡ b.slot)
        × ((f b).view ≡ b.view)
        × ((is_joining (f b).state_tag ≡ is_joining b.state_tag)
            ⊎ (is_joining (f b).state_tag ≡ false))

  modify-Moves :
      (f : BftRoundState → BftRoundState) (s : Consensus)
      → Stays f
      → Moves env (round_of s) (round_of (record s { bft = f s.bft }))
  modify-Moves f s h =
      let (slot, view, tag) = h s.bft in
      elim tag [
        | inl same ↦ same-Moves env (ground (arith, slot, view, same))
        | inr settled ↦
            subst (λ t. Moves env (round_of s) t) (ground (arith, slot, view, settled))
              (one-Moves env (settles (round_of s)))
      ]

  pub modify-Keeps : (f : BftRoundState → BftRoundState) → Stays f → Keeps env (modify f)
  unfolding modify
  modify-Keeps f h = record { at = λ s. record { reached = modify-Moves f s h } }

  -- Both ways of a test, which they may rest on.
  pub test-After :
      {A : Type 0} {r : Round} (b : Bool) (x y : Consensus × Result ConsensusError A)
      → (b ≡ true → After env r x)
      → (b ≡ false → After env r y)
      → After env r (if b then x else y)
  test-After true x y mx my = mx refl
  test-After false x y mx my = my refl

  -- Sending anything but a commitment.
  pub send-Keeps : (o : Output) → commits_of (o ∷ []) ≡ [] → Keeps env (send o)
  unfolding send
  send-Keeps (broadcast m) h = record { at = λ s. quiet refl }
  send-Keeps (send_to to m) h = record { at = λ s. quiet refl }
  send-Keeps (start_new_slot_command d) h = record { at = λ s. quiet refl }
  send-Keeps (connect_to p) h = record { at = λ s. quiet refl }
  send-Keeps (commit_proposal staking proposal qc) h = absurd (cc)

  -- An action that begins with a check has passed it if it succeeds.
  pub check_passed :
      {A B : Type 0} (s s' : Consensus) (r : Result ConsensusError A) (f : A → Action B) (b : B)
      → resume (s, r) f ≡ (s', ok b)
      → (a : A) × (r ≡ ok a)
  check_passed s s' (ok a) f b h = (a, refl)
  check_passed s s' (err e) f b h = absurd (ground arith)

  -- A certificate that passes is one of a quorum.
  pub verify-IsQuorum :
      (message : Message) (qc : AggregateSignature) (bft : BftRoundState)
      → verify_quorum_certificate env message qc bft ≡ ok tt
      → IsQuorum env message bft.staking qc
  unfolding verify_quorum_certificate
  verify-IsQuorum message qc bft h = elim (Option-cases (env.verify_aggregate message qc)) [
    | inl unverified ↦ ground arith
    | inr (valid, verified) ↦ record {
      valid = ground arith;
      bonded = ground arith;
      power = ground arith;
    }
  ]
