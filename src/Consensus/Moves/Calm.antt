-- ===== src/Consensus/Moves/Calm.antt =====
-- Actions that leave the slot and the view of a node as they are, and what may follow them.
use truth_seeker.Common.{
  ℕ, ◌≡◌, refl, ◌∙◌, Bool, true, false, [], ◌∷◌, nat_eq, list_eq, if◌then◌else◌, Result, ok, err,
}
use truth_seeker.Consensus.Types.{BftRoundState, Output, Consensus, ConsensusError, Env}
use truth_seeker.Consensus.Actions.{Action, pure, fail, check, fail_if, modify, send, resume, ◌>>=◌}
use truth_seeker.Consensus.Moves.{Round, commits_of, round_of, After, Keeps}
use truth_seeker.Consensus.Moves.Runs.{
  modify-Keeps, check-Keeps, Stays, bind-Keeps, fail_if-Keeps, send-Keeps, moved-After,
}

module _ (env : Env) where
  -- The action leaves the slot and the view as they are.
  pub record Calm {A : Type 0} (m : Action A) : Type 0 where
    pub keeps : Keeps env m
    pub slot : (s : Consensus) → ((m s).0.bft).slot ≡ (s.bft).slot
    pub view : (s : Consensus) → ((m s).0.bft).view ≡ (s.bft).view

  -- What follows an action may rest on what it has returned, and on the slot and the view.
  resume_rest :
      {A B : Type 0} {r : Round} (slot view : ℕ) (x y : Consensus × Result ConsensusError A)
      (f : A → Action B)
      → y ≡ x
      → After env r x
      → ((x.0).bft).slot ≡ slot
      → ((x.0).bft).view ≡ view
      → ((a : A) (s : Consensus)
          → (s.bft).slot ≡ slot
          → (s.bft).view ≡ view
          → y ≡ (s, ok a)
          → After env (round_of s) (f a s))
      → After env r (resume x f)
  resume_rest slot view (s, ok a) y f e m hs hv k = moved-After env m.reached (k a s hs hv e)
  resume_rest slot view (s, err x) y f e m hs hv k = record { reached = m.reached }

  pub bind_rest :
      {A B : Type 0} (m : Action A) (f : A → Action B) (s : Consensus)
      → Calm m
      → ((a : A) (s' : Consensus)
          → (s'.bft).slot ≡ (s.bft).slot
          → (s'.bft).view ≡ (s.bft).view
          → m s ≡ (s', ok a)
          → After env (round_of s') (f a s'))
      → After env (round_of s) ((m >>= f) s)
  unfolding ◌>>=◌
  bind_rest m f s h k =
      resume_rest (s.bft).slot (s.bft).view (m s) (m s) f refl (h.keeps.at s) (h.slot s) (h.view s)
        k

  pub modify-Calm : (f : BftRoundState → BftRoundState) → Stays env f → Calm (modify f)
  unfolding modify
  modify-Calm f h = record {
    keeps = modify-Keeps env f h;
    slot = λ s. (h s.bft).0;
    view = λ s. (h s.bft).1;
  }

  pub check-Calm : {A : Type 0} (f : BftRoundState → Result ConsensusError A) → Calm (check f)
  unfolding check
  check-Calm f = record { keeps = check-Keeps env f; slot = λ s. refl; view = λ s. refl }

  pub send-Calm : (o : Output) → commits_of (o ∷ []) ≡ [] → Calm (send o)
  unfolding send
  send-Calm o h = record { keeps = send-Keeps env o h; slot = λ s. refl; view = λ s. refl }

  pub fail_if-Calm : (b : Bool) (e : ConsensusError) → Calm (fail_if b e)
  unfolding fail_if fail pure
  fail_if-Calm true e = record {
    keeps = fail_if-Keeps env true e;
    slot = λ s. refl;
    view = λ s. refl;
  }
  fail_if-Calm false e = record {
    keeps = fail_if-Keeps env false e;
    slot = λ s. refl;
    view = λ s. refl;
  }

  resume_slot :
      {A B : Type 0} (slot : ℕ) (x : Consensus × Result ConsensusError A) (f : A → Action B)
      → ((x.0).bft).slot ≡ slot
      → ((a : A) → Calm (f a))
      → ((resume x f).0.bft).slot ≡ slot
  resume_slot slot (s, ok a) f h k = (k a).slot s ∙ h
  resume_slot slot (s, err e) f h k = h

  resume_view :
      {A B : Type 0} (view : ℕ) (x : Consensus × Result ConsensusError A) (f : A → Action B)
      → ((x.0).bft).view ≡ view
      → ((a : A) → Calm (f a))
      → ((resume x f).0.bft).view ≡ view
  resume_view view (s, ok a) f h k = (k a).view s ∙ h
  resume_view view (s, err e) f h k = h

  pub bind-Calm :
      {A B : Type 0} (m : Action A) (f : A → Action B)
      → Calm m
      → ((a : A) → Calm (f a))
      → Calm (m >>= f)
  unfolding ◌>>=◌
  bind-Calm m f h k = record {
    keeps = bind-Keeps env h.keeps (λ a. (k a).keeps);
    slot = λ s. resume_slot (s.bft).slot (m s) f (h.slot s) k;
    view = λ s. resume_view (s.bft).view (m s) f (h.view s) k;
  }

  pub if-Calm :
      {A : Type 0} (b : Bool) (m k : Action A) → Calm m → Calm k → Calm (if b then m else k)
  if-Calm true m k hm hk = hm
  if-Calm false m k hm hk = hk
