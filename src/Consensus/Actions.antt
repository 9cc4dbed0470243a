-- ===== src/Consensus/Actions.antt =====
-- A handler changes the state and may fail; what it has changed before it fails stays changed.
use truth_seeker.Common.{Bool, true, false, Option, none, some, ◌∷◌, Result, ok, err}
use truth_seeker.Sdk.Types.{Bytes}
use truth_seeker.Consensus.Types.{
  Consensus, ConsensusError, BftRoundState, Output, NetMessage, broadcast, send_to,
}

abbrev pub Action : Type 0 → Type 0
Action A = Consensus → Consensus × Result ConsensusError A

module _ {A : Type 0} where
  unfoldable pub pure : A → Action A
  pure a s = (s, ok a)

  -- `bail!`
  unfoldable pub fail : ConsensusError → Action A
  fail e s = (s, err e)

  unfoldable pub gets : (BftRoundState → A) → Action A
  gets f s = (s, ok (f s.bft))

  -- a check that reads the state
  unfoldable pub check : (BftRoundState → Result ConsensusError A) → Action A
  check f s = (s, f s.bft)

  unfoldable pub or_fail : Option A → ConsensusError → Action A
  unfolding fail pure
  or_fail none e = fail e
  or_fail (some a) e = pure a

-- Go on behind what an action has returned, unless it has failed.
abbrev pub resume :
    {A B : Type 0}
    → Consensus × Result ConsensusError A
    → (A → Action B)
    → Consensus × Result ConsensusError B
resume (s, ok a) f = f a s
resume (s, err e) f = (s, err e)

infixl 5 ◌>>=◌ ◌>>◌
unfoldable pub ◌>>=◌ : {A B : Type 0} → Action A → (A → Action B) → Action B
◌>>=◌ m f s = resume (m s) f

abbrev pub ◌>>◌ : {A B : Type 0} → Action A → Action B → Action B
m >> k = m >>= λ _. k

unfoldable pub fail_if : Bool → ConsensusError → Action Unit
unfolding fail pure
fail_if true e = fail e
fail_if false e = pure tt

unfoldable pub modify : (BftRoundState → BftRoundState) → Action Unit
modify f s = (record s { bft = f s.bft }, ok tt)

-- Sending on the bus, which does not fail while anyone listens.
unfoldable pub send : Output → Action Unit
send o s = (record s { sent = o ∷ s.sent }, ok tt)

abbrev pub broadcast_net_message : NetMessage → Action Unit
broadcast_net_message m = send (broadcast m)

abbrev pub send_net_message : Bytes → NetMessage → Action Unit
send_net_message to m = send (send_to to m)
