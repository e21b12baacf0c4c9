-- ===== src/ChainSession/Moves.antt =====
-- When a chain session may move (`transition_to` of concordia/cmpc/chain_session.py).
use concordia_protocol.Prelude.{
  ℕ, ◌≤◌, ◌<◌, String, ◌≡◌, refl, ◌↔◌, true, Option, none, arith, length, is_some, ok, err,
}
use concordia_protocol.ChainSession.{
  ChainState, proposed, opened, activated, dissolved, expired, ChainError, same_state,
  legal_transitions, Digest, ChainSession, validate_preconditions, checks, transition_to,
}

-- What the protocol asks of each move, on the facts of the session at the time `now`.
pub data MayMove (s : ChainSession) (now : ℕ) : ChainState → ChainState → Type 0 where
  may_open : length s.commitments ≡ length s.participants → MayMove s now proposed opened
  may_activate :
      is_some s.activation_proof_id ≡ true
      → now < s.activation_deadline
      → MayMove s now opened activated
  may_dissolve : is_some s.unwind_record_id ≡ true → MayMove s now opened dissolved
  may_expire :
      s.activation_deadline ≤ now → s.activation_proof_id ≡ none → MayMove s now opened expired

module _ (digest : Digest) where
  pub checks-MayMove :
      (s : ChainSession) (from to : ChainState) (now : ℕ)
      → s.state ≡ from
      → checks digest s to now ≡ ok tt
      → MayMove s now from to
  unfolding checks validate_preconditions legal_transitions same_state
  checks-MayMove s proposed opened now e h = may_open (ground arith)
  checks-MayMove s opened activated now e h = may_activate (ground arith) (ground arith)
  checks-MayMove s opened dissolved now e h = may_dissolve (ground arith)
  checks-MayMove s opened expired now e h = may_expire (ground arith) (ground arith)
  checks-MayMove s from to now e h = absurd (ground arith)

  MayMove-checks :
      (s : ChainSession) {from to : ChainState} (now : ℕ)
      → s.state ≡ from
      → MayMove s now from to
      → checks digest s to now ≡ ok tt
  unfolding checks validate_preconditions legal_transitions same_state
  MayMove-checks s now e (may_open h) = ground arith
  MayMove-checks s now e (may_activate h k) = ground arith
  MayMove-checks s now e (may_dissolve h) = ground arith
  MayMove-checks s now e (may_expire h k) = ground arith

  -- `transition_to` succeeds exactly when the protocol allows the move from the session's state
  -- at that time: to OPEN with one commitment for each participant, from there to ACTIVATED with
  -- a proof before the deadline, to DISSOLVED with an unwind record, and to EXPIRED without a
  -- proof from the deadline on.
  pub transition_to_iff :
      (s : ChainSession) (to : ChainState) (evidence : Option String) (now : ℕ)
      → ((transition_to digest to evidence now s).0 ≡ ok tt) ↔ MayMove s now s.state to
  unfolding transition_to
  transition_to_iff s to evidence now = (
    λ h. checks-MayMove s s.state to now refl (ground arith),
    λ h. let passed = MayMove-checks s now refl h in ground arith,
  )

  -- A refused move leaves the chain session as it was.
  pub transition_to_err :
      (s : ChainSession) (to : ChainState) (evidence : Option String) (now : ℕ) {e : ChainError}
      → (transition_to digest to evidence now s).0 ≡ err e
      → (transition_to digest to evidence now s).1 ≡ s
  unfolding transition_to
  transition_to_err s to evidence now h = ground arith
