-- ===== src/ChainSession/Transcript.antt =====
-- The transition records of a chain session (`verify_transcript` of
-- concordia/cmpc/chain_session.py) and how a move extends them.
use text.Mathlib.TextPositions.{eq_refl}
use concordia_protocol.Prelude.{
  ℕ, String, ◌≡◌, refl, sym, true, Option, none, some, List, [], ◌∷◌, ◌++◌, arith, Result, ok, err,
}
use concordia_protocol.ChainSession.{
  ChainState, ChainError, activated, Digest, TransitionRecord, ChainSession, compute_hash,
  eq_option, verify_from, verify_transcript, last_hash, new_record, stamp, move, checks,
  transition_to,
}

module _ (digest : Digest) where
  eq_option_refl : (o : Option String) → eq_option digest o o ≡ true
  unfolding eq_option
  eq_option_refl none = refl
  eq_option_refl (some a) = eq_refl a

  -- The hash that the next record has to name, after `prev`.
  unfoldable pub tip : Option String → List TransitionRecord → Option String
  tip prev [] = prev
  tip prev (r ∷ rs) = tip r.transition_hash rs

  tip-last_hash :
      (r : TransitionRecord) (rs : List TransitionRecord)
      → tip r.transition_hash rs ≡ last_hash (r ∷ rs)
  unfolding tip last_hash
  tip-last_hash r [] = refl
  tip-last_hash r (q ∷ rs) = tip-last_hash q rs

  verify_from-append :
      (prev : Option String) (rs : List TransitionRecord) (r : TransitionRecord)
      → verify_from digest prev rs ≡ true
      → r.prev_transition_hash ≡ tip prev rs
      → r.transition_hash ≡ some (compute_hash digest r)
      → verify_from digest prev (rs ++ r ∷ []) ≡ true
  unfolding verify_from tip
  verify_from-append prev [] r v p h =
      ground (arith, p, h, eq_option_refl prev, eq_option_refl (some (compute_hash digest r)))
  verify_from-append prev (q ∷ rs) r v p h =
      ground (arith, verify_from-append q.transition_hash rs r)

  pub last_hash-tip : (rs : List TransitionRecord) → last_hash rs ≡ tip none rs
  unfolding tip last_hash
  last_hash-tip [] = refl
  last_hash-tip (r ∷ rs) = sym (tip-last_hash r rs)

  pub transitions-move :
      (s : ChainSession) (to : ChainState) (evidence : Option String) (now : ℕ)
      → (move digest s to evidence now).transitions
        ≡ s.transitions ++ new_record digest s to evidence now ∷ []
  unfolding move stamp
  transitions-move s activated evidence now = refl
  transitions-move s _ evidence now = refl

  pub verify_transcript-transition_to :
      (s : ChainSession) (to : ChainState) (evidence : Option String) (now : ℕ)
      → verify_transcript digest s ≡ true
      → verify_transcript digest (transition_to digest to evidence now s).1 ≡ true
  unfolding transition_to verify_transcript
  verify_transcript-transition_to s to evidence now v = go (checks digest s to now) refl
    where
      go :
          (r : Result ChainError (Unit {0}))
          → checks digest s to now ≡ r
          → verify_transcript digest (transition_to digest to evidence now s).1 ≡ true
      go (err e) p = rw (p, transition_to) v
      go (ok _) p =
          rw (p, transition_to)
            (rw (transitions-move s to evidence now) (
              verify_from-append none s.transitions (new_record digest s to evidence now) v
                (unfold new_record in last_hash-tip s.transitions)
                (unfold new_record compute_hash in refl)))
