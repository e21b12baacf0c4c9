-- ===== src/ChainSession/Seal.antt =====
-- Ended chain sessions, and what the last hash of the transition records seals
-- (concordia/cmpc/chain_session.py).
use concordia_protocol.Prelude.{
  ℕ, ◌≤◌, String, ◌≡◌, refl, ap, ap₂, sym, ◌∙◌, ◌⊎◌, inl, inr, true, Option, none, some, List, [],
  ◌∷◌, arith, is_some, length, eq_iff, ok, err,
}
use concordia_protocol.ChainSession.{
  ChainState, opened, activated, dissolved, expired, illegal_transition, past_deadline,
  proof_present, same_state, legal_transitions, Digest, TransitionRecord, ChainSession,
  compute_hash, last_hash, eq_option, verify_from, verify_transcript, checks,
  validate_preconditions, transition_to, timeout_evidence, expire_due_to_timeout,
}
use concordia_protocol.ChainSession.Transcript.{tip, last_hash-tip}
use concordia_protocol.ChainSession.Runs.{Act, go_to, time_out, amend, act, acts}

-- The session is ACTIVATED, DISSOLVED or EXPIRED.
abbrev pub HasEnded : ChainSession → Type 0
HasEnded s = (s.state ≡ activated) ⊎ ((s.state ≡ dissolved) ⊎ (s.state ≡ expired))

no_way_on : (s : ChainSession) → HasEnded s → legal_transitions s.state ≡ []
unfolding legal_transitions
no_way_on s (inl e) = rw e refl
no_way_on s (inr (inl e)) = rw e refl
no_way_on s (inr (inr e)) = rw e refl

HasEnded-state : (s t : ChainSession) → t.state ≡ s.state → HasEnded s → HasEnded t
HasEnded-state s t e (inl h) = inl (e ∙ h)
HasEnded-state s t e (inr (inl h)) = inr (inl (e ∙ h))
HasEnded-state s t e (inr (inr h)) = inr (inr (e ∙ h))

-- What the end of a session fixes.
pub record SameEnd (s t : ChainSession) : Type 0 where
  pub state : t.state ≡ s.state
  pub transitions : t.transitions ≡ s.transitions
  pub activated_at : t.activated_at ≡ s.activated_at
  pub dissolved_at : t.dissolved_at ≡ s.dissolved_at

module _ (digest : Digest) where
  ended_checks :
      (s : ChainSession) (to : ChainState) (now : ℕ)
      → HasEnded s
      → checks digest s to now ≡ err illegal_transition
  unfolding checks
  ended_checks s to now e = rw (no_way_on s e) refl

  transition_to_ended :
      (s : ChainSession) (to : ChainState) (evidence : Option String) (now : ℕ)
      → HasEnded s
      → transition_to digest to evidence now s ≡ (err illegal_transition, s)
  unfolding transition_to
  transition_to_ended s to evidence now e = rw (ended_checks s to now e, transition_to) refl

  act-SameEnd : (s : ChainSession) (a : Act) → HasEnded s → SameEnd s (act digest s a)
  unfolding act expire_due_to_timeout
  act-SameEnd s (go_to to evidence now) e = ground (arith, transition_to_ended s to evidence now e)
  act-SameEnd s (time_out now) e =
      ground (arith, transition_to_ended s expired timeout_evidence now e)
  act-SameEnd s (amend commitments unwind proof) e = record {
    state = refl;
    transitions = refl;
    activated_at = refl;
    dissolved_at = refl;
  }

  -- A chain session that is ACTIVATED, DISSOLVED or EXPIRED stays so: no calls and edits change
  -- its state, its records or the times of its end.
  pub ended_final : (s : ChainSession) (as' : List Act) → HasEnded s → SameEnd s (acts digest s as')
  unfolding acts
  ended_final s [] e = record {
    state = refl;
    transitions = refl;
    activated_at = refl;
    dissolved_at = refl;
  }
  ended_final s (a ∷ as') e =
      let one = act-SameEnd s a e in
      let rest = ended_final (act digest s a) as' (HasEnded-state s (act digest s a) one.state e) in
      ground (arith, one, rest)

  -- From the deadline on, an OPEN session that holds an activation proof can neither be
  -- activated, the deadline being past, nor expire, the proof being there: only an unwind record
  -- can end it.
  pub late_proof :
      (s : ChainSession) (evidence : Option String) (now : ℕ)
      → s.state ≡ opened
      → is_some s.activation_proof_id ≡ true
      → s.activation_deadline ≤ now
      → (transition_to digest activated evidence now s ≡ (err past_deadline, s))
        × (transition_to digest expired evidence now s ≡ (err proof_present, s))
        × ((transition_to digest dissolved evidence now s).0 ≡ ok tt
            → is_some s.unwind_record_id ≡ true)
  unfolding transition_to checks validate_preconditions legal_transitions same_state
  late_proof s evidence now e p late = (ground arith, ground arith, λ h. ground arith)

  -- At no position do the lists hold different records with one digest.
  abbrev pub NoCollision : List TransitionRecord → List TransitionRecord → Type 0
  NoCollision (x ∷ xs) (y ∷ ys) =
      (compute_hash digest x ≡ compute_hash digest y
        → (x.from_state ≡ y.from_state)
          × (x.to_state ≡ y.to_state)
          × (x.transitioned_at ≡ y.transitioned_at)
          × (x.evidence ≡ y.evidence)
          × (x.prev_transition_hash ≡ y.prev_transition_hash))
      × NoCollision xs ys
  NoCollision _ _ = Unit

  eq_option-eq : (a b : Option String) → eq_option digest a b ≡ true → a ≡ b
  unfolding eq_option
  eq_option-eq none none h = refl
  eq_option-eq none (some b) h = cc
  eq_option-eq (some a) none h = cc
  eq_option-eq (some a) (some b) h = ap some ((eq_iff a b).0 h)

  verify_from_unique :
      (p q : Option String) (xs ys : List TransitionRecord)
      → length xs ≡ length ys
      → verify_from digest p xs ≡ true
      → verify_from digest q ys ≡ true
      → NoCollision xs ys
      → tip digest p xs ≡ tip digest q ys
      → (p ≡ q) × (xs ≡ ys)
  unfolding verify_from tip
  verify_from_unique p q [] [] l a b free e = (e, refl)
  verify_from_unique p q [] (y ∷ ys) l a b free e = absurd (omega arith)
  verify_from_unique p q (x ∷ xs) [] l a b free e = absurd (omega arith)
  verify_from_unique p q (x ∷ xs) (y ∷ ys) l a b free e =
      let (hashes, rest) =
        verify_from_unique x.transition_hash y.transition_hash xs ys (omega arith) (ground arith)
          (ground arith) free.1 e in
      let from_p = eq_option-eq x.prev_transition_hash p (ground arith) in
      let from_q = eq_option-eq y.prev_transition_hash q (ground arith) in
      let own_x = eq_option-eq x.transition_hash (some (compute_hash digest x)) (ground arith) in
      let own_y = eq_option-eq y.transition_hash (some (compute_hash digest y)) (ground arith) in
      let same = free.0 (cc) in
      let records : x ≡ y = ground (arith, same, hashes) in (cc, ap₂ ◌∷◌ records rest)

  -- Two chain sessions with as many records, whose transcripts verify and whose last records
  -- have one hash, have the same records, if at no position they hold records that differ in what
  -- is hashed and have one digest.
  pub verify_transcript_unique :
      (s t : ChainSession)
      → length s.transitions ≡ length t.transitions
      → verify_transcript digest s ≡ true
      → verify_transcript digest t ≡ true
      → NoCollision s.transitions t.transitions
      → last_hash s.transitions ≡ last_hash t.transitions
      → s.transitions ≡ t.transitions
  unfolding verify_transcript
  verify_transcript_unique s t l a b free e =
      (verify_from_unique none none s.transitions t.transitions l a b free
        (sym (last_hash-tip digest s.transitions) ∙ e ∙ last_hash-tip digest t.transitions)).1
