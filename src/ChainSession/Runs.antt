-- ===== src/ChainSession/Runs.antt =====
-- The life of a chain session: the calls of concordia/cmpc/chain_session.py and the edits of
-- the host between them, in any order.
use concordia_protocol.Prelude.{
  ℕ, ◌≤◌, ◌<◌, String, ◌≡◌, refl, sym, ◌∙◌, ◌⊎◌, inl, true, Option, none, some, List, [], ◌∷◌, ◌++◌,
  arith, any, length, length-append, Result, ok, err,
}
use concordia_protocol.ChainSession.{
  ChainState, proposed, opened, activated, dissolved, expired, ChainError, same_state,
  legal_transitions, Digest, TransitionRecord, ChainSession, verify_from, verify_transcript,
  new_record, stamp, move, checks, transition_to, expire_due_to_timeout,
}
use concordia_protocol.ChainSession.Moves.{
  MayMove, may_open, may_activate, may_dissolve, may_expire, checks-MayMove,
}
use concordia_protocol.ChainSession.Transcript.{transitions-move, verify_transcript-transition_to}

-- A call, or an assignment of the host to the fields that the class itself never writes.
pub data Act : Type 0 where
  go_to : ChainState → Option String → ℕ → Act
  time_out : ℕ → Act
  amend : List String → Option String → Option String → Act

-- A session as it is made: no move yet.
pub record IsFresh (s : ChainSession) : Type 0 where
  pub state : s.state ≡ proposed
  pub activated_at : s.activated_at ≡ none
  pub dissolved_at : s.dissolved_at ≡ none
  pub transitions : s.transitions ≡ []

-- The records lead from one state to the other, each by a legal transition.
abbrev pub Leads : ChainState → List TransitionRecord → ChainState → Type 0
Leads from [] to = from ≡ to
Leads from (r ∷ rs) to =
    (r.from_state ≡ from)
    × ((any (same_state r.to_state) (legal_transitions from) ≡ true) × Leads r.to_state rs to)

abbrev rank : ChainState → ℕ
rank proposed = 0
rank opened = 1
rank _ = 2

pub record History (digest : Digest) (s : ChainSession) : Type 0 where
  pub verified : verify_transcript digest s ≡ true
  pub path : Leads proposed s.transitions s.state
  pub moves : length s.transitions ≤ 2
  pub in_time :
      s.state ≡ activated → (t : ℕ) × (s.activated_at ≡ some t) × (t < s.activation_deadline)
  pub one_end : (s.activated_at ≡ none) ⊎ (s.dissolved_at ≡ none)

module _ (digest : Digest) where
  unfoldable pub act : ChainSession → Act → ChainSession
  act s (go_to to evidence now) = (transition_to digest to evidence now s).1
  act s (time_out now) = (expire_due_to_timeout digest now s).1
  act s (amend commitments unwind proof) = record s {
    commitments = commitments;
    unwind_record_id = unwind;
    activation_proof_id = proof;
  }

  unfoldable pub acts : ChainSession → List Act → ChainSession
  acts s [] = s
  acts s (a ∷ as') = acts (act s a) as'

  Leads-append :
      (from : ChainState) (rs : List TransitionRecord) (mid : ChainState) (r : TransitionRecord)
      → Leads from rs mid
      → r.from_state ≡ mid
      → any (same_state r.to_state) (legal_transitions mid) ≡ true
      → Leads from (rs ++ r ∷ []) r.to_state
  Leads-append from [] mid r l e h = (e ∙ sym l, (rw l h, refl))
  Leads-append from (q ∷ rs) mid r l e h =
      (l.0, (l.1.0, Leads-append q.to_state rs mid r l.1.1 e h))

  MayMove-legal :
      {s : ChainSession} {now : ℕ} {from to : ChainState}
      → MayMove s now from to
      → any (same_state to) (legal_transitions from) ≡ true
  unfolding legal_transitions same_state
  MayMove-legal (may_open h) = refl
  MayMove-legal (may_activate h k) = refl
  MayMove-legal (may_dissolve h) = refl
  MayMove-legal (may_expire h k) = refl

  move-path :
      (s : ChainSession) (to : ChainState) (evidence : Option String) (now : ℕ)
      → any (same_state to) (legal_transitions s.state) ≡ true
      → Leads proposed s.transitions s.state
      → Leads proposed (s.transitions ++ new_record digest s to evidence now ∷ []) to
  unfolding new_record
  move-path s to evidence now h l =
      Leads-append proposed s.transitions s.state (new_record digest s to evidence now) l refl h

  move_state :
      (s : ChainSession) (to : ChainState) (evidence : Option String) (now : ℕ)
      → (move digest s to evidence now).state ≡ to
  unfolding move stamp
  move_state s activated evidence now = refl
  move_state s _ evidence now = refl

  -- What a move does to the counts and the times.
  record Times (s : ChainSession) : Type 0 where
    counted : length s.transitions ≡ rank s.state
    in_time :
        s.state ≡ activated → (t : ℕ) × (s.activated_at ≡ some t) × (t < s.activation_deadline)
    unactivated : (s.state ≡ activated) ⊎ (s.activated_at ≡ none)
    undissolved : (rank s.state ≤ 1) ⊎ (s.state ≡ activated) → s.dissolved_at ≡ none

  move-Times :
      (s : ChainSession) {from to : ChainState} (evidence : Option String) (now : ℕ)
      → s.state ≡ from
      → MayMove s now from to
      → Times s
      → Times (move digest s to evidence now)
  unfolding move stamp
  move-Times s evidence now e (may_open h) v = record {
    counted =
        ground (arith, length-append s.transitions (new_record digest s opened evidence now ∷ []));
    in_time = λ q. cc;
    unactivated = ground arith;
    undissolved = λ q. ground arith;
  }
  move-Times s evidence now e (may_activate h k) v = record {
    counted =
        ground
          (arith, length-append s.transitions (new_record digest s activated evidence now ∷ []));
    in_time = λ q. (now, refl, k);
    unactivated = inl refl;
    undissolved = λ q. ground arith;
  }
  move-Times s evidence now e (may_dissolve h) v = record {
    counted =
        ground
          (arith, length-append s.transitions (new_record digest s dissolved evidence now ∷ []));
    in_time = λ q. cc;
    unactivated = ground arith;
    undissolved = λ q. ground arith;
  }
  move-Times s evidence now e (may_expire h k) v = record {
    counted =
        ground (arith, length-append s.transitions (new_record digest s expired evidence now ∷ []));
    in_time = λ q. cc;
    unactivated = ground arith;
    undissolved = λ q. ground arith;
  }

  record Ledger (s : ChainSession) : Type 0 where
    verified : verify_transcript digest s ≡ true
    path : Leads proposed s.transitions s.state
    times : Times s

  transition_to-Ledger :
      (s : ChainSession) (to : ChainState) (evidence : Option String) (now : ℕ)
      → Ledger s
      → Ledger (transition_to digest to evidence now s).1
  unfolding transition_to
  transition_to-Ledger s to evidence now v = go (checks digest s to now) refl
    where
      go :
          (r : Result ChainError (Unit {0}))
          → checks digest s to now ≡ r
          → Ledger (transition_to digest to evidence now s).1
      go (err e) p = rw (p, transition_to) v
      go (ok _) p =
          let allowed = checks-MayMove digest s s.state to now refl p in
          let verified = verify_transcript-transition_to digest s to evidence now v.verified in
          rw (p, transition_to)
            (record {
              verified = rw (p, transition_to) at verified;
              path =
                  rw (transitions-move digest s to evidence now, move_state s to evidence now)
                    (move-path s to evidence now (MayMove-legal allowed) v.path);
              times = move-Times s evidence now refl allowed v.times;
            })

  act-Ledger : (s : ChainSession) (a : Act) → Ledger s → Ledger (act s a)
  unfolding act expire_due_to_timeout verify_transcript
  act-Ledger s (go_to to evidence now) v = transition_to-Ledger s to evidence now v
  act-Ledger s (time_out now) v = transition_to-Ledger s expired _ now v
  act-Ledger s (amend commitments unwind proof) v = record {
    verified = v.verified;
    path = v.path;
    times = record {
      counted = v.times.counted;
      in_time = v.times.in_time;
      unactivated = v.times.unactivated;
      undissolved = v.times.undissolved;
    };
  }

  acts-Ledger : (s : ChainSession) (as' : List Act) → Ledger s → Ledger (acts s as')
  unfolding acts
  acts-Ledger s [] v = v
  acts-Ledger s (a ∷ as') v = acts-Ledger (act s a) as' (act-Ledger s a v)

  IsFresh-Ledger : (s : ChainSession) → IsFresh s → Ledger s
  unfolding verify_transcript verify_from
  IsFresh-Ledger s f = record {
    verified = rw f.transitions refl;
    path = rw (f.transitions, f.state) refl;
    times = ground arith;
  }

  Ledger-History : (s : ChainSession) → Ledger s → History digest s
  Ledger-History s v = record {
    verified = v.verified;
    path = v.path;
    moves = ground (arith, v.times.counted);
    in_time = v.times.in_time;
    one_end = ground (arith, v.times.unactivated, v.times.undissolved);
  }

  -- Whatever calls and edits are made on a fresh chain session, its transition records verify,
  -- they lead by legal transitions from PROPOSED to its state, there are at most two of them, an
  -- ACTIVATED session was activated before its deadline, and no session has both the time of an
  -- activation and that of a dissolution.
  pub acts-History : (s : ChainSession) (as' : List Act) → IsFresh s → History digest (acts s as')
  acts-History s as' f = Ledger-History (acts s as') (acts-Ledger s as' (IsFresh-Ledger s f))
