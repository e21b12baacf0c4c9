-- ===== src/Session/Traces.antt =====
-- What the state of a session tells of the messages that it has received.
use concordia_protocol.Prelude.{
  ℕ, String, ◌≡◌, ◌≢◌, ◌⊎◌, refl, ap, sym, ◌∙◌, Bool, true, false, Option, some, List, [], ◌∷◌,
  ◌++◌, arith, any, any-append, last?, last?-append, Result, ok, err,
}
use concordia_protocol.Types.{
  SessionState, active, agreed, dormant, MessageType, accept_session, accept, commit, TimingConfig,
}
use concordia_protocol.Message.{Host, Message}
use concordia_protocol.Session.{
  Session, SessionError, new_session, transitions, can_expire, can_sleep, admit, fire_terminal,
  track_behavior, record_terms, enter, commit_message, apply_message, expire, make_dormant,
  add_party,
}
use concordia_protocol.Session.Diagram.{Edge-transitions}
use concordia_protocol.Session.Admission.{message_is, IsCredible-message_is, admit-IsAdmissible}
use concordia_protocol.Session.Chained.{transcript-commit_message}
use concordia_protocol.Session.Run.{Call, deliver, lapse, sleep, join, step, run, run_induction}

abbrev pub is_agreement : MessageType → Bool
is_agreement accept = true
is_agreement commit = true
is_agreement _ = false

abbrev pub is_start : MessageType → Bool
is_start accept_session = true
is_start _ = false

-- The last message agrees: it is an accept or a commit.
abbrev pub EndsAgreed : {N : Type 0} → List (Message N) → Type 0
EndsAgreed {N} ms = (m : Message N) × (last? ms ≡ some m) × (message_is is_agreement m ≡ true)

abbrev pub Started : {H : Host} → Session H → Type 0
Started s = (any (message_is is_start) s.transcript ≡ true) ⊎ (s.reactivatable ≡ true)

record Story (H : Host) (s : Session H) : Type 0 where
  ended : s.state ≡ agreed → EndsAgreed s.transcript
  running : s.state ≡ active → Started s
  settled : s.state ≡ agreed → Started s
  asleep : s.state ≡ dormant → s.reactivatable ≡ true

-- Where an accepted message leads, by the table.
to_agreed :
    (s : SessionState) (t : MessageType)
    → transitions s t ≡ some agreed
    → (s ≡ active) × (is_agreement t ≡ true)
unfolding transitions
to_agreed s t h = ground arith

to_active :
    (s : SessionState) (t : MessageType)
    → transitions s t ≡ some active
    → (s ≡ active) ⊎ ((s ≡ dormant) ⊎ (is_start t ≡ true))
unfolding transitions
to_active s t h = ground arith

to_awake : (s : SessionState) (t : MessageType) → transitions s t ≢ some dormant
unfolding transitions
to_awake s t h = ground arith

module _ (H : Host) where
  commit_message_keeps :
      (a : String) (t : MessageType) (u : SessionState) (m : Message H.Num) (now : ℕ)
      (s : Session H)
      → ((commit_message H a t u m now s).state ≡ u)
        × ((commit_message H a t u m now s).reactivatable ≡ s.reactivatable)
  unfolding commit_message enter fire_terminal track_behavior record_terms
  commit_message_keeps a t u m now s = ground arith

  Started-append :
      (s : Session H) (m : Message H.Num)
      → Started s
      → (any (message_is is_start) (s.transcript ++ m ∷ []) ≡ true) ⊎ (s.reactivatable ≡ true)
  Started-append s m h = ground (arith, any-append (message_is is_start) s.transcript (m ∷ []))

  commit_message-Story :
      (a : String) (t : MessageType) (u : SessionState) (m : Message H.Num) (now : ℕ)
      (s : Session H)
      → transitions s.state t ≡ some u
      → ((p : MessageType → Bool) → message_is p m ≡ p t)
      → Story H s
      → Story H (commit_message H a t u m now s)
  commit_message-Story a t u m now s edge typed v =
      let (to, same) = commit_message_keeps a t u m now s in
      let grown = transcript-commit_message H a t u m now s in
      let longer = any-append (message_is is_start) s.transcript (m ∷ []) in
      record {
        ended = λ e.
            let into = to_agreed s.state t (edge ∙ ap some (sym to ∙ e)) in
            rw grown (m, last?-append s.transcript m, typed is_agreement ∙ into.1);
        running = λ e.
            let into = to_active s.state t (edge ∙ ap some (sym to ∙ e)) in
            rw (grown, same) (ground (arith, longer, into, typed is_start, v.running, v.asleep));
        settled = λ e.
            let into = to_agreed s.state t (edge ∙ ap some (sym to ∙ e)) in
            rw (grown, same) (ground (arith, longer, into, v.running));
        asleep = λ e. absurd (to_awake s.state t (edge ∙ ap some (sym to ∙ e)));
      }

  step-Story :
      (resolver : String → Option H.Key) (s : Session H) (c : Call H)
      → Story H s
      → Story H (step H resolver s c)
  unfolding step apply_message expire make_dormant fire_terminal add_party can_expire can_sleep
  step-Story resolver s (deliver m now) v = go (admit H resolver s m) refl
    where
      go :
          (r : Result SessionError (String × MessageType × SessionState))
          → admit H resolver s m ≡ r
          → Story H (apply_message H resolver m now s).1
      go (err e) p = rw (p, apply_message) v
      go (ok (a, t, u)) p =
          let fits = admit-IsAdmissible H resolver s m a t u p in
          rw (p, apply_message)
            (commit_message-Story a t u m now s (Edge-transitions fits.edge)
              (λ q. IsCredible-message_is H resolver s m q fits.credible) v)
  step-Story resolver s (lapse now) v = record {
    ended = λ e. ground (arith, v.ended);
    running = λ e. ground (arith, v.running);
    settled = λ e. ground (arith, v.settled);
    asleep = λ e. ground (arith, v.asleep);
  }
  step-Story resolver s sleep v = record {
    ended = λ e. ground (arith, v.ended);
    running = λ e. ground (arith, v.running);
    settled = λ e. ground (arith, v.settled);
    asleep = λ e. ground (arith, v.asleep);
  }
  step-Story resolver s (join a role key) v = record {
    ended = v.ended;
    running = v.running;
    settled = v.settled;
    asleep = v.asleep;
  }

  module _ (resolver : String → Option H.Key) where
    -- A session that any calls on a new one have brought to AGREED ends with an accept or a
    -- commit, and was begun by an accept_session or has been dormant.
    pub agreed_story :
        (id : String) (timing : TimingConfig) (callback : Bool) (now : ℕ) (calls : List (Call H))
        → let s = run H resolver (new_session H id timing callback now) calls in
          s.state ≡ agreed → EndsAgreed s.transcript × Started s
    unfolding new_session
    agreed_story id timing callback now calls e =
        let new : Story H (new_session H id timing callback now) = record {
          ended = λ q. cc;
          running = λ q. cc;
          settled = λ q. cc;
          asleep = λ q. cc;
        } in
        let v =
          run_induction H resolver (Story H) (step-Story resolver)
            (new_session H id timing callback now) calls new in
        (v.ended e, v.settled e)
