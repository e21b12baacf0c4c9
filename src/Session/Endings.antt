-- ===== src/Session/Endings.antt =====
-- How a session ends, and that an agreement is final.
use concordia_protocol.Prelude.{
  ℕ, String, ◌≡◌, ◌≢◌, refl, ap, sym, ◌∙◌, true, false, Option, some, List, [], ◌∷◌, arith, Result,
  ok, err,
}
use concordia_protocol.Types.{SessionState, active, agreed, MessageType}
use concordia_protocol.Message.{Host, Message}
use concordia_protocol.Session.{
  Session, SessionError, transitions, is_round, is_conclusion, can_expire, can_sleep, same_state,
  admit, fire_terminal, track_behavior, record_terms, enter, commit_message, apply_message, expire,
  make_dormant, add_party,
}
use concordia_protocol.Session.Diagram.{Edge, Edge-transitions, transitions-Edge}
use concordia_protocol.Session.Admission.{IsCredible, admit-IsAdmissible, IsAdmissible-admit}
use concordia_protocol.Session.Run.{Call, deliver, lapse, sleep, join, step, run}

-- What an agreement fixes.
pub record SameDeal (H : Host) (s t : Session H) : Type 0 where
  pub state : t.state ≡ s.state
  pub transcript : t.transcript ≡ s.transcript
  pub terms : t.terms ≡ s.terms
  pub round_count : t.round_count ≡ s.round_count
  pub concluded_at : t.concluded_at ≡ s.concluded_at
  pub last_offers : t.last_offers ≡ s.last_offers
  pub notified : t.notified ≡ s.notified

agreed_stuck : (t : MessageType) (u : SessionState) → transitions agreed t ≢ some u
unfolding transitions
agreed_stuck t u h = ground arith

-- Only an edge of the table leads to a conclusion, and no offer or counter does.
concluding :
    (t : MessageType) (u : SessionState)
    → transitions active t ≡ some u
    → is_conclusion u ≡ true
    → is_round t ≡ false
unfolding transitions is_conclusion is_round
concluding t u h c = ground arith

module _ (H : Host) (resolver : String → Option H.Key) where
  step-SameDeal :
      (s : Session H) (c : Call H) → s.state ≡ agreed → SameDeal H s (step H resolver s c)
  unfolding step apply_message expire make_dormant fire_terminal add_party can_expire can_sleep
  step-SameDeal s (deliver m now) e = go (admit H resolver s m) refl
    where
      go :
          (r : Result SessionError (String × MessageType × SessionState))
          → admit H resolver s m ≡ r
          → SameDeal H s (apply_message H resolver m now s).1
      go (err x) p = ground arith
      go (ok (a, t, u)) p = absurd (
          agreed_stuck t u (
            ap (λ z. transitions z t) (sym e)
            ∙ Edge-transitions (admit-IsAdmissible H resolver s m a t u p).edge))
  step-SameDeal s (lapse now) e = ground arith
  step-SameDeal s sleep e = ground arith
  step-SameDeal s (join a role key) e = ground arith

  -- Once a session is AGREED, no sequence of calls changes its state, its transcript, terms and
  -- last offers, its round count, the time of its end or the calls of its callback.
  pub agreed_final :
      (s : Session H) (calls : List (Call H))
      → s.state ≡ agreed
      → SameDeal H s (run H resolver s calls)
  unfolding run
  agreed_final s [] e = ground arith
  agreed_final s (c ∷ cs) e =
      let one = step-SameDeal s c e in
      let rest = agreed_final (step H resolver s c) cs (one.state ∙ e) in ground (arith, one, rest)

  commit_message_concludes :
      (a : String) (t : MessageType) {u : SessionState} (m : Message H.Num) (now : ℕ)
      (s : Session H)
      → s.state ≡ active
      → is_conclusion u ≡ true
      → (◌≡◌ {A = Result SessionError SessionState}
          (ok (commit_message H a t u m now s).state)
          (ok u))
        × ((commit_message H a t u m now s).concluded_at ≡ some now)
  unfolding commit_message enter fire_terminal track_behavior record_terms is_conclusion same_state
  commit_message_concludes a t {u} m now s e c = ground arith

  -- One message concludes an active session, however many rounds it has used and whichever parties
  -- it has: a credible message of any sender whose type leads to AGREED or REJECTED is accepted, and
  -- the time of the end is recorded. For AGREED, SPEC.md §5.2 asks an accept from all parties; the
  -- code does not.
  pub active_can_conclude :
      (s : Session H) (m : Message H.Num) (now : ℕ) {a : String} {t : MessageType}
      {u : SessionState}
      → s.state ≡ active
      → IsCredible H resolver s m a t
      → Edge active t u
      → is_conclusion u ≡ true
      → ((apply_message H resolver m now s).0 ≡ ok u)
        × ((apply_message H resolver m now s).1.concluded_at ≡ some now)
  unfolding apply_message
  active_can_conclude s m now {a} {t} {u} e credible edge c =
      let table = Edge-transitions edge in
      let not_round : is_round t ≡ true → ⊥ = λ r. cc (concluding t u table c) in
      let accepted : admit H resolver s m ≡ ok (a, t, u) =
        IsAdmissible-admit H resolver s m (record {
          credible = credible;
          edge = transitions-Edge s.state t u (ap (λ z. transitions z t) e ∙ table);
          room = λ r. absurd (not_round r);
        }) in
      rw (accepted, apply_message) (commit_message_concludes a t m now s e c)
