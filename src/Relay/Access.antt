-- ===== src/Relay/Access.antt =====
-- Who may act on a session of concordia/relay.py.
use concordia_protocol.Prelude.{
  ℕ, String, ◌≡◌, refl, ◌↔◌, is_some, inl, inr, true, false, Option, none, some, arith, eq_iff,
  Option-cases,
}
use text.Mathlib.TextPositions.{eq_refl}
use concordia_protocol.Prelude.Dict.{get}
use concordia_protocol.Relay.{
  pending, active, Participant, RelaySession, Relay, is_open, is_timed_out, get_participant,
  get_counterparty, confirmed_id, record_skip, time_out, settle,
}
use concordia_protocol.Relay.Sessions.{
  new_participant, confirm, try_join, join_settled, join_session, is_confirmed, conclude_session,
}
use concordia_protocol.Relay.Messages.{Outgoing, send_from, send_message, may_read, get_transcript}

-- An agent who is not a confirmed participant of a session can neither send in it nor conclude
-- it: both calls return None and leave the relay as it was.
pub outsider_refused :
    (o : Outgoing) (reason : String) (now : ℕ) (r : Relay) {s : RelaySession}
    → get r.sessions o.relay_session_id ≡ some s
    → is_confirmed s o.from_agent ≡ false
    → (send_message o now r ≡ (none, r))
      × (conclude_session o.relay_session_id reason o.from_agent now r ≡ (none, r))
unfolding send_message send_from conclude_session
outsider_refused o reason now r e c = (ground arith, ground arith)

-- An agent is given a transcript exactly when the session is there and the agent is one of its
-- participants.
pub get_transcript_iff :
    (id agent_id : String) (limit : Option ℕ) (r : Relay)
    → (is_some (get_transcript id (some agent_id) limit r) ≡ true) ↔ (
        (s : RelaySession) × (get r.sessions id ≡ some s)
        × (is_some (get_participant s agent_id) ≡ true))
unfolding get_transcript may_read
get_transcript_iff id agent_id limit r = (λ h. there h, λ (s, e, p). ground (arith, e, p))
  where
    there :
        is_some (get_transcript id (some agent_id) limit r) ≡ true
        → (s : RelaySession) × (get r.sessions id ≡ some s)
          × (is_some (get_participant s agent_id) ≡ true)
    there h = elim (Option-cases (get r.sessions id)) [
      | inl e ↦ absurd (ground (arith, e, h))
      | inr (s, e) ↦ (s, e, ground (arith, e, h))
    ]

-- The place of the responder is free, or reserved for the agent.
abbrev pub HasPlace : String → Option Participant → Type 0
HasPlace agent_id none = Unit
HasPlace agent_id (some p) = p.agent_id ≡ agent_id

pub record CanJoin (agent_id : String) (now : ℕ) (s : RelaySession) : Type 0 where
  pub pending_still : s.state ≡ pending
  pub in_time : is_timed_out s now ≡ false
  pub place : HasPlace agent_id s.responder

confirm_some :
    (a : String) (endpoint : Option String) (now : ℕ) (o : Option Participant)
    → (is_some (confirm a endpoint now o) ≡ true) ↔ HasPlace a o
unfolding confirm
confirm_some a endpoint now none = (λ h. tt, λ h. refl)
confirm_some a endpoint now (some p) = (
  λ h. (eq_iff p.agent_id a).0 (ground arith),
  λ h. let e = (eq_iff p.agent_id a).1 h in ground arith,
)

try_join-CanJoin :
    (a : String) (endpoint : Option String) (now : ℕ) (s : RelaySession)
    → is_some (try_join a endpoint now (settle now s)) ≡ true
    → CanJoin a now s
unfolding try_join settle time_out record_skip is_open
try_join-CanJoin a endpoint now s h = record {
  pending_still = ground (arith, h);
  in_time = ground (arith, h);
  place = (confirm_some a endpoint now s.responder).0 (ground (arith, h));
}

CanJoin-try_join :
    (a : String) (endpoint : Option String) (now : ℕ) (s : RelaySession)
    → CanJoin a now s
    → is_some (try_join a endpoint now (settle now s)) ≡ true
unfolding try_join settle
CanJoin-try_join a endpoint now s c =
    let seat = (confirm_some a endpoint now s.responder).1 c.place in ground (arith, seat, c)

-- A join succeeds exactly when the session is there, pending and within its TTL, and its second
-- place is free or reserved for the agent who joins.
pub join_session_iff :
    (id a : String) (endpoint : Option String) (now : ℕ) (r : Relay)
    → (is_some (join_session id a endpoint now r).0 ≡ true)
      ↔ ((s : RelaySession) × (get r.sessions id ≡ some s) × CanJoin a now s)
unfolding join_session join_settled
join_session_iff id a endpoint now r = (
  there,
  λ (s, e, c). let joined = CanJoin-try_join a endpoint now s c in ground (arith, e, joined),
)
  where
    there :
        is_some (join_session id a endpoint now r).0 ≡ true
        → (s : RelaySession) × (get r.sessions id ≡ some s) × CanJoin a now s
    there h = elim (Option-cases (get r.sessions id)) [
      | inl e ↦ absurd (ground (arith, e, h))
      | inr (s, e) ↦ (s, e, try_join-CanJoin a endpoint now s (ground (arith, e, h)))
    ]

-- The initiator of a session without a reserved responder can join it too, and is then its own
-- counterparty in an active session, which `create_session` refuses to make.
pub self_join :
    (id : String) (endpoint : Option String) (now : ℕ) (r : Relay) (s : RelaySession)
    → get r.sessions id ≡ some s
    → s.state ≡ pending
    → is_timed_out s now ≡ false
    → s.responder ≡ none
    → (t : RelaySession) × ((join_session id s.initiator.agent_id endpoint now r).0 ≡ some t)
      × (t.state ≡ active)
      × (get_counterparty t s.initiator.agent_id ≡ some s.initiator.agent_id)
unfolding join_session join_settled try_join settle confirm new_participant get_counterparty
    confirmed_id
self_join id endpoint now r s e p t n = (
  record s {
    responder = some (new_participant s.initiator.agent_id endpoint true now);
    state = active;
  },
  ground arith,
  refl,
  rw (eq_refl s.initiator.agent_id) refl,
)
