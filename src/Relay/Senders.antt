-- ===== src/Relay/Senders.antt =====
-- Who may send in a session of concordia/relay.py, described without the code, and when it may.
use concordia_protocol.Prelude.{
  ℕ, ◌+◌, ◌≤◌, ◌<◌, String, ◌≡◌, ◌≢◌, refl, ◌⊎◌, inl, inr, ◌↔◌, true, false, some, arith, length,
  str_eq, eq_iff, Bool-cases, Option-cases,
}
use concordia_protocol.Relay.{
  RelayState, pending, active, concluded, archived, timed_out, Participant, RelaySession,
  max_transcript_size, is_open, is_timed_out, responder_if, get_participant, confirmed_id,
  initiator_if, get_counterparty,
}
use concordia_protocol.Relay.Sessions.{is_confirmed}
use concordia_protocol.Relay.Messages.{Outgoing}

-- The initiator writes to a responder who has joined.
abbrev pub InitiatorWrites : RelaySession → String → String → Type 0
InitiatorWrites s from to =
    (s.initiator.agent_id ≡ from)
    × (s.initiator.confirmed ≡ true)
    × ((p : Participant) × (s.responder ≡ some p) × (p.confirmed ≡ true) × (p.agent_id ≡ to))

-- A responder who has joined, and is not the initiator, writes to the initiator.
abbrev pub ResponderWrites : RelaySession → String → String → Type 0
ResponderWrites s from to =
    (s.initiator.agent_id ≢ from)
    × (s.initiator.agent_id ≡ to)
    × ((p : Participant) × (s.responder ≡ some p) × (p.confirmed ≡ true) × (p.agent_id ≡ from))

-- What a send asks of the session.
pub record MaySend (o : Outgoing) (to_agent : String) (now : ℕ) (s : RelaySession) : Type 0 where
  pub writes : InitiatorWrites s o.from_agent to_agent ⊎ ResponderWrites s o.from_agent to_agent
  pub live : (s.state ≡ pending) ⊎ (s.state ≡ active)
  pub in_time : now ≤ s.created_at + s.session_ttl
  pub room : length s.transcript < 10000

-- The same by the tests of the code.
pub record MayWrite (o : Outgoing) (to_agent : String) (now : ℕ) (s : RelaySession) : Type 0 where
  pub confirmed : is_confirmed s o.from_agent ≡ true
  pub live : is_open s.state ≡ true
  pub in_time : is_timed_out s now ≡ false
  pub room : length s.transcript < max_transcript_size
  pub counterparty : get_counterparty s o.from_agent ≡ some to_agent

open_iff : (state : RelayState) → (is_open state ≡ true) ↔ ((state ≡ pending) ⊎ (state ≡ active))
unfolding is_open
open_iff pending = (λ h. inl refl, λ h. refl)
open_iff active = (λ h. inr refl, λ h. refl)
open_iff concluded = (λ h. absurd (ground (arith, h)), λ h. absurd (ground (arith, h)))
open_iff archived = (λ h. absurd (ground (arith, h)), λ h. absurd (ground (arith, h)))
open_iff timed_out = (λ h. absurd (ground (arith, h)), λ h. absurd (ground (arith, h)))

time_iff :
    (s : RelaySession) (now : ℕ)
    → (is_timed_out s now ≡ false) ↔ (now ≤ s.created_at + s.session_ttl)
unfolding is_timed_out
time_iff s now = (λ h. ground (arith, h), λ h. ground (arith, h))

module _ (s : RelaySession) (from to : String) where
  writes :
      is_confirmed s from ≡ true
      → get_counterparty s from ≡ some to
      → InitiatorWrites s from to ⊎ ResponderWrites s from to
  unfolding is_confirmed get_participant get_counterparty responder_if confirmed_id initiator_if
  writes c k = elim (Bool-cases (str_eq s.initiator.agent_id from)) [
    | inl own ↦ elim (Option-cases s.responder) [
      | inl alone ↦ absurd (ground (arith, own, alone, k))
      | inr (p, e) ↦ inl (
        (eq_iff s.initiator.agent_id from).0 own,
        ground (arith, own, c),
        (p, e, ground (arith, own, e, k), ground (arith, own, e, k)),
      )
    ]
    | inr other ↦ elim (Option-cases s.responder) [
      | inl alone ↦ absurd (ground (arith, other, alone, k))
      | inr (p, e) ↦ inr (
        λ same. absurd (ground (arith, other, (eq_iff s.initiator.agent_id from).1 same)),
        ground (arith, other, e, k),
        (
          p,
          e,
          ground (arith, other, e, c),
          (eq_iff p.agent_id from).0 (ground (arith, other, e, k)),
        ),
      )
    ]
  ]

  writes_back :
      InitiatorWrites s from to ⊎ ResponderWrites s from to
      → (is_confirmed s from ≡ true) × (get_counterparty s from ≡ some to)
  unfolding is_confirmed get_participant get_counterparty responder_if confirmed_id initiator_if
  writes_back (inl (own, joined, (p, e, c, k))) =
      let same = (eq_iff s.initiator.agent_id from).1 own in
      (ground (arith, same, joined), ground (arith, same, e, c, k))
  writes_back (inr (other, k, (p, e, c, own))) =
      let same = (eq_iff p.agent_id from).1 own in
      let differs : str_eq s.initiator.agent_id from ≡ false =
        elim (Bool-cases (str_eq s.initiator.agent_id from)) [
          | inl t ↦ absurd (other ((eq_iff s.initiator.agent_id from).0 t))
          | inr f ↦ f
        ] in
      (ground (arith, differs, e, same, c), ground (arith, differs, e, same, c, k))

module _ (o : Outgoing) (to_agent : String) (now : ℕ) (s : RelaySession) where
  pub MayWrite-MaySend : MayWrite o to_agent now s → MaySend o to_agent now s
  MayWrite-MaySend w = record {
    writes = writes s o.from_agent to_agent w.confirmed w.counterparty;
    live = (open_iff s.state).0 w.live;
    in_time = (time_iff s now).0 w.in_time;
    room = w.room;
  }

  pub MaySend-MayWrite : MaySend o to_agent now s → MayWrite o to_agent now s
  MaySend-MayWrite m =
      let (confirmed, counterparty) = writes_back s o.from_agent to_agent m.writes in
      record {
        confirmed = confirmed;
        live = (open_iff s.state).1 m.live;
        in_time = (time_iff s now).1 m.in_time;
        room = m.room;
        counterparty = counterparty;
      }
