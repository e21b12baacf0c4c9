-- ===== src/Relay/Lifecycle/Runs.antt =====
-- What any sequence of calls makes of the sessions of concordia/relay.py.
use concordia_protocol.Prelude.{
  ℕ, String, ◌≡◌, refl, inl, inr, Option, none, List, [], ◌∷◌, arith, Option-cases, get_elem?,
  modify_at,
}
use concordia_protocol.Prelude.Dict.{get}
use concordia_protocol.Relay.{Relay, put_session, update_participant, RelayedMessage}
use concordia_protocol.Relay.Messages.{
  mailbox, Poll, received, count_received, mark_delivered, poll_message, poll_step, poll,
  receive_messages,
}
use concordia_protocol.Relay.Calls.{
  Call, create, join, look, look_by_concordia_id, link, send, receive, finish, archive, step, run,
}
use concordia_protocol.Relay.Lifecycle.{
  AllEvolve, AllEvolve-refl, AllEvolve-trans, update_participant-Evolves,
}
use concordia_protocol.Relay.Lifecycle.Calls.{
  Keeps, put-Keeps, same-Keeps, join_session-Keeps, get_session-Keeps, get_by_concordia_id-Keeps,
  link-Keeps, conclude_session-Keeps, archive_session-Keeps, create_session-Keeps,
  send_message-Keeps,
}

count_received-Keeps :
    (id a : String) (now : ℕ) (r : Relay) → Keeps r (count_received id a now r).sessions
unfolding count_received put_session
count_received-Keeps id a now r = elim (Option-cases (get r.sessions id)) [
  | inl e ↦ ground (arith, e, same-Keeps r)
  | inr (s, e) ↦
      let v = update_participant-Evolves a (received now) s (λ p. unfold received in refl) in
      ground (arith, e, put-Keeps r id s (update_participant a (received now) s) e v)
]

poll_message-Keeps :
    (a : String) (only : Option String) (limit now ref : ℕ) (m : RelayedMessage) (p : Poll)
    → Keeps p.relay (poll_message a only limit now ref m p).relay.sessions
unfolding poll_message
poll_message-Keeps a only limit now ref m p =
    let marked = record p.relay { store = modify_at p.relay.store ref (mark_delivered now) } in
    ground (arith, same-Keeps p.relay, count_received-Keeps m.session_id a now marked)

poll_step-Keeps :
    (a : String) (only : Option String) (limit now ref : ℕ) (p : Poll)
    → Keeps p.relay (poll_step a only limit now ref p).relay.sessions
unfolding poll_step
poll_step-Keeps a only limit now ref p = elim (Option-cases (get_elem? p.relay.store ref)) [
  | inl e ↦ ground (arith, e, same-Keeps p.relay)
  | inr (m, e) ↦ ground (arith, e, poll_message-Keeps a only limit now ref m p)
]

poll-AllEvolve :
    (a : String) (only : Option String) (limit now : ℕ) (refs : List ℕ) (p : Poll)
    → AllEvolve p.relay.sessions (poll a only limit now refs p).relay.sessions
unfolding poll
poll-AllEvolve a only limit now [] p = AllEvolve-refl p.relay.sessions
poll-AllEvolve a only limit now (ref ∷ refs) p =
    let q = poll_step a only limit now ref p in
    AllEvolve-trans p.relay.sessions q.relay.sessions _ (poll_step-Keeps a only limit now ref p).all
      (poll-AllEvolve a only limit now refs q)

-- A creation uses an identifier that no session has, as `uuid4` makes them.
abbrev pub IsFresh : Relay → Call → Type 0
IsFresh r (create id q now) = get r.sessions id ≡ none
IsFresh r _ = Unit

abbrev pub AllFresh : Relay → List Call → Type 0
AllFresh r [] = Unit
AllFresh r (c ∷ cs) = IsFresh r c × AllFresh (step r c) cs

step-AllEvolve : (r : Relay) (c : Call) → IsFresh r c → AllEvolve r.sessions (step r c).sessions
unfolding step receive_messages
step-AllEvolve r (create id q now) f = (create_session-Keeps r id q now f).all
step-AllEvolve r (join id a endpoint now) f = (join_session-Keeps r id a endpoint now).all
step-AllEvolve r (look id now) f = (get_session-Keeps r id now).all
step-AllEvolve r (look_by_concordia_id id now) f = (get_by_concordia_id-Keeps r id now).all
step-AllEvolve r (link id concordia_id) f = (link-Keeps r id concordia_id).all
step-AllEvolve r (send o now) f = (send_message-Keeps r o now).all
step-AllEvolve r (receive a only limit now) f =
    poll-AllEvolve a only limit now (mailbox a r)
      (record { relay = r; delivered = []; remaining = [] })
step-AllEvolve r (finish id reason a now) f = (conclude_session-Keeps r id reason a now).all
step-AllEvolve r (archive archive_id id days now) f =
    (archive_session-Keeps r archive_id id days now).all

-- Whatever calls are made, as long as a creation uses a fresh identifier, a session of the relay
-- is still there, its state only moves forward in the order pending, active, timed out,
-- concluded, archived, it keeps its initiator, creation time and TTL, and once it is past active
-- it gets no further message.
pub run-AllEvolve :
    (r : Relay) (cs : List Call) → AllFresh r cs → AllEvolve r.sessions (run r cs).sessions
unfolding run
run-AllEvolve r [] f = AllEvolve-refl r.sessions
run-AllEvolve r (c ∷ cs) f =
    AllEvolve-trans r.sessions (step r c).sessions _ (step-AllEvolve r c f.0)
      (run-AllEvolve (step r c) cs f.1)
