-- ===== src/Relay/Tests.antt =====
-- A relay used by two agents and an outsider, run on the model, and the theorems at its states.
use concordia_protocol.Prelude.{
  ℕ, zero, suc, ◌+◌, String, ◌≡◌, refl, Bool, true, none, some, List, [], ◌∷◌, arith, length, take,
  keep, count_if,
}
use concordia_protocol.Prelude.Dict.{get, put}
use concordia_protocol.Relay.{
  archived, RelaySession, Relay, empty_relay, is_open, is_timed_out, is_expired, message_dict,
  participant_dict, responder_if, get_participant, confirmed_id, initiator_if, get_counterparty,
  map_responder, update_participant, skip_reason, skip_for, record_skip, conclude, time_out, settle,
  put_session,
}
use concordia_protocol.Relay.Sessions.{
  Request, names_itself, settle_all, is_active_of, active_count, new_participant, reservation,
  new_relay_session, index_put, admit_session, create_session, confirm, try_join, join_settled,
  join_session, get_session, get_by_concordia_id, link_concordia_session, is_confirmed, is_finished,
  conclude_session,
}
use concordia_protocol.Relay.Messages.{
  Outgoing, is_terminal_type, new_message, mailbox, sent, record_sent, after_type, deposit,
  send_from, send_message, received, count_received, mark_lapsed, mark_delivered, is_filtered,
  poll_message, poll_step, poll, receive_messages, message_dicts, last_ones, may_read,
  get_transcript,
}
use concordia_protocol.Relay.Archives.{is_archivable, parties, new_archive, archive_session}
use concordia_protocol.Relay.Calls.{Call, create, join, send, receive, archive, step, run}
use concordia_protocol.Relay.Bounds.{InBounds}
use concordia_protocol.Relay.Bounds.Runs.{run-InBounds}
use concordia_protocol.Relay.Access.{CanJoin, join_session_iff}
use concordia_protocol.Relay.Lifecycle.{AllEvolve}
use concordia_protocol.Relay.Lifecycle.Runs.{run-AllEvolve}
use concordia_protocol.Relay.Polling.{receive_messages_exact}
use concordia_protocol.Relay.Marks.{is_alive, is_due}
use concordia_protocol.Relay.Senders.{MayWrite}
use concordia_protocol.Relay.Delivery.{CanSend, Delivered, send_message_iff, send_message-Delivered}

abbrev request : Request
request = record {
  initiator_id = "alice";
  responder_id = none;
  concordia_session_id = some "session_1";
  session_ttl = 3600;
  auto_attest = true;
  initiator_endpoint = none;
  metadata = [];
}

abbrev note : String → String → Outgoing
note id message_type = record {
  message_id = id;
  relay_session_id = "relay_1";
  from_agent = "alice";
  message_type = message_type;
  payload = "{}";
  ttl = 60;
}

abbrev setup : List Call
setup = create "relay_1" request 100 ∷ join "relay_1" "bob" none 110 ∷ []

abbrev offer : Outgoing
offer = note "msg_1" "negotiate.offer"

abbrev pending_relay : Relay
pending_relay = run empty_relay (create "relay_1" request 100 ∷ [])

abbrev ready : Relay
ready = run empty_relay setup

abbrev busy : Relay
busy = run ready (send offer 120 ∷ send (note "msg_2" "negotiate.accept") 130 ∷ [])

program : Unit {0}
unfolding get put empty_relay is_open is_timed_out is_expired message_dict participant_dict
    responder_if get_participant confirmed_id initiator_if get_counterparty map_responder
    update_participant skip_reason skip_for record_skip conclude time_out settle put_session
    names_itself settle_all is_active_of active_count new_participant reservation new_relay_session
    index_put admit_session create_session confirm try_join join_settled join_session get_session
    get_by_concordia_id link_concordia_session is_confirmed is_finished conclude_session
    is_terminal_type new_message mailbox sent record_sent after_type deposit send_from send_message
    received count_received mark_lapsed mark_delivered is_filtered poll_message poll_step poll
    receive_messages message_dicts last_ones may_read get_transcript is_archivable parties
    new_archive archive_session step run
program = tt

two_sent : (mailbox "bob" busy ≡ 0 ∷ 1 ∷ []) × (mailbox "alice" busy ≡ [])
unfolding program
two_sent = (refl, refl)

-- The first message has lapsed at 185, and the second is handed over.
one_lapses : (receive_messages "bob" none 50 185 busy).0 ≡ 1 ∷ []
unfolding program
one_lapses = refl

outsider_reads_nothing : get_transcript "relay_1" (some "eve") none busy ≡ none
unfolding program
outsider_reads_nothing = refl

run-InBounds_example : InBounds (run empty_relay setup)
run-InBounds_example = run-InBounds setup

abbrev session_of : Relay → RelaySession
session_of r = elim (get r.sessions "relay_1") [
  | some s ↦ s
  | none ↦ new_relay_session "relay_1" request 0
]

join_session_iff_example :
    (s : RelaySession) × (get pending_relay.sessions "relay_1" ≡ some s) × CanJoin "bob" 110 s
unfolding program
join_session_iff_example = (join_session_iff "relay_1" "bob" none 110 pending_relay).0 refl

abbrev rest : List Call
rest =
    send offer 120
    ∷ receive "bob" none 50 125
    ∷ send (note "msg_2" "negotiate.accept") 130
    ∷ archive "archive_1" "relay_1" 90 140
    ∷ []

run-AllEvolve_example : AllEvolve ready.sessions (run ready rest).sessions
unfolding program
run-AllEvolve_example = run-AllEvolve ready rest (tt, (tt, (tt, (tt, tt))))

whole_archives : (session_of (run ready rest)).state ≡ archived
unfolding program
whole_archives = refl

receive_messages_exact_example :
    ((receive_messages "bob" none 1 140 busy).0
      ≡ take 1 (keep (is_due busy.store none 140) (mailbox "bob" busy)))
    × ((c : ℕ → Bool)
        → count_if c (receive_messages "bob" none 1 140 busy).0
            + count_if c (mailbox "bob" (receive_messages "bob" none 1 140 busy).1)
          ≡ count_if c (keep (is_alive busy.store 140) (mailbox "bob" busy)))
receive_messages_exact_example = receive_messages_exact "bob" none 1 140 busy

send_message_iff_example :
    (s : RelaySession) × (to_agent : String) × CanSend offer to_agent 120 s ready
unfolding program
send_message_iff_example = (send_message_iff offer 120 ready).0 refl

send_message-Delivered_example :
    (s : RelaySession) × (to_agent : String) × CanSend offer to_agent 120 s ready
    × (new_message offer "bob" 120 ≡ new_message offer to_agent 120)
    × Delivered offer to_agent 120 s ready (send_message offer 120 ready).1
unfolding program
send_message-Delivered_example =
    send_message-Delivered offer 120 ready {m = new_message offer "bob" 120} refl

abbrev zeros : ℕ → List ℕ
zeros zero = []
zeros (suc n) = 0 ∷ zeros n

length-zeros : (n : ℕ) → length (zeros n) ≡ n
length-zeros zero = refl
length-zeros (suc n) = omega (arith, length-zeros n)

abbrev crowded : Relay
crowded = record ready { mailboxes = ("bob", zeros 1000) ∷ [] }

mailbox-crowded : mailbox "bob" crowded ≡ zeros 1000
unfolding mailbox get
mailbox-crowded = refl

crowded-MayWrite : MayWrite offer "bob" 120 (session_of crowded)
unfolding program
crowded-MayWrite = record {
  confirmed = refl;
  live = refl;
  in_time = refl;
  room = omega arith;
  counterparty = refl;
}

crowded_session : get crowded.sessions "relay_1" ≡ some (session_of crowded)
unfolding program
crowded_session = refl
