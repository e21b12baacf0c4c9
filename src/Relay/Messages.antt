-- ===== src/Relay/Messages.antt =====
-- The message routing of concordia/relay.py: sending, the poll of a mailbox, the transcript.
use concordia_protocol.Prelude.{
  ℕ, ◌+◌, ◌-◌, String, Bool, true, false, not, ◌&&◌, ◌||◌, Option, none, some, List, [], ◌∷◌, ◌++◌,
  leb, ◌==◌, str_eq, if◌then◌else◌, length, get_elem?, modify_at, drop,
}
use concordia_protocol.Prelude.Dict.{get, put}
use concordia_protocol.Relay.{
  RelayedMessage, queued, delivered, lapsed, Participant, RelaySession, Relay, MessageDict,
  max_mailbox_size, max_transcript_size, is_open, is_timed_out, is_expired, message_dict,
  get_participant, get_counterparty, update_participant, conclude, time_out, put_session,
}
use concordia_protocol.Relay.Sessions.{is_confirmed}

-- The arguments of `send_message`, and the identifier of the new message.
pub record Outgoing : Type 0 where
  pub message_id : String
  pub relay_session_id : String
  pub from_agent : String
  pub message_type : String
  pub payload : String
  pub ttl : ℕ

unfoldable pub is_terminal_type : String → Bool
is_terminal_type t =
    str_eq t "negotiate.accept"
    || str_eq t "negotiate.reject"
    || str_eq t "negotiate.withdraw"
    || str_eq t "negotiate.commit"

unfoldable pub new_message : Outgoing → String → ℕ → RelayedMessage
new_message o to_agent now = record {
  message_id = o.message_id;
  session_id = o.relay_session_id;
  from_agent = o.from_agent;
  to_agent = to_agent;
  message_type = o.message_type;
  payload = o.payload;
  status = queued;
  created_at = now;
  delivered_at = none;
  ttl = o.ttl;
}

unfoldable pub mailbox : String → Relay → List ℕ
mailbox agent_id r = elim (get r.mailboxes agent_id) [ none ↦ [] | some refs ↦ refs ]

unfoldable pub sent : ℕ → Participant → Participant
sent now p = record p { messages_sent = p.messages_sent + 1; last_seen = now }

-- The transcript has the message, and its sender is counted.
unfoldable pub record_sent : Outgoing → ℕ → ℕ → RelaySession → RelaySession
record_sent o ref now s =
    update_participant o.from_agent (sent now) (record s { transcript = s.transcript ++ ref ∷ [] })

unfoldable pub after_type : String → ℕ → RelaySession → RelaySession
after_type t now s = if is_terminal_type t then conclude t now s else s

-- From the check of the mailbox on. A full mailbox ends the call after the writes above.
unfoldable pub deposit :
    Outgoing → String → ℕ → RelaySession → Relay → Option RelayedMessage × Relay
deposit o to_agent now s r =
    let ref = length r.store in
    let m = new_message o to_agent now in
    let box = mailbox to_agent r in
    let kept = record (put_session o.relay_session_id (record_sent o ref now s) r) {
      store = r.store ++ m ∷ [];
      mailboxes = put r.mailboxes to_agent box;
    } in
    if leb max_mailbox_size (length box) then (none, kept) else (
      some m,
      record (put_session o.relay_session_id
          (after_type o.message_type now (record_sent o ref now s)) kept) {
            mailboxes = put r.mailboxes to_agent (box ++ ref ∷ []);
          },
    )

unfoldable pub send_from : Outgoing → ℕ → RelaySession → Relay → Option RelayedMessage × Relay
send_from o now s r =
    if not (is_confirmed s o.from_agent)
    then (none, r)
    else if not (is_open s.state)
    then (none, r)
    else if is_timed_out s now
    then (none, put_session o.relay_session_id (time_out now s) r)
    else if leb max_transcript_size (length s.transcript)
    then (none, r)
    else elim (get_counterparty s o.from_agent) [
      | none ↦ (none, r)
      | some to_agent ↦ deposit o to_agent now s r
    ]

unfoldable pub send_message : Outgoing → ℕ → Relay → Option RelayedMessage × Relay
send_message o now r = elim (get r.sessions o.relay_session_id) [
  | none ↦ (none, r)
  | some s ↦ send_from o now s r
]

-- What the loop of `receive_messages` has so far.
pub record Poll : Type 0 where
  pub relay : Relay
  pub delivered : List ℕ
  pub remaining : List ℕ

unfoldable pub received : ℕ → Participant → Participant
received now p = record p { messages_received = p.messages_received + 1; last_seen = now }

unfoldable pub count_received : String → String → ℕ → Relay → Relay
count_received id agent_id now r = elim (get r.sessions id) [
  | none ↦ r
  | some s ↦ put_session id (update_participant agent_id (received now) s) r
]

unfoldable pub mark_lapsed : RelayedMessage → RelayedMessage
mark_lapsed m = record m { status = lapsed }

unfoldable pub mark_delivered : ℕ → RelayedMessage → RelayedMessage
mark_delivered now m = record m { status = delivered; delivered_at = some now }

-- `relay_session_id and msg.session_id != relay_session_id`
unfoldable pub is_filtered : Option String → RelayedMessage → Bool
is_filtered none m = false
is_filtered (some id) m = not (str_eq id "") && not (str_eq m.session_id id)

unfoldable pub poll_message : String → Option String → ℕ → ℕ → ℕ → RelayedMessage → Poll → Poll
poll_message agent_id only limit now ref m p =
    if is_expired m now
    then record p { relay = record p.relay { store = modify_at p.relay.store ref mark_lapsed } }
    else if is_filtered only m || leb limit (length p.delivered)
    then record p { remaining = p.remaining ++ ref ∷ [] }
    else record p {
      relay =
          count_received m.session_id agent_id now
            (record p.relay { store = modify_at p.relay.store ref (mark_delivered now) });
      delivered = p.delivered ++ ref ∷ [];
    }

-- A reference that the store lacks does not arise; it is passed over.
unfoldable pub poll_step : String → Option String → ℕ → ℕ → ℕ → Poll → Poll
poll_step agent_id only limit now ref p = elim (get_elem? p.relay.store ref) [
  | none ↦ p
  | some m ↦ poll_message agent_id only limit now ref m p
]

unfoldable pub poll : String → Option String → ℕ → ℕ → List ℕ → Poll → Poll
poll agent_id only limit now [] p = p
poll agent_id only limit now (ref ∷ refs) p =
    poll agent_id only limit now refs (poll_step agent_id only limit now ref p)

unfoldable pub receive_messages : String → Option String → ℕ → ℕ → Relay → List ℕ × Relay
receive_messages agent_id only limit now r =
    let p =
      poll agent_id only limit now (mailbox agent_id r)
        (record { relay = r; delivered = []; remaining = [] }) in
    (p.delivered, record p.relay { mailboxes = put p.relay.mailboxes agent_id p.remaining })

unfoldable pub message_dicts : List RelayedMessage → List ℕ → List MessageDict
message_dicts store [] = []
message_dicts store (ref ∷ refs) =
    let rest = message_dicts store refs in
    elim (get_elem? store ref) [ none ↦ rest | some m ↦ message_dict m ∷ rest ]

-- `messages[-limit:]`, where a limit of 0 or none keeps all.
unfoldable pub last_ones : Option ℕ → List ℕ → List ℕ
last_ones none refs = refs
last_ones (some limit) refs = if limit == 0 then refs else drop (length refs - limit) refs

unfoldable pub may_read : Option String → RelaySession → Bool
may_read none s = true
may_read (some agent_id) s = elim (get_participant s agent_id) [ none ↦ false | some _ ↦ true ]

unfoldable pub get_transcript :
    String → Option String → Option ℕ → Relay → Option (List MessageDict)
get_transcript id requesting limit r = elim (get r.sessions id) [
  | none ↦ none
  | some s ↦
      if may_read requesting s
      then some (message_dicts r.store (last_ones limit s.transcript))
      else none
]
