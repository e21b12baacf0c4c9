-- ===== src/Relay/Sessions.antt =====
-- The session lifecycle of concordia/relay.py: creation, joining, lookup, linking, conclusion.
use concordia_protocol.Prelude.{
  ℕ, String, Bool, true, false, not, ◌&&◌, ◌||◌, Option, none, some, [], ◌∷◌, ltb, leb, str_eq,
  if◌then◌else◌, length, count_if, Result, ok, err,
}
use concordia_protocol.Prelude.Dict.{Dict, get, put}
use concordia_protocol.Relay.{
  RelayState, pending, active, concluded, archived, Participant, RelaySession, Relay, RelayError,
  same_agent, ttl_exceeds_maximum, session_limit, max_sessions, max_active_per_initiator,
  max_ttl_seconds, is_open, is_timed_out, get_participant, conclude, settle, put_session,
}

-- `responder_id and initiator_id == responder_id`
unfoldable pub names_itself : String → Option String → Bool
names_itself initiator_id none = false
names_itself initiator_id (some id) = not (str_eq id "") && str_eq initiator_id id

-- `_expire_timed_out_sessions`
unfoldable pub settle_all : ℕ → Dict RelaySession → Dict RelaySession
settle_all now [] = []
settle_all now ((id, s) ∷ d) = (id, settle now s) ∷ settle_all now d

-- `_active_session_count_for_initiator`
unfoldable pub is_active_of : String → ℕ → RelaySession → Bool
is_active_of initiator_id now s =
    str_eq s.initiator.agent_id initiator_id && is_open s.state && not (is_timed_out s now)

unfoldable pub active_count : String → ℕ → Dict RelaySession → ℕ
active_count initiator_id now d = count_if (λ e. is_active_of initiator_id now e.1) d

unfoldable pub new_participant : String → Option String → Bool → ℕ → Participant
new_participant agent_id endpoint joined now = record {
  agent_id = agent_id;
  endpoint = endpoint;
  connected = joined;
  confirmed = joined;
  last_seen = now;
  messages_sent = 0;
  messages_received = 0;
}

-- A responder that is named beforehand is a reservation.
unfoldable pub reservation : Option String → ℕ → Option Participant
reservation none now = none
reservation (some id) now = if str_eq id "" then none else some (new_participant id none false now)

-- The arguments of `create_session`.
pub record Request : Type 0 where
  pub initiator_id : String
  pub responder_id : Option String
  pub concordia_session_id : Option String
  pub session_ttl : ℕ
  pub auto_attest : Bool
  pub initiator_endpoint : Option String
  pub metadata : Dict String

unfoldable pub new_relay_session : String → Request → ℕ → RelaySession
new_relay_session relay_id q now = record {
  relay_session_id = relay_id;
  concordia_session_id = q.concordia_session_id;
  initiator = new_participant q.initiator_id q.initiator_endpoint true now;
  responder = reservation q.responder_id now;
  state = pending;
  transcript = [];
  created_at = now;
  concluded_at = none;
  conclusion_reason = none;
  session_ttl = q.session_ttl;
  auto_attest = q.auto_attest;
  metadata = q.metadata;
}

unfoldable pub index_put : Option String → String → Dict String → Dict String
index_put none relay_id index = index
index_put (some id) relay_id index = if str_eq id "" then index else put index id relay_id

-- After the checks of the arguments: the caps, and the new session.
unfoldable pub admit_session : String → Request → ℕ → Relay → Result RelayError RelaySession × Relay
admit_session relay_id q now r =
    let s = new_relay_session relay_id q now in
    if leb max_sessions (length r.sessions)
      || leb max_active_per_initiator (active_count q.initiator_id now r.sessions)
    then (err session_limit, r)
    else (
      ok s,
      record (put_session relay_id s r) {
        concordia_index = index_put q.concordia_session_id relay_id r.concordia_index;
      },
    )

unfoldable pub create_session :
    String → Request → ℕ → Relay → Result RelayError RelaySession × Relay
create_session relay_id q now r =
    if names_itself q.initiator_id q.responder_id
    then (err same_agent, r)
    else if ltb max_ttl_seconds q.session_ttl
    then (err ttl_exceeds_maximum, r)
    else admit_session relay_id q now (record r { sessions = settle_all now r.sessions })

-- A pending session becomes active: the reserved responder confirms, or the free place is taken.
unfoldable pub confirm : String → Option String → ℕ → Option Participant → Option Participant
confirm agent_id endpoint now none = some (new_participant agent_id endpoint true now)
confirm agent_id endpoint now (some p) =
    if str_eq p.agent_id agent_id
    then some
        (record p { endpoint = endpoint; connected = true; confirmed = true; last_seen = now })
    else none

unfoldable pub try_join : String → Option String → ℕ → RelaySession → Option RelaySession
try_join agent_id endpoint now s = elim s.state [
  | pending ↦ elim (confirm agent_id endpoint now s.responder) [
    | none ↦ none
    | some p ↦ some (record s { responder = some p; state = active })
  ]
  | _ ↦ none
]

unfoldable pub join_settled :
    String → String → Option String → ℕ → RelaySession → Relay → Option RelaySession × Relay
join_settled id agent_id endpoint now s r = elim (try_join agent_id endpoint now s) [
  | none ↦ (none, put_session id s r)
  | some joined ↦ (some joined, put_session id joined r)
]

unfoldable pub join_session :
    String → String → Option String → ℕ → Relay → Option RelaySession × Relay
join_session id agent_id endpoint now r = elim (get r.sessions id) [
  | none ↦ (none, r)
  | some s ↦ join_settled id agent_id endpoint now (settle now s) r
]

unfoldable pub get_session : String → ℕ → Relay → Option RelaySession × Relay
get_session id now r = elim (get r.sessions id) [
  | none ↦ (none, r)
  | some s ↦ (some (settle now s), put_session id (settle now s) r)
]

unfoldable pub get_by_concordia_id : String → ℕ → Relay → Option RelaySession × Relay
get_by_concordia_id concordia_id now r = elim (get r.concordia_index concordia_id) [
  | none ↦ (none, r)
  | some id ↦ if str_eq id "" then (none, r) else get_session id now r
]

unfoldable pub link_concordia_session : String → String → Relay → Bool × Relay
link_concordia_session id concordia_id r = elim (get r.sessions id) [
  | none ↦ (false, r)
  | some s ↦ (
    true,
    record (put_session id (record s { concordia_session_id = some concordia_id }) r) {
      concordia_index = put r.concordia_index concordia_id id;
    },
  )
]

-- The agent is a participant who has confirmed.
unfoldable pub is_confirmed : RelaySession → String → Bool
is_confirmed s agent_id = elim (get_participant s agent_id) [ none ↦ false | some p ↦ p.confirmed ]

-- `state in (CONCLUDED, ARCHIVED)`
unfoldable pub is_finished : RelayState → Bool
is_finished concluded = true
is_finished archived = true
is_finished _ = false

unfoldable pub conclude_session : String → String → String → ℕ → Relay → Option RelaySession × Relay
conclude_session id reason agent_id now r = elim (get r.sessions id) [
  | none ↦ (none, r)
  | some s ↦
      if not (is_confirmed s agent_id)
      then (none, r)
      else if is_finished s.state
      then (some s, r)
      else (some (conclude reason now s), put_session id (conclude reason now s) r)
]
