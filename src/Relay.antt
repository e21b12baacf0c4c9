-- ===== src/Relay.antt =====
-- concordia/relay.py: the data of the negotiation relay. Times are seconds on one clock, given to
-- each operation; the identifiers that `uuid4` makes are arguments; a payload and a metadata
-- value are their JSON texts. A message object is shared by its session's transcript and its
-- recipient's mailbox, so messages stand in a store and both hold references to it.
pub mod Sessions
pub mod Messages
pub mod Archives
pub mod Calls
pub mod Bounds
pub mod Access
pub mod Quota
pub mod Marks
pub mod Polling
pub mod Senders
pub mod Delivery
pub mod Lifecycle
mod Tests
use Prim.Native.String.{◌++◌ as str_append}
use concordia_protocol.Prelude.{
  ℕ, ◌+◌, ◌*◌, String, Bool, true, false, not, ◌&&◌, ◌||◌, Option, none, some, List, [], ◌∷◌, ◌++◌,
  ltb, str_eq, if◌then◌else◌, length, truthy,
}
use concordia_protocol.Prelude.Dict.{Dict, get, put}

pub data RelayState : Type 0 where
  pending active concluded archived timed_out : RelayState

pub data DeliveryStatus : Type 0 where
  queued delivered lapsed failed : DeliveryStatus

pub record RelayedMessage : Type 0 where
  pub message_id : String
  pub session_id : String
  pub from_agent : String
  pub to_agent : String
  pub message_type : String
  pub payload : String
  pub status : DeliveryStatus
  pub created_at : ℕ
  pub delivered_at : Option ℕ
  pub ttl : ℕ

pub record Participant : Type 0 where
  pub agent_id : String
  pub endpoint : Option String
  pub connected : Bool
  pub confirmed : Bool
  pub last_seen : ℕ
  pub messages_sent : ℕ
  pub messages_received : ℕ

pub record RelaySession : Type 0 where
  pub relay_session_id : String
  pub concordia_session_id : Option String
  pub initiator : Participant
  pub responder : Option Participant
  pub state : RelayState
  pub transcript : List ℕ
  pub created_at : ℕ
  pub concluded_at : Option ℕ
  pub conclusion_reason : Option String
  pub session_ttl : ℕ
  pub auto_attest : Bool
  pub metadata : Dict String

-- `RelayedMessage.to_dict`: all but the payload.
pub record MessageDict : Type 0 where
  pub message_id : String
  pub session_id : String
  pub from_agent : String
  pub to_agent : String
  pub message_type : String
  pub status : DeliveryStatus
  pub created_at : ℕ
  pub delivered_at : Option ℕ
  pub ttl : ℕ

-- `RelayParticipant.to_dict`
pub record ParticipantDict : Type 0 where
  pub agent_id : String
  pub endpoint : Option String
  pub connected : Bool
  pub confirmed : Bool
  pub messages_sent : ℕ
  pub messages_received : ℕ

pub record TranscriptArchive : Type 0 where
  pub archive_id : String
  pub relay_session_id : String
  pub concordia_session_id : Option String
  pub parties : List String
  pub message_count : ℕ
  pub conclusion_reason : Option String
  pub messages : List MessageDict
  pub initiator : ParticipantDict
  pub responder : Option ParticipantDict
  pub archived_at : ℕ
  pub retention_days : ℕ

pub record Relay : Type 0 where
  pub sessions : Dict RelaySession
  pub archives : Dict TranscriptArchive
  pub mailboxes : Dict (List ℕ)
  pub concordia_index : Dict String
  pub store : List RelayedMessage

pub data RelayError : Type 0 where
  same_agent ttl_exceeds_maximum session_limit archive_limit : RelayError

abbrev pub max_sessions : ℕ
max_sessions = 10000

abbrev pub max_archives : ℕ
max_archives = 50000

abbrev pub max_mailbox_size : ℕ
max_mailbox_size = 1000

abbrev pub max_transcript_size : ℕ
max_transcript_size = 10000

abbrev pub max_active_per_initiator : ℕ
max_active_per_initiator = 100

abbrev pub max_ttl_seconds : ℕ
max_ttl_seconds = 7 * 24 * 60 * 60

unfoldable pub empty_relay : Relay
empty_relay = record {
  sessions = [];
  archives = [];
  mailboxes = [];
  concordia_index = [];
  store = [];
}

-- `state in (PENDING, ACTIVE)`
unfoldable pub is_open : RelayState → Bool
is_open pending = true
is_open active = true
is_open _ = false

unfoldable pub is_timed_out : RelaySession → ℕ → Bool
is_timed_out s now = ltb (s.created_at + s.session_ttl) now

unfoldable pub is_expired : RelayedMessage → ℕ → Bool
is_expired m now = ltb (m.created_at + m.ttl) now

unfoldable pub message_dict : RelayedMessage → MessageDict
message_dict m = record {
  message_id = m.message_id;
  session_id = m.session_id;
  from_agent = m.from_agent;
  to_agent = m.to_agent;
  message_type = m.message_type;
  status = m.status;
  created_at = m.created_at;
  delivered_at = m.delivered_at;
  ttl = m.ttl;
}

unfoldable pub participant_dict : Participant → ParticipantDict
participant_dict p = record {
  agent_id = p.agent_id;
  endpoint = p.endpoint;
  connected = p.connected;
  confirmed = p.confirmed;
  messages_sent = p.messages_sent;
  messages_received = p.messages_received;
}

-- `_get_participant`: the initiator comes first.
unfoldable pub responder_if : String → Option Participant → Option Participant
responder_if agent_id none = none
responder_if agent_id (some p) = if str_eq p.agent_id agent_id then some p else none

unfoldable pub get_participant : RelaySession → String → Option Participant
get_participant s agent_id =
    if str_eq s.initiator.agent_id agent_id
    then some s.initiator
    else responder_if agent_id s.responder

-- `_get_counterparty`
unfoldable pub confirmed_id : Option Participant → Option String
confirmed_id none = none
confirmed_id (some p) = if p.confirmed then some p.agent_id else none

unfoldable pub initiator_if : String → RelaySession → Option Participant → Option String
initiator_if agent_id s none = none
initiator_if agent_id s (some p) =
    if str_eq p.agent_id agent_id && p.confirmed then some s.initiator.agent_id else none

unfoldable pub get_counterparty : RelaySession → String → Option String
get_counterparty s agent_id =
    if str_eq s.initiator.agent_id agent_id
    then confirmed_id s.responder
    else initiator_if agent_id s s.responder

-- Writes to the participant object that `_get_participant` returns.
unfoldable pub map_responder :
    String → (Participant → Participant) → Option Participant → Option Participant
map_responder agent_id f none = none
map_responder agent_id f (some p) = some (if str_eq p.agent_id agent_id then f p else p)

unfoldable pub update_participant :
    String → (Participant → Participant) → RelaySession → RelaySession
update_participant agent_id f s =
    if str_eq s.initiator.agent_id agent_id
    then record s { initiator = f s.initiator }
    else record s { responder = map_responder agent_id f s.responder }

-- `_record_auto_attest_skip_if_unconfirmed`
unfoldable pub skip_reason : String → String
skip_reason agent_id =
    str_append "auto_attest skipped: responder '"
      (str_append agent_id "' has not confirmed by joining")

unfoldable pub skip_for : Option Participant → Dict String → Dict String
skip_for none metadata = metadata
skip_for (some p) metadata =
    if p.confirmed then metadata else put metadata "auto_attest_skipped" (skip_reason p.agent_id)

unfoldable pub record_skip : RelaySession → RelaySession
record_skip s = if s.auto_attest then record s { metadata = skip_for s.responder s.metadata } else s

-- `_conclude_session`
unfoldable pub conclude : String → ℕ → RelaySession → RelaySession
conclude reason now s =
    record_skip
      (record s { state = concluded; concluded_at = some now; conclusion_reason = some reason })

-- `_timeout_session`
unfoldable pub time_out : ℕ → RelaySession → RelaySession
time_out now s = record_skip (record s {
  state = timed_out;
  concluded_at = some now;
  conclusion_reason = some "session_timeout";
})

-- A session that is still open past its TTL is timed out, and any other is left alone.
unfoldable pub settle : ℕ → RelaySession → RelaySession
settle now s = if is_timed_out s now && is_open s.state then time_out now s else s

unfoldable pub put_session : String → RelaySession → Relay → Relay
put_session id s r = record r { sessions = put r.sessions id s }
