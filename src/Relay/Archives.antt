-- ===== src/Relay/Archives.antt =====
-- The archives, lists and statistics of concordia/relay.py.
use concordia_protocol.Prelude.{
  ℕ, ◌+◌, String, Bool, true, false, not, ◌&&◌, ◌||◌, Option, none, some, List, [], ◌∷◌, ltb, leb,
  str_eq, if◌then◌else◌, length, mem_str, take, Result, ok, err, is_some,
}
use concordia_protocol.Prelude.Dict.{Dict, get, put}
use concordia_protocol.Relay.{
  RelayState, pending, active, concluded, archived, timed_out, RelaySession, TranscriptArchive,
  Relay, RelayError, archive_limit, max_archives, participant_dict, put_session, get_participant,
}
use concordia_protocol.Relay.Messages.{message_dicts}

unfoldable pub is_archivable : RelayState → Bool
is_archivable concluded = true
is_archivable timed_out = true
is_archivable _ = false

unfoldable pub parties : RelaySession → List String
parties s = s.initiator.agent_id ∷ elim s.responder [ none ↦ [] | some p ↦ p.agent_id ∷ [] ]

unfoldable pub new_archive : String → String → ℕ → ℕ → RelaySession → Relay → TranscriptArchive
new_archive archive_id id retention_days now s r = record {
  archive_id = archive_id;
  relay_session_id = id;
  concordia_session_id = s.concordia_session_id;
  parties = parties s;
  message_count = length s.transcript;
  conclusion_reason = s.conclusion_reason;
  messages = message_dicts r.store s.transcript;
  initiator = participant_dict s.initiator;
  responder = elim s.responder [ none ↦ none | some p ↦ some (participant_dict p) ];
  archived_at = now;
  retention_days = retention_days;
}

-- `archive_session`; `archive_id` is the identifier that it makes.
unfoldable pub archive_session :
    String → String → ℕ → ℕ → Relay → Result RelayError (Option TranscriptArchive) × Relay
archive_session archive_id id retention_days now r = elim (get r.sessions id) [
  | none ↦ (ok none, r)
  | some s ↦
      let a = new_archive archive_id id retention_days now s r in
      if not (is_archivable s.state)
      then (ok none, r)
      else if leb max_archives (length r.archives)
      then (err archive_limit, r)
      else (
        ok (some a),
        record (put_session id (record s { state = archived }) r) {
          archives = put r.archives archive_id a;
        },
      )
]

unfoldable pub get_archive : String → Relay → Option TranscriptArchive
get_archive archive_id r = get r.archives archive_id

-- A stable sort, latest first, as `sort(key=…, reverse=True)` makes it.
module _ {A : Type 0} (time : A → ℕ) where
  unfoldable pub insert_latest : A → List A → List A
  insert_latest a [] = a ∷ []
  insert_latest a (b ∷ bs) =
      let rest = insert_latest a bs in if ltb (time a) (time b) then b ∷ rest else a ∷ b ∷ bs

  unfoldable pub latest_first : List A → List A
  latest_first [] = []
  latest_first (a ∷ as') = insert_latest a (latest_first as')

-- `agent_id and agent_id not in parties` drops an archive.
unfoldable pub has_party : Option String → TranscriptArchive → Bool
has_party none a = true
has_party (some id) a = str_eq id "" || mem_str id a.parties

unfoldable pub archives_of : Option String → Dict TranscriptArchive → List TranscriptArchive
archives_of agent_id [] = []
archives_of agent_id ((_, a) ∷ d) =
    let rest = archives_of agent_id d in if has_party agent_id a then a ∷ rest else rest

unfoldable pub list_archives : Option String → ℕ → Relay → List TranscriptArchive
list_archives agent_id limit r =
    take limit (latest_first (λ a. a.archived_at) (archives_of agent_id r.archives))

unfoldable pub state_value : RelayState → String
state_value pending = "pending"
state_value active = "active"
state_value concluded = "concluded"
state_value archived = "archived"
state_value timed_out = "timed_out"

unfoldable pub in_state : Option String → RelaySession → Bool
in_state none s = true
in_state (some state) s = str_eq state "" || str_eq (state_value s.state) state

unfoldable pub is_party : Option String → RelaySession → Bool
is_party none s = true
is_party (some id) s = str_eq id "" || is_some (get_participant s id)

unfoldable pub sessions_of : Option String → Option String → Dict RelaySession → List RelaySession
sessions_of agent_id state [] = []
sessions_of agent_id state ((_, s) ∷ d) =
    let rest = sessions_of agent_id state d in
    if in_state state s && is_party agent_id s then s ∷ rest else rest

unfoldable pub list_sessions : Option String → Option String → ℕ → Relay → List RelaySession
list_sessions agent_id state limit r =
    take limit (latest_first (λ s. s.created_at) (sessions_of agent_id state r.sessions))

pub record Stats : Type 0 where
  pub total_sessions : ℕ
  pub sessions_by_state : Dict ℕ
  pub total_messages_relayed : ℕ
  pub pending_deliveries : ℕ
  pub total_archives : ℕ

unfoldable pub count_state : Dict ℕ → String → Dict ℕ
count_state states value = put states value (elim (get states value) [ none ↦ 1 | some n ↦ n + 1 ])

unfoldable pub count_states : Dict ℕ → Dict RelaySession → Dict ℕ
count_states states [] = states
count_states states ((_, s) ∷ d) = count_states (count_state states (state_value s.state)) d

unfoldable pub total_messages : Dict RelaySession → ℕ
total_messages [] = 0
total_messages ((_, s) ∷ d) = length s.transcript + total_messages d

unfoldable pub total_pending : Dict (List ℕ) → ℕ
total_pending [] = 0
total_pending ((_, refs) ∷ d) = length refs + total_pending d

unfoldable pub stats : Relay → Stats
stats r = record {
  total_sessions = length r.sessions;
  sessions_by_state = count_states [] r.sessions;
  total_messages_relayed = total_messages r.sessions;
  pending_deliveries = total_pending r.mailboxes;
  total_archives = length r.archives;
}
