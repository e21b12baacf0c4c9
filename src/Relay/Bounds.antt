-- ===== src/Relay/Bounds.antt =====
-- The resource limits of concordia/relay.py, as a property of the relay.
pub mod Sessions
pub mod Messages
pub mod Runs
use concordia_protocol.Prelude.{
  ℕ, suc, ◌+◌, ◌≤◌, ◌<◌, String, ◌≡◌, refl, Bool, true, false, not, ◌&&◌, ◌||◌, Option, none, some,
  List, [], ◌∷◌, ◌++◌, arith, leb, ltb, if◌then◌else◌, length, length-append, Bool-cases,
  Option-cases, inl, inr, Result, ok, err, get_elem?, modify_at,
}
use concordia_protocol.Prelude.Dict.{
  Dict, Values, get, put, get-put_self, All-put, get-All, length-put-le, length-put_old,
}
use concordia_protocol.Relay.{
  RelayState, pending, active, concluded, archived, timed_out, Participant, RelaySession,
  TranscriptArchive, Relay, empty_relay, max_sessions, max_archives, max_mailbox_size,
  max_transcript_size, is_open, is_timed_out, is_expired, update_participant, record_skip, conclude,
  time_out, settle, put_session, RelayedMessage, get_counterparty,
}
use concordia_protocol.Relay.Sessions.{
  Request, names_itself, settle_all, new_relay_session, admit_session, create_session, confirm,
  try_join, join_settled, join_session, get_session, get_by_concordia_id, link_concordia_session,
  is_confirmed, is_finished, conclude_session,
}
use concordia_protocol.Relay.Messages.{
  Outgoing, mailbox, record_sent, sent, after_type, deposit, send_from, send_message, Poll,
  received, count_received, is_filtered, poll_message, poll_step, poll, receive_messages,
  mark_lapsed, mark_delivered,
}
use concordia_protocol.Relay.Archives.{archive_session, new_archive, is_archivable}
use concordia_protocol.Relay.Calls.{
  Call, create, join, look, look_by_concordia_id, link, send, receive, finish, archive, step, run,
}

abbrev pub Short : RelaySession → Type 0
Short s = length s.transcript ≤ max_transcript_size

abbrev pub Fits : List ℕ → Type 0
Fits box = length box ≤ max_mailbox_size

pub record InBounds (r : Relay) : Type 0 where
  pub sessions : length r.sessions ≤ max_sessions
  pub archives : length r.archives ≤ max_archives
  pub transcripts : Values Short r.sessions
  pub mailboxes : Values Fits r.mailboxes

pub transcript-update_participant :
    (a : String) (f : Participant → Participant) (s : RelaySession)
    → (update_participant a f s).transcript ≡ s.transcript
unfolding update_participant
transcript-update_participant a f s = ground arith

pub transcript-conclude :
    (reason : String) (now : ℕ) (s : RelaySession)
    → (conclude reason now s).transcript ≡ s.transcript
unfolding conclude record_skip
transcript-conclude reason now s = ground arith

pub transcript-time_out : (now : ℕ) (s : RelaySession) → (time_out now s).transcript ≡ s.transcript
unfolding time_out record_skip
transcript-time_out now s = ground arith

pub transcript-settle : (now : ℕ) (s : RelaySession) → (settle now s).transcript ≡ s.transcript
unfolding settle
transcript-settle now s = ground (arith, transcript-time_out now s)

-- The session at `id` replaced by one whose transcript is in bounds.
pub replace-InBounds :
    (r : Relay) (id : String) (s t : RelaySession)
    → get r.sessions id ≡ some s
    → Short t
    → InBounds r
    → InBounds (put_session id t r)
unfolding put_session
replace-InBounds r id s t e short v = record {
  sessions = rw (length-put_old r.sessions id t e) v.sessions;
  archives = v.archives;
  transcripts = All-put Short r.sessions id t v.transcripts short;
  mailboxes = v.mailboxes;
}
