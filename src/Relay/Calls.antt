-- ===== src/Relay/Calls.antt =====
-- The calls of the relay's methods, and what a sequence of them makes of a relay.
use concordia_protocol.Prelude.{ℕ, String, Option, List, [], ◌∷◌}
use concordia_protocol.Relay.{Relay}
use concordia_protocol.Relay.Sessions.{
  Request, create_session, join_session, get_session, get_by_concordia_id, link_concordia_session,
  conclude_session,
}
use concordia_protocol.Relay.Messages.{Outgoing, send_message, receive_messages}
use concordia_protocol.Relay.Archives.{archive_session}

pub data Call : Type 0 where
  create : String → Request → ℕ → Call
  join : String → String → Option String → ℕ → Call
  look : String → ℕ → Call
  look_by_concordia_id : String → ℕ → Call
  link : String → String → Call
  send : Outgoing → ℕ → Call
  receive : String → Option String → ℕ → ℕ → Call
  finish : String → String → String → ℕ → Call
  archive : String → String → ℕ → ℕ → Call

-- The relay after a call; its result goes to the caller.
unfoldable pub step : Relay → Call → Relay
step r (create relay_id q now) = (create_session relay_id q now r).1
step r (join id agent_id endpoint now) = (join_session id agent_id endpoint now r).1
step r (look id now) = (get_session id now r).1
step r (look_by_concordia_id id now) = (get_by_concordia_id id now r).1
step r (link id concordia_id) = (link_concordia_session id concordia_id r).1
step r (send o now) = (send_message o now r).1
step r (receive agent_id only limit now) = (receive_messages agent_id only limit now r).1
step r (finish id reason agent_id now) = (conclude_session id reason agent_id now r).1
step r (archive archive_id id retention_days now) =
    (archive_session archive_id id retention_days now r).1

unfoldable pub run : Relay → List Call → Relay
run r [] = r
run r (c ∷ cs) = run (step r c) cs
