-- ===== src/Relay/Bounds/Runs.antt =====
-- No calls take a relay past the limits of concordia/relay.py.
use concordia_protocol.Prelude.{List, [], ◌∷◌, arith}
use concordia_protocol.Relay.{Relay, empty_relay}
use concordia_protocol.Relay.Calls.{
  Call, create, join, look, look_by_concordia_id, link, send, receive, finish, archive, step, run,
}
use concordia_protocol.Relay.Bounds.{InBounds}
use concordia_protocol.Relay.Bounds.Sessions.{
  create_session-InBounds, join_session-InBounds, get_session-InBounds,
  get_by_concordia_id-InBounds, link-InBounds, conclude_session-InBounds, archive_session-InBounds,
}
use concordia_protocol.Relay.Bounds.Messages.{send_message-InBounds, receive_messages-InBounds}

step-InBounds : (r : Relay) (c : Call) → InBounds r → InBounds (step r c)
unfolding step
step-InBounds r (create id q now) v = create_session-InBounds id q now r v
step-InBounds r (join id a endpoint now) v = join_session-InBounds r v id a endpoint now
step-InBounds r (look id now) v = get_session-InBounds r v id now
step-InBounds r (look_by_concordia_id id now) v = get_by_concordia_id-InBounds r v id now
step-InBounds r (link id concordia_id) v = link-InBounds r v id concordia_id
step-InBounds r (send o now) v = send_message-InBounds r v o now
step-InBounds r (receive a only limit now) v = receive_messages-InBounds r v a only limit now
step-InBounds r (finish id reason a now) v = conclude_session-InBounds r v id reason a now
step-InBounds r (archive archive_id id days now) v =
    archive_session-InBounds r v archive_id id days now

run_from-InBounds : (r : Relay) (cs : List Call) → InBounds r → InBounds (run r cs)
unfolding run
run_from-InBounds r [] v = v
run_from-InBounds r (c ∷ cs) v = run_from-InBounds (step r c) cs (step-InBounds r c v)

-- Whatever calls are made on a new relay, it holds at most 10,000 sessions and 50,000 archives,
-- no mailbox has more than 1,000 messages, and no transcript more than 10,000.
pub run-InBounds : (cs : List Call) → InBounds (run empty_relay cs)
unfolding empty_relay
run-InBounds cs = run_from-InBounds empty_relay cs (omega arith)
