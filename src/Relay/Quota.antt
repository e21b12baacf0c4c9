-- ===== src/Relay/Quota.antt =====
-- When `create_session` of concordia/relay.py makes a session.
use concordia_protocol.Prelude.{
  ℕ, ◌+◌, ◌≤◌, ◌<◌, String, ◌≡◌, refl, ◌↔◌, Bool, true, false, [], ◌∷◌, arith, length, Result, ok,
  err,
}
use concordia_protocol.Prelude.Dict.{Dict, put, count_if-put}
use concordia_protocol.Relay.{
  RelaySession, Relay, max_active_per_initiator, max_sessions, max_ttl_seconds, is_open,
  record_skip, time_out, settle, put_session,
}
use concordia_protocol.Relay.Sessions.{
  Request, names_itself, settle_all, is_active_of, active_count, new_relay_session, admit_session,
  create_session,
}
use concordia_protocol.Relay.Bounds.Sessions.{length-settle_all}

is_active_of-settle :
    (a : String) (now : ℕ) (s : RelaySession)
    → is_active_of a now (settle now s) ≡ is_active_of a now s
unfolding is_active_of settle time_out record_skip is_open
is_active_of-settle a now s = ground arith

active_count-settle_all :
    (a : String) (now : ℕ) (d : Dict RelaySession)
    → active_count a now (settle_all now d) ≡ active_count a now d
unfolding active_count settle_all
active_count-settle_all a now [] = refl
active_count-settle_all a now ((id, s) ∷ d) =
    ground (arith, is_active_of-settle a now s, active_count-settle_all a now d)

-- What the relay asks of a request at the time `now`.
pub record MayCreate (q : Request) (now : ℕ) (r : Relay) : Type 0 where
  pub two_agents : names_itself q.initiator_id q.responder_id ≡ false
  pub ttl_in_range : q.session_ttl ≤ max_ttl_seconds
  pub room : length r.sessions < max_sessions
  pub quota : active_count q.initiator_id now r.sessions < max_active_per_initiator

abbrev pub succeeds : {E A : Type 0} → Result E A → Bool
succeeds (ok a) = true
succeeds (err e) = false

module _ (id : String) (q : Request) (now : ℕ) (r : Relay) where
  -- A session is created exactly when the request does not name its initiator as the responder,
  -- its TTL is at most seven days, the relay has fewer than 10,000 sessions, and fewer than 100
  -- of the initiator's are open and within their TTL; that others are timed out first changes
  -- nothing of this.
  pub create_session_iff : (succeeds (create_session id q now r).0 ≡ true) ↔ MayCreate q now r
  unfolding create_session admit_session
  create_session_iff =
      let n = length-settle_all now r.sessions in
      let k = active_count-settle_all q.initiator_id now r.sessions in
      (
        λ h. record {
          two_agents = ground (arith, h);
          ttl_in_range = ground (arith, h);
          room = ground (arith, h, n);
          quota = ground (arith, h, k);
        },
        λ c. ground (arith, c, n, k),
      )

  sessions-create_session :
      succeeds (create_session id q now r).0 ≡ true
      → (create_session id q now r).1.sessions
        ≡ put (settle_all now r.sessions) id (new_relay_session id q now)
  unfolding create_session admit_session put_session
  sessions-create_session h =
      let n = length-settle_all now r.sessions in
      let k = active_count-settle_all q.initiator_id now r.sessions in
      let may = create_session_iff.0 h in ground (arith, may, n, k)

  active_count-put :
      (d : Dict RelaySession) (s : RelaySession)
      → active_count q.initiator_id now (put d id s) ≤ active_count q.initiator_id now d + 1
  unfolding active_count
  active_count-put d s = ground (arith, count_if-put (is_active_of q.initiator_id now) d id s)

  -- After a creation the initiator has at most 100 open sessions within their TTL.
  pub create_session_quota :
      succeeds (create_session id q now r).0 ≡ true
      → active_count q.initiator_id now (create_session id q now r).1.sessions
        ≤ max_active_per_initiator
  create_session_quota h = rw (sessions-create_session h) (
      omega (
        arith,
        active_count-put (settle_all now r.sessions) (new_relay_session id q now),
        active_count-settle_all q.initiator_id now r.sessions,
        (create_session_iff.0 h).quota,
      ))
