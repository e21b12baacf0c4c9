-- ===== src/Relay/Lifecycle/Calls.antt =====
-- Every method of concordia/relay.py lets its sessions evolve and no more.
use concordia_protocol.Prelude.{
  ℕ, String, ◌≡◌, ap, ◌∙◌, inl, inr, true, Option, none, some, arith, Bool-cases, Option-cases,
  length,
}
use concordia_protocol.Prelude.Dict.{Dict, get, put, get-put_self}
use concordia_protocol.Relay.{
  archived, RelaySession, Relay, is_open, time_out, settle, conclude, put_session, get_counterparty,
  update_participant,
}
use concordia_protocol.Relay.Sessions.{
  Request, settle_all, new_relay_session, admit_session, create_session, try_join, join_settled,
  join_session, get_session, get_by_concordia_id, link_concordia_session, is_finished,
  conclude_session,
}
use concordia_protocol.Relay.Messages.{
  Outgoing, sent, record_sent, after_type, deposit, send_from, send_message,
}
use concordia_protocol.Relay.Archives.{archive_session}
use concordia_protocol.Relay.Lifecycle.{
  Evolves, Evolves-refl, Evolves-trans, AllEvolve, AllEvolve-refl, AllEvolve-trans, AllEvolve-put,
  settle-Evolves, conclude-Evolves, settle_all-AllEvolve, try_join-Evolves, AllEvolve-put_fresh,
  settle_all_missing, time_out-Evolves, open_rank,
}

-- A record of the claim, so that the cases of a call can be proved by splitting on its tests.
pub record Keeps (r : Relay) (e : Dict RelaySession) : Type 0 where
  pub all : AllEvolve r.sessions e

pub put-Keeps :
    (r : Relay) (id : String) (s t : RelaySession)
    → get r.sessions id ≡ some s
    → Evolves s t
    → Keeps r (put r.sessions id t)
put-Keeps r id s t e v = record { all = AllEvolve-put r.sessions id s t e v }

pub same-Keeps : (r : Relay) → Keeps r r.sessions
same-Keeps r = record { all = AllEvolve-refl r.sessions }

module _ (r : Relay) where
  pub join_session-Keeps :
      (id a : String) (endpoint : Option String) (now : ℕ)
      → Keeps r (join_session id a endpoint now r).1.sessions
  unfolding join_session join_settled put_session
  join_session-Keeps id a endpoint now = elim (Option-cases (get r.sessions id)) [
    | inl e ↦ ground (arith, e, same-Keeps r)
    | inr (s, e) ↦ elim (Option-cases (try_join a endpoint now (settle now s))) [
      | inl n ↦ ground (arith, e, n, put-Keeps r id s (settle now s) e (settle-Evolves now s))
      | inr (t, j) ↦
          let v =
            Evolves-trans (settle-Evolves now s)
              (try_join-Evolves a endpoint now (settle now s) j) in
          ground (arith, e, j, put-Keeps r id s t e v)
    ]
  ]

  pub get_session-Keeps : (id : String) (now : ℕ) → Keeps r (get_session id now r).1.sessions
  unfolding get_session put_session
  get_session-Keeps id now = elim (Option-cases (get r.sessions id)) [
    | inl e ↦ ground (arith, e, same-Keeps r)
    | inr (s, e) ↦ ground (arith, e, put-Keeps r id s (settle now s) e (settle-Evolves now s))
  ]

  pub get_by_concordia_id-Keeps :
      (id : String) (now : ℕ) → Keeps r (get_by_concordia_id id now r).1.sessions
  unfolding get_by_concordia_id
  get_by_concordia_id-Keeps id now = elim (Option-cases (get r.concordia_index id)) [
    | inl e ↦ ground (arith, e, same-Keeps r)
    | inr (j, e) ↦ ground (arith, e, same-Keeps r, get_session-Keeps j now)
  ]

  pub link-Keeps :
      (id concordia_id : String) → Keeps r (link_concordia_session id concordia_id r).1.sessions
  unfolding link_concordia_session put_session
  link-Keeps id concordia_id = elim (Option-cases (get r.sessions id)) [
    | inl e ↦ ground (arith, e, same-Keeps r)
    | inr (s, e) ↦ ground (
      arith,
      e,
      put-Keeps r id s (record s { concordia_session_id = some concordia_id }) e (ground arith),
    )
  ]

  pub conclude_session-Keeps :
      (id reason a : String) (now : ℕ) → Keeps r (conclude_session id reason a now r).1.sessions
  unfolding conclude_session put_session
  conclude_session-Keeps id reason a now = elim (Option-cases (get r.sessions id)) [
    | inl e ↦ ground (arith, e, same-Keeps r)
    | inr (s, e) ↦ elim (Bool-cases (is_finished s.state)) [
      | inl f ↦ ground (arith, e, f, same-Keeps r)
      | inr f ↦ ground (
        arith,
        e,
        f,
        same-Keeps r,
        put-Keeps r id s (conclude reason now s) e
            (conclude-Evolves reason now s (unfold is_finished in ground arith)),
      )
    ]
  ]

  pub archive_session-Keeps :
      (archive_id id : String) (days now : ℕ)
      → Keeps r (archive_session archive_id id days now r).1.sessions
  unfolding archive_session put_session
  archive_session-Keeps archive_id id days now = elim (Option-cases (get r.sessions id)) [
    | inl e ↦ ground (arith, e, same-Keeps r)
    | inr (s, e) ↦
        ground (
          arith,
          e,
          same-Keeps r,
          put-Keeps r id s (record s { state = archived }) e (ground arith),
        )
  ]

  -- A new session goes under an identifier that no session has.
  pub create_session-Keeps :
      (id : String) (q : Request) (now : ℕ)
      → get r.sessions id ≡ none
      → Keeps r (create_session id q now r).1.sessions
  unfolding create_session admit_session put_session
  create_session-Keeps id q now fresh =
      let settled : Keeps r (settle_all now r.sessions) = record {
        all = settle_all-AllEvolve now r.sessions;
      } in
      let made : Keeps r (put (settle_all now r.sessions) id (new_relay_session id q now)) =
        record {
          all = AllEvolve-trans r.sessions (settle_all now r.sessions) _ settled.all (
              AllEvolve-put_fresh (settle_all now r.sessions) id (new_relay_session id q now)
                (settle_all_missing now r.sessions id fresh));
        } in
      ground (arith, same-Keeps r, settled, made)

  record_sent-Evolves :
      (o : Outgoing) (ref now : ℕ) (s : RelaySession)
      → is_open s.state ≡ true
      → Evolves s (record_sent o ref now s) × ((record_sent o ref now s).state ≡ s.state)
  unfolding record_sent update_participant sent
  record_sent-Evolves o ref now s h = ground (arith, open_rank s.state h)

  after_type-Evolves :
      (t : String) (now : ℕ) (s : RelaySession)
      → is_open s.state ≡ true
      → Evolves s (after_type t now s)
  unfolding after_type
  after_type-Evolves t now s h =
      ground (arith, Evolves-refl s, conclude-Evolves t now s (omega (arith, open_rank s.state h)))

  pub deposit-Keeps :
      (o : Outgoing) (to : String) (now : ℕ) (s : RelaySession)
      → get r.sessions o.relay_session_id ≡ some s
      → is_open s.state ≡ true
      → Keeps r (deposit o to now s r).1.sessions
  unfolding deposit put_session
  deposit-Keeps o to now s e live =
      let ref = length r.store in
      let id = o.relay_session_id in
      let t = record_sent o ref now s in
      let (v, same) = record_sent-Evolves o ref now s live in
      let u = after_type o.message_type now t in
      let one = put-Keeps r id s t e v in
      let two : Keeps r (put (put r.sessions id t) id u) = record {
        all = AllEvolve-trans r.sessions (put r.sessions id t) _ one.all (
            AllEvolve-put (put r.sessions id t) id t u (get-put_self r.sessions id t)
              (after_type-Evolves o.message_type now t (ap is_open same ∙ live)));
      } in
      ground (arith, one, two)

  pub send_message-Keeps : (o : Outgoing) (now : ℕ) → Keeps r (send_message o now r).1.sessions
  unfolding send_message send_from put_session
  send_message-Keeps o now = elim (Option-cases (get r.sessions o.relay_session_id)) [
    | inl e ↦ ground (arith, e, same-Keeps r)
    | inr (s, e) ↦ elim (Bool-cases (is_open s.state)) [
      | inr shut ↦ ground (arith, e, shut, same-Keeps r)
      | inl live ↦
          let late =
            put-Keeps r o.relay_session_id s (time_out now s) e (time_out-Evolves now s live) in
          elim (Option-cases (get_counterparty s o.from_agent)) [
            | inl n ↦ ground (arith, e, n, late, same-Keeps r)
            | inr (to, c) ↦
                ground (arith, e, c, late, same-Keeps r, deposit-Keeps o to now s e live)
          ]
    ]
  ]
