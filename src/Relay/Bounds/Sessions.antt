-- ===== src/Relay/Bounds/Sessions.antt =====
-- The session methods of concordia/relay.py keep the limits.
use concordia_protocol.Prelude.{
  ℕ, String, ◌≡◌, refl, Option, some, [], ◌∷◌, arith, length, Option-cases, inl, inr,
}
use concordia_protocol.Prelude.Dict.{Dict, Values, get, All-put, get-All, length-put-le}
use concordia_protocol.Relay.{archived, RelaySession, Relay, conclude, settle, put_session}
use concordia_protocol.Relay.Sessions.{
  Request, settle_all, new_relay_session, admit_session, create_session, try_join, join_settled,
  join_session, get_session, get_by_concordia_id, link_concordia_session, conclude_session,
}
use concordia_protocol.Relay.Archives.{archive_session, new_archive}
use concordia_protocol.Relay.Bounds.{
  Short, InBounds, transcript-conclude, transcript-settle, replace-InBounds,
}

pub length-settle_all : (now : ℕ) (d : Dict RelaySession) → length (settle_all now d) ≡ length d
unfolding settle_all
length-settle_all now [] = refl
length-settle_all now ((id, s) ∷ d) = omega (arith, length-settle_all now d)

settle_all-Short :
    (now : ℕ) (d : Dict RelaySession) → Values Short d → Values Short (settle_all now d)
unfolding settle_all
settle_all-Short now [] v = tt
settle_all-Short now ((id, s) ∷ d) v =
    (rw (transcript-settle now s) v.0, settle_all-Short now d v.1)

admit_session-InBounds :
    (id : String) (q : Request) (now : ℕ) (r : Relay)
    → InBounds r
    → InBounds (admit_session id q now r).1
unfolding admit_session put_session new_relay_session
admit_session-InBounds id q now r v =
    let s = new_relay_session id q now in
    ground (
      arith,
      length-put-le r.sessions id s,
      All-put Short r.sessions id s v.transcripts (omega arith),
      v.sessions,
      v.archives,
      v.mailboxes,
    )

pub create_session-InBounds :
    (id : String) (q : Request) (now : ℕ) (r : Relay)
    → InBounds r
    → InBounds (create_session id q now r).1
unfolding create_session
create_session-InBounds id q now r v =
    let settled : InBounds (record r { sessions = settle_all now r.sessions }) = record {
      sessions = rw (length-settle_all now r.sessions) v.sessions;
      archives = v.archives;
      transcripts = settle_all-Short now r.sessions v.transcripts;
      mailboxes = v.mailboxes;
    } in
    let admitted = admit_session-InBounds id q now _ settled in ground arith

pub transcript-try_join :
    (a : String) (endpoint : Option String) (now : ℕ) (s : RelaySession) {t : RelaySession}
    → try_join a endpoint now s ≡ some t
    → t.transcript ≡ s.transcript
unfolding try_join
transcript-try_join a endpoint now s h = ground arith

module _ (r : Relay) (v : InBounds r) where
  pub join_session-InBounds :
      (id a : String) (endpoint : Option String) (now : ℕ)
      → InBounds (join_session id a endpoint now r).1
  unfolding join_session join_settled
  join_session-InBounds id a endpoint now = elim (Option-cases (get r.sessions id)) [
    | inl e ↦ ground (arith, e)
    | inr (s, e) ↦
        let s' = settle now s in
        let short : Short s' =
          rw (transcript-settle now s) (get-All Short r.sessions id v.transcripts e) in
        elim (Option-cases (try_join a endpoint now s')) [
          | inl n ↦ ground (arith, e, n, replace-InBounds r id s s' e short v)
          | inr (t, j) ↦
              let kept : Short t = rw (transcript-try_join a endpoint now s' j) short in
              ground (arith, e, j, replace-InBounds r id s t e kept v)
        ]
  ]

  pub get_session-InBounds : (id : String) (now : ℕ) → InBounds (get_session id now r).1
  unfolding get_session
  get_session-InBounds id now = elim (Option-cases (get r.sessions id)) [
    | inl e ↦ ground (arith, e)
    | inr (s, e) ↦
        let short : Short (settle now s) =
          rw (transcript-settle now s) (get-All Short r.sessions id v.transcripts e) in
        ground (arith, e, replace-InBounds r id s (settle now s) e short v)
  ]

  pub get_by_concordia_id-InBounds :
      (id : String) (now : ℕ) → InBounds (get_by_concordia_id id now r).1
  unfolding get_by_concordia_id
  get_by_concordia_id-InBounds id now = elim (Option-cases (get r.concordia_index id)) [
    | inl e ↦ ground (arith, e)
    | inr (j, e) ↦ ground (arith, e, get_session-InBounds j now)
  ]

  pub link-InBounds :
      (id concordia_id : String) → InBounds (link_concordia_session id concordia_id r).1
  unfolding link_concordia_session
  link-InBounds id concordia_id = elim (Option-cases (get r.sessions id)) [
    | inl e ↦ ground (arith, e)
    | inr (s, e) ↦
        let t = record s { concordia_session_id = some concordia_id } in
        let kept = replace-InBounds r id s t e (get-All Short r.sessions id v.transcripts e) v in
        ground (arith, e, kept)
  ]

  pub conclude_session-InBounds :
      (id reason a : String) (now : ℕ) → InBounds (conclude_session id reason a now r).1
  unfolding conclude_session
  conclude_session-InBounds id reason a now = elim (Option-cases (get r.sessions id)) [
    | inl e ↦ ground (arith, e)
    | inr (s, e) ↦
        let short : Short (conclude reason now s) =
          rw (transcript-conclude reason now s) (get-All Short r.sessions id v.transcripts e) in
        ground (arith, e, replace-InBounds r id s (conclude reason now s) e short v)
  ]

  pub archive_session-InBounds :
      (archive_id id : String) (days now : ℕ)
      → InBounds (archive_session archive_id id days now r).1
  unfolding archive_session
  archive_session-InBounds archive_id id days now = elim (Option-cases (get r.sessions id)) [
    | inl e ↦ ground (arith, e)
    | inr (s, e) ↦
        let kept =
          replace-InBounds r id s (record s { state = archived }) e
            (get-All Short r.sessions id v.transcripts e) v in
        ground (
          arith,
          e,
          kept,
          length-put-le r.archives archive_id (new_archive archive_id id days now s r),
        )
  ]
