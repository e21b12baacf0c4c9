-- ===== src/Relay/Bounds/Messages.antt =====
-- The message methods of concordia/relay.py keep the limits.
use concordia_protocol.Prelude.{
  ℕ, suc, ◌+◌, ◌≤◌, ◌<◌, String, ◌≡◌, Option, some, List, [], ◌∷◌, ◌++◌, arith, leb, length,
  length-append, Bool-cases, Option-cases, inl, inr, get_elem?, modify_at,
}
use concordia_protocol.Prelude.Dict.{get, get-put_self, All-put, get-All}
use concordia_protocol.Relay.{
  RelaySession, Relay, max_mailbox_size, max_transcript_size, update_participant, time_out,
  put_session, RelayedMessage, get_counterparty,
}
use concordia_protocol.Relay.Messages.{
  Outgoing, mailbox, record_sent, sent, after_type, deposit, send_from, send_message, Poll,
  received, count_received, poll_message, poll_step, poll, receive_messages, mark_lapsed,
  mark_delivered,
}
use concordia_protocol.Relay.Bounds.{
  Short, Fits, InBounds, transcript-update_participant, transcript-conclude, transcript-time_out,
  replace-InBounds,
}

module _ (r : Relay) (v : InBounds r) where
  mailbox-Fits : (a : String) → Fits (mailbox a r)
  unfolding mailbox
  mailbox-Fits a = elim (Option-cases (get r.mailboxes a)) [
    | inl e ↦ ground (arith, e)
    | inr (box, e) ↦ rw (e, mailbox) (get-All Fits r.mailboxes a v.mailboxes e)
  ]

  record_sent-Short :
      (o : Outgoing) (ref now : ℕ) (s : RelaySession)
      → length s.transcript < max_transcript_size
      → Short (record_sent o ref now s)
  unfolding record_sent
  record_sent-Short o ref now s room =
      rw
        (transcript-update_participant o.from_agent (sent now)
          (record s { transcript = s.transcript ++ ref ∷ [] }))
        (omega (arith, length-append s.transcript (ref ∷ [])))

  after_type-Short :
      (t : String) (now : ℕ) (s : RelaySession) → Short s → Short (after_type t now s)
  unfolding after_type
  after_type-Short t now s h = ground (arith, transcript-conclude t now s)

  deposit-InBounds :
      (o : Outgoing) (to : String) (now : ℕ) (s : RelaySession)
      → get r.sessions o.relay_session_id ≡ some s
      → length s.transcript < max_transcript_size
      → InBounds (deposit o to now s r).1
  unfolding deposit put_session
  deposit-InBounds o to now s e room =
      let ref = length r.store in
      let box = mailbox to r in
      let t = record_sent o ref now s in
      let u = after_type o.message_type now t in
      let short = record_sent-Short o ref now s room in
      let kept = All-put Fits r.mailboxes to box v.mailboxes (mailbox-Fits to) in
      let one = replace-InBounds r o.relay_session_id s t e short v in
      elim (Bool-cases (leb max_mailbox_size (length box))) [
        | inl full ↦ ground (arith, full, one, kept)
        | inr free ↦
            let two =
              replace-InBounds (put_session o.relay_session_id t r) o.relay_session_id t u
                (get-put_self r.sessions o.relay_session_id t)
                (after_type-Short o.message_type now t short) one in
            let longer =
              All-put Fits r.mailboxes to (box ++ ref ∷ []) v.mailboxes
                (ground (arith, length-append box (ref ∷ []))) in
            ground (arith, free, two, longer)
      ]

  pub send_message-InBounds : (o : Outgoing) (now : ℕ) → InBounds (send_message o now r).1
  unfolding send_message send_from
  send_message-InBounds o now = elim (Option-cases (get r.sessions o.relay_session_id)) [
    | inl e ↦ ground (arith, e)
    | inr (s, e) ↦
        let late =
          replace-InBounds r o.relay_session_id s (time_out now s) e
            (rw (transcript-time_out now s)
              (get-All Short r.sessions o.relay_session_id v.transcripts e))
            v in
        elim (Option-cases (get_counterparty s o.from_agent)) [
          | inl n ↦ ground (arith, e, n, late)
          | inr (to, c) ↦ elim (Bool-cases (leb max_transcript_size (length s.transcript))) [
            | inl full ↦ ground (arith, e, full, late)
            | inr room ↦
                ground (arith, e, c, room, late, deposit-InBounds o to now s e (ground arith))
          ]
        ]
  ]

count_received-InBounds :
    (id a : String) (now : ℕ) (r : Relay) → InBounds r → InBounds (count_received id a now r)
unfolding count_received
count_received-InBounds id a now r v = elim (Option-cases (get r.sessions id)) [
  | inl e ↦ ground (arith, e)
  | inr (s, e) ↦
      let short : Short (update_participant a (received now) s) =
        rw (transcript-update_participant a (received now) s)
          (get-All Short r.sessions id v.transcripts e) in
      ground (arith, e, replace-InBounds r id s (update_participant a (received now) s) e short v)
]

restore-InBounds :
    (r : Relay) (store : List RelayedMessage) → InBounds r → InBounds (record r { store = store })
restore-InBounds r store v = ground arith

-- The loop keeps the bounds, and moves at most one reference in each round.
record PollBounds (p : Poll) (left : ℕ) : Type 0 where
  bounds : InBounds p.relay
  room : length p.remaining + left ≤ max_mailbox_size

poll_message-PollBounds :
    (a : String) (only : Option String) (limit now ref : ℕ) (m : RelayedMessage) (p : Poll)
    (left : ℕ)
    → PollBounds p (suc left)
    → PollBounds (poll_message a only limit now ref m p) left
unfolding poll_message
poll_message-PollBounds a only limit now ref m p left v =
    let lapsing = restore-InBounds p.relay (modify_at p.relay.store ref mark_lapsed) v.bounds in
    let marked =
      restore-InBounds p.relay (modify_at p.relay.store ref (mark_delivered now)) v.bounds in
    let counted = count_received-InBounds m.session_id a now _ marked in
    ground (arith, lapsing, counted, length-append p.remaining (ref ∷ []))

poll_step-PollBounds :
    (a : String) (only : Option String) (limit now ref : ℕ) (p : Poll) (left : ℕ)
    → PollBounds p (suc left)
    → PollBounds (poll_step a only limit now ref p) left
unfolding poll_step
poll_step-PollBounds a only limit now ref p left v =
    elim (Option-cases (get_elem? p.relay.store ref)) [
      | inl e ↦ ground (arith, e)
      | inr (m, e) ↦ ground (arith, e, poll_message-PollBounds a only limit now ref m p left v)
    ]

poll-PollBounds :
    (a : String) (only : Option String) (limit now : ℕ) (refs : List ℕ) (p : Poll)
    → PollBounds p (length refs)
    → PollBounds (poll a only limit now refs p) 0
unfolding poll
poll-PollBounds a only limit now [] p v = v
poll-PollBounds a only limit now (ref ∷ refs) p v =
    poll-PollBounds a only limit now refs (poll_step a only limit now ref p)
      (poll_step-PollBounds a only limit now ref p (length refs) v)

pub receive_messages-InBounds :
    (r : Relay) (v : InBounds r) (a : String) (only : Option String) (limit now : ℕ)
    → InBounds (receive_messages a only limit now r).1
unfolding receive_messages
receive_messages-InBounds r v a only limit now =
    let start : Poll = record { relay = r; delivered = []; remaining = [] } in
    let from : PollBounds start (length (mailbox a r)) = record {
      bounds = v;
      room = omega (arith, mailbox-Fits r v a);
    } in
    let end_poll = poll-PollBounds a only limit now (mailbox a r) start from in
    let p = poll a only limit now (mailbox a r) start in
    record {
      sessions = end_poll.bounds.sessions;
      archives = end_poll.bounds.archives;
      transcripts = end_poll.bounds.transcripts;
      mailboxes =
          All-put Fits p.relay.mailboxes a p.remaining end_poll.bounds.mailboxes
            (omega (arith, end_poll.room));
    }
