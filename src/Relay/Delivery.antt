-- ===== src/Relay/Delivery.antt =====
-- When `send_message` of concordia/relay.py sends, and what it does then.
use concordia_protocol.Prelude.{
  ℕ, ◌≤◌, ◌<◌, String, ◌≡◌, ◌≢◌, refl, ◌∙◌, ◌↔◌, inl, inr, true, false, none, some, List, [], ◌∷◌,
  ◌++◌, arith, leb, if◌then◌else◌, length, str_eq, eq_iff, is_some, Option-cases,
}
use text.Mathlib.TextPositions.{eq_refl}
use concordia_protocol.Prelude.Dict.{get, put, get-put, get-put_self}
use concordia_protocol.Relay.{
  concluded, RelayedMessage, RelaySession, Relay, max_mailbox_size, get_counterparty,
  update_participant, record_skip, conclude, put_session,
}
use concordia_protocol.Relay.Messages.{
  Outgoing, mailbox, new_message, is_terminal_type, record_sent, sent, after_type, deposit,
  send_from, send_message,
}
use concordia_protocol.Relay.Senders.{MaySend, MayWrite, MaySend-MayWrite, MayWrite-MaySend}
use concordia_protocol.Relay.Bounds.{transcript-update_participant, transcript-conclude}

pub record CanSend (o : Outgoing) (to_agent : String) (now : ℕ) (s : RelaySession) (r : Relay)
    : Type 0 where
  pub session : get r.sessions o.relay_session_id ≡ some s
  pub may_send : MaySend o to_agent now s
  pub box_room : length (mailbox to_agent r) < 1000

send_from-deposit :
    (o : Outgoing) (to_agent : String) (now : ℕ) (s : RelaySession) (r : Relay)
    → get r.sessions o.relay_session_id ≡ some s
    → MayWrite o to_agent now s
    → send_message o now r ≡ deposit o to_agent now s r
unfolding send_message send_from
send_from-deposit o to_agent now s r e w = ground (arith, e, w)

deposit_had_room :
    (o : Outgoing) (to_agent : String) (now : ℕ) (s : RelaySession) (r : Relay)
    → is_some (deposit o to_agent now s r).0 ≡ true
    → length (mailbox to_agent r) < max_mailbox_size
unfolding deposit
deposit_had_room o to_agent now s r h = ground (arith, h)

deposit_sent :
    (o : Outgoing) (to_agent : String) (now : ℕ) (s : RelaySession) (r : Relay)
    → length (mailbox to_agent r) < max_mailbox_size
    → (deposit o to_agent now s r).0 ≡ some (new_message o to_agent now)
unfolding deposit
deposit_sent o to_agent now s r h = ground (arith, h)

-- A message is sent exactly when the session is there, PENDING or ACTIVE and within its TTL, the
-- sender is the initiator, itself confirmed, and writes to a responder who has joined, or such a
-- responder and writes to the initiator, the transcript has fewer than 10,000 messages, and the
-- recipient's mailbox fewer than 1,000.
pub send_message_iff :
    (o : Outgoing) (now : ℕ) (r : Relay)
    → (is_some (send_message o now r).0 ≡ true)
      ↔ ((s : RelaySession) × (to_agent : String) × CanSend o to_agent now s r)
unfolding send_message send_from
send_message_iff o now r = (
  there,
  λ (s, to_agent, c). ground (
    arith,
    send_from-deposit o to_agent now s r c.session (MaySend-MayWrite o to_agent now s c.may_send),
    deposit_sent o to_agent now s r c.box_room,
  ),
)
  where
    there :
        is_some (send_message o now r).0 ≡ true
        → (s : RelaySession) × (to_agent : String) × CanSend o to_agent now s r
    there h = elim (Option-cases (get r.sessions o.relay_session_id)) [
      | inl e ↦ absurd (ground (arith, e, h))
      | inr (s, e) ↦ elim (Option-cases (get_counterparty s o.from_agent)) [
        | inl n ↦ absurd (ground (arith, e, n, h))
        | inr (to_agent, c) ↦ (
          s,
          to_agent,
          record {
            session = e;
            may_send = MayWrite-MaySend o to_agent now s (record {
              confirmed = ground (arith, e, h);
              live = ground (arith, e, h);
              in_time = ground (arith, e, h);
              room = ground (arith, e, h);
              counterparty = c;
            });
            box_room = deposit_had_room o to_agent now s r (ground (arith, e, c, h));
          },
        )
      ]
    ]

transcript-after_type :
    (t : String) (now : ℕ) (s : RelaySession) → (after_type t now s).transcript ≡ s.transcript
unfolding after_type
transcript-after_type t now s = ground (arith, transcript-conclude t now s)

transcript-record_sent :
    (o : Outgoing) (ref now : ℕ) (s : RelaySession)
    → (record_sent o ref now s).transcript ≡ s.transcript ++ ref ∷ []
unfolding record_sent
transcript-record_sent o ref now s =
    transcript-update_participant o.from_agent (sent now)
      (record s { transcript = s.transcript ++ ref ∷ [] })

state-record_sent :
    (o : Outgoing) (ref now : ℕ) (s : RelaySession) → (record_sent o ref now s).state ≡ s.state
unfolding record_sent update_participant
state-record_sent o ref now s = ground arith

-- What a send does: the new message is stored, and referred to at the end of the transcript and
-- of the recipient's mailbox, and no other mailbox changes.
pub record Delivered (o : Outgoing) (to_agent : String) (now : ℕ) (s : RelaySession) (r r' : Relay)
    : Type 0 where
  pub store : r'.store ≡ r.store ++ new_message o to_agent now ∷ []
  pub box : mailbox to_agent r' ≡ mailbox to_agent r ++ length r.store ∷ []
  pub other_boxes : (a : String) → a ≢ to_agent → mailbox a r' ≡ mailbox a r
  pub transcript :
      (t : RelaySession) × (get r'.sessions o.relay_session_id ≡ some t)
      × (t.transcript ≡ s.transcript ++ length r.store ∷ [])
      × (is_terminal_type o.message_type ≡ true → t.state ≡ concluded)

state-conclude :
    (reason : String) (now : ℕ) (s : RelaySession) → (conclude reason now s).state ≡ concluded
unfolding conclude record_skip
state-conclude reason now s = ground arith

mailbox-put :
    (to_agent a : String) (box : List ℕ) (r r' : Relay)
    → r'.mailboxes ≡ put r.mailboxes to_agent box
    → mailbox a r' ≡ (if str_eq to_agent a then box else mailbox a r)
unfolding mailbox
mailbox-put to_agent a box r r' e = ground (arith, e, get-put r.mailboxes to_agent a box)

module _ (o : Outgoing) (to_agent : String) (now : ℕ) (s : RelaySession) (r : Relay) where
  deposit-Delivered :
      length (mailbox to_agent r) < max_mailbox_size
      → Delivered o to_agent now s r (deposit o to_agent now s r).1
  unfolding deposit put_session
  deposit-Delivered h =
      let ref = length r.store in
      let box = mailbox to_agent r in
      let t = record_sent o ref now s in
      let u = after_type o.message_type now t in
      let end = (deposit o to_agent now s r).1 in
      let free : leb max_mailbox_size (length box) ≡ false = ground (arith, h) in
      let boxes : end.mailboxes ≡ put r.mailboxes to_agent (box ++ ref ∷ []) = rw free refl in
      let at : (a : String)
          → mailbox a end ≡ (if str_eq to_agent a then box ++ ref ∷ [] else mailbox a r) =
        λ a. mailbox-put to_agent a (box ++ ref ∷ []) r end boxes in
      record {
        store = rw free refl;
        box = ground (arith, at to_agent, eq_refl to_agent);
        other_boxes = λ a n. ground (arith, at a, eq_iff to_agent a, n);
        transcript = (
          u,
          rw free (get-put_self (put r.sessions o.relay_session_id t) o.relay_session_id u),
          transcript-after_type o.message_type now t ∙ transcript-record_sent o ref now s,
          λ e. unfold after_type in ground (arith, e, state-conclude o.message_type now t),
        );
      }

-- A message that is sent is the new message for the sender's counterparty: it is stored and
-- referred to at the end of the transcript and of the recipient's mailbox, no other mailbox
-- changes, and a message of a concluding type concludes the session.
pub send_message-Delivered :
    (o : Outgoing) (now : ℕ) (r : Relay) {m : RelayedMessage}
    → (send_message o now r).0 ≡ some m
    → (s : RelaySession) × (to_agent : String) × CanSend o to_agent now s r
      × (m ≡ new_message o to_agent now)
      × Delivered o to_agent now s r (send_message o now r).1
send_message-Delivered o now r h =
    let (s, to_agent, c) = (send_message_iff o now r).0 (ground (arith, h)) in
    let same =
      send_from-deposit o to_agent now s r c.session
        (MaySend-MayWrite o to_agent now s c.may_send) in
    (
      s,
      to_agent,
      c,
      ground (arith, h, same, deposit_sent o to_agent now s r c.box_room),
      rw same (deposit-Delivered o to_agent now s r c.box_room),
    )

-- When the recipient's mailbox is full, the call returns None although the transcript has the
-- message by then; a message of a concluding type does not conclude the session.
pub send_message_full :
    (o : Outgoing) (to_agent : String) (now : ℕ) (r : Relay) (s : RelaySession)
    → get r.sessions o.relay_session_id ≡ some s
    → MayWrite o to_agent now s
    → max_mailbox_size ≤ length (mailbox to_agent r)
    → ((send_message o now r).0 ≡ none)
      × ((t : RelaySession) × (get (send_message o now r).1.sessions o.relay_session_id ≡ some t)
          × (t.transcript ≡ s.transcript ++ length r.store ∷ [])
          × (t.state ≡ s.state))
      × (mailbox to_agent (send_message o now r).1 ≡ mailbox to_agent r)
unfolding deposit put_session
send_message_full o to_agent now r s e w h =
    let ref = length r.store in
    let t = record_sent o ref now s in
    let same = send_from-deposit o to_agent now s r e w in
    let full : leb max_mailbox_size (length (mailbox to_agent r)) ≡ true = ground (arith, h) in
    rw same (
      rw full refl,
      (
        t,
        rw full (get-put_self r.sessions o.relay_session_id t),
        transcript-record_sent o ref now s,
        state-record_sent o ref now s,
      ),
      ground (
        arith,
        mailbox-put to_agent to_agent (mailbox to_agent r) r (deposit o to_agent now s r).1
            (rw full refl),
        eq_refl to_agent,
      ),
    )
