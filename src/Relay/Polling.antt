-- ===== src/Relay/Polling.antt =====
-- What the poll of a mailbox in concordia/relay.py hands over, and what it leaves.
use concordia_protocol.Prelude.{
  ℕ, ◌+◌, ◌-◌, ◌≤◌, ◌<◌, String, ◌≡◌, sym, ap, ◌∙◌, ◌⊎◌, inl, inr, Bool, true, false, Option, List,
  [], ◌∷◌, ◌++◌, arith, leb, length, length-append, take, take_nil, take_none, take_next, keep,
  count_if, count_if-append, Bool-cases, Option-cases, get_elem?, modify_at,
}
use mathlib.Core.List.{append-nil, append_assoc}
use concordia_protocol.Prelude.Dict.{put, get-put_self}
use concordia_protocol.Relay.{RelayedMessage, Relay, is_expired}
use concordia_protocol.Relay.Messages.{
  mailbox, Poll, is_filtered, poll_message, poll_step, poll, receive_messages, mark_lapsed,
  mark_delivered,
}
use concordia_protocol.Relay.Marks.{
  Same, is_alive, is_due, is_alive-modify_at, is_due-modify_at, keep-cong, lapsed-Same,
  delivered-Same, store-count_received,
}

module _ (a : String) (only : Option String) (limit now : ℕ) where
  -- The marks of a round change no answer of the two tests.
  record Unmoved (p q : Poll) : Type 0 where
    alive : (ref : ℕ) → is_alive q.relay.store now ref ≡ is_alive p.relay.store now ref
    due : (ref : ℕ) → is_due q.relay.store only now ref ≡ is_due p.relay.store only now ref

  Unmoved-modify_at :
      (p q : Poll) (i : ℕ) (f : RelayedMessage → RelayedMessage)
      → Same f
      → q.relay.store ≡ modify_at p.relay.store i f
      → Unmoved p q
  Unmoved-modify_at p q i f same e = record {
    alive = λ ref. rw e (is_alive-modify_at f same p.relay.store i now ref);
    due = λ ref. rw e (is_due-modify_at f same p.relay.store only i now ref);
  }

  -- The three outcomes of a round: the message is dropped, left in the mailbox, or handed over.
  data Round (p q : Poll) (ref : ℕ) : Type 0 where
    dropped :
        q.delivered ≡ p.delivered
        → q.remaining ≡ p.remaining
        → is_alive p.relay.store now ref ≡ false
        → is_due p.relay.store only now ref ≡ false
        → Round p q ref
    left :
        q.delivered ≡ p.delivered
        → q.remaining ≡ p.remaining ++ ref ∷ []
        → is_alive p.relay.store now ref ≡ true
        → ((is_due p.relay.store only now ref ≡ false) ⊎ (limit ≤ length p.delivered))
        → Round p q ref
    handed :
        q.delivered ≡ p.delivered ++ ref ∷ []
        → q.remaining ≡ p.remaining
        → is_alive p.relay.store now ref ≡ true
        → is_due p.relay.store only now ref ≡ true
        → length p.delivered < limit
        → Round p q ref

  poll_step-Round :
      (ref : ℕ) (p : Poll)
      → Round p (poll_step a only limit now ref p) ref
        × Unmoved p (poll_step a only limit now ref p)
  unfolding poll_step poll_message
  poll_step-Round ref p = elim (Option-cases (get_elem? p.relay.store ref)) [
    | inl e ↦ (
      dropped (ground (arith, e)) (ground (arith, e)) (ground (arith, e)) (ground (arith, e)),
      record { alive = λ i. ground (arith, e); due = λ i. ground (arith, e) },
    )
    | inr (m, e) ↦ elim (Bool-cases (is_expired m now)) [
      | inl x ↦ (
        dropped (ground (arith, e, x)) (ground (arith, e, x)) (ground (arith, e, x))
            (ground (arith, e, x)),
        Unmoved-modify_at p _ ref mark_lapsed lapsed-Same (ground (arith, e, x)),
      )
      | inr x ↦ elim (Bool-cases (is_filtered only m)) [
        | inl f ↦ (
          left (ground (arith, e, x, f)) (ground (arith, e, x, f)) (ground (arith, e, x))
              (inl (ground (arith, e, x, f))),
          record { alive = λ i. ground (arith, e, x, f); due = λ i. ground (arith, e, x, f) },
        )
        | inr f ↦ elim (Bool-cases (leb limit (length p.delivered))) [
          | inl l ↦ (
            left (ground (arith, e, x, f, l)) (ground (arith, e, x, f, l)) (ground (arith, e, x))
                (inr (ground (arith, l))),
            record {
              alive = λ i. ground (arith, e, x, f, l);
              due = λ i. ground (arith, e, x, f, l);
            },
          )
          | inr l ↦ (
            handed (ground (arith, e, x, f, l)) (ground (arith, e, x, f, l)) (ground (arith, e, x))
                (ground (arith, e, x, f)) (ground (arith, l)),
            Unmoved-modify_at p _ ref (mark_delivered now) (delivered-Same now) (
                ground (
                  arith,
                  e,
                  x,
                  f,
                  l,
                  store-count_received m.session_id a now
                      (record p.relay { store = modify_at p.relay.store ref (mark_delivered now) }),
                )),
          )
        ]
      ]
    ]
  ]

  tally : (ℕ → Bool) → Poll → ℕ
  tally c p = count_if c p.delivered + count_if c p.remaining

  record Polled (refs : List ℕ) (p q : Poll) : Type 0 where
    delivered :
        q.delivered
        ≡ p.delivered
          ++ take (limit - length p.delivered) (keep (is_due p.relay.store only now) refs)
    tallied :
        (c : ℕ → Bool) → tally c q ≡ tally c p + count_if c (keep (is_alive p.relay.store now) refs)

  Polled-step :
      (ref : ℕ) (refs : List ℕ) (p q z : Poll)
      → Round p q ref
      → Unmoved p q
      → Polled refs q z
      → Polled (ref ∷ refs) p z
  unfolding tally
  Polled-step ref refs p q z (dropped d r x y) u v =
      let same = keep-cong _ _ u.due refs in
      let lives = keep-cong _ _ u.alive refs in
      record {
        delivered = rw (y, sym same, sym d) v.delivered;
        tallied = λ c. ground (arith, v.tallied c, d, r, x, lives);
      }
  Polled-step ref refs p q z (left d r x (inl y)) u v =
      let same = keep-cong _ _ u.due refs in
      let lives = keep-cong _ _ u.alive refs in
      record {
        delivered = rw (y, sym same, sym d) v.delivered;
        tallied = λ c.
            ground (arith, v.tallied c, d, r, x, lives, count_if-append c p.remaining (ref ∷ []));
      }
  Polled-step ref refs p q z (left d r x (inr y)) u v =
      let lives = keep-cong _ _ u.alive refs in
      record {
        delivered =
            (rw d at v.delivered)
            ∙ ap (λ ys. p.delivered ++ ys)
                (take_none (limit - length p.delivered) _ (omega (arith, y))
                  ∙ sym (take_none (limit - length p.delivered) _ (omega (arith, y))));
        tallied = λ c.
            ground (arith, v.tallied c, d, r, x, lives, count_if-append c p.remaining (ref ∷ []));
      }
  Polled-step ref refs p q z (handed d r x y l) u v =
      let same = keep-cong _ _ u.due refs in
      let lives = keep-cong _ _ u.alive refs in
      let k = keep (is_due p.relay.store only now) refs in
      let handed_over : z.delivered
          ≡ (p.delivered ++ ref ∷ []) ++ take (limit - (length p.delivered + 1)) k =
        rw (d, same, length-append) at v.delivered in
      let rest = take (limit - (length p.delivered + 1)) k in
      let joined : (p.delivered ++ ref ∷ []) ++ rest ≡ p.delivered ++ ref ∷ rest =
        append_assoc p.delivered (ref ∷ []) rest in
      let fewer : limit - (length p.delivered + 1) ≡ limit - length p.delivered - 1 = omega arith in
      record {
        delivered =
            rw (y, take_next (limit - length p.delivered) ref k (omega (arith, l)))
              (handed_over ∙ joined ∙ ap (λ n. p.delivered ++ ref ∷ take n k) fewer);
        tallied = λ c.
            ground (arith, v.tallied c, d, r, x, lives, count_if-append c p.delivered (ref ∷ []));
      }

  poll-Polled : (refs : List ℕ) (p : Poll) → Polled refs p (poll a only limit now refs p)
  unfolding poll
  poll-Polled [] p = record {
    delivered = sym (ap (λ ys. p.delivered ++ ys) (take_nil _) ∙ append-nil p.delivered);
    tallied = λ c. omega arith;
  }
  poll-Polled (ref ∷ refs) p =
      let (round, unmoved) = poll_step-Round ref p in
      Polled-step ref refs p (poll_step a only limit now ref p) _ round unmoved
        (poll-Polled refs (poll_step a only limit now ref p))

mailbox_after :
    (a : String) (p : Poll)
    → mailbox a (record p.relay { mailboxes = put p.relay.mailboxes a p.remaining }) ≡ p.remaining
unfolding mailbox
mailbox_after a p = ground (arith, get-put_self p.relay.mailboxes a p.remaining)

-- A poll hands over the first `limit` of the mailbox's messages that are unexpired and of the
-- session asked for, in their order, and leaves the rest of the unexpired ones in the mailbox:
-- whichever messages are counted, those handed over and those left are the unexpired ones of the
-- mailbox, none lost and none twice.
pub receive_messages_exact :
    (a : String) (only : Option String) (limit now : ℕ) (r : Relay)
    → ((receive_messages a only limit now r).0
        ≡ take limit (keep (is_due r.store only now) (mailbox a r)))
      × ((c : ℕ → Bool)
          → count_if c (receive_messages a only limit now r).0
              + count_if c (mailbox a (receive_messages a only limit now r).1)
            ≡ count_if c (keep (is_alive r.store now) (mailbox a r)))
unfolding receive_messages tally
receive_messages_exact a only limit now r =
    let start : Poll = record { relay = r; delivered = []; remaining = [] } in
    let v = poll-Polled a only limit now (mailbox a r) start in
    let p = poll a only limit now (mailbox a r) start in
    (
      v.delivered ∙ ap (λ n. take n (keep (is_due r.store only now) (mailbox a r))) (omega arith),
      λ c. rw (mailbox_after a p) (omega (arith, v.tallied c)),
    )
