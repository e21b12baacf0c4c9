-- ===== src/Session/Invariant.antt =====
-- What holds of a session between two calls.
use concordia_protocol.Prelude.{
  ℕ, ◌≤◌, ◌<◌, String, ◌≡◌, ◌≢◌, refl, Bool, true, false, Option, some, [], ◌∷◌, ◌++◌, arith,
  if◌then◌else◌, is_some, length, count_if, count_if-append, Bool-cases, Option-cases, inl, inr,
  Result, ok, err,
}
use concordia_protocol.Prelude.Dict.{Values, get, All-put}
use concordia_protocol.Types.{
  SessionState, expired, dormant, MessageType, new_behavior, TimingConfig, PartyRole, offer,
}
use concordia_protocol.Message.{Host, Message}
use concordia_protocol.Session.Behavior.{track_agent}
use concordia_protocol.Session.Behavior.Counts.{
  Conceded, offers_total, round_step, track_agent-offers, track_agent-Conceded, offers_total-put,
  or_new-Conceded,
}
use concordia_protocol.Session.Admission.{message_is, IsCredible-message_is, admit-IsAdmissible}
use concordia_protocol.Session.Run.{Call, deliver, lapse, sleep, join, step}
use concordia_protocol.Session.Diagram.{Edge-transitions}
use concordia_protocol.Session.{
  SessionError, Session, transitions, new_session, add_party, is_round, is_conclusion, can_expire,
  can_sleep, same_state, is_terminal, fire_terminal, track_behavior, record_terms, enter,
  commit_message, apply_message, admit, expire, make_dormant,
}

pub record Inv (H : Host) (s : Session H) : Type 0 where
  -- The cap of §9.5 is never passed.
  pub rounds_capped : s.round_count ≤ s.timing.max_rounds
  -- The counter is the number of offers and counters in the transcript,
  pub rounds_counted : s.round_count ≡ count_if (message_is is_round) s.transcript
  -- and that of the offers of all agents.
  pub rounds_by_agent : s.round_count ≡ offers_total s.behaviors
  pub conceded : Values Conceded s.behaviors
  -- A session that has ended has the time of its end.
  pub concluded : is_terminal H s ≡ true → is_some s.concluded_at ≡ true
  -- The callback is called at most once.
  pub notified_once : length s.notified ≤ 1
  pub notified_fired : s.terminal_fired ≡ false → s.notified ≡ []
  -- and only if there is one, and it has been called if the session has ended.
  pub notified_end : is_terminal H s ≡ true → s.on_terminal ≡ true → s.terminal_fired ≡ true
  pub dormant_wakes : s.state ≡ dormant → s.reactivatable ≡ true

module _ (H : Host) where
  pub new_session-Inv :
      (id : String) (timing : TimingConfig) (callback : Bool) (now : ℕ)
      → Inv H (new_session H id timing callback now)
  unfolding new_session is_terminal is_conclusion same_state offers_total
  new_session-Inv id timing callback now = ground arith

  is_round-round_step : (t : MessageType) → (if is_round t then 1 else 0) ≡ round_step t
  unfolding is_round
  is_round-round_step offer = refl
  is_round-round_step _ = refl

  -- A message never moves a session into `expired` or `dormant`, and a conclusion is a new state.
  record Entered (from to : SessionState) : Type 0 where
    fresh : is_conclusion to ≡ true → same_state from to ≡ false
    unexpired : same_state to expired ≡ false
    awake : to ≢ dormant

  transitions-Entered :
      (s : SessionState) (t : MessageType) (u : SessionState)
      → transitions s t ≡ some u
      → Entered s u
  unfolding transitions is_conclusion same_state
  transitions-Entered s t u h = ground arith

  -- The part of the invariant that the end of a session is about.
  record Closing (s : Session H) : Type 0 where
    concluded : is_terminal H s ≡ true → is_some s.concluded_at ≡ true
    notified_once : length s.notified ≤ 1
    notified_fired : s.terminal_fired ≡ false → s.notified ≡ []
    notified_end : is_terminal H s ≡ true → s.on_terminal ≡ true → s.terminal_fired ≡ true
    dormant_wakes : s.state ≡ dormant → s.reactivatable ≡ true

  enter-Closing :
      (s : Session H) (to : SessionState) (now : ℕ)
      → Entered s.state to
      → Closing s
      → Closing (enter H to now s)
  unfolding enter fire_terminal is_terminal
  enter-Closing s to now h c = elim (Bool-cases (is_conclusion to)) [
    | inl e ↦ ground (arith, h.fresh e)
    | inr e ↦ ground (arith, h.unexpired)
  ]

  Inv-Closing : {s : Session H} → Inv H s → Closing s
  Inv-Closing v = record {
    concluded = v.concluded;
    notified_once = v.notified_once;
    notified_fired = v.notified_fired;
    notified_end = v.notified_end;
    dormant_wakes = v.dormant_wakes;
  }

  -- The part of the invariant that counts the rounds.
  record Counting (s : Session H) : Type 0 where
    rounds_capped : s.round_count ≤ s.timing.max_rounds
    rounds_counted : s.round_count ≡ count_if (message_is is_round) s.transcript
    rounds_by_agent : s.round_count ≡ offers_total s.behaviors
    conceded : Values Conceded s.behaviors

  Inv-Counting : {s : Session H} → Inv H s → Counting s
  Inv-Counting v = record {
    rounds_capped = v.rounds_capped;
    rounds_counted = v.rounds_counted;
    rounds_by_agent = v.rounds_by_agent;
    conceded = v.conceded;
  }

  both : {s : Session H} → Counting s → Closing s → Inv H s
  both n c = record {
    rounds_capped = n.rounds_capped;
    rounds_counted = n.rounds_counted;
    rounds_by_agent = n.rounds_by_agent;
    conceded = n.conceded;
    concluded = c.concluded;
    notified_once = c.notified_once;
    notified_fired = c.notified_fired;
    notified_end = c.notified_end;
    dormant_wakes = c.dormant_wakes;
  }

  -- `enter` leaves the counts alone.
  enter-Counting :
      (s : Session H) (to : SessionState) (now : ℕ) → Counting s → Counting (enter H to now s)
  unfolding enter fire_terminal
  enter-Counting s to now n = ground arith

  tracked : (a : String) (t : MessageType) (m : Message H.Num) (s : Session H) → Session H
  tracked a t m s =
      track_behavior H a t m (record_terms H t m (record s { transcript = s.transcript ++ m ∷ [] }))

  tracked-Counting :
      (a : String) (t : MessageType) (m : Message H.Num) (s : Session H)
      → message_is is_round m ≡ is_round t
      → (is_round t ≡ true → s.round_count < s.timing.max_rounds)
      → Counting s
      → Counting (tracked a t m s)
  unfolding tracked track_behavior record_terms
  tracked-Counting a t m s same room n = record {
    rounds_capped = ground (arith, room);
    rounds_counted =
        ground
          (arith, count_if-append (message_is is_round) s.transcript (m ∷ []), n.rounds_counted);
    rounds_by_agent = ground (
      arith,
      n.rounds_by_agent,
      offers_total-put H s.behaviors a (track_agent H a t m s.behaviors s.last_offers).0,
      track_agent-offers H a t m s.behaviors s.last_offers,
      is_round-round_step t,
    );
    conceded = All-put Conceded s.behaviors a _ n.conceded (
        track_agent-Conceded H a t m s.behaviors s.last_offers
          (or_new-Conceded H s.behaviors a n.conceded));
  }

  tracked-Closing :
      (a : String) (t : MessageType) (m : Message H.Num) (s : Session H)
      → Closing s
      → Closing (tracked a t m s)
  unfolding tracked track_behavior record_terms is_terminal
  tracked-Closing a t m s c = ground arith

  state-tracked :
      (a : String) (t : MessageType) (m : Message H.Num) (s : Session H)
      → (tracked a t m s).state ≡ s.state
  unfolding tracked track_behavior record_terms
  state-tracked a t m s = refl

  commit_message-Inv :
      (a : String) (t : MessageType) (u : SessionState) (m : Message H.Num) (now : ℕ)
      (s : Session H)
      → message_is is_round m ≡ is_round t
      → (is_round t ≡ true → s.round_count < s.timing.max_rounds)
      → Entered s.state u
      → Inv H s
      → Inv H (commit_message H a t u m now s)
  unfolding commit_message
  commit_message-Inv a t u m now s same room e v =
      unfold tracked in
      both
        (enter-Counting (tracked a t m s) u now
          (tracked-Counting a t m s same room (Inv-Counting v)))
        (enter-Closing (tracked a t m s) u now (rw (state-tracked a t m s) e)
          (tracked-Closing a t m s (Inv-Closing v)))

  -- A message, accepted or refused, keeps the invariant.
  pub apply_message-Inv :
      (resolver : String → Option H.Key) (m : Message H.Num) (now : ℕ) (s : Session H)
      → Inv H s
      → Inv H (apply_message H resolver m now s).1
  unfolding apply_message
  apply_message-Inv resolver m now s v = go (admit H resolver s m) refl
    where
      go :
          (r : Result SessionError (String × MessageType × SessionState))
          → admit H resolver s m ≡ r
          → Inv H (apply_message H resolver m now s).1
      go (err e) p = rw (p, apply_message) v
      go (ok (a, t, u)) p =
          let fits = admit-IsAdmissible H resolver s m a t u p in
          rw (p, apply_message)
            (commit_message-Inv a t u m now s
              (IsCredible-message_is H resolver s m is_round fits.credible) fits.room
              (transitions-Entered s.state t u (Edge-transitions fits.edge)) v)

  pub expire-Inv : (now : ℕ) (s : Session H) → Inv H s → Inv H (expire H now s).1
  unfolding expire can_expire fire_terminal is_terminal is_conclusion same_state
  expire-Inv now s v = ground arith

  pub make_dormant-Inv : (s : Session H) → Inv H s → Inv H (make_dormant H s).1
  unfolding make_dormant can_sleep is_terminal is_conclusion same_state
  make_dormant-Inv s v = ground arith

  pub add_party-Inv :
      (a : String) (role : PartyRole) (key : Option H.Key) (s : Session H)
      → Inv H s
      → Inv H (add_party H a role key s)
  unfolding add_party is_terminal
  add_party-Inv a role key s v = elim (Option-cases (get s.behaviors a)) [
    | inl e ↦
        let joined = offers_total-put H s.behaviors a (new_behavior H.zero) in
        let fair =
          All-put Conceded s.behaviors a (new_behavior H.zero) v.conceded
            (unfold new_behavior in omega arith) in
        ground (arith, e, joined, fair)
    | inr (b, e) ↦ ground (arith, e)
  ]

  -- Every call keeps the invariant.
  pub step-Inv :
      (resolver : String → Option H.Key) (s : Session H) (c : Call H)
      → Inv H s
      → Inv H (step H resolver s c)
  unfolding step
  step-Inv resolver s (deliver m now) v = apply_message-Inv resolver m now s v
  step-Inv resolver s (lapse now) v = expire-Inv now s v
  step-Inv resolver s sleep v = make_dormant-Inv s v
  step-Inv resolver s (join a role key) v = add_party-Inv a role key s v
