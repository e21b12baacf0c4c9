-- ===== src/Session.antt =====
-- concordia/session.py: the negotiation session. A method that raises returns the error beside
-- the session, and `apply_message` raises before it writes. The clock, the key resolver, floats
-- and signatures are arguments; `notified` records the states in which `on_terminal` was called.
pub mod Behavior
pub mod Diagram
pub mod Admission
pub mod Run
pub mod Chained
pub mod Invariant
pub mod Traces
pub mod Endings
mod Tests
use concordia_protocol.Prelude.{
  ℕ, ◌+◌, ◌-◌, String, Bool, true, false, not, ◌&&◌, ◌||◌, Option, none, some, List, [], ◌∷◌, ◌++◌,
  leb, ltb, if◌then◌else◌, str_eq, is_some, last?, Result, ok, err, ◌>>=◌, ◌>>◌, guard,
}
use concordia_protocol.Prelude.Dict.{Dict, get, put}
use concordia_protocol.Types.{
  SessionState, proposed, active, agreed, rejected, expired, dormant, MessageType, msg_open,
  accept_session, decline_session, offer, counter, accept, reject, inquire, constrain, signal,
  withdraw, propose_mediator, resolve, commit, PartyRole, TimingConfig, BehaviorRecord,
  new_behavior, type_of_value,
}
use concordia_protocol.Message.{Host, Message, Terms, genesis_hash, eq_hash}
use Behavior.{track_agent}

pub data SessionError : Type 0 where
  missing_agent_id missing_signature unknown_agent invalid_signature session_binding chain_integrity
        missing_type unknown_type invalid_transition max_rounds_exceeded :
      SessionError

-- The table `_TRANSITIONS`; `none` is a key that it lacks.
unfoldable pub transitions : SessionState → MessageType → Option SessionState
transitions proposed msg_open = some proposed
transitions proposed accept_session = some active
transitions proposed decline_session = some rejected
transitions active offer = some active
transitions active counter = some active
transitions active signal = some active
transitions active inquire = some active
transitions active constrain = some active
transitions active propose_mediator = some active
transitions active resolve = some active
transitions active accept = some agreed
transitions active reject = some rejected
transitions active withdraw = some rejected
transitions active commit = some agreed
transitions dormant offer = some active
transitions _ _ = none

unfoldable pub is_round : MessageType → Bool
is_round offer = true
is_round counter = true
is_round _ = false

-- `new_state in (AGREED, REJECTED)`
unfoldable pub is_conclusion : SessionState → Bool
is_conclusion agreed = true
is_conclusion rejected = true
is_conclusion _ = false

unfoldable pub can_expire : SessionState → Bool
can_expire proposed = true
can_expire active = true
can_expire _ = false

unfoldable pub can_sleep : SessionState → Bool
can_sleep rejected = true
can_sleep expired = true
can_sleep _ = false

unfoldable pub same_state : SessionState → SessionState → Bool
same_state proposed proposed = true
same_state active active = true
same_state agreed agreed = true
same_state rejected rejected = true
same_state expired expired = true
same_state dormant dormant = true
same_state _ _ = false

pub record Session (H : Host) : Type 0 where
  pub session_id : String
  pub state : SessionState
  pub timing : TimingConfig
  pub transcript : List (Message H.Num)
  pub parties : Dict PartyRole
  pub created_at : ℕ
  pub public : Bool
  pub concluded_at : Option ℕ
  pub round_count : ℕ
  pub reactivatable : Bool
  pub terms : Option (Terms H.Num)
  pub on_terminal : Bool
  pub terminal_fired : Bool
  pub behaviors : Dict (BehaviorRecord H.Num)
  pub last_offers : Dict (Terms H.Num)
  pub party_keys : Dict H.Key
  pub notified : List SessionState

module _ (H : Host) where
  open H use {Num, Key, compute_hash, verify_signature}

  -- `Session(session_id, timing, on_terminal)` at the time `now`.
  unfoldable pub new_session : String → TimingConfig → Bool → ℕ → Session H
  new_session session_id timing on_terminal now = record {
    session_id = session_id;
    state = proposed;
    timing = timing;
    transcript = [];
    parties = [];
    created_at = now;
    public = false;
    concluded_at = none;
    round_count = 0;
    reactivatable = false;
    terms = none;
    on_terminal = on_terminal;
    terminal_fired = false;
    behaviors = [];
    last_offers = [];
    party_keys = [];
    notified = [];
  }

  unfoldable pub tip_hash : List (Message Num) → String
  tip_hash transcript = elim (last? transcript) [ none ↦ genesis_hash | some m ↦ compute_hash m ]

  unfoldable pub is_terminal : Session H → Bool
  is_terminal s = is_conclusion s.state || same_state s.state expired

  unfoldable pub add_party : String → PartyRole → Option Key → Session H → Session H
  unfolding get put new_behavior
  add_party agent_id role public_key s = record s {
    parties = put s.parties agent_id role;
    behaviors =
        if is_some (get s.behaviors agent_id)
        then s.behaviors
        else put s.behaviors agent_id (new_behavior H.zero);
    party_keys = elim public_key [ none ↦ s.party_keys | some key ↦ put s.party_keys agent_id key ];
  }

  -- The guards of `apply_message`, in the order in which the code makes them.
  unfoldable pub present : Option String → SessionError → Result SessionError String
  present none e = err e
  present (some x) e = if str_eq x "" then err e else ok x

  unfoldable pub known : Option Key → Result SessionError Key
  known none = err unknown_agent
  known (some key) = ok key

  unfoldable pub authenticate : (String → Option Key) → Message Num → Result SessionError String
  authenticate resolver m = do
    agent_id ← present m.agent_id missing_agent_id
    signature ← present m.signature missing_signature
    key ← known (resolver agent_id)
    guard (verify_signature m signature key) invalid_signature
    ok agent_id

  -- `field is not None and field != expected` raises.
  unfoldable pub absent_or_eq : Option String → String → Bool
  unfolding eq_hash
  absent_or_eq none expected = true
  absent_or_eq (some x) expected = eq_hash (some x) expected

  unfoldable pub read_type : Option String → Result SessionError MessageType
  read_type none = err missing_type
  read_type (some s) = elim (type_of_value s) [ none ↦ err unknown_type | some t ↦ ok t ]

  unfoldable pub next_state : SessionState → MessageType → Result SessionError SessionState
  unfolding transitions
  next_state s t = elim (transitions s t) [ none ↦ err invalid_transition | some u ↦ ok u ]

  unfoldable pub admit :
      (String → Option Key)
      → Session H
      → Message Num
      → Result SessionError (String × MessageType × SessionState)
  admit resolver s m = do
    agent_id ← authenticate resolver m
    guard (absent_or_eq m.session_id s.session_id) session_binding
    guard (absent_or_eq m.prev_hash (tip_hash s.transcript)) chain_integrity
    type ← read_type m.type
    state ← next_state s.state type
    guard (not (is_round type && leb s.timing.max_rounds s.round_count)) max_rounds_exceeded
    ok (agent_id, type, state)

  -- `_fire_terminal`: at most one call. Whatever the callback raises is swallowed.
  unfoldable pub fire_terminal : Session H → Session H
  fire_terminal s =
      if s.terminal_fired || not s.on_terminal
      then s
      else record s { terminal_fired = true; notified = s.notified ++ s.state ∷ [] }

  -- `_track_behavior`
  unfoldable pub track_behavior : String → MessageType → Message Num → Session H → Session H
  track_behavior agent_id type m s =
      let (behavior, offers) = track_agent H agent_id type m s.behaviors s.last_offers in
      record s {
        behaviors = put s.behaviors agent_id behavior;
        last_offers = offers;
        round_count = if is_round type then s.round_count + 1 else s.round_count;
      }

  -- What `apply_message` writes, once every guard has passed.
  unfoldable pub record_terms : MessageType → Message Num → Session H → Session H
  record_terms type m s = record s { terms = elim type [ msg_open ↦ m.terms | _ ↦ s.terms ] }

  unfoldable pub enter : SessionState → ℕ → Session H → Session H
  enter to now s =
      let moved = record s { state = to } in
      if is_conclusion to && not (same_state s.state to)
      then fire_terminal (record moved { concluded_at = some now })
      else moved

  unfoldable pub commit_message :
      String → MessageType → SessionState → Message Num → ℕ → Session H → Session H
  commit_message agent_id type to m now s = enter to now (
      track_behavior agent_id type m
        (record_terms type m (record s { transcript = s.transcript ++ m ∷ [] })))

  unfoldable pub apply_message :
      (String → Option Key)
      → Message Num
      → ℕ
      → Session H
      → Result SessionError SessionState × Session H
  apply_message resolver m now s = elim (admit resolver s m) [
    | err e ↦ (err e, s)
    | ok (agent_id, type, to) ↦
        let s' = commit_message agent_id type to m now s in (ok s'.state, s')
  ]

  unfoldable pub expire : ℕ → Session H → Result SessionError (Unit {0}) × Session H
  expire now s =
      if can_expire s.state
      then (ok tt, fire_terminal (record s { state = expired; concluded_at = some now }))
      else (err invalid_transition, s)

  unfoldable pub make_dormant : Session H → Result SessionError (Unit {0}) × Session H
  make_dormant s =
      if can_sleep s.state
      then (ok tt, record s { state = dormant; reactivatable = true })
      else (err invalid_transition, s)

  unfoldable pub get_behavior : String → Session H → BehaviorRecord Num
  unfolding get new_behavior
  get_behavior agent_id s = elim (get s.behaviors agent_id) [
    | none ↦ new_behavior H.zero
    | some b ↦ b
  ]

  -- Times are in seconds; the difference is cut off at 0 as the code does by `max(0, …)`.
  unfoldable pub duration_seconds : ℕ → Session H → ℕ
  duration_seconds now s = elim s.concluded_at [
    | none ↦ now - s.created_at
    | some end_time ↦ end_time - s.created_at
  ]
