-- ===== src/Session/Admission.antt =====
-- When `apply_message` of concordia/session.py accepts a message, and what it does otherwise.
use concordia_protocol.Prelude.{
  ℕ, ◌≤◌, ◌<◌, String, ◌≡◌, refl, ap, not, ◌&&◌, guard, ◌>>=◌, ◌>>◌, ◌⊎◌, inl, inr, Bool, true,
  false, ◌↔◌, Option, none, some, arith, leb, eq_iff, str_eq, Option-cases, Result, ok, err,
}
use concordia_protocol.Types.{
  SessionState, MessageType, type_value, type_of_value, type_of_value_iff, type_of_value-type_value,
}
use concordia_protocol.Session.Diagram.{Edge, Edge-transitions, transitions-Edge}
use concordia_protocol.Message.{Host, Message, eq_hash}
use concordia_protocol.Session.{
  Session, SessionError, max_rounds_exceeded, is_round, tip_hash, present, known, authenticate,
  absent_or_eq, read_type, next_state, admit, enter, fire_terminal, commit_message, apply_message,
}

-- The "type" of the message is one that passes the test.
unfoldable pub message_is : {N : Type 0} → (MessageType → Bool) → Message N → Bool
message_is p m = elim m.type [
  | none ↦ false
  | some value ↦ elim (type_of_value value) [ none ↦ false | some t ↦ p t ]
]

-- What the signature, binding and chain rules ask of a message of the type `type` by `agent_id`.
pub record IsCredible (H : Host) (resolver : String → Option H.Key) (s : Session H)
    (m : Message H.Num) (agent_id : String) (type : MessageType) : Type 0 where
  pub sender : m.agent_id ≡ some agent_id
  pub sender_named : str_eq agent_id "" ≡ false
  pub signature : String
  pub signed : m.signature ≡ some signature
  pub signature_given : str_eq signature "" ≡ false
  pub key : H.Key
  pub resolved : resolver agent_id ≡ some key
  pub verified : H.verify_signature m signature key ≡ true
  pub bound : (m.session_id ≡ none) ⊎ (m.session_id ≡ some s.session_id)
  pub chained : (m.prev_hash ≡ none) ⊎ (m.prev_hash ≡ some (tip_hash H s.transcript))
  pub typed : m.type ≡ some (type_value type)

-- What the code asks besides: an edge of its diagram, and a round left (§9.5).
pub record IsAdmissible (H : Host) (resolver : String → Option H.Key) (s : Session H)
    (m : Message H.Num) (agent_id : String) (type : MessageType) (to : SessionState) : Type 0 where
  pub credible : IsCredible H resolver s m agent_id type
  pub open credible use *
  pub edge : Edge s.state type to
  pub room : is_round type ≡ true → s.round_count < s.timing.max_rounds

pub IsCredible-message_is :
    (H : Host) (resolver : String → Option H.Key) (s : Session H) (m : Message H.Num) {a : String}
    {t : MessageType} (p : MessageType → Bool)
    → IsCredible H resolver s m a t
    → message_is p m ≡ p t
unfolding message_is
IsCredible-message_is H resolver s m {a} {t} p h =
    ground (arith, h.typed, type_of_value-type_value t)

module _ (H : Host) where
  present_ok :
      (o : Option String) (e : SessionError) (x : String)
      → present H o e ≡ ok x
      → (o ≡ some x) × (str_eq x "" ≡ false)
  unfolding present
  present_ok o e x h = ground arith

  known_ok : (o : Option H.Key) (k : H.Key) → known H o ≡ ok k → o ≡ some k
  unfolding known
  known_ok none k h = cc
  known_ok (some j) k h = cc

  absent_or_eq_ok :
      (o : Option String) (x : String) → absent_or_eq H o x ≡ true → (o ≡ none) ⊎ (o ≡ some x)
  unfolding absent_or_eq eq_hash
  absent_or_eq_ok none x h = inl refl
  absent_or_eq_ok (some y) x h = inr (ap some ((eq_iff y x).0 h))

  absent_or_eq_of :
      (o : Option String) (x : String) → (o ≡ none) ⊎ (o ≡ some x) → absent_or_eq H o x ≡ true
  unfolding absent_or_eq eq_hash
  absent_or_eq_of none x h = refl
  absent_or_eq_of (some y) x (inl e) = cc
  absent_or_eq_of (some y) x (inr e) = (eq_iff y x).1 (cc)

  read_type_ok :
      (o : Option String) (t : MessageType) → read_type H o ≡ ok t → o ≡ some (type_value t)
  unfolding read_type
  read_type_ok none t h = cc
  read_type_ok (some y) t h = ap some ((type_of_value_iff y t).0 (ground arith))

  next_state_ok :
      (s : SessionState) (t : MessageType) (u : SessionState) → next_state H s t ≡ ok u → Edge s t u
  unfolding next_state
  next_state_ok s t u h = transitions-Edge s t u (ground arith)

  guard_ok : (b : Bool) (e : SessionError) → guard b e ≡ ok tt → b ≡ true
  guard_ok b e h = ground arith

  module _ (resolver : String → Option H.Key) (s : Session H) (m : Message H.Num) where
    authenticate_ok :
        (a : String)
        → authenticate H resolver m ≡ ok a
        → (sig : String) × (key : H.Key) × (m.agent_id ≡ some a)
          × (str_eq a "" ≡ false)
          × (m.signature ≡ some sig)
          × (str_eq sig "" ≡ false)
          × (resolver a ≡ some key)
          × (H.verify_signature m sig key ≡ true)
    unfolding authenticate present known
    authenticate_ok a h = elim (Option-cases m.signature) [
      | inl e ↦ absurd (ground arith)
      | inr (sig, e) ↦ elim (Option-cases (resolver a)) [
        | inl e' ↦ absurd (ground arith)
        | inr (key, e') ↦ (sig, key, ground arith, ground arith, e, ground arith, e', ground arith)
      ]
    ]

    -- The steps after the signature.
    admit_ok :
        (a : String) (t : MessageType) (u : SessionState)
        → admit H resolver s m ≡ ok (a, t, u)
        → (authenticate H resolver m ≡ ok a)
          × (absent_or_eq H m.session_id s.session_id ≡ true)
          × (absent_or_eq H m.prev_hash (tip_hash H s.transcript) ≡ true)
          × (read_type H m.type ≡ ok t)
          × (next_state H s.state t ≡ ok u)
          × ((is_round t && leb s.timing.max_rounds s.round_count) ≡ false)
    unfolding admit
    admit_ok a t u h =
        (ground arith, ground arith, ground arith, ground arith, ground arith, ground arith)

    pub admit-IsAdmissible :
        (a : String) (t : MessageType) (u : SessionState)
        → admit H resolver s m ≡ ok (a, t, u)
        → IsAdmissible H resolver s m a t u
    admit-IsAdmissible a t u h =
        let (signer, bound, chained, typed, moved, room) = admit_ok a t u h in
        let (sig, key, sender, named, signed, given, resolved, verified) =
          authenticate_ok a signer in
        record {
          credible = record {
            sender = sender;
            sender_named = named;
            signature = sig;
            signed = signed;
            signature_given = given;
            key = key;
            resolved = resolved;
            verified = verified;
            bound = absent_or_eq_ok m.session_id s.session_id bound;
            chained = absent_or_eq_ok m.prev_hash (tip_hash H s.transcript) chained;
            typed = read_type_ok m.type t typed;
          };
          edge = next_state_ok s.state t u moved;
          room = λ r. ground arith;
        }

    IsCredible-authenticate :
        {a : String} {t : MessageType}
        → IsCredible H resolver s m a t
        → authenticate H resolver m ≡ ok a
    unfolding authenticate present known
    IsCredible-authenticate h = ground arith

    -- A credible message reaches the table and the round cap.
    IsCredible-admit :
        {a : String} {t : MessageType}
        → IsCredible H resolver s m a t
        → admit H resolver s m ≡ (do
          u ← next_state H s.state t
          guard (not (is_round t && leb s.timing.max_rounds s.round_count)) max_rounds_exceeded
          ok (a, t, u))
    unfolding admit read_type
    IsCredible-admit {a} {t} h = ground (
      arith,
      IsCredible-authenticate h,
      absent_or_eq_of m.session_id s.session_id h.bound,
      absent_or_eq_of m.prev_hash (tip_hash H s.transcript) h.chained,
      type_of_value-type_value t,
      h.typed,
    )

    pub IsAdmissible-admit :
        {a : String} {t : MessageType} {u : SessionState}
        → IsAdmissible H resolver s m a t u
        → admit H resolver s m ≡ ok (a, t, u)
    unfolding next_state
    IsAdmissible-admit h =
        ground (arith, IsCredible-admit h.credible, Edge-transitions h.edge, h.room)

    commit_message_state :
        (a : String) (t : MessageType) (to : SessionState) (now : ℕ)
        → (commit_message H a t to m now s).state ≡ to
    unfolding commit_message enter fire_terminal
    commit_message_state a t to now = ground arith

    -- A message is accepted into the state `to` exactly when some sender and type make it
    -- admissible: its sender and signature are given and the signature verifies under the
    -- sender's resolved key, its session and predecessor, where given, are this session and its
    -- last message, its type has an edge of the diagram to `to`, and an offer or a counter finds
    -- a round left. The edges are the rules of SPEC.md §5.2 without their parties, and four more:
    -- the sender need not be a party, and one accept leads to AGREED.
    pub apply_message_iff :
        (to : SessionState) (now : ℕ)
        → ((apply_message H resolver m now s).0 ≡ ok to) ↔ (
            (agent_id : String) × (type : MessageType) × IsAdmissible H resolver s m agent_id type
              to)
    unfolding apply_message
    apply_message_iff to now = (
      accepted (admit H resolver s m) refl,
      λ (a, t, h).
          rw (IsAdmissible-admit h, apply_message) (ap ok (commit_message_state a t to now)),
    )
      where
        accepted :
            (r : Result SessionError (String × MessageType × SessionState))
            → admit H resolver s m ≡ r
            → (apply_message H resolver m now s).0 ≡ ok to
            → (agent_id : String) × (type : MessageType) × IsAdmissible H resolver s m agent_id type
                to
        accepted (err e) p q = cc
        accepted (ok (a, t, u)) p q =
            let same : u ≡ to = ground (arith, commit_message_state a t u now) in
            (a, t, admit-IsAdmissible a t to (cc))

    -- A message that is refused leaves the session as it was.
    pub apply_message_err :
        (now : ℕ) {e : SessionError}
        → (apply_message H resolver m now s).0 ≡ err e
        → (apply_message H resolver m now s).1 ≡ s
    unfolding apply_message
    apply_message_err now h = ground arith

    -- At the round cap a credible offer or counter that the diagram allows is refused with the
    -- error for the cap.
    pub apply_message_capped :
        (now : ℕ) {a : String} {t : MessageType} {u : SessionState}
        → IsCredible H resolver s m a t
        → Edge s.state t u
        → is_round t ≡ true
        → s.timing.max_rounds ≤ s.round_count
        → apply_message H resolver m now s ≡ (err max_rounds_exceeded, s)
    unfolding apply_message next_state
    apply_message_capped now h e r full =
        let refused : admit H resolver s m ≡ err max_rounds_exceeded =
          ground (arith, IsCredible-admit h, Edge-transitions e) in
        ground arith
