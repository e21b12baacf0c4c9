-- ===== src/ChainSession.antt =====
-- concordia/cmpc/chain_session.py: the bilateral chain session and its transition records. The
-- SHA-256 of a record's canonical JSON is an argument; times are instants on one clock.
pub mod Moves
pub mod Transcript
pub mod Runs
pub mod Seal
mod Tests
use concordia_protocol.Prelude.{
  ℕ, String, Bool, true, false, not, ◌&&◌, ◌||◌, Option, none, some, List, [], ◌∷◌, ◌++◌, ltb, leb,
  ◌==◌, str_eq, if◌then◌else◌, is_some, any, length, last?, Result, ok, err, ◌>>=◌, ◌>>◌, guard,
}

-- `opened` is the state OPEN.
pub data ChainState : Type 0 where
  proposed opened activated dissolved expired : ChainState

pub data ChainError : Type 0 where
  illegal_transition commitments_missing proof_missing past_deadline unwind_missing before_deadline
        proof_present :
      ChainError

unfoldable pub same_state : ChainState → ChainState → Bool
same_state proposed proposed = true
same_state opened opened = true
same_state activated activated = true
same_state dissolved dissolved = true
same_state expired expired = true
same_state _ _ = false

unfoldable pub legal_transitions : ChainState → List ChainState
legal_transitions proposed = opened ∷ []
legal_transitions opened = activated ∷ dissolved ∷ expired ∷ []
legal_transitions _ = []

-- The evidence is its canonical JSON.
pub record TransitionRecord : Type 0 where
  pub from_state : ChainState
  pub to_state : ChainState
  pub transitioned_at : ℕ
  pub evidence : Option String
  pub prev_transition_hash : Option String
  pub transition_hash : Option String

-- SHA-256 over the canonical JSON of the fields but the hash.
abbrev pub Digest : Type 0
Digest = ChainState → ChainState → ℕ → Option String → Option String → String

unfoldable pub compute_hash : Digest → TransitionRecord → String
compute_hash digest r =
    digest r.from_state r.to_state r.transitioned_at r.evidence r.prev_transition_hash

pub record ChainSession : Type 0 where
  pub chain_session_id : String
  pub participants : List String
  pub closure_predicate_ref : String
  pub state : ChainState
  pub created_at : ℕ
  pub activation_deadline : ℕ
  pub activated_at : Option ℕ
  pub dissolved_at : Option ℕ
  pub commitments : List String
  pub unwind_record_id : Option String
  pub activation_proof_id : Option String
  pub transitions : List TransitionRecord

-- `_validate_transition_preconditions`
unfoldable pub validate_preconditions : ChainSession → ChainState → ℕ → Result ChainError (Unit {0})
validate_preconditions s new_state now = do
  guard
      (not (same_state s.state proposed && same_state new_state opened)
        || (length s.commitments == length s.participants))
      commitments_missing
  guard
      (not (same_state s.state opened && same_state new_state activated)
        || is_some s.activation_proof_id)
      proof_missing
  guard
      (not (same_state s.state opened && same_state new_state activated)
        || not (leb s.activation_deadline now))
      past_deadline
  guard
      (not (same_state s.state opened && same_state new_state dissolved)
        || is_some s.unwind_record_id)
      unwind_missing
  guard
      (not (same_state s.state opened && same_state new_state expired)
        || not (ltb now s.activation_deadline))
      before_deadline
  guard
      (not (same_state s.state opened && same_state new_state expired)
        || not (is_some s.activation_proof_id))
      proof_present

-- `self.transitions[-1].transition_hash if self.transitions else None`
unfoldable pub last_hash : List TransitionRecord → Option String
last_hash rs = elim (last? rs) [ none ↦ none | some r ↦ r.transition_hash ]

unfoldable pub stamp : ChainState → ℕ → ChainSession → ChainSession
stamp activated now s = record s { activated_at = some now }
stamp dissolved now s = record s { dissolved_at = some now }
stamp expired now s = record s { dissolved_at = some now }
stamp _ now s = s

-- `{"reason": "activation_timeout"}`, canonical.
abbrev pub timeout_evidence : Option String
timeout_evidence = some "{\"reason\":\"activation_timeout\"}"

module _ (digest : Digest) where
  unfoldable pub new_record : ChainSession → ChainState → Option String → ℕ → TransitionRecord
  new_record s new_state evidence now =
      let prev = last_hash s.transitions in
      record {
        from_state = s.state;
        to_state = new_state;
        transitioned_at = now;
        evidence = evidence;
        prev_transition_hash = prev;
        transition_hash = some (digest s.state new_state now evidence prev);
      }

  unfoldable pub move : ChainSession → ChainState → Option String → ℕ → ChainSession
  move s new_state evidence now = stamp new_state now (record s {
    transitions = s.transitions ++ new_record s new_state evidence now ∷ [];
    state = new_state;
  })

  unfoldable pub checks : ChainSession → ChainState → ℕ → Result ChainError (Unit {0})
  checks s new_state now = do
    guard (any (same_state new_state) (legal_transitions s.state)) illegal_transition
    validate_preconditions s new_state now

  unfoldable pub transition_to :
      ChainState → Option String → ℕ → ChainSession → Result ChainError (Unit {0}) × ChainSession
  transition_to new_state evidence now s = elim (checks s new_state now) [
    | err e ↦ (err e, s)
    | ok _ ↦ (ok tt, move s new_state evidence now)
  ]

  unfoldable pub expire_due_to_timeout :
      ℕ → ChainSession → Result ChainError (Unit {0}) × ChainSession
  expire_due_to_timeout = transition_to expired timeout_evidence

  unfoldable pub eq_option : Option String → Option String → Bool
  eq_option none none = true
  eq_option (some a) (some b) = str_eq a b
  eq_option _ _ = false

  -- The loop of `verify_transcript`.
  unfoldable pub verify_from : Option String → List TransitionRecord → Bool
  verify_from prev [] = true
  verify_from prev (r ∷ rs) =
      let rest = verify_from r.transition_hash rs in
      if not (eq_option r.prev_transition_hash prev)
      then false
      else if not (eq_option r.transition_hash (some (compute_hash digest r)))
      then false
      else rest

  unfoldable pub verify_transcript : ChainSession → Bool
  verify_transcript s = verify_from none s.transitions
