-- ===== src/Types.antt =====
-- concordia/types.py: the enumerations and records that a negotiation session is made of.
use concordia_protocol.Prelude.{ℕ, String, ◌≡◌, refl, Bool, false, Option, some, ◌↔◌, [], ◌∷◌}
use concordia_protocol.Prelude.Dict.{Dict, get, get-entry}

-- The six states of the lifecycle.
pub data SessionState : Type 0 where
  proposed active agreed rejected expired dormant : SessionState

-- The fourteen message types.
pub data MessageType : Type 0 where
  msg_open accept_session decline_session offer counter accept reject inquire constrain signal
        withdraw propose_mediator resolve commit :
      MessageType

pub data PartyRole : Type 0 where
  initiator responder mediator witness : PartyRole

-- The `value` of each member of the `MessageType` enum.
unfoldable pub type_value : MessageType → String
type_value msg_open = "negotiate.open"
type_value accept_session = "negotiate.accept_session"
type_value decline_session = "negotiate.decline_session"
type_value offer = "negotiate.offer"
type_value counter = "negotiate.counter"
type_value accept = "negotiate.accept"
type_value reject = "negotiate.reject"
type_value inquire = "negotiate.inquire"
type_value constrain = "negotiate.constrain"
type_value signal = "negotiate.signal"
type_value withdraw = "negotiate.withdraw"
type_value propose_mediator = "negotiate.propose_mediator"
type_value resolve = "negotiate.resolve"
type_value commit = "negotiate.commit"

-- The members of the `MessageType` enum by their values.
abbrev type_members : Dict MessageType
type_members =
    ("negotiate.open", msg_open)
    ∷ ("negotiate.accept_session", accept_session)
    ∷ ("negotiate.decline_session", decline_session)
    ∷ ("negotiate.offer", offer)
    ∷ ("negotiate.counter", counter)
    ∷ ("negotiate.accept", accept)
    ∷ ("negotiate.reject", reject)
    ∷ ("negotiate.inquire", inquire)
    ∷ ("negotiate.constrain", constrain)
    ∷ ("negotiate.signal", signal)
    ∷ ("negotiate.withdraw", withdraw)
    ∷ ("negotiate.propose_mediator", propose_mediator)
    ∷ ("negotiate.resolve", resolve)
    ∷ ("negotiate.commit", commit)
    ∷ []

-- `MessageType(s)`: the member with that value, or `none` for the `ValueError`.
unfoldable pub type_of_value : String → Option MessageType
unfolding get
type_of_value s = get type_members s

pub record TimingConfig : Type 0 where
  pub session_ttl : ℕ
  pub offer_ttl : ℕ
  pub max_rounds : ℕ

unfoldable pub default_timing : TimingConfig
default_timing = record { session_ttl = 86400; offer_ttl = 3600; max_rounds = 20 }

-- `N` is the type of the program's floats.
pub record BehaviorRecord (N : Type 0) : Type 0 where
  pub offers_made : ℕ
  pub concessions : ℕ
  pub concession_magnitude : N
  pub signals_shared : ℕ
  pub constraints_declared : ℕ
  pub constraints_violated : ℕ
  pub reasoning_provided : Bool
  pub withdrawal : Bool
  pub response_time_avg_seconds : N

unfoldable pub new_behavior : {N : Type 0} → N → BehaviorRecord N
new_behavior zero = record {
  offers_made = 0;
  concessions = 0;
  concession_magnitude = zero;
  signals_shared = 0;
  constraints_declared = 0;
  constraints_violated = 0;
  reasoning_provided = false;
  withdrawal = false;
  response_time_avg_seconds = zero;
}

pub type_of_value-type_value : (t : MessageType) → type_of_value (type_value t) ≡ some t
unfolding type_of_value type_value
type_of_value-type_value msg_open = refl
type_of_value-type_value _ = refl

type_value-type_of_value :
    (s : String) (t : MessageType) → type_of_value s ≡ some t → s ≡ type_value t
unfolding type_of_value type_value
type_value-type_of_value s t h =
    get-entry (λ (k : String) (v : MessageType). k ≡ type_value v) type_members s t
      (
        refl,
        (
          refl,
          (
            refl,
            (
              refl,
              (refl, (refl, (refl, (refl, (refl, (refl, (refl, (refl, (refl, (refl, tt)))))))))),
            ),
          ),
        ),
      )
      h

-- Parsing a wire value gives the member exactly when the value is the member's.
pub type_of_value_iff :
    (s : String) (t : MessageType) → (type_of_value s ≡ some t) ↔ (s ≡ type_value t)
type_of_value_iff s t = (type_value-type_of_value s t, λ e. rw e (type_of_value-type_value t))
