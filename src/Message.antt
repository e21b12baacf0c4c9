-- ===== src/Message.antt =====
-- concordia/message.py: the message envelope and its hash chain, and the services of the host:
-- floats, SHA-256 over the canonical JSON, and the signature check of concordia/signing.py.
pub mod Chain
use concordia_protocol.Prelude.{
  ℕ, String, ◌≡◌, Bool, true, false, Option, none, some, List, [], ◌∷◌, str_eq, if◌then◌else◌,
}
use concordia_protocol.Prelude.Dict.{Dict}

-- The `value` of an offered term: a number, a `bool` (an `int` in Python), or anything else.
pub data TermValue (N : Type 0) : Type 0 where
  num : N → TermValue N
  flag : Bool → TermValue N
  other : String → TermValue N

-- A term space: the identifier of each term, and its "value" if it has one.
abbrev pub Terms : Type 0 → Type 0
Terms N = Dict (Option (TermValue N))

-- The envelope of a message whose body is an object with terms that are objects: on others the
-- session may raise. An absent key is `none`; an absent "from" or "body" is one without the key read
-- from it. `payload` is the canonical JSON of all keys that the session does not read.
pub record Message (N : Type 0) : Type 0 where
  pub agent_id : Option String
  pub signature : Option String
  pub session_id : Option String
  pub prev_hash : Option String
  pub type : Option String
  pub terms : Option (Terms N)
  pub reasoning : Option String
  pub payload : String

pub record Host : Type 1 where
  pub Num : Type 0
  pub zero : Num
  pub of_ℕ : ℕ → Num
  pub of_bool : Bool → Num
  pub is_zero : Num → Bool
  pub is_pos : Num → Bool
  pub abs : Num → Num
  pub add : Num → Num → Num
  pub sub : Num → Num → Num
  pub mul : Num → Num → Num
  pub div : Num → Num → Num
  pub sum : List Num → Num
  pub Key : Type 0
  pub compute_hash : Message Num → String
  pub verify_signature : Message Num → String → Key → Bool

abbrev pub genesis_hash : String
genesis_hash = "sha256:0000000000000000000000000000000000000000000000000000000000000000"

-- `d.get("prev_hash") == h`, where a missing key is `None`.
unfoldable pub eq_hash : Option String → String → Bool
eq_hash none h = false
eq_hash (some g) h = str_eq g h

module _ (H : Host) where
  open H use {Num, compute_hash}

  -- The loop of `validate_chain` from the second message on.
  unfoldable pub links : Message Num → List (Message Num) → Bool
  unfolding eq_hash
  links prev [] = true
  links prev (m ∷ ms) =
      let rest = links m ms in if eq_hash m.prev_hash (compute_hash prev) then rest else false

  unfoldable pub validate_chain : List (Message Num) → Bool
  unfolding links eq_hash
  validate_chain [] = true
  validate_chain (m ∷ ms) = if eq_hash m.prev_hash genesis_hash then links m ms else false
