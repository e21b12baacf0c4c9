-- ===== src/WantRegistry.antt =====
-- concordia/want_registry.py: wants, haves, and the matching of one with the other. Floats and
-- their arithmetic, Python's `==` on JSON values, the functions of `math` and `str.lower` are
-- parameters. Sets of keys are gone through in the order of the want's terms.
pub mod Terms
pub mod Places
pub mod Matching
pub mod Store
pub mod Posting
pub mod Browse
pub mod Caps
pub mod Posted
pub mod Sound
pub mod Prices
mod Tests
use text.Mathlib.Text.{starts_with}
use Prim.Native.String.{◌++◌ as str_append}
use concordia_protocol.Prelude.{
  ℕ, ◌+◌, String, Bool, true, false, ◌||◌, Option, none, some, List, ltb, str_eq, if◌then◌else◌,
}
use concordia_protocol.Prelude.Dict.{Dict}

pub record Numbers : Type 1 where
  pub Num : Type 0
  pub of_ℕ : ℕ → Num
  pub tenths : ℕ → Num
  pub is_zero : Num → Bool
  pub is_pos : Num → Bool
  pub leb_num : Num → Num → Bool
  pub min_num : Num → Num → Num
  pub max_num : Num → Num → Num
  pub add : Num → Num → Num
  pub sub : Num → Num → Num
  pub mul : Num → Num → Num
  pub div : Num → Num → Num
  pub sum : List Num → Num
  pub round_2 : Num → Num
  pub radians : Num → Num
  pub sin : Num → Num
  pub cos : Num → Num
  pub asin : Num → Num
  pub sqrt : Num → Num
  pub lower : String → String

-- A JSON value: null, a number, a text, or anything else by its text.
pub data Value (N : Type 0) : Type 0 where
  null : Value N
  num : N → Value N
  str_value : String → Value N
  other : String → Value N

-- `_is_number`, with the number.
unfoldable pub number : {N : Type 0} → Value N → Option N
number (num n) = some n
number _ = none

-- A term is an object, or another value.
pub data Term (N : Type 0) : Type 0 where
  fields : Dict (Value N) → Term N
  plain : Value N → Term N

pub data Place (N : Type 0) : Type 0 where
  inner : Dict (Value N) → Place N
  value : Value N → Place N

-- A location is an object, or another value.
pub data Location (N : Type 0) : Type 0 where
  object : Dict (Place N) → Location N
  not_object : Value N → Location N

pub record Want (N : Type 0) : Type 0 where
  pub id : String
  pub agent_id : String
  pub category : String
  pub terms : Dict (Term N)
  pub location : Option (Location N)
  pub ttl : ℕ
  pub notify : Bool
  pub metadata : Dict String
  pub created_at : ℕ
  pub expires_at : ℕ

pub record Have (N : Type 0) : Type 0 where
  pub id : String
  pub agent_id : String
  pub category : String
  pub terms : Dict (Term N)
  pub location : Option (Location N)
  pub ttl : ℕ
  pub metadata : Dict String
  pub created_at : ℕ
  pub expires_at : ℕ

-- The object that the overlap has under a term.
pub data Overlap (N : Type 0) : Type 0 where
  range : N → N → Option (Value N) → Overlap N
  meets_minimum : Value N → Overlap N
  unknown_minimum : Option (Value N) → Overlap N
  fuzzy : Value N → Value N → Overlap N
  exact : Value N → Overlap N
  inexact : Value N → Value N → Overlap N
  unrecognised : Dict (Value N) → Dict (Value N) → Overlap N
  distance_km : N → Overlap N

pub record Match (N : Type 0) : Type 0 where
  pub match_id : String
  pub want_id : String
  pub have_id : String
  pub want_agent_id : String
  pub have_agent_id : String
  pub overlap : Dict (Overlap N)
  pub score : N

-- `value.lower()` on what is no text is an AttributeError, and the others are ValueErrors.
pub data WantError : Type 0 where
  attribute_error location_malformed ttl_exceeds_maximum registry_full : WantError

-- `Want.is_expired` and `Have.is_expired`
unfoldable pub is_past : ℕ → ℕ → Bool
is_past expires_at now = ltb expires_at now

unfoldable pub categories_compatible : String → String → Bool
categories_compatible want_cat have_cat =
    if str_eq want_cat have_cat
    then true
    else starts_with want_cat (str_append have_cat ".")
      || starts_with have_cat (str_append want_cat ".")
