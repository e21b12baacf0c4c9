-- ===== src/Mandate.antt =====
-- concordia/models/mandate.py and the data of concordia/mandate.py: mandates, their dictionary form,
-- and the schema of a delegation's restriction. The texts of errors and warnings are left out; a
-- mandate is an object of the class, not a dictionary.
pub mod Endpoint
pub mod Verify
pub mod Chain
pub mod Granted
pub mod Windows
pub mod Authority
pub mod Narrowing
pub mod Fetches
mod Tests
use concordia_protocol.Prelude.{
  ℕ, String, Bool, true, false, not, ◌&&◌, ◌||◌, Option, none, some, List, [], ◌∷◌, ◌++◌, map,
  str_eq, str_truthy, if◌then◌else◌, mem_str,
}
use concordia_protocol.Closure.{
  Value, text, number, boolean, null, moment, object, array, strange, Fields, no_fields, field,
  Items, no_items, item, get_field,
}

pub data MandateStatus : Type 0 where
  active expired revoked suspended : MandateStatus

unfoldable pub status_value : MandateStatus → String
status_value active = "active"
status_value expired = "expired"
status_value revoked = "revoked"
status_value suspended = "suspended"

pub data TemporalMode : Type 0 where
  sequence windowed state_bound : TemporalMode

unfoldable pub mode_value : TemporalMode → String
mode_value sequence = "sequence"
mode_value windowed = "windowed"
mode_value state_bound = "state_bound"

pub record ValidityWindow (Num : Type 0) : Type 0 where
  pub mode : TemporalMode
  pub not_before : Option String
  pub not_after : Option String
  pub sequence_key : Option String
  pub state_condition : Option String
  pub max_uses : Option Num

pub record DelegationLink (Num : Type 0) : Type 0 where
  pub delegator : String
  pub delegate : String
  pub scope_restriction : Option (Fields Num)
  pub delegated_at : String
  pub signature : String
  pub algorithm : String

pub record Mandate (Num : Type 0) : Type 0 where
  pub mandate_id : String
  pub issuer : String
  pub subject : String
  pub issued_at : String
  pub validity : Option (ValidityWindow Num)
  pub constraints : Fields Num
  pub delegation_chain : List (DelegationLink Num)
  pub revocation_endpoint : Option String
  pub revoked_at : Option String
  pub metadata : Fields Num
  pub signature : String
  pub algorithm : String
  pub status : MandateStatus

-- `if value is not None: d[key] = value`, before the keys that come after.
unfoldable pub field_if : {Num : Type 0} → String → Option (Value Num) → Fields Num → Fields Num
field_if key none later = later
field_if key (some v) later = field key v later

unfoldable pub text_option : {Num : Type 0} → Option String → Option (Value Num)
text_option none = none
text_option (some s) = some (text s)

unfoldable pub object_option : {Num : Type 0} → Option (Fields Num) → Option (Value Num)
object_option none = none
object_option (some fs) = some (object fs)

-- A dictionary, a text or a list that is not empty.
unfoldable pub nonempty_object : {Num : Type 0} → Fields Num → Option (Value Num)
nonempty_object no_fields = none
nonempty_object fs = some (object fs)

unfoldable pub nonempty_text : {Num : Type 0} → String → Option (Value Num)
nonempty_text s = if str_truthy s then some (text s) else none

unfoldable pub nonempty_array : {Num : Type 0} → Items Num → Option (Value Num)
nonempty_array no_items = none
nonempty_array vs = some (array vs)

unfoldable pub number_option : {Num : Type 0} → Option Num → Option (Value Num)
number_option none = none
number_option (some n) = some (number n)

unfoldable pub link_to_dict : {Num : Type 0} → DelegationLink Num → Fields Num
link_to_dict l = field "delegator" (text l.delegator) (
    field "delegate" (text l.delegate) (
      field "delegated_at" (text l.delegated_at) (
        field "signature" (text l.signature) (
          field "algorithm" (text l.algorithm)
            (field_if "scope_restriction" (object_option l.scope_restriction) no_fields)))))

unfoldable pub links_to_dicts : {Num : Type 0} → List (DelegationLink Num) → Items Num
links_to_dicts [] = no_items
links_to_dicts (l ∷ ls) = item (object (link_to_dict l)) (links_to_dicts ls)

unfoldable pub validity_to_dict : {Num : Type 0} → ValidityWindow Num → Fields Num
validity_to_dict v = field "mode" (text (mode_value v.mode)) (
    field_if "not_before" (text_option v.not_before) (
      field_if "not_after" (text_option v.not_after) (
        field_if "sequence_key" (text_option v.sequence_key) (
          field_if "state_condition" (text_option v.state_condition)
            (field_if "max_uses" (number_option v.max_uses) no_fields)))))

unfoldable pub validity_option : {Num : Type 0} → Option (ValidityWindow Num) → Option (Value Num)
validity_option none = none
validity_option (some v) = some (object (validity_to_dict v))

unfoldable pub mandate_to_dict : {Num : Type 0} → Mandate Num → Fields Num
mandate_to_dict m = field "mandate_id" (text m.mandate_id) (
    field "issuer" (text m.issuer) (
      field "subject" (text m.subject) (
        field "issued_at" (text m.issued_at) (
          field "algorithm" (text m.algorithm) (
            field "status" (text (status_value m.status)) (
              field_if "validity" (validity_option m.validity) (
                field_if "constraints" (nonempty_object m.constraints) (
                  field_if "delegation_chain" (nonempty_array (links_to_dicts m.delegation_chain)) (
                    field_if "revocation_endpoint" (text_option m.revocation_endpoint) (
                      field_if "revoked_at" (text_option m.revoked_at) (
                        field_if "metadata" (nonempty_object m.metadata)
                          (field_if "signature" (nonempty_text m.signature) no_fields))))))))))))

-- A dictionary without a key.
unfoldable pub drop_field : {Num : Type 0} → String → Fields Num → Fields Num
drop_field k no_fields = no_fields
drop_field k (field j v fs) =
    let later = drop_field k fs in if str_eq j k then later else field j v later

unfoldable pub json_schema_keywords : List String
json_schema_keywords =
    "$schema" ∷ "$id" ∷ "$ref" ∷ "$defs" ∷ "type" ∷ "properties" ∷ "required"
    ∷ "additionalProperties" ∷ "items" ∷ "allOf" ∷ "anyOf" ∷ "oneOf" ∷ "not" ∷ "enum" ∷ "const"
    ∷ "minimum" ∷ "maximum" ∷ "exclusiveMinimum" ∷ "exclusiveMaximum" ∷ "minLength" ∷ "maxLength"
    ∷ "pattern" ∷ "minItems" ∷ "maxItems" ∷ "format" ∷ []

unfoldable pub has_keyword : {Num : Type 0} → Fields Num → Bool
has_keyword no_fields = false
has_keyword (field k v fs) = mem_str k json_schema_keywords || has_keyword fs

-- The schema of the shorthand.
unfoldable pub max_spend_schema : {Num : Type 0} → Num → Fields Num
max_spend_schema n = field "type" (text "object") (
    field "properties"
      (object (
        field "max_spend"
          (object (field "type" (text "number") (field "maximum" (number n) no_fields))) no_fields))
      no_fields)

unfoldable pub shorthand : {Num : Type 0} → Fields Num → Option (Fields Num)
shorthand (field k (number n) no_fields) =
    if str_eq k "max_spend" then some (max_spend_schema n) else none
shorthand fs = none

-- A list of schemas as the items of "allOf".
unfoldable pub schema_items : {Num : Type 0} → List (Fields Num) → Items Num
schema_items [] = no_items
schema_items (s ∷ ss) = item (object s) (schema_items ss)

unfoldable pub all_of : {Num : Type 0} → Fields Num → List (Fields Num) → Fields Num
all_of constraints [] = constraints
all_of constraints (s ∷ ss) = field "allOf" (array (schema_items (constraints ∷ s ∷ ss))) no_fields

-- The schemas of one link, and with those of the later links; an error of any is `none`.
unfoldable pub listed_schema : {Num : Type 0} → Option (Fields Num) → Option (List (Fields Num))
listed_schema none = none
listed_schema (some s) = some (s ∷ [])

unfoldable pub join_schemas :
    {Num : Type 0}
    → Option (List (Fields Num))
    → Option (List (Fields Num))
    → Option (List (Fields Num))
join_schemas none later = none
join_schemas (some ss) none = none
join_schemas (some ss) (some more) = some (ss ++ more)

unfoldable pub composed :
    {Num : Type 0} → Fields Num → Option (List (Fields Num)) → Option (Fields Num)
composed constraints none = none
composed constraints (some ss) = some (all_of constraints ss)

module _ {Num : Type 0} (check_schema : Fields Num → Bool) where
  -- `_scope_restriction_to_schema`, whose errors are `none`.
  unfoldable pub scope_restriction_to_schema : Fields Num → Option (Fields Num)
  scope_restriction_to_schema fs =
      if has_keyword fs then (if check_schema fs then some fs else none) else shorthand fs

  unfoldable pub restriction : Option (Fields Num) → Option (List (Fields Num))
  restriction none = some []
  restriction (some fs) = listed_schema (scope_restriction_to_schema fs)

  -- The loop of `compose_effective_constraints`.
  unfoldable pub compose_schemas : List (DelegationLink Num) → Option (List (Fields Num))
  compose_schemas [] = some []
  compose_schemas (l ∷ ls) = join_schemas (restriction l.scope_restriction) (compose_schemas ls)

  unfoldable pub compose_effective_constraints :
      Fields Num → List (DelegationLink Num) → Option (Fields Num)
  compose_effective_constraints constraints chain = composed constraints (compose_schemas chain)
