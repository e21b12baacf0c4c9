-- ===== src/Mandate/Verify.antt =====
-- The verification of a mandate in concordia/mandate.py: its time, its constraints, its delegation
-- chain, and `verify_mandate`.
use Prim.Native.String.{◌++◌ as str_append}
use concordia_protocol.Prelude.{
  ℕ, String, Bool, true, false, not, ◌&&◌, Option, none, some, List, [], ◌∷◌, ◌++◌, str_eq,
  str_truthy, ltb, is_some, if◌then◌else◌, Result, ok, err, ◌>>=◌,
}
use concordia_protocol.Prelude.Dict.{Dict, get, put}
use concordia_protocol.Closure.{Fields, no_fields}
use concordia_protocol.Mandate.{
  MandateStatus, active, status_value, TemporalMode, sequence, windowed, state_bound,
  ValidityWindow, DelegationLink, Mandate, link_to_dict, mandate_to_dict, drop_field,
  compose_effective_constraints,
}
use concordia_protocol.Mandate.Endpoint.{Net, Raised, type_error, check_revocation}

-- What `datetime.fromisoformat` reads, with "Z" made "+00:00": a time in seconds, or one without a
-- zone, which cannot be compared with the current time.
pub data Stamp : Type 0 where
  aware : ℕ → Stamp
  naive : Stamp

-- Python's numbers and dates, the package jsonschema with the schema of mandates, the check of a
-- signature (a dictionary, the signature, the key and the algorithm), and the network.
pub record Host : Type 1 where
  pub Num : Type 0
  pub PublicKey : Type 0
  pub read_stamp : String → Option Stamp
  pub mandate_schema : Fields Num → Bool
  pub check_schema : Fields Num → Bool
  pub validates : Fields Num → Fields Num → Bool
  pub verify_signature : Fields Num → String → PublicKey → String → Bool
  pub net : Net Num

pub data DelegationError : Type 0 where
  root_mismatch tail_mismatch chain_break no_public_key missing_signature invalid_signature :
      DelegationError

-- The arguments of `verify_mandate`.
pub record Context (H : Host) : Type 0 where
  pub issuer_public_key : H.PublicKey
  pub now : ℕ
  pub sequence_key : Option String
  pub state_active : Option Bool
  pub action : Option (Fields H.Num)
  pub delegation_public_keys : Dict H.PublicKey
  pub check_revocation_status : Bool
  pub require_binding_context : Bool
  pub allow_insecure_revocation_endpoint : Bool

pub record MandateVerificationResult : Type 0 where
  pub valid : Bool
  pub mandate_id : String
  pub issuer : String
  pub subject : String
  pub checks : Dict Bool
  pub failure_reason : Option String

-- An early return of `verify_mandate`, or an exception that leaves it.
pub data Stop : Type 0 where
  returned : MandateVerificationResult → Stop
  raised : Raised → Stop

unfoldable pub noted : String → Bool → MandateVerificationResult → MandateVerificationResult
noted name b r = record r { checks = put r.checks name b }

unfoldable pub because : Option String → MandateVerificationResult → MandateVerificationResult
because why r = record r { failure_reason = why }

-- A check that is noted and, where it fails, ends the verification with a reason.
unfoldable pub finish_check :
    String
    → Result Raised Bool
    → Option String
    → MandateVerificationResult
    → Result Stop MandateVerificationResult
finish_check name (err e) why r = err (raised e)
finish_check name (ok true) why r = ok (noted name true r)
finish_check name (ok false) why r = err (returned (because why (noted name false r)))

unfoldable pub check :
    String
    → Bool
    → Option String
    → MandateVerificationResult
    → Result Stop MandateVerificationResult
check name b why r = finish_check name (ok b) why r

-- `now < nb` and `now > na`.
unfoldable pub between_stamps : ℕ → Option Stamp → Option Stamp → Result Raised Bool
between_stamps now none after = ok false
between_stamps now before none = ok false
between_stamps now (some naive) (some after) = err type_error
between_stamps now (some (aware nb)) (some naive) = if ltb now nb then ok false else err type_error
between_stamps now (some (aware nb)) (some (aware na)) = ok (not (ltb now nb) && not (ltb na now))

unfoldable pub is_active : MandateStatus → Bool
is_active active = true
is_active _ = false

unfoldable pub empty_fields : {Num : Type 0} → Fields Num → Bool
empty_fields no_fields = true
empty_fields fs = false

unfoldable pub same_or_absent : Option String → String → Bool
same_or_absent none key = true
same_or_absent (some given) key = str_eq given key

unfoldable pub true_or_absent : Option Bool → Bool
true_or_absent none = true
true_or_absent (some b) = b

unfoldable pub continues : {Num : Type 0} → Option (DelegationLink Num) → DelegationLink Num → Bool
continues none l = true
continues (some p) l = str_eq l.delegator p.delegate

unfoldable pub error_if : Bool → DelegationError → List DelegationError
error_if b e = if b then e ∷ [] else []

unfoldable pub no_errors : List DelegationError → Bool
no_errors [] = true
no_errors (e ∷ es) = false

-- The result, of an early return too.
unfoldable pub finished :
    Result Stop MandateVerificationResult → Result Raised MandateVerificationResult
finished (ok r) = ok r
finished (err (returned r)) = ok r
finished (err (raised e)) = err e

module _ (H : Host) where
  unfoldable pub in_window : Option String → Option String → ℕ → Result Raised Bool
  in_window (some before) (some after) now =
      between_stamps now (H.read_stamp before) (H.read_stamp after)
  in_window not_before not_after now = ok false

  unfoldable pub in_mode :
      TemporalMode → ValidityWindow H.Num → ℕ → Option String → Option Bool → Result Raised Bool
  in_mode windowed v now given state_active = in_window v.not_before v.not_after now
  in_mode sequence v now given state_active = elim v.sequence_key [
    | none ↦ ok false
    | some key ↦ ok (same_or_absent given key)
  ]
  in_mode state_bound v now given state_active = elim v.state_condition [
    | none ↦ ok false
    | some condition ↦ ok (true_or_absent state_active)
  ]

  unfoldable pub check_temporal_validity :
      ValidityWindow H.Num → ℕ → Option String → Option Bool → Result Raised Bool
  check_temporal_validity v now given state_active = in_mode v.mode v now given state_active

  unfoldable pub permits : Fields H.Num → Option (Fields H.Num) → Bool
  permits constraints none = true
  permits constraints (some action) = H.validates action constraints

  unfoldable pub validate_constraints : Fields H.Num → Option (Fields H.Num) → Bool
  validate_constraints constraints action =
      not (empty_fields constraints) && H.check_schema constraints && permits constraints action

  -- `link_dict.pop("signature", "")` and the check of that signature.
  unfoldable pub signature_errors : DelegationLink H.Num → H.PublicKey → List DelegationError
  signature_errors l key =
      if not (str_truthy l.signature)
      then missing_signature ∷ []
      else error_if
          (not (
            H.verify_signature (drop_field "signature" (link_to_dict l)) l.signature key
              l.algorithm))
          invalid_signature

  -- A round of the loop over the chain, after the link before it.
  unfoldable pub link_errors :
      Option (DelegationLink H.Num) → DelegationLink H.Num → Dict H.PublicKey → List DelegationError
  link_errors before l keys =
      error_if (not (continues before l)) chain_break ++ (elim (get keys l.delegator) [
        | none ↦ no_public_key ∷ []
        | some key ↦ signature_errors l key
      ])

  unfoldable pub chain_errors :
      Option (DelegationLink H.Num)
      → List (DelegationLink H.Num)
      → Dict H.PublicKey
      → List DelegationError
  chain_errors before [] keys = []
  chain_errors before (l ∷ ls) keys = link_errors before l keys ++ chain_errors (some l) ls keys

  unfoldable pub last_delegate : DelegationLink H.Num → List (DelegationLink H.Num) → String
  last_delegate l [] = l.delegate
  last_delegate l (m ∷ ms) = last_delegate m ms

  -- The errors of `verify_delegation_chain`.
  unfoldable pub verify_delegation_chain :
      List (DelegationLink H.Num) → String → String → Dict H.PublicKey → List DelegationError
  verify_delegation_chain [] issuer subject keys = []
  verify_delegation_chain (l ∷ ls) issuer subject keys =
      error_if (not (str_eq l.delegator issuer)) root_mismatch
      ++ error_if (not (str_eq (last_delegate l ls) subject)) tail_mismatch
      ++ chain_errors none (l ∷ ls) keys

  unfoldable pub issuer_signature_valid : Mandate H.Num → H.PublicKey → Bool
  issuer_signature_valid m key =
      str_truthy m.signature
      && H.verify_signature (drop_field "signature" (mandate_to_dict m)) m.signature key m.algorithm

  -- The context that a mode needs and does not have.
  unfoldable pub missing_context : TemporalMode → Context H → Option String
  missing_context sequence c =
      if c.require_binding_context && not (is_some c.sequence_key)
      then some "missing_sequence_context"
      else none
  missing_context state_bound c =
      if c.require_binding_context && not (is_some c.state_active)
      then some "missing_state_context"
      else none
  missing_context windowed c = none

  unfoldable pub check_window :
      ValidityWindow H.Num
      → Context H
      → MandateVerificationResult
      → Result Stop MandateVerificationResult
  check_window v c r = elim (missing_context v.mode c) [
    | some why ↦ check "temporal_validity" false (some why) r
    | none ↦
        finish_check "temporal_validity"
          (check_temporal_validity v c.now c.sequence_key c.state_active) none r
  ]

  unfoldable pub check_validity :
      Option (ValidityWindow H.Num)
      → Context H
      → MandateVerificationResult
      → Result Stop MandateVerificationResult
  check_validity none c r = ok (noted "temporal_validity" true r)
  check_validity (some v) c r = check_window v c r

  unfoldable pub check_action :
      Option (Fields H.Num)
      → Context H
      → MandateVerificationResult
      → Result Stop MandateVerificationResult
  check_action none c r = check "delegation_scope" false (some "unsupported_scope_restriction") r
  check_action (some effective) c r =
      check "constraint_compliance" (validate_constraints effective c.action) none r

  -- Checks 4 and 4b.
  unfoldable pub check_chain :
      List (DelegationLink H.Num)
      → Mandate H.Num
      → Context H
      → MandateVerificationResult
      → Result Stop MandateVerificationResult
  check_chain [] m c r = check_action (some m.constraints) c (noted "delegation_chain" true r)
  check_chain (l ∷ ls) m c r =
      let effective = compose_effective_constraints H.check_schema m.constraints (l ∷ ls) in
      check "delegation_chain"
        (no_errors (verify_delegation_chain (l ∷ ls) m.issuer m.subject c.delegation_public_keys))
        none r
      >>= λ s.
          check "delegation_scope" (is_some effective) (some "unsupported_scope_restriction") s
          >>= λ t. check_action effective c t

  unfoldable pub check_endpoint :
      Option String
      → Mandate H.Num
      → Context H
      → MandateVerificationResult
      → Result Stop MandateVerificationResult
  check_endpoint none m c r = ok (noted "revocation_status" true r)
  check_endpoint (some endpoint) m c r =
      let asked =
        finish_check "revocation_status"
          ((check_revocation H.net m.mandate_id endpoint
            c.allow_insecure_revocation_endpoint).not_revoked)
          none r in
      if str_truthy endpoint && c.check_revocation_status
      then asked
      else ok (noted "revocation_status" true r)

  unfoldable pub new_result : Mandate H.Num → MandateVerificationResult
  new_result m = record {
    valid = false;
    mandate_id = m.mandate_id;
    issuer = m.issuer;
    subject = m.subject;
    checks = [];
    failure_reason = none;
  }

  unfoldable pub run_checks : Mandate H.Num → Context H → Result Stop MandateVerificationResult
  run_checks m c =
      check "schema" (H.mandate_schema (mandate_to_dict m)) none (new_result m) >>= λ r1.
      check "issuer_signature" (issuer_signature_valid m c.issuer_public_key) none r1 >>= λ r2.
      check "lifecycle_status" (is_active m.status)
        (some (str_append "mandate_" (status_value m.status))) r2
      >>= λ r3. check_validity m.validity c r3 >>= λ r4.
          check "constraint_compliance" (validate_constraints m.constraints none) none r4 >>= λ r5.
          check_chain m.delegation_chain m c r5 >>= λ r6.
          check_endpoint m.revocation_endpoint m c r6 >>= λ r7. ok (record r7 { valid = true })

  unfoldable pub verify_mandate :
      Mandate H.Num → Context H → Result Raised MandateVerificationResult
  verify_mandate m c = finished (run_checks m c)
