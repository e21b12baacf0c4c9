-- ===== src/Closure/Profiles.antt =====
-- `evaluate_predicate` of concordia/cmpc/predicate.py, which chooses the profile and lets no
-- exception through.
use concordia_protocol.Prelude.{
  ℕ, String, true, false, Option, none, some, List, [], str_eq, if◌then◌else◌, Result, ok, err,
}
use concordia_protocol.Closure.{Value, text, Host, PredicateResult}
use concordia_protocol.Closure.Language.{evaluate_closure_language_v1}
use concordia_protocol.Closure.Bilateral.{
  Failure, malformed_parameters, malformed_expected_participants,
  missing_aggregate_quantity_required, malformed_aggregate_quantity_required,
  malformed_match_tolerance, negative_match_tolerance, malformed_activation_deadline,
  malformed_mandate_check_required, no_commitments, malformed_commitment, missing_committer_did,
  duplicate_participant_commitment, unexpected_participant, missing_expected_participant,
  malformed_commitment_terms, non_numeric_quantity, aggregate_quantity_mismatch,
  past_activation_deadline, missing_mandate_proof, raised, evaluate_bilateral_chain_closure_v1,
}

abbrev pub bilateral_chain_closure_v1 : String
bilateral_chain_closure_v1 = "urn:concordia:predicate-type:bilateral_chain_closure:v1"

abbrev pub closure_language_v1 : String
closure_language_v1 = "urn:concordia:predicate-type:closure_language:v1"

-- The attributes that the evaluation reads; `type_urn` may be missing.
pub record EvaluablePredicate (Num : Type 0) : Type 0 where
  pub type_urn : Option (Value Num)
  pub parameters : Value Num

unfoldable pub reason_text : Failure → String
reason_text malformed_parameters = "malformed_parameters"
reason_text malformed_expected_participants = "malformed_expected_participants"
reason_text missing_aggregate_quantity_required = "missing_aggregate_quantity_required"
reason_text malformed_aggregate_quantity_required = "malformed_aggregate_quantity_required"
reason_text malformed_match_tolerance = "malformed_match_tolerance"
reason_text negative_match_tolerance = "negative_match_tolerance"
reason_text malformed_activation_deadline = "malformed_activation_deadline"
reason_text malformed_mandate_check_required = "malformed_mandate_check_required"
reason_text no_commitments = "no_commitments"
reason_text malformed_commitment = "malformed_commitment"
reason_text missing_committer_did = "missing_committer_did"
reason_text duplicate_participant_commitment = "duplicate_participant_commitment"
reason_text unexpected_participant = "unexpected_participant"
reason_text missing_expected_participant = "missing_expected_participant"
reason_text malformed_commitment_terms = "malformed_commitment_terms"
reason_text non_numeric_quantity = "non_numeric_quantity"
reason_text aggregate_quantity_mismatch = "aggregate_quantity_mismatch"
reason_text past_activation_deadline = "past_activation_deadline"
reason_text missing_mandate_proof = "missing_mandate_proof"
reason_text raised = "malformed_predicate"

unfoldable pub unsatisfied : String → PredicateResult
unsatisfied why = record { satisfied = false; reason = some why }

unfoldable pub bilateral_result : Result Failure (Unit {0}) → PredicateResult
bilateral_result (ok _) = record { satisfied = true; reason = none }
bilateral_result (err why) = unsatisfied (reason_text why)

unfoldable pub language_result : Option PredicateResult → PredicateResult
language_result none = unsatisfied "malformed_predicate"
language_result (some r) = r

unfoldable pub or_no_commitments : {A : Type 0} → Option (List A) → List A
or_no_commitments none = []
or_no_commitments (some cs) = cs

module _ (H : Host) where
  unfoldable pub evaluate_profile :
      String → ℕ → Value H.Num → List (Value H.Num) → ℕ → PredicateResult
  evaluate_profile type_urn limit parameters commitments now =
      if str_eq type_urn bilateral_chain_closure_v1
      then bilateral_result (evaluate_bilateral_chain_closure_v1 H parameters commitments now)
      else if str_eq type_urn closure_language_v1
      then language_result (evaluate_closure_language_v1 H limit parameters commitments)
      else unsatisfied "unknown_predicate_type"

  unfoldable pub evaluate_typed :
      Option (Value H.Num) → ℕ → Value H.Num → List (Value H.Num) → ℕ → PredicateResult
  evaluate_typed (some (text type_urn)) limit parameters commitments now =
      evaluate_profile type_urn limit parameters commitments now
  evaluate_typed type_urn limit parameters commitments now = unsatisfied "malformed_predicate"

  unfoldable pub evaluate_predicate :
      ℕ → EvaluablePredicate H.Num → Option (List (Value H.Num)) → ℕ → PredicateResult
  evaluate_predicate limit predicate commitments now =
      evaluate_typed predicate.type_urn limit predicate.parameters (or_no_commitments commitments)
        now
