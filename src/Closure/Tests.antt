-- ===== src/Closure/Tests.antt =====
-- A bilateral deal and closure expressions over its commitments, and the theorems at them.
use concordia_protocol.Prelude.{
  ℕ, zero, suc, ◌<◌, ◌+◌, ◌-◌, String, ◌≡◌, ◌≢◌, refl, true, false, none, some, List, [], ◌∷◌,
  arith, ltb, leb, ◌==◌, str_eq, if◌then◌else◌, inl, inr, ok, err,
}
use concordia_protocol.Closure.{
  Value, text, number, object, array, Fields, no_fields, field, no_items, item, Host, get_field,
  field_or_null, or_default, then_try,
}
use concordia_protocol.Closure.Comparands.{
  above, read_comparator, number_class, str_class, each, nonempty, typed_comparand, typed_compare,
  equality, ordering, order, same_class, same_key, compare_all, walk_path, resolve_field,
  get_comparand, parse_iso_datetime, get_time, as_object, require_commitment_records, aggregand,
  sum_from, fold_numbers, aggregate_field, evaluate_aggregation,
}
use concordia_protocol.Closure.Language.{
  truth, as_truth, value_of, compare_commitments, evaluate_boolean, evaluate_args, evaluate_left,
  evaluate_comparison, evaluate_amount, truth_of, evaluate_op, evaluate_with, evaluate_node,
  conclude_value, evaluate_expression, evaluate_closure_language_v1, items_list,
}
use concordia_protocol.Closure.Bilateral.{
  named, read_names, read_expected, read_committer, read_committers, subset, check_participants,
  read_deadline, read_flag, floated, finite_number, quantity_of, read_quantity, total_from,
  value_truthy, has_proof, all_proved, Terms, read_required, read_terms, within_tolerance,
  close_bilateral, evaluate_bilateral_chain_closure_v1, past_activation_deadline,
}
use concordia_protocol.Closure.Profiles.{
  EvaluablePredicate, closure_language_v1, bilateral_result, language_result, unsatisfied,
  or_no_commitments, evaluate_profile, evaluate_typed, evaluate_predicate,
}
use concordia_protocol.Closure.Closed.{evaluate_predicate_empty}
use concordia_protocol.Closure.Malformed.{Inside, here, in_or, evaluate_closure_language-Malformed}
use concordia_protocol.Closure.Limit.{depth, fields_depth, evaluate_closure_language_limit}
use concordia_protocol.Closure.Comparisons.{IsCap, evaluate_node_unchecked}
use concordia_protocol.Closure.Agreement.{Agreed, evaluate_bilateral_iff}

-- Natural numbers for Python's, and paths of one segment.
abbrev host : Host
host = record {
  Num = ℕ;
  is_finite = λ n. true;
  eq = λ a b. a == b;
  lt = λ a b. ltb a b;
  le = λ a b. leb a b;
  zero = 0;
  of_ℕ = λ n. n;
  to_float = λ n. some n;
  add = λ a b. a + b;
  sub = λ a b. (a - b) + (b - a);
  abs = λ a. a;
  instant = λ s. if str_eq s "noon" then some 12 else none;
  split = λ s. s ∷ [];
}

abbrev commitment : String → ℕ → Value ℕ
commitment did n = object (
    field "committer_did" (text did) (
      field "commitment_terms" (object (field "quantity" (number n) no_fields))
        (field "price" (number n) no_fields)))

abbrev deal : List (Value ℕ)
deal = commitment "ann" 4 ∷ commitment "bob" 6 ∷ []

abbrev parameters : Fields ℕ
parameters =
    field "expected_participants" (array (item (text "bob") (item (text "ann") no_items))) (
      field "aggregate_quantity_required" (number 10)
        (field "activation_deadline_iso" (text "noon") no_fields))

program : Unit {0}
unfolding get_field field_or_null or_default then_try read_comparator each nonempty typed_comparand
    typed_compare equality ordering order same_class same_key compare_all walk_path resolve_field
    get_comparand parse_iso_datetime get_time as_object require_commitment_records aggregand
    sum_from fold_numbers aggregate_field evaluate_aggregation as_truth value_of compare_commitments
    evaluate_boolean evaluate_args evaluate_left evaluate_comparison evaluate_amount truth_of
    evaluate_op evaluate_with evaluate_node conclude_value evaluate_expression
    evaluate_closure_language_v1 items_list named read_names read_expected read_committer
    read_committers subset check_participants read_deadline read_flag floated finite_number
    quantity_of read_quantity total_from value_truthy has_proof all_proved read_required read_terms
    within_tolerance close_bilateral evaluate_bilateral_chain_closure_v1 bilateral_result
    language_result unsatisfied or_no_commitments evaluate_profile evaluate_typed evaluate_predicate
    depth
program = tt

closed : evaluate_bilateral_chain_closure_v1 host (object parameters) deal 11 ≡ ok tt
unfolding program
closed = refl

late :
    (evaluate_bilateral_chain_closure_v1 host (object parameters) deal 12)
    ≡ err past_activation_deadline
unfolding program
late = refl

evaluate_bilateral_iff_example :
    (t : Terms host) × (read_terms host parameters ≡ ok t) × (deal ≢ []) × Agreed host t deal 11
evaluate_bilateral_iff_example = (evaluate_bilateral_iff host parameters deal 11).0 closed

-- `count >= 2`.
abbrev counting : Fields ℕ
counting = field "op" (text ">=") (
    field "left" (object (field "op" (text "count") no_fields))
      (field "value" (number 2) no_fields))

abbrev counted : EvaluablePredicate ℕ
counted = record {
  type_urn = some (text closure_language_v1);
  parameters = object (field "expression" (object counting) no_fields);
}

counted_deal : (evaluate_predicate host 5 counted (some deal) 0).satisfied ≡ true
unfolding program
counted_deal = refl

no_deal : or_no_commitments {A = Value ℕ} none ≡ []
unfolding program
no_deal = refl

evaluate_predicate_empty_example : (evaluate_predicate host 5 counted none 0).satisfied ≡ false
evaluate_predicate_empty_example = evaluate_predicate_empty host 5 counted none 0 no_deal

abbrev nonsense : Fields ℕ
nonsense = field "op" (text "xor") no_fields

abbrev either : Fields ℕ
either =
    field "op" (text "or")
      (field "args" (array (item (object counting) (item (object nonsense) no_items))) no_fields)

nonsense_malformed : (limit : ℕ) → evaluate_node host deal limit nonsense ≡ none
unfolding program
nonsense_malformed zero = refl
nonsense_malformed (suc limit) = refl

nonsense-Inside : Inside host nonsense either
unfolding program
nonsense-Inside =
    in_or either nonsense (item (object counting) (item (object nonsense) no_items)) refl refl
      (inr (inl refl)) here

either_expressed :
    get_field (field "expression" (object either) no_fields) "expression" ≡ some (object either)
unfolding program
either_expressed = refl

evaluate_closure_language-Malformed_example :
    language_result (
      evaluate_closure_language_v1 host 9
        (object (field "expression" (object either) no_fields))
        deal)
    ≡ unsatisfied "malformed_predicate"
evaluate_closure_language-Malformed_example =
    evaluate_closure_language-Malformed host deal 9 (field "expression" (object either) no_fields)
      nonsense either either_expressed nonsense-Inside nonsense_malformed

shallow : fields_depth (field "expression" (object counting) no_fields) < 5
unfolding program
shallow = omega arith

evaluate_closure_language_limit_example :
    evaluate_closure_language_v1 host 5
      (object (field "expression" (object counting) no_fields))
      deal
    ≡ evaluate_closure_language_v1 host 900
        (object (field "expression" (object counting) no_fields))
        deal
evaluate_closure_language_limit_example =
    evaluate_closure_language_limit host deal 5 900 (field "expression" (object counting) no_fields)
      shallow (omega (arith, shallow))

priced : compare_commitments host above (number_class 3) (some (text "price")) deal ≡ some true
unfolding program
priced = refl

abbrev over : Fields ℕ
over = field "op" (text ">") (field "field" (text "price") (field "value" (number 9) no_fields))

abbrev cap : Fields ℕ
cap = field "op" (text "not") (field "arg" (object over) no_fields)

abbrev worded : Value ℕ
worded = object (field "price" (text "99") no_fields)

cap-IsCap : IsCap host 0 "price" 9 4 "99" cap over
unfolding program
cap-IsCap = record {
  negates = refl;
  argument = refl;
  compares = refl;
  literal = refl;
  is_finite = refl;
  no_left = refl;
  names_field = refl;
}

first_priced : get_comparand host "price" (commitment "ann" 4) ≡ some (number_class 4)
unfolding program
first_priced = refl

second_worded : get_comparand host "price" worded ≡ some (str_class "99")
unfolding program
second_worded = refl

evaluate_node_unchecked_example :
    (evaluate_node host (commitment "ann" 4 ∷ worded ∷ []) 2 cap ≡ some (truth true))
    × (evaluate_node host (worded ∷ commitment "ann" 4 ∷ []) 2 cap ≡ none)
evaluate_node_unchecked_example =
    evaluate_node_unchecked host 0 "price" 9 4 "99" cap over (commitment "ann" 4) worded cap-IsCap
      first_priced refl second_worded
