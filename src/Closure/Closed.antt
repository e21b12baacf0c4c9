-- ===== src/Closure/Closed.antt =====
-- The closure language fails closed: concordia/cmpc/predicate.py.
use concordia_protocol.Prelude.{
  ℕ, zero, suc, String, Bool, true, false, ◌≡◌, refl, inl, inr, Option, none, some, List, [], ◌∷◌,
  arith, str_eq, if◌then◌else◌, Option-cases, Result-cases,
}
use concordia_protocol.Closure.{Value, text, object, array, Fields, Host, get_field, then_try}
use concordia_protocol.Closure.Comparands.{
  Comparator, read_comparator, Comparand, each, nonempty, typed_comparand,
  require_commitment_records, evaluate_aggregation, parse_iso_datetime,
}
use concordia_protocol.Closure.Language.{
  Outcome, compare_commitments, member_fields, evaluate_membership, time_fields, evaluate_time,
  items_list, evaluate_boolean, evaluate_args, evaluate_left, evaluate_comparison, evaluate_amount,
  truth_of, evaluate_op, evaluate_with, evaluate_node, evaluate_expression,
  evaluate_closure_language_v1,
}
use concordia_protocol.Closure.Bilateral.{
  evaluate_bilateral_chain_closure_v1, read_terms, close_bilateral,
}
use concordia_protocol.Closure.Profiles.{
  EvaluablePredicate, bilateral_result, language_result, unsatisfied, or_no_commitments,
  evaluate_profile, evaluate_typed, evaluate_predicate,
}

pub then_try-none :
    {A B : Type 0} (o : Option A) (f : A → Option B) → ((x : A) → f x ≡ none) → then_try o f ≡ none
unfolding then_try
then_try-none none f h = refl
then_try-none (some x) f h = h x

-- Both branches are `none`.
pub if_none :
    {A : Type 0} {x y : Option A} (b : Bool) → x ≡ none → y ≡ none → (if b then x else y) ≡ none
if_none true h k = h
if_none false h k = k

module _ (H : Host) where
  compare_commitments_empty :
      (op : Comparator) (c : Comparand H.Num) (path : Option (Value H.Num))
      → compare_commitments H op c path [] ≡ none
  unfolding compare_commitments nonempty then_try
  compare_commitments_empty op c none = refl
  compare_commitments_empty op c (some (text s)) = refl
  compare_commitments_empty op c (some _) = refl

  member_fields_empty :
      (ls : List (Comparand H.Num)) (path : Option (Value H.Num))
      → member_fields H ls path [] ≡ none
  unfolding member_fields nonempty then_try
  member_fields_empty ls none = refl
  member_fields_empty ls (some (text s)) = refl
  member_fields_empty ls (some _) = refl

  membership_empty :
      (values path : Option (Value H.Num)) → evaluate_membership H values path [] ≡ none
  unfolding evaluate_membership
  membership_empty none path = refl
  membership_empty (some (array vs)) path =
      then_try-none (each (typed_comparand H) (items_list H vs)) _
        (λ ls. then_try-none (nonempty ls) _ (λ ks. member_fields_empty ks path))
  membership_empty (some _) path = refl

  time_fields_empty :
      (before : Bool) (t : ℕ) (path : Option (Value H.Num)) → time_fields H before t path [] ≡ none
  unfolding time_fields nonempty then_try
  time_fields_empty before t none = refl
  time_fields_empty before t (some (text s)) = refl
  time_fields_empty before t (some _) = refl

  time_empty : (before : Bool) (node : Fields H.Num) → evaluate_time H before node [] ≡ none
  unfolding evaluate_time
  time_empty before node = then_try-none (get_field node "value") _ (λ v.
      then_try-none (parse_iso_datetime H v) _
        (λ t. time_fields_empty before t (get_field node "field")))

  aggregation_empty : (op : String) (node : Fields H.Num) → evaluate_aggregation H op node [] ≡ none
  unfolding evaluate_aggregation require_commitment_records nonempty then_try
  aggregation_empty op node = refl

  -- Where the evaluator that a node calls itself with raises on every node, so does each operator.
  module _ (evaluate : Fields H.Num → Option (Outcome H.Num))
      (raises : (node : Fields H.Num) → evaluate node ≡ none) where
    boolean_raises : (v : Value H.Num) → evaluate_boolean H evaluate v ≡ none
    unfolding evaluate_boolean then_try
    boolean_raises (object fs) = rw (raises fs) refl
    boolean_raises _ = refl

    left_raises : (v : Value H.Num) → evaluate_left H evaluate v ≡ none
    unfolding evaluate_left then_try
    left_raises (object fs) = rw (raises fs) refl
    left_raises _ = refl

    each_raises :
        (vs : List (Value H.Num))
        → then_try (nonempty vs) (each (evaluate_boolean H evaluate)) ≡ none
    unfolding nonempty each then_try
    each_raises [] = refl
    each_raises (v ∷ vs) = rw (boolean_raises v) refl

    args_raise : (args : Option (Value H.Num)) → evaluate_args H evaluate args ≡ none
    unfolding evaluate_args
    args_raise none = refl
    args_raise (some (array vs)) = each_raises (items_list H vs)
    args_raise (some _) = refl

    comparison_raises :
        (op : Comparator) (node : Fields H.Num) → evaluate_comparison H evaluate op node [] ≡ none
    unfolding evaluate_comparison then_try
    comparison_raises op node = then_try-none (get_field node "value") _ (λ v.
        then_try-none (typed_comparand H v) _ (λ expected.
          elim (Option-cases (get_field node "left")) [
            | inl no_left ↦
                rw no_left (compare_commitments_empty op expected (get_field node "field"))
            | inr (left, e) ↦ rw e (rw (left_raises left) refl)
          ]))

    amount_raises :
        (op : String) (node : Fields H.Num) → evaluate_amount H evaluate op node [] ≡ none
    unfolding evaluate_amount then_try
    amount_raises op node = ground (arith, aggregation_empty op node)

    truth_raises : {o : Option Bool} → o ≡ none → truth_of H evaluate o ≡ none
    unfolding truth_of then_try
    truth_raises h = rw h refl

    op_raises : (op : String) (node : Fields H.Num) → evaluate_op H evaluate op node [] ≡ none
    unfolding evaluate_op then_try
    op_raises op node =
        if_none (str_eq op "and") (truth_raises (rw (args_raise (get_field node "args")) refl)) (
          if_none (str_eq op "or") (truth_raises (rw (args_raise (get_field node "args")) refl)) (
            if_none (str_eq op "not")
              (truth_raises (rw (then_try-none (get_field node "arg") _ boolean_raises) refl))
              (elim (Option-cases (read_comparator op)) [
                | inr (c, e) ↦ rw e (truth_raises (comparison_raises c node))
                | inl no_comparator ↦ rw no_comparator (
                    if_none (str_eq op "in")
                      (truth_raises
                        (membership_empty (get_field node "values") (get_field node "field")))
                      (if_none (str_eq op "before") (truth_raises (time_empty true node)) (
                        if_none (str_eq op "after") (truth_raises (time_empty false node))
                          (amount_raises op node))))
              ])))

    with_raises :
        (op : Option (Value H.Num)) (node : Fields H.Num)
        → evaluate_with H evaluate op node [] ≡ none
    unfolding evaluate_with
    with_raises none node = refl
    with_raises (some (text op)) node = op_raises op node
    with_raises (some _) node = refl

  pub evaluate_node_empty : (limit : ℕ) (node : Fields H.Num) → evaluate_node H [] limit node ≡ none
  unfolding evaluate_node
  evaluate_node_empty zero node = refl
  evaluate_node_empty (suc limit) node =
      with_raises (evaluate_node H [] limit) (evaluate_node_empty limit) (get_field node "op") node

  bilateral_empty :
      (v : Value H.Num) (now : ℕ)
      → (bilateral_result (evaluate_bilateral_chain_closure_v1 H v [] now)).satisfied ≡ false
  unfolding evaluate_bilateral_chain_closure_v1 bilateral_result close_bilateral unsatisfied
  bilateral_empty (object params) now = elim (Result-cases (read_terms H params)) [
    | inl (why, e) ↦ rw e refl
    | inr (t, e) ↦ rw e refl
  ]
  bilateral_empty _ now = refl

  expression_empty :
      (limit : ℕ) (o : Option (Value H.Num))
      → (language_result (evaluate_expression H [] limit o)).satisfied ≡ false
  unfolding evaluate_expression evaluate_boolean language_result unsatisfied then_try
  expression_empty limit none = refl
  expression_empty limit (some (object node)) = rw (evaluate_node_empty limit node) refl
  expression_empty limit (some _) = refl

  language_empty :
      (limit : ℕ) (v : Value H.Num)
      → (language_result (evaluate_closure_language_v1 H limit v [])).satisfied ≡ false
  unfolding evaluate_closure_language_v1 language_result unsatisfied
  language_empty limit (object params) = expression_empty limit (get_field params "expression")
  language_empty limit _ = refl

  profile_empty :
      (type_urn : String) (limit : ℕ) (v : Value H.Num) (now : ℕ)
      → (evaluate_profile H type_urn limit v [] now).satisfied ≡ false
  unfolding evaluate_profile unsatisfied
  profile_empty type_urn limit v now = ground (arith, bilateral_empty v now, language_empty limit v)

  typed_empty :
      (type_urn : Option (Value H.Num)) (limit : ℕ) (v : Value H.Num) (now : ℕ)
      → (evaluate_typed H type_urn limit v [] now).satisfied ≡ false
  unfolding evaluate_typed unsatisfied
  typed_empty none limit v now = refl
  typed_empty (some (text type_urn)) limit v now = profile_empty type_urn limit v now
  typed_empty (some _) limit v now = refl

  -- Without commitments no predicate is satisfied, whatever its type and its parameters.
  pub evaluate_predicate_empty :
      (limit : ℕ) (predicate : EvaluablePredicate H.Num) (cs : Option (List (Value H.Num)))
      (now : ℕ)
      → or_no_commitments cs ≡ []
      → (evaluate_predicate H limit predicate cs now).satisfied ≡ false
  unfolding evaluate_predicate
  evaluate_predicate_empty limit predicate cs now e =
      rw e (typed_empty predicate.type_urn limit predicate.parameters now)
