-- ===== src/Closure/Language.antt =====
-- concordia/cmpc/predicate.py: the closure language, from `_evaluate_node` to
-- `evaluate_closure_language_v1`. An exception is `none`; `limit` is how deep calls may nest before
-- Python raises a RecursionError.
use concordia_protocol.Prelude.{
  ℕ, zero, suc, String, Bool, true, false, not, ◌&&◌, ◌||◌, Option, none, some, List, [], ◌∷◌,
  str_eq, ltb, if◌then◌else◌, any, map,
}
use concordia_protocol.Closure.{
  Value, text, boolean, object, array, number, Fields, Items, no_items, item, Host, get_field,
  then_try, PredicateResult,
}
use concordia_protocol.Closure.Comparands.{
  Comparator, read_comparator, Comparand, each, same_class, typed_comparand, same_key,
  typed_compare, compare_all, get_comparand, parse_iso_datetime, get_time, nonempty,
  evaluate_aggregation,
}

-- What a node evaluates to: a truth value, or the number of an aggregation.
pub data Outcome (Num : Type 0) : Type 0 where
  truth : Bool → Outcome Num
  amount : Num → Outcome Num

abbrev pub all_true : List Bool → Bool
all_true [] = true
all_true (b ∷ bs) = b && all_true bs

abbrev pub any_true : List Bool → Bool
any_true [] = false
any_true (b ∷ bs) = b || any_true bs

module _ (H : Host) where
  unfoldable pub as_truth : Outcome H.Num → Option Bool
  as_truth (truth b) = some b
  as_truth (amount n) = none

  unfoldable pub value_of : Outcome H.Num → Value H.Num
  value_of (truth b) = boolean b
  value_of (amount n) = number n

  -- A test that the field of each commitment passes; `node["value"]` is read first.
  unfoldable pub compare_commitments :
      Comparator → Comparand H.Num → Option (Value H.Num) → List (Value H.Num) → Option Bool
  compare_commitments op expected (some (text path)) commitments =
      then_try (nonempty commitments)
        (λ cs. then_try (each (get_comparand H path) cs) (compare_all H op expected))
  compare_commitments op expected path commitments = none

  unfoldable pub accepts : List (Comparand H.Num) → Comparand H.Num → Bool
  accepts literals c = any (λ l. same_key H l c) literals

  unfoldable pub in_class : List (Comparand H.Num) → Comparand H.Num → Bool
  in_class literals c = any (λ l. same_class l c) literals

  unfoldable pub members : List (Comparand H.Num) → List (Comparand H.Num) → Option Bool
  members literals cs =
      if all_true (map (in_class literals) cs)
      then some (all_true (map (accepts literals) cs))
      else none

  unfoldable pub items_list : Items H.Num → List (Value H.Num)
  items_list no_items = []
  items_list (item v vs) = v ∷ items_list vs

  unfoldable pub member_fields :
      List (Comparand H.Num) → Option (Value H.Num) → List (Value H.Num) → Option Bool
  member_fields literals (some (text path)) commitments =
      then_try (nonempty commitments)
        (λ cs. then_try (each (get_comparand H path) cs) (members literals))
  member_fields literals path commitments = none

  -- `_evaluate_membership`.
  unfoldable pub evaluate_membership :
      Option (Value H.Num) → Option (Value H.Num) → List (Value H.Num) → Option Bool
  evaluate_membership (some (array values)) path commitments =
      then_try (each (typed_comparand H) (items_list values))
        (λ literals. then_try (nonempty literals) (λ ls. member_fields ls path commitments))
  evaluate_membership values path commitments = none

  unfoldable pub time_fields : Bool → ℕ → Option (Value H.Num) → List (Value H.Num) → Option Bool
  time_fields before expected (some (text path)) commitments =
      then_try (nonempty commitments) (λ cs. then_try (each (get_time H path) cs) (λ times.
        some (all_true (map (λ t. if before then ltb t expected else ltb expected t) times))))
  time_fields before expected path commitments = none

  -- `_evaluate_time`.
  unfoldable pub evaluate_time : Bool → Fields H.Num → List (Value H.Num) → Option Bool
  evaluate_time before node commitments = then_try (get_field node "value") (λ v.
      then_try (parse_iso_datetime H v)
        (λ expected. time_fields before expected (get_field node "field") commitments))

  -- The evaluator of nodes that a node evaluator calls itself with.
  module _ (evaluate : Fields H.Num → Option (Outcome H.Num)) where
    -- `_evaluate_boolean(_require_node(v))`.
    unfoldable pub evaluate_boolean : Value H.Num → Option Bool
    evaluate_boolean (object fs) = then_try (evaluate fs) as_truth
    evaluate_boolean v = none

    -- The values of all the arguments, where there are any.
    unfoldable pub evaluate_args : Option (Value H.Num) → Option (List Bool)
    evaluate_args (some (array args)) =
        then_try (nonempty (items_list args)) (each evaluate_boolean)
    evaluate_args v = none

    -- `_evaluate_node(_require_node(node["left"]))`, as a comparand.
    unfoldable pub evaluate_left : Value H.Num → Option (Comparand H.Num)
    evaluate_left (object fs) = then_try (evaluate fs) (λ o. typed_comparand H (value_of o))
    evaluate_left v = none

    -- `_evaluate_comparison`.
    unfoldable pub evaluate_comparison :
        Comparator → Fields H.Num → List (Value H.Num) → Option Bool
    evaluate_comparison op node commitments = then_try (get_field node "value") (λ v.
        then_try (typed_comparand H v) (λ expected. elim (get_field node "left") [
          | none ↦ compare_commitments op expected (get_field node "field") commitments
          | some left ↦ then_try (evaluate_left left) (λ actual. typed_compare H op actual expected)
        ]))

    -- The aggregations, and an operator that there is not.
    unfoldable pub evaluate_amount :
        String → Fields H.Num → List (Value H.Num) → Option (Outcome H.Num)
    evaluate_amount op node commitments =
        if str_eq op "sum" || str_eq op "min" || str_eq op "max" || str_eq op "count"
        then then_try (evaluate_aggregation H op node commitments) (λ n. some (amount n))
        else none

    unfoldable pub truth_of : Option Bool → Option (Outcome H.Num)
    truth_of o = then_try o (λ b. some (truth b))

    -- One case for each `if` of `_evaluate_node`.
    unfoldable pub evaluate_op : String → Fields H.Num → List (Value H.Num) → Option (Outcome H.Num)
    evaluate_op op node commitments =
        if str_eq op "and"
        then truth_of (then_try (evaluate_args (get_field node "args")) (λ bs. some (all_true bs)))
        else if str_eq op "or"
        then truth_of (then_try (evaluate_args (get_field node "args")) (λ bs. some (any_true bs)))
        else if str_eq op "not"
        then truth_of
            (then_try (then_try (get_field node "arg") evaluate_boolean) (λ b. some (not b)))
        else (elim (read_comparator op) [
          | some comparator ↦ truth_of (evaluate_comparison comparator node commitments)
          | none ↦
              if str_eq op "in"
              then truth_of (
                  evaluate_membership (get_field node "values") (get_field node "field")
                    commitments)
              else if str_eq op "before"
              then truth_of (evaluate_time true node commitments)
              else if str_eq op "after"
              then truth_of (evaluate_time false node commitments)
              else evaluate_amount op node commitments
        ])

    unfoldable pub evaluate_with :
        Option (Value H.Num) → Fields H.Num → List (Value H.Num) → Option (Outcome H.Num)
    evaluate_with (some (text op)) node commitments = evaluate_op op node commitments
    evaluate_with op node commitments = none

  -- `_evaluate_node`.
  unfoldable pub evaluate_node : List (Value H.Num) → ℕ → Fields H.Num → Option (Outcome H.Num)
  evaluate_node commitments zero node = none
  evaluate_node commitments (suc limit) node =
      evaluate_with (evaluate_node commitments limit) (get_field node "op") node commitments

  unfoldable pub conclude_value : Bool → PredicateResult
  conclude_value b =
      if b
      then record { satisfied = true; reason = none }
      else record { satisfied = false; reason = some "expression_not_satisfied" }

  -- `predicate.parameters.get("expression")`, which raises where the parameters are no dict.
  unfoldable pub evaluate_expression :
      List (Value H.Num) → ℕ → Option (Value H.Num) → Option PredicateResult
  evaluate_expression commitments limit (some (object node)) =
      then_try (evaluate_boolean (evaluate_node commitments limit) (object node))
        (λ b. some (conclude_value b))
  evaluate_expression commitments limit v =
      some (record { satisfied = false; reason = some "missing_expression" })

  unfoldable pub evaluate_closure_language_v1 :
      ℕ → Value H.Num → List (Value H.Num) → Option PredicateResult
  evaluate_closure_language_v1 limit (object params) commitments =
      evaluate_expression commitments limit (get_field params "expression")
  evaluate_closure_language_v1 limit params commitments = none
