-- ===== src/Closure/Malformed.antt =====
-- One malformed part of a closure expression makes the whole fail: concordia/cmpc/predicate.py.
use concordia_protocol.Prelude.{
  ℕ, zero, suc, String, false, ◌≡◌, refl, sym, inl, inr, Option, none, some, List, [], ◌∷◌, str_eq,
  Among,
}
use concordia_protocol.Closure.{
  Value, text, object, array, Fields, Items, Host, get_field, then_try,
}
use concordia_protocol.Closure.Comparands.{
  Comparator, read_comparator, each, nonempty, typed_comparand,
}
use concordia_protocol.Closure.Language.{
  items_list, evaluate_boolean, evaluate_args, evaluate_left, evaluate_comparison, truth_of,
  evaluate_op, evaluate_with, evaluate_node, evaluate_expression, evaluate_closure_language_v1,
}
use concordia_protocol.Closure.Profiles.{unsatisfied, language_result}
use concordia_protocol.Closure.Closed.{then_try-none}

each-none :
    {A B : Type 0} (f : A → Option B) (xs : List A) (x : A)
    → Among x xs
    → f x ≡ none
    → each f xs ≡ none
unfolding each then_try
each-none f [] x among h = absurd among
each-none f (y ∷ ys) x (inl head) h = rw (sym head) (rw h refl)
each-none f (y ∷ ys) x (inr tail) h =
    rw (each-none f ys x tail h) (then_try-none (f y) _ (λ _. refl))

nonempty-each :
    {A B : Type 0} (f : A → Option B) (x : A) (xs : List A)
    → Among x xs
    → each f xs ≡ none
    → then_try (nonempty xs) (each f) ≡ none
unfolding nonempty then_try
nonempty-each f x [] among h = absurd among
nonempty-each f x (y ∷ ys) among h = h

module _ (H : Host) where
  abbrev Op : Fields H.Num → String → Type 0
  Op node op = get_field node "op" ≡ some (text op)

  -- A node stands in another where the evaluation comes to it: among the arguments of `and` and `or`,
  -- under `not`, on the left of a comparison, or deeper in one of these.
  pub data Inside (bad : Fields H.Num) : Fields H.Num → Type 0 where
    here : Inside bad bad
    in_and :
        (node child : Fields H.Num) (args : Items H.Num)
        → Op node "and"
        → get_field node "args" ≡ some (array args)
        → Among (object child) (items_list H args)
        → Inside bad child
        → Inside bad node
    in_or :
        (node child : Fields H.Num) (args : Items H.Num)
        → Op node "or"
        → get_field node "args" ≡ some (array args)
        → Among (object child) (items_list H args)
        → Inside bad child
        → Inside bad node
    in_not :
        (node child : Fields H.Num)
        → Op node "not"
        → get_field node "arg" ≡ some (object child)
        → Inside bad child
        → Inside bad node
    in_left :
        (node child : Fields H.Num) (op : String) (c : Comparator)
        → Op node op
        → str_eq op "and" ≡ false
        → str_eq op "or" ≡ false
        → str_eq op "not" ≡ false
        → read_comparator op ≡ some c
        → get_field node "left" ≡ some (object child)
        → Inside bad child
        → Inside bad node

  module _ (cs : List (Value H.Num)) where
    abbrev Malformed : Fields H.Num → Type 0
    Malformed node = (limit : ℕ) → evaluate_node H cs limit node ≡ none

    child_raises :
        (limit : ℕ) (child : Fields H.Num)
        → evaluate_node H cs limit child ≡ none
        → evaluate_boolean H (evaluate_node H cs limit) (object child) ≡ none
    unfolding evaluate_boolean then_try
    child_raises limit child h = rw h refl

    args_raise :
        (limit : ℕ) (args : Items H.Num) (child : Fields H.Num)
        → Among (object child) (items_list H args)
        → evaluate_node H cs limit child ≡ none
        → evaluate_args H (evaluate_node H cs limit) (some (array args)) ≡ none
    unfolding evaluate_args
    args_raise limit args child among h =
        nonempty-each (evaluate_boolean H (evaluate_node H cs limit)) (object child)
          (items_list H args) among
          (each-none (evaluate_boolean H (evaluate_node H cs limit)) (items_list H args)
            (object child) among (child_raises limit child h))

    left_raises :
        (limit : ℕ) (node child : Fields H.Num) (c : Comparator)
        → get_field node "left" ≡ some (object child)
        → evaluate_node H cs limit child ≡ none
        → evaluate_comparison H (evaluate_node H cs limit) c node cs ≡ none
    unfolding evaluate_comparison evaluate_left then_try
    left_raises limit node child c get h =
        then_try-none (get_field node "value") _
          (λ v. then_try-none (typed_comparand H v) _ (λ expected. rw get (rw h refl)))

    pub Inside-Malformed :
        {bad node : Fields H.Num} → Inside bad node → Malformed bad → Malformed node
    unfolding evaluate_node evaluate_with evaluate_op truth_of then_try
    Inside-Malformed here h limit = h limit
    Inside-Malformed inside h zero = refl
    Inside-Malformed (in_and node child args op get among inside) h (suc limit) =
        rw (op, get, args_raise limit args child among (Inside-Malformed inside h limit)) refl
    Inside-Malformed (in_or node child args op get among inside) h (suc limit) =
        rw (op, get, args_raise limit args child among (Inside-Malformed inside h limit)) refl
    Inside-Malformed (in_not node child op get inside) h (suc limit) =
        rw (op, get, child_raises limit child (Inside-Malformed inside h limit)) refl
    Inside-Malformed (in_left node child op c is_op no_and no_or no_not read get inside) h
          (suc limit) =
        rw (is_op, no_and, no_or, no_not, read)
          (rw (left_raises limit node child c get (Inside-Malformed inside h limit)) refl)

    -- An expression in which some part raises at every depth is malformed, wherever the part stands
    -- and whatever the truth of the others.
    pub evaluate_closure_language-Malformed :
        (limit : ℕ) (params bad node : Fields H.Num)
        → get_field params "expression" ≡ some (object node)
        → Inside bad node
        → Malformed bad
        → language_result (evaluate_closure_language_v1 H limit (object params) cs)
          ≡ unsatisfied "malformed_predicate"
    unfolding evaluate_closure_language_v1 evaluate_expression language_result then_try
    evaluate_closure_language-Malformed limit params bad node get inside h =
        rw (get, child_raises limit node (Inside-Malformed inside h limit)) refl
