-- ===== src/Closure/Limit.antt =====
-- How deep the calls of `_evaluate_node` of concordia/cmpc/predicate.py nest: no deeper than the
-- expression.
use concordia_protocol.Prelude.{
  ℕ, zero, suc, ◌≤◌, ◌<◌, String, ◌≡◌, refl, ap, inl, inr, Option, none, some, inj_some, List, [],
  ◌∷◌, arith, ltb, str_eq, if◌then◌else◌, Among, Bool-cases, Option-cases,
}
use concordia_protocol.Closure.{
  Value, text, object, array, Fields, no_fields, field, Items, no_items, item, Host, get_field,
  then_try,
}
use concordia_protocol.Closure.Comparands.{Comparator, read_comparator, each, nonempty}
use concordia_protocol.Closure.Language.{
  Outcome, items_list, as_truth, evaluate_boolean, evaluate_args, evaluate_left,
  evaluate_comparison, evaluate_amount, truth_of, evaluate_op, evaluate_with, evaluate_node,
  evaluate_expression, evaluate_closure_language_v1,
}

abbrev larger : ℕ → ℕ → ℕ
larger a b = if ltb a b then b else a

-- How many objects stand around the innermost value.
unfoldable mutual
  pub depth : {Num : Type 0} → Value Num → ℕ
  depth (object fs) = fields_depth fs
  depth (array vs) = items_depth vs
  depth _ = 0

  pub fields_depth : {Num : Type 0} → Fields Num → ℕ
  fields_depth no_fields = 0
  fields_depth (field k v fs) = larger (suc (depth v)) (fields_depth fs)

  pub items_depth : {Num : Type 0} → Items Num → ℕ
  items_depth no_items = 0
  items_depth (item v vs) = larger (depth v) (items_depth vs)

larger-left : (a b : ℕ) → a ≤ larger a b
larger-left a b = ground arith

larger-right : (a b : ℕ) → b ≤ larger a b
larger-right a b = ground arith

depth-get_field :
    {Num : Type 0} (fs : Fields Num) (k : String) (v : Value Num)
    → get_field fs k ≡ some v
    → depth v < fields_depth fs
unfolding get_field depth
depth-get_field no_fields k v h = absurd (ground (arith, h))
depth-get_field (field j w fs) k v h = elim (Bool-cases (str_eq j k)) [
  | inl here ↦
      omega
        (arith, ap depth (inj_some (rw here at h)), larger-left (suc (depth w)) (fields_depth fs))
  | inr later ↦ omega (
    arith,
    depth-get_field fs k v (rw later at h),
    larger-right (suc (depth w)) (fields_depth fs),
  )
]

module _ (H : Host) where
  depth-items_list :
      (vs : Items H.Num) (v : Value H.Num) → Among v (items_list H vs) → depth v ≤ items_depth vs
  unfolding items_list depth
  depth-items_list no_items v among = absurd among
  depth-items_list (item w vs) v (inl head) =
      omega (arith, ap depth head, larger-left (depth w) (items_depth vs))
  depth-items_list (item w vs) v (inr tail) =
      omega (arith, depth-items_list vs v tail, larger-right (depth w) (items_depth vs))

  each_same :
      {B : Type 0} (f g : Value H.Num → Option B) (vs : List (Value H.Num))
      → ((v : Value H.Num) → Among v vs → f v ≡ g v)
      → each f vs ≡ each g vs
  unfolding each
  each_same f g [] same = refl
  each_same f g (v ∷ vs) same =
      rw (same v (inl refl), each_same f g vs (λ w among. same w (inr among))) refl

  try_each_same :
      {B : Type 0} (f g : Value H.Num → Option B) (vs : List (Value H.Num))
      → ((v : Value H.Num) → Among v vs → f v ≡ g v)
      → then_try (nonempty vs) (each f) ≡ then_try (nonempty vs) (each g)
  unfolding nonempty then_try
  try_each_same f g [] same = refl
  try_each_same f g (v ∷ vs) same = each_same f g (v ∷ vs) same

  module _ (f g : Fields H.Num → Option (Outcome H.Num)) (node : Fields H.Num)
      (same : (child : Fields H.Num) → fields_depth child < fields_depth node → f child ≡ g child)
      (cs : List (Value H.Num)) where
    boolean_same :
        (v : Value H.Num)
        → depth v < fields_depth node
        → evaluate_boolean H f v ≡ evaluate_boolean H g v
    unfolding evaluate_boolean depth
    boolean_same (object fs) h = ap (λ o. then_try o (as_truth H)) (same fs h)
    boolean_same _ h = refl

    left_same :
        (v : Value H.Num) → depth v < fields_depth node → evaluate_left H f v ≡ evaluate_left H g v
    unfolding evaluate_left depth
    left_same (object fs) h = rw (same fs h) refl
    left_same _ h = refl

    args_same :
        (o : Option (Value H.Num))
        → get_field node "args" ≡ o
        → evaluate_args H f o ≡ evaluate_args H g o
    unfolding evaluate_args depth then_try nonempty
    args_same none e = refl
    args_same (some (array vs)) e =
        try_each_same (evaluate_boolean H f) (evaluate_boolean H g) (items_list H vs) (λ v among.
          boolean_same v
            (omega (arith, depth-items_list vs v among, depth-get_field node "args" (array vs) e)))
    args_same (some _) e = refl

    arg_same :
        (o : Option (Value H.Num))
        → get_field node "arg" ≡ o
        → then_try o (evaluate_boolean H f) ≡ then_try o (evaluate_boolean H g)
    unfolding then_try
    arg_same none e = refl
    arg_same (some v) e = boolean_same v (depth-get_field node "arg" v e)

    comparison_same :
        (c : Comparator) → evaluate_comparison H f c node cs ≡ evaluate_comparison H g c node cs
    unfolding evaluate_comparison
    comparison_same c = elim (Option-cases (get_field node "left")) [
      | inl no_left ↦ rw no_left refl
      | inr (v, e) ↦ rw (e, left_same v (depth-get_field node "left" v e)) refl
    ]

    op_same : (op : String) → evaluate_op H f op node cs ≡ evaluate_op H g op node cs
    unfolding evaluate_op truth_of evaluate_amount
    op_same op =
        rw (args_same (get_field node "args") refl, arg_same (get_field node "arg") refl)
          (elim (Option-cases (read_comparator op)) [
            | inl no_comparator ↦ rw no_comparator refl
            | inr (c, e) ↦ rw (e, comparison_same c) refl
          ])

    with_same :
        (op : Option (Value H.Num)) → evaluate_with H f op node cs ≡ evaluate_with H g op node cs
    unfolding evaluate_with
    with_same none = refl
    with_same (some (text op)) = op_same op
    with_same (some _) = refl

  -- Limits that exceed the depth of the expression make no difference: the calls nest no deeper.
  evaluate_node_same :
      (cs : List (Value H.Num)) (a b : ℕ) (node : Fields H.Num)
      → fields_depth node < a
      → fields_depth node < b
      → evaluate_node H cs a node ≡ evaluate_node H cs b node
  unfolding evaluate_node
  evaluate_node_same cs zero b node h k = absurd (omega (arith, h))
  evaluate_node_same cs (suc a) zero node h k = absurd (omega (arith, k))
  evaluate_node_same cs (suc a) (suc b) node h k =
      with_same (evaluate_node H cs a) (evaluate_node H cs b) node
        (λ child lt. evaluate_node_same cs a b child (omega (arith, lt, h)) (omega (arith, lt, k)))
        cs (get_field node "op")

  expression_same :
      (cs : List (Value H.Num)) (a b : ℕ) (params : Fields H.Num) (o : Option (Value H.Num))
      → get_field params "expression" ≡ o
      → fields_depth params < a
      → fields_depth params < b
      → evaluate_expression H cs a o ≡ evaluate_expression H cs b o
  unfolding evaluate_expression evaluate_boolean depth
  expression_same cs a b params none e h k = refl
  expression_same cs a b params (some (object node)) e h k =
      let le = depth-get_field params "expression" (object node) e in
      rw (evaluate_node_same cs a b node (omega (arith, le, h)) (omega (arith, le, k))) refl
  expression_same cs a b params (some _) e h k = refl

  -- Where the nesting limit exceeds the depth of the parameters, the evaluation gives the same
  -- result whatever the limit is.
  pub evaluate_closure_language_limit :
      (cs : List (Value H.Num)) (a b : ℕ) (params : Fields H.Num)
      → fields_depth params < a
      → fields_depth params < b
      → evaluate_closure_language_v1 H a (object params) cs
        ≡ evaluate_closure_language_v1 H b (object params) cs
  unfolding evaluate_closure_language_v1
  evaluate_closure_language_limit cs a b params h k =
      expression_same cs a b params (get_field params "expression") refl h k
