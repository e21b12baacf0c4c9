-- ===== src/Closure/Comparisons.antt =====
-- What a comparison of a field over the commitments says, and what it leaves unchecked:
-- concordia/cmpc/predicate.py.
use concordia_protocol.Prelude.{
  ℕ, suc, String, Bool, true, false, not, ◌≡◌, refl, ◌∙◌, ap, inl, inr, ◌↔◌, Option, none, some,
  inj_some, List, [], ◌∷◌, All, Bool-cases,
}
use concordia_protocol.Closure.{Value, text, number, object, Fields, Host, get_field, then_try}
use concordia_protocol.Closure.Comparands.{
  Comparator, above, read_comparator, Comparand, number_class, str_class, each, nonempty,
  typed_comparand, typed_compare, ordering, order, compare_all, get_comparand,
}
use concordia_protocol.Closure.Language.{
  truth, compare_commitments, evaluate_boolean, evaluate_comparison, truth_of, as_truth,
  evaluate_op, evaluate_with, evaluate_node,
}

then_try-some :
    {A B : Type 0} (o : Option A) (f : A → Option B) (b : B)
    → then_try o f ≡ some b
    → (a : A) × (o ≡ some a) × (f a ≡ some b)
unfolding then_try
then_try-some none f b h = cc
then_try-some (some a) f b h = (a, refl, h)

false-true : some false ≡ some true → ⊥
false-true h = cc

module _ (H : Host) (op : Comparator) (expected : Comparand H.Num) (path : String) where
  -- The commitment has the field, and its value is comparable and compares.
  abbrev pub Compares : Value H.Num → Type 0
  Compares c =
      (k : Comparand H.Num) × (get_comparand H path c ≡ some k)
      × (typed_compare H op k expected ≡ some true)

  compared :
      (cs : List (Value H.Num)) (ks : List (Comparand H.Num))
      → each (get_comparand H path) cs ≡ some ks
      → compare_all H op expected ks ≡ some true
      → All Compares cs
  unfolding each compare_all
  compared [] ks e h = tt
  compared (c ∷ cs) ks e h =
      let (k, got, rest) = then_try-some (get_comparand H path c) _ ks e in
      let (ls, more, same) = then_try-some (each (get_comparand H path) cs) _ ks rest in
      let split : compare_all H op expected (k ∷ ls) ≡ some true =
        ap (compare_all H op expected) (inj_some same) ∙ h in
      let (b, here, later) = then_try-some (typed_compare H op k expected) _ true split in
      elim (Bool-cases b) [
        | inl holds ↦ ((k, got, here ∙ ap some holds), compared cs ls more (rw holds at later))
        | inr fails ↦ absurd (false-true (rw fails at later))
      ]

  Compares-all :
      (cs : List (Value H.Num))
      → All Compares cs
      → (ks : List (Comparand H.Num)) × (each (get_comparand H path) cs ≡ some ks)
        × (compare_all H op expected ks ≡ some true)
  unfolding each compare_all then_try
  Compares-all [] h = ([], refl, refl)
  Compares-all (c ∷ cs) ((k, got, holds), h) =
      let (ks, more, all) = Compares-all cs h in (k ∷ ks, rw (got, more) refl, rw (holds, all) refl)

  -- A field comparison holds exactly when there is a commitment, and every commitment has the
  -- field, with a value of the class of the declared one which compares with it.
  pub compare_commitments_iff :
      (c : Value H.Num) (cs : List (Value H.Num))
      → (compare_commitments H op expected (some (text path)) (c ∷ cs) ≡ some true)
        ↔ All Compares (c ∷ cs)
  unfolding compare_commitments nonempty then_try
  compare_commitments_iff c cs = (
    λ h.
        let (ks, got, holds) = then_try-some (each (get_comparand H path) (c ∷ cs)) _ true h in
        compared (c ∷ cs) ks got holds,
    λ h. let (ks, got, holds) = Compares-all (c ∷ cs) h in rw got holds,
  )

module _ (H : Host) (limit : ℕ) (path : String) (bound n : H.Num) (s : String) where
  -- `not (path > bound)`.
  pub record IsCap (node inner : Fields H.Num) : Type 0 where
    pub negates : get_field node "op" ≡ some (text "not")
    pub argument : get_field node "arg" ≡ some (object inner)
    pub compares : get_field inner "op" ≡ some (text ">")
    pub literal : get_field inner "value" ≡ some (number bound)
    pub is_finite : H.is_finite bound ≡ true
    pub no_left : get_field inner "left" ≡ none
    pub names_field : get_field inner "field" ≡ some (text path)

  inner_compares :
      (node inner : Fields H.Num) (cs : List (Value H.Num))
      → IsCap node inner
      → evaluate_node H cs (suc limit) inner
        ≡ truth_of H
            (evaluate_node H cs limit)
            (compare_commitments H above (number_class bound) (some (text path)) cs)
  unfolding evaluate_node evaluate_with evaluate_op evaluate_comparison truth_of then_try
      typed_comparand read_comparator compare_commitments
  inner_compares node inner cs h =
      rw (h.compares, h.literal, h.is_finite, h.no_left, h.names_field) refl

  opened :
      (cs : List (Value H.Num)) (node : Fields H.Num)
      → evaluate_node H cs (suc (suc limit)) node
        ≡ evaluate_with H (evaluate_node H cs (suc limit)) (get_field node "op") node cs
  unfolding evaluate_node
  opened cs node = refl

  cap_negates :
      (node inner : Fields H.Num) (cs : List (Value H.Num)) (o : Option Bool)
      → IsCap node inner
      → compare_commitments H above (number_class bound) (some (text path)) cs ≡ o
      → evaluate_node H cs (suc (suc limit)) node ≡ then_try o (λ b. some (truth (not b)))
  unfolding evaluate_with evaluate_op evaluate_boolean truth_of as_truth then_try
  cap_negates node inner cs none h e =
      opened cs node ∙ rw (h.negates, h.argument, inner_compares node inner cs h, e) refl
  cap_negates node inner cs (some b) h e =
      opened cs node ∙ rw (h.negates, h.argument, inner_compares node inner cs h, e) refl

  in_order :
      (a b : Value H.Num)
      → get_comparand H path a ≡ some (number_class n)
      → H.lt bound n ≡ false
      → get_comparand H path b ≡ some (str_class s)
      → (compare_commitments H above (number_class bound) (some (text path)) (a ∷ b ∷ [])
          ≡ some false)
        × (compare_commitments H above (number_class bound) (some (text path)) (b ∷ a ∷ []) ≡ none)
  unfolding compare_commitments compare_all nonempty each typed_compare ordering order then_try
  in_order a b of_a small of_b = (rw (of_a, of_b, small) refl, rw (of_b, of_a) refl)

  -- A cap `not (field > bound)` whose first commitment has a number below the bound and whose second
  -- has a text is satisfied, though the text is no number; the same commitments in the other order
  -- make the evaluation raise.
  pub evaluate_node_unchecked :
      (node inner : Fields H.Num) (a b : Value H.Num)
      → IsCap node inner
      → get_comparand H path a ≡ some (number_class n)
      → H.lt bound n ≡ false
      → get_comparand H path b ≡ some (str_class s)
      → (evaluate_node H (a ∷ b ∷ []) (suc (suc limit)) node ≡ some (truth true))
        × (evaluate_node H (b ∷ a ∷ []) (suc (suc limit)) node ≡ none)
  unfolding then_try
  evaluate_node_unchecked node inner a b h of_a small of_b =
      let (first, second) = in_order a b of_a small of_b in
      (
        cap_negates node inner (a ∷ b ∷ []) (some false) h first,
        cap_negates node inner (b ∷ a ∷ []) none h second,
      )
