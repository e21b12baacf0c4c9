-- ===== src/Mandate/Narrowing.antt =====
-- Delegation in concordia/mandate.py only narrows what a mandate allows.
use concordia_protocol.Prelude.{
  true, ◌≡◌, refl, sym, Option, none, some, inj_some, List, [], ◌∷◌, ◌++◌, arith, All,
}
use mathlib.Core.Path.{subst}
use concordia_protocol.Closure.{array, Fields, no_fields, field}
use concordia_protocol.Mandate.{
  DelegationLink, Mandate, scope_restriction_to_schema, listed_schema, join_schemas, composed,
  restriction, compose_schemas, schema_items, all_of, compose_effective_constraints,
}
use concordia_protocol.Mandate.Verify.{Host, Context, permits, validate_constraints, verify_mandate}
use concordia_protocol.Mandate.Chain.{and_iff}
use concordia_protocol.Mandate.Granted.{is_valid}
use concordia_protocol.Mandate.Authority.{Empowered, verify_mandate_iff}

All-parts : {A : Type 0} (P : A → Type 0) (xs ys : List A) → All P (xs ++ ys) → All P xs × All P ys
All-parts P [] ys h = (tt, h)
All-parts P (x ∷ xs) ys (p, h) = let (now, later) = All-parts P xs ys h in ((p, now), later)

module _ (H : Host) where
  abbrev pub Allows : Fields H.Num → Fields H.Num → Type 0
  Allows action schema = H.validates action schema ≡ true

  -- What JSON Schema says of "allOf": who satisfies it satisfies each of its schemas.
  abbrev pub AllOf : Type 0
  AllOf =
      (action : Fields H.Num) (schemas : List (Fields H.Num))
      → H.validates action (field "allOf" (array (schema_items schemas)) no_fields) ≡ true
      → All (Allows action) schemas

  abbrev pub AllowsUnder : Fields H.Num → Option (Fields H.Num) → Type 0
  AllowsUnder action none = Unit
  AllowsUnder action (some scope) =
      (schema : Fields H.Num) × (scope_restriction_to_schema H.check_schema scope ≡ some schema)
      × Allows action schema

  -- The link restricts nothing, or its restriction has a schema that allows the action.
  abbrev pub LinkAllows : Fields H.Num → DelegationLink H.Num → Type 0
  LinkAllows action l = AllowsUnder action l.scope_restriction

  module _ (action : Fields H.Num) where
    listed_schema-Allows :
        (o : Option (Fields H.Num)) (ss : List (Fields H.Num))
        → listed_schema o ≡ some ss
        → All (Allows action) ss
        → (schema : Fields H.Num) × (o ≡ some schema) × Allows action schema
    unfolding listed_schema
    listed_schema-Allows none ss e h = absurd (ground (arith, e))
    listed_schema-Allows (some schema) ss e h =
        (schema, refl, (subst (All (Allows action)) (sym (inj_some e)) h).0)

    restriction-Allows :
        (o : Option (Fields H.Num)) (ss : List (Fields H.Num))
        → restriction H.check_schema o ≡ some ss
        → All (Allows action) ss
        → AllowsUnder action o
    unfolding restriction
    restriction-Allows none ss e h = tt
    restriction-Allows (some scope) ss e h =
        listed_schema-Allows (scope_restriction_to_schema H.check_schema scope) ss e h

    join-parts :
        (o p : Option (List (Fields H.Num))) (ss : List (Fields H.Num))
        → join_schemas o p ≡ some ss
        → (xs : List (Fields H.Num)) × (ys : List (Fields H.Num)) × (o ≡ some xs)
          × (p ≡ some ys)
          × (xs ++ ys ≡ ss)
    unfolding join_schemas
    join-parts none p ss e = absurd (ground (arith, e))
    join-parts (some xs) none ss e = absurd (ground (arith, e))
    join-parts (some xs) (some ys) ss e = (xs, ys, refl, refl, inj_some e)

    chain-Allows :
        (chain : List (DelegationLink H.Num)) (ss : List (Fields H.Num))
        → compose_schemas H.check_schema chain ≡ some ss
        → All (Allows action) ss
        → All (LinkAllows action) chain
    unfolding compose_schemas
    chain-Allows [] ss e h = tt
    chain-Allows (l ∷ ls) ss e h =
        let (xs, ys, first, rest, sum) =
          join-parts (restriction H.check_schema l.scope_restriction)
            (compose_schemas H.check_schema ls) ss e in
        let (now, later) =
          All-parts (Allows action) xs ys (subst (All (Allows action)) (sym sum) h) in
        (restriction-Allows l.scope_restriction xs first now, chain-Allows ls ys rest later)

    all_of-Allows :
        AllOf
        → (constraints : Fields H.Num) (ss : List (Fields H.Num))
        → Allows action (all_of constraints ss)
        → Allows action constraints × All (Allows action) ss
    unfolding all_of
    all_of-Allows law constraints [] h = (h, tt)
    all_of-Allows law constraints (s ∷ ss) h = law action (constraints ∷ s ∷ ss) h

    composed-Allows :
        AllOf
        → (constraints : Fields H.Num) (o : Option (List (Fields H.Num)))
        → (effective : Fields H.Num) → composed constraints o ≡ some effective
        → Allows action effective
        → Allows action constraints
          × ((ss : List (Fields H.Num)) × (o ≡ some ss) × All (Allows action) ss)
    unfolding composed
    composed-Allows law constraints none effective e h = absurd (ground (arith, e))
    composed-Allows law constraints (some ss) effective e h =
        let (own, others) =
          all_of-Allows law constraints ss (subst (Allows action) (sym (inj_some e)) h) in
        (own, (ss, refl, others))

  permitted :
      (constraints action : Fields H.Num) (given : Option (Fields H.Num))
      → given ≡ some action
      → validate_constraints H constraints given ≡ true
      → Allows action constraints
  unfolding validate_constraints permits
  permitted constraints action none e h = absurd (ground (arith, e))
  permitted constraints action (some a) e h =
      subst (λ z. Allows z constraints) (inj_some e) ((and_iff _ _).0 h).1

  Empowered-Allows :
      AllOf
      → (c : Context H) (m : Mandate H.Num) (action : Fields H.Num) → c.action ≡ some action
      → (chain : List (DelegationLink H.Num)) → Empowered H c m chain
      → Allows action m.constraints × All (LinkAllows action) chain
  unfolding compose_effective_constraints
  Empowered-Allows law c m action given [] h = (permitted m.constraints action c.action given h, tt)
  Empowered-Allows law c m action given (l ∷ ls) (leads, signed, (effective, e, h)) =
      let (own, (ss, known, others)) =
        composed-Allows action law m.constraints (compose_schemas H.check_schema (l ∷ ls)) effective
          e (permitted effective action c.action given h) in
      (own, chain-Allows action (l ∷ ls) ss known others)

  -- With JSON Schema's meaning of "allOf": when a mandate is found valid for an action, the action
  -- satisfies the mandate's own constraints, and at each link of the delegation chain with a
  -- restriction that restriction is a supported one whose schema the action satisfies.
  pub verify_mandate_narrows :
      AllOf
      → (c : Context H) (m : Mandate H.Num) (action : Fields H.Num) → c.action ≡ some action
      → is_valid (verify_mandate H m c) ≡ true
      → Allows action m.constraints × All (LinkAllows action) m.delegation_chain
  verify_mandate_narrows law c m action given h =
      let (schema, signature, status, time, sound, power, clear) = (verify_mandate_iff H c m).0 h in
      Empowered-Allows law c m action given m.delegation_chain power
