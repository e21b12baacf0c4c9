-- ===== src/Mandate/Granted.antt =====
-- When `verify_mandate` of concordia/mandate.py grants a mandate.
use concordia_protocol.Prelude.{
  String, Bool, true, false, not, ◌&&◌, ◌≡◌, refl, ◌⊎◌, inl, inr, Option, none, some, List, [], ◌∷◌,
  str_truthy, is_some, if◌then◌else◌, Bool-cases, Option-cases, Result, ok, err, ◌>>=◌,
}
use concordia_protocol.Closure.{Fields}
use concordia_protocol.Mandate.{
  ValidityWindow, DelegationLink, Mandate, mandate_to_dict, compose_effective_constraints,
}
use concordia_protocol.Mandate.Endpoint.{Raised, check_revocation}
use concordia_protocol.Mandate.Verify.{
  Host, Context, MandateVerificationResult, Stop, returned, raised, noted, because, finish_check,
  check, is_active, check_temporal_validity, validate_constraints, verify_delegation_chain,
  no_errors, issuer_signature_valid, missing_context, check_window, check_validity, check_action,
  check_chain, check_endpoint, new_result, run_checks, finished, verify_mandate,
}

-- Whether a mandate was found valid.
abbrev pub is_valid : Result Raised MandateVerificationResult → Bool
is_valid (ok r) = r.valid
is_valid (err e) = false

abbrev pub passed : Result Raised Bool → Bool
passed (ok b) = b
passed (err e) = false

-- A stage of the verification goes on with a result that is not valid yet exactly when its test
-- passes, and otherwise ends it without a valid result.
abbrev Stage : Bool → Result Stop MandateVerificationResult → Type 0
Stage b x =
    ((b ≡ true) × ((s : MandateVerificationResult) × (x ≡ ok s) × (s.valid ≡ false)))
    ⊎ ((b ≡ false) × ((e : Stop) × (x ≡ err e) × (is_valid (finished (err e)) ≡ false)))

finish_check-Stage :
    (name : String) (o : Result Raised Bool) (why : Option String) (r : MandateVerificationResult)
    → r.valid ≡ false
    → Stage (passed o) (finish_check name o why r)
unfolding finish_check finished noted because
finish_check-Stage name (err e) why r h = inr (refl, (raised e, refl, refl))
finish_check-Stage name (ok true) why r h = inl (refl, (noted name true r, refl, h))
finish_check-Stage name (ok false) why r h =
    inr (refl, (returned (because why (noted name false r)), refl, h))

check-Stage :
    (name : String) (b : Bool) (why : Option String) (r : MandateVerificationResult)
    → r.valid ≡ false
    → Stage b (check name b why r)
unfolding check
check-Stage name b why r h = finish_check-Stage name (ok b) why r h

noted-Stage :
    (name : String) (r : MandateVerificationResult)
    → r.valid ≡ false
    → Stage true (ok (noted name true r))
unfolding noted
noted-Stage name r h = inl (refl, (noted name true r, refl, h))

module _ (b : Bool) (x : Result Stop MandateVerificationResult)
    (then_do : MandateVerificationResult → Result Stop MandateVerificationResult) (c : Bool) where
  bind-Stage :
      Stage b x
      → ((s : MandateVerificationResult) → s.valid ≡ false → Stage c (then_do s))
      → Stage (b && c) (x >>= then_do)
  bind-Stage (inr (off, (e, stops, h))) next = rw (off, stops) (inr (refl, (e, refl, h)))
  bind-Stage (inl (on, (s, goes, h))) next = rw (on, goes) (next s h)

  bind_valid :
      Stage b x
      → ((s : MandateVerificationResult) → s.valid ≡ false → is_valid (finished (then_do s)) ≡ c)
      → is_valid (finished (x >>= then_do)) ≡ (b && c)
  bind_valid (inr (off, (e, stops, h))) next = rw (off, stops) h
  bind_valid (inl (on, (s, goes, h))) next = rw (on, goes) (next s h)

module _ (H : Host) (c : Context H) where
  -- The tests of the stages.
  abbrev pub valid_now : Option (ValidityWindow H.Num) → Bool
  valid_now none = true
  valid_now (some v) =
      not (is_some (missing_context H v.mode c))
      && passed (check_temporal_validity H v c.now c.sequence_key c.state_active)

  abbrev pub action_allowed : Option (Fields H.Num) → Bool
  action_allowed none = false
  action_allowed (some effective) = validate_constraints H effective c.action

  abbrev pub delegated : Mandate H.Num → List (DelegationLink H.Num) → Bool
  delegated m [] = validate_constraints H m.constraints c.action
  delegated m (l ∷ ls) =
      let effective = compose_effective_constraints H.check_schema m.constraints (l ∷ ls) in
      no_errors (verify_delegation_chain H (l ∷ ls) m.issuer m.subject c.delegation_public_keys)
      && (is_some effective && action_allowed effective)

  abbrev pub unrevoked : Mandate H.Num → Option String → Bool
  unrevoked m none = true
  unrevoked m (some endpoint) =
      if str_truthy endpoint && c.check_revocation_status
      then passed (
          (check_revocation H.net m.mandate_id endpoint
            c.allow_insecure_revocation_endpoint).not_revoked)
      else true

  window-Stage :
      (v : ValidityWindow H.Num) (r : MandateVerificationResult)
      → r.valid ≡ false
      → Stage (valid_now (some v)) (check_window H v c r)
  unfolding check_window
  window-Stage v r h = elim (Option-cases (missing_context H v.mode c)) [
    | inl enough ↦
        rw (enough, check_window)
          (finish_check-Stage "temporal_validity"
            (check_temporal_validity H v c.now c.sequence_key c.state_active) none r h)
    | inr (why, missing) ↦
        rw (missing, check_window) (check-Stage "temporal_validity" false (some why) r h)
  ]

  validity-Stage :
      (o : Option (ValidityWindow H.Num)) (r : MandateVerificationResult)
      → r.valid ≡ false
      → Stage (valid_now o) (check_validity H o c r)
  unfolding check_validity
  validity-Stage none r h = noted-Stage "temporal_validity" r h
  validity-Stage (some v) r h = window-Stage v r h

  action-Stage :
      (o : Option (Fields H.Num)) (r : MandateVerificationResult)
      → r.valid ≡ false
      → Stage (action_allowed o) (check_action H o c r)
  unfolding check_action
  action-Stage none r h =
      check-Stage "delegation_scope" false (some "unsupported_scope_restriction") r h
  action-Stage (some effective) r h = check-Stage "constraint_compliance" _ none r h

  chain-Stage :
      (ls : List (DelegationLink H.Num)) (m : Mandate H.Num) (r : MandateVerificationResult)
      → r.valid ≡ false
      → Stage (delegated m ls) (check_chain H ls m c r)
  unfolding check_chain noted
  chain-Stage [] m r h = action-Stage (some m.constraints) (noted "delegation_chain" true r) h
  chain-Stage (l ∷ ls) m r h =
      let effective = compose_effective_constraints H.check_schema m.constraints (l ∷ ls) in
      bind-Stage _ _ _ _ (check-Stage "delegation_chain" _ none r h) (λ s k.
        bind-Stage _ _ _ _
          (check-Stage "delegation_scope" _ (some "unsupported_scope_restriction") s k)
          (λ t i. action-Stage effective t i))

  endpoint-Stage :
      (o : Option String) (m : Mandate H.Num) (r : MandateVerificationResult)
      → r.valid ≡ false
      → Stage (unrevoked m o) (check_endpoint H o m c r)
  unfolding check_endpoint
  endpoint-Stage none m r h = noted-Stage "revocation_status" r h
  endpoint-Stage (some endpoint) m r h =
      elim (Bool-cases (str_truthy endpoint && c.check_revocation_status)) [
        | inl asked ↦ rw asked (
            finish_check-Stage "revocation_status"
              ((check_revocation H.net m.mandate_id endpoint
                c.allow_insecure_revocation_endpoint).not_revoked)
              none r h)
        | inr unasked ↦ rw unasked (noted-Stage "revocation_status" r h)
      ]

  pub verify_mandate_tests :
      (m : Mandate H.Num)
      → is_valid (verify_mandate H m c) ≡ (
          H.mandate_schema (mandate_to_dict m)
          && (issuer_signature_valid H m c.issuer_public_key
              && (is_active m.status
                  && (valid_now m.validity
                      && (validate_constraints H m.constraints none
                          && (delegated m m.delegation_chain
                              && (unrevoked m m.revocation_endpoint && true)))))))
  unfolding verify_mandate run_checks new_result finished
  verify_mandate_tests m =
      bind_valid _ _ _ _ (check-Stage "schema" _ none (new_result H m) refl) (λ r1 h1.
        bind_valid _ _ _ _ (check-Stage "issuer_signature" _ none r1 h1) (λ r2 h2.
          bind_valid _ _ _ _ (check-Stage "lifecycle_status" _ _ r2 h2) (λ r3 h3.
            bind_valid _ _ _ _ (validity-Stage m.validity r3 h3) (λ r4 h4.
              bind_valid _ _ _ _ (check-Stage "constraint_compliance" _ none r4 h4) (λ r5 h5.
                bind_valid _ _ _ _ (chain-Stage m.delegation_chain m r5 h5) (λ r6 h6.
                  bind_valid _ _ _ _ (endpoint-Stage m.revocation_endpoint m r6 h6)
                    (λ r7 h7. refl)))))))
