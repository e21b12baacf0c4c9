-- ===== src/Mandate/Authority.antt =====
-- What a mandate that concordia/mandate.py finds valid stands for: its delegation and its
-- scope, described without the code.
use concordia_protocol.Prelude.{
  String, Bool, true, false, ◌&&◌, ◌≡◌, refl, sym, ◌∙◌, ◌⊎◌, inl, inr, ◌↔◌, Option, none, some,
  inj_some, List, [], ◌∷◌, arith, str_truthy, is_some, All, Bool-cases, Result, ok, err,
}
use mathlib.Core.Path.{subst}
use concordia_protocol.Closure.{Fields}
use concordia_protocol.Mandate.{
  MandateStatus, active, expired, revoked, suspended, DelegationLink, Mandate, mandate_to_dict,
  compose_effective_constraints,
}
use concordia_protocol.Mandate.Endpoint.{Raised, check_revocation}
use concordia_protocol.Mandate.Verify.{
  Host, Context, is_active, validate_constraints, issuer_signature_valid, verify_mandate,
}
use concordia_protocol.Mandate.Chain.{Leads, Signed, and_iff, verify_delegation_chain_iff}
use concordia_protocol.Mandate.Granted.{
  is_valid, passed, action_allowed, delegated, unrevoked, verify_mandate_tests,
}
use concordia_protocol.Mandate.Windows.{InTime, time_iff}

module _ (H : Host) (c : Context H) where
  -- Without a chain the action is within the constraints. With one, the links lead from the issuer to
  -- the subject and are signed, and the action is within what constraints and restrictions compose to.
  abbrev pub Empowered : Mandate H.Num → List (DelegationLink H.Num) → Type 0
  Empowered m [] = validate_constraints H m.constraints c.action ≡ true
  Empowered m (l ∷ ls) =
      Leads H m.issuer (l ∷ ls) m.subject
      × All (Signed H c.delegation_public_keys) (l ∷ ls)
      × ((effective : Fields H.Num) × (compose_effective_constraints H.check_schema m.constraints
              (l ∷ ls)
            ≡ some effective)
          × (validate_constraints H effective c.action ≡ true))

  -- The endpoint, where there is one that is asked, answers that the mandate is not revoked.
  abbrev pub NotRevoked : Mandate H.Num → Option String → Type 0
  NotRevoked m none = Unit
  NotRevoked m (some endpoint) =
      ((str_truthy endpoint && c.check_revocation_status) ≡ false)
      ⊎ ((check_revocation H.net m.mandate_id endpoint
            c.allow_insecure_revocation_endpoint).not_revoked
          ≡ ok true)

  active_iff : (s : MandateStatus) → (is_active s ≡ true) ↔ (s ≡ active)
  unfolding is_active
  active_iff active = (λ h. refl, λ h. refl)
  active_iff expired = (λ h. absurd (ground (arith, h)), λ h. absurd (ground (arith, h)))
  active_iff revoked = (λ h. absurd (ground (arith, h)), λ h. absurd (ground (arith, h)))
  active_iff suspended = (λ h. absurd (ground (arith, h)), λ h. absurd (ground (arith, h)))

  allowed_iff :
      (o : Option (Fields H.Num))
      → ((is_some o && action_allowed H c o) ≡ true) ↔ (
          (effective : Fields H.Num) × (o ≡ some effective)
          × (validate_constraints H effective c.action ≡ true))
  allowed_iff none = (λ h. absurd (ground (arith, h)), λ (s, e, r). absurd (ground (arith, e)))
  allowed_iff (some effective) = (
    λ h. (effective, refl, h),
    λ (s, e, r). subst (λ z. validate_constraints H z c.action ≡ true) (sym (inj_some e)) r,
  )

  Empowered-iff :
      (m : Mandate H.Num) (ls : List (DelegationLink H.Num))
      → (delegated H c m ls ≡ true) ↔ Empowered m ls
  Empowered-iff m [] = (λ h. h, λ h. h)
  Empowered-iff m (l ∷ ls) =
      let chain = verify_delegation_chain_iff H l ls m.issuer m.subject c.delegation_public_keys in
      let scope =
        allowed_iff (compose_effective_constraints H.check_schema m.constraints (l ∷ ls)) in
      (
        λ h.
            let (linked, within) = (and_iff _ _).0 h in
            let (leads, signed) = chain.0 linked in (leads, signed, scope.0 within),
        λ (leads, signed, within). (and_iff _ _).1 (chain.1 (leads, signed), scope.1 within),
      )

  passed_iff : (o : Result Raised Bool) → (passed o ≡ true) ↔ (o ≡ ok true)
  passed_iff (err e) = (λ h. absurd (ground (arith, h)), λ h. absurd (ground (arith, h)))
  passed_iff (ok true) = (λ h. refl, λ h. refl)
  passed_iff (ok false) = (λ h. absurd (ground (arith, h)), λ h. absurd (ground (arith, h)))

  unrevoked_iff :
      (m : Mandate H.Num) (o : Option String) → (unrevoked H c m o ≡ true) ↔ NotRevoked m o
  unrevoked_iff m none = (λ h. tt, λ h. refl)
  unrevoked_iff m (some endpoint) =
      let answer = passed_iff (
        (check_revocation H.net m.mandate_id endpoint
          c.allow_insecure_revocation_endpoint).not_revoked) in
      elim (Bool-cases (str_truthy endpoint && c.check_revocation_status)) [
        | inr unasked ↦ rw unasked (λ h. inl refl, λ h. refl)
        | inl asked ↦ rw asked (
          λ h. inr (answer.0 h),
          λ h. elim h [ inl no_ask ↦ absurd (ground (arith, no_ask)) | inr clear ↦ answer.1 clear ],
        )
      ]

  pub verify_mandate_iff :
      (m : Mandate H.Num)
      → (is_valid (verify_mandate H m c) ≡ true) ↔ (
          (H.mandate_schema (mandate_to_dict m) ≡ true)
          × (issuer_signature_valid H m c.issuer_public_key ≡ true)
          × (m.status ≡ active)
          × InTime H c m.validity
          × (validate_constraints H m.constraints none ≡ true)
          × Empowered m m.delegation_chain
          × NotRevoked m m.revocation_endpoint)
  verify_mandate_iff m =
      let tests = verify_mandate_tests H c m in
      let status = active_iff m.status in
      let time = time_iff H c m.validity in
      let power = Empowered-iff m m.delegation_chain in
      let clear = unrevoked_iff m m.revocation_endpoint in
      (
        λ h.
            let (schema, h1) = (and_iff _ _).0 (sym tests ∙ h) in
            let (signature, h2) = (and_iff _ _).0 h1 in
            let (is_on, h3) = (and_iff _ _).0 h2 in
            let (timely, h4) = (and_iff _ _).0 h3 in
            let (sound, h5) = (and_iff _ _).0 h4 in
            let (able, h6) = (and_iff _ _).0 h5 in
            (
              schema,
              signature,
              status.0 is_on,
              time.0 timely,
              sound,
              power.0 able,
              clear.0 ((and_iff _ _).0 h6).0,
            ),
        λ (schema, signature, is_on, timely, sound, able, live).
            tests
            ∙ (and_iff _ _).1 (
              schema,
              (and_iff _ _).1 (
                signature,
                (and_iff _ _).1 (
                  status.1 is_on,
                  (and_iff _ _).1 (
                    time.1 timely,
                    (and_iff _ _).1 (
                      sound,
                      (and_iff _ _).1 (power.1 able, (and_iff _ _).1 (clear.1 live, refl)),
                    ),
                  ),
                ),
              ),
            ),
      )
