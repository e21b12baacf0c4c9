-- ===== src/Revocation/Fuel.antt =====
-- `cascade_revocation` ends (concordia/cmpc/revocation.py): the rounds that the frontier can still
-- lead to bound the rounds of its loop.
use concordia_protocol.Prelude.{
  ℕ, zero, suc, ◌+◌, ◌*◌, ◌-◌, ◌≤◌, ◌<◌, String, ◌≡◌, ◌≢◌, ◌∙◌, ap, refl, inl, inr, Option, none,
  some, List, [], ◌∷◌, ◌++◌, arith, leb, str_eq, length, ok, err, inj_err, inj_ok, Bool-cases,
  Result-cases, Option-cases,
}
use concordia_protocol.Revocation.{
  RevocationRecord, CascadeDecisionRecord, CascadeBoundary, CandidateArtifact, out_of_fuel, Host,
}
use concordia_protocol.Revocation.Decisions.{
  canonical, preimage, sign_cascade_decision_record, emit_committed_deny,
}
use concordia_protocol.Revocation.Cascade.{
  Visit, Search, deny, record_artifact, child, enqueue, scan_candidate, scan, expand, loop, found,
  rounds, clamp, start, by_id, validate_revocation_record, cascade_revocation, cascade_from,
  record_root,
}
use concordia_protocol.Revocation.Steps.{
  Scanned, skipped, met_before, met_now, scan_candidate-Scanned, frontier-cases,
}

-- The rounds that the items of a frontier can lead to.
abbrev weight : ℕ → ℕ → List Visit → ℕ
weight n m [] = 0
weight n m (v ∷ vs) = rounds n (m - v.depth) + weight n m vs

weight-append :
    (n m : ℕ) (vs : List Visit) (v : Visit)
    → weight n m (vs ++ v ∷ []) ≡ weight n m vs + rounds n (m - v.depth)
weight-append n m [] v = omega arith
weight-append n m (w ∷ vs) v = omega (arith, weight-append n m vs v)

module _ (H : Host) (revocation : RevocationRecord) where
  no_fuel_sign :
      (r : CascadeDecisionRecord) (k : H.KeyPair)
      → sign_cascade_decision_record H r k ≢ err out_of_fuel
  unfolding sign_cascade_decision_record canonical
  no_fuel_sign r k h = elim (Option-cases (H.canonicalize_jcs (preimage r))) [
    | inl stuck ↦ absurd (ground (arith, stuck))
    | inr (bytes, e) ↦ ground (arith, e)
  ]

  no_fuel_emit :
      (b : CascadeBoundary) (key : H.KeyPair) (id : String)
      → emit_committed_deny H revocation b key id ≢ err out_of_fuel
  unfolding emit_committed_deny
  no_fuel_emit b key id h = no_fuel_sign _ key h

  no_fuel_deny :
      (b : Option CascadeBoundary) (key : Option H.KeyPair) (id : String)
      → deny H revocation b key id ≢ err out_of_fuel
  unfolding deny
  no_fuel_deny none key id h = cc
  no_fuel_deny (some b) none id h = cc
  no_fuel_deny (some b) (some key) id h =
      elim (Result-cases (emit_committed_deny H revocation b key id)) [
        | inl (raised, e) ↦ no_fuel_emit b key id (e ∙ ap err (inj_err (rw e at h)))
        | inr (d, e) ↦ absurd (ground (arith, h, e))
      ]

module _ (H : Host) (revocation : RevocationRecord) (b : Option CascadeBoundary)
    (key : Option H.KeyPair) where
  Scanned-weight :
      (n m : ℕ) (v : Visit) (c : CandidateArtifact) (s t : Search)
      → Scanned H revocation b key v c s t
      → weight n m t.frontier ≤ weight n m s.frontier + rounds n (m - suc v.depth)
  unfolding enqueue child
  Scanned-weight n m v c s t (skipped _) = omega arith
  Scanned-weight n m v c s t (met_before _ _) =
      omega (arith, weight-append n m s.frontier (child v c))
  Scanned-weight n m v c s t (met_now _ _ _ _) =
      omega (arith, weight-append n m s.frontier (child v c))

  scan-weight :
      (n m : ℕ) (v : Visit) (cs : List CandidateArtifact) (s t : Search)
      → scan H revocation b key v cs s ≡ ok t
      → weight n m t.frontier ≤ weight n m s.frontier + length cs * rounds n (m - suc v.depth)
  unfolding scan
  scan-weight n m v [] s t e = ground arith
  scan-weight n m v (c ∷ cs) s t e = elim (Result-cases (scan_candidate H revocation b key v c s)) [
    | inl (raised, bad) ↦ absurd (cc)
    | inr (u, good) ↦ omega (
      arith,
      scan-weight n m v cs u t (rw good at e),
      Scanned-weight n m v c s u (scan_candidate-Scanned H revocation b key v c s u good),
    )
  ]

  no_fuel_candidate :
      (v : Visit) (c : CandidateArtifact) (s : Search)
      → scan_candidate H revocation b key v c s ≢ err out_of_fuel
  unfolding scan_candidate record_artifact
  no_fuel_candidate v c s h = elim (Result-cases (deny H revocation b key c.artifact_id)) [
    | inl (raised, e) ↦ ground (arith, no_fuel_deny H revocation b key c.artifact_id, e)
    | inr (new, e) ↦ ground (arith, e)
  ]

  no_fuel_scan :
      (v : Visit) (cs : List CandidateArtifact) (s : Search)
      → scan H revocation b key v cs s ≢ err out_of_fuel
  unfolding scan
  no_fuel_scan v [] s h = cc
  no_fuel_scan v (c ∷ cs) s h = elim (Result-cases (scan_candidate H revocation b key v c s)) [
    | inl (raised, e) ↦ no_fuel_candidate v c s (e ∙ rw e at h)
    | inr (t, e) ↦ no_fuel_scan v cs t (rw e at h)
  ]

  rounds-pos : (n k : ℕ) → 0 < rounds n k
  unfolding rounds
  rounds-pos n zero = omega arith
  rounds-pos n (suc k) = omega arith

  -- A popped item above the last level pays for the rounds of all its children.
  rounds-lt : (n m d : ℕ) → d < m → rounds n (m - d) ≡ 1 + n * rounds n (m - suc d)
  unfolding rounds
  rounds-lt n m d h = let next : m - d ≡ suc (m - suc d) = omega arith in rw next refl

  expand-weight :
      (artifacts : List CandidateArtifact) (m : ℕ) (v : Visit) (rest : List Visit) (s t : Search)
      → s.frontier ≡ v ∷ rest
      → expand H revocation b key artifacts m v rest s ≡ ok t
      → weight (length artifacts) m t.frontier < weight (length artifacts) m s.frontier
  unfolding expand
  expand-weight artifacts m v rest s t more e =
      let n = length artifacts in
      let whole : weight n m s.frontier ≡ rounds n (m - v.depth) + weight n m rest =
        ap (weight n m) more in
      elim (Bool-cases (leb m v.depth)) [
        | inl last ↦
            let same : record s { frontier = rest } ≡ t = inj_ok (rw last at e) in
            let kept : weight n m rest ≡ weight n m t.frontier =
              ap (λ (u : Search). weight n m u.frontier) same in
            omega (arith, whole, kept, rounds-pos n (m - v.depth))
        | inr above ↦ omega (
          arith,
          whole,
          rounds-lt n m v.depth (ground (arith, above)),
          scan-weight n m v artifacts (record s { frontier = rest }) t (rw above at e),
        )
      ]

  no_fuel_expand :
      (artifacts : List CandidateArtifact) (m : ℕ) (v : Visit) (rest : List Visit) (s : Search)
      → expand H revocation b key artifacts m v rest s ≢ err out_of_fuel
  unfolding expand
  no_fuel_expand artifacts m v rest s h = elim (Bool-cases (leb m v.depth)) [
    | inl last ↦ absurd (ground (arith, h, last))
    | inr above ↦ no_fuel_scan v artifacts (record s { frontier = rest }) (rw above at h)
  ]

  no_fuel_loop :
      (artifacts : List CandidateArtifact) (m fuel : ℕ) (s : Search)
      → weight (length artifacts) m s.frontier ≤ fuel
      → loop H revocation b key artifacts m fuel s ≢ err out_of_fuel
  unfolding loop found expand
  no_fuel_loop artifacts m zero s enough h = elim (frontier-cases s.frontier) [
    | inl empty ↦ cc
    | inr (v, rest, more) ↦
        omega (
          arith,
          rounds-pos (length artifacts) (m - v.depth),
          ap (weight (length artifacts) m) more,
        )
  ]
  no_fuel_loop artifacts m (suc fuel) s enough h = elim (frontier-cases s.frontier) [
    | inl empty ↦ ground (arith, h, empty)
    | inr (v, rest, more) ↦ elim (Result-cases (expand H revocation b key artifacts m v rest s)) [
      | inl (raised, bad) ↦
          no_fuel_expand artifacts m v rest s (bad ∙ ap err (inj_err (rw (more, bad) at h)))
      | inr (t, good) ↦
          no_fuel_loop artifacts m fuel t
            (omega (arith, expand-weight artifacts m v rest s t more good)) (rw (more, good) at h)
    ]
  ]

  no_fuel_root : record_root H revocation b key ≢ err out_of_fuel
  unfolding record_root record_artifact validate_revocation_record
  no_fuel_root h = elim (Result-cases (deny H revocation b key revocation.revoked_artifact_id)) [
    | inl (raised, e) ↦
        ground (arith, no_fuel_deny H revocation b key revocation.revoked_artifact_id, e)
    | inr (new, e) ↦ ground (arith, e)
  ]

  pub root_frontier :
      (s : Search)
      → record_root H revocation b key ≡ ok s
      → s.frontier ≡ (start revocation).frontier
  unfolding record_root record_artifact validate_revocation_record
  root_frontier s h = elim (Result-cases (deny H revocation b key revocation.revoked_artifact_id)) [
    | inl (raised, e) ↦ absurd (ground (arith, h, e))
    | inr (new, e) ↦ ground (arith, h, e)
  ]

  -- The cascade ends for every revocation and all artifacts, cyclic references among them: the
  -- rounds that the model allows its loop are always enough.
  pub cascade_revocation_ends :
      (candidates : List CandidateArtifact)
      → cascade_revocation H revocation b key candidates ≢ err out_of_fuel
  unfolding cascade_revocation cascade_from start
  cascade_revocation_ends candidates h = elim (Result-cases (record_root H revocation b key)) [
    | inl (raised, bad) ↦ no_fuel_root (bad ∙ ap err (inj_err (rw bad at h)))
    | inr (s, good) ↦ elim (Bool-cases (str_eq revocation.revocation_scope "single_artifact")) [
      | inl single ↦ absurd (ground (arith, h, good, single))
      | inr cascade ↦
          let m = clamp revocation.cascade_depth in
          let artifacts = by_id candidates in
          let all_levels : m - 0 ≡ m = omega arith in
          no_fuel_loop artifacts m (rounds (length artifacts) m) s
            (omega (
              arith,
              ap (weight (length artifacts) m) (root_frontier s good),
              ap (rounds (length artifacts)) all_levels,
            ))
            (rw (good, cascade) at h)
    ]
  ]
