-- ===== src/Revocation/Steps.antt =====
-- What one step of `cascade_revocation` (concordia/cmpc/revocation.py) does to its variables.
use mathlib.Core.Path.{subst}
use concordia_protocol.Prelude.{
  ℕ, zero, suc, ◌&&◌, String, Bool, true, false, not, ◌≡◌, refl, sym, ◌⊎◌, inl, inr, Option, List,
  [], ◌∷◌, ◌++◌, arith, ok, inj_ok, err_ok, mem_str, is_some, Bool-cases, Result-cases,
}
use concordia_protocol.Revocation.{
  RevocationRecord, CascadeDecisionRecord, CascadeBoundary, CandidateArtifact, CascadeResult, Host,
}
use concordia_protocol.Revocation.Cascade.{
  references_artifact, evidence, Visit, Search, inadmissible_artifact, deny, record_artifact, child,
  enqueue, scan_candidate, scan, expand, loop, found, start, record_root,
  validate_revocation_record, root_evidence,
}

-- Whether the search goes from a visit to an artifact.
abbrev pub follows : Visit → CandidateArtifact → Bool
follows v c = not (mem_str c.artifact_id v.path) && is_some (references_artifact c v.id)

pub frontier-cases :
    (vs : List Visit) → (vs ≡ []) ⊎ ((v : Visit) × (rest : List Visit) × (vs ≡ v ∷ rest))
frontier-cases [] = inl refl
frontier-cases (v ∷ rest) = inr (v, rest, refl)

module _ (H : Host) (revocation : RevocationRecord) where
  -- The variables after an artifact is recorded with the decisions `new`.
  abbrev pub recorded : String → ℕ → String → List CascadeDecisionRecord → Search → Search
  recorded artifact_id depth why new s = record s {
    inadmissible = s.inadmissible ++ inadmissible_artifact H revocation artifact_id depth why ∷ [];
    seen = artifact_id ∷ s.seen;
    decisions = s.decisions ++ new;
  }

module _ (H : Host) (revocation : RevocationRecord) (b : Option CascadeBoundary)
    (key : Option H.KeyPair) where
  pub data Scanned (v : Visit) (c : CandidateArtifact) (s : Search) : Search → Type 0 where
    skipped : follows v c ≡ false → Scanned v c s s
    met_before :
        follows v c ≡ true
        → mem_str c.artifact_id s.seen ≡ true
        → Scanned v c s (enqueue (child v c) s)
    met_now :
        (new : List CascadeDecisionRecord)
        → follows v c ≡ true
        → mem_str c.artifact_id s.seen ≡ false
        → deny H revocation b key c.artifact_id ≡ ok new
        → Scanned v c s (
            enqueue (child v c) (
              recorded H revocation c.artifact_id
                (suc v.depth)
                (evidence c.artifact_id v.id revocation)
                new
                s))

  module _ (v : Visit) where
    pub scan_candidate-Scanned :
        (c : CandidateArtifact) (s t : Search)
        → scan_candidate H revocation b key v c s ≡ ok t
        → Scanned v c s t
    unfolding scan_candidate record_artifact
    scan_candidate-Scanned c s t e = elim (Bool-cases (mem_str c.artifact_id v.path)) [
      | inl loops ↦ subst (Scanned v c s) (inj_ok (rw loops at e)) (skipped (rw loops refl))
      | inr away ↦ elim (Bool-cases (is_some (references_artifact c v.id))) [
        | inr none_found ↦
            subst (Scanned v c s) (inj_ok (rw (away, none_found) at e))
              (skipped (rw (away, none_found) refl))
        | inl cites ↦
            let follow : follows v c ≡ true = rw (away, cites) refl in
            elim (Bool-cases (mem_str c.artifact_id s.seen)) [
              | inl old ↦
                  subst (Scanned v c s) (inj_ok (rw (away, cites, old) at e))
                    (met_before follow old)
              | inr fresh ↦ elim (Result-cases (deny H revocation b key c.artifact_id)) [
                | inl (raised, bad) ↦ err_ok (rw (away, cites, fresh, bad) at e)
                | inr (ds, good) ↦
                    subst (Scanned v c s) (inj_ok (rw (away, cites, fresh, good) at e))
                      (met_now ds follow fresh good)
              ]
            ]
      ]
    ]

    -- What each step of the inner loop keeps holds after it.
    pub scan_rule {κ} :
        (P : List CandidateArtifact → Search → Type κ)
        → ((c : CandidateArtifact) (cs : List CandidateArtifact) (s t : Search)
            → P (c ∷ cs) s
            → Scanned v c s t
            → P cs t)
        → (cs : List CandidateArtifact) (s t : Search) → P cs s
        → scan H revocation b key v cs s ≡ ok t
        → P [] t
    unfolding scan
    scan_rule P keep [] s t p e = subst (P []) (inj_ok e) p
    scan_rule P keep (c ∷ cs) s t p e =
        elim (Result-cases (scan_candidate H revocation b key v c s)) [
          | inl (raised, bad) ↦ err_ok (rw bad at e)
          | inr (u, good) ↦
              scan_rule P keep cs u t (keep c cs s u p (scan_candidate-Scanned c s u good))
                (rw good at e)
        ]

  -- What each round keeps holds at the end, where the frontier is empty.
  pub loop_rule {κ} :
      (artifacts : List CandidateArtifact) (m : ℕ) (P : Search → Type κ)
      → ((s t : Search) (v : Visit) (rest : List Visit)
          → s.frontier ≡ v ∷ rest
          → P s
          → expand H revocation b key artifacts m v rest s ≡ ok t
          → P t)
      → (fuel : ℕ) (s : Search) (r : CascadeResult) → P s
      → loop H revocation b key artifacts m fuel s ≡ ok r
      → (t : Search) × P t × (t.frontier ≡ []) × (r ≡ found t)
  unfolding loop found expand
  loop_rule artifacts m P keep zero s r p e = elim (frontier-cases s.frontier) [
    | inl empty ↦ (s, p, empty, sym (inj_ok (rw empty at e)))
    | inr (v, rest, more) ↦ err_ok (rw more at e)
  ]
  loop_rule artifacts m P keep (suc fuel) s r p e = elim (frontier-cases s.frontier) [
    | inl empty ↦ (s, p, empty, sym (inj_ok (rw empty at e)))
    | inr (v, rest, more) ↦ elim (Result-cases (expand H revocation b key artifacts m v rest s)) [
      | inl (raised, bad) ↦ err_ok (rw (more, bad) at e)
      | inr (t, good) ↦
          loop_rule artifacts m P keep fuel t r (keep s t v rest more p good) (rw (more, good) at e)
    ]
  ]

  -- The state in which the search begins.
  pub record_root-recorded :
      (s : Search)
      → record_root H revocation b key ≡ ok s
      → (new : List CascadeDecisionRecord) × (deny H revocation b key revocation.revoked_artifact_id
          ≡ ok new)
        × (s
            ≡ recorded H revocation revocation.revoked_artifact_id 0
                (root_evidence revocation)
                new
                (start revocation))
  unfolding record_root record_artifact validate_revocation_record
  record_root-recorded s h =
      elim (Result-cases (deny H revocation b key revocation.revoked_artifact_id)) [
        | inl (raised, e) ↦ absurd (ground (arith, h, e))
        | inr (new, e) ↦ (new, e, ground (arith, h, e))
      ]
