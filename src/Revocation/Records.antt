-- ===== src/Revocation/Records.antt =====
-- The entries of the result of `cascade_revocation` (concordia/cmpc/revocation.py) and the
-- decisions committed with them.
use concordia_protocol.Prelude.{
  ℕ, suc, String, true, false, ◌≡◌, ◌≢◌, refl, sym, ◌∙◌, ap, inl, inr, some, List, [], ◌∷◌, ◌++◌,
  arith, length, str_eq, leb, mem_str, Among, Among-snoc, Bool-cases, ok, err_ok, inj_ok,
  Result-cases, eq_iff,
}
use mathlib.Core.Path.{subst}
use concordia_protocol.Revocation.{
  RevocationRecord, CascadeDecisionRecord, CascadeBoundary, CandidateArtifact, InadmissibleArtifact,
  CascadeResult, PredicateFailureReason, Host,
}
use concordia_protocol.Revocation.Decisions.{emit_committed_deny}
use concordia_protocol.Revocation.Cascade.{
  Visit, Search, enqueue, inadmissible_artifact, evidence, root_evidence, start, expand, found,
  rounds, clamp, by_id, deny, record_root, cascade_from, cascade_revocation,
}
use concordia_protocol.Revocation.Steps.{
  recorded, Scanned, skipped, met_before, met_now, scan_rule, loop_rule, record_root-recorded,
}
use concordia_protocol.Revocation.Denials.{Denies, committed-Denies}
use concordia_protocol.Revocation.Frontier.{true-false}

-- No two entries are for one artifact.
abbrev pub Distinct : List InadmissibleArtifact → Type 0
Distinct [] = Unit
Distinct (i ∷ is) =
    ((j : InadmissibleArtifact) → Among j is → j.artifact_id ≢ i.artifact_id) × Distinct is

Distinct-append :
    (is : List InadmissibleArtifact) (i : InadmissibleArtifact)
    → Distinct is
    → ((j : InadmissibleArtifact) → Among j is → j.artifact_id ≢ i.artifact_id)
    → Distinct (is ++ i ∷ [])
Distinct-append [] i h new = (λ j away _. absurd away, tt)
Distinct-append (k ∷ is) i h new = (
  λ j among same. elim (Among-snoc j i is among) [
    | inl old ↦ h.0 j old same
    | inr last ↦ new k (inl refl) (sym same ∙ ap (λ (z : InadmissibleArtifact). z.artifact_id) last)
  ],
  Distinct-append is i h.1 (λ j among. new j (inr among)),
)

module _ (H : Host) (revocation : RevocationRecord) (b : CascadeBoundary) (key : H.KeyPair) where
  -- For each entry, in their order, there is the committed decision for its artifact, which is a
  -- signed deny because of the revocation.
  abbrev pub InStep : List InadmissibleArtifact → List CascadeDecisionRecord → Type 0
  InStep [] [] = Unit
  InStep (i ∷ is) (d ∷ ds) =
      (emit_committed_deny H revocation b key i.artifact_id ≡ ok d)
      × Denies H key revocation b d
      × InStep is ds
  InStep _ _ = ⊥

  InStep-append :
      (is : List InadmissibleArtifact) (ds : List CascadeDecisionRecord) (i : InadmissibleArtifact)
      (d : CascadeDecisionRecord)
      → InStep is ds
      → emit_committed_deny H revocation b key i.artifact_id ≡ ok d
      → InStep (is ++ i ∷ []) (ds ++ d ∷ [])
  InStep-append [] [] i d h e = (e, committed-Denies H key revocation b i.artifact_id d e, tt)
  InStep-append [] (c ∷ ds) i d h e = elim h [ ]
  InStep-append (j ∷ is) [] i d h e = elim h [ ]
  InStep-append (j ∷ is) (c ∷ ds) i d h e = (h.0, h.1, InStep-append is ds i d h.2 e)

  deny-committed :
      (id : String) (new : List CascadeDecisionRecord)
      → deny H revocation (some b) (some key) id ≡ ok new
      → (d : CascadeDecisionRecord) × (emit_committed_deny H revocation b key id ≡ ok d)
        × (new ≡ d ∷ [])
  unfolding deny
  deny-committed id new h = elim (Result-cases (emit_committed_deny H revocation b key id)) [
    | inl (raised, bad) ↦ err_ok (rw bad at h)
    | inr (d, good) ↦ (d, good, sym (inj_ok (rw good at h)))
  ]

  pub record Once (r : CascadeResult) : Type 0 where
    pub distinct : Distinct r.inadmissible
    pub reasons :
        (i : InadmissibleArtifact)
        → Among i r.inadmissible
        → (i.reason ≡ PredicateFailureReason.revoked)
          × (i.revoked_via_revocation_id ≡ revocation.revocation_id)
    pub in_step : InStep r.inadmissible r.decisions

  record Kept (s : Search) : Type 0 where
    once : Once (found s)
    seen : (i : InadmissibleArtifact) → Among i s.inadmissible → mem_str i.artifact_id s.seen ≡ true

  Kept-recorded :
      (s : Search) (id why : String) (depth : ℕ) (new : List CascadeDecisionRecord)
      → Kept s
      → mem_str id s.seen ≡ false
      → deny H revocation (some b) (some key) id ≡ ok new
      → Kept (recorded H revocation id depth why new s)
  unfolding found inadmissible_artifact
  Kept-recorded s id why depth new k fresh e =
      let (d, good, one) = deny-committed id new e in
      let i = inadmissible_artifact H revocation id depth why in
      record {
        once = record {
          distinct = Distinct-append s.inadmissible i k.once.distinct (λ j among same.
              true-false (subst (λ x. mem_str x s.seen ≡ true) same (k.seen j among)) fresh);
          reasons = λ j among. elim (Among-snoc j i s.inadmissible among) [
            | inl old ↦ k.once.reasons j old
            | inr last ↦ (
              ap (λ (z : InadmissibleArtifact). z.reason) last,
              ap (λ (z : InadmissibleArtifact). z.revoked_via_revocation_id) last,
            )
          ];
          in_step =
              subst (λ ds. InStep (s.inadmissible ++ i ∷ []) (s.decisions ++ ds)) (sym one)
                (InStep-append s.inadmissible s.decisions i d k.once.in_step good);
        };
        seen = λ j among. elim (Among-snoc j i s.inadmissible among) [
          | inl old ↦ ground (arith, k.seen j old)
          | inr last ↦ ground (
            arith,
            (eq_iff id j.artifact_id).1
                (ap (λ (z : InadmissibleArtifact). z.artifact_id) (sym last)),
          )
        ];
      }

  Kept-Scanned :
      (v : Visit) (c : CandidateArtifact) (s t : Search)
      → Kept s
      → Scanned H revocation (some b) (some key) v c s t
      → Kept t
  unfolding enqueue found
  Kept-Scanned v c s t k (skipped _) = k
  Kept-Scanned v c s t k (met_before _ _) = record { once = k.once; seen = k.seen }
  Kept-Scanned v c s t k (met_now new _ fresh good) =
      let after =
        Kept-recorded s c.artifact_id (evidence c.artifact_id v.id revocation) (suc v.depth) new k
          fresh good in
      record { once = after.once; seen = after.seen }

  Kept-expand :
      (artifacts : List CandidateArtifact) (m : ℕ) (s t : Search) (v : Visit) (rest : List Visit)
      → s.frontier ≡ v ∷ rest
      → Kept s
      → expand H revocation (some b) (some key) artifacts m v rest s ≡ ok t
      → Kept t
  unfolding expand found
  Kept-expand artifacts m s t v rest more k e =
      let popped : Kept (record s { frontier = rest }) = record { once = k.once; seen = k.seen } in
      elim (Bool-cases (leb m v.depth)) [
        | inl last ↦ subst Kept (inj_ok (rw last at e)) popped
        | inr above ↦
            scan_rule H revocation (some b) (some key) v (λ _ u. Kept u)
              (λ c _ u w p sc. Kept-Scanned v c u w p sc) artifacts (record s { frontier = rest }) t
              popped (rw above at e)
      ]

  Kept-root : (s : Search) → record_root H revocation (some b) (some key) ≡ ok s → Kept s
  unfolding start found
  Kept-root s e =
      let (new, good, same) = record_root-recorded H revocation (some b) (some key) s e in
      let blank : Kept (start revocation) = record {
        once = record { distinct = tt; reasons = λ i never. absurd never; in_step = tt };
        seen = λ i never. absurd never;
      } in
      subst Kept (sym same) (
        Kept-recorded (start revocation) revocation.revoked_artifact_id (root_evidence revocation) 0
          new blank refl good)

  -- With a boundary and a key, a revocation that is carried through names no artifact twice, says of
  -- each that this revocation revoked it, and commits one decision for each, in their order: the one
  -- that `_emit_committed_deny` makes for the artifact, which is a deny that refers to the revocation
  -- and is hashed and signed with the key.
  pub cascade_revocation-Once :
      (candidates : List CandidateArtifact) (r : CascadeResult)
      → cascade_revocation H revocation (some b) (some key) candidates ≡ ok r
      → Once r
  unfolding cascade_revocation cascade_from
  cascade_revocation-Once candidates r e =
      elim (Result-cases (record_root H revocation (some b) (some key))) [
        | inl (raised, bad) ↦ err_ok (rw bad at e)
        | inr (s, good) ↦
            let kept = Kept-root s good in
            elim (Bool-cases (str_eq revocation.revocation_scope "single_artifact")) [
              | inl single ↦ subst Once (inj_ok (rw (good, single) at e)) kept.once
              | inr cascade ↦
                  let m = clamp revocation.cascade_depth in
                  let artifacts = by_id candidates in
                  let (t, k, _, same) =
                    loop_rule H revocation (some b) (some key) artifacts m Kept
                      (Kept-expand artifacts m) (rounds (length artifacts) m) s r kept
                      (rw (good, cascade) at e) in
                  subst Once (sym same) k.once
            ]
      ]
