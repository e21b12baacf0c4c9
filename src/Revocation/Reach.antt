-- ===== src/Revocation/Reach.antt =====
-- Which artifacts `cascade_revocation` (concordia/cmpc/revocation.py) finds.
use concordia_protocol.Prelude.{
  ℕ, ◌≤◌, ◌<◌, String, true, false, ◌≡◌, refl, sym, ◌∙◌, ap, ap₂, ◌⊎◌, inl, inr, Option, List, [],
  ◌∷◌, arith, length, str_eq, eq_iff, leb, leb→le, Among, Bool-cases, ok, err_ok, inj_ok,
  Result-cases,
}
use mathlib.Core.Path.{subst}
use text.Mathlib.TextPositions.{eq_refl}
use concordia_protocol.Revocation.{
  RevocationRecord, CascadeBoundary, CandidateArtifact, InadmissibleArtifact, CascadeResult, Host,
}
use concordia_protocol.Revocation.Cascade.{
  Visit, Search, child, inadmissible_artifact, evidence, root_evidence, start, expand, found,
  rounds, clamp, by_id, record_root, cascade_from, cascade_revocation,
}
use concordia_protocol.Revocation.Steps.{
  follows, recorded, Scanned, skipped, met_before, met_now, scan_rule, loop_rule,
  record_root-recorded,
}
use concordia_protocol.Revocation.Walks.{Walk, at_root, Way, way_root, way_on, Way-Walk, Walk-Way}
use concordia_protocol.Revocation.Frontier.{
  Queued, Inv, Inv-enqueue, Inv-recorded, Inv-pop, true-false,
}

module _ (artifacts : List CandidateArtifact) (root : String) (m : ℕ) where
  -- The artifacts that are still to be looked at for the visit that is being made.
  abbrev Left : Visit → List CandidateArtifact → Visit → CandidateArtifact → Type 0
  Left v cs u c = (u ≡ v) × Among c cs

  -- An artifact that the visit does not lead to needs no step.
  turn_skipped :
      (v : Visit) (c : CandidateArtifact) (cs : List CandidateArtifact)
      → follows v c ≡ false
      → (u : Visit) (c' : CandidateArtifact) → follows u c' ≡ true
      → Left v (c ∷ cs) u c'
      → Left v cs u c'
  turn_skipped v c cs none_left u c' f (same, inl head) =
      absurd (true-false f (ap₂ follows same head ∙ none_left))
  turn_skipped v c cs none_left u c' f (same, inr tail) = (same, tail)

  turn_child :
      (v : Visit) (c : CandidateArtifact) (cs : List CandidateArtifact) (u : Visit)
      (c' : CandidateArtifact)
      → follows u c' ≡ true
      → Left v (c ∷ cs) u c'
      → (child u c' ≡ child v c) ⊎ Left v cs u c'
  turn_child v c cs u c' f (same, inl head) = inl (ap₂ child same head)
  turn_child v c cs u c' f (same, inr tail) = inr (same, tail)

  Inv-turn :
      {d : ℕ} {Todo Todo' : Visit → CandidateArtifact → Type 0} {done : List Visit} {s : Search}
      → Inv artifacts root m d Todo done s
      → ((v : Visit) (c : CandidateArtifact)
          → Among v done
          → v.depth < m
          → follows v c ≡ true
          → Todo v c
          → Todo' v c)
      → Inv artifacts root m d Todo' done s
  Inv-turn inv turn = record {
    rooted = inv.rooted;
    closed = λ v among lt c of f. elim (inv.closed v among lt c of f) [
      | inl q ↦ inl q
      | inr todo ↦ inr (turn v c among lt f todo)
    ];
    ways = inv.ways;
    marked = inv.marked;
    listed = inv.listed;
    walked = inv.walked;
    nearest = inv.nearest;
    ordered = inv.ordered;
    above = inv.above;
  }

  module _ (H : Host) (revocation : RevocationRecord) (b : Option CascadeBoundary)
      (key : Option H.KeyPair) where
    Inv-Scanned :
        (v : Visit) (c : CandidateArtifact) (cs : List CandidateArtifact) (done : List Visit)
        (s t : Search)
        → Among v done
        → v.depth < m
        → Among c artifacts
        → Inv artifacts root m v.depth (Left v (c ∷ cs)) done s
        → Scanned H revocation b key v c s t
        → Inv artifacts root m v.depth (Left v cs) done t
    unfolding child
    Inv-Scanned v c cs done s t among lt of inv (skipped off) =
        Inv-turn inv (λ u c' _ _. turn_skipped v c cs off u c')
    Inv-Scanned v c cs done s t among lt of inv (met_before on old) =
        Inv-enqueue artifacts root m inv (child v c) (way_on (inv.ways v (inl among)).0 c of on)
          (omega arith) refl old (turn_child v c cs)
    Inv-Scanned v c cs done s t among lt of inv (met_now new on fresh _) =
        let way = way_on (inv.ways v (inl among)).0 c of on in
        Inv-enqueue artifacts root m
          (Inv-recorded artifacts root m H revocation inv c.artifact_id
            (evidence c.artifact_id v.id revocation) new (Way-Walk artifacts root way) (omega arith)
            fresh)
          (child v c) way (omega arith) refl (rw (eq_refl c.artifact_id) refl) (turn_child v c cs)

    abbrev Round : Search → Type 0
    Round s = (d : ℕ) × (done : List Visit) × Inv artifacts root m d (λ _ _. ⊥) done s

    Round-expand :
        (s t : Search) (v : Visit) (rest : List Visit)
        → s.frontier ≡ v ∷ rest
        → Round s
        → expand H revocation b key artifacts m v rest s ≡ ok t
        → Round t
    unfolding expand
    Round-expand s t v rest more (d, done, inv) e =
        let popped = Inv-pop artifacts root m inv v rest more in
        elim (Bool-cases (leb m v.depth)) [
          | inl last ↦
              let kept = Inv-turn {Todo' = λ _ _. ⊥} popped (λ u c _ lt f left.
                omega (arith, lt, leb→le m v.depth last, ap (λ (z : Visit). z.depth) left.0)) in
              (
                v.depth,
                v ∷ done,
                subst (Inv artifacts root m v.depth (λ _ _. ⊥) (v ∷ done)) (inj_ok (rw last at e))
                    kept,
              )
          | inr above ↦
              let P = λ (cs : List CandidateArtifact) (u : Search).
                Inv artifacts root m v.depth (Left v cs) (v ∷ done) u
                × ((c : CandidateArtifact) → Among c cs → Among c artifacts) in
              let (kept, _) =
                scan_rule H revocation b key v P
                  (λ c cs u w p scanned. (
                    Inv-Scanned v c cs (v ∷ done) u w (inl refl) (ground (arith, above))
                        (p.1 c (inl refl)) p.0 scanned,
                    λ c' among. p.1 c' (inr among),
                  ))
                  artifacts (record s { frontier = rest }) t (popped, λ c among. among)
                  (rw above at e) in
              (v.depth, v ∷ done, Inv-turn kept (λ u c _ _ _ left. elim left.1 [ ]))
        ]

-- The entries of a result are the artifacts that a walk of at most `m` references leads to, each
-- with the length of its shortest walk.
pub record Exact (artifacts : List CandidateArtifact) (root : String) (m : ℕ) (r : CascadeResult)
    : Type 0 where
  pub walked :
      (i : InadmissibleArtifact)
      → Among i r.inadmissible
      → Walk artifacts root i.artifact_id i.cascade_depth × (i.cascade_depth ≤ m)
  pub shortest :
      (i : InadmissibleArtifact)
      → Among i r.inadmissible
      → (d : ℕ) → Walk artifacts root i.artifact_id d
      → i.cascade_depth ≤ d
  pub listed :
      (x : String) (d : ℕ)
      → Walk artifacts root x d
      → d ≤ m
      → (i : InadmissibleArtifact) × Among i r.inadmissible × (i.artifact_id ≡ x)

module _ (artifacts : List CandidateArtifact) (root : String) (m : ℕ) where
  -- With an empty frontier every way was made.
  made :
      {d : ℕ} {done : List Visit} {t : Search}
      → Inv artifacts root m d (λ _ _. ⊥) done t
      → t.frontier ≡ []
      → {v : Visit} → Way artifacts root v
      → v.depth ≤ m
      → Queued done t v
  unfolding child
  made inv empty way_root le = inv.rooted
  made {done = done} {t = t} inv empty (way_on {v} way c of f) le =
      elim (made inv empty way (omega (arith, le))) [
        | inl before ↦ elim (inv.closed v before (omega (arith, le)) c of f) [
          | inl q ↦ q
          | inr never ↦ absurd never
        ]
        | inr waits ↦ absurd (subst (Among v) empty waits)
      ]

  Inv-Exact :
      {d : ℕ} {done : List Visit} {t : Search}
      → Inv artifacts root m d (λ _ _. ⊥) done t
      → t.frontier ≡ []
      → Exact artifacts root m (found t)
  unfolding found
  Inv-Exact inv empty = record {
    walked = λ i among. let (walk, le, _) = inv.walked i among in (walk, le);
    shortest = λ i among d walk.
        let (v, way, same, le) = Walk-Way artifacts root walk in
        elim (Bool-cases (leb v.depth m)) [
          | inl within ↦
              omega (
                arith,
                le,
                inv.nearest i among v (made inv empty way (leb→le v.depth m within)) same,
              )
          | inr beyond ↦ ground (arith, le, beyond, (inv.walked i among).1)
        ];
    listed = λ x d walk within.
        let (v, way, same, le) = Walk-Way artifacts root walk in
        let (i, among, at_v) = inv.listed v.id (inv.marked v (made inv empty way (omega arith))) in
        (i, among, at_v ∙ same);
  }

module _ (H : Host) (revocation : RevocationRecord) (b : Option CascadeBoundary)
    (key : Option H.KeyPair) where
  Round-root :
      (artifacts : List CandidateArtifact) (m : ℕ) (s : Search)
      → record_root H revocation b key ≡ ok s
      → Round artifacts revocation.revoked_artifact_id m H revocation b key s
  unfolding start inadmissible_artifact
  Round-root artifacts m s e =
      let (new, _, same) = record_root-recorded H revocation b key s e in
      let root = revocation.revoked_artifact_id in
      let first = recorded H revocation root 0 (root_evidence revocation) new (start revocation) in
      let inv : Inv artifacts root m 0 (λ _ _. ⊥) [] first = record {
        rooted = inr (inl refl);
        closed = λ v among. absurd among;
        ways = λ v q. elim q [
          | inl never ↦ absurd never
          | inr (inl here) ↦
              subst (λ z. Way artifacts root z × (z.depth ≤ m)) (sym here) (way_root, omega arith)
          | inr (inr never) ↦ absurd never
        ];
        marked = λ v q. elim q [
          | inl never ↦ absurd never
          | inr (inl here) ↦
              ground (arith, (eq_iff root v.id).1 (ap (λ (z : Visit). z.id) (sym here)))
          | inr (inr never) ↦ absurd never
        ];
        listed = λ x seen. (
          inadmissible_artifact H revocation root 0 (root_evidence revocation),
          inl refl,
          (eq_iff root x).0 (ground (arith, seen)),
        );
        walked = λ i among. elim among [
          | inl here ↦
              subst
                (λ z.
                  Walk artifacts root z.artifact_id z.cascade_depth
                  × (z.cascade_depth ≤ m)
                  × (z.cascade_depth ≤ 1))
                (sym here) (at_root, omega arith, omega arith)
          | inr never ↦ absurd never
        ];
        nearest = λ i among v q same. elim among [
          | inl here ↦ omega (arith, ap (λ (z : InadmissibleArtifact). z.cascade_depth) here)
          | inr never ↦ absurd never
        ];
        ordered = (λ w away. absurd away, tt);
        above = λ v among. elim among [
          | inl here ↦ omega (arith, ap (λ (z : Visit). z.depth) here)
          | inr never ↦ absurd never
        ];
      } in
      (0, [], subst (Inv artifacts root m 0 (λ _ _. ⊥) []) (sym same) inv)

  -- Unless its scope is the single artifact, a revocation that is carried through makes inadmissible
  -- exactly the artifacts from which references lead to the revoked artifact in at most
  -- `cascade_depth` steps, and never more than 8; the depth noted for an artifact is the least
  -- number of references that leads to it.
  pub cascade_revocation-Exact :
      (candidates : List CandidateArtifact) (r : CascadeResult)
      → str_eq revocation.revocation_scope "single_artifact" ≡ false
      → cascade_revocation H revocation b key candidates ≡ ok r
      → Exact (by_id candidates) revocation.revoked_artifact_id (clamp revocation.cascade_depth) r
  unfolding cascade_revocation cascade_from
  cascade_revocation-Exact candidates r cascade e =
      elim (Result-cases (record_root H revocation b key)) [
        | inl (raised, bad) ↦ err_ok (rw bad at e)
        | inr (s, good) ↦
            let m = clamp revocation.cascade_depth in
            let artifacts = by_id candidates in
            let root = revocation.revoked_artifact_id in
            let (t, (_, _, inv), empty, same) =
              loop_rule H revocation b key artifacts m (Round artifacts root m H revocation b key)
                (Round-expand artifacts root m H revocation b key) (rounds (length artifacts) m) s r
                (Round-root artifacts m s good) (rw (good, cascade) at e) in
            subst (Exact artifacts root m) (sym same) (Inv-Exact artifacts root m inv empty)
      ]
