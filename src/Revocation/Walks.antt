-- ===== src/Revocation/Walks.antt =====
-- Walks over the references between artifacts, which `cascade_revocation` follows
-- (concordia/cmpc/revocation.py).
use concordia_protocol.Prelude.{
  ℕ, suc, ◌≤◌, String, true, false, ◌≡◌, refl, sym, inl, inr, List, [], ◌∷◌, arith, str_eq, eq_iff,
  mem_str, is_some, Among, Bool-cases,
}
use mathlib.Core.Path.{subst}
use concordia_protocol.Revocation.{CandidateArtifact}
use concordia_protocol.Revocation.Cascade.{references_artifact, Visit, child}
use concordia_protocol.Revocation.Steps.{follows}

module _ (artifacts : List CandidateArtifact) (root : String) where
  -- An artifact is so many references away from the root; artifacts may be met again on the way.
  pub data Walk : String → ℕ → Type 0 where
    at_root : Walk root 0
    onward :
        {x : String} {d : ℕ}
        → Walk x d
        → (c : CandidateArtifact) → Among c artifacts
        → is_some (references_artifact c x) ≡ true
        → Walk c.artifact_id (suc d)

  abbrev pub root_visit : Visit
  root_visit = record { id = root; depth = 0; path = root ∷ [] }

  -- A visit that the search can make: no artifact is met twice on its path.
  pub data Way : Visit → Type 0 where
    way_root : Way root_visit
    way_on :
        {v : Visit}
        → Way v
        → (c : CandidateArtifact) → Among c artifacts
        → follows v c ≡ true
        → Way (child v c)

  pub follows-cites :
      (v : Visit) (c : CandidateArtifact)
      → follows v c ≡ true
      → (mem_str c.artifact_id v.path ≡ false) × (is_some (references_artifact c v.id) ≡ true)
  follows-cites v c h = ground (arith, h)

  pub Way-Walk : {v : Visit} → Way v → Walk v.id v.depth
  unfolding child
  Way-Walk way_root = at_root
  Way-Walk (way_on {v} w c among h) = onward (Way-Walk w) c among (follows-cites v c h).1

  -- An artifact that is met on the path of a visit has a visit of its own, no deeper.
  met_earlier :
      {v : Visit}
      → Way v
      → (x : String) → mem_str x v.path ≡ true
      → (u : Visit) × Way u × (u.id ≡ x) × (u.depth ≤ v.depth)
  unfolding child
  met_earlier way_root x h =
      (root_visit, way_root, (eq_iff root x).0 (ground (arith, h)), omega arith)
  met_earlier (way_on {v} w c among f) x h = elim (Bool-cases (str_eq c.artifact_id x)) [
    | inl here ↦ (child v c, way_on w c among f, (eq_iff c.artifact_id x).0 here, omega arith)
    | inr before ↦
        let (u, way, same, le) = met_earlier w x (rw before at h) in
        (u, way, same, omega (arith, le))
  ]

  -- Every walk can be cut down to a visit of the search, no deeper.
  pub Walk-Way : {x : String} {d : ℕ} → Walk x d → (v : Visit) × Way v × (v.id ≡ x) × (v.depth ≤ d)
  unfolding child
  Walk-Way at_root = (root_visit, way_root, refl, omega arith)
  Walk-Way (onward {x} {d} w c among cites) =
      let (v, way, same, le) = Walk-Way w in
      let cites_v : is_some (references_artifact c v.id) ≡ true =
        subst (λ y. is_some (references_artifact c y) ≡ true) (sym same) cites in
      elim (Bool-cases (mem_str c.artifact_id v.path)) [
        | inl loops ↦
            let (u, way_u, same_u, le_u) = met_earlier way c.artifact_id loops in
            (u, way_u, same_u, omega (arith, le, le_u))
        | inr away ↦
            (child v c, way_on way c among (rw (away, cites_v) refl), refl, omega (arith, le))
      ]
