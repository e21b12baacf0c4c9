-- ===== src/Revocation/Cascade.antt =====
-- `cascade_revocation` of concordia/cmpc/revocation.py: a breadth-first search over the references
-- between artifacts, and `find_revocation_for_references`. `out_of_fuel` is the one outcome that
-- the code has not.
use Prim.Native.String.{◌++◌ as str_append}
use concordia_protocol.Prelude.{
  ℕ, zero, suc, ◌+◌, ◌*◌, String, Bool, false, not, ◌&&◌, Option, none, some, List, [], ◌∷◌, ◌++◌,
  map, str_eq, ltb, leb, if◌then◌else◌, length, any, mem_str, is_some, Result, ok, err, ◌>>=◌, ◌>>◌,
  guard,
}
use concordia_protocol.Prelude.Dict.{Dict, get, put}
use concordia_protocol.Revocation.{
  Reference, link, not_dict, RevocationRecord, CascadeDecisionRecord, CascadeBoundary,
  CandidateArtifact, InadmissibleArtifact, CascadeResult, CascadeError, invalid_record, out_of_fuel,
  PredicateFailureReason, Host,
}
use concordia_protocol.Revocation.Decisions.{emit_committed_deny}

abbrev pub cascade_relationships : List String
cascade_relationships = "fulfills" ∷ "extends" ∷ "approves" ∷ "revokes" ∷ []

unfoldable pub eq_text : Option String → String → Bool
eq_text none s = false
eq_text (some t) s = str_eq t s

unfoldable pub in_relationships : Option String → Bool
in_relationships none = false
in_relationships (some r) = mem_str r cascade_relationships

unfoldable pub is_reference_to : String → Reference → Bool
is_reference_to target not_dict = false
is_reference_to target (link id relationship) = eq_text id target && in_relationships relationship

unfoldable pub first_reference : String → List Reference → Option Reference
first_reference target [] = none
first_reference target (r ∷ rs) =
    let later = first_reference target rs in if is_reference_to target r then some r else later

-- `_references_artifact`.
unfoldable pub references_artifact : CandidateArtifact → String → Option Reference
references_artifact c target = first_reference target c.references

-- `_evidence`, and the text for the revoked artifact itself.
unfoldable pub evidence : String → String → RevocationRecord → String
evidence artifact_id referenced_id revocation = str_append "artifact " (
    str_append artifact_id (
      str_append " references " (
        str_append revocation.revoked_artifact_type (
          str_append " " (
            str_append referenced_id
              (str_append " which is revoked by " revocation.revocation_id))))))

unfoldable pub root_evidence : RevocationRecord → String
root_evidence revocation = str_append "artifact " (
    str_append revocation.revoked_artifact_id
      (str_append " is revoked by " revocation.revocation_id))

-- `validate_revocation_record` of concordia/cmpc/schemas.py, whose schema is the host's.
unfoldable pub revokes : String → Reference → Bool
revokes target not_dict = false
revokes target (link id relationship) = eq_text relationship "revokes" && eq_text id target

unfoldable pub validate_revocation_record : Host → RevocationRecord → Result CascadeError (Unit {0})
validate_revocation_record H r =
    guard (H.revocation_schema r) invalid_record
    >> guard (any (revokes r.revoked_artifact_id) r.references) invalid_record

-- `by_id`: the last artifact of an identifier, at the place of the first.
unfoldable pub index : Dict CandidateArtifact → List CandidateArtifact → Dict CandidateArtifact
index d [] = d
index d (c ∷ cs) = index (put d c.artifact_id c) cs

unfoldable pub by_id : List CandidateArtifact → List CandidateArtifact
by_id cs = map (λ (e : String × CandidateArtifact). e.1) (index [] cs)

-- An item of the frontier: an artifact, its depth, and the artifacts on the way to it.
pub record Visit : Type 0 where
  pub id : String
  pub depth : ℕ
  pub path : List String

-- The variables of the loop.
pub record Search : Type 0 where
  pub inadmissible : List InadmissibleArtifact
  pub decisions : List CascadeDecisionRecord
  pub seen : List String
  pub frontier : List Visit

module _ (H : Host) (revocation : RevocationRecord) where
  unfoldable pub inadmissible_artifact : String → ℕ → String → InadmissibleArtifact
  inadmissible_artifact artifact_id depth why = record {
    artifact_id = artifact_id;
    reason = PredicateFailureReason.revoked;
    revoked_via_revocation_id = revocation.revocation_id;
    cascade_depth = depth;
    evidence = why;
  }

  -- The committed deny, when both the boundary and the key are there (`emit`).
  unfoldable pub deny :
      Option CascadeBoundary
      → Option H.KeyPair
      → String
      → Result CascadeError (List CascadeDecisionRecord)
  deny (some b) (some key) artifact_id =
      emit_committed_deny H revocation b key artifact_id >>= λ d. ok (d ∷ [])
  deny _ _ artifact_id = ok []

unfoldable pub child : Visit → CandidateArtifact → Visit
child v c = record { id = c.artifact_id; depth = suc v.depth; path = c.artifact_id ∷ v.path }

unfoldable pub enqueue : Visit → Search → Search
enqueue v s = record s { frontier = s.frontier ++ v ∷ [] }

unfoldable pub found : Search → CascadeResult
found s = record { inadmissible = s.inadmissible; decisions = s.decisions }

module _ (H : Host) (revocation : RevocationRecord) (b : Option CascadeBoundary)
    (key : Option H.KeyPair) where
  -- The entry for an artifact met for the first time.
  unfoldable pub record_artifact : String → ℕ → String → Search → Result CascadeError Search
  record_artifact artifact_id depth why s = deny H revocation b key artifact_id >>= λ new.
      ok (record s {
        inadmissible =
            s.inadmissible ++ inadmissible_artifact H revocation artifact_id depth why ∷ [];
        seen = artifact_id ∷ s.seen;
        decisions = s.decisions ++ new;
      })

  -- The body of the inner loop.
  unfoldable pub scan_candidate : Visit → CandidateArtifact → Search → Result CascadeError Search
  scan_candidate v c s =
      if mem_str c.artifact_id v.path
      then ok s
      else if not (is_some (references_artifact c v.id))
      then ok s
      else if mem_str c.artifact_id s.seen
      then ok (enqueue (child v c) s)
      else (record_artifact c.artifact_id (suc v.depth) (evidence c.artifact_id v.id revocation) s
          >>= λ t. ok (enqueue (child v c) t))

  unfoldable pub scan : Visit → List CandidateArtifact → Search → Result CascadeError Search
  scan v [] s = ok s
  scan v (c ∷ cs) s = scan_candidate v c s >>= λ t. scan v cs t

  -- One round of the outer loop, on the popped item.
  unfoldable pub expand :
      List CandidateArtifact → ℕ → Visit → List Visit → Search → Result CascadeError Search
  expand artifacts max_depth v rest s =
      let popped = record s { frontier = rest } in
      if leb max_depth v.depth then ok popped else scan v artifacts popped

  unfoldable pub loop : List CandidateArtifact → ℕ → ℕ → Search → Result CascadeError CascadeResult
  loop artifacts max_depth zero s = elim s.frontier [
    | [] ↦ ok (found s)
    | v ∷ rest ↦ err out_of_fuel
  ]
  loop artifacts max_depth (suc fuel) s = elim s.frontier [
    | [] ↦ ok (found s)
    | v ∷ rest ↦ expand artifacts max_depth v rest s >>= λ t. loop artifacts max_depth fuel t
  ]

-- The rounds that one item of the frontier can lead to: itself, and with `k` levels left the rounds
-- of at most `n` children.
unfoldable pub rounds : ℕ → ℕ → ℕ
rounds n zero = 1
rounds n (suc k) = 1 + n * rounds n k

unfoldable pub clamp : ℕ → ℕ
clamp depth = if ltb 8 depth then 8 else depth

unfoldable pub start : RevocationRecord → Search
start revocation = record {
  inadmissible = [];
  decisions = [];
  seen = [];
  frontier =
      record {
        id = revocation.revoked_artifact_id;
        depth = 0;
        path = revocation.revoked_artifact_id ∷ [];
      }
      ∷ [];
}

module _ (H : Host) (revocation : RevocationRecord) (b : Option CascadeBoundary)
    (key : Option H.KeyPair) where
  -- The entry for the revoked artifact itself.
  unfoldable pub record_root : Result CascadeError Search
  record_root =
      validate_revocation_record H revocation
      >> record_artifact H revocation b key revocation.revoked_artifact_id 0
          (root_evidence revocation) (start revocation)

  unfoldable pub cascade_from : List CandidateArtifact → Search → Result CascadeError CascadeResult
  cascade_from candidates s =
      let artifacts = by_id candidates in
      let max_depth = clamp revocation.cascade_depth in
      if str_eq revocation.revocation_scope "single_artifact"
      then ok (found s)
      else loop H revocation b key artifacts max_depth (rounds (length artifacts) max_depth) s

  unfoldable pub cascade_revocation : List CandidateArtifact → Result CascadeError CascadeResult
  cascade_revocation candidates = record_root >>= λ s. cascade_from candidates s

-- `find_revocation_for_references`: the first reference whose revocation is in effect. The error is
-- the exception for a date that is none.
unfoldable pub find_revocation :
    (H : Host)
    → List Reference
    → Dict RevocationRecord
    → ℕ
    → Result CascadeError (Option RevocationRecord)
find_revocation H [] records now = ok none
find_revocation H (not_dict ∷ refs) records now = find_revocation H refs records now
find_revocation H (link none relationship ∷ refs) records now = find_revocation H refs records now
find_revocation H (link (some id) relationship ∷ refs) records now =
    let later = find_revocation H refs records now in
    elim (get records id) [
      | none ↦ later
      | some r ↦ elim (H.instant r.effective_at) [
        | none ↦ err invalid_record
        | some effective_at ↦ if leb effective_at now then ok (some r) else later
      ]
    ]
