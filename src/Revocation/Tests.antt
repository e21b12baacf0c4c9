-- ===== src/Revocation/Tests.antt =====
-- A cascade over four artifacts whose references run in a circle, and the theorems at it.
use Prim.Native.String.{◌++◌ as str_append}
use text.Mathlib.TextPositions.{eq_refl}
use concordia_protocol.Prelude.{
  ℕ, String, ◌≡◌, ◌≢◌, refl, ◌↔◌, true, false, none, some, List, [], ◌∷◌, map, str_eq, length, ◌≤◌,
  if◌then◌else◌, ok, err,
}
use concordia_protocol.Prelude.Dict.{get, put}
use concordia_protocol.Revocation.{
  PyValue, text_value, int_value, dict_value, list_value, Entries, no_entries, entry, no_items,
  item, Reference, link, not_dict, RevocationRecord, CascadeDecisionRecord, CascadeBoundary,
  CandidateArtifact, InadmissibleArtifact, CascadeResult, out_of_fuel, Host,
}
use concordia_protocol.Revocation.Decisions.{
  materialize_plain, preimage, to_dict, bound_fields, canonical, sign_cascade_decision_record,
  verify_cascade_decision_record, raw, emit_committed_deny, emit_cascade_decision, or_digest,
  sha256_hex, entry_if, reads_to_dicts, read_to_dict, signature_to_dict,
}
use concordia_protocol.Revocation.Cascade.{
  cascade_revocation, cascade_from, record_root, record_artifact, validate_revocation_record, start,
  deny, loop, expand, scan, scan_candidate, references_artifact, first_reference, is_reference_to,
  eq_text, in_relationships, revokes, by_id, index, clamp, rounds, found, enqueue, child,
  inadmissible_artifact, evidence, root_evidence, find_revocation,
}
use concordia_protocol.Revocation.Fuel.{cascade_revocation_ends}
use concordia_protocol.Revocation.Reach.{Exact, cascade_revocation-Exact}
use concordia_protocol.Revocation.Records.{Once, cascade_revocation-Once}
use concordia_protocol.Revocation.Snapshot.{Plain, height, materialize_plain_iff}
use concordia_protocol.Revocation.Signing.{Sound, verify-sign_cascade_decision_record}

-- The texts of a dict one after the other.
abbrev text_of : Entries → String
text_of (entry k (text_value s) es) = str_append s (text_of es)
text_of (entry k v es) = text_of es
text_of no_entries = ""

abbrev host : Host
host = record {
  KeyPair = String;
  PublicKey = String;
  public_key = λ k. k;
  revocation_schema = λ r. true;
  decision_schema = λ v. true;
  canonicalize_jcs = λ es. some (text_of es);
  sha256 = λ s. s;
  sign = λ k s. k;
  verify = λ k signature s. str_eq signature k;
  b64encode = λ s. s;
  b64decode = λ s. some s;
  str_of = λ v. elim v [ text_value s ↦ s | _ ↦ "" ];
  float_is_zero = λ s. false;
  instant = λ s. if str_eq s "noon" then some 12 else some 20;
}

abbrev pem : String
pem = "key"

abbrev key : host.KeyPair
key = pem

abbrev withdrawal : RevocationRecord
withdrawal = record {
  revocation_id = "rev-1";
  revoked_artifact_id = "mandate";
  revoked_artifact_type = "mandate";
  revocation_scope = "cascade_to_dependents";
  issuer_did = "did:ann";
  issued_at = "noon";
  effective_at = "noon";
  reason = "lost key";
  references = link (some "mandate") (some "revokes") ∷ [];
  cascade_depth = 2;
  signature = none;
  supersedes = none;
  extensions = none;
}

abbrev artifact : String → String → String → CandidateArtifact
artifact id target relationship = record {
  artifact_id = id;
  artifact_type = "commitment";
  references = not_dict ∷ link (some target) (some relationship) ∷ [];
}

-- The receipt is two references from the mandate, the far commitment three; the note mentions it.
abbrev candidates : List CandidateArtifact
candidates =
    artifact "receipt" "commitment" "approves"
    ∷ artifact "note" "mandate" "mentions"
    ∷ record {
      artifact_id = "commitment";
      artifact_type = "commitment";
      references =
          link (some "mandate") (some "fulfills") ∷ link (some "receipt") (some "extends") ∷ [];
    }
    ∷ artifact "far" "receipt" "extends"
    ∷ []

abbrev boundary : CascadeBoundary
boundary = record {
  boundary_id = "gate";
  verifier = "did:bob";
  policy_version = "1";
  source_digest = "src";
  coordinate = 7;
  capability_digest = none;
  request_digest = none;
  approval_receipt_ref = none;
}

abbrev pub summary : List InadmissibleArtifact → List (String × ℕ)
summary is = map (λ (i : InadmissibleArtifact). (i.artifact_id, i.cascade_depth)) is

-- Runs the cascade to the end.
abbrev whole : CascadeResult → List (String × ℕ) × ℕ
whole r = (summary r.inadmissible, length r.decisions)

abbrev signed_result : CascadeResult
signed_result = elim (cascade_revocation host withdrawal (some boundary) (some key) candidates) [
  | ok r ↦ r
  | err e ↦ record { inadmissible = []; decisions = [] }
]

program : Unit {0}
unfolding cascade_revocation cascade_from record_root record_artifact validate_revocation_record
    start deny loop expand scan scan_candidate references_artifact first_reference is_reference_to
    eq_text in_relationships revokes by_id index clamp rounds found enqueue child
    inadmissible_artifact evidence root_evidence find_revocation put emit_committed_deny
    emit_cascade_decision or_digest sha256_hex sign_cascade_decision_record canonical preimage
    to_dict bound_fields entry_if reads_to_dicts read_to_dict signature_to_dict materialize_plain
program = tt

cascaded :
    cascade_revocation host withdrawal (some boundary) (some key) candidates ≡ ok signed_result
unfolding program
cascaded = refl

cascaded_whole : whole signed_result ≡ (("mandate", 0) ∷ ("commitment", 1) ∷ ("receipt", 2) ∷ [], 3)
unfolding program
cascaded_whole = refl

cascade_revocation_ends_example :
    cascade_revocation host withdrawal (some boundary) (some key) candidates ≢ err out_of_fuel
cascade_revocation_ends_example =
    cascade_revocation_ends host withdrawal (some boundary) (some key) candidates

cascade_revocation-Exact_example : Exact (by_id candidates) "mandate" (clamp 2) signed_result
cascade_revocation-Exact_example =
    cascade_revocation-Exact host withdrawal (some boundary) (some key) candidates signed_result
      refl cascaded

cascade_revocation-Once_example : Once host withdrawal boundary key signed_result
cascade_revocation-Once_example =
    cascade_revocation-Once host withdrawal boundary key candidates signed_result cascaded

abbrev nested : PyValue
nested =
    dict_value true (entry (some "k") (list_value true (item (int_value 3) no_items)) no_entries)

materialize_plain_iff_example :
    (materialize_plain nested 0 ≡ some nested)
    ↔ ((nested ≡ nested) × Plain nested × (height nested ≤ 64))
materialize_plain_iff_example = materialize_plain_iff nested nested

laws : Sound host
laws = record {
  b64decode-b64encode = λ s. refl;
  str_of-text_value = λ s. refl;
  verify-sign = λ k s. eq_refl k;
}

abbrev decision : CascadeDecisionRecord
decision = emit_cascade_decision "cap" "req" boundary [] (some "rev-1")

abbrev signed_decision : CascadeDecisionRecord
signed_decision = elim (sign_cascade_decision_record host decision key) [
  | ok d ↦ d
  | err e ↦ decision
]

decision_signed : sign_cascade_decision_record host decision key ≡ ok signed_decision
unfolding program
decision_signed = refl

verify-sign_cascade_decision_record_example :
    verify_cascade_decision_record host (raw (to_dict signed_decision)) key ≡ true
verify-sign_cascade_decision_record_example =
    verify-sign_cascade_decision_record host laws decision signed_decision key decision_signed

abbrev refs : List Reference
refs = link (some "other") none ∷ link (some "mandate") (some "fulfills") ∷ []

in_force : find_revocation host refs (("mandate", withdrawal) ∷ []) 13 ≡ ok (some withdrawal)
unfolding program get
in_force = refl
