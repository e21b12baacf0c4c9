-- ===== src/Revocation/Decisions.antt =====
-- The committed decisions of concordia/cmpc/revocation.py: how one is built, signed and verified.
use Prim.Native.String.{◌++◌ as str_append}
use concordia_protocol.Prelude.{
  ℕ, suc, String, Bool, true, false, not, ◌&&◌, ◌||◌, Option, none, some, List, [], ◌∷◌, str_eq,
  str_truthy, ltb, ◌==◌, if◌then◌else◌, Result, ok, err, ◌>>=◌, ◌>>◌, guard,
}
use concordia_protocol.Revocation.{
  PyValue, text_value, int_value, negative_value, float_value, bool_value, none_value, dict_value,
  list_value, foreign_value, Entries, no_entries, entry, Items, no_items, item, Signature,
  RevocationRecord, AncestorRead, CascadeDecisionRecord, CascadeBoundary, CascadeError,
  invalid_record, not_canonical, Host,
}

abbrev pub combine : {A B C : Type 0} → (A → B → C) → Option A → Option B → Option C
combine f none y = none
combine f (some x) none = none
combine f (some x) (some y) = some (f x y)

abbrev pub wrap : {A B : Type 0} → (A → B) → Option A → Option B
wrap f none = none
wrap f (some x) = some (f x)

-- `_materialize_plain`, whose exception is `none`.
unfoldable mutual
  pub materialize_plain : PyValue → ℕ → Option PyValue
  materialize_plain (text_value s) depth = if ltb 64 depth then none else some (text_value s)
  materialize_plain (int_value n) depth = if ltb 64 depth then none else some (int_value n)
  materialize_plain (negative_value n) depth =
      if ltb 64 depth then none else some (negative_value n)
  materialize_plain (float_value s) depth = if ltb 64 depth then none else some (float_value s)
  materialize_plain (bool_value b) depth = if ltb 64 depth then none else some (bool_value b)
  materialize_plain none_value depth = if ltb 64 depth then none else some none_value
  materialize_plain (dict_value exact es) depth =
      let copied = materialize_entries es (suc depth) in
      if ltb 64 depth || not exact then none else wrap (dict_value true) copied
  materialize_plain (list_value exact xs) depth =
      let copied = materialize_items xs (suc depth) in
      if ltb 64 depth || not exact then none else wrap (list_value true) copied
  materialize_plain (foreign_value s) depth = none

  pub materialize_entries : Entries → ℕ → Option Entries
  materialize_entries no_entries depth = some no_entries
  materialize_entries (entry none v es) depth = none
  materialize_entries (entry (some k) v es) depth =
      combine (entry (some k)) (materialize_plain v depth) (materialize_entries es depth)

  pub materialize_items : Items → ℕ → Option Items
  materialize_items no_items depth = some no_items
  materialize_items (item v xs) depth =
      combine item (materialize_plain v depth) (materialize_items xs depth)

-- `dict.get` and `dict.pop` on a snapshot.
unfoldable pub get_key : Entries → String → Option PyValue
get_key no_entries k = none
get_key (entry none v es) k = get_key es k
get_key (entry (some j) v es) k = if str_eq j k then some v else get_key es k

unfoldable pub pop_key : Entries → String → Entries
pop_key no_entries k = no_entries
pop_key (entry none v es) k = entry none v (pop_key es k)
pop_key (entry (some j) v es) k =
    let rest = pop_key es k in if str_eq j k then rest else entry (some j) v rest

-- `AncestorRead.to_dict`, and the list of them.
unfoldable pub read_to_dict : AncestorRead → PyValue
read_to_dict a = dict_value true (
    entry (some "element_digest") (text_value a.element_digest) (
      entry (some "status") (text_value a.status) (
        entry (some "source_digest") (text_value a.source_digest)
          (entry (some "coordinate") (int_value a.coordinate) no_entries))))

unfoldable pub reads_to_dicts : List AncestorRead → Items
reads_to_dicts [] = no_items
reads_to_dicts (a ∷ rest) = item (read_to_dict a) (reads_to_dicts rest)

-- An entry that stands in the dict where its value is not `None`.
unfoldable pub entry_if : String → Option String → Entries → Entries
entry_if k none es = es
entry_if k (some v) es = entry (some k) (text_value v) es

unfoldable pub signature_to_dict : Option Signature → PyValue
signature_to_dict none =
    dict_value true
      (entry (some "alg") (text_value "EdDSA") (entry (some "value") (text_value "") no_entries))
signature_to_dict (some s) =
    dict_value true
      (entry (some "alg") (text_value s.alg) (entry (some "value") (text_value s.value) no_entries))

-- `CascadeDecisionRecord.preimage` with the entries that follow: none there, and the identifier
-- and the signature in `to_dict`.
unfoldable pub bound_fields : CascadeDecisionRecord → Entries → Entries
bound_fields r rest = entry (some "capability_digest") (text_value r.capability_digest) (
    entry (some "request_digest") (text_value r.request_digest) (
      entry (some "boundary_id") (text_value r.boundary_id) (
        entry (some "decision") (text_value r.decision) (
          entry (some "verifier") (text_value r.verifier) (
            entry (some "policy_version") (text_value r.policy_version) (
              entry (some "ancestor_reads") (list_value true (reads_to_dicts r.ancestor_reads)) (
                entry_if "approval_receipt_ref" r.approval_receipt_ref
                  (entry_if "revocation_record_ref" r.revocation_record_ref rest))))))))

unfoldable pub preimage : CascadeDecisionRecord → Entries
preimage r = bound_fields r no_entries

unfoldable pub to_dict : CascadeDecisionRecord → PyValue
to_dict r = dict_value true (
    bound_fields r (
      entry (some "decision_id") (text_value r.decision_id)
        (entry (some "signature") (signature_to_dict r.signature) no_entries)))

unfoldable pub emit_cascade_decision :
    String → String → CascadeBoundary → List AncestorRead → Option String → CascadeDecisionRecord
emit_cascade_decision capability request b reads revocation_ref = record {
  capability_digest = capability;
  request_digest = request;
  boundary_id = b.boundary_id;
  decision = "deny";
  verifier = b.verifier;
  policy_version = b.policy_version;
  ancestor_reads = reads;
  decision_id = "";
  signature = none;
  approval_receipt_ref = b.approval_receipt_ref;
  revocation_record_ref = revocation_ref;
}

-- What `verify_cascade_decision_record` is handed: a record already parsed, or the raw value.
pub data Retained : Type 0 where
  typed : CascadeDecisionRecord → Retained
  raw : PyValue → Retained

module _ (H : Host) where
  unfoldable pub canonical : Entries → Result CascadeError String
  canonical es = elim (H.canonicalize_jcs es) [ none ↦ err not_canonical | some bytes ↦ ok bytes ]

  unfoldable pub sign_cascade_decision_record :
      CascadeDecisionRecord → H.KeyPair → Result CascadeError CascadeDecisionRecord
  sign_cascade_decision_record r key = canonical (preimage r) >>= λ bytes.
      let signed = record r {
        decision_id = H.sha256 bytes;
        signature = some (record { alg = "EdDSA"; value = H.b64encode (H.sign key bytes) });
      } in
      guard (H.decision_schema (to_dict signed)) invalid_record >> ok signed

  -- `value or {}`: the falsy values become the empty dict.
  unfoldable pub or_empty : Option PyValue → PyValue
  or_empty none = dict_value true no_entries
  or_empty (some (text_value s)) = if str_truthy s then text_value s else dict_value true no_entries
  or_empty (some (int_value n)) = if n == 0 then dict_value true no_entries else int_value n
  or_empty (some (float_value s)) =
      if H.float_is_zero s then dict_value true no_entries else float_value s
  or_empty (some (bool_value b)) = if b then bool_value b else dict_value true no_entries
  or_empty (some none_value) = dict_value true no_entries
  or_empty (some (list_value exact no_items)) = dict_value true no_entries
  or_empty (some v) = v

  -- `str(signature.get("value", ""))`.
  unfoldable pub signature_text : Entries → String
  signature_text es = elim (get_key es "value") [ none ↦ "" | some v ↦ H.str_of v ]

  unfoldable pub signed_by : H.PublicKey → String → PyValue → Bool
  signed_by public_key bytes (dict_value exact es) = elim (H.b64decode (signature_text es)) [
    | none ↦ false
    | some raw_signature ↦ H.verify public_key raw_signature bytes
  ]
  signed_by public_key bytes v = false

  -- The claimed identifier is a text and the recomputed one.
  unfoldable pub claims : String → Option PyValue → Bool
  claims recomputed none = str_eq recomputed ""
  claims recomputed (some (text_value claimed)) = str_eq recomputed claimed
  claims recomputed (some v) = false

  unfoldable pub verify_snapshot : H.PublicKey → PyValue → Bool
  verify_snapshot public_key (dict_value exact es) =
      elim (H.canonicalize_jcs (pop_key (pop_key es "decision_id") "signature")) [
        | none ↦ false
        | some bytes ↦
            H.decision_schema (dict_value exact es)
            && claims (H.sha256 bytes) (get_key es "decision_id")
            && signed_by public_key bytes (or_empty (get_key es "signature"))
      ]
  verify_snapshot public_key v = false

  unfoldable pub verify_cascade_decision_record : Retained → H.PublicKey → Bool
  verify_cascade_decision_record (typed r) public_key = false
  verify_cascade_decision_record (raw v) public_key = elim (materialize_plain v 0) [
    | none ↦ false
    | some snapshot ↦ verify_snapshot public_key snapshot
  ]

  -- `_sha256_hex`.
  unfoldable pub sha256_hex : String → String
  sha256_hex s = str_append "sha256:" (H.sha256 s)

  unfoldable pub or_digest : Option String → String → String
  or_digest digest artifact_id = elim digest [
    | none ↦ sha256_hex artifact_id
    | some d ↦ if str_truthy d then d else sha256_hex artifact_id
  ]

  -- `_emit_committed_deny`.
  unfoldable pub emit_committed_deny :
      RevocationRecord
      → CascadeBoundary
      → H.KeyPair
      → String
      → Result CascadeError CascadeDecisionRecord
  emit_committed_deny revocation b key artifact_id =
      let ancestor_read : AncestorRead = record {
        element_digest = revocation.revoked_artifact_id;
        status = "revoked";
        source_digest = b.source_digest;
        coordinate = b.coordinate;
      } in
      sign_cascade_decision_record
        (emit_cascade_decision (or_digest b.capability_digest artifact_id)
          (or_digest b.request_digest artifact_id) b (ancestor_read ∷ [])
          (some revocation.revocation_id))
        key
