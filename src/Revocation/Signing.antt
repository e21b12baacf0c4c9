-- ===== src/Revocation/Signing.antt =====
-- The signature of a committed decision: concordia/cmpc/revocation.py.
use concordia_protocol.Prelude.{
  suc, ◌≤◌, String, true, false, ◌≡◌, refl, ◌∙◌, inl, inr, Option, none, some, List, [], ◌∷◌, arith,
  Bool-cases, Option-cases, ok, err, inj_ok, err_ok, str_eq,
}
use mathlib.Core.Path.{subst}
use text.Mathlib.TextPositions.{eq_refl}
use concordia_protocol.Revocation.{
  PyValue, text_value, list_value, Entries, no_entries, entry, Items, Signature, AncestorRead,
  CascadeDecisionRecord, not_canonical, Host,
}
use concordia_protocol.Revocation.Decisions.{
  get_key, pop_key, read_to_dict, reads_to_dicts, entry_if, signature_to_dict, bound_fields,
  preimage, to_dict, raw, canonical, sign_cascade_decision_record, or_empty, signature_text,
  signed_by, claims, verify_snapshot, verify_cascade_decision_record,
}
use concordia_protocol.Revocation.Snapshot.{
  height, entries_height, items_height, Plain, PlainEntries, PlainItems, larger_least,
  materialize_plain_iff,
}

-- Base64 decodes what it encoded, `str` of a text is the text, and a signature by a key pair
-- verifies with its public key.
pub record Sound (H : Host) : Type 0 where
  pub b64decode-b64encode : (s : String) → H.b64decode (H.b64encode s) ≡ some s
  pub str_of-text_value : (s : String) → H.str_of (text_value s) ≡ s
  pub verify-sign :
      (key : H.KeyPair) (bytes : String)
      → H.verify (H.public_key key) (H.sign key bytes) bytes ≡ true

pop_entry_if :
    (j k : String) (o : Option String) (rest : Entries)
    → str_eq j k ≡ false
    → pop_key (entry_if j o rest) k ≡ entry_if j o (pop_key rest k)
unfolding pop_key entry_if
pop_entry_if j k none rest h = refl
pop_entry_if j k (some v) rest h = rw h refl

get_entry_if :
    (j k : String) (o : Option String) (rest : Entries)
    → str_eq j k ≡ false
    → get_key (entry_if j o rest) k ≡ get_key rest k
unfolding get_key entry_if
get_entry_if j k none rest h = refl
get_entry_if j k (some v) rest h = rw h refl

PlainEntries-entry_if :
    (k : String) (o : Option String) (es : Entries)
    → PlainEntries es
    → PlainEntries (entry_if k o es)
unfolding entry_if Plain
PlainEntries-entry_if k none es p = p
PlainEntries-entry_if k (some v) es p = (tt, p)

PlainItems-reads : (reads : List AncestorRead) → PlainItems (reads_to_dicts reads)
unfolding reads_to_dicts read_to_dict Plain
PlainItems-reads [] = tt
PlainItems-reads (a ∷ reads) = ((tt, (tt, (tt, (tt, tt)))), PlainItems-reads reads)

record Low (es : Entries) : Type 0 where
  fits : entries_height es ≤ 3

Low-entry :
    {k : Option String} {v : PyValue} {es : Entries} → height v ≤ 2 → Low es → Low (entry k v es)
unfolding height
Low-entry {v = v} {es = es} h g = record {
  fits = larger_least (suc (height v)) (entries_height es) 3 (omega (arith, h)) g.fits;
}

Low-text :
    {k : Option String} {v : String} {es : Entries} → Low es → Low (entry k (text_value v) es)
unfolding height
Low-text {v = v} h = Low-entry {v = text_value v} (omega arith) h

Low-entry_if : (k : String) (o : Option String) (es : Entries) → Low es → Low (entry_if k o es)
unfolding entry_if
Low-entry_if k none es h = h
Low-entry_if k (some v) es h = Low-text h

signature-Plain :
    (o : Option Signature) → Plain (signature_to_dict o) × (height (signature_to_dict o) ≤ 2)
unfolding signature_to_dict Plain height
signature-Plain none = ((tt, (tt, tt)), omega arith)
signature-Plain (some s) = ((tt, (tt, tt)), omega arith)

height-reads : (reads : List AncestorRead) → items_height (reads_to_dicts reads) ≤ 2
unfolding reads_to_dicts read_to_dict height
height-reads [] = omega arith
height-reads (a ∷ reads) =
    larger_least 2 (items_height (reads_to_dicts reads)) 2 (omega arith) (height-reads reads)

list_height : (xs : Items) → items_height xs ≤ 2 → height (list_value true xs) ≤ 2
unfolding height
list_height xs h = h

module _ (r : CascadeDecisionRecord) (rest : Entries) where
  abbrev refs : Entries
  refs = entry_if "revocation_record_ref" r.revocation_record_ref rest

  pop_decision_id :
      pop_key (bound_fields r rest) "decision_id" ≡ bound_fields r (pop_key rest "decision_id")
  unfolding pop_key bound_fields
  pop_decision_id =
      rw
        (
          pop_entry_if "approval_receipt_ref" "decision_id" r.approval_receipt_ref refs refl,
          pop_entry_if "revocation_record_ref" "decision_id" r.revocation_record_ref rest refl,
        )
        refl

  pop_signature :
      pop_key (bound_fields r rest) "signature" ≡ bound_fields r (pop_key rest "signature")
  unfolding pop_key bound_fields
  pop_signature =
      rw
        (
          pop_entry_if "approval_receipt_ref" "signature" r.approval_receipt_ref refs refl,
          pop_entry_if "revocation_record_ref" "signature" r.revocation_record_ref rest refl,
        )
        refl

  get_decision_id : get_key (bound_fields r rest) "decision_id" ≡ get_key rest "decision_id"
  unfolding get_key bound_fields
  get_decision_id =
      get_entry_if "approval_receipt_ref" "decision_id" r.approval_receipt_ref refs refl
      ∙ get_entry_if "revocation_record_ref" "decision_id" r.revocation_record_ref rest refl

  get_signature : get_key (bound_fields r rest) "signature" ≡ get_key rest "signature"
  unfolding get_key bound_fields
  get_signature =
      get_entry_if "approval_receipt_ref" "signature" r.approval_receipt_ref refs refl
      ∙ get_entry_if "revocation_record_ref" "signature" r.revocation_record_ref rest refl

  PlainEntries-bound : PlainEntries rest → PlainEntries (bound_fields r rest)
  unfolding bound_fields Plain
  PlainEntries-bound p = (
    tt,
    (
      tt,
      (
        tt,
        (
          tt,
          (
            tt,
            (
              tt,
              (
                PlainItems-reads r.ancestor_reads,
                PlainEntries-entry_if "approval_receipt_ref" r.approval_receipt_ref refs
                    (PlainEntries-entry_if "revocation_record_ref" r.revocation_record_ref rest p),
              ),
            ),
          ),
        ),
      ),
    ),
  )

  Low-bound : Low rest → Low (bound_fields r rest)
  unfolding bound_fields
  Low-bound h = Low-text (
      Low-text (
        Low-text (
          Low-text (
            Low-text (
              Low-text (
                Low-entry
                  (list_height (reads_to_dicts r.ancestor_reads) (height-reads r.ancestor_reads))
                  (Low-entry_if "approval_receipt_ref" r.approval_receipt_ref refs
                    (Low-entry_if "revocation_record_ref" r.revocation_record_ref rest h))))))))

module _ (r : CascadeDecisionRecord) where
  abbrev seal : Entries
  seal =
      entry (some "decision_id") (text_value r.decision_id)
        (entry (some "signature") (signature_to_dict r.signature) no_entries)

  Low-seal : Low seal
  unfolding height
  Low-seal = Low-text (Low-entry (signature-Plain r.signature).1 (record { fits = omega arith }))

  to_dict-Plain : Plain (to_dict r) × (height (to_dict r) ≤ 64)
  unfolding to_dict Plain height
  to_dict-Plain = (
    PlainEntries-bound r seal (tt, ((signature-Plain r.signature).0, tt)),
    omega (arith, (Low-bound r seal Low-seal).fits),
  )

  -- The preimage is what is left of the dict without the identifier and the signature.
  pop-to_dict : pop_key (pop_key (bound_fields r seal) "decision_id") "signature" ≡ preimage r
  unfolding preimage pop_key
  pop-to_dict = rw (pop_decision_id r seal) (pop_signature r (pop_key seal "decision_id"))

module _ (H : Host) (laws : Sound H) where
  canonical_ok :
      (es : Entries) (bytes : String)
      → H.canonicalize_jcs es ≡ some bytes
      → canonical H es ≡ ok bytes
  unfolding canonical
  canonical_ok es bytes h = rw (h, canonical) refl

  canonical-none :
      (es : Entries) → H.canonicalize_jcs es ≡ none → canonical H es ≡ err not_canonical
  unfolding canonical
  canonical-none es h = rw (h, canonical) refl

  claims_self : (s : String) → claims H s (some (text_value s)) ≡ true
  unfolding claims
  claims_self s = eq_refl s

  module _ (r : CascadeDecisionRecord) (key : H.KeyPair) (bytes : String) where
    abbrev signature : Signature
    signature = record { alg = "EdDSA"; value = H.b64encode (H.sign key bytes) }

    abbrev signed : CascadeDecisionRecord
    signed = record r { decision_id = H.sha256 bytes; signature = some signature }

    signed_by_key :
        signed_by H
          (H.public_key key)
          bytes
          (or_empty H (some (signature_to_dict (some signature))))
        ≡ true
    unfolding signed_by or_empty signature_to_dict signature_text get_key
    signed_by_key =
        rw
          (
            laws.str_of-text_value (H.b64encode (H.sign key bytes)),
            laws.b64decode-b64encode (H.sign key bytes),
          )
          (laws.verify-sign key bytes)

    -- The bound fields are not changed by the signature.
    preimage-signed : preimage signed ≡ preimage r
    unfolding preimage bound_fields
    preimage-signed = refl

    signed_verifies :
        H.canonicalize_jcs (preimage r) ≡ some bytes
        → H.decision_schema (to_dict signed) ≡ true
        → verify_snapshot H (H.public_key key) (to_dict signed) ≡ true
    unfolding to_dict verify_snapshot get_key
    signed_verifies canon valid =
        let es = bound_fields signed (seal signed) in
        let left : pop_key (pop_key es "decision_id") "signature" ≡ preimage r =
          pop-to_dict signed ∙ preimage-signed in
        let id_claimed : get_key es "decision_id" ≡ some (text_value (H.sha256 bytes)) =
          get_decision_id signed (seal signed) in
        let signature_there : get_key es "signature" ≡ some (signature_to_dict (some signature)) =
          get_signature signed (seal signed) in
        rw
          (
            left,
            canon,
            valid,
            id_claimed,
            claims_self (H.sha256 bytes),
            signature_there,
            signed_by_key,
          )
          refl

  -- A decision that is signed verifies with the signer's public key, from the dict of its fields.
  pub verify-sign_cascade_decision_record :
      (r d : CascadeDecisionRecord) (key : H.KeyPair)
      → sign_cascade_decision_record H r key ≡ ok d
      → verify_cascade_decision_record H (raw (to_dict d)) (H.public_key key) ≡ true
  unfolding sign_cascade_decision_record verify_cascade_decision_record
  verify-sign_cascade_decision_record r d key e =
      elim (Option-cases (H.canonicalize_jcs (preimage r))) [
        | inl stuck ↦ err_ok (rw (canonical-none (preimage r) stuck) at e)
        | inr (bytes, canon) ↦
            let s = signed r key bytes in
            elim (Bool-cases (H.decision_schema (to_dict s))) [
              | inr invalid ↦ err_ok (rw (canonical_ok (preimage r) bytes canon, invalid) at e)
              | inl valid ↦
                  let same : s ≡ d =
                    inj_ok (rw (canonical_ok (preimage r) bytes canon, valid) at e) in
                  let copied =
                    (materialize_plain_iff (to_dict s) (to_dict s)).1
                      (refl, (to_dict-Plain s).0, (to_dict-Plain s).1) in
                  subst
                    (λ z.
                      verify_cascade_decision_record H (raw (to_dict z)) (H.public_key key) ≡ true)
                    same
                    (rw (copied, verify_cascade_decision_record)
                      (signed_verifies r key bytes canon valid))
            ]
      ]
