-- ===== src/Revocation/Denials.antt =====
-- What a committed decision of concordia/cmpc/revocation.py says, and that it is signed.
use concordia_protocol.Prelude.{
  String, ◌≡◌, refl, sym, inl, inr, some, arith, Bool-cases, Option-cases, ok, inj_ok,
}
use mathlib.Core.Path.{subst}
use concordia_protocol.Revocation.{
  RevocationRecord, CascadeDecisionRecord, CascadeBoundary, CascadeError, Host,
}
use concordia_protocol.Revocation.Decisions.{
  bound_fields, preimage, to_dict, canonical, sign_cascade_decision_record, emit_cascade_decision,
  emit_committed_deny,
}

module _ (H : Host) (key : H.KeyPair) where
  -- The bytes that the fields of the record give are hashed to its identifier, and signed.
  abbrev pub IsSealed : CascadeDecisionRecord → Type 0
  IsSealed d =
      (bytes : String) × (H.canonicalize_jcs (preimage d) ≡ some bytes)
      × (d.decision_id ≡ H.sha256 bytes)
      × (d.signature ≡ some (record { alg = "EdDSA"; value = H.b64encode (H.sign key bytes) }))

  -- A signed deny at that boundary because of that revocation.
  abbrev pub Denies : RevocationRecord → CascadeBoundary → CascadeDecisionRecord → Type 0
  Denies revocation b d =
      (d.decision ≡ "deny")
      × (d.boundary_id ≡ b.boundary_id)
      × (d.revocation_record_ref ≡ some revocation.revocation_id)
      × IsSealed d

  signed_as :
      (r d : CascadeDecisionRecord)
      → sign_cascade_decision_record H r key ≡ ok d
      → (bytes : String) × (H.canonicalize_jcs (preimage r) ≡ some bytes)
        × (d ≡ record r {
          decision_id = H.sha256 bytes;
          signature = some (record { alg = "EdDSA"; value = H.b64encode (H.sign key bytes) });
        })
  unfolding sign_cascade_decision_record canonical
  signed_as r d h = elim (Option-cases (H.canonicalize_jcs (preimage r))) [
    | inl bad ↦ absurd (ground (arith, bad, h))
    | inr (bytes, good) ↦
        let signed : CascadeDecisionRecord = record r {
          decision_id = H.sha256 bytes;
          signature = some (record { alg = "EdDSA"; value = H.b64encode (H.sign key bytes) });
        } in
        elim (Bool-cases (H.decision_schema (to_dict signed))) [
          | inl valid ↦
              (bytes, good, sym (inj_ok {E = CascadeError} (ground (arith, good, valid, h))))
          | inr invalid ↦ absurd (ground (arith, good, invalid, h))
        ]
  ]

  pub committed-Denies :
      (revocation : RevocationRecord) (b : CascadeBoundary) (id : String)
      (d : CascadeDecisionRecord)
      → emit_committed_deny H revocation b key id ≡ ok d
      → Denies revocation b d
  unfolding emit_committed_deny emit_cascade_decision preimage bound_fields
  committed-Denies revocation b id d h =
      let (bytes, good, same) = signed_as _ d h in
      subst (Denies revocation b) (sym same) (refl, refl, refl, (bytes, good, refl, refl))
