-- ===== src/Revocation/Effect.antt =====
-- `find_revocation_for_references` of concordia/cmpc/revocation.py.
use concordia_protocol.Prelude.{
  ℕ, ◌≤◌, ◌<◌, String, ◌≡◌, refl, sym, ◌∙◌, ap, inl, inr, Option, none, some, inj_some, List, [],
  ◌∷◌, arith, leb, leb→le, Among, Bool-cases, Option-cases, ok, inj_ok, err_ok,
}
use mathlib.Core.Path.{subst}
use concordia_protocol.Prelude.Dict.{Dict, get}
use concordia_protocol.Revocation.{Reference, link, not_dict, RevocationRecord, Host}
use concordia_protocol.Revocation.Cascade.{find_revocation}

link_id :
    {id id' : String} {rel rel' : Option String}
    → link (some id) rel ≡ link (some id') rel'
    → id ≡ id'
link_id h = cc

none-some : {A : Type 0} {x : A} → none ≡ some x → ⊥
none-some h = cc

module _ (H : Host) (records : Dict RevocationRecord) (now : ℕ) where
  -- A reference names a revocation, which took effect or will.
  abbrev pub Names : List Reference → RevocationRecord → Type 0
  Names refs r =
      (id : String) × (relationship : Option String) × Among (link (some id) relationship) refs
      × (get records id ≡ some r)

  abbrev pub InEffect : RevocationRecord → Type 0
  InEffect r = (t : ℕ) × (H.instant r.effective_at ≡ some t) × (t ≤ now)

  abbrev pub NotYet : RevocationRecord → Type 0
  NotYet r = (t : ℕ) × (H.instant r.effective_at ≡ some t) × (now < t)

  abbrev pub Outcome : List Reference → Option RevocationRecord → Type 0
  Outcome refs none = (r : RevocationRecord) → Names refs r → NotYet r
  Outcome refs (some r) = Names refs r × InEffect r

  later_outcome :
      (ref : Reference) (refs : List Reference) (o : Option RevocationRecord)
      → Outcome refs o
      → ((r : RevocationRecord) (id : String) (relationship : Option String)
          → link (some id) relationship ≡ ref
          → get records id ≡ some r
          → NotYet r)
      → Outcome (ref ∷ refs) o
  later_outcome ref refs none h here = λ r (id, rel, among, e). elim among [
    | inl head ↦ here r id rel head e
    | inr tail ↦ h r (id, rel, tail, e)
  ]
  later_outcome ref refs (some r) ((id, rel, among, e), effect) here =
      ((id, rel, inr among, e), effect)

  -- A revocation that is found is named by a reference and is in effect; where none is found, every
  -- revocation that a reference names takes effect later.
  pub find_revocation-Outcome :
      (refs : List Reference) (o : Option RevocationRecord)
      → find_revocation H refs records now ≡ ok o
      → Outcome refs o
  unfolding find_revocation
  find_revocation-Outcome [] o e =
      subst (Outcome []) (inj_ok e) (λ r (_, _, never, _). absurd never)
  find_revocation-Outcome (not_dict ∷ refs) o e =
      later_outcome not_dict refs o (find_revocation-Outcome refs o e) (λ r id rel bad. absurd (cc))
  find_revocation-Outcome (link none rel ∷ refs) o e =
      later_outcome (link none rel) refs o (find_revocation-Outcome refs o e)
        (λ r id rel' bad. absurd (cc))
  find_revocation-Outcome (link (some id) rel ∷ refs) o e = elim (Option-cases (get records id)) [
    | inl unknown ↦
        later_outcome (link (some id) rel) refs o
          (find_revocation-Outcome refs o (rw (unknown, find_revocation) at e))
          (λ r id' rel' same got.
            absurd (none-some (sym unknown ∙ ap (get records) (sym (link_id same)) ∙ got)))
    | inr (r, known) ↦ elim (Option-cases (H.instant r.effective_at)) [
      | inl no_date ↦ err_ok (rw (known, no_date, find_revocation) at e)
      | inr (t, date) ↦ elim (Bool-cases (leb t now)) [
        | inl effective ↦
            let here : some r ≡ o = inj_ok (rw (known, date, effective, find_revocation) at e) in
            subst (Outcome (link (some id) rel ∷ refs)) here
              ((id, rel, inl refl, known), (t, date, leb→le t now effective))
        | inr future ↦
            later_outcome (link (some id) rel) refs o
              (find_revocation-Outcome refs o (rw (known, date, future, find_revocation) at e))
              (λ r' id' rel' same got.
                let here : r ≡ r' =
                  inj_some (sym known ∙ ap (get records) (sym (link_id same)) ∙ got) in
                subst NotYet here (t, date, ground (arith, future)))
      ]
    ]
  ]
