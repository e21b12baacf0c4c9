-- ===== src/Mandate/Chain.antt =====
-- The delegation chain of a mandate (concordia/mandate.py): when it has no error.
use concordia_protocol.Prelude.{
  String, Bool, true, false, not, ◌&&◌, ◌≡◌, refl, sym, ◌∙◌, ap, ap₂, inl, inr, ◌↔◌, Option, none,
  some, inj_some, List, [], ◌∷◌, ◌++◌, arith, str_eq, str_truthy, eq_iff, All, Bool-cases,
}
use concordia_protocol.Prelude.Dict.{Dict, get}
use concordia_protocol.Mandate.{DelegationLink, link_to_dict, drop_field}
use concordia_protocol.Mandate.Verify.{
  Host, DelegationError, root_mismatch, tail_mismatch, chain_break, no_public_key,
  invalid_signature, continues, error_if, signature_errors, link_errors, chain_errors,
  last_delegate, verify_delegation_chain, no_errors,
}

pub and_iff : (a b : Bool) → ((a && b) ≡ true) ↔ ((a ≡ true) × (b ≡ true))
and_iff a b = (λ h. (ground (arith, h), ground (arith, h)), λ h. ground (arith, h.0, h.1))

module _ (H : Host) where
  -- The links lead from one agent to another.
  abbrev pub Leads : String → List (DelegationLink H.Num) → String → Type 0
  Leads from [] to = from ≡ to
  Leads from (l ∷ ls) to = (l.delegator ≡ from) × Leads l.delegate ls to

  -- The delegator, whose key is known, has signed the link.
  abbrev pub Signed : Dict H.PublicKey → DelegationLink H.Num → Type 0
  Signed keys l =
      (key : H.PublicKey) × (get keys l.delegator ≡ some key)
      × (str_truthy l.signature ≡ true)
      × (H.verify_signature (drop_field "signature" (link_to_dict l)) l.signature key l.algorithm
          ≡ true)

  no_errors-append :
      (xs ys : List DelegationError) → no_errors (xs ++ ys) ≡ (no_errors xs && no_errors ys)
  unfolding no_errors
  no_errors-append [] ys = refl
  no_errors-append (x ∷ xs) ys = refl

  no_errors-if : (b : Bool) (e : DelegationError) → no_errors (error_if (not b) e) ≡ b
  unfolding no_errors error_if
  no_errors-if true e = refl
  no_errors-if false e = refl

  module _ (keys : Dict H.PublicKey) where
    signature_errors_iff :
        (l : DelegationLink H.Num) (key : H.PublicKey)
        → no_errors (signature_errors H l key) ≡ (
            str_truthy l.signature
            && H.verify_signature
                (drop_field "signature" (link_to_dict l))
                l.signature
                key
                l.algorithm)
    unfolding signature_errors no_errors
    signature_errors_iff l key = elim (Bool-cases (str_truthy l.signature)) [
      | inr missing ↦ rw missing refl
      | inl present ↦ rw present (no_errors-if _ invalid_signature)
    ]

    -- The errors of a link but for the one of continuity.
    abbrev own_errors : Option H.PublicKey → DelegationLink H.Num → List DelegationError
    own_errors o l = elim o [ none ↦ no_public_key ∷ [] | some key ↦ signature_errors H l key ]

    own_iff :
        (o : Option H.PublicKey) (l : DelegationLink H.Num)
        → (no_errors (own_errors o l) ≡ true) ↔ (
            (key : H.PublicKey) × (o ≡ some key)
            × (str_truthy l.signature ≡ true)
            × (H.verify_signature
                  (drop_field "signature" (link_to_dict l))
                  l.signature
                  key
                  l.algorithm
                ≡ true))
    unfolding no_errors
    own_iff none l = (λ h. absurd (ground (arith, h)), λ (key, e, t, v). absurd (ground (arith, e)))
    own_iff (some key) l = rw (signature_errors_iff l key) (
      λ h. let (t, v) = (and_iff _ _).0 h in (key, refl, t, v),
      λ (other, e, t, v). (and_iff _ _).1 (t, rw (inj_some e) v),
    )

    own-Signed :
        (l : DelegationLink H.Num)
        → (no_errors (own_errors (get keys l.delegator) l) ≡ true) ↔ Signed keys l
    own-Signed l = own_iff (get keys l.delegator) l

    no_errors_link :
        (l m : DelegationLink H.Num) (ms : List (DelegationLink H.Num))
        → no_errors (chain_errors H (some l) (m ∷ ms) keys) ≡ (
            (str_eq m.delegator l.delegate && no_errors (own_errors (get keys m.delegator) m))
            && no_errors (chain_errors H (some m) ms keys))
    unfolding chain_errors link_errors continues
    no_errors_link l m ms =
        let broken = error_if (not (str_eq m.delegator l.delegate)) chain_break in
        let own = own_errors (get keys m.delegator) m in
        let rest = chain_errors H (some m) ms keys in
        no_errors-append (broken ++ own) rest
        ∙ ap (λ b. b && no_errors rest)
            (no_errors-append broken own
              ∙ ap (λ b. b && no_errors own)
                  (no_errors-if (str_eq m.delegator l.delegate) chain_break))

    links_iff :
        (l : DelegationLink H.Num) (ls : List (DelegationLink H.Num)) (to : String)
        → ((no_errors (chain_errors H (some l) ls keys) ≡ true) × (last_delegate H l ls ≡ to))
          ↔ (Leads l.delegate ls to × All (Signed keys) ls)
    unfolding chain_errors last_delegate link_errors continues no_errors
    links_iff l [] to = (λ (h, e). (e, tt), λ (e, h). (refl, e))
    links_iff l (m ∷ ms) to =
        let rest = links_iff m ms to in
        let joined = eq_iff m.delegator l.delegate in
        let sum = no_errors_link l m ms in
        (
          λ (h, e).
              let (now, later) = (and_iff _ _).0 (sym sum ∙ h) in
              let (link, own) = (and_iff _ _).0 now in
              let (leads, signed) = rest.0 (later, e) in
              ((joined.0 link, leads), ((own-Signed m).0 own, signed)),
          λ ((link, leads), (own, signed)).
              let (later, e) = rest.1 (leads, signed) in
              (
                sum
                    ∙ (and_iff _ _).1
                        ((and_iff _ _).1 (joined.1 link, (own-Signed m).1 own), later),
                e,
              ),
        )

    no_errors_chain :
        (l : DelegationLink H.Num) (ls : List (DelegationLink H.Num)) (issuer subject : String)
        → no_errors (verify_delegation_chain H (l ∷ ls) issuer subject keys) ≡ (
            (str_eq l.delegator issuer && str_eq (last_delegate H l ls) subject)
            && (no_errors (own_errors (get keys l.delegator) l)
                && no_errors (chain_errors H (some l) ls keys)))
    unfolding verify_delegation_chain chain_errors link_errors continues error_if
    no_errors_chain l ls issuer subject =
        let starts = str_eq l.delegator issuer in
        let ends = str_eq (last_delegate H l ls) subject in
        let own = own_errors (get keys l.delegator) l in
        let rest = chain_errors H (some l) ls keys in
        let root = error_if (not starts) root_mismatch in
        let tail = error_if (not ends) tail_mismatch in
        no_errors-append (root ++ tail) (own ++ rest)
        ∙ ap₂ (λ a b. a && b)
            (no_errors-append root tail
              ∙ ap₂ (λ a b. a && b) (no_errors-if starts root_mismatch)
                  (no_errors-if ends tail_mismatch))
            (no_errors-append own rest)

  -- A delegation chain that is not empty has no error exactly when its links lead from the issuer to
  -- the subject and each one is signed by its delegator, whose key is known.
  pub verify_delegation_chain_iff :
      (l : DelegationLink H.Num) (ls : List (DelegationLink H.Num)) (issuer subject : String)
      → (keys : Dict H.PublicKey)
      → (no_errors (verify_delegation_chain H (l ∷ ls) issuer subject keys) ≡ true)
        ↔ (Leads issuer (l ∷ ls) subject × All (Signed keys) (l ∷ ls))
  verify_delegation_chain_iff l ls issuer subject keys =
      let rest = links_iff keys l ls subject in
      let root = eq_iff l.delegator issuer in
      let tail = eq_iff (last_delegate H l ls) subject in
      let sum = no_errors_chain keys l ls issuer subject in
      (
        λ h.
            let (ends, signatures) = (and_iff _ _).0 (sym sum ∙ h) in
            let (start, end) = (and_iff _ _).0 ends in
            let (own, later) = (and_iff _ _).0 signatures in
            let (leads, signed) = rest.0 (later, tail.0 end) in
            ((root.0 start, leads), ((own-Signed keys l).0 own, signed)),
        λ ((start, leads), (own, signed)).
            let (later, end) = rest.1 (leads, signed) in
            sum
            ∙ (and_iff _ _).1 (
              (and_iff _ _).1 (root.1 start, tail.1 end),
              (and_iff _ _).1 ((own-Signed keys l).1 own, later),
            ),
      )
