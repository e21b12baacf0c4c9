-- ===== src/WantRegistry/Prices.antt =====
-- A match never has a want's maximum below a have's minimum: concordia/want_registry.py.

use concordia_protocol.Prelude.{
  ℕ, String, ◌≡◌, inl, inr, Bool, true, false, some, [], ◌∷◌, arith, All, Option-cases, ok,
  Result-cases,
}
use mathlib.Core.Path.{subst}
use concordia_protocol.Prelude.Dict.{Dict, get}
use concordia_protocol.WantRegistry.{
  Numbers, Value, number, null, Term, fields, plain, Want, Have, Overlap, Match,
}
use concordia_protocol.WantRegistry.Terms.{
  get_or, price, compare_fields, Scored, score_term, shared_terms, compute_term_overlap,
}
use concordia_protocol.WantRegistry.Matching.{compute_match}
use concordia_protocol.WantRegistry.Sound.{compute_match-Matches}

module _ (H : Numbers) (eq_value : Value H.Num → Value H.Num → Bool) where
  -- The bounds of a term on both sides, where the want has a number as its maximum and the have
  -- one as its minimum.
  abbrev pub Affords : Dict (Term H.Num) → String → Term H.Num → Type 0
  Affords have_terms key term =
      (w h : Dict (Value H.Num)) (w_max h_min : H.Num)
      → term ≡ fields w
      → get have_terms key ≡ some (fields h)
      → number (get_or H eq_value w "max" null) ≡ some w_max
      → number (get_or H eq_value h "min" null) ≡ some h_min
      → H.leb_num h_min w_max ≡ true

  compare_fields-price :
      (w h : Dict (Value H.Num)) (w_max h_min : H.Num)
      → number (get_or H eq_value w "max" null) ≡ some w_max
      → number (get_or H eq_value h "min" null) ≡ some h_min
      → compare_fields H eq_value w h ≡ ok (price H eq_value w_max h_min w h)
  unfolding compare_fields
  compare_fields-price w h w_max h_min p q = ground (arith, p, q)

  compare_fields-Affords :
      (w h : Dict (Value H.Num)) (w_max h_min : H.Num) {o : Overlap H.Num × H.Num}
      → compare_fields H eq_value w h ≡ ok (some o)
      → number (get_or H eq_value w "max" null) ≡ some w_max
      → number (get_or H eq_value h "min" null) ≡ some h_min
      → H.leb_num h_min w_max ≡ true
  unfolding price
  compare_fields-Affords w h w_max h_min {o} e p q =
      ground (arith, e, compare_fields-price w h w_max h_min p q)

  -- What the loop found of the first term, and that it went on to the others.
  first_found :
      (key : String) (w h : Dict (Value H.Num)) (rest hs : Dict (Term H.Num))
      (s : Scored H eq_value) {t : Scored H eq_value}
      → get hs key ≡ some (fields h)
      → shared_terms H eq_value ((key, fields w) ∷ rest) hs s ≡ ok (some t)
      → (o : Overlap H.Num × H.Num) × (compare_fields H eq_value w h ≡ ok (some o))
        × (shared_terms H eq_value rest hs (score_term H eq_value key o s) ≡ ok (some t))
  unfolding shared_terms
  first_found key w h rest hs s {t} g e = elim (Result-cases (compare_fields H eq_value w h)) [
    | inl (x, c) ↦ absurd (ground (arith, g, c, e))
    | inr (r, c) ↦ elim (Option-cases r) [
      | inl n ↦ absurd (ground (arith, g, c, n, e))
      | inr (o, n) ↦ (o, ground (arith, c, n), ground (arith, g, c, n, e))
    ]
  ]

  others_found :
      (key : String) (wt : Term H.Num) (rest hs : Dict (Term H.Num)) (s : Scored H eq_value)
      {t : Scored H eq_value}
      → shared_terms H eq_value ((key, wt) ∷ rest) hs s ≡ ok (some t)
      → (s' : Scored H eq_value) × (shared_terms H eq_value rest hs s' ≡ ok (some t))
  unfolding shared_terms
  others_found key wt rest hs s {t} e = elim (Option-cases (get hs key)) [
    | inl n ↦ (s, ground (arith, n, e))
    | inr (plain v, n) ↦ (s, ground (arith, n, e))
    | inr (fields h, n) ↦
        elim wt
            as (λ x.
              shared_terms H eq_value ((key, x) ∷ rest) hs s ≡ ok (some t)
              → (s' : Scored H eq_value) × (shared_terms H eq_value rest hs s' ≡ ok (some t))) [
                | plain v ↦ λ f. (s, ground (arith, n, f))
                | fields w ↦ λ f.
                    let (o, _, g) = first_found key w h rest hs s {t = t} n f in
                    (score_term H eq_value key o s, g)
              ]
          e
  ]

  shared_terms-Affords :
      (ws hs : Dict (Term H.Num)) (s : Scored H eq_value) {t : Scored H eq_value}
      → shared_terms H eq_value ws hs s ≡ ok (some t)
      → All (λ (e : String × Term H.Num). Affords hs e.0 e.1) ws
  shared_terms-Affords [] hs s e = tt
  shared_terms-Affords ((key, wt) ∷ rest) hs s {t} e =
      let (s', later) = others_found key wt rest hs s {t = t} e in
      (first, shared_terms-Affords rest hs s' {t = t} later)
    where
      first : Affords hs key wt
      first w h w_max h_min is_w is_h p q =
          let whole : shared_terms H eq_value ((key, fields w) ∷ rest) hs s ≡ ok (some t) =
            subst (λ x. shared_terms H eq_value ((key, x) ∷ rest) hs s ≡ ok (some t)) is_w e in
          let (o, c, _) = first_found key w h rest hs s {t = t} is_h whole in
          compare_fields-Affords w h w_max h_min {o = o} c p q

  overlap-Affords :
      (ws hs : Dict (Term H.Num)) {o : Dict (Overlap H.Num)} {n : H.Num}
      → H.is_zero (H.tenths 0) ≡ true
      → compute_term_overlap H eq_value ws hs ≡ ok (o, n)
      → H.is_zero n ≡ false
      → All (λ (e : String × Term H.Num). Affords hs e.0 e.1) ws
  unfolding compute_term_overlap
  overlap-Affords ws hs {o} {n} zero_is e positive =
      let start : Scored H eq_value = record { overlap = []; scores = [] } in
      elim (Result-cases (shared_terms H eq_value ws hs start)) [
        | inl (x, c) ↦ absurd (ground (arith, c, e))
        | inr (r, c) ↦ elim (Option-cases r) [
          | inl none_is ↦
              let same : H.tenths 0 ≡ n = ground (arith, c, none_is, e) in
              absurd (ground (arith, same, zero_is, positive))
          | inr (t, some_is) ↦ shared_terms-Affords ws hs start {t = t} (ground (arith, c, some_is))
        ]
      ]

  -- Where 0.0 is a zero: in a match, for every term that both sides state as an object, if the
  -- want has a number as its maximum and the have one as its minimum, the maximum is at least the
  -- minimum.
  pub compute_match-Affords :
      (id : String) (now : ℕ) (want : Want H.Num) (have : Have H.Num) {m : Match H.Num}
      → H.is_zero (H.tenths 0) ≡ true
      → compute_match H eq_value id now want have ≡ ok (some m)
      → All (λ (e : String × Term H.Num). Affords have.terms e.0 e.1) want.terms
  compute_match-Affords id now want have {m} zero_is h =
      let (v, _) = compute_match-Matches H eq_value id now want have {m = m} h in
      overlap-Affords want.terms have.terms {o = v.overlap} {n = v.score} zero_is v.terms v.positive
