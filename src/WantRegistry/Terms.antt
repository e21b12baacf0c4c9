-- ===== src/WantRegistry/Terms.antt =====
-- The overlap of the terms of a want and a have: concordia/want_registry.py.
use concordia_protocol.Prelude.{
  ℕ, String, Bool, false, not, ◌||◌, Option, none, some, List, [], ◌∷◌, ◌++◌, leb, str_eq,
  if◌then◌else◌, length, is_some, Result, ok, err, ◌>>=◌,
}
use concordia_protocol.Prelude.Dict.{Dict, get, put}
use concordia_protocol.WantRegistry.{
  Numbers, Value, number, null, num, str_value, other, Term, fields, plain, Overlap, range,
  meets_minimum, unknown_minimum, fuzzy, exact, inexact, unrecognised, WantError, attribute_error,
}

-- `_condition_rank`: none is -1.
unfoldable pub ranks : String → Option ℕ
ranks s =
    if str_eq s "poor"
    then some 0
    else if str_eq s "fair"
    then some 1
    else if str_eq s "good"
    then some 2
    else if str_eq s "like_new"
    then some 3
    else if str_eq s "new"
    then some 4
    else none

module _ (H : Numbers) (eq_value : Value H.Num → Value H.Num → Bool) where
  abbrev Fields : Type 0
  Fields = Dict (Value H.Num)

  unfoldable pub condition_rank : Value H.Num → Result WantError (Option ℕ)
  condition_rank (str_value s) = ok (ranks (H.lower s))
  condition_rank _ = err attribute_error

  -- `d.get(key)`, where a missing key is `None`, and `d.get(key, "")`.
  unfoldable pub get_or : Fields → String → Value H.Num → Value H.Num
  get_or d key default = elim (get d key) [ none ↦ default | some v ↦ v ]

  unfoldable pub is_truthy : Value H.Num → Bool
  is_truthy null = false
  is_truthy (num n) = not (H.is_zero n)
  is_truthy (str_value s) = not (str_eq s "")
  is_truthy (other s) = not (str_eq s "false" || str_eq s "[]" || str_eq s "{}")

  unfoldable pub currency : Fields → Fields → Option (Value H.Num)
  currency wt ht =
      let w = get_or wt "currency" null in
      let h = get_or ht "currency" null in
      if is_truthy w then some w else if is_truthy h then some h else none

  unfoldable pub price_score : H.Num → H.Num → H.Num
  price_score lo hi =
      H.sub (H.tenths 10) (
        H.mul (H.min_num (H.div (H.sub hi lo) (H.max_num hi (H.of_ℕ 1))) (H.tenths 10))
          (H.tenths 5))

  -- A bound that the other side cannot meet ends the comparison with no overlap at all.
  unfoldable pub price : H.Num → H.Num → Fields → Fields → Option (Overlap H.Num × H.Num)
  price w_max h_min wt ht =
      if H.leb_num h_min w_max
      then some (range h_min w_max (currency wt ht), price_score h_min w_max)
      else none

  unfoldable pub ranked : Option ℕ → Option ℕ → Fields → Option (Overlap H.Num × H.Num)
  ranked (some w) (some h) ht =
      if leb w h
      then some (
        meets_minimum (get_or ht "value" null),
        H.min_num (H.tenths 10) (H.div (H.of_ℕ h) (H.of_ℕ (if leb w 1 then 1 else w))),
      )
      else none
  ranked _ _ ht = some (unknown_minimum (get ht "value"), H.tenths 5)

  unfoldable pub condition :
      Value H.Num → Fields → Result WantError (Option (Overlap H.Num × H.Num))
  condition minimum ht = do
    want_min_rank ← condition_rank minimum
    have_rank ← condition_rank (get_or ht "value" (str_value ""))
    ok (ranked want_min_rank have_rank ht)

  unfoldable pub is_fuzzy : Fields → Bool
  is_fuzzy d = elim (get d "match") [ some (str_value s) ↦ str_eq s "fuzzy" | _ ↦ false ]

  -- The last three branches of the comparison.
  unfoldable pub loose : Fields → Fields → Option (Overlap H.Num × H.Num)
  loose wt ht =
      if is_fuzzy wt || is_fuzzy ht
      then some
          (fuzzy (get_or wt "value" (str_value "")) (get_or ht "value" (str_value "")), H.tenths 7)
      else elim (get wt "value") [
        | none ↦ some (unrecognised wt ht, H.tenths 5)
        | some w ↦ elim (get ht "value") [
          | none ↦ some (unrecognised wt ht, H.tenths 5)
          | some h ↦
              some (if eq_value w h then (exact w, H.tenths 10) else (inexact w h, H.tenths 3))
        ]
      ]

  unfoldable pub enumerated : Fields → Fields → Result WantError (Option (Overlap H.Num × H.Num))
  enumerated wt ht = elim (get wt "min") [
    | none ↦ ok (loose wt ht)
    | some minimum ↦
        if is_some (get ht "value") || is_some (get wt "enum")
        then condition minimum ht
        else ok (loose wt ht)
  ]

  unfoldable pub compare_fields :
      Fields → Fields → Result WantError (Option (Overlap H.Num × H.Num))
  compare_fields wt ht = elim (number (get_or wt "max" null)) [
    | none ↦ enumerated wt ht
    | some w_max ↦ elim (number (get_or ht "min" null)) [
      | none ↦ enumerated wt ht
      | some h_min ↦ ok (price w_max h_min wt ht)
    ]
  ]

  -- What the loop over the shared keys has so far.
  pub record Scored : Type 0 where
    pub overlap : Dict (Overlap H.Num)
    pub scores : List H.Num

  unfoldable pub score_term : String → Overlap H.Num × H.Num → Scored → Scored
  score_term key (o, n) s = record { overlap = put s.overlap key o; scores = s.scores ++ n ∷ [] }

  -- `none` is the early `return {}, 0.0`. Two terms that are not both objects add nothing.
  unfoldable pub shared_terms :
      Dict (Term H.Num) → Dict (Term H.Num) → Scored → Result WantError (Option Scored)
  shared_terms [] have_terms s = ok (some s)
  shared_terms ((key, wt) ∷ rest) have_terms s = elim (get have_terms key) [
    | some (fields h) ↦ elim wt [
      | plain _ ↦ shared_terms rest have_terms s
      | fields w ↦ elim (compare_fields w h) [
        | err e ↦ err e
        | ok none ↦ ok none
        | ok (some found) ↦ shared_terms rest have_terms (score_term key found s)
      ]
    ]
    | _ ↦ shared_terms rest have_terms s
  ]

  -- The mild penalty of each term that the other side lacks.
  unfoldable pub unmatched : Dict (Term H.Num) → Dict (Term H.Num) → List H.Num
  unmatched [] others = []
  unmatched ((key, _) ∷ rest) others =
      let more = unmatched rest others in
      if is_some (get others key) then more else H.tenths 4 ∷ more

  unfoldable pub compute_term_overlap :
      Dict (Term H.Num) → Dict (Term H.Num) → Result WantError (Dict (Overlap H.Num) × H.Num)
  compute_term_overlap want_terms have_terms =
      elim (shared_terms want_terms have_terms (record { overlap = []; scores = [] })) [
        | err e ↦ err e
        | ok none ↦ ok ([], H.tenths 0)
        | ok (some s) ↦
            let scores =
              s.scores ++ unmatched want_terms have_terms ++ unmatched have_terms want_terms in
            ok (
              s.overlap,
              H.div (H.sum scores) (H.of_ℕ (if leb (length scores) 1 then 1 else length scores)),
            )
      ]
