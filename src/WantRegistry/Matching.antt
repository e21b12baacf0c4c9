-- ===== src/WantRegistry/Matching.antt =====
-- `compute_match` of concordia/want_registry.py.
use concordia_protocol.Prelude.{
  ℕ, String, Bool, not, ◌||◌, Option, none, some, str_eq, if◌then◌else◌, Result, ok, err,
}
use concordia_protocol.Prelude.Dict.{Dict, get, put}
use concordia_protocol.WantRegistry.{
  Numbers, Value, Want, Have, Location, object, Overlap, distance_km, Match, WantError, is_past,
  categories_compatible,
}
use concordia_protocol.WantRegistry.Terms.{compute_term_overlap}
use concordia_protocol.WantRegistry.Places.{place_number, locations_compatible}

module _ (H : Numbers) (eq_value : Value H.Num → Value H.Num → Bool) where
  unfoldable pub within_km : Option (Location H.Num) → Option H.Num
  within_km (some (object d)) = place_number H (get d "within_km")
  within_km _ = none

  -- A radius that is a positive number weighs the distance in.
  unfoldable pub near_score : Option H.Num → H.Num → H.Num → H.Num
  near_score none dist score = score
  near_score (some radius) dist score =
      if H.is_pos radius
      then H.add (H.mul score (H.tenths 8))
          (H.mul (H.sub (H.tenths 10) (H.div dist radius)) (H.tenths 2))
      else score

  unfoldable pub new_match :
      String → Want H.Num → Have H.Num → Option H.Num → Dict (Overlap H.Num) → H.Num → Match H.Num
  new_match match_id want have dist overlap score = record {
    match_id = match_id;
    want_id = want.id;
    have_id = have.id;
    want_agent_id = want.agent_id;
    have_agent_id = have.agent_id;
    overlap = elim dist [
      | none ↦ overlap
      | some d ↦ put overlap "_location" (distance_km (H.round_2 d))
    ];
    score = elim dist [ none ↦ score | some d ↦ near_score (within_km want.location) d score ];
  }

  unfoldable pub match_located :
      String → Want H.Num → Have H.Num → Dict (Overlap H.Num) → H.Num → Option (Match H.Num)
  match_located match_id want have overlap score =
      let (fits, dist) = locations_compatible H want.location have.location in
      if fits then some (new_match match_id want have dist overlap score) else none

  -- `none` where the deal space does not overlap.
  unfoldable pub compute_match :
      String → ℕ → Want H.Num → Have H.Num → Result WantError (Option (Match H.Num))
  compute_match match_id now want have =
      if not (categories_compatible want.category have.category)
      then ok none
      else if str_eq want.agent_id have.agent_id
      then ok none
      else if is_past want.expires_at now || is_past have.expires_at now
      then ok none
      else elim (compute_term_overlap H eq_value want.terms have.terms) [
        | err e ↦ err e
        | ok (overlap, score) ↦
            if H.is_zero score then ok none else ok (match_located match_id want have overlap score)
      ]
