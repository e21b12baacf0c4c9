-- ===== src/WantRegistry/Sound.antt =====
-- When a want and a have match: concordia/want_registry.py.
use text.Mathlib.Text.{starts_with}
use text.Mathlib.TextBridge.{IsPrefix}
use text.Mathlib.TextEquality.{starts_with_iff}
use Prim.Native.String.{◌++◌ as str_append}
use concordia_protocol.Prelude.{
  ℕ, ◌≤◌, String, ◌≡◌, ◌≢◌, refl, ap, ◌⊎◌, inl, inr, ◌↔◌, Bool, true, false, ◌||◌, Option, none,
  some, ◌∷◌, arith, str_eq, eq_iff, Bool-cases, ok, err, Result-cases,
}
use concordia_protocol.Prelude.Dict.{Dict, get}
use concordia_protocol.WantRegistry.{
  Numbers, Value, number, null, num, Term, fields, Want, Have, Location, object, not_object,
  Overlap, Match, attribute_error, is_past, categories_compatible,
}
use concordia_protocol.WantRegistry.Terms.{
  get_or, compare_fields, shared_terms, compute_term_overlap, enumerated, condition, condition_rank,
}
use concordia_protocol.WantRegistry.Places.{
  place_number, extract_coords, haversine_km, measure, locations_compatible,
}
use concordia_protocol.WantRegistry.Matching.{new_match, match_located, compute_match}

-- Two categories are compatible exactly when they are the same or one lies below the other in the
-- dotted hierarchy; which is the want's does not matter.
pub categories_compatible_iff :
    (a b : String)
    → ((categories_compatible a b ≡ true)
        ↔ ((a ≡ b) ⊎ (IsPrefix (str_append b ".") a ⊎ IsPrefix (str_append a ".") b)))
      × (categories_compatible a b ≡ categories_compatible b a)
unfolding categories_compatible
categories_compatible_iff a b =
    ((λ h. there h, λ h. back h), ground (arith, eq_iff a b, eq_iff b a))
  where
    there :
        categories_compatible a b ≡ true
        → (a ≡ b) ⊎ (IsPrefix (str_append b ".") a ⊎ IsPrefix (str_append a ".") b)
    there h = elim (Bool-cases (str_eq a b)) [
      | inl e ↦ inl ((eq_iff a b).0 e)
      | inr e ↦ elim (Bool-cases (starts_with a (str_append b "."))) [
        | inl p ↦ inr (inl ((starts_with_iff a (str_append b ".")).0 p))
        | inr p ↦ inr (inr ((starts_with_iff b (str_append a ".")).0 (ground (arith, e, p, h))))
      ]
    ]

    back :
        (a ≡ b) ⊎ (IsPrefix (str_append b ".") a ⊎ IsPrefix (str_append a ".") b)
        → categories_compatible a b ≡ true
    back (inl e) = let t = (eq_iff a b).1 e in ground (arith, t)
    back (inr (inl p)) = let t = (starts_with_iff a (str_append b ".")).1 p in ground (arith, t)
    back (inr (inr p)) = let t = (starts_with_iff b (str_append a ".")).1 p in ground (arith, t)

-- Two categories are the same, or one lies below the other.
abbrev pub Related : String → String → Type 0
Related a b = (a ≡ b) ⊎ (IsPrefix (str_append b ".") a ⊎ IsPrefix (str_append a ".") b)

lives_iff : (expires_at now : ℕ) → (is_past expires_at now ≡ false) ↔ (now ≤ expires_at)
unfolding is_past
lives_iff expires_at now = (λ h. ground (arith, h), λ h. ground (arith, h))

module _ (H : Numbers) where
  -- Where there is a radius and both points are known, their distance is within the radius.
  abbrev pub Within : Option H.Num → Option (H.Num × H.Num) → Option (H.Num × H.Num) → Type 0
  Within none p q = Unit
  Within (some r) none q = Unit
  Within (some r) (some p) none = Unit
  Within (some r) (some (lat, lng)) (some (lat', lng')) =
      H.leb_num (haversine_km H lat lng lat' lng') r ≡ true

  -- A place that is not stated is near to all.
  abbrev pub Near : Option (Location H.Num) → Option (Location H.Num) → Type 0
  Near (some (object w)) (some (object h)) =
      Within (place_number H (get w "within_km")) (extract_coords H w) (extract_coords H h)
  Near _ _ = Unit

  Within-iff :
      (radius : Option H.Num) (p q : Option (H.Num × H.Num))
      → ((measure H radius p q).0 ≡ true) ↔ Within radius p q
  unfolding measure
  Within-iff none none q = (λ h. tt, λ h. refl)
  Within-iff none (some p) none = (λ h. tt, λ h. refl)
  Within-iff none (some p) (some q) = (λ h. tt, λ h. refl)
  Within-iff (some r) none q = (λ h. tt, λ h. refl)
  Within-iff (some r) (some p) none = (λ h. tt, λ h. refl)
  Within-iff (some r) (some (lat, lng)) (some (lat', lng')) = (λ h. h, λ h. h)

  Near-iff : (w h : Option (Location H.Num)) → ((locations_compatible H w h).0 ≡ true) ↔ Near w h
  unfolding locations_compatible
  Near-iff none h = (λ e. tt, λ e. refl)
  Near-iff (some (not_object v)) h = (λ e. tt, λ e. refl)
  Near-iff (some (object w)) none = (λ e. tt, λ e. refl)
  Near-iff (some (object w)) (some (not_object v)) = (λ e. tt, λ e. refl)
  Near-iff (some (object w)) (some (object h)) =
      Within-iff (place_number H (get w "within_km")) (extract_coords H w) (extract_coords H h)

module _ (H : Numbers) (eq_value : Value H.Num → Value H.Num → Bool) where
  pub record Matches (now : ℕ) (want : Want H.Num) (have : Have H.Num) : Type 0 where
    pub category : Related want.category have.category
    pub agents : want.agent_id ≢ have.agent_id
    pub want_lives : now ≤ want.expires_at
    pub have_lives : now ≤ have.expires_at
    pub overlap : Dict (Overlap H.Num)
    pub score : H.Num
    pub terms : compute_term_overlap H eq_value want.terms have.terms ≡ ok (overlap, score)
    pub positive : H.is_zero score ≡ false
    pub near : Near H want.location have.location

  match_located_found :
      (id : String) (want : Want H.Num) (have : Have H.Num) (o : Dict (Overlap H.Num)) (n : H.Num)
      {m : Match H.Num}
      → match_located H eq_value id want have o n ≡ some m
      → ((locations_compatible H want.location have.location).0 ≡ true)
        × (m.want_id ≡ want.id)
        × (m.have_id ≡ have.id)
        × (m.want_agent_id ≡ want.agent_id)
        × (m.have_agent_id ≡ have.agent_id)
  unfolding match_located new_match
  match_located_found id want have o n {m} h = (
    ground (arith, h),
    ground (arith, h),
    ground (arith, h),
    ground (arith, h),
    ground (arith, h),
  )

  pub record Names (want : Want H.Num) (have : Have H.Num) (m : Match H.Num) : Type 0 where
    pub want_id : m.want_id ≡ want.id
    pub have_id : m.have_id ≡ have.id
    pub want_agent_id : m.want_agent_id ≡ want.agent_id
    pub have_agent_id : m.have_agent_id ≡ have.agent_id

  -- A match names the want, the have and their agents, and comes of what `Matches` says.
  pub compute_match-Matches :
      (id : String) (now : ℕ) (want : Want H.Num) (have : Have H.Num) {m : Match H.Num}
      → compute_match H eq_value id now want have ≡ ok (some m)
      → Matches now want have × Names want have m
  unfolding compute_match
  compute_match-Matches id now want have {m} h =
      elim (Bool-cases (categories_compatible want.category have.category)) [
        | inr c ↦ absurd (ground (arith, c, h))
        | inl c ↦ elim (Bool-cases (str_eq want.agent_id have.agent_id)) [
          | inl a ↦ absurd (ground (arith, c, a, h))
          | inr a ↦ elim (Bool-cases (is_past want.expires_at now || is_past have.expires_at now)) [
            | inl x ↦ absurd (ground (arith, c, a, x, h))
            | inr x ↦ elim (Result-cases (compute_term_overlap H eq_value want.terms have.terms)) [
              | inl (e, t) ↦ absurd (ground (arith, c, a, x, t, h))
              | inr ((o, n), t) ↦ elim (Bool-cases (H.is_zero n)) [
                | inl z ↦ absurd (ground (arith, c, a, x, t, z, h))
                | inr z ↦
                    let found : match_located H eq_value id want have o n ≡ some m =
                      ground (arith, c, a, x, t, z, h) in
                    let (near, w, k, wa, ha) = match_located_found id want have o n {m = m} found in
                    (
                      record {
                        category = (categories_compatible_iff want.category have.category).0.0 c;
                        agents =
                            λ e. absurd (ground (arith, a, eq_iff want.agent_id have.agent_id, e));
                        want_lives = (lives_iff want.expires_at now).0 (ground (arith, x));
                        have_lives = (lives_iff have.expires_at now).0 (ground (arith, x));
                        overlap = o;
                        score = n;
                        terms = t;
                        positive = z;
                        near = (Near-iff H want.location have.location).0 near;
                      },
                      record { want_id = w; have_id = k; want_agent_id = wa; have_agent_id = ha },
                    )
              ]
            ]
          ]
        ]
      ]

  found_if_near :
      (id : String) (want : Want H.Num) (have : Have H.Num) (o : Dict (Overlap H.Num)) (n : H.Num)
      → (locations_compatible H want.location have.location).0 ≡ true
      → (m : Match H.Num) × (match_located H eq_value id want have o n ≡ some m)
  unfolding match_located
  found_if_near id want have o n fits = (
    new_match H eq_value id want have (locations_compatible H want.location have.location).1 o n,
    rw fits refl,
  )

  Matches-compute_match :
      (id : String) (now : ℕ) (want : Want H.Num) (have : Have H.Num)
      → Matches now want have
      → (m : Match H.Num) × (compute_match H eq_value id now want have ≡ ok (some m))
  unfolding compute_match
  Matches-compute_match id now want have v =
      let related = (categories_compatible_iff want.category have.category).0.1 v.category in
      let apart : str_eq want.agent_id have.agent_id ≡ false =
        elim (Bool-cases (str_eq want.agent_id have.agent_id)) [
          | inl e ↦ absurd (v.agents ((eq_iff want.agent_id have.agent_id).0 e))
          | inr e ↦ e
        ] in
      let want_on = (lives_iff want.expires_at now).1 v.want_lives in
      let have_on = (lives_iff have.expires_at now).1 v.have_lives in
      let near = (Near-iff H want.location have.location).1 v.near in
      let (m, found) = found_if_near id want have v.overlap v.score near in
      (m, rw (related, apart, want_on, have_on, v.terms, v.positive) (ap (λ o. ok o) found))

  -- A want and a have give a match exactly when their categories are the same or one lies below the
  -- other in the dotted hierarchy, their agents differ, neither has expired, their terms overlap
  -- with a score that is not 0, and, where the want has a radius and both have coordinates, the
  -- distance is within the radius.
  pub compute_match_iff :
      (id : String) (now : ℕ) (want : Want H.Num) (have : Have H.Num)
      → ((m : Match H.Num) × (compute_match H eq_value id now want have ≡ ok (some m)))
        ↔ Matches now want have
  compute_match_iff id now want have = (
    λ (m, h). (compute_match-Matches id now want have {m = m} h).0,
    Matches-compute_match id now want have,
  )

  minimum_raises :
      (n : H.Num) (w h : Dict (Value H.Num)) {v : Value H.Num}
      → get w "min" ≡ some (num n)
      → number (get_or H eq_value w "max" null) ≡ none
      → get h "value" ≡ some v
      → compare_fields H eq_value w h ≡ err attribute_error
  unfolding compare_fields enumerated condition condition_rank
  minimum_raises n w h {v} e x y = ground (arith, e, x, y)

  -- A want whose first term has a number as its minimum and none as its maximum makes the
  -- matching raise an AttributeError with every have of another agent, of a compatible category
  -- and unexpired like the want, that has a value under that term.
  pub compute_match_raises :
      (id : String) (now : ℕ) (want : Want H.Num) (have : Have H.Num) (key : String) (n : H.Num)
      (w h : Dict (Value H.Num)) (rest : Dict (Term H.Num)) {v : Value H.Num}
      → categories_compatible want.category have.category ≡ true
      → str_eq want.agent_id have.agent_id ≡ false
      → (is_past want.expires_at now || is_past have.expires_at now) ≡ false
      → want.terms ≡ (key, fields w) ∷ rest
      → get w "min" ≡ some (num n)
      → number (get_or H eq_value w "max" null) ≡ none
      → get have.terms key ≡ some (fields h)
      → get h "value" ≡ some v
      → compute_match H eq_value id now want have ≡ err attribute_error
  unfolding compute_match compute_term_overlap shared_terms
  compute_match_raises id now want have key n w h rest {v} c a x t e no_max g y =
      rw (c, a, x, t, g, minimum_raises n w h {v = v} e no_max y) refl
