-- ===== src/WantRegistry/Posted.antt =====
-- The matches that a post returns: concordia/want_registry.py.
use concordia_protocol.Prelude.{
  ℕ, String, ◌≡◌, refl, inl, inr, Bool, not, Option, none, some, List, [], ◌∷◌, arith, All, Among,
  Bool-cases, Result, ok, err, Result-cases,
}
use mathlib.Core.Path.{subst}
use concordia_protocol.Prelude.Dict.{Dict}
use concordia_protocol.WantRegistry.{Numbers, Value, Want, Have, Match, WantError, is_past}
use concordia_protocol.WantRegistry.Sound.{Matches, Names, compute_match-Matches}
use concordia_protocol.WantRegistry.Store.{all_posts}
use concordia_protocol.WantRegistry.Posting.{
  have_kind, WantRegistry, insert_best, best_first, keep_match, match_all, have_candidates, sorted,
  new_want, post_want,
}

module _ (H : Numbers) (eq_value : Value H.Num → Value H.Num → Bool) where
  insert_best-All :
      (P : Match H.Num → Type 0) (m : Match H.Num) (ms : List (Match H.Num))
      → P m
      → All P ms
      → All P (insert_best H eq_value m ms)
  unfolding insert_best
  insert_best-All P m [] p h = (p, tt)
  insert_best-All P m (n ∷ ns) p h = elim (Bool-cases (not (H.leb_num n.score m.score))) [
    | inl e ↦ rw e (h.0, insert_best-All P m ns p h.1)
    | inr e ↦ rw e (p, h)
  ]

  best_first-All :
      (P : Match H.Num → Type 0) (ms : List (Match H.Num))
      → All P ms
      → All P (best_first H eq_value ms)
  unfolding best_first
  best_first-All P [] h = tt
  best_first-All P (m ∷ ms) h =
      insert_best-All P m (best_first H eq_value ms) h.0 (best_first-All P ms h.1)

  abbrev Yields : (Match H.Num → Type 0) → Result WantError (Option (Match H.Num)) → Type 0
  Yields P c = (m : Match H.Num) → c ≡ ok (some m) → P m

  match_all-All :
      (P : Match H.Num → Type 0) (cs : List (Result WantError (Option (Match H.Num))))
      (stored : Dict (Match H.Num)) (ms : List (Match H.Num))
      → All (Yields P) cs
      → (match_all H eq_value cs stored).0 ≡ ok ms
      → All P ms
  unfolding match_all
  match_all-All P [] stored [] h e = tt
  match_all-All P [] stored (m ∷ ms) h e = absurd (ground (arith, e))
  match_all-All P (err x ∷ cs) stored ms h e = absurd (ground (arith, e))
  match_all-All P (ok none ∷ cs) stored ms h e = match_all-All P cs stored ms h.1 e
  match_all-All P (ok (some m) ∷ cs) stored ms h e =
      let s = keep_match H eq_value m stored in
      elim (Result-cases (match_all H eq_value cs s).0) [
        | inl (x, f) ↦ absurd (ground (arith, f, e))
        | inr (ns, f) ↦
            let same : m ∷ ns ≡ ms = ground (arith, f, e) in
            subst (All P) same (h.0 m refl, match_all-All P cs s ns h.1 f)
      ]

  abbrev pub Found : ℕ → Want H.Num → List (Have H.Num) → Match H.Num → Type 0
  Found now want haves m =
      (h : Have H.Num) × Among h haves × Matches H eq_value now want h × Names H eq_value want h m

  Found-later :
      (now : ℕ) (want : Want H.Num) (h : Have H.Num) (hs : List (Have H.Num))
      (cs : List (Result WantError (Option (Match H.Num))))
      → All (Yields (Found now want hs)) cs
      → All (Yields (Found now want (h ∷ hs))) cs
  Found-later now want h hs [] v = tt
  Found-later now want h hs (c ∷ cs) v =
      (λ m e. let (k, a, f, n) = v.0 m e in (k, inr a, f, n), Found-later now want h hs cs v.1)

  have_candidates-Found :
      (ids : String → String) (now : ℕ) (want : Want H.Num) (hs : List (Have H.Num))
      → All (Yields (Found now want hs)) (have_candidates H eq_value ids now want hs)
  unfolding have_candidates
  have_candidates-Found ids now want [] = tt
  have_candidates-Found ids now want (h ∷ hs) =
      let later = Found-later now want h hs _ (have_candidates-Found ids now want hs) in
      elim (Bool-cases (is_past h.expires_at now)) [
        | inl e ↦ rw e later
        | inr e ↦ rw e (
          λ m c.
              let (f, n) = compute_match-Matches H eq_value (ids h.id) now want h {m = m} c in
              (h, inl refl, f, n),
          later,
        )
      ]

  -- Every match that a new want is returned with is a match with a have of the registry.
  pub post_want-Found :
      (ids : String → String) (now : ℕ) (q : Want H.Num) (r : WantRegistry H eq_value)
      {p : Want H.Num × List (Match H.Num)}
      → (post_want H eq_value ids now q r).0 ≡ ok p
      → All
          (Found now (new_want H eq_value now q) (all_posts (have_kind H eq_value) r.haves.posts))
          p.1
  unfolding post_want sorted
  post_want-Found ids now q r {p} h =
      let want = new_want H eq_value now q in
      let haves = all_posts (have_kind H eq_value) r.haves.posts in
      let cs = have_candidates H eq_value ids now want haves in
      elim (Result-cases (match_all H eq_value cs r.matches).0) [
        | inl (x, f) ↦ absurd (ground (arith, f, h))
        | inr (ms, f) ↦
            let same : best_first H eq_value ms ≡ p.1 = ground (arith, f, h) in
            subst (All (Found now want haves)) same (
              best_first-All (Found now want haves) ms (
                match_all-All (Found now want haves) cs r.matches ms
                  (have_candidates-Found ids now want haves) f))
      ]
