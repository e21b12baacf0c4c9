-- ===== src/WantRegistry/Caps.antt =====
-- The caps of the want registry, and what a post leaves: concordia/want_registry.py.
use concordia_protocol.WantRegistry.Browse.{search_wants, search_haves, want_stats}
use concordia_protocol.Prelude.{
  ℕ, ◌+◌, ◌≤◌, String, ◌≡◌, inl, inr, Bool, Option, none, some, List, [], ◌∷◌, arith, length,
  Option-cases, Result, ok, err,
}
use concordia_protocol.Prelude.Dict.{Dict, get, get-put_self, length-put-le, length-remove-le}
use concordia_protocol.WantRegistry.{Numbers, Value, Want, Have, Match, WantError, attribute_error}
use concordia_protocol.WantRegistry.Store.{
  Store, PostKind, remove_post, remove_posts, expire_posts, past_ids, add_post, get_post, withdraw,
  list_posts, all_posts,
}
use concordia_protocol.WantRegistry.Posting.{
  max_wants, max_haves, max_matches, want_kind, have_kind, WantRegistry, empty_registry, keep_match,
  match_all, have_candidates, want_candidates, new_want, new_have, post_want, post_have, get_want,
  get_have, withdraw_want, withdraw_have, list_wants, list_haves,
}

module _ {P : Type 0} (K : PostKind P) where
  length-remove_post :
      (id : String) (st : Store P) → length (remove_post K id st).posts ≤ length st.posts
  unfolding remove_post
  length-remove_post id st = elim (Option-cases (get st.posts id)) [
    | inl e ↦ ground (arith, e)
    | inr (p, e) ↦ ground (arith, e, length-remove-le st.posts id)
  ]

  length-remove_posts :
      (ids : List String) (st : Store P) → length (remove_posts K ids st).posts ≤ length st.posts
  unfolding remove_posts
  length-remove_posts [] st = omega arith
  length-remove_posts (id ∷ ids) st =
      omega (arith, length-remove_posts ids (remove_post K id st), length-remove_post id st)

  length-expire_posts :
      (now : ℕ) (st : Store P) → length (expire_posts K now st).posts ≤ length st.posts
  unfolding expire_posts
  length-expire_posts now st = length-remove_posts (past_ids K now st.posts) st

  length-add_post :
      (id : String) (p : P) (st : Store P) → length (add_post K id p st).posts ≤ length st.posts + 1
  unfolding add_post
  length-add_post id p st = length-put-le st.posts id p

  length-get_post :
      (id : String) (now : ℕ) (st : Store P)
      → length (get_post K id now st).1.posts ≤ length st.posts
  unfolding get_post
  length-get_post id now st = elim (Option-cases (get st.posts id)) [
    | inl e ↦ ground (arith, e)
    | inr (p, e) ↦ ground (arith, e, length-remove_post id st)
  ]

  length-withdraw :
      (id : String) (st : Store P) → length (withdraw K id st).1.posts ≤ length st.posts
  unfolding withdraw
  length-withdraw id st = elim (Option-cases (get st.posts id)) [
    | inl e ↦ ground (arith, e)
    | inr (p, e) ↦ ground (arith, e, length-remove_post id st)
  ]

module _ (H : Numbers) (eq_value : Value H.Num → Value H.Num → Bool) where
  length-match_all :
      (cs : List (Result WantError (Option (Match H.Num)))) (stored : Dict (Match H.Num))
      → length stored ≤ max_matches
      → length (match_all H eq_value cs stored).1 ≤ max_matches
  unfolding match_all keep_match
  length-match_all [] stored h = h
  length-match_all (ok none ∷ cs) stored h = length-match_all cs stored h
  length-match_all (ok (some m) ∷ cs) stored h =
      length-match_all cs (keep_match H eq_value m stored)
        (ground (arith, h, length-put-le stored m.match_id m))
  length-match_all (err e ∷ cs) stored h = h

  pub record Capped (r : WantRegistry H eq_value) : Type 0 where
    pub wants : length r.wants.posts ≤ max_wants
    pub haves : length r.haves.posts ≤ max_haves
    pub matches : length r.matches ≤ max_matches

  post_want-Capped :
      (ids : String → String) (now : ℕ) (q : Want H.Num) (r : WantRegistry H eq_value)
      → Capped r
      → Capped (post_want H eq_value ids now q r).1
  unfolding post_want
  post_want-Capped ids now q r v =
      let want = new_want H eq_value now q in
      let live = expire_posts (want_kind H eq_value) now r.wants in
      let cs =
        have_candidates H eq_value ids now want (all_posts (have_kind H eq_value) r.haves.posts) in
      ground (
        arith,
        v,
        length-expire_posts (want_kind H eq_value) now r.wants,
        length-add_post (want_kind H eq_value) want.id want live,
        length-match_all cs r.matches v.matches,
      )

  post_have-Capped :
      (ids : String → String) (now : ℕ) (q : Have H.Num) (r : WantRegistry H eq_value)
      → Capped r
      → Capped (post_have H eq_value ids now q r).1
  unfolding post_have
  post_have-Capped ids now q r v =
      let have = new_have H eq_value now q in
      let live = expire_posts (have_kind H eq_value) now r.haves in
      let cs =
        want_candidates H eq_value ids now have (all_posts (want_kind H eq_value) r.wants.posts) in
      ground (
        arith,
        v,
        length-expire_posts (have_kind H eq_value) now r.haves,
        length-add_post (have_kind H eq_value) have.id have live,
        length-match_all cs r.matches v.matches,
      )

  -- The calls of the methods that change the registry.
  pub data Call : Type 0 where
    want_posted : (String → String) → ℕ → Want H.Num → Call
    have_posted : (String → String) → ℕ → Have H.Num → Call
    want_read : String → ℕ → Call
    have_read : String → ℕ → Call
    want_withdrawn : String → Call
    have_withdrawn : String → Call
    wants_listed : Option String → ℕ → Call
    haves_listed : Option String → ℕ → Call
    wants_searched : Option String → ℕ → ℕ → Call
    haves_searched : Option String → ℕ → ℕ → Call
    stats_read : ℕ → Call

  unfoldable pub step : WantRegistry H eq_value → Call → WantRegistry H eq_value
  step r (want_posted ids now q) = (post_want H eq_value ids now q r).1
  step r (have_posted ids now q) = (post_have H eq_value ids now q r).1
  step r (want_read id now) = (get_want H eq_value id now r).1
  step r (have_read id now) = (get_have H eq_value id now r).1
  step r (want_withdrawn id) = (withdraw_want H eq_value id r).1
  step r (have_withdrawn id) = (withdraw_have H eq_value id r).1
  step r (wants_listed agent_id now) = (list_wants H eq_value agent_id now r).1
  step r (haves_listed agent_id now) = (list_haves H eq_value agent_id now r).1
  step r (wants_searched category limit now) = (search_wants H eq_value category limit now r).1
  step r (haves_searched category limit now) = (search_haves H eq_value category limit now r).1
  step r (stats_read now) = (want_stats H eq_value now r).1

  unfoldable pub run : WantRegistry H eq_value → List Call → WantRegistry H eq_value
  run r [] = r
  run r (c ∷ cs) = run (step r c) cs

  step-Capped : (r : WantRegistry H eq_value) (c : Call) → Capped r → Capped (step r c)
  unfolding step get_want get_have withdraw_want withdraw_have list_wants list_haves list_posts
      search_wants search_haves want_stats
  step-Capped r (want_posted ids now q) v = post_want-Capped ids now q r v
  step-Capped r (have_posted ids now q) v = post_have-Capped ids now q r v
  step-Capped r (want_read id now) v =
      ground (arith, v, length-get_post (want_kind H eq_value) id now r.wants)
  step-Capped r (have_read id now) v =
      ground (arith, v, length-get_post (have_kind H eq_value) id now r.haves)
  step-Capped r (want_withdrawn id) v =
      ground (arith, v, length-withdraw (want_kind H eq_value) id r.wants)
  step-Capped r (have_withdrawn id) v =
      ground (arith, v, length-withdraw (have_kind H eq_value) id r.haves)
  step-Capped r (wants_listed agent_id now) v =
      ground (arith, v, length-expire_posts (want_kind H eq_value) now r.wants)
  step-Capped r (haves_listed agent_id now) v =
      ground (arith, v, length-expire_posts (have_kind H eq_value) now r.haves)
  step-Capped r (wants_searched category limit now) v =
      ground (arith, v, length-expire_posts (want_kind H eq_value) now r.wants)
  step-Capped r (haves_searched category limit now) v =
      ground (arith, v, length-expire_posts (have_kind H eq_value) now r.haves)
  step-Capped r (stats_read now) v = ground (
    arith,
    v,
    length-expire_posts (want_kind H eq_value) now r.wants,
    length-expire_posts (have_kind H eq_value) now r.haves,
  )

  run_from-Capped : (r : WantRegistry H eq_value) (cs : List Call) → Capped r → Capped (run r cs)
  unfolding run
  run_from-Capped r [] v = v
  run_from-Capped r (c ∷ cs) v = run_from-Capped (step r c) cs (step-Capped r c v)

  -- Whatever calls are made on a new want registry, it holds at most 50,000 wants, 50,000 haves
  -- and 100,000 matches.
  pub run-Capped : (cs : List Call) → Capped (run (empty_registry H eq_value) cs)
  unfolding empty_registry
  run-Capped cs = run_from-Capped (empty_registry H eq_value) cs (omega arith)

  -- When the matching of a new want raises an AttributeError, the caller gets the error, and the
  -- want is in the registry all the same.
  pub post_want_raises :
      (ids : String → String) (now : ℕ) (q : Want H.Num) (r : WantRegistry H eq_value)
      → (post_want H eq_value ids now q r).0 ≡ err attribute_error
      → get (post_want H eq_value ids now q r).1.wants.posts q.id ≡ some (new_want H eq_value now q)
  unfolding post_want add_post new_want
  post_want_raises ids now q r h =
      let live = expire_posts (want_kind H eq_value) now r.wants in
      ground (arith, h, get-put_self live.posts q.id (new_want H eq_value now q))
