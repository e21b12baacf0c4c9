-- ===== src/WantRegistry/Posting.antt =====
-- Posting a want or a have, and the matches that the registry keeps: concordia/want_registry.py.
-- `match_id` makes the identifier of a match from that of the post it is with.
use concordia_protocol.Prelude.{true, ◌&&◌, take, str_truthy, str_eq}
use concordia_protocol.Prelude.{
  ℕ, ◌*◌, ◌+◌, String, Bool, not, ◌||◌, Option, none, some, List, [], ◌∷◌, ltb, leb, if◌then◌else◌,
  length, Result, ok, err,
}
use concordia_protocol.Prelude.Dict.{Dict, get, put}
use concordia_protocol.WantRegistry.{
  Numbers, Value, Want, Have, Match, WantError, location_malformed, ttl_exceeds_maximum,
  registry_full, is_past,
}
use concordia_protocol.WantRegistry.Places.{validate_location}
use concordia_protocol.WantRegistry.Matching.{compute_match}
use concordia_protocol.WantRegistry.Store.{
  Store, PostKind, expire_posts, active_posts, add_post, get_post, withdraw, list_posts, all_posts,
}

abbrev pub max_wants : ℕ
max_wants = 50000

abbrev pub max_haves : ℕ
max_haves = 50000

abbrev pub max_matches : ℕ
max_matches = 100000

abbrev pub max_active_per_agent : ℕ
max_active_per_agent = 100

abbrev pub max_ttl_seconds : ℕ
max_ttl_seconds = 7 * 24 * 60 * 60

module _ (H : Numbers) (eq_value : Value H.Num → Value H.Num → Bool) where
  abbrev pub want_kind : PostKind (Want H.Num)
  want_kind = record { owner = λ w. w.agent_id; deadline = λ w. w.expires_at }

  abbrev pub have_kind : PostKind (Have H.Num)
  have_kind = record { owner = λ h. h.agent_id; deadline = λ h. h.expires_at }

  pub record WantRegistry : Type 0 where
    pub wants : Store (Want H.Num)
    pub haves : Store (Have H.Num)
    pub matches : Dict (Match H.Num)

  unfoldable pub empty_registry : WantRegistry
  empty_registry = record {
    wants = record { posts = []; by_agent = [] };
    haves = record { posts = []; by_agent = [] };
    matches = [];
  }

  -- `sort(key=score, reverse=True)`: stable, the best first.
  unfoldable pub insert_best : Match H.Num → List (Match H.Num) → List (Match H.Num)
  insert_best m [] = m ∷ []
  insert_best m (n ∷ ns) =
      let rest = insert_best m ns in
      if not (H.leb_num n.score m.score) then n ∷ rest else m ∷ n ∷ ns

  unfoldable pub best_first : List (Match H.Num) → List (Match H.Num)
  best_first [] = []
  best_first (m ∷ ms) = insert_best m (best_first ms)

  unfoldable pub keep_match : Match H.Num → Dict (Match H.Num) → Dict (Match H.Num)
  keep_match m stored = if ltb (length stored) max_matches then put stored m.match_id m else stored

  -- The loop of `_match_want` and `_match_have`, over the candidates on the other side; a match
  -- that raises ends it, with what was stored before.
  unfoldable pub match_all :
      List (Result WantError (Option (Match H.Num)))
      → Dict (Match H.Num)
      → Result WantError (List (Match H.Num)) × Dict (Match H.Num)
  match_all [] stored = (ok [], stored)
  match_all (ok none ∷ rest) stored = match_all rest stored
  match_all (ok (some m) ∷ rest) stored =
      let (found, end) = match_all rest (keep_match m stored) in
      (elim found [ err e ↦ err e | ok ms ↦ ok (m ∷ ms) ], end)
  match_all (err e ∷ rest) stored = (err e, stored)

  unfoldable pub have_candidates :
      (String → String)
      → ℕ
      → Want H.Num
      → List (Have H.Num)
      → List (Result WantError (Option (Match H.Num)))
  have_candidates match_id now want [] = []
  have_candidates match_id now want (h ∷ hs) =
      let rest = have_candidates match_id now want hs in
      if is_past h.expires_at now
      then rest
      else compute_match H eq_value (match_id h.id) now want h ∷ rest

  unfoldable pub want_candidates :
      (String → String)
      → ℕ
      → Have H.Num
      → List (Want H.Num)
      → List (Result WantError (Option (Match H.Num)))
  want_candidates match_id now have [] = []
  want_candidates match_id now have (w ∷ ws) =
      let rest = want_candidates match_id now have ws in
      if is_past w.expires_at now
      then rest
      else compute_match H eq_value (match_id w.id) now w have ∷ rest

  unfoldable pub sorted :
      {P : Type 0}
      → P
      → Result WantError (List (Match H.Num))
      → Result WantError (P × List (Match H.Num))
  sorted p (err e) = err e
  sorted p (ok ms) = ok (p, best_first ms)

  -- A new post is given its times; the other fields are the caller's, the identifier uuid4's.
  unfoldable pub new_want : ℕ → Want H.Num → Want H.Num
  new_want now q = record q { created_at = now; expires_at = now + q.ttl }

  unfoldable pub new_have : ℕ → Have H.Num → Have H.Num
  new_have now q = record q { created_at = now; expires_at = now + q.ttl }

  unfoldable pub post_want :
      (String → String)
      → ℕ
      → Want H.Num
      → WantRegistry
      → Result WantError (Want H.Num × List (Match H.Num)) × WantRegistry
  post_want match_id now q r =
      let want = new_want now q in
      let live = expire_posts want_kind now r.wants in
      if not (validate_location H want.location)
      then (err location_malformed, r)
      else if ltb max_ttl_seconds want.ttl
      then (err ttl_exceeds_maximum, r)
      else if leb max_wants (length live.posts)
          || leb max_active_per_agent (active_posts want_kind want.agent_id now live)
      then (err registry_full, record r { wants = live })
      else let (found, stored) =
          match_all (have_candidates match_id now want (all_posts have_kind r.haves.posts))
            r.matches in
        (
          sorted want found,
          record {
            wants = add_post want_kind want.id want live;
            haves = r.haves;
            matches = stored;
          },
        )

  unfoldable pub post_have :
      (String → String)
      → ℕ
      → Have H.Num
      → WantRegistry
      → Result WantError (Have H.Num × List (Match H.Num)) × WantRegistry
  post_have match_id now q r =
      let have = new_have now q in
      let live = expire_posts have_kind now r.haves in
      if not (validate_location H have.location)
      then (err location_malformed, r)
      else if ltb max_ttl_seconds have.ttl
      then (err ttl_exceeds_maximum, r)
      else if leb max_haves (length live.posts)
          || leb max_active_per_agent (active_posts have_kind have.agent_id now live)
      then (err registry_full, record r { haves = live })
      else let (found, stored) =
          match_all (want_candidates match_id now have (all_posts want_kind r.wants.posts))
            r.matches in
        (
          sorted have found,
          record {
            wants = r.wants;
            haves = add_post have_kind have.id have live;
            matches = stored;
          },
        )

  unfoldable pub get_want : String → ℕ → WantRegistry → Option (Want H.Num) × WantRegistry
  get_want id now r =
      let (found, rest) = get_post want_kind id now r.wants in (found, record r { wants = rest })

  unfoldable pub get_have : String → ℕ → WantRegistry → Option (Have H.Num) × WantRegistry
  get_have id now r =
      let (found, rest) = get_post have_kind id now r.haves in (found, record r { haves = rest })

  unfoldable pub withdraw_want : String → WantRegistry → Bool × WantRegistry
  withdraw_want id r =
      let (found, rest) = withdraw want_kind id r.wants in (found, record r { wants = rest })

  unfoldable pub withdraw_have : String → WantRegistry → Bool × WantRegistry
  withdraw_have id r =
      let (found, rest) = withdraw have_kind id r.haves in (found, record r { haves = rest })

  unfoldable pub list_wants : Option String → ℕ → WantRegistry → List (Want H.Num) × WantRegistry
  list_wants agent_id now r =
      let (found, rest) = list_posts want_kind agent_id now r.wants in
      (found, record r { wants = rest })

  unfoldable pub list_haves : Option String → ℕ → WantRegistry → List (Have H.Num) × WantRegistry
  list_haves agent_id now r =
      let (found, rest) = list_posts have_kind agent_id now r.haves in
      (found, record r { haves = rest })

  unfoldable pub get_match : String → WantRegistry → Option (Match H.Num)
  get_match id r = get r.matches id

  unfoldable pub wanted_by : Option String → String → Bool
  wanted_by none id = true
  wanted_by (some x) id = not (str_truthy x) || str_eq id x

  unfoldable pub is_asked : Option String → Option String → Option String → Match H.Num → Bool
  is_asked want_id have_id agent_id m =
      wanted_by want_id m.want_id
      && wanted_by have_id m.have_id
      && (wanted_by agent_id m.want_agent_id || wanted_by agent_id m.have_agent_id)

  unfoldable pub stored_matches : (Match H.Num → Bool) → Dict (Match H.Num) → List (Match H.Num)
  stored_matches test [] = []
  stored_matches test ((_, m) ∷ d) =
      let rest = stored_matches test d in if test m then m ∷ rest else rest

  unfoldable pub find_matches :
      Option String → Option String → Option String → ℕ → WantRegistry → List (Match H.Num)
  find_matches want_id have_id agent_id limit r =
      take limit (best_first (stored_matches (is_asked want_id have_id agent_id) r.matches))
