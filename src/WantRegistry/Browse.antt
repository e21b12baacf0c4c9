-- ===== src/WantRegistry/Browse.antt =====
-- Browsing by category and the statistics of concordia/want_registry.py. A post's time stands for
-- its text in ISO form, which orders as the time does.
use concordia_protocol.Prelude.{
  ℕ, ◌+◌, String, Bool, true, not, ◌||◌, Option, none, some, List, [], ◌∷◌, str_truthy, length,
  take, keep, mem_str,
}
use concordia_protocol.Prelude.Dict.{Dict}
use concordia_protocol.Relay.Archives.{latest_first}
use concordia_protocol.WantRegistry.{Numbers, Value, Want, Have, categories_compatible}
use concordia_protocol.WantRegistry.Store.{expire_posts, all_posts}
use concordia_protocol.WantRegistry.Posting.{want_kind, have_kind, WantRegistry}

-- `category and not categories_compatible(…)` drops a post.
unfoldable pub in_category : Option String → String → Bool
in_category none c = true
in_category (some category) c = not (str_truthy category) || categories_compatible category c

unfoldable pub keys {ℓ} : {V : Type ℓ} → Dict V → List String
keys [] = []
keys ((k, _) ∷ d) = k ∷ keys d

module _ (H : Numbers) (eq_value : Value H.Num → Value H.Num → Bool) where
  unfoldable pub search_wants :
      Option String → ℕ → ℕ → WantRegistry H eq_value → List (Want H.Num) × WantRegistry H eq_value
  search_wants category limit now r =
      let live = expire_posts (want_kind H eq_value) now r.wants in
      (
        take limit (
            latest_first (λ w. w.created_at)
              (keep (λ w. in_category category w.category)
                (all_posts (want_kind H eq_value) live.posts))),
        record r { wants = live },
      )

  unfoldable pub search_haves :
      Option String → ℕ → ℕ → WantRegistry H eq_value → List (Have H.Num) × WantRegistry H eq_value
  search_haves category limit now r =
      let live = expire_posts (have_kind H eq_value) now r.haves in
      (
        take limit (
            latest_first (λ h. h.created_at)
              (keep (λ h. in_category category h.category)
                (all_posts (have_kind H eq_value) live.posts))),
        record r { haves = live },
      )

  pub record WantStats : Type 0 where
    pub active_wants : ℕ
    pub active_haves : ℕ
    pub total_matches : ℕ
    pub unique_agents : ℕ

  unfoldable pub want_stats : ℕ → WantRegistry H eq_value → WantStats × WantRegistry H eq_value
  want_stats now r =
      let wants = expire_posts (want_kind H eq_value) now r.wants in
      let haves = expire_posts (have_kind H eq_value) now r.haves in
      let others = keep (λ a. not (mem_str a (keys wants.by_agent))) (keys haves.by_agent) in
      (
        record {
          active_wants = length wants.posts;
          active_haves = length haves.posts;
          total_matches = length r.matches;
          unique_agents = length (keys wants.by_agent) + length others;
        },
        record r { wants = wants; haves = haves },
      )
