-- ===== src/WantRegistry/Store.antt =====
-- The two stores of `WantRegistry` in concordia/want_registry.py. The code has each operation
-- twice, for wants and for haves; here it is one, over what it needs of a post. A set of
-- identifiers is a list without repetition.
use concordia_protocol.Prelude.{
  ℕ, String, Bool, true, false, not, Option, none, some, List, [], ◌∷◌, ◌++◌, str_eq, str_truthy,
  if◌then◌else◌, mem_str, count_if, keep,
}
use concordia_protocol.Prelude.Dict.{Dict, get, put, remove}
use concordia_protocol.WantRegistry.{is_past}

pub record Store (P : Type 0) : Type 0 where
  pub posts : Dict P
  pub by_agent : Dict (List String)

-- What the operations read of a want or a have.
pub record PostKind (P : Type 0) : Type 0 where
  pub owner : P → String
  pub deadline : P → ℕ

module _ {P : Type 0} (K : PostKind P) where
  unfoldable pub discard : String → List String → List String
  discard id ids = keep (λ x. not (str_eq x id)) ids

  unfoldable pub add_id : String → List String → List String
  add_id id ids = if mem_str id ids then ids else ids ++ id ∷ []

  -- `_remove_want`, `_remove_have`
  unfoldable pub remove_post : String → Store P → Store P
  remove_post id st = elim (get st.posts id) [
    | none ↦ st
    | some p ↦ record {
      posts = remove st.posts id;
      by_agent = elim (get st.by_agent (K.owner p)) [
        | none ↦ st.by_agent
        | some ids ↦ put st.by_agent (K.owner p) (discard id ids)
      ];
    }
  ]

  unfoldable pub remove_posts : List String → Store P → Store P
  remove_posts [] st = st
  remove_posts (id ∷ ids) st = remove_posts ids (remove_post id st)

  unfoldable pub past_ids : ℕ → Dict P → List String
  past_ids now [] = []
  past_ids now ((id, p) ∷ d) =
      let rest = past_ids now d in if is_past (K.deadline p) now then id ∷ rest else rest

  -- `_expire_wants`, `_expire_haves`
  unfoldable pub expire_posts : ℕ → Store P → Store P
  expire_posts now st = remove_posts (past_ids now st.posts) st

  unfoldable pub ids_of : String → Store P → List String
  ids_of agent_id st = elim (get st.by_agent agent_id) [ none ↦ [] | some ids ↦ ids ]

  unfoldable pub is_live : ℕ → Dict P → String → Bool
  is_live now posts id = elim (get posts id) [
    | none ↦ false
    | some p ↦ not (is_past (K.deadline p) now)
  ]

  -- `_active_want_count`, `_active_have_count`
  unfoldable pub active_posts : String → ℕ → Store P → ℕ
  active_posts agent_id now st = count_if (is_live now st.posts) (ids_of agent_id st)

  unfoldable pub add_post : String → P → Store P → Store P
  add_post id p st = record {
    posts = put st.posts id p;
    by_agent = put st.by_agent (K.owner p) (add_id id (ids_of (K.owner p) st));
  }

  unfoldable pub get_post : String → ℕ → Store P → Option P × Store P
  get_post id now st = elim (get st.posts id) [
    | none ↦ (none, st)
    | some p ↦ if is_past (K.deadline p) now then (none, remove_post id st) else (some p, st)
  ]

  unfoldable pub withdraw : String → Store P → Bool × Store P
  withdraw id st = elim (get st.posts id) [
    | none ↦ (false, st)
    | some _ ↦ (true, remove_post id st)
  ]

  unfoldable pub posts_at : Dict P → List String → List P
  posts_at posts [] = []
  posts_at posts (id ∷ ids) =
      let rest = posts_at posts ids in elim (get posts id) [ none ↦ rest | some p ↦ p ∷ rest ]

  unfoldable pub all_posts : Dict P → List P
  all_posts [] = []
  all_posts ((_, p) ∷ d) = p ∷ all_posts d

  -- `list_wants`, `list_haves`
  unfoldable pub list_posts : Option String → ℕ → Store P → List P × Store P
  list_posts agent_id now st =
      let live = expire_posts now st in
      (
        elim agent_id [
          | none ↦ all_posts live.posts
          | some a ↦
              if str_truthy a then posts_at live.posts (ids_of a live) else all_posts live.posts
        ],
        live,
      )
