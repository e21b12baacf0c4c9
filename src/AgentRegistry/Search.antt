-- ===== src/AgentRegistry/Search.antt =====
-- What `search` of concordia/registry.py returns, and what it drops from the registry.
use mathlib.Core.List.{append-nil, append_assoc}
use concordia_protocol.Prelude.{
  ℕ, ◌-◌, ◌<◌, String, ◌≡◌, sym, ap, ◌∙◌, inl, inr, Bool, true, not, ◌&&◌, some, List, [], ◌∷◌,
  ◌++◌, arith, leb, ◌==◌, if◌then◌else◌, length, length-append, keep, take, take_none, take_next,
  take_nil, Bool-cases, All, All-append,
}
use concordia_protocol.Prelude.Dict.{get, Unique}
use concordia_protocol.AgentRegistry.{
  RegisteredAgent, Agents, Query, is_expired, satisfies, search_loop, search, values,
}
use concordia_protocol.AgentRegistry.Lookup.{IsGone, Drops, remove_all-Drops, entries-get}

module _ (matches : RegisteredAgent → Bool) (limit now : ℕ) where
  abbrev found : RegisteredAgent → Bool
  found a = not (is_expired a now) && matches a

  -- The limit is tested after an agent is added, so 0 works as 1.
  abbrev cap : ℕ
  cap = if limit == 0 then 1 else limit

  take_last :
      (results : List RegisteredAgent) (a : RegisteredAgent) (k : List RegisteredAgent)
      → length results < cap
      → leb limit (length (results ++ a ∷ [])) ≡ true
      → take (cap - length results) (a ∷ k) ≡ a ∷ []
  take_last results a k h full =
      let one : cap - length results - 1 ≡ 0 =
        ground (arith, length-append results (a ∷ []), h, full) in
      take_next (cap - length results) a k (omega (arith, h))
      ∙ ap (λ as'. a ∷ as') (take_none (cap - length results - 1) k one)

  take_more :
      (results : List RegisteredAgent) (a : RegisteredAgent) (k : List RegisteredAgent)
      → length results < cap
      → (results ++ a ∷ []) ++ take (cap - length (results ++ a ∷ [])) k
        ≡ results ++ take (cap - length results) (a ∷ k)
  take_more results a k h =
      let fewer : cap - length (results ++ a ∷ []) ≡ cap - length results - 1 =
        omega (arith, length-append results (a ∷ [])) in
      let next = take_next (cap - length results) a k (omega (arith, h)) in
      let joined : (results ++ a ∷ []) ++ take (cap - length results - 1) k
          ≡ results ++ a ∷ take (cap - length results - 1) k =
        append_assoc results (a ∷ []) (take (cap - length results - 1) k) in
      rw (fewer, next) joined

  search_loop-take :
      (d : Agents) (results : List RegisteredAgent) (gone : List String)
      → length results < cap
      → (search_loop matches limit now d results gone).0
        ≡ results ++ take (cap - length results) (keep found (values d))
  unfolding search_loop values
  search_loop-take [] results gone h =
      sym (ap (λ k. results ++ k) (take_nil (cap - length results)) ∙ append-nil results)
  search_loop-take ((id, a) ∷ d) results gone h = elim (Bool-cases (is_expired a now)) [
    | inl x ↦ ground (arith, x, search_loop-take d results (gone ++ id ∷ []) h)
    | inr x ↦ elim (Bool-cases (matches a)) [
      | inr m ↦ ground (arith, x, m, search_loop-take d results gone h)
      | inl m ↦ elim (Bool-cases (leb limit (length (results ++ a ∷ [])))) [
        | inl full ↦ ground (arith, x, m, full, take_last results a (keep found (values d)) h full)
        | inr room ↦
            let longer : length (results ++ a ∷ []) < cap =
              ground (arith, length-append results (a ∷ []), h, room) in
            ground (
              arith,
              x,
              m,
              room,
              take_more results a (keep found (values d)) h,
              search_loop-take d (results ++ a ∷ []) gone longer,
            )
      ]
    ]
  ]

  search_loop-IsGone :
      (agents d : Agents) (results : List RegisteredAgent) (gone : List String)
      → All (λ (e : String × RegisteredAgent). get agents e.0 ≡ some e.1) d
      → All (IsGone agents now) gone
      → All (IsGone agents now) (search_loop matches limit now d results gone).1
  unfolding search_loop
  search_loop-IsGone agents [] results gone h g = g
  search_loop-IsGone agents ((id, a) ∷ d) results gone h g = elim (Bool-cases (is_expired a now)) [
    | inl x ↦
        rw (x, All)
          (search_loop-IsGone agents d results (gone ++ id ∷ []) h.1
            (All-append (IsGone agents now) gone id g (a, h.0, x)))
    | inr x ↦ elim (Bool-cases (matches a)) [
      | inr m ↦ rw (x, m, All) (search_loop-IsGone agents d results gone h.1 g)
      | inl m ↦ elim (Bool-cases (leb limit (length (results ++ a ∷ [])))) [
        | inl full ↦ rw (x, m, full, All) g
        | inr room ↦
            rw (x, m, room, All) (search_loop-IsGone agents d (results ++ a ∷ []) gone h.1 g)
      ]
    ]
  ]

-- A search returns the first `limit` of the unexpired agents that pass all filters, in the order
-- of their registration; a limit of 0 works as 1.
pub search-take :
    (lower : String → String) (q : Query) (limit now : ℕ) (agents : Agents)
    → (search lower q limit now agents).0
      ≡ take
          (if limit == 0 then 1 else limit)
          (keep (λ a. not (is_expired a now) && satisfies lower q a) (values agents))
unfolding search
search-take lower q limit now agents =
    search_loop-take (satisfies lower q) limit now agents [] [] (ground arith)
    ∙ ap (λ n. take n (keep (λ a. not (is_expired a now) && satisfies lower q a) (values agents)))
        (omega arith)

-- A search drops expired entries and no other.
pub search-Drops :
    (lower : String → String) (q : Query) (limit now : ℕ) (agents : Agents)
    → Unique agents
    → Drops agents now (search lower q limit now agents).1
unfolding search
search-Drops lower q limit now agents u =
    remove_all-Drops agents now (search_loop (satisfies lower q) limit now agents [] []).1 (
      search_loop-IsGone (satisfies lower q) limit now agents agents [] [] (entries-get agents u)
        tt)
