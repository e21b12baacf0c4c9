-- ===== src/AgentRegistry/Presence.antt =====
-- How long an agent stays in the registry of concordia/registry.py.
use concordia_protocol.Prelude.{
  ℕ, ◌+◌, ◌≤◌, String, ◌≡◌, ◌≢◌, refl, ◌∙◌, inl, inr, false, some, List, [], ◌∷◌, arith, All,
  Bool-cases, Option-cases, str_eq, eq_iff,
}
use concordia_protocol.Prelude.Dict.{get, get-put, get-remove}
use concordia_protocol.AgentRegistry.{
  RegisteredAgent, Agents, Registration, is_expired, register, update, new_agent, deregister,
  heartbeat, find_agent,
}
use concordia_protocol.AgentRegistry.Calls.{Call, enrol, leave, beat, find, browse, all, step, run}
use concordia_protocol.AgentRegistry.Lookup.{
  Drops, find_agent-Drops, list_all-Drops, find_agent_fresh,
}
use concordia_protocol.AgentRegistry.Search.{search-Drops}
use concordia_protocol.AgentRegistry.Bounds.{Sound, step-Sound}

-- The entry `a`, seen at `since` or later.
pub record Keeps (a b : RegisteredAgent) (since seen : ℕ) : Type 0 where
  pub capabilities : b.capabilities ≡ a.capabilities
  pub registered_at : b.registered_at ≡ a.registered_at
  pub ttl : b.ttl ≡ a.ttl
  pub last_seen : b.last_seen ≡ some seen
  pub since_then : since ≤ seen

abbrev Present : Agents → String → RegisteredAgent → ℕ → Type 0
Present agents id a since =
    (b : RegisteredAgent) × (seen : ℕ) × (get agents id ≡ some b) × Keeps a b since seen

-- A call that neither ends nor renews the registration, and that looks no later than `until`.
abbrev pub Spares : String → ℕ → ℕ → Call → Type 0
Spares id since until (enrol q now) = q.agent_id ≢ id
Spares id since until (leave other) = other ≢ id
Spares id since until (beat other now) = since ≤ now
Spares id since until (find other now) = now ≤ until
Spares id since until (browse q limit now) = now ≤ until
Spares id since until (all include_expired now) = now ≤ until

module _ (id : String) (a : RegisteredAgent) (since until : ℕ) (soon : until ≤ since + a.ttl) where
  not_gone :
      (b : RegisteredAgent) (seen now : ℕ)
      → Keeps a b since seen
      → now ≤ until
      → is_expired b now ≡ false
  unfolding is_expired
  not_gone b seen now k h = ground (arith, k, h, soon)

  Drops-Present :
      (agents rest : Agents) (now : ℕ)
      → Drops agents now rest
      → now ≤ until
      → Present agents id a since
      → Present rest id a since
  Drops-Present agents rest now d h (b, seen, e, k) = elim (d id) [
    | inl same ↦ (b, seen, same ∙ e, k)
    | inr ((c, f, x), _) ↦
        let same : b ≡ c = ground (arith, e, f) in
        absurd (ground (arith, same, x, not_gone b seen now k h))
  ]

  other-Present :
      (agents rest : Agents)
      → get rest id ≡ get agents id
      → Present agents id a since
      → Present rest id a since
  other-Present agents rest same (b, seen, e, k) = (b, seen, same ∙ e, k)

  register_other :
      (q : Registration) (now : ℕ) (agents : Agents)
      → q.agent_id ≢ id
      → get (register q now agents).1 id ≡ get agents id
  unfolding register
  register_other q now agents n = elim (Option-cases (get agents q.agent_id)) [
    | inr (b, e) ↦
        ground (arith, e, n, eq_iff q.agent_id id, get-put agents q.agent_id id (update q now b))
    | inl e ↦
        ground (arith, e, n, eq_iff q.agent_id id, get-put agents q.agent_id id (new_agent q now))
  ]

  heartbeat-Present :
      (other : String) (now : ℕ) (agents : Agents)
      → since ≤ now
      → Present agents id a since
      → Present (heartbeat other now agents).1 id a since
  unfolding heartbeat
  heartbeat-Present other now agents h (b, seen, e, k) = elim (Option-cases (get agents other)) [
    | inl f ↦ (b, seen, ground (arith, e, f), k)
    | inr (c, f) ↦ elim (Bool-cases (str_eq other id)) [
      | inr n ↦ (
        b,
        seen,
        ground (arith, e, f, n, get-put agents other id (record c { last_seen = some now })),
        k,
      )
      | inl s ↦
          let same : c ≡ b = ground (arith, e, f, s, eq_iff other id) in
          (
            record c { last_seen = some now },
            now,
            ground (arith, f, s, get-put agents other id (record c { last_seen = some now })),
            record {
              capabilities = ground (arith, same, k);
              registered_at = ground (arith, same, k);
              ttl = ground (arith, same, k);
              last_seen = refl;
              since_then = h;
            },
          )
    ]
  ]

  step-Present :
      (lower : String → String) (agents : Agents) (c : Call)
      → Sound agents
      → Spares id since until c
      → Present agents id a since
      → Present (step lower agents c) id a since
  unfolding step deregister
  step-Present lower agents (enrol q now) v s p =
      other-Present agents _ (register_other q now agents s) p
  step-Present lower agents (leave other) v s p =
      other-Present agents _ (ground (arith, s, eq_iff other id, get-remove agents other id)) p
  step-Present lower agents (beat other now) v s p = heartbeat-Present other now agents s p
  step-Present lower agents (find other now) v s p =
      Drops-Present agents _ now (find_agent-Drops other now agents) s p
  step-Present lower agents (browse q limit now) v s p =
      Drops-Present agents _ now (search-Drops lower q limit now agents v.unique) s p
  step-Present lower agents (all include_expired now) v s p =
      Drops-Present agents _ now (list_all-Drops include_expired now agents v.unique) s p

  run-Present :
      (lower : String → String) (agents : Agents) (cs : List Call)
      → Sound agents
      → All (Spares id since until) cs
      → Present agents id a since
      → Present (run lower agents cs) id a since
  unfolding run
  run-Present lower agents [] v s p = p
  run-Present lower agents (c ∷ cs) v s p =
      run-Present lower (step lower agents c) cs (step-Sound agents v lower c) s.1
        (step-Present lower agents c v s.0 p)

-- An agent seen at `since` is found by `get` at every time up to `until`, where `until` is within
-- its TTL of `since`, whatever calls come between, as long as none registers it anew or
-- deregisters it, none looks later than `until`, and no heartbeat comes from before `since`; it
-- has its capabilities and first registration time still.
pub run-find_agent :
    (lower : String → String) (agents : Agents) (id : String) (a : RegisteredAgent)
    (since until : ℕ) (cs : List Call)
    → Sound agents
    → get agents id ≡ some a
    → a.last_seen ≡ some since
    → until ≤ since + a.ttl
    → All (Spares id since until) cs
    → (b : RegisteredAgent) × ((find_agent id until (run lower agents cs)).0 ≡ some b)
      × (b.capabilities ≡ a.capabilities)
      × (b.registered_at ≡ a.registered_at)
run-find_agent lower agents id a since until cs v e seen soon s =
    let start : Keeps a a since since = record {
      capabilities = refl;
      registered_at = refl;
      ttl = refl;
      last_seen = seen;
      since_then = omega arith;
    } in
    let (b, at, f, k) =
      run-Present id a since until soon lower agents cs v s (a, since, e, start) in
    (
      b,
      find_agent_fresh (run lower agents cs) id at until {a = b} f k.last_seen
          (rw k.ttl (omega (arith, soon, k.since_then))),
      k.capabilities,
      k.registered_at,
    )
