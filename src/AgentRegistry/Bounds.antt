-- ===== src/AgentRegistry/Bounds.antt =====
-- What any sequence of calls keeps of the registry of concordia/registry.py.
use concordia_protocol.Prelude.{
  ℕ, ◌≤◌, String, ◌≡◌, refl, ◌∙◌, inl, inr, true, false, some, List, [], ◌∷◌, arith, leb, length,
  All, Bool-cases, Option-cases,
}
use concordia_protocol.Prelude.Dict.{
  get, put, remove, Unique, put-Unique, remove-Unique, All-remove, entries-put, get-entry,
  length-put-le, length-put_old, length-remove-le,
}
use concordia_protocol.AgentRegistry.{
  RegisteredAgent, Agents, Registration, register, update, new_agent, deregister, heartbeat,
  find_agent, remove_all, search, list_all, gone_ids, max_agents,
}
use concordia_protocol.AgentRegistry.Calls.{Call, enrol, leave, beat, find, browse, all, step, run}

abbrev pub Named : String → RegisteredAgent → Type 0
Named id a = a.agent_id ≡ id

pub record Sound (agents : Agents) : Type 0 where
  pub unique : Unique agents
  pub named : All (λ (e : String × RegisteredAgent). Named e.0 e.1) agents
  pub bounded : length agents ≤ max_agents

remove-Sound : (agents : Agents) (id : String) → Sound agents → Sound (remove agents id)
remove-Sound agents id v = record {
  unique = remove-Unique agents id v.unique;
  named = All-remove Named agents id v.named;
  bounded = omega (arith, length-remove-le agents id, v.bounded);
}

remove_all-Sound :
    (ids : List String) (agents : Agents) → Sound agents → Sound (remove_all ids agents)
unfolding remove_all
remove_all-Sound [] agents v = v
remove_all-Sound (id ∷ ids) agents v =
    remove_all-Sound ids (remove agents id) (remove-Sound agents id v)

put-Sound :
    (agents : Agents) (id : String) (a : RegisteredAgent)
    → Named id a
    → length (put agents id a) ≤ max_agents
    → Sound agents
    → Sound (put agents id a)
put-Sound agents id a n l v = record {
  unique = put-Unique agents id a v.unique;
  named = entries-put Named agents id a v.named n;
  bounded = l;
}

replace-Sound :
    (agents : Agents) (id : String) (a b : RegisteredAgent)
    → get agents id ≡ some a
    → b.agent_id ≡ a.agent_id
    → Sound agents
    → Sound (put agents id b)
replace-Sound agents id a b e n v =
    put-Sound agents id b (n ∙ get-entry Named agents id a v.named e)
      (rw (length-put_old agents id b e) v.bounded) v

module _ (agents : Agents) (v : Sound agents) where
  register-Sound : (q : Registration) (now : ℕ) → Sound (register q now agents).1
  unfolding register
  register-Sound q now = elim (Option-cases (get agents q.agent_id)) [
    | inr (a, e) ↦
        let kept = replace-Sound agents q.agent_id a (update q now a) e (unfold update in refl) v in
        ground (arith, e, kept)
    | inl e ↦ elim (Bool-cases (leb max_agents (length agents))) [
      | inl full ↦ ground (arith, e, full, v)
      | inr room ↦
          let added =
            put-Sound agents q.agent_id (new_agent q now) (unfold new_agent in refl)
              (ground (arith, length-put-le agents q.agent_id (new_agent q now), room)) v in
          ground (arith, e, room, added)
    ]
  ]

  heartbeat-Sound : (id : String) (now : ℕ) → Sound (heartbeat id now agents).1
  unfolding heartbeat
  heartbeat-Sound id now = elim (Option-cases (get agents id)) [
    | inl e ↦ ground (arith, e, v)
    | inr (a, e) ↦
        let kept = replace-Sound agents id a (record a { last_seen = some now }) e refl v in
        ground (arith, e, kept)
  ]

  find_agent-Sound : (id : String) (now : ℕ) → Sound (find_agent id now agents).1
  unfolding find_agent
  find_agent-Sound id now = elim (Option-cases (get agents id)) [
    | inl e ↦ ground (arith, e, v)
    | inr (a, e) ↦ ground (arith, e, v, remove-Sound agents id v)
  ]

  pub step-Sound : (lower : String → String) (c : Call) → Sound (step lower agents c)
  unfolding step deregister search list_all
  step-Sound lower (enrol q now) = register-Sound q now
  step-Sound lower (leave id) = remove-Sound agents id v
  step-Sound lower (beat id now) = heartbeat-Sound id now
  step-Sound lower (find id now) = find_agent-Sound id now
  step-Sound lower (browse q limit now) = remove_all-Sound _ agents v
  step-Sound lower (all true now) = v
  step-Sound lower (all false now) = remove_all-Sound (gone_ids now agents) agents v

run_from-Sound :
    (lower : String → String) (agents : Agents) (cs : List Call)
    → Sound agents
    → Sound (run lower agents cs)
unfolding run
run_from-Sound lower agents [] v = v
run_from-Sound lower agents (c ∷ cs) v =
    run_from-Sound lower (step lower agents c) cs (step-Sound agents v lower c)

-- Whatever calls are made on a new registry, it has at most 100,000 entries, one for each
-- identifier, and each under the identifier of its agent.
pub run-Sound : (lower : String → String) (cs : List Call) → Sound (run lower [] cs)
run-Sound lower cs =
    run_from-Sound lower [] cs (record { unique = tt; named = tt; bounded = omega arith })
