-- ===== src/AgentRegistry/Tests.antt =====
-- A registry of a buyer and a seller, run on the model, and the theorems at its states.

use concordia_protocol.Prelude.{
  ℕ, zero, suc, String, ◌≡◌, refl, false, not, ◌&&◌, none, some, List, [], ◌∷◌, arith, length, take,
  keep,
}
use concordia_protocol.Prelude.Dict.{get, put, remove}
use concordia_protocol.AgentRegistry.{
  RegisteredAgent, Agents, Registration, Query, supports_category, supports_role, is_expired,
  list_or, capabilities_of, update, new_agent, register, deregister, heartbeat, find_agent,
  remove_all, passes, satisfies, search_loop, search, values, gone_ids, list_all,
}
use concordia_protocol.AgentRegistry.Calls.{Call, enrol, beat, browse, all, step, run}
use concordia_protocol.AgentRegistry.Search.{search-take}
use concordia_protocol.AgentRegistry.Bounds.{run-Sound}
use concordia_protocol.AgentRegistry.Presence.{run-find_agent}

abbrev lower : String → String
lower s = s

abbrev registration : String → List String → ℕ → Registration
registration agent_id categories ttl = record {
  agent_id = agent_id;
  roles = none;
  categories = some categories;
  resolution_mechanisms = none;
  max_concurrent_sessions = none;
  endpoint = none;
  description = none;
  metadata = none;
  public_key = none;
  ttl = ttl;
}

abbrev seller : Registration
seller = registration "seller" ("electronics" ∷ []) 100

abbrev setup : List Call
setup = enrol seller 10 ∷ enrol (registration "buyer" [] 1000) 20 ∷ []

abbrev agents : Agents
agents = run lower [] setup

abbrev cameras : Query
cameras = record {
  category = some "electronics.cameras";
  role = some "seller";
  resolution_mechanism = none;
}

program : Unit {0}
unfolding get put remove supports_category supports_role is_expired list_or capabilities_of update
    new_agent register deregister heartbeat find_agent remove_all passes satisfies search_loop
    search values gone_ids list_all step run
program = tt

two_found : length (search lower cameras 50 60 agents).0 ≡ 2
unfolding program
two_found = refl

-- The seller has lapsed at 111, and the search drops it.
one_lapsed :
    (length (search lower cameras 50 111 agents).0 ≡ 1)
    × (length (search lower cameras 50 111 agents).1 ≡ 1)
unfolding program
one_lapsed = (refl, refl)

abbrev stored : RegisteredAgent
stored = new_agent seller 10

run-find_agent_example :
    (b : RegisteredAgent) × ((find_agent "seller" 105
        (run lower agents (beat "buyer" 50 ∷ browse cameras 1 90 ∷ all false 100 ∷ []))).0
      ≡ some b)
    × (b.capabilities ≡ stored.capabilities)
    × (b.registered_at ≡ 10)
unfolding program
run-find_agent_example =
    run-find_agent lower agents "seller" stored 10 105
      (beat "buyer" 50 ∷ browse cameras 1 90 ∷ all false 100 ∷ []) (run-Sound lower setup) refl refl
      (omega arith) (omega arith, (omega arith, (omega arith, tt)))

abbrev packed : ℕ → Agents
packed zero = []
packed (suc n) = ("other", stored) ∷ packed n

length-packed : (n : ℕ) → length (packed n) ≡ n
length-packed zero = refl
length-packed (suc n) = omega (arith, length-packed n)

get-packed : (n : ℕ) → get (packed n) "seller" ≡ none
unfolding get
get-packed zero = refl
get-packed (suc n) = get-packed n

search-take_example :
    (search lower cameras 1 60 agents).0
    ≡ take 1 (keep (λ a. not (is_expired a 60) && satisfies lower cameras a) (values agents))
search-take_example = search-take lower cameras 1 60 agents
