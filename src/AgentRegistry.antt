-- ===== src/AgentRegistry.antt =====
-- concordia/registry.py: the registry of agents. Times are seconds on one clock, given to each
-- operation. `last_seen` is the time that its text parses to, and `none` where it does not parse.
-- `lower` is Python's `str.lower`; a metadata value is its JSON text.
pub mod Cards
pub mod Calls
pub mod Lookup
pub mod Search
pub mod Bounds
pub mod Presence
mod Tests
use Prim.Native.String.{◌++◌ as str_append}
use text.Mathlib.Text.{starts_with}
use concordia_protocol.Prelude.{
  ℕ, ◌+◌, ◌*◌, String, Bool, true, false, not, ◌&&◌, ◌||◌, Option, none, some, List, [], ◌∷◌, ◌++◌,
  ltb, leb, if◌then◌else◌, length, any, mem_str, map, keep, is_some, str_truthy, truthy, or_else,
  Result, ok, err,
}
use concordia_protocol.Prelude.Dict.{Dict, get, put, remove}

pub record Capabilities : Type 0 where
  pub roles : List String
  pub categories : List String
  pub resolution_mechanisms : List String
  pub max_concurrent_sessions : Option ℕ

pub record RegisteredAgent : Type 0 where
  pub agent_id : String
  pub capabilities : Capabilities
  pub public_key : Option String
  pub endpoint : Option String
  pub description : Option String
  pub metadata : Dict String
  pub registered_at : ℕ
  pub last_seen : Option ℕ
  pub ttl : ℕ

abbrev pub Agents : Type 0
Agents = Dict RegisteredAgent

-- `ValueError("Agent registry limit reached")`
pub data RegistryError : Type 0 where
  registry_full : RegistryError

abbrev pub max_agents : ℕ
max_agents = 100000

unfoldable pub supports_category : Capabilities → String → Bool
supports_category c category = elim c.categories [
  | [] ↦ true
  | cat ∷ cats ↦ any (λ x. starts_with x category || starts_with category x) (cat ∷ cats)
]

unfoldable pub supports_role : (String → String) → Capabilities → String → Bool
supports_role lower c role = mem_str (lower role) (map lower c.roles)

-- An entry whose `last_seen` does not parse is expired.
unfoldable pub is_expired : RegisteredAgent → ℕ → Bool
is_expired a now = elim a.last_seen [ none ↦ true | some seen ↦ ltb (seen + a.ttl) now ]

-- `roles or […]` for a list that may be `None`.
unfoldable pub list_or : Option (List String) → List String → List String
list_or none default = default
list_or (some []) default = default
list_or (some (x ∷ xs)) default = x ∷ xs

-- The arguments of `register`.
pub record Registration : Type 0 where
  pub agent_id : String
  pub roles : Option (List String)
  pub categories : Option (List String)
  pub resolution_mechanisms : Option (List String)
  pub max_concurrent_sessions : Option ℕ
  pub endpoint : Option String
  pub description : Option String
  pub metadata : Option (Dict String)
  pub public_key : Option String
  pub ttl : ℕ

unfoldable pub capabilities_of : Registration → Capabilities
capabilities_of q = record {
  roles = list_or q.roles ("buyer" ∷ "seller" ∷ []);
  categories = list_or q.categories [];
  resolution_mechanisms = list_or q.resolution_mechanisms ("split" ∷ "foa" ∷ "tradeoff" ∷ []);
  max_concurrent_sessions = q.max_concurrent_sessions;
}

unfoldable pub update : Registration → ℕ → RegisteredAgent → RegisteredAgent
update q now a = record a {
  capabilities = capabilities_of q;
  last_seen = some now;
  endpoint = or_else q.endpoint a.endpoint;
  description = or_else q.description a.description;
  metadata = elim q.metadata [ none ↦ a.metadata | some d ↦ d ];
  public_key = or_else q.public_key a.public_key;
  ttl = q.ttl;
}

unfoldable pub new_agent : Registration → ℕ → RegisteredAgent
new_agent q now = record {
  agent_id = q.agent_id;
  capabilities = capabilities_of q;
  public_key = q.public_key;
  endpoint = q.endpoint;
  description = q.description;
  metadata = elim q.metadata [ none ↦ [] | some d ↦ d ];
  registered_at = now;
  last_seen = some now;
  ttl = q.ttl;
}

unfoldable pub register : Registration → ℕ → Agents → Result RegistryError RegisteredAgent × Agents
register q now agents = elim (get agents q.agent_id) [
  | some a ↦ (ok (update q now a), put agents q.agent_id (update q now a))
  | none ↦
      if leb max_agents (length agents)
      then (err registry_full, agents)
      else (ok (new_agent q now), put agents q.agent_id (new_agent q now))
]

unfoldable pub deregister : String → Agents → Bool × Agents
deregister agent_id agents = (is_some (get agents agent_id), remove agents agent_id)

unfoldable pub heartbeat : String → ℕ → Agents → Bool × Agents
heartbeat agent_id now agents = elim (get agents agent_id) [
  | none ↦ (false, agents)
  | some a ↦ (true, put agents agent_id (record a { last_seen = some now }))
]

-- `get`
unfoldable pub find_agent : String → ℕ → Agents → Option RegisteredAgent × Agents
find_agent agent_id now agents = elim (get agents agent_id) [
  | none ↦ (none, agents)
  | some a ↦ if is_expired a now then (none, remove agents agent_id) else (some a, agents)
]

unfoldable pub remove_all : List String → Agents → Agents
remove_all [] agents = agents
remove_all (id ∷ ids) agents = remove_all ids (remove agents id)

pub record Query : Type 0 where
  pub category : Option String
  pub role : Option String
  pub resolution_mechanism : Option String

-- An absent or empty filter passes.
unfoldable pub passes : Option String → (String → Bool) → Bool
passes none test = true
passes (some x) test = not (str_truthy x) || test x

unfoldable pub satisfies : (String → String) → Query → RegisteredAgent → Bool
satisfies lower q a =
    passes q.category (supports_category a.capabilities)
    && passes q.role (supports_role lower a.capabilities)
    && passes q.resolution_mechanism (λ x. mem_str x a.capabilities.resolution_mechanisms)

-- The loop of `search`: the limit is tested after an agent is added.
unfoldable pub search_loop :
    (RegisteredAgent → Bool)
    → ℕ
    → ℕ
    → Agents
    → List RegisteredAgent
    → List String
    → List RegisteredAgent × List String
search_loop matches limit now [] results gone = (results, gone)
search_loop matches limit now ((id, a) ∷ d) results gone = elim (is_expired a now) [
  | true ↦ search_loop matches limit now d results (gone ++ id ∷ [])
  | false ↦ elim (matches a) [
    | false ↦ search_loop matches limit now d results gone
    | true ↦ elim (leb limit (length (results ++ a ∷ []))) [
      | true ↦ (results ++ a ∷ [], gone)
      | false ↦ search_loop matches limit now d (results ++ a ∷ []) gone
    ]
  ]
]

unfoldable pub search : (String → String) → Query → ℕ → ℕ → Agents → List RegisteredAgent × Agents
search lower q limit now agents =
    let (results, gone) = search_loop (satisfies lower q) limit now agents [] [] in
    (results, remove_all gone agents)

unfoldable pub values : Agents → List RegisteredAgent
values [] = []
values ((_, a) ∷ d) = a ∷ values d

-- The loop of `list_all`.
unfoldable pub gone_ids : ℕ → Agents → List String
gone_ids now [] = []
gone_ids now ((id, a) ∷ d) =
    let rest = gone_ids now d in if is_expired a now then id ∷ rest else rest

unfoldable pub list_all : Bool → ℕ → Agents → List RegisteredAgent × Agents
list_all true now agents = (values agents, agents)
list_all false now agents =
    (keep (λ a. not (is_expired a now)) (values agents), remove_all (gone_ids now agents) agents)

unfoldable pub count : ℕ → Agents → ℕ × Agents
count now agents = let (live, rest) = list_all false now agents in (length live, rest)

unfoldable pub is_concordia_preferred : String → ℕ → Agents → Bool × Agents
is_concordia_preferred agent_id now agents =
    let (a, rest) = find_agent agent_id now agents in (is_some a, rest)
