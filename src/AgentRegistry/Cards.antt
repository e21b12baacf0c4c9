-- ===== src/AgentRegistry/Cards.antt =====
-- The card and the badge of an agent: concordia/registry.py. Their constant entries are left out.
use Prim.Native.String.{◌++◌ as str_append}
use concordia_protocol.Prelude.{ℕ, String, Option, none, some, List, or_else}
use concordia_protocol.Prelude.Dict.{get}
use concordia_protocol.AgentRegistry.{Capabilities, RegisteredAgent, Agents, find_agent}

pub record AgentCard : Type 0 where
  pub name : String
  pub description : String
  pub params : Capabilities

unfoldable pub to_agent_card : RegisteredAgent → AgentCard
to_agent_card a = record {
  name = a.agent_id;
  description = elim (or_else a.description none) [
    | some text ↦ text
    | none ↦ str_append "Concordia agent: " a.agent_id
  ];
  params = a.capabilities;
}

pub record Badge : Type 0 where
  pub agent_id : String
  pub registered_at : ℕ
  pub roles : List String
  pub categories : List String
  pub resolution_mechanisms : List String
  pub sanctuary_bridge : String
  pub public_key : Option String

unfoldable pub concordia_preferred_badge : RegisteredAgent → Badge
concordia_preferred_badge a = record {
  agent_id = a.agent_id;
  registered_at = a.registered_at;
  roles = a.capabilities.roles;
  categories = a.capabilities.categories;
  resolution_mechanisms = a.capabilities.resolution_mechanisms;
  sanctuary_bridge = elim (get a.metadata "sanctuary_enabled") [ none ↦ "false" | some v ↦ v ];
  public_key = or_else a.public_key none;
}

-- `get_agent_card`, `get_badge` and `get_public_key` read what `get` finds.
unfoldable pub read_agent {ℓ} :
    {A : Type ℓ} → (RegisteredAgent → A) → String → ℕ → Agents → Option A × Agents
read_agent f agent_id now agents =
    let (found, rest) = find_agent agent_id now agents in
    (elim found [ none ↦ none | some a ↦ some (f a) ], rest)

unfoldable pub get_agent_card : String → ℕ → Agents → Option AgentCard × Agents
get_agent_card = read_agent to_agent_card

unfoldable pub get_badge : String → ℕ → Agents → Option Badge × Agents
get_badge = read_agent concordia_preferred_badge

unfoldable pub get_public_key : String → ℕ → Agents → Option String × Agents
get_public_key agent_id now agents =
    let (found, rest) = find_agent agent_id now agents in
    (elim found [ none ↦ none | some a ↦ a.public_key ], rest)
