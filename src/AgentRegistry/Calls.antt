-- ===== src/AgentRegistry/Calls.antt =====
-- The calls of the methods of `AgentRegistry`, and what a sequence of them makes of a registry.
use concordia_protocol.Prelude.{ℕ, String, Bool, List, [], ◌∷◌}
use concordia_protocol.AgentRegistry.{
  Agents, Registration, Query, register, deregister, heartbeat, find_agent, search, list_all,
}

-- `find` stands for every method that reads one agent, and `all` for `list_all` and `count`.
pub data Call : Type 0 where
  enrol : Registration → ℕ → Call
  leave : String → Call
  beat : String → ℕ → Call
  find : String → ℕ → Call
  browse : Query → ℕ → ℕ → Call
  all : Bool → ℕ → Call

module _ (lower : String → String) where
  unfoldable pub step : Agents → Call → Agents
  step agents (enrol q now) = (register q now agents).1
  step agents (leave id) = (deregister id agents).1
  step agents (beat id now) = (heartbeat id now agents).1
  step agents (find id now) = (find_agent id now agents).1
  step agents (browse q limit now) = (search lower q limit now agents).1
  step agents (all include_expired now) = (list_all include_expired now agents).1

  unfoldable pub run : Agents → List Call → Agents
  run agents [] = agents
  run agents (c ∷ cs) = run (step agents c) cs
