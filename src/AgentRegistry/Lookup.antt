-- ===== src/AgentRegistry/Lookup.antt =====
-- The lookups of concordia/registry.py: what they find, and that they drop expired entries alone.
use concordia_protocol.Prelude.{
  ℕ, ◌+◌, ◌≤◌, String, ◌≡◌, refl, ◌⊎◌, inl, inr, ◌↔◌, Bool, true, false, Option, none, some, List,
  [], ◌∷◌, arith, if◌then◌else◌, length, All, mem_str, Bool-cases, Option-cases, str_eq, eq_iff, ok,
  err, leb, or_else,
}
use mathlib.Core.Path.{subst}
use concordia_protocol.Prelude.Dict.{get, remove, get-put_self, get-remove, Unique}
use text.Mathlib.TextPositions.{eq_refl}
use concordia_protocol.AgentRegistry.{
  RegisteredAgent, Agents, Registration, is_expired, find_agent, remove_all, gone_ids, list_all,
  register, capabilities_of, update, new_agent, max_agents, registry_full,
}

-- The entry of an identifier is there and expired.
abbrev pub IsGone : Agents → ℕ → String → Type 0
IsGone agents now id = (a : RegisteredAgent) × (get agents id ≡ some a) × (is_expired a now ≡ true)

-- Every entry stays as it was, or was expired and is dropped.
abbrev pub Drops : Agents → ℕ → Agents → Type 0
Drops agents now rest =
    (id : String) → (get rest id ≡ get agents id) ⊎ (IsGone agents now id × (get rest id ≡ none))

pub Drops-none : (agents : Agents) (now : ℕ) → Drops agents now agents
Drops-none agents now id = inl refl

pub find_agent-Drops :
    (id : String) (now : ℕ) (agents : Agents) → Drops agents now (find_agent id now agents).1
unfolding find_agent
find_agent-Drops id now agents j = elim (Option-cases (get agents id)) [
  | inl e ↦ inl (ground (arith, e))
  | inr (a, e) ↦ elim (Bool-cases (is_expired a now)) [
    | inr x ↦ inl (ground (arith, e, x))
    | inl x ↦ elim (Bool-cases (str_eq id j)) [
      | inr other ↦ inl (ground (arith, e, x, other, get-remove agents id j))
      | inl same ↦ inr (
        (a, ground (arith, e, eq_iff id j, same), x),
        ground (arith, e, x, same, get-remove agents id j),
      )
    ]
  ]
]

get-remove_all :
    (ids : List String) (agents : Agents) (j : String)
    → get (remove_all ids agents) j ≡ (if mem_str j ids then none else get agents j)
unfolding remove_all
get-remove_all [] agents j = refl
get-remove_all (id ∷ ids) agents j =
    ground (arith, get-remove_all ids (remove agents id) j, get-remove agents id j)

mem-IsGone :
    (agents : Agents) (now : ℕ) (ids : List String) (j : String)
    → All (IsGone agents now) ids
    → mem_str j ids ≡ true
    → IsGone agents now j
mem-IsGone agents now [] j g h = absurd (ground (arith, h))
mem-IsGone agents now (id ∷ ids) j g h = elim (Bool-cases (str_eq id j)) [
  | inl same ↦ let (a, e, x) = g.0 in (a, ground (arith, e, eq_iff id j, same), x)
  | inr other ↦ mem-IsGone agents now ids j g.1 (ground (arith, h, other))
]

pub remove_all-Drops :
    (agents : Agents) (now : ℕ) (ids : List String)
    → All (IsGone agents now) ids
    → Drops agents now (remove_all ids agents)
remove_all-Drops agents now ids g j = elim (Bool-cases (mem_str j ids)) [
  | inl gone ↦
      inr (mem-IsGone agents now ids j g gone, ground (arith, gone, get-remove_all ids agents j))
  | inr kept ↦ inl (ground (arith, kept, get-remove_all ids agents j))
]

-- In a dictionary each entry is what its key is looked up to.
pub entries-get :
    (agents : Agents)
    → Unique agents
    → All (λ (e : String × RegisteredAgent). get agents e.0 ≡ some e.1) agents
unfolding get
entries-get [] u = tt
entries-get ((id, a) ∷ d) u = (ground (arith, eq_refl id), later d u.0 (entries-get d u.1))
  where
    later :
        (d' : Agents)
        → get d id ≡ none
        → All (λ (e : String × RegisteredAgent). get d e.0 ≡ some e.1) d'
        → All (λ (e : String × RegisteredAgent). get ((id, a) ∷ d) e.0 ≡ some e.1) d'
    later [] n h = tt
    later ((j, b) ∷ d') n h = (ground (arith, eq_iff id j, n, h.0), later d' n h.1)

gone_ids-IsGone :
    (agents d : Agents) (now : ℕ)
    → All (λ (e : String × RegisteredAgent). get agents e.0 ≡ some e.1) d
    → All (IsGone agents now) (gone_ids now d)
unfolding gone_ids
gone_ids-IsGone agents [] now h = tt
gone_ids-IsGone agents ((id, a) ∷ d) now h = elim (Bool-cases (is_expired a now)) [
  | inl x ↦ rw x ((a, h.0, x), gone_ids-IsGone agents d now h.1)
  | inr x ↦ rw x (gone_ids-IsGone agents d now h.1)
]

-- `list_all` drops expired entries and no other, whatever its flag.
pub list_all-Drops :
    (include_expired : Bool) (now : ℕ) (agents : Agents)
    → Unique agents
    → Drops agents now (list_all include_expired now agents).1
unfolding list_all
list_all-Drops true now agents u = Drops-none agents now
list_all-Drops false now agents u =
    remove_all-Drops agents now (gone_ids now agents)
      (gone_ids-IsGone agents agents now (entries-get agents u))

-- `get` finds an agent exactly when its entry is there and not expired, and after it an expired
-- entry is gone.
pub find_agent_iff :
    (id : String) (now : ℕ) (agents : Agents) (a : RegisteredAgent)
    → (((find_agent id now agents).0 ≡ some a)
        ↔ ((get agents id ≡ some a) × (is_expired a now ≡ false)))
      × (get (find_agent id now agents).1 id ≡ (find_agent id now agents).0)
unfolding find_agent
find_agent_iff id now agents a = elim (Option-cases (get agents id)) [
  | inl e ↦
      ((λ h. absurd (ground (arith, e, h)), λ h. absurd (ground (arith, e, h))), ground (arith, e))
  | inr (b, e) ↦ elim (Bool-cases (is_expired b now)) [
    | inl x ↦ (
      (λ h. absurd (ground (arith, e, x, h)), λ (p, q). absurd (ground (arith, e, x, p, q))),
      ground (arith, e, x, get-remove agents id id, eq_refl id),
    )
    | inr x ↦ (
      (
        λ h. (ground (arith, e, x, h), ground (arith, e, x, h)),
        λ (p, q). ground (arith, e, x, p, q),
      ),
      ground (arith, e, x),
    )
  ]
]

-- What a registration keeps of an entry that is there.
pub record Registers (q : Registration) (now : ℕ) (old : Option RegisteredAgent)
    (a : RegisteredAgent) : Type 0 where
  pub capabilities : a.capabilities ≡ capabilities_of q
  pub last_seen : a.last_seen ≡ some now
  pub ttl : a.ttl ≡ q.ttl
  pub registered_at : a.registered_at ≡ elim old [ none ↦ now | some b ↦ b.registered_at ]
  pub public_key :
      a.public_key ≡ elim old [ none ↦ q.public_key | some b ↦ or_else q.public_key b.public_key ]

pub find_agent_fresh :
    (agents : Agents) (id : String) (now later : ℕ) {a : RegisteredAgent}
    → get agents id ≡ some a
    → a.last_seen ≡ some now
    → later ≤ now + a.ttl
    → (find_agent id later agents).0 ≡ some a
unfolding find_agent is_expired
find_agent_fresh agents id now later {a} e seen soon = ground (arith, e, seen, soon)

update-Registers :
    (q : Registration) (now : ℕ) (b : RegisteredAgent) → Registers q now (some b) (update q now b)
unfolding update
update-Registers q now b = ground arith

new_agent-Registers : (q : Registration) (now : ℕ) → Registers q now none (new_agent q now)
unfolding new_agent
new_agent-Registers q now = ground arith

get-register :
    (q : Registration) (now : ℕ) (agents : Agents) {a : RegisteredAgent}
    → (register q now agents).0 ≡ ok a
    → (get (register q now agents).1 q.agent_id ≡ some a)
      × Registers q now (get agents q.agent_id) a
unfolding register
get-register q now agents {a} h = elim (Option-cases (get agents q.agent_id)) [
  | inr (b, e) ↦
      let made : update q now b ≡ a = ground (arith, e, h) in
      let stored = get-put_self agents q.agent_id (update q now b) in
      (
        ground (arith, e, made, stored),
        rw e (subst (Registers q now (some b)) made (update-Registers q now b)),
      )
  | inl e ↦ elim (Bool-cases (leb max_agents (length agents))) [
    | inl full ↦ absurd (ground (arith, e, full, h))
    | inr room ↦
        let made : new_agent q now ≡ a = ground (arith, e, h, room) in
        let stored = get-put_self agents q.agent_id (new_agent q now) in
        (
          ground (arith, e, room, made, stored),
          rw e (subst (Registers q now none) made (new_agent-Registers q now)),
        )
  ]
]

-- After a registration that is not refused, `get` finds the agent for its whole TTL, with the
-- capabilities asked for; one that was there keeps its first registration time, and its key
-- unless a new one is given.
pub find_agent-register :
    (q : Registration) (now later : ℕ) (agents : Agents) {a : RegisteredAgent}
    → (register q now agents).0 ≡ ok a
    → later ≤ now + q.ttl
    → ((find_agent q.agent_id later (register q now agents).1).0 ≡ some a)
      × Registers q now (get agents q.agent_id) a
find_agent-register q now later agents {a} h soon =
    let (stored, v) = get-register q now agents {a = a} h in
    (
      find_agent_fresh (register q now agents).1 q.agent_id now later {a = a} stored v.last_seen
          (rw v.ttl soon),
      v,
    )

-- A registration is refused exactly when the agent is new and the registry full, expired entries
-- counted.
pub register_iff :
    (q : Registration) (now : ℕ) (agents : Agents)
    → ((register q now agents).0 ≡ err registry_full)
      ↔ ((get agents q.agent_id ≡ none) × (max_agents ≤ length agents))
unfolding register
register_iff q now agents = elim (Option-cases (get agents q.agent_id)) [
  | inr (b, e) ↦ (λ h. absurd (ground (arith, e, h)), λ (n, _). absurd (ground (arith, e, n)))
  | inl e ↦ (λ h. (e, ground (arith, e, h)), λ (n, full). ground (arith, n, full))
]
