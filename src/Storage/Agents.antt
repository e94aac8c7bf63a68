-- ===== src/Storage/Agents.antt =====
-- PostgresAgentRepository, PostgresMetricRepository and PostgresLogRepository of
-- server/internal/storage/postgres.go, as what their statements do to the rows. The columns
-- `updated_at` are left out: no statement reads them.
use agents_management.Prelude.{
  ℕ, Bool, true, ◌&&◌, Option, none, some, List, [], ◌∷◌, ltb, ◌==◌, ◌+◌, ◌*◌, ◌/◌, select,
  if◌then◌else◌, Uuid, Bool-cases, inl, inr, ◌≡◌, refl, arith,
}
use agents_management.Storage.Model.{Agent, AgentStatus, Time}

abbrev pub agent_status_number : AgentStatus → ℕ
agent_status_number AgentStatus.online = 0
agent_status_number AgentStatus.offline = 1
agent_status_number AgentStatus.disconnected = 2

abbrev pub is_agent_in : AgentStatus → Agent → Bool
is_agent_in status a = agent_status_number a.status == agent_status_number status

-- INSERT ... ON CONFLICT (id) DO UPDATE: the row that is there keeps its created_at.
unfoldable pub create_agent : Agent → List Agent → List Agent
create_agent agent [] = agent ∷ []
create_agent agent (a ∷ agents) =
    let rest = create_agent agent agents in
    if a.id == agent.id then record agent { created_at = a.created_at } ∷ agents else a ∷ rest

unfoldable pub get_agent_by_id : Uuid → List Agent → Option Agent
get_agent_by_id id [] = none
get_agent_by_id id (a ∷ agents) =
    let rest = get_agent_by_id id agents in if a.id == id then some a else rest

abbrev pub with_heartbeat : AgentStatus → Time → Agent → Agent
with_heartbeat status last_heartbeat a = record a {
  status = status;
  last_heartbeat = record { value = last_heartbeat; valid = true };
}

unfoldable pub update_agent_status : Uuid → AgentStatus → Time → List Agent → List Agent
update_agent_status id status last_heartbeat [] = []
update_agent_status id status last_heartbeat (a ∷ agents) =
    (if a.id == id then with_heartbeat status last_heartbeat a else a)
    ∷ update_agent_status id status last_heartbeat agents

insert_newest : Agent → List Agent → List Agent
insert_newest a [] = a ∷ []
insert_newest a (b ∷ agents) =
    let rest = insert_newest a agents in
    if ltb a.created_at b.created_at then b ∷ rest else a ∷ b ∷ agents

-- ORDER BY created_at DESC
unfoldable pub list_agents : List Agent → List Agent
unfolding insert_newest
list_agents [] = []
list_agents (a ∷ agents) = insert_newest a (list_agents agents)

unfoldable pub list_agents_by_status : AgentStatus → List Agent → List Agent
unfolding list_agents select
list_agents_by_status status agents = list_agents (select (is_agent_in status) agents)

unfoldable pub delete_agent : Uuid → List Agent → List Agent
delete_agent id [] = []
delete_agent id (a ∷ agents) =
    let rest = delete_agent id agents in if a.id == id then rest else a ∷ rest

-- WHERE status = 'online' AND last_heartbeat < NOW() - interval '1 second' * $1, where $1 is a whole
-- number of seconds and a time is in nanoseconds.
abbrev pub is_inactive : Time → ℕ → Agent → Bool
is_inactive now threshold a =
    is_agent_in AgentStatus.online a
    && (a.last_heartbeat.valid
        && ltb (a.last_heartbeat.value + threshold / 1000000000 * 1000000000) now)

abbrev pub checked_agent : Time → ℕ → Agent → Agent
checked_agent now threshold a = record a {
  status = if is_inactive now threshold a then AgentStatus.offline else a.status;
}

unfoldable pub set_offline_status_for_inactive_agents : Time → ℕ → List Agent → List Agent
set_offline_status_for_inactive_agents now threshold [] = []
set_offline_status_for_inactive_agents now threshold (a ∷ agents) =
    checked_agent now threshold a ∷ set_offline_status_for_inactive_agents now threshold agents

abbrev pub map_agent : (Agent → Agent) → Option Agent → Option Agent
map_agent f none = none
map_agent f (some a) = some (f a)

pub get_agent_by_id-update_agent_status :
    (id j : Uuid) (status : AgentStatus) (t : Time) (agents : List Agent)
    → get_agent_by_id j (update_agent_status id status t agents)
      ≡ map_agent (λ a. if id == j then with_heartbeat status t a else a) (get_agent_by_id j agents)
unfolding get_agent_by_id update_agent_status
get_agent_by_id-update_agent_status id j status t [] = refl
get_agent_by_id-update_agent_status id j status t (a ∷ agents) =
    ground (arith, get_agent_by_id-update_agent_status id j status t agents)

pub get_agent_by_id-set_offline :
    (j : Uuid) (now : Time) (threshold : ℕ) (agents : List Agent)
    → get_agent_by_id j (set_offline_status_for_inactive_agents now threshold agents)
      ≡ map_agent (checked_agent now threshold) (get_agent_by_id j agents)
unfolding get_agent_by_id set_offline_status_for_inactive_agents
get_agent_by_id-set_offline j now threshold [] = refl
get_agent_by_id-set_offline j now threshold (a ∷ agents) = elim (Bool-cases (a.id == j)) [
  | inl e ↦ rw e refl
  | inr e ↦ rw e (get_agent_by_id-set_offline j now threshold agents)
]

pub get_agent_by_id-create_agent :
    (j : Uuid) (agent : Agent) (agents : List Agent)
    → get_agent_by_id j (create_agent agent agents) ≡ (
        if agent.id == j
        then some (elim (get_agent_by_id j agents) [
          | none ↦ agent
          | some old ↦ record agent { created_at = old.created_at }
        ])
        else get_agent_by_id j agents)
unfolding get_agent_by_id create_agent
get_agent_by_id-create_agent j agent [] = ground arith
get_agent_by_id-create_agent j agent (a ∷ agents) =
    ground (arith, get_agent_by_id-create_agent j agent agents)
