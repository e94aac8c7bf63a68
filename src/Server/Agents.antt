-- ===== src/Server/Agents.antt =====
-- server/internal/server.go: RegisterAgent and SendHeartbeat, with the round of
-- server/internal/agent_status_service.go. All calls of time.Now() of one action return `now`.
pub mod Inactive
use agents_management.Prelude.{
  ℕ, Bool, true, false, ◌||◌, Option, none, some, List, [], ◌∷◌, ◌++◌, Text, codes, if◌then◌else◌,
  Uuid, ℤ, ◌≡◌, refl, ◌∙◌, ap, ◌==◌, Bool-cases, inl, inr,
}
use agents_management.Storage.Model.{Agent, AgentStatus, Time, to_null_string}
use agents_management.Storage.Agents.{
  create_agent, update_agent_status, set_offline_status_for_inactive_agents, get_agent_by_id,
  with_heartbeat, checked_agent, map_agent, get_agent_by_id-update_agent_status,
  get_agent_by_id-set_offline,
}
use agents_management.Server.World.{Env, World, M, pure, skip, stored, ◌>>=◌, ◌>>◌}

-- A response of the service: whether it was a success, and its message.
pub record Response : Type 0 where
  pub success : Bool
  pub message : Text

abbrev pub response : Bool → Text → Response
response success message = record { success = success; message = message }

pub record RegisterAgentRequest : Type 0 where
  pub agent_id : Text
  pub hostname : Text
  pub os : Text
  pub arch : Text
  pub agent_version : Text
  pub ip_addresses : List Text

pub record HeartbeatRequest : Type 0 where
  pub agent_id : Text
  pub timestamp : ℤ
  pub cpu_usage : ℕ
  pub ram_usage : ℕ
  pub disk_usage : List (Text × ℕ)

unfoldable pub registered_agent : RegisterAgentRequest → Uuid → Time → Agent
registered_agent q id now = record {
  id = id;
  hostname = q.hostname;
  os = to_null_string q.os;
  arch = to_null_string q.arch;
  agent_version = to_null_string q.agent_version;
  ip_addresses = q.ip_addresses;
  last_heartbeat = record { value = now; valid = true };
  status = AgentStatus.online;
  created_at = now;
}

module _ (env : Env) where
  change_agents : (List Agent → List Agent) → M (Option (Unit {0}))
  change_agents change = stored env (λ w. (some tt, record w { agents = change w.agents }))

  register_answer : Option (Unit {0}) → M Response
  register_answer none = pure (response false (codes "Failed to register agent"))
  register_answer (some _) = pure (response true (codes "Agent registered successfully"))

  register_parsed : RegisterAgentRequest → Time → Option Uuid → M Response
  unfolding change_agents register_answer
  register_parsed q now none = pure (response false (codes "Invalid agent ID format"))
  register_parsed q now (some id) =
      change_agents (create_agent (registered_agent q id now)) >>= register_answer

  unfoldable pub register_agent : RegisterAgentRequest → Time → M Response
  unfolding register_parsed
  register_agent q now = register_parsed q now (env.format.parse q.agent_id)

  -- A nil slice if there is nothing to marshal or if that fails.
  disk_usage_json : List (Text × ℕ) → Text
  disk_usage_json [] = []
  disk_usage_json (u ∷ usages) = elim (env.marshal_usage (u ∷ usages)) [
    | none ↦ []
    | some json ↦ json
  ]

  store_metric : HeartbeatRequest → Uuid → M (Unit {0})
  unfolding disk_usage_json
  store_metric q id =
      stored env (λ w. (
        some tt,
        record w {
          metrics =
              w.metrics
              ++ (record {
                agent_id = id;
                timestamp = q.timestamp;
                cpu_usage = q.cpu_usage;
                ram_usage = q.ram_usage;
                disk_usage = disk_usage_json q.disk_usage;
              }
                  ∷ []);
        },
      ))
      >> skip

  heartbeat_parsed : HeartbeatRequest → Time → Option Uuid → M Response
  unfolding change_agents store_metric
  heartbeat_parsed q now none = pure (response false (codes "Invalid agent ID format"))
  heartbeat_parsed q now (some id) =
      change_agents (update_agent_status id AgentStatus.online now)
      >> (if env.is_positive q.cpu_usage || env.is_positive q.ram_usage
          then store_metric q id
          else skip)
      >> pure (response true (codes "Heartbeat received"))

  unfoldable pub send_heartbeat : HeartbeatRequest → Time → M Response
  unfolding heartbeat_parsed
  send_heartbeat q now = heartbeat_parsed q now (env.format.parse q.agent_id)

  -- A tick of the service's ticker
  unfoldable pub check_inactive_agents : ℕ → Time → M (Unit {0})
  unfolding change_agents
  check_inactive_agents inactive_threshold now =
      change_agents (set_offline_status_for_inactive_agents now inactive_threshold) >> skip
