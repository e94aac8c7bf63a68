-- ===== src/Server/Agents/Inactive.antt =====
-- Heartbeats, server/internal/server.go, against the check of server/internal/agent_status_service.go.
use agents_management.Prelude.{
  ℕ, ◌+◌, ◌*◌, ◌/◌, ◌<◌, ◌≤◌, ltb, ◌≢◌, ==_iff, arith, Bool, true, ◌&&◌, false, ◌||◌, Option, none,
  some, List, if◌then◌else◌, Uuid, ◌≡◌, refl, ◌∙◌, ap, ◌==◌, Bool-cases, inl, inr,
}
use agents_management.Storage.Model.{Agent, AgentStatus, Time}
use agents_management.Storage.Agents.{
  update_agent_status, set_offline_status_for_inactive_agents, get_agent_by_id, agent_status_number,
  is_agent_in, is_inactive, with_heartbeat, checked_agent, map_agent,
  get_agent_by_id-update_agent_status, get_agent_by_id-set_offline,
}
use agents_management.Server.World.{Env, World, stored, ◌>>◌}
use agents_management.Server.Agents.{
  HeartbeatRequest, change_agents, store_metric, heartbeat_parsed, send_heartbeat,
  check_inactive_agents,
}

map_agent-map_agent :
    (f g : Agent → Agent) (a : Option Agent)
    → map_agent f (map_agent g a) ≡ map_agent (λ x. f (g x)) a
map_agent-map_agent f g none = refl
map_agent-map_agent f g (some a) = refl

-- The row of an agent that sent a heartbeat at `t`, after a check at `now`.
pub record Beaten (t now limit : ℕ) (a row : Agent) : Type 0 where
  pub recent : now ≤ t + limit → row.status ≡ AgentStatus.online
  pub late : t + limit < now → row.status ≡ AgentStatus.offline
  pub rest :
      row ≡ record a { status = row.status; last_heartbeat = record { value = t; valid = true } }

-- The row of another agent.
pub record Checked (now limit : ℕ) (a row : Agent) : Type 0 where
  pub late :
      a.status ≡ AgentStatus.online
      → a.last_heartbeat.valid ≡ true
      → a.last_heartbeat.value + limit < now
      → row ≡ record a { status = AgentStatus.offline }
  pub not_online : a.status ≢ AgentStatus.online → row ≡ a
  pub never_seen : a.last_heartbeat.valid ≡ false → row ≡ a
  pub recent : now ≤ a.last_heartbeat.value + limit → row ≡ a

not_same : (id j : Uuid) → id ≢ j → (id == j) ≡ false
not_same id j differs = ground (arith, differs, ==_iff id j)

late_lem : (n now : ℕ) → n < now → ltb n now ≡ true
late_lem n now h = ground (arith, h)

recent_lem : (n now : ℕ) → now ≤ n → ltb n now ≡ false
recent_lem n now h = ground (arith, h)

not_online_status :
    (status : AgentStatus)
    → status ≢ AgentStatus.online
    → (agent_status_number status == agent_status_number AgentStatus.online) ≡ false
not_online_status AgentStatus.online differs = absurd (differs refl)
not_online_status AgentStatus.offline differs = refl
not_online_status AgentStatus.disconnected differs = refl

not_online_lem :
    (a : Agent) → a.status ≢ AgentStatus.online → is_agent_in AgentStatus.online a ≡ false
not_online_lem a differs = not_online_status a.status differs

checked_agent-Beaten :
    (t now threshold : ℕ) (a : Agent)
    → Beaten t now
        (threshold / 1000000000 * 1000000000)
        a
        (checked_agent now threshold (with_heartbeat AgentStatus.online t a))
checked_agent-Beaten t now threshold a = record {
  recent = λ h. rw (recent_lem (t + threshold / 1000000000 * 1000000000) now h) refl;
  late = λ h. rw (late_lem (t + threshold / 1000000000 * 1000000000) now h) refl;
  rest = refl;
}

false_right : (b : Bool) → (b && false) ≡ false
false_right true = refl
false_right false = refl

both_false : (b c : Bool) → (b && (c && false)) ≡ false
both_false true c = false_right c
both_false false c = refl

checked_as :
    (now threshold : ℕ) (a : Agent) (c : Bool)
    → is_inactive now threshold a ≡ c
    → checked_agent now threshold a
      ≡ record a { status = if c then AgentStatus.offline else a.status }
checked_as now threshold a c h =
    ap (λ b. record a { status = if b then AgentStatus.offline else a.status }) h

checked_agent-Checked :
    (now threshold : ℕ) (a : Agent)
    → Checked now (threshold / 1000000000 * 1000000000) a (checked_agent now threshold a)
checked_agent-Checked now threshold a =
    let since = a.last_heartbeat.value + threshold / 1000000000 * 1000000000 in
    let active = checked_as now threshold a false in
    record {
      late = λ online valid h.
          checked_as now threshold a true (rw (online, valid, late_lem since now h) refl);
      not_online = λ differs. active (rw (not_online_lem a differs) refl);
      never_seen = λ h. active (rw h (false_right (is_agent_in AgentStatus.online a)));
      recent = λ h. active (
          rw (recent_lem since now h)
            (both_false (is_agent_in AgentStatus.online a) a.last_heartbeat.valid));
    }

module _ (env : Env) where
  change_agents-agents :
      (change : List Agent → List Agent) (w : World)
      → ((k : ℕ) → env.fails k ≡ false)
      → (change_agents env change w).1.agents ≡ change w.agents
  unfolding change_agents stored
  change_agents-agents change w ok = rw (ok w.calls) refl

  store_metric-agents :
      (q : HeartbeatRequest) (id : Uuid) (w : World) → (store_metric env q id w).1.agents ≡ w.agents
  unfolding store_metric stored
  store_metric-agents q id w = elim (Bool-cases (env.fails w.calls)) [
    | inl e ↦ rw e refl
    | inr e ↦ rw e refl
  ]

  heartbeat_parsed-agents :
      (q : HeartbeatRequest) (t : Time) (id : Uuid) (w : World)
      → ((k : ℕ) → env.fails k ≡ false)
      → (heartbeat_parsed env q t (some id) w).1.agents
        ≡ update_agent_status id AgentStatus.online t w.agents
  unfolding heartbeat_parsed
  heartbeat_parsed-agents q t id w ok =
      let update = update_agent_status id AgentStatus.online t in
      let updated = (change_agents env update w).1 in
      elim (Bool-cases (env.is_positive q.cpu_usage || env.is_positive q.ram_usage)) [
        | inl e ↦ rw e (store_metric-agents q id updated ∙ change_agents-agents update w ok)
        | inr e ↦ rw e (change_agents-agents update w ok)
      ]

  rows_after :
      (q : HeartbeatRequest) (id j : Uuid) (t now : Time) (threshold : ℕ) (w : World)
      → ((k : ℕ) → env.fails k ≡ false)
      → env.format.parse q.agent_id ≡ some id
      → get_agent_by_id j
          ((send_heartbeat env q t >> check_inactive_agents env threshold now) w).1.agents
        ≡ map_agent
            (λ a.
              checked_agent now threshold
                (if id == j then with_heartbeat AgentStatus.online t a else a))
            (get_agent_by_id j w.agents)
  unfolding send_heartbeat check_inactive_agents
  rows_after q id j t now threshold w ok parsed =
      let check = set_offline_status_for_inactive_agents now threshold in
      let beaten = (heartbeat_parsed env q t (some id) w).1 in
      rw parsed (
        ap (get_agent_by_id j) (change_agents-agents check beaten ok)
        ∙ get_agent_by_id-set_offline j now threshold beaten.agents
        ∙ ap (λ rows. map_agent (checked_agent now threshold) (get_agent_by_id j rows))
            (heartbeat_parsed-agents q t id w ok)
        ∙ ap (map_agent (checked_agent now threshold))
            (get_agent_by_id-update_agent_status id j AgentStatus.online t w.agents)
        ∙ map_agent-map_agent (checked_agent now threshold)
            (λ a. if id == j then with_heartbeat AgentStatus.online t a else a)
            (get_agent_by_id j w.agents))

  -- No statement fails. After a heartbeat of agent `id` at `t` and a check at `now`, with the threshold
  -- cut to whole seconds: the agent is online if the heartbeat is no older than the threshold, and
  -- offline if it is older; it has the time `t` and is otherwise as it was. Another agent is offline
  -- if it was online with a heartbeat older than the threshold, and it is as it was if it was not
  -- online, had no heartbeat, or had one no older than the threshold.
  pub check_inactive_agents-send_heartbeat :
      (q : HeartbeatRequest) (id j : Uuid) (t now : Time) (threshold : ℕ) (w : World) (a : Agent)
      → ((k : ℕ) → env.fails k ≡ false)
      → env.format.parse q.agent_id ≡ some id
      → get_agent_by_id j w.agents ≡ some a
      → let limit = threshold / 1000000000 * 1000000000 in
        (row : Agent) × (get_agent_by_id j
            ((send_heartbeat env q t >> check_inactive_agents env threshold now) w).1.agents
          ≡ some row)
        × (id ≡ j → Beaten t now limit a row)
        × (id ≢ j → Checked now limit a row)
  check_inactive_agents-send_heartbeat q id j t now threshold w a ok parsed found =
      let beaten = if id == j then with_heartbeat AgentStatus.online t a else a in
      (
        checked_agent now threshold beaten,
        rows_after q id j t now threshold w ok parsed
            ∙ ap
                (map_agent (λ b.
                  checked_agent now threshold
                    (if id == j then with_heartbeat AgentStatus.online t b else b)))
                found,
        λ same. rw ((==_iff id j).1 same) (checked_agent-Beaten t now threshold a),
        λ differs. rw (not_same id j differs) (checked_agent-Checked now threshold a),
      )
