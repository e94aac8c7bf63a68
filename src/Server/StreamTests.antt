-- ===== src/Server/StreamTests.antt =====
-- The statements on heartbeats, streams of logs and uploads, at small inputs.
use agents_management.Prelude.{false, some, [], ◌∷◌, ◌++◌, ◌≡◌, refl, Text, codes, pos, Uuid, int64}
use agents_management.Storage.Model.{Agent, AgentStatus, Task, TaskStatus, fetch_file}
use agents_management.Storage.Tasks.{get_task_by_id}
use agents_management.Storage.Agents.{get_agent_by_id}
use agents_management.Samples.{null_string, text, task_with}
use agents_management.Server.World.{World, ◌>>◌, stored}
use agents_management.Server.Tests.{env, world}
use agents_management.Server.Agents.{HeartbeatRequest, send_heartbeat, check_inactive_agents}
use agents_management.Server.Logs.{LogEntry, eof, Saved, logs_of, stream_logs, stream_logs-Saved}
use agents_management.Server.Uploads.{
  UploadRequest, upload_task_file, all_content, for_task, to_destination, made_directory, opened,
  write_chunks, closed, file_call, leave, destination_of, is_fetch,
}
use agents_management.Server.Uploads.Stored.{Accepts, Written, upload_task_file-Written}
use agents_management.Prelude.{ℕ}
use agents_management.Server.Agents.Inactive.{Beaten, Checked, check_inactive_agents-send_heartbeat}

abbrev pub agent : Agent
agent = record {
  id = 1;
  hostname = codes "h";
  os = null_string;
  arch = null_string;
  agent_version = null_string;
  ip_addresses = [];
  last_heartbeat = record { value = 0; valid = false };
  status = AgentStatus.offline;
  created_at = 0;
}

abbrev with_agent : World
with_agent = record world { agents = agent ∷ [] }

abbrev heartbeat : HeartbeatRequest
heartbeat = record {
  agent_id = codes "a";
  timestamp = pos 4;
  cpu_usage = 1;
  ram_usage = 0;
  disk_usage = [];
}

check_inactive_agents-send_heartbeat_example :
    (row : Agent) × (get_agent_by_id 1
        ((send_heartbeat env heartbeat 4 >> check_inactive_agents env 30000000000 7)
          with_agent).1.agents
      ≡ some row)
    × (◌≡◌ {A = ℕ} 1 1 → Beaten 4 7 30000000000 agent row)
    × (¬ ◌≡◌ {A = ℕ} 1 1 → Checked 7 30000000000 agent row)
check_inactive_agents-send_heartbeat_example =
    check_inactive_agents-send_heartbeat env heartbeat 1 1 4 7 30000000000 with_agent agent
      (λ k. refl) refl (unfold get_agent_by_id in refl)

abbrev entry : LogEntry
entry = record {
  agent_id = codes "aaaaa";
  task_id = codes "aaa";
  timestamp = pos 5;
  level = codes "INFO";
  message = codes "started";
}

stream_logs-Saved_example :
    Saved env
      (world.logs ++ logs_of env (entry ∷ entry ∷ []) world.drawn)
      eof
      (stream_logs env (entry ∷ entry ∷ []) eof world).1
stream_logs-Saved_example = stream_logs-Saved env (entry ∷ entry ∷ []) eof world (λ k. refl)

abbrev fetch : Task
fetch = record (task_with 3 TaskStatus.running null_string) {
  task_type = fetch_file;
  destination_path = text (codes "out");
}

abbrev pub fetching : World
fetching = record world { tasks = fetch ∷ [] }

abbrev chunk : Text → UploadRequest
chunk content = record { agent_id = codes "aaaaa"; task_id = codes "aaa"; content = content }

upload_task_file-Written_example :
    (agent_id : Uuid) × (task_id : Uuid) × (task : Task) × (path : Text) × (env.format.parse
        (codes "aaaaa")
      ≡ some agent_id)
    × (env.format.parse (codes "aaa") ≡ some task_id)
    × (get_task_by_id task_id fetching.tasks ≡ some task)
    × Accepts agent_id path task
    × Written env path
        (all_content (chunk (codes "ab") ∷ chunk (codes "c") ∷ []))
        eof
        (pos 3)
        (upload_task_file env (chunk (codes "ab") ∷ chunk (codes "c") ∷ []) eof fetching).1
upload_task_file-Written_example =
    upload_task_file-Written env (chunk (codes "ab")) (chunk (codes "c") ∷ []) eof fetching (pos 3)
      (unfold upload_task_file for_task stored get_task_by_id to_destination destination_of is_fetch
          made_directory opened write_chunks closed file_call leave int64 in
        refl)
