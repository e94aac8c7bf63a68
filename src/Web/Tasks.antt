-- ===== src/Web/Tasks.antt =====
-- createTask of server/internal/web/handlers.go.
pub mod Frame
pub mod Created
pub mod Loop
pub mod Page
use agents_management.Prelude.{
  ℕ, suc, Bool, true, false, not, ◌&&◌, ◌||◌, Option, none, some, List, [], ◌∷◌, ◌++◌, Text, codes,
  text_eq, trim, is_nil, has_prefix, drop_prefix, has_substring, split, to_lower, if◌then◌else◌,
  Uuid, UuidFormat, Result, ok, err, ℤ, to_int32,
}
use agents_management.Storage.Model.{
  Task, TaskStatus, TaskType, NullString, Null, Time, task_type_of, to_null_string, exec_command,
  exec_python_script, fetch_file, push_file, agent_update, other,
}
use agents_management.Storage.Tasks.{create_task}
use agents_management.Auth.{Principal, can_run_task_type}
use agents_management.Server.World.{Env, World, M, stored, draw}
use agents_management.Web.Values.{Values, put}
use agents_management.Web.ExecPolicies.{
  ExecPolicies, Library, ResolvedTask, ExecPolicyError, resolve_exec_policy_task,
  collect_user_values,
}
use agents_management.Web.Permissions.{can_create_task_type_for_agent, created_by_principal}
use agents_management.Web.Request.{
  Request, Reply, bad_request, forbidden, server_error, page, see_other, form_value, form_values,
}
use agents_management.Web.Site.{Site}
use agents_management.Web.TaskForm.{
  Schedule, schedule_of, exec_policy_of, destinations, schedule_type_of, no_time,
}
use agents_management.Web.Uploads.{save_uploads}
use agents_management.Web.Handler.{
  Handler, ◌>>=◌, ◌>>◌, give, stop, stop_if, or_stop, call, effect, answered,
}

-- What CreateTask leaves, and whether it failed.
abbrev pub tasks_written : Option (List Task) → World → Option (Unit {0}) × World
tasks_written none w = (none, w)
tasks_written (some tasks) w = (some tt, record w { tasks = tasks })

module _ (site : Site) where
  abbrev fmt : UuidFormat
  fmt = site.env.format

  unfoldable pub new_task : Request → TaskType → Schedule → Uuid → Uuid → Time → Task
  new_task r task_type schedule id agent_id now = record {
    id = id;
    agent_id = agent_id;
    description = to_null_string (form_value r (codes "description"));
    task_type = task_type;
    exec_policy_id = none;
    exec_policy_binding_id = none;
    command = to_null_string [];
    args = [];
    entrypoint_script = to_null_string [];
    package_files = [];
    source_path = to_null_string [];
    destination_path = to_null_string [];
    result_contract = to_null_string (form_value r (codes "result_contract"));
    notification_rule_set = to_null_string (form_value r (codes "notification_rule_set"));
    default_destinations =
        destinations (split 44 (trim (form_value r (codes "default_destinations"))));
    timeout_seconds = record {
      value = to_int32 (site.atoi (form_value r (codes "timeout_seconds")));
      valid = true;
    };
    status = TaskStatus.pending;
    schedule_type = schedule_type_of (form_value r (codes "schedule_type"));
    cron_expression = schedule.cron_expression;
    prerequisite_task_id = schedule.prerequisite_task_id;
    scheduled_at = schedule.scheduled_at;
    started_at = no_time;
    completed_at = no_time;
    created_by = created_by_principal r.principal;
    created_at = now;
  }

  unfoldable pub policy_failed : ExecPolicyError → Handler Task
  policy_failed e =
      if has_substring (codes "forbidden") (to_lower (site.policy_error e))
      then stop (forbidden (codes "Forbidden"))
      else stop (page (site.policy_error e))

  unfoldable pub resolved : Task → Result ExecPolicyError ResolvedTask → Handler Task
  resolved task (err e) = policy_failed e
  resolved task (ok command) = give (record task {
    exec_policy_id = some command.policy_id;
    exec_policy_binding_id = some command.binding_id;
    command = to_null_string command.command;
    args = command.args;
  })

  unfoldable pub exec_command_task : Request → Option Uuid → Task → Handler Task
  exec_command_task r (some policy_id) task = resolved task (
      resolve_exec_policy_task fmt site.library site.policies r.principal policy_id task.agent_id
        (collect_user_values r.form))
  exec_command_task r none task =
      let args = form_value r (codes "args") in
      give (record task {
        command = to_null_string (form_value r (codes "command"));
        args = if is_nil args then [] else split 44 args;
      })

  unfoldable pub agent_update_task : Request → List Text → Task → Task
  agent_update_task r (path ∷ []) task = record task {
    package_files = path ∷ [];
    source_path = record { string = path; valid = true };
    command = to_null_string (form_value r (codes "checksum"));
  }
  agent_update_task r _ task = record task {
    command = to_null_string (form_value r (codes "checksum"));
  }

  -- The switch on the task's type.
  unfoldable pub filled_task : Request → Option Uuid → List Text → TaskType → Task → Handler Task
  filled_task r policy paths exec_command task = exec_command_task r policy task
  filled_task r policy paths exec_python_script task = give (record task {
    package_files = paths;
    entrypoint_script = to_null_string (form_value r (codes "entrypoint_script"));
  })
  filled_task r policy paths push_file task = give (record task {
    package_files = paths;
    destination_path = to_null_string (form_value r (codes "destination_path_push"));
  })
  filled_task r policy paths fetch_file task = give (record task {
    source_path = to_null_string (form_value r (codes "source_path_fetch"));
    destination_path = to_null_string (form_value r (codes "destination_path_fetch"));
  })
  filled_task r policy paths agent_update task = give (agent_update_task r paths task)
  filled_task r policy paths (other name) task = give task

  unfoldable pub store_task : Task → M (Option (Unit {0}))
  store_task task = stored site.env (λ w. tasks_written (create_task task w.tasks) w)

  unfoldable pub create_granted :
      Request → TaskType → Option Uuid → Schedule → Time → Uuid → Handler (Unit {0})
  create_granted r task_type policy schedule now agent_id = do
    id ← effect (draw site.env)
    paths ← save_uploads site id r.files
    task ← filled_task r policy paths task_type (new_task r task_type schedule id agent_id now)
    call (store_task task) (server_error (codes "Failed to save task"))

  -- One round of the loop over the agents.
  unfoldable pub create_for_agent :
      Request → TaskType → Option Uuid → Schedule → Time → Text → Handler (Unit {0})
  create_for_agent r task_type policy schedule now agent_text = do
    agent_id ← or_stop (fmt.parse agent_text) (page (codes "invalid agent ID"))
    stop_if (not (can_create_task_type_for_agent fmt r.principal agent_id task_type))
        (forbidden (codes "Forbidden"))
    create_granted r task_type policy schedule now agent_id

  unfoldable pub create_for_agents :
      Request → TaskType → Option Uuid → Schedule → Time → List Text → Handler (Unit {0})
  create_for_agents r task_type policy schedule now [] = give tt
  create_for_agents r task_type policy schedule now (agent ∷ agents) =
      create_for_agent r task_type policy schedule now agent
      >> create_for_agents r task_type policy schedule now agents

  unfoldable pub create_task_page : Request → Time → M Reply
  create_task_page r now = answered (do
    stop_if r.form_error (bad_request (codes "Invalid form submission"))
    let agents = form_values r.form (codes "agent_id")
    stop_if (is_nil agents) (page (codes "at least one agent ID is required"))
    let type = form_value r (codes "task_type")
    stop_if (is_nil type) (page (codes "task type is required"))
    stop_if (not (can_run_task_type r.principal (task_type_of type)))
        (forbidden (codes "Forbidden"))
    policy ← exec_policy_of site (task_type_of type) r
    schedule ← schedule_of site r
    create_for_agents r (task_type_of type) policy schedule now agents
    give (see_other (codes "/tasks")))
