-- ===== src/Server/Dispatch.antt =====
-- server/internal/server.go: what AssignTasks does with the events of one agent's stream. Several
-- streams may run at once; the actions here are those of one of them, from its first to its last call.
pub mod Steps
pub mod Moves
pub mod Owners
pub mod Queue
use agents_management.Prelude.{
  ℕ, zero, suc, Bool, true, false, not, Option, none, some, List, [], ◌∷◌, ◌++◌, Text, Uuid, length,
  ◌==◌, if◌then◌else◌,
}
use agents_management.Storage.Model.{
  Task, TaskType, TaskStatus, NullString, Null, Time, exec_command, exec_python_script, fetch_file,
  push_file, agent_update, other,
}
use agents_management.Storage.Tasks.{
  update_task_status_if_current, mark_task_started_if_current, get_pending_tasks_by_agent,
  same_status,
}
use agents_management.Server.World.{
  Env, World, TaskCommand, M, pure, skip, stored, enqueue, ◌>>=◌, ◌>>◌,
}
use agents_management.Server.Calls.{get_task, publish}

map_storage_task_type : TaskType → Option TaskType
map_storage_task_type exec_command = some exec_command
map_storage_task_type exec_python_script = some exec_python_script
map_storage_task_type fetch_file = some fetch_file
map_storage_task_type push_file = some push_file
map_storage_task_type agent_update = some agent_update
map_storage_task_type (other name) = none

-- <-s.taskQueue; the queue is not empty where the program receives
receive : M (Option Uuid)
receive w = elim w.queue [ [] ↦ (none, w) | id ∷ rest ↦ (some id, record w { queue = rest }) ]

enqueue_all : List Uuid → M (Unit {0})
enqueue_all [] = skip
enqueue_all (id ∷ ids) = do enqueue id; enqueue_all ids

module _ (env : Env) where
  set_status_if_current : Uuid → TaskStatus → TaskStatus → M (Option Bool)
  set_status_if_current id current status = stored env (λ w.
      let (tasks, updated) = update_task_status_if_current id current status w.tasks in
      (some updated, record w { tasks = tasks }))

  start_if_current : Uuid → TaskStatus → Time → M (Option Bool)
  start_if_current id current now = stored env (λ w.
      let (tasks, updated) = mark_task_started_if_current id current now w.tasks in
      (some updated, record w { tasks = tasks }))

  publish_if : Option Bool → Uuid → M (Unit {0})
  publish_if none id = skip
  publish_if (some false) id = skip
  publish_if (some true) id = do task ← get_task env id; publish task

  -- stream.Send: whether it returned an error
  send : TaskCommand → M Bool
  send command w =
      let counted = record w { sends = suc w.sends } in
      if env.send_fails w.sends
      then (true, counted)
      else (false, record counted { sent = w.sent ++ (command ∷ []) })

  command_of : TaskType → Task → TaskCommand
  command_of task_type task = record {
    task_id = env.format.string task.id;
    task_type = task_type;
    command = task.command.string;
    args = task.args;
    entrypoint_script = task.entrypoint_script.string;
    source_path = task.source_path.string;
    destination_path = task.destination_path.string;
    timeout_seconds = task.timeout_seconds.value;
  }

  after_send : Bool → Uuid → M Bool
  after_send true id = pure true
  after_send false id = do
    updated ← set_status_if_current id TaskStatus.pending TaskStatus.assigned
    publish_if updated id
    pure false

  send_mapped : Option TaskType → Task → M Bool
  send_mapped none task = pure false
  send_mapped (some task_type) task = do
    error ← send (command_of task_type task)
    after_send error task.id

  -- Whether it returned an error.
  pub send_task_to_agent : Task → M Bool
  send_task_to_agent task = send_mapped (map_storage_task_type task.task_type) task

  -- Whether the identifier is deferred.
  pub dispatch_loaded : Uuid → Option Task → M Bool
  dispatch_loaded agent_id none = pure false
  dispatch_loaded agent_id (some task) =
      if not (task.agent_id == agent_id)
      then pure true
      else if not (same_status task.status TaskStatus.pending)
      then pure false
      else send_task_to_agent task

  dispatch_one : Uuid → Option Uuid → M (List Uuid)
  dispatch_one agent_id none = pure []
  dispatch_one agent_id (some id) = do
    task ← get_task env id
    deferred ← dispatch_loaded agent_id task
    pure (if deferred then id ∷ [] else [])

  -- The loop over the depth of the queue, with the identifiers deferred so far.
  dispatch_rounds : Uuid → ℕ → List Uuid → M (List Uuid)
  dispatch_rounds agent_id zero deferred w = (deferred, w)
  dispatch_rounds agent_id (suc n) deferred w =
      let (id, w₁) = receive w in
      let (more, w₂) = dispatch_one agent_id id w₁ in
      dispatch_rounds agent_id n (deferred ++ more) w₂

  pub dispatch_queued_tasks : Uuid → M (Unit {0})
  dispatch_queued_tasks agent_id w =
      let (deferred, w') = dispatch_rounds agent_id (length w.queue) [] w in enqueue_all deferred w'

  -- The pending tasks, until a send fails.
  send_all : List Task → M Bool
  send_all [] = pure false
  send_all (task ∷ tasks) =
      let rest = send_all tasks in
      send_task_to_agent task >>= λ error. if error then pure true else rest

  send_listed : Option (List Task) → M Bool
  send_listed none = pure false
  send_listed (some tasks) = send_all tasks

  -- The branch of the ticker in AssignTasks: whether the stream ends with an error.
  pub assign_tick : Uuid → M Bool
  assign_tick agent_id = do
    dispatch_queued_tasks agent_id
    tasks ← stored env (λ w. (some (get_pending_tasks_by_agent agent_id w.tasks), w))
    send_listed tasks

  -- An acknowledgement: whether its status is PROCESSING, and its task identifier.
  ack_parsed : Time → Option Uuid → M (Unit {0})
  ack_parsed now none = skip
  ack_parsed now (some id) = do
    updated ← start_if_current id TaskStatus.assigned now
    publish_if updated id

  pub handle_task_acknowledgement : Time → Bool → Text → M (Unit {0})
  handle_task_acknowledgement now processing task_id =
      if not processing then skip else ack_parsed now (env.format.parse task_id)
