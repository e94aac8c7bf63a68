-- ===== src/Server/Results.antt =====
-- server/internal/server.go: SubmitTaskResult and triggerChainedTasks. All calls of time.Now() of one
-- request return `now`.
pub mod Frame
pub mod Settled
pub mod Outcome
pub mod Refused
pub mod Tests
use agents_management.Prelude.{
  ℕ, suc, Bool, true, false, not, ◌&&◌, Option, none, some, List, [], ◌∷◌, ◌++◌, Text, codes,
  text_eq, is_nil, if◌then◌else◌, Uuid, ℤ, map,
}
use agents_management.Storage.Model.{
  Task, TaskType, TaskStatus, TaskResult, TaskResultStatus, NullString, Time, fetch_file, other,
  exec_command, exec_python_script, push_file, agent_update,
}
use agents_management.Storage.Tasks.{mark_task_completed, get_tasks_by_prerequisite}
use agents_management.Notify.Policy.{Policy}
use agents_management.Notify.Router.{Route}
use agents_management.Server.World.{
  Env, World, M, pure, skip, stored, draw, enqueue, start, Job, notify_completion,
  remove_directory_of, ◌>>=◌, ◌>>◌,
}
use agents_management.Server.Calls.{get_task, publish}
use agents_management.Server.Events.{evaluate_and_store_notification_event}

-- api.SubmitTaskResultRequest
pub record Submission : Type 0 where
  pub agent_id : Text
  pub task_id : Text
  pub status : TaskResultStatus
  pub exit_code : ℤ
  pub output : Text
  pub duration_ms : ℕ

-- api.SubmitTaskResultResponse
pub record Response : Type 0 where
  pub success : Bool
  pub message : Text

abbrev failure : Text → Response
failure message = record { success = false; message = message }

abbrev is_fetch_file : TaskType → Bool
is_fetch_file fetch_file = true
is_fetch_file exec_command = false
is_fetch_file exec_python_script = false
is_fetch_file push_file = false
is_fetch_file agent_update = false
is_fetch_file (other name) = false

abbrev is_success : TaskResultStatus → Bool
is_success TaskResultStatus.success = true
is_success TaskResultStatus.failed = false
is_success TaskResultStatus.timed_out = false
is_success (TaskResultStatus.unknown n) = false

pub final_status : TaskResultStatus → TaskStatus
final_status TaskResultStatus.success = TaskStatus.completed
final_status TaskResultStatus.failed = TaskStatus.failed
final_status TaskResultStatus.timed_out = TaskStatus.timed_out
final_status (TaskResultStatus.unknown n) = TaskStatus.failed

pub persisted_status : Task → TaskResultStatus → TaskStatus
persisted_status task status =
    if task.schedule_type.valid && text_eq task.schedule_type.string (codes "RECURRING")
    then TaskStatus.pending
    else final_status status

pub result_of : Submission → Uuid → Uuid → Uuid → Task → TaskResult
result_of r id agent_id task_id task = record {
  id = id;
  task_id = task_id;
  agent_id = agent_id;
  status = r.status;
  exit_code = r.exit_code;
  output = record { string = r.output; valid = true };
  output_file_path =
      if is_fetch_file task.task_type && (is_success r.status && task.destination_path.valid)
      then task.destination_path
      else record { string = []; valid = false };
  duration_ms = r.duration_ms;
}

enqueue_tasks : List Task → M (Unit {0})
enqueue_tasks [] = skip
enqueue_tasks (task ∷ tasks) = do enqueue task.id; enqueue_tasks tasks

enqueue_listed : Option (List Task) → M (Unit {0})
enqueue_listed none = skip
enqueue_listed (some tasks) = enqueue_tasks tasks

clean_up : List Text → M (Unit {0})
clean_up [] = skip
clean_up (file ∷ files) = start (remove_directory_of file)

module _ (env : Env) (engine : Policy) (router : List Route) where
  trigger_chained_tasks : Uuid → M (Unit {0})
  trigger_chained_tasks id = do
    tasks ← stored env (λ w. (some (get_tasks_by_prerequisite id w.tasks), w))
    enqueue_listed tasks

  trigger_if_completed : TaskStatus → Uuid → M (Unit {0})
  trigger_if_completed TaskStatus.completed id = trigger_chained_tasks id
  trigger_if_completed _ id = skip

  -- After the task's row was updated.
  pub announce : Time → Submission → Uuid → Task → TaskResult → M (Unit {0})
  announce now r task_id task result = do
    evaluate_and_store_notification_event env engine router now task result
    updated ← get_task env task_id
    publish updated
    trigger_if_completed (final_status r.status) task_id
    start (notify_completion task result)
    clean_up task.package_files

  after_mark : Time → Submission → Uuid → Task → TaskResult → Option (Unit {0}) → M Response
  after_mark now r task_id task result none =
      pure (failure (codes "Failed to update final task status"))
  after_mark now r task_id task result (some _) = do
    announce now r task_id task result
    pure record { success = true; message = codes "Result processed successfully" }

  mark : Time → Submission → Uuid → Task → M (Option (Unit {0}))
  mark now r task_id task = stored env (λ w. (
    some tt,
    record w { tasks = mark_task_completed task_id (persisted_status task r.status) now w.tasks },
  ))

  after_create_result :
      Time → Submission → Uuid → Task → TaskResult → Option (Unit {0}) → M Response
  after_create_result now r task_id task result none =
      pure (failure (codes "Failed to save task result"))
  after_create_result now r task_id task result (some _) = do
    marked ← mark now r task_id task
    after_mark now r task_id task result marked

  create_result : TaskResult → M (Option (Unit {0}))
  create_result result =
      stored env (λ w. (some tt, record w { results = w.results ++ (result ∷ []) }))

  submit_loaded : Time → Submission → Uuid → Uuid → Option Task → M Response
  submit_loaded now r agent_id task_id none = pure (failure (codes "Task not found"))
  submit_loaded now r agent_id task_id (some task) = do
    id ← draw env
    created ← create_result (result_of r id agent_id task_id task)
    after_create_result now r task_id task (result_of r id agent_id task_id task) created

  submit_parsed : Time → Submission → Option Uuid → Option Uuid → M Response
  submit_parsed now r none task_id = pure (failure (codes "Invalid agent ID format"))
  submit_parsed now r (some agent_id) none = pure (failure (codes "Invalid task ID format"))
  submit_parsed now r (some agent_id) (some task_id) = do
    task ← get_task env task_id
    submit_loaded now r agent_id task_id task

  pub submit_task_result : Time → Submission → M Response
  submit_task_result now r =
      submit_parsed now r (env.format.parse r.agent_id) (env.format.parse r.task_id)
