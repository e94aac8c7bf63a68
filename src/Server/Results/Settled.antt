-- ===== src/Server/Results/Settled.antt =====
-- What SubmitTaskResult is to store, described apart from server/internal/server.go: the result of a
-- request for a task, and the status that the task is left with.
use agents_management.Prelude.{
  [], true, false, ◌&&◌, ◌≡◌, ◌≢◌, refl, ◌⊎◌, inl, inr, arith, codes, text_eq, text_eq_iff, Uuid,
  false, if◌then◌else◌, Bool-cases,
}
use agents_management.Storage.Model.{
  Task, TaskType, NullString, TaskStatus, TaskResult, TaskResultStatus, fetch_file, exec_command,
  exec_python_script, push_file, agent_update, other,
}
use agents_management.Server.Results.{
  Submission, is_fetch_file, is_success, final_status, persisted_status, result_of,
}

abbrev pub IsRecurring : Task → Type 0
IsRecurring task =
    (task.schedule_type.valid ≡ true) × (task.schedule_type.string ≡ codes "RECURRING")

-- A recurring task waits for its next run; any other ends as it was reported.
pub record Settled (task : Task) (reported : TaskResultStatus) (status : TaskStatus) : Type 0 where
  pub recurring : IsRecurring task → status ≡ TaskStatus.pending
  pub completed :
      ¬ IsRecurring task → reported ≡ TaskResultStatus.success → status ≡ TaskStatus.completed
  pub timed_out :
      ¬ IsRecurring task → reported ≡ TaskResultStatus.timed_out → status ≡ TaskStatus.timed_out
  pub failed :
      ¬ IsRecurring task
      → reported ≢ TaskResultStatus.success
      → reported ≢ TaskResultStatus.timed_out
      → status ≡ TaskStatus.failed

-- The result holds what the request reports; a file that was fetched is named by its destination.
pub record Records (r : Submission) (agent_id task_id : Uuid) (task : Task) (result : TaskResult)
    : Type 0 where
  pub of_agent : result.agent_id ≡ agent_id
  pub of_task : result.task_id ≡ task_id
  pub status : result.status ≡ r.status
  pub exit_code : result.exit_code ≡ r.exit_code
  pub output : (result.output.string ≡ r.output) × (result.output.valid ≡ true)
  pub duration : result.duration_ms ≡ r.duration_ms
  pub fetched :
      task.task_type ≡ fetch_file
      → r.status ≡ TaskResultStatus.success
      → task.destination_path.valid ≡ true
      → result.output_file_path ≡ task.destination_path
  pub no_file :
      (task.task_type ≢ fetch_file) ⊎ (r.status ≢ TaskResultStatus.success)
      → result.output_file_path.valid ≡ false

final_status-failed :
    (reported : TaskResultStatus)
    → reported ≢ TaskResultStatus.success
    → reported ≢ TaskResultStatus.timed_out
    → final_status reported ≡ TaskStatus.failed
unfolding final_status
final_status-failed TaskResultStatus.success a b = absurd (a refl)
final_status-failed TaskResultStatus.failed a b = refl
final_status-failed TaskResultStatus.timed_out a b = absurd (b refl)
final_status-failed (TaskResultStatus.unknown n) a b = refl

pub persisted_status-Settled :
    (task : Task) (reported : TaskResultStatus)
    → Settled task reported (persisted_status task reported)
unfolding persisted_status final_status
persisted_status-Settled task reported =
    let name = task.schedule_type.string in
    elim (Bool-cases (task.schedule_type.valid && text_eq name (codes "RECURRING"))) [
      | inl e ↦
          let both : IsRecurring task = ground (arith, e, text_eq_iff name (codes "RECURRING")) in
          rw e record {
            recurring = λ h. refl;
            completed = λ h. absurd (h both);
            timed_out = λ h. absurd (h both);
            failed = λ h. absurd (h both);
          }
      | inr e ↦ rw e record {
        recurring = λ (valid, named).
            absurd (ground (arith, e, valid, named, text_eq_iff name (codes "RECURRING")));
        completed = λ h same. rw same refl;
        timed_out = λ h same. rw same refl;
        failed = λ h. final_status-failed reported;
      }
    ]

no_output_file :
    (type : TaskType) (reported : TaskResultStatus) (destination : NullString)
    → (type ≢ fetch_file) ⊎ (reported ≢ TaskResultStatus.success)
    → (if is_fetch_file type && (is_success reported && destination.valid)
        then destination
        else record { string = []; valid = false }).valid
      ≡ false
no_output_file fetch_file TaskResultStatus.success destination (inl differs) = absurd (differs refl)
no_output_file fetch_file TaskResultStatus.success destination (inr differs) = absurd (differs refl)
no_output_file fetch_file TaskResultStatus.failed destination h = refl
no_output_file fetch_file TaskResultStatus.timed_out destination h = refl
no_output_file fetch_file (TaskResultStatus.unknown n) destination h = refl
no_output_file exec_command reported destination h = refl
no_output_file exec_python_script reported destination h = refl
no_output_file push_file reported destination h = refl
no_output_file agent_update reported destination h = refl
no_output_file (other name) reported destination h = refl

pub result_of-Records :
    (r : Submission) (id agent_id task_id : Uuid) (task : Task)
    → Records r agent_id task_id task (result_of r id agent_id task_id task)
unfolding result_of
result_of-Records r id agent_id task_id task = record {
  of_agent = refl;
  of_task = refl;
  status = refl;
  exit_code = refl;
  output = (refl, refl);
  duration = refl;
  fetched = λ type status valid. rw (type, status, valid) refl;
  no_file = no_output_file task.task_type r.status task.destination_path;
}
