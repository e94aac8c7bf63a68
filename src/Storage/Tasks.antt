-- ===== src/Storage/Tasks.antt =====
-- PostgresTaskRepository of server/internal/storage/postgres.go: each method as what its SQL statement
-- does to the rows of the table `tasks`. The column `updated_at`
-- is left out: no statement reads it.
pub mod Update
use agents_management.Prelude.{
  ℕ, Bool, true, false, ◌&&◌, ◌||◌, Option, none, some, List, [], ◌∷◌, ◌++◌, not, Text, codes,
  text_eq, ltb, ◌==◌, exists, select, if◌then◌else◌, Uuid,
}
use agents_management.Storage.Model.{Task, TaskType, other, TaskStatus, Time, Null, NullString}

abbrev pub status_number : TaskStatus → ℕ
status_number TaskStatus.pending = 0
status_number TaskStatus.assigned = 1
status_number TaskStatus.running = 2
status_number TaskStatus.completed = 3
status_number TaskStatus.failed = 4
status_number TaskStatus.timed_out = 5

abbrev pub same_status : TaskStatus → TaskStatus → Bool
same_status a b = status_number a == status_number b

-- UPDATE tasks SET ... WHERE ...
unfoldable pub update_where : (Task → Bool) → (Task → Task) → List Task → List Task
update_where test change [] = []
update_where test change (t ∷ tasks) =
    (if test t then change t else t) ∷ update_where test change tasks

abbrev pub has_id : Uuid → Task → Bool
has_id id t = t.id == id

abbrev is_known_type : TaskType → Bool
is_known_type (other name) = false
is_known_type _ = true

-- CreateTask. The key must be new and the type one of the column's; created_at is NOW().
unfoldable pub create_task : Task → List Task → Option (List Task)
create_task task tasks =
    if not (is_known_type task.task_type) || exists (has_id task.id) tasks
    then none
    else some (tasks ++ (task ∷ []))

-- SELECT * FROM tasks WHERE id = $1; `id` is the primary key
unfoldable pub get_task_by_id : Uuid → List Task → Option Task
get_task_by_id id [] = none
get_task_by_id id (t ∷ tasks) = if has_id id t then some t else get_task_by_id id tasks

unfoldable pub update_task_status : Uuid → TaskStatus → List Task → List Task
update_task_status id status = update_where (has_id id) (λ t. record t { status = status })

abbrev pub in_status : Uuid → TaskStatus → Task → Bool
in_status id current t = has_id id t && same_status t.status current

-- The rows, and whether a row was affected.
unfoldable pub update_task_status_if_current :
    Uuid → TaskStatus → TaskStatus → List Task → List Task × Bool
update_task_status_if_current id current status tasks = (
  update_where (in_status id current) (λ t. record t { status = status }) tasks,
  exists (in_status id current) tasks,
)

unfoldable pub mark_task_started_if_current :
    Uuid → TaskStatus → Time → List Task → List Task × Bool
mark_task_started_if_current id current started_at tasks = (
  update_where (in_status id current)
      (λ t. record t {
        status = TaskStatus.running;
        started_at = record { value = started_at; valid = true };
      })
      tasks,
  exists (in_status id current) tasks,
)

unfoldable pub mark_task_completed : Uuid → TaskStatus → Time → List Task → List Task
mark_task_completed id status completed_at = update_where (has_id id) (λ t. record t {
  status = status;
  completed_at = record { value = completed_at; valid = true };
})

-- ORDER BY created_at ASC
insert_by_created_at : Task → List Task → List Task
insert_by_created_at t [] = t ∷ []
insert_by_created_at t (u ∷ tasks) =
    let rest = insert_by_created_at t tasks in
    if ltb u.created_at t.created_at then u ∷ rest else t ∷ u ∷ tasks

unfoldable pub order_by_created_at : List Task → List Task
unfolding insert_by_created_at
order_by_created_at [] = []
order_by_created_at (t ∷ tasks) = insert_by_created_at t (order_by_created_at tasks)

abbrev pub is_pending : Task → Bool
is_pending t = same_status t.status TaskStatus.pending

-- WHERE agent_id = $1 AND status = 'pending' AND schedule_type IS NULL
abbrev pub is_immediate : Uuid → Task → Bool
is_immediate agent_id t =
    t.agent_id == agent_id && (is_pending t && (if t.schedule_type.valid then false else true))

unfoldable pub get_pending_tasks_by_agent : Uuid → List Task → List Task
unfolding order_by_created_at select
get_pending_tasks_by_agent agent_id tasks =
    order_by_created_at (select (is_immediate agent_id) tasks)

-- WHERE schedule_type IN ('ONCE', 'RECURRING') AND status = 'pending'
abbrev pub is_scheduled : Task → Bool
is_scheduled t =
    t.schedule_type.valid
    && ((text_eq t.schedule_type.string (codes "ONCE")
          || text_eq t.schedule_type.string (codes "RECURRING"))
        && is_pending t)

unfoldable pub get_scheduled_tasks : List Task → List Task
unfolding select
get_scheduled_tasks tasks = select is_scheduled tasks

abbrev pub follows : Uuid → Option Uuid → Bool
follows id none = false
follows id (some prerequisite) = prerequisite == id

unfoldable pub get_tasks_by_prerequisite : Uuid → List Task → List Task
unfolding select
get_tasks_by_prerequisite id tasks =
    select (λ t. follows id t.prerequisite_task_id && is_pending t) tasks

unfoldable pub update_task_schedule :
    Uuid → NullString → Null Time → NullString → Option Uuid → List Task → List Task
update_task_schedule id schedule_type scheduled_at cron_expression prerequisite_task_id =
    update_where (has_id id) (λ t. record t {
      schedule_type = schedule_type;
      scheduled_at = scheduled_at;
      cron_expression = cron_expression;
      prerequisite_task_id = prerequisite_task_id;
    })
