-- ===== src/Scheduler.antt =====
-- server/internal/scheduler/scheduler.go: the tasks that the scheduler holds, those that it registers
-- with cron, and those that it queues. `parses` says whether package robfig/cron accepts an expression;
-- its AddFunc is recorded as an entry. The map of tasks is the list of its entries, each key once.
pub mod Registered
pub mod Due
pub mod Tests
use agents_management.Prelude.{
  ℕ, Bool, true, false, not, ◌&&◌, ◌||◌, Option, none, some, List, [], ◌∷◌, ◌++◌, Text, codes,
  text_eq, exists, leb, ◌==◌, if◌then◌else◌, Uuid,
}
use agents_management.Storage.Model.{Task, Time}
use agents_management.Storage.Tasks.{is_pending}

abbrev pub Entry : Type 0
Entry = Uuid × Task

pub record Scheduler : Type 0 where
  pub tasks : List Entry
  pub cron : List (Uuid × Text)
  pub queue : List Uuid

put_task : List Entry → Uuid → Task → List Entry
put_task [] id task = (id, task) ∷ []
put_task ((k, t) ∷ tasks) id task =
    let rest = put_task tasks id task in if k == id then (k, task) ∷ tasks else (k, t) ∷ rest

abbrev pub is_known : Scheduler → Uuid → Bool
is_known s id = exists (λ e. e.0 == id) s.tasks

add : Scheduler → Task → Scheduler
unfolding put_task
add s task = record s { tasks = put_task s.tasks task.id task }

abbrev pub has_type : Task → Text → Bool
has_type task name = text_eq task.schedule_type.string name

-- AddRecurring; where it returns an error it changes nothing.
add_recurring : (Text → Bool) → Scheduler → Task → Scheduler
add_recurring parses s task =
    if not (has_type task (codes "RECURRING")) || not task.cron_expression.valid
    then s
    else if not (parses task.cron_expression.string)
    then s
    else add (record s { cron = s.cron ++ ((task.id, task.cron_expression.string) ∷ []) }) task

load_one : (Text → Bool) → Scheduler → Task → Scheduler
load_one parses s task =
    if has_type task (codes "ONCE")
    then add s task
    else if not (has_type task (codes "RECURRING"))
    then s
    else if is_known s task.id
    then s
    else add_recurring parses s task

load_each : (Text → Bool) → Scheduler → List Task → Scheduler
load_each parses s [] = s
load_each parses s (task ∷ tasks) = load_each parses (load_one parses s task) tasks

-- `none` is an error of GetScheduledTasks.
pub load_scheduled_tasks : (Text → Bool) → Scheduler → Option (List Task) → Scheduler
load_scheduled_tasks parses s none = s
load_scheduled_tasks parses s (some tasks) = load_each parses s tasks

abbrev pub is_due : Time → Task → Bool
is_due now task =
    is_pending task
    && (has_type task (codes "ONCE")
        && (task.scheduled_at.valid && leb task.scheduled_at.value now))

-- The loop over the map: the entries that stay, and the identifiers that are queued.
check_each : Time → List Entry → List Uuid → List Entry × List Uuid
check_each now [] queue = ([], queue)
check_each now ((id, task) ∷ tasks) queue =
    let (kept, queued) = check_each now tasks (queue ++ (id ∷ [])) in
    let (stay, same) = check_each now tasks queue in
    if is_due now task then (kept, queued) else ((id, task) ∷ stay, same)

pub check_and_queue_due_tasks : Time → Scheduler → Scheduler
check_and_queue_due_tasks now s =
    let (tasks, queue) = check_each now s.tasks s.queue in record s { tasks = tasks; queue = queue }
