-- ===== src/Scheduler/Tests.antt =====
-- The statements on the scheduler, with one task for each kind of schedule.
use agents_management.Prelude.{
  Bool, true, some, List, Uuid, [], ◌∷◌, ◌++◌, ◌≡◌, refl, codes, Text, exists,
}
use agents_management.Storage.Model.{Task, TaskStatus}
use agents_management.Samples.{null_string, text, task_with}
use agents_management.Scheduler.{Scheduler, Entry, load_scheduled_tasks, check_and_queue_due_tasks}
use agents_management.Scheduler.Registered.{IsConsistent, load_scheduled_tasks-IsConsistent}
use agents_management.Scheduler.Due.{Checks, check_and_queue_due_tasks_lem}

abbrev once : Task
once = record (task_with 3 TaskStatus.pending null_string) {
  schedule_type = text (codes "ONCE");
  scheduled_at = record { value = 5; valid = true };
}

abbrev nightly : Task
nightly = record (task_with 4 TaskStatus.pending null_string) {
  schedule_type = text (codes "RECURRING");
  cron_expression = text (codes "@daily");
}

abbrev parses : Text → Bool
parses expression = true

abbrev empty : Scheduler
empty = record { tasks = []; cron = []; queue = [] }

abbrev loaded : Scheduler
loaded = record { tasks = (3, once) ∷ []; cron = []; queue = [] }

empty-IsConsistent : IsConsistent empty
unfolding exists
empty-IsConsistent = record { known = λ id r. r; once = refl }

load_scheduled_tasks-IsConsistent_example :
    IsConsistent (load_scheduled_tasks parses empty (some (nightly ∷ once ∷ nightly ∷ [])))
load_scheduled_tasks-IsConsistent_example =
    load_scheduled_tasks-IsConsistent parses empty (some (nightly ∷ once ∷ nightly ∷ []))
      empty-IsConsistent

check_and_queue_due_tasks_example :
    (kept : List Entry) × (queued : List Uuid) × Checks 6 loaded.tasks kept queued
    × (check_and_queue_due_tasks 6 loaded
        ≡ record loaded { tasks = kept; queue = loaded.queue ++ queued })
    × (check_and_queue_due_tasks 6 (check_and_queue_due_tasks 6 loaded)
        ≡ check_and_queue_due_tasks 6 loaded)
check_and_queue_due_tasks_example = check_and_queue_due_tasks_lem 6 loaded
