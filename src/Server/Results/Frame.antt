-- ===== src/Server/Results/Frame.antt =====
-- What the steps after the update of a task leave as it is.
use agents_management.Prelude.{Option, none, some, List, [], ◌∷◌, refl, Text, Uuid}
use agents_management.Storage.Model.{Task, TaskStatus, TaskResult, Time}
use agents_management.Storage.Tasks.{get_tasks_by_prerequisite, get_task_by_id}
use agents_management.Notify.Policy.{Policy}
use agents_management.Notify.Router.{Route}
use agents_management.Server.World.{Env, World, stored, enqueue, broadcast, start, Job}
use agents_management.Server.Calls.{get_task, publish}
use agents_management.Server.Keeps.{Keeps, Keeps-bind, Keeps-stored}
use agents_management.Server.Deliveries.Frame.{Ignores}
use agents_management.Server.Events.{evaluate_and_store_notification_event}
use agents_management.Server.Events.Frame.{Keeps-evaluate_and_store}
use agents_management.Server.Results.{
  Submission, final_status, enqueue_tasks, enqueue_listed, clean_up, trigger_chained_tasks,
  trigger_if_completed, announce,
}

-- The tables that the steps after the update leave alone.
abbrev pub tables : World → List Task × List TaskResult
tables w = (w.tasks, w.results)

tables-Ignores : Ignores tables
tables-Ignores = record { ignores = λ w es ds c a n. refl }

Keeps-enqueue_tasks : (tasks : List Task) → Keeps tables (enqueue_tasks tasks)
unfolding enqueue_tasks
Keeps-enqueue_tasks [] = record { kept = λ w. refl }
Keeps-enqueue_tasks (task ∷ tasks) =
    Keeps-bind tables (enqueue task.id) (λ _. enqueue_tasks tasks)
      (record { kept = λ w. unfold enqueue in refl }) (λ _. Keeps-enqueue_tasks tasks)

Keeps-enqueue_listed : (tasks : Option (List Task)) → Keeps tables (enqueue_listed tasks)
unfolding enqueue_listed
Keeps-enqueue_listed none = record { kept = λ w. refl }
Keeps-enqueue_listed (some tasks) = Keeps-enqueue_tasks tasks

Keeps-clean_up : (files : List Text) → Keeps tables (clean_up files)
unfolding clean_up start
Keeps-clean_up [] = record { kept = λ w. refl }
Keeps-clean_up (file ∷ files) = record { kept = λ w. refl }

Keeps-publish : (task : Option Task) → Keeps tables (publish task)
unfolding publish broadcast
Keeps-publish none = record { kept = λ w. refl }
Keeps-publish (some task) = record { kept = λ w. refl }

module _ (env : Env) (engine : Policy) (router : List Route) where
  abbrev read_followers : Uuid → World → Option (List Task) × World
  read_followers id w = (some (get_tasks_by_prerequisite id w.tasks), w)

  abbrev read_task : Uuid → World → Option Task × World
  read_task id w = (get_task_by_id id w.tasks, w)

  Keeps-trigger :
      (status : TaskStatus) (id : Uuid)
      → Keeps tables (trigger_if_completed env engine router status id)
  unfolding trigger_if_completed trigger_chained_tasks
  Keeps-trigger TaskStatus.completed id =
      Keeps-bind tables (stored env (read_followers id)) enqueue_listed
        (Keeps-stored tables env (read_followers id) (λ w. refl) (λ w. refl)) Keeps-enqueue_listed
  Keeps-trigger _ id = record { kept = λ w. refl }

  pub Keeps-announce :
      (now : Time) (r : Submission) (id : Uuid) (task : Task) (result : TaskResult)
      → Keeps tables (announce env engine router now r id task result)
  unfolding announce get_task start
  Keeps-announce now r id task result =
      Keeps-bind tables (evaluate_and_store_notification_event env engine router now task result) _
        (Keeps-evaluate_and_store tables tables-Ignores env engine router now task result)
        (λ _.
          Keeps-bind tables (stored env (read_task id)) _
            (Keeps-stored tables env (read_task id) (λ w. refl) (λ w. refl))
            (λ updated. Keeps-bind tables (publish updated) _ (Keeps-publish updated) (λ _.
              Keeps-bind tables (trigger_if_completed env engine router (final_status r.status) id)
                _ (Keeps-trigger (final_status r.status) id)
                (λ _.
                  Keeps-bind tables (start (Job.notify_completion task result)) _
                    (record { kept = λ w. refl }) (λ _. Keeps-clean_up task.package_files)))))
