-- ===== src/Web/Tasks/Frame.antt =====
-- The steps of createTask that leave the tasks as they are, and what its steps make of a task.
use agents_management.Prelude.{
  Bool, true, false, Option, none, some, List, [], ◌∷◌, ◌≡◌, refl, ◌++◌, codes, to_lower,
  has_substring, subst, ok-injective, Text, Bool-cases, Result, ok, err, inl, inr, Uuid,
}
use agents_management.Storage.Model.{
  Task, TaskType, exec_command, exec_python_script, fetch_file, push_file, agent_update, other,
}
use agents_management.Server.World.{World}
use agents_management.Web.ExecPolicies.{ExecPolicyError, ResolvedTask}
use agents_management.Web.Site.{Site}
use agents_management.Web.Request.{Request, Reply, server_error, forbidden, page}
use agents_management.Web.Handler.{
  IsRefusal, Handler, ◌>>=◌, ◌>>◌, give, stop, stop_if, effect, continue,
}
use agents_management.Web.Uploads.{
  failed_io, io, try_io, written, save_file, save_files, save_uploads,
}
use agents_management.Web.Tasks.{
  policy_failed, resolved, exec_command_task, agent_update_task, filled_task,
}

-- What a step that began with these tasks ends with: the fact about its value, or a refusal and the
-- tasks as they were.
abbrev pub Ends : {A : Type 0} → List Task → (A → World → Type 0) → Result Reply A × World → Type 0
Ends tasks Q (ok a, w) = Q a w
Ends tasks Q (err reply, w) = (w.tasks ≡ tasks) × IsRefusal reply

pub Ends-continue :
    {A B : Type 0} (tasks : List Task) (P : A → World → Type 0) (Q : B → World → Type 0)
    (f : A → Handler B) (r : Result Reply A) (w : World)
    → Ends tasks P (r, w)
    → ((a : A) → P a w → Ends tasks Q (f a w))
    → Ends tasks Q (continue f (r, w))
Ends-continue tasks P Q f (ok a) w h k = k a h
Ends-continue tasks P Q f (err reply) w h k = h

-- The step leaves the tasks as they are.
pub record Ignores {A : Type 0} (m : Handler A) : Type 0 where
  pub ignored : (w : World) → Ends w.tasks (λ a w'. w'.tasks ≡ w.tasks) (m w)

ignored_then :
    {A B : Type 0} (f : A → Handler B) (r : Result Reply A) (w w0 : World)
    → Ends w0.tasks (λ a w'. w'.tasks ≡ w0.tasks) (r, w)
    → ((a : A) → Ignores (f a))
    → Ends w0.tasks (λ b w'. w'.tasks ≡ w0.tasks) (continue f (r, w))
ignored_then f (ok a) w w0 h k =
    subst (λ tasks. Ends tasks (λ b w'. w'.tasks ≡ tasks) (f a w)) h ((k a).ignored w)
ignored_then f (err reply) w w0 h k = h

pub bind-Ignores :
    {A B : Type 0} (m : Handler A) (f : A → Handler B)
    → Ignores m
    → ((a : A) → Ignores (f a))
    → Ignores (m >>= f)
bind-Ignores m f km kf = record {
  ignored = λ w. ignored_then f (m w).0 (m w).1 w (km.ignored w) kf;
}

pub stop_if-Ignores : (b : Bool) (reply : Reply) → IsRefusal reply → Ignores (stop_if b reply)
stop_if-Ignores true reply h = record { ignored = λ w. (refl, h) }
stop_if-Ignores false reply h = record { ignored = λ w. refl }

module _ (site : Site) where
  try_io-Ignores : Ignores (try_io site)
  unfolding try_io io
  try_io-Ignores =
      bind-Ignores (effect (io site)) (λ failed. stop_if failed (server_error failed_io))
        (record { ignored = λ w. refl })
        (λ failed. stop_if-Ignores failed (server_error failed_io) tt)

  then_io-Ignores : {A : Type 0} (m : Handler A) → Ignores m → Ignores (try_io site >> m)
  then_io-Ignores m k = bind-Ignores (try_io site) (λ x. m) try_io-Ignores (λ x. k)

  save_file-Ignores : (path content : Text) → Ignores (save_file site path content)
  unfolding save_file written
  save_file-Ignores path content =
      let try = try_io site in
      bind-Ignores (try >> try >> try) (λ x. effect (written site path content))
        (bind-Ignores (try >> try) (λ x. try) (then_io-Ignores try try_io-Ignores)
          (λ x. try_io-Ignores))
        (λ x. record { ignored = λ w. refl })

  save_files-Ignores :
      (dir : Text) (files : List (Text × Text)) → Ignores (save_files site dir files)
  unfolding save_files
  save_files-Ignores dir [] = record { ignored = λ w. refl }
  save_files-Ignores dir ((name, content) ∷ files) =
      let path = dir ++ (codes "/" ++ name) in
      bind-Ignores (save_file site path content)
        (λ x. save_files site dir files >>= λ rest. give (path ∷ rest))
        (save_file-Ignores path content)
        (λ x.
          bind-Ignores (save_files site dir files) (λ rest. give (path ∷ rest))
            (save_files-Ignores dir files) (λ rest. record { ignored = λ w. refl }))

  pub save_uploads-Ignores :
      (id : Uuid) (files : List (Text × Text)) → Ignores (save_uploads site id files)
  unfolding save_uploads
  save_uploads-Ignores id [] = record { ignored = λ w. refl }
  save_uploads-Ignores id (file ∷ files) =
      let dir = codes "uploads/" ++ site.env.format.string id in
      then_io-Ignores (save_files site dir (file ∷ files)) (save_files-Ignores dir (file ∷ files))

-- A task that is filled in keeps what decides who runs it and when.
pub record SameTask (task filled : Task) : Type 0 where
  pub same_id : filled.id ≡ task.id
  pub same_agent : filled.agent_id ≡ task.agent_id
  pub same_type : filled.task_type ≡ task.task_type
  pub same_status : filled.status ≡ task.status
  pub same_creator : filled.created_by ≡ task.created_by

-- The step leaves the world's tasks, and gives such a task if it gives one.
pub record Fills (task : Task) (m : Handler Task) : Type 0 where
  pub ignores : Ignores m
  pub fills : (w : World) (filled : Task) → (m w).0 ≡ ok filled → SameTask task filled

give_same :
    (task filled : Task)
    → filled.id ≡ task.id
    → filled.agent_id ≡ task.agent_id
    → filled.task_type ≡ task.task_type
    → filled.status ≡ task.status
    → filled.created_by ≡ task.created_by
    → Fills task (give filled)
give_same task filled a b c d e = record {
  ignores = record { ignored = λ w. refl };
  fills = λ w t h.
      subst (SameTask task) (ok-injective h)
        (record { same_id = a; same_agent = b; same_type = c; same_status = d; same_creator = e });
}

stop-Fills : (task : Task) (reply : Reply) → IsRefusal reply → Fills task (stop reply)
stop-Fills task reply h = record {
  ignores = record { ignored = λ w. (refl, h) };
  fills = λ w t e. cc;
}

module _ (site : Site) where
  policy_failed-Fills : (task : Task) (e : ExecPolicyError) → Fills task (policy_failed site e)
  unfolding policy_failed
  policy_failed-Fills task e =
      elim (Bool-cases (has_substring (codes "forbidden") (to_lower (site.policy_error e)))) [
        | inl h ↦ rw h (stop-Fills task (forbidden (codes "Forbidden")) tt)
        | inr h ↦ rw h (stop-Fills task (page (site.policy_error e)) tt)
      ]

  resolved-Fills :
      (task : Task) (r : Result ExecPolicyError ResolvedTask) → Fills task (resolved site task r)
  unfolding resolved
  resolved-Fills task (err e) = policy_failed-Fills task e
  resolved-Fills task (ok command) = give_same task _ refl refl refl refl refl

  pub filled_task-Fills :
      (r : Request) (policy : Option Uuid) (paths : List Text) (type : TaskType) (task : Task)
      → Fills task (filled_task site r policy paths type task)
  unfolding filled_task exec_command_task agent_update_task
  filled_task-Fills r none paths exec_command task = give_same task _ refl refl refl refl refl
  filled_task-Fills r (some policy) paths exec_command task = resolved-Fills task _
  filled_task-Fills r policy paths exec_python_script task =
      give_same task _ refl refl refl refl refl
  filled_task-Fills r policy paths fetch_file task = give_same task _ refl refl refl refl refl
  filled_task-Fills r policy paths push_file task = give_same task _ refl refl refl refl refl
  filled_task-Fills r policy [] agent_update task = give_same task _ refl refl refl refl refl
  filled_task-Fills r policy (path ∷ []) agent_update task =
      give_same task _ refl refl refl refl refl
  filled_task-Fills r policy (path ∷ other_path ∷ paths) agent_update task =
      give_same task _ refl refl refl refl refl
  filled_task-Fills r policy paths (other name) task = give_same task task refl refl refl refl refl
