-- ===== src/Web/Tasks/Created.antt =====
-- The tasks that a request for new tasks leaves behind.
use agents_management.Prelude.{
  suc, true, Option, some, List, [], ◌∷◌, ◌++◌, ◌≡◌, refl, sym, ◌∙◌, ap, subst, arith, codes, Text,
  Bool-cases, Option-cases, Result, ok, err, inl, inr, Uuid,
}
use agents_management.Storage.Model.{Task, TaskStatus, TaskType, Time}
use agents_management.Storage.Tasks.{create_task}
use agents_management.Server.World.{World, draw, stored}
use agents_management.Web.Permissions.{can_create_task_type_for_agent, created_by_principal}
use agents_management.Web.Site.{Site}
use agents_management.Web.TaskForm.{Schedule}
use agents_management.Web.Request.{Request, Reply, server_error}
use agents_management.Web.Handler.{Handler, ◌>>=◌, call}
use agents_management.Web.Uploads.{save_uploads}
use agents_management.Web.Tasks.{
  new_task, filled_task, store_task, create_granted, create_for_agent,
}
use agents_management.Web.Tasks.Frame.{
  Ends, Ends-continue, save_uploads-Ignores, Fills, SameTask, filled_task-Fills,
}

fills_then :
    (task : Task) (tasks : List Task) (r : Result Reply Task) (w : World)
    → Ends tasks (λ t w'. w'.tasks ≡ tasks) (r, w)
    → ((filled : Task) → r ≡ ok filled → SameTask task filled)
    → Ends tasks (λ t w'. (w'.tasks ≡ tasks) × SameTask task t) (r, w)
fills_then task tasks (ok t) w h k = (h, k t refl)
fills_then task tasks (err reply) w h k = h

Fills-Ends :
    (task : Task) (m : Handler Task) (w : World)
    → Fills task m
    → Ends w.tasks (λ t w'. (w'.tasks ≡ w.tasks) × SameTask task t) (m w)
Fills-Ends task m w f = fills_then task w.tasks (m w).0 (m w).1 (f.ignores.ignored w) (f.fills w)

Ends-implied :
    {A : Type 0} (tasks tasks' : List Task) (P Q : A → World → Type 0) (r : Result Reply A)
    (w : World)
    → Ends tasks P (r, w)
    → tasks ≡ tasks'
    → ((a : A) → P a w → Q a w)
    → Ends tasks' Q (r, w)
Ends-implied tasks tasks' P Q (ok a) w h same k = k a h
Ends-implied tasks tasks' P Q (err reply) w h same k = (h.0 ∙ same, h.1)

create_task-append :
    (task : Task) (tasks tasks' : List Task)
    → create_task task tasks ≡ some tasks'
    → tasks' ≡ tasks ++ (task ∷ [])
unfolding create_task
create_task-append task tasks tasks' h = ground (arith, h)

module _ (site : Site) where
  store_task-Ends :
      (task : Task) (message : Text) (w : World)
      → Ends w.tasks
          (λ x w'. w'.tasks ≡ w.tasks ++ (task ∷ []))
          (call (store_task site task) (server_error message) w)
  unfolding store_task stored
  store_task-Ends task message w = elim (Bool-cases (site.env.fails w.calls)) [
    | inl e ↦ rw e (refl, tt)
    | inr e ↦ rw e (elim (Option-cases (create_task task w.tasks)) [
      | inl n ↦ rw n (refl, tt)
      | inr (tasks, s) ↦ rw s (create_task-append task w.tasks tasks s)
    ])
  ]

module _ (site : Site) (r : Request) (type : TaskType) where
  -- A task that the principal of the request may create, waiting to be run.
  pub record Granted (task : Task) : Type 0 where
    pub granted :
        can_create_task_type_for_agent site.env.format r.principal task.agent_id type ≡ true
    pub waiting : task.status ≡ TaskStatus.pending
    pub of_type : task.task_type ≡ type
    pub by_principal : task.created_by ≡ created_by_principal r.principal

  -- One granted task for the agent is added.
  abbrev pub Added : List Task → Option Uuid → World → Type 0
  Added tasks agent_id w =
      (t : Task) × (w.tasks ≡ tasks ++ (t ∷ [])) × Granted t × (agent_id ≡ some t.agent_id)

  new_task-Granted :
      (schedule : Schedule) (id agent_id : Uuid) (now : Time) (t : Task)
      → can_create_task_type_for_agent site.env.format r.principal agent_id type ≡ true
      → SameTask (new_task site r type schedule id agent_id now) t
      → Granted t
  unfolding new_task
  new_task-Granted schedule id agent_id now t may same = record {
    granted = rw same.same_agent may;
    waiting = same.same_status;
    of_type = same.same_type;
    by_principal = same.same_creator;
  }

  create_granted-Ends :
      (policy : Option Uuid) (schedule : Schedule) (now : Time) (agent_id : Uuid) (w : World)
      → can_create_task_type_for_agent site.env.format r.principal agent_id type ≡ true
      → Ends w.tasks
          (λ x w'. Added w.tasks (some agent_id) w')
          (create_granted site r type policy schedule now agent_id w)
  unfolding create_granted draw new_task
  create_granted-Ends policy schedule now agent_id w may =
      let id = site.env.new_uuid w.drawn in
      let drawn = record w { drawn = suc w.drawn } in
      let task = new_task site r type schedule id agent_id now in
      let message = codes "Failed to save task" in
      let store = λ (filled : Task). call (store_task site filled) (server_error message) in
      let fill = λ (paths : List Text). filled_task site r policy paths type task in
      let added = λ (x : Unit {0}) (w' : World). Added w.tasks (some agent_id) w' in
      let saved = save_uploads site id r.files drawn in
      Ends-continue w.tasks (λ paths w'. w'.tasks ≡ w.tasks) added (λ paths. fill paths >>= store)
        saved.0 saved.1 ((save_uploads-Ignores site id r.files).ignored drawn)
        (λ paths kept.
          let filled = fill paths saved.1 in
          Ends-continue w.tasks (λ t w'. (w'.tasks ≡ w.tasks) × SameTask task t) added store
            filled.0 filled.1
            (subst (λ tasks. Ends tasks (λ t w'. (w'.tasks ≡ tasks) × SameTask task t) filled) kept
              (Fills-Ends task (fill paths) saved.1
                (filled_task-Fills site r policy paths type task)))
            (λ t (same_tasks, same).
              let stored = call (store_task site t) (server_error message) filled.1 in
              Ends-implied filled.1.tasks w.tasks _ added stored.0 stored.1
                (store_task-Ends site t message filled.1) same_tasks
                (λ x grown. (
                  t,
                  grown ∙ ap (λ tasks. tasks ++ (t ∷ [])) same_tasks,
                  new_task-Granted schedule id agent_id now t may same,
                  ap some (sym same.same_agent),
                ))))

  pub create_for_agent-Ends :
      (policy : Option Uuid) (schedule : Schedule) (now : Time) (text : Text) (w : World)
      → Ends w.tasks
          (λ x w'. Added w.tasks (site.env.format.parse text) w')
          (create_for_agent site r type policy schedule now text w)
  unfolding create_for_agent
  create_for_agent-Ends policy schedule now text w =
      elim (Option-cases (site.env.format.parse text)) [
        | inl n ↦ rw n (refl, tt)
        | inr (agent_id, s) ↦
            rw s
              (elim (Bool-cases
                (can_create_task_type_for_agent site.env.format r.principal agent_id type)) [
                  | inr e ↦ rw e (refl, tt)
                  | inl e ↦ rw e (create_granted-Ends policy schedule now agent_id w e)
                ])
      ]

  -- One granted task for each agent that is named, in order.
  abbrev pub ForEach : List Text → List Task → Type 0
  ForEach [] [] = Unit
  ForEach (text ∷ texts) (t ∷ tasks) =
      (site.env.format.parse text ≡ some t.agent_id) × ForEach texts tasks
  ForEach _ _ = ⊥
