-- ===== src/Server/Results/Outcome.antt =====
-- What a request that was answered with success has done.
use agents_management.Prelude.{
  suc, true, false, Option, none, some, List, [], ◌∷◌, ◌++◌, ◌≡◌, ◌≢◌, refl, subst, ◌∙◌, ap, arith,
  ==_iff, Option-cases, inl, inr, Uuid,
}
use agents_management.Storage.Model.{Task, TaskStatus, TaskResult, Time}
use agents_management.Storage.Tasks.{mark_task_completed, get_task_by_id, has_id}
use agents_management.Storage.Tasks.Update.{get_task_by_id-update_where, id-get_task_by_id}
use agents_management.Notify.Policy.{Policy}
use agents_management.Notify.Router.{Route}
use agents_management.Server.World.{Env, World, M, stored, draw, ◌>>=◌}
use agents_management.Server.Calls.{get_task}
use agents_management.Server.Results.{
  Submission, Response, persisted_status, result_of, after_mark, mark, after_create_result,
  create_result, submit_loaded, submit_parsed, submit_task_result,
}
use agents_management.Server.Results.Settled.{
  Settled, Records, persisted_status-Settled, result_of-Records,
}
use agents_management.Server.Results.Frame.{tables, Keeps-announce}

-- A request that was answered with success went on from the value of its first call.
bind-success :
    {A : Type 0} (m : M (Option A)) (k : Option A → M Response) (w : World)
    → ((u : World) → (k none u).0.success ≡ false)
    → ((m >>= k) w).0.success ≡ true
    → (a : A) × ((m w).0 ≡ some a)
      × ((k (some a) (m w).1).0.success ≡ true)
      × (((m >>= k) w).1 ≡ (k (some a) (m w).1).1)
bind-success m k w fails h = elim (Option-cases (m w).0) [
  | inl e ↦ ground (arith, e, fails (m w).1)
  | inr (a, e) ↦
      (a, e, subst (λ o. (k o (m w).1).0.success ≡ true) e h, ap (λ o. (k o (m w).1).1) e)
]

stored-some :
    {A : Type 0} (env : Env) (op : World → Option A × World) (w : World) (a : A)
    → (stored env op w).0 ≡ some a
    → ((op (record w { calls = suc w.calls })).0 ≡ some a)
      × ((stored env op w).1 ≡ (op (record w { calls = suc w.calls })).1)
unfolding stored
stored-some env op w a h = ground arith

module _ (env : Env) (engine : Policy) (router : List Route) where
  abbrev marked : Submission → Time → Uuid → Task → List Task → List Task
  marked r now id task tasks = mark_task_completed id (persisted_status task r.status) now tasks

  mark-success :
      (now : Time) (r : Submission) (id : Uuid) (task : Task) (result : TaskResult) (w : World)
      → ((mark env engine router now r id task
            >>= after_mark env engine router now r id task result)
          w).0.success
        ≡ true
      → tables
          ((mark env engine router now r id task
              >>= after_mark env engine router now r id task result)
            w).1
        ≡ (marked r now id task w.tasks, w.results)
  unfolding mark after_mark
  mark-success now r id task result w h =
      let k = after_mark env engine router now r id task result in
      let (_, at_mark, ok_mark, same) =
        bind-success (mark env engine router now r id task) k w (λ u. refl) h in
      let (_, moved) = stored-some env _ w tt at_mark in
      rw (same, moved) ((Keeps-announce env engine router now r id task result).kept _)

  create-success :
      (now : Time) (r : Submission) (agent_id id : Uuid) (task : Task) (w : World)
      → (submit_loaded env engine router now r agent_id id (some task) w).0.success ≡ true
      → tables (submit_loaded env engine router now r agent_id id (some task) w).1 ≡ (
        marked r now id task w.tasks,
        w.results ++ (result_of r (env.new_uuid w.drawn) agent_id id task ∷ []),
      )
  unfolding submit_loaded create_result after_create_result draw
  create-success now r agent_id id task w h =
      let drawn = (draw env w).1 in
      let result = result_of r (env.new_uuid w.drawn) agent_id id task in
      let k = after_create_result env engine router now r id task result in
      let (_, at_create, ok_create, same) =
        bind-success (create_result env engine router result) k drawn (λ u. refl) h in
      let (_, moved) = stored-some env _ drawn tt at_create in
      ap tables same
      ∙ mark-success now r id task result (create_result env engine router result drawn).1 ok_create
      ∙ ap (λ u. (marked r now id task u.tasks, u.results)) moved

  marked-row :
      (now : Time) (r : Submission) (id : Uuid) (task : Task) (tasks : List Task)
      → get_task_by_id id tasks ≡ some task
      → (get_task_by_id id (marked r now id task tasks)
          ≡ some (record task {
            status = persisted_status task r.status;
            completed_at = record { value = now; valid = true };
          }))
        × ((k : Uuid)
            → k ≢ id
            → get_task_by_id k (marked r now id task tasks) ≡ get_task_by_id k tasks)
  unfolding mark_task_completed
  marked-row now r id task tasks h =
      let at_key = id-get_task_by_id id tasks task h in
      let change : Task → Task = λ t. record t {
        status = persisted_status task r.status;
        completed_at = record { value = now; valid = true };
      } in
      (
        get_task_by_id-update_where id (has_id id) change tasks (λ t. refl)
            ∙ rw h (ground (arith, ==_iff task.id id)),
        λ k other.
            get_task_by_id-update_where k (has_id id) change tasks (λ t. refl)
            ∙ (elim (Option-cases (get_task_by_id k tasks)) [
              | inl e ↦ rw e refl
              | inr (t, e) ↦ rw e (ground (arith, ==_iff t.id id, id-get_task_by_id k tasks t e))
            ]),
      )

  -- What a request that is answered with success has done, from the parsed identifiers on.
  pub record Processed (now : Time) (r : Submission) (w : World)
      (parsed_agent parsed_task : Option Uuid) (after : World) : Type 0 where
    pub agent_id : Uuid
    pub id : Uuid
    pub task : Task
    pub result : TaskResult
    pub status : TaskStatus
    pub named_agent : parsed_agent ≡ some agent_id
    pub named_task : parsed_task ≡ some id
    pub stored_task : get_task_by_id id w.tasks ≡ some task
    pub records : Records r agent_id id task result
    pub settled : Settled task r.status status
    pub results : after.results ≡ w.results ++ (result ∷ [])
    pub row :
        get_task_by_id id after.tasks
        ≡ some
            (record task { status = status; completed_at = record { value = now; valid = true } })
    pub others : (k : Uuid) → k ≢ id → get_task_by_id k after.tasks ≡ get_task_by_id k w.tasks

  parsed-success :
      (now : Time) (r : Submission) (parsed_agent parsed_task : Option Uuid) (w : World)
      → (submit_parsed env engine router now r parsed_agent parsed_task w).0.success ≡ true
      → Processed now r w parsed_agent parsed_task
          (submit_parsed env engine router now r parsed_agent parsed_task w).1
  unfolding submit_parsed get_task
  parsed-success now r none parsed_task w h = cc
  parsed-success now r (some agent_id) none w h = cc
  parsed-success now r (some agent_id) (some id) w h =
      let k = submit_loaded env engine router now r agent_id id in
      let (task, at_task, ok_task, same) =
        bind-success (get_task env id) k w (λ u. unfold submit_loaded in refl) h in
      let (found, moved) = stored-some env _ w task at_task in
      let done = create-success now r agent_id id task (get_task env id w).1 ok_task in
      let final : tables ((get_task env id >>= k) w).1 ≡ (
        marked r now id task w.tasks,
        w.results ++ (result_of r (env.new_uuid w.drawn) agent_id id task ∷ []),
      ) =
        ap tables same
        ∙ done
        ∙ ap
            (λ u. (
              marked r now id task u.tasks,
              u.results ++ (result_of r (env.new_uuid u.drawn) agent_id id task ∷ []),
            ))
            moved in
      let (row, others) = marked-row now r id task w.tasks found in
      record {
        agent_id = agent_id;
        id = id;
        task = task;
        result = result_of r (env.new_uuid w.drawn) agent_id id task;
        status = persisted_status task r.status;
        named_agent = refl;
        named_task = refl;
        stored_task = found;
        records = result_of-Records r (env.new_uuid w.drawn) agent_id id task;
        settled = persisted_status-Settled task r.status;
        results = ap (λ p. p.1) final;
        row = ap (λ p. get_task_by_id id p.0) final ∙ row;
        others = λ j other. ap (λ p. get_task_by_id j p.0) final ∙ others j other;
      }

  -- A request that is answered with success names an agent and a stored task by their identifiers. It
  -- has added one result to the table, with the agent, the task, the status, the exit code, the output
  -- and the duration of the request, and with the destination of the task if the task fetched a file
  -- with success; and it has given the row of the task the time and a status: pending for a recurring
  -- task, and otherwise completed, timed out or failed as the request says. The other rows of tasks and
  -- the other results are as they were.
  pub submit_task_result-success :
      (now : Time) (r : Submission) (w : World)
      → (submit_task_result env engine router now r w).0.success ≡ true
      → Processed now r w
          (env.format.parse r.agent_id)
          (env.format.parse r.task_id)
          (submit_task_result env engine router now r w).1
  unfolding submit_task_result
  submit_task_result-success now r w h =
      parsed-success now r (env.format.parse r.agent_id) (env.format.parse r.task_id) w h
