-- ===== src/Server/Results/Refused.antt =====
-- What a request that was answered with failure has done.
use agents_management.Prelude.{
  ℕ, suc, true, false, some, List, [], ◌∷◌, ◌++◌, ◌≡◌, refl, ◌⊎◌, inl, inr, Uuid, Bool-cases,
  Option-cases, codes,
}
use agents_management.Storage.Model.{Task, TaskResult, Time}
use agents_management.Storage.Tasks.{get_task_by_id}
use agents_management.Notify.Policy.{Policy}
use agents_management.Notify.Router.{Route}
use agents_management.Server.World.{Env, World, stored, draw}
use agents_management.Server.Calls.{get_task}
use agents_management.Server.Results.{
  Submission, Response, result_of, after_mark, mark, after_create_result, create_result,
  submit_loaded, submit_parsed, submit_task_result,
}
use agents_management.Server.Results.Settled.{Records, result_of-Records}

-- Nothing but the table of results may differ.
pub record IsUntouched (w after : World) : Type 0 where
  pub tasks : after.tasks ≡ w.tasks
  pub events : after.events ≡ w.events
  pub deliveries : after.deliveries ≡ w.deliveries
  pub queue : after.queue ≡ w.queue
  pub published : after.published ≡ w.published
  pub jobs : after.jobs ≡ w.jobs

same :
    {w : World} {calls drawn : ℕ} {results : List TaskResult}
    → IsUntouched w (record w { calls = calls; drawn = drawn; results = results })
same = record {
  tasks = refl;
  events = refl;
  deliveries = refl;
  queue = refl;
  published = refl;
  jobs = refl;
}

not_true : {P : Type 0} → true ≡ false → P
not_true h = cc

module _ (env : Env) (engine : Policy) (router : List Route) where
  -- The table of results is as it was, or it has the result of the request although the row of the
  -- task could not be updated.
  abbrev pub Leaves : Submission → World → Response → List TaskResult → Type 0
  Leaves r w response results =
      (results ≡ w.results)
      ⊎ ((agent_id : Uuid) × (id : Uuid) × (task : Task) × (result : TaskResult) × (env.format.parse
              r.agent_id
            ≡ some agent_id)
          × (env.format.parse r.task_id ≡ some id)
          × (get_task_by_id id w.tasks ≡ some task)
          × Records r agent_id id task result
          × (results ≡ w.results ++ (result ∷ []))
          × (response.message ≡ codes "Failed to update final task status"))

  -- A request that is answered with failure has changed no task, no event, no delivery and not the
  -- queue, has published nothing and started nothing. The results are as they were; or, if the update of
  -- the task failed, one of this request for this task was added.
  pub submit_task_result-failure :
      (now : Time) (r : Submission) (w : World)
      → (submit_task_result env engine router now r w).0.success ≡ false
      → IsUntouched w (submit_task_result env engine router now r w).1
        × Leaves r w
            (submit_task_result env engine router now r w).0
            (submit_task_result env engine router now r w).1.results
  unfolding submit_task_result submit_parsed submit_loaded get_task stored draw create_result
      after_create_result mark after_mark
  submit_task_result-failure now r w = elim (Option-cases (env.format.parse r.agent_id)) [
    | inl a ↦ rw a (λ h. (same, inl refl))
    | inr (agent_id, a) ↦ rw a (elim (Option-cases (env.format.parse r.task_id)) [
      | inl p ↦ rw p (λ h. (same, inl refl))
      | inr (id, p) ↦ rw p (elim (Bool-cases (env.fails w.calls)) [
        | inl e ↦ rw e (λ h. (same, inl refl))
        | inr e ↦ rw e (elim (Option-cases (get_task_by_id id w.tasks)) [
          | inl n ↦ rw n (λ h. (same, inl refl))
          | inr (task, found) ↦ rw found (elim (Bool-cases (env.fails (suc w.calls))) [
            | inl f ↦ rw f (λ h. (same, inl refl))
            | inr f ↦ rw f (elim (Bool-cases (env.fails (suc (suc w.calls)))) [
              | inr g ↦ rw g (λ h. not_true h)
              | inl g ↦
                  let result = result_of r (env.new_uuid w.drawn) agent_id id task in
                  rw g (λ h. (
                    same {calls = suc (suc (suc w.calls))} {drawn = suc w.drawn}
                        {results = w.results ++ (result ∷ [])},
                    inr (
                      agent_id,
                      id,
                      task,
                      result,
                      refl,
                      refl,
                      found,
                      result_of-Records r (env.new_uuid w.drawn) agent_id id task,
                      refl {a = w.results ++ (result ∷ [])},
                      refl {a = codes "Failed to update final task status"},
                    ),
                  ))
            ])
          ])
        ])
      ])
    ])
  ]
