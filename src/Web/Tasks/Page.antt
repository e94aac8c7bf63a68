-- ===== src/Web/Tasks/Page.antt =====
-- A whole request for new tasks: the checks, the loop over the agents and the answer.
use agents_management.Prelude.{
  Bool, not, Option, List, ◌++◌, ◌≡◌, refl, subst, codes, All, Text, Uuid, is_nil,
}
use agents_management.Storage.Model.{Task, TaskType, Time, task_type_of}
use agents_management.Auth.{can_run_task_type}
use agents_management.Server.World.{World}
use agents_management.Web.Site.{Site}
use agents_management.Web.TaskForm.{Schedule, schedule_of, exec_policy_of}
use agents_management.Web.Request.{
  Request, Reply, see_other, page, forbidden, bad_request, form_value, form_values,
}
use agents_management.Web.Handler.{Handler, ◌>>=◌, ◌>>◌, stop_if, give}
use agents_management.Web.Tasks.{create_for_agents, create_task_page}
use agents_management.Web.Handler.{IsRefusal}
use agents_management.Web.Tasks.Frame.{Ignores, stop_if-Ignores}
use agents_management.Web.Tasks.Created.{Granted, ForEach}
use agents_management.Web.Tasks.Loop.{
  exec_policy_of-Ignores, schedule_of-Ignores, AllAdded, ignored_first, create_for_agents-AllAdded,
  then_answer, answered-AllAdded,
}

-- createTask without its answer
abbrev checks : Site → Request → TaskType → Time → List Text → Handler Reply
checks site r type now texts = do
  stop_if r.form_error (bad_request (codes "Invalid form submission"))
  stop_if (is_nil texts) (page (codes "at least one agent ID is required"))
  stop_if (is_nil (form_value r (codes "task_type"))) (page (codes "task type is required"))
  stop_if (not (can_run_task_type r.principal type)) (forbidden (codes "Forbidden"))
  policy ← exec_policy_of site type r
  schedule ← schedule_of site r
  create_for_agents site r type policy schedule now texts
  give (see_other (codes "/tasks"))

-- The step answers for these agents, from whatever state with these tasks.
record Adds {A : Type 0} (site : Site) (r : Request) (type : TaskType) (tasks : List Task)
    (texts : List Text) (m : Handler A) : Type 0 where
  pub adds : (w : World) → w.tasks ≡ tasks → AllAdded site r type tasks texts (m w)

module _ (site : Site) (r : Request) (type : TaskType) (tasks : List Task) (texts : List Text) where
  Adds-bind :
      {A B : Type 0} (m : Handler A) (f : A → Handler B)
      → Ignores m
      → ((a : A) → Adds site r type tasks texts (f a))
      → Adds site r type tasks texts (m >>= f)
  Adds-bind m f km kf = record {
    adds = λ w same. ignored_first site r type m f tasks texts w km same (λ a. (kf a).adds);
  }

  Adds-stop_if :
      (b : Bool) (reply : Reply) (m : Handler Reply)
      → IsRefusal reply
      → Adds site r type tasks texts m
      → Adds site r type tasks texts (stop_if b reply >> m)
  Adds-stop_if b reply m h k =
      Adds-bind (stop_if b reply) (λ x. m) (stop_if-Ignores b reply h) (λ x. k)

  loop-Adds :
      (policy : Option Uuid) (schedule : Schedule) (now : Time) (reply : Reply)
      → Adds site r type tasks texts
          (create_for_agents site r type policy schedule now texts >> give reply)
  loop-Adds policy schedule now reply = record {
    adds = λ w same.
        let looped = create_for_agents site r type policy schedule now texts w in
        then_answer site r type reply tasks texts looped.0 looped.1 (
          subst (λ ts. AllAdded site r type ts texts looped) same
            (create_for_agents-AllAdded site r type policy schedule now texts w));
  }

  checks-Adds : (now : Time) → Adds site r type tasks texts (checks site r type now texts)
  checks-Adds now =
      let redirect = see_other (codes "/tasks") in
      let loop = λ (policy : Option Uuid) (schedule : Schedule).
        create_for_agents site r type policy schedule now texts >> give redirect in
      let planned = λ (policy : Option Uuid). schedule_of site r >>= loop policy in
      let chosen = exec_policy_of site type r >>= planned in
      let run =
        stop_if (not (can_run_task_type r.principal type)) (forbidden (codes "Forbidden"))
        >> chosen in
      let typed =
        stop_if (is_nil (form_value r (codes "task_type"))) (page (codes "task type is required"))
        >> run in
      let named =
        stop_if (is_nil texts) (page (codes "at least one agent ID is required")) >> typed in
      Adds-stop_if r.form_error _ named tt (
        Adds-stop_if (is_nil texts) _ typed tt (
          Adds-stop_if (is_nil (form_value r (codes "task_type"))) _ run tt (
            Adds-stop_if (not (can_run_task_type r.principal type)) _ chosen tt (
              Adds-bind (exec_policy_of site type r) planned (exec_policy_of-Ignores site type r)
                (λ policy.
                  Adds-bind (schedule_of site r) (loop policy) (schedule_of-Ignores site r)
                    (λ schedule. loop-Adds policy schedule now redirect))))))

-- The tasks stay, and behind them stand new ones: each is pending, of the type of the form, for an agent
-- for which the principal of the request may create tasks of that type, and names its creator. If the
-- answer is the list of tasks there is one for each agent of the form, in order.
pub create_task_page-Granted :
    (site : Site) (r : Request) (now : Time) (w : World)
    → let type = task_type_of (form_value r (codes "task_type")) in
      let done = create_task_page site r now w in
      (added : List Task) × (done.1.tasks ≡ w.tasks ++ added)
      × All (Granted site r type) added
      × ((done.0 ≡ see_other (codes "/tasks"))
          → ForEach site r type (form_values r.form (codes "agent_id")) added)
unfolding create_task_page
create_task_page-Granted site r now w =
    let type = task_type_of (form_value r (codes "task_type")) in
    let texts = form_values r.form (codes "agent_id") in
    let checked = checks site r type now texts in
    answered-AllAdded site r type w.tasks texts (checked w).0 (checked w).1
      ((checks-Adds site r type w.tasks texts now).adds w refl)
