-- ===== src/Web/Tasks/Loop.antt =====
-- The loop of a request for new tasks over its agents, and the steps before it that leave the tasks.
use agents_management.Prelude.{
  Option, none, some, List, [], ◌∷◌, ◌++◌, ◌≡◌, refl, sym, ◌∙◌, subst, codes, append_nil, All, Text,
  text_eq, trim, Bool-cases, Result, ok, err, inl, inr, Uuid, is_nil,
}
use mathlib.Core.List.{append_assoc}
use agents_management.Storage.Model.{
  Task, TaskType, Time, exec_command, exec_python_script, fetch_file, push_file, agent_update,
  other,
}
use agents_management.Server.World.{World}
use agents_management.Web.Site.{Site}
use agents_management.Web.TaskForm.{Schedule, schedule_of, exec_policy_of}
use agents_management.Web.Request.{Request, Reply, see_other, page, form_value}
use agents_management.Web.Handler.{Handler, continue, reply_of, or_stop, give}
use agents_management.Web.Tasks.{create_for_agent, create_for_agents}
use agents_management.Web.Handler.{IsRefusal}
use agents_management.Web.Tasks.Frame.{Ends, Ignores}
use agents_management.Web.Tasks.Created.{Granted, Added, ForEach, create_for_agent-Ends}

pub or_stop-Ignores :
    {A : Type 0} (o : Option A) (reply : Reply) → IsRefusal reply → Ignores (or_stop o reply)
or_stop-Ignores none reply h = record { ignored = λ w. (refl, h) }
or_stop-Ignores (some a) reply h = record { ignored = λ w. refl }

module _ (site : Site) where
  pub exec_policy_of-Ignores :
      (type : TaskType) (r : Request) → Ignores (exec_policy_of site type r)
  unfolding exec_policy_of
  exec_policy_of-Ignores exec_command r =
      elim (Bool-cases (is_nil (trim (form_value r (codes "exec_policy_id"))))) [
        | inl e ↦ rw e (record { ignored = λ w. refl })
        | inr e ↦ rw e (or_stop-Ignores _ (page (codes "invalid exec policy ID")) tt)
      ]
  exec_policy_of-Ignores exec_python_script r = record { ignored = λ w. refl }
  exec_policy_of-Ignores fetch_file r = record { ignored = λ w. refl }
  exec_policy_of-Ignores push_file r = record { ignored = λ w. refl }
  exec_policy_of-Ignores agent_update r = record { ignored = λ w. refl }
  exec_policy_of-Ignores (other name) r = record { ignored = λ w. refl }

  pub schedule_of-Ignores : (r : Request) → Ignores (schedule_of site r)
  unfolding schedule_of
  schedule_of-Ignores r =
      let type = form_value r (codes "schedule_type") in
      elim (Bool-cases (text_eq type (codes "ONCE"))) [
        | inl e ↦ rw e (or_stop-Ignores _ (page (codes "invalid scheduled_at time format")) tt)
        | inr e ↦ rw e (elim (Bool-cases (text_eq type (codes "RECURRING"))) [
          | inl f ↦ rw f (elim (Bool-cases (is_nil (form_value r (codes "cron_expression")))) [
            | inl g ↦ rw g (record { ignored = λ w. (refl, tt) })
            | inr g ↦ rw g (record { ignored = λ w. refl })
          ])
          | inr f ↦ rw f (elim (Bool-cases (text_eq type (codes "CHAINED"))) [
            | inl g ↦ rw g (or_stop-Ignores _ (page (codes "invalid prerequisite task ID")) tt)
            | inr g ↦ rw g (record { ignored = λ w. refl })
          ])
        ])
      ]

module _ (site : Site) (r : Request) (type : TaskType) where
  -- Granted tasks were added: one for each agent if the loop came to its end.
  abbrev pub AllAdded : {A : Type 0} → List Task → List Text → Result Reply A × World → Type 0
  AllAdded tasks texts (ok a, w) =
      (added : List Task) × (w.tasks ≡ tasks ++ added)
      × All (Granted site r type) added
      × ForEach site r type texts added
  AllAdded tasks texts (err reply, w) =
      (added : List Task) × (w.tasks ≡ tasks ++ added)
      × All (Granted site r type) added
      × IsRefusal reply

  pub AllAdded-cons :
      (t : Task) (text : Text) (tasks : List Task) (texts : List Text)
      (result : Result Reply (Unit {0})) (w : World)
      → Granted site r type t
      → site.env.format.parse text ≡ some t.agent_id
      → AllAdded (tasks ++ (t ∷ [])) texts (result, w)
      → AllAdded tasks (text ∷ texts) (result, w)
  AllAdded-cons t text tasks texts (ok x) w g p (added, grown, all, each) =
      (t ∷ added, grown ∙ append_assoc tasks (t ∷ []) added, (g, all), (p, each))
  AllAdded-cons t text tasks texts (err reply) w g p (added, grown, all, refused) =
      (t ∷ added, grown ∙ append_assoc tasks (t ∷ []) added, (g, all), refused)

  pub if_ended :
      {A B : Type 0} (f : A → Handler B) (tasks : List Task) (texts : List Text)
      (result : Result Reply A) (w : World)
      → Ends tasks (λ a w'. w'.tasks ≡ tasks) (result, w)
      → ((a : A) (w' : World) → w'.tasks ≡ tasks → AllAdded tasks texts (f a w'))
      → AllAdded tasks texts (continue f (result, w))
  if_ended f tasks texts (ok a) w h k = k a w h
  if_ended f tasks texts (err reply) w h k = ([], h.0 ∙ sym (append_nil tasks), tt, h.1)

  pub ignored_first :
      {A B : Type 0} (m : Handler A) (f : A → Handler B) (tasks : List Task) (texts : List Text)
      (w : World)
      → Ignores m
      → w.tasks ≡ tasks
      → ((a : A) (w' : World) → w'.tasks ≡ tasks → AllAdded tasks texts (f a w'))
      → AllAdded tasks texts (continue f (m w))
  ignored_first m f tasks texts w km same k =
      if_ended f tasks texts (m w).0 (m w).1
        (subst (λ ts. Ends ts (λ a w'. w'.tasks ≡ ts) (m w)) same (km.ignored w)) k

  pub Added-then :
      (rest : Handler (Unit {0})) (text : Text) (tasks : List Task) (texts : List Text)
      (result : Result Reply (Unit {0})) (w : World)
      → Ends tasks (λ x w'. Added site r type tasks (site.env.format.parse text) w') (result, w)
      → AllAdded w.tasks texts (rest w)
      → AllAdded tasks (text ∷ texts) (continue (λ x. rest) (result, w))
  Added-then rest text tasks texts (ok x) w (t, grown, g, p) all =
      AllAdded-cons t text tasks texts (rest w).0 (rest w).1 g p
        (subst (λ ts. AllAdded ts texts (rest w)) grown all)
  Added-then rest text tasks texts (err reply) w h all = ([], h.0 ∙ sym (append_nil tasks), tt, h.1)

  pub create_for_agents-AllAdded :
      (policy : Option Uuid) (schedule : Schedule) (now : Time) (texts : List Text) (w : World)
      → AllAdded w.tasks texts (create_for_agents site r type policy schedule now texts w)
  unfolding create_for_agents
  create_for_agents-AllAdded policy schedule now [] w = ([], sym (append_nil w.tasks), tt, tt)
  create_for_agents-AllAdded policy schedule now (text ∷ texts) w =
      let one = create_for_agent site r type policy schedule now text w in
      Added-then (create_for_agents site r type policy schedule now texts) text w.tasks texts one.0
        one.1 (create_for_agent-Ends site r type policy schedule now text w)
        (create_for_agents-AllAdded policy schedule now texts one.1)

  pub then_answer :
      (reply : Reply) (tasks : List Task) (texts : List Text) (result : Result Reply (Unit {0}))
      (w : World)
      → AllAdded tasks texts (result, w)
      → AllAdded tasks texts (continue (λ x. give reply) (result, w))
  then_answer reply tasks texts (ok x) w h = h
  then_answer reply tasks texts (err e) w h = h

  pub answered-AllAdded :
      (tasks : List Task) (texts : List Text) (result : Result Reply Reply) (w : World)
      → AllAdded tasks texts (result, w)
      → (added : List Task) × (w.tasks ≡ tasks ++ added)
        × All (Granted site r type) added
        × ((reply_of result ≡ see_other (codes "/tasks")) → ForEach site r type texts added)
  answered-AllAdded tasks texts (ok reply) w (added, grown, all, each) =
      (added, grown, all, λ e. each)
  answered-AllAdded tasks texts (err reply) w (added, grown, all, refused) =
      (added, grown, all, λ e. absurd (subst IsRefusal e refused))
