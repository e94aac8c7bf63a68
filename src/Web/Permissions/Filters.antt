-- ===== src/Web/Permissions/Filters.antt =====
-- The lists that a page shows against the permissions that the other pages ask for.
use agents_management.Prelude.{
  Bool, true, Option, none, some, List, [], ◌∷◌, ◌≡◌, refl, sym, ◌∙◌, arith, Text, codes, select,
  Uuid, UuidFormat, Bool-cases, inl, inr, ap,
}
use agents_management.Storage.Model.{Agent, Task, TaskType, NotificationEvent}
use agents_management.Auth.{
  Principal, is_admin, can_run_task_type, has_any_agent_permission, has_agent_permission,
}
use agents_management.Auth.Agents.{has_any_agent_permission-has_agent_permission}
use agents_management.Web.Permissions.{
  allowed, filtered, has_permission, can_view_tasks, can_create_tasks, can_view_notifications,
  filter_visible_agents, filter_agents_for_task_creation, filter_tasks_for_principal,
  filter_notification_events_for_principal, available_task_types, can_stream_event_to_principal,
  can_stream,
}

select-all : {A : Type 0} (p : A → Bool) (xs : List A) → ((x : A) → p x ≡ true) → select p xs ≡ xs
unfolding select
select-all p [] h = refl
select-all p (x ∷ xs) h = ground (arith, h x, select-all p xs h)

admin_runs :
    (p : Principal) (t : TaskType) → is_admin (some p) ≡ true → can_run_task_type (some p) t ≡ true
unfolding can_run_task_type
admin_runs p t h = rw h refl

allowed-can_run :
    (principal : Option Principal)
    → (λ t. allowed (λ p. can_run_task_type p t) principal) ≡ can_run_task_type principal
unfolding can_run_task_type
allowed-can_run none = refl
allowed-can_run (some p) = refl

module _ (fmt : UuidFormat) where
  filtered-select :
      {A : Type 0} (test : Option Principal → A → Bool) (principal : Option Principal) (xs : List A)
      → ((p : Principal) (x : A) → is_admin (some p) ≡ true → test (some p) x ≡ true)
      → filtered fmt test principal xs ≡ select (λ x. allowed (λ p. test p x) principal) xs
  unfolding filtered
  filtered-select test none xs h = sym (select-all (λ x. true) xs (λ x. refl))
  filtered-select test (some p) xs h = elim (Bool-cases (is_admin (some p))) [
    | inl e ↦ rw e (sym (select-all (test (some p)) xs (λ x. h p x e)))
    | inr e ↦ rw e refl
  ]

  admin_may :
      (p : Principal) (agent_id : Uuid) (permission : Text)
      → is_admin (some p) ≡ true
      → has_agent_permission fmt (some p) agent_id permission ≡ true
  unfolding has_agent_permission
  admin_may p agent_id permission h = rw h refl

  admin_sees :
      (p : Principal) (agent_id : Uuid)
      → is_admin (some p) ≡ true
      → has_any_agent_permission fmt (some p) agent_id ≡ true
  unfolding has_any_agent_permission
  admin_sees p agent_id h = rw h refl

  stream :
      (principal : Option Principal) (unmarshal : Text → Option Task) (payload : Text) (task : Task)
      → unmarshal payload ≡ some task
      → can_stream_event_to_principal fmt unmarshal principal payload
        ≡ can_view_tasks fmt principal task.agent_id
  unfolding can_stream_event_to_principal can_stream can_view_tasks
  stream none unmarshal payload task h = refl
  stream (some p) unmarshal payload task h = elim (Bool-cases (is_admin (some p))) [
    | inl e ↦ rw e (sym (admin_may p task.agent_id (codes "task_view") e))
    | inr e ↦ rw (e, h) refl
  ]

  permitted-any :
      (principal : Option Principal) (permission : Text) (agent_id : Uuid)
      → has_permission fmt permission principal agent_id ≡ true
      → allowed (λ p. has_any_agent_permission fmt p agent_id) principal ≡ true
  permitted-any none permission agent_id h = refl
  permitted-any (some p) permission agent_id h =
      has_any_agent_permission-has_agent_permission fmt (some p) agent_id permission h

  -- Every list keeps its order. With authentication, the agents that are shown are those on which the
  -- principal has any permission, and whoever has one permission on an agent has any. The agents for new
  -- tasks are those that it may create tasks for; the tasks and the events are those that it may view, by
  -- the permission that their own pages ask for; the types are those that it may run. A task is streamed
  -- exactly if the principal may view it. Without authentication nothing is left out.
  pub filters-select :
      (principal : Option Principal) (agents : List Agent) (tasks : List Task)
      (events : List NotificationEvent) (types : List TaskType) (unmarshal : Text → Option Task)
      (payload : Text) (task : Task)
      → unmarshal payload ≡ some task
      → (filter_visible_agents fmt principal agents
          ≡ select (λ a. allowed (λ p. has_any_agent_permission fmt p a.id) principal) agents)
        × ((permission : Text) (agent_id : Uuid)
            → has_permission fmt permission principal agent_id ≡ true
            → allowed (λ p. has_any_agent_permission fmt p agent_id) principal ≡ true)
        × (filter_agents_for_task_creation fmt principal agents
            ≡ select (λ a. can_create_tasks fmt principal a.id) agents)
        × (filter_tasks_for_principal fmt principal tasks
            ≡ select (λ t. can_view_tasks fmt principal t.agent_id) tasks)
        × (filter_notification_events_for_principal fmt principal events
            ≡ select (λ e. can_view_notifications fmt principal e.agent_id) events)
        × (available_task_types fmt principal types ≡ select (can_run_task_type principal) types)
        × (can_stream_event_to_principal fmt unmarshal principal payload
            ≡ can_view_tasks fmt principal task.agent_id)
  unfolding filter_visible_agents filtered filter_agents_for_task_creation can_create_tasks
      filter_tasks_for_principal can_view_tasks filter_notification_events_for_principal
      can_view_notifications available_task_types
  filters-select principal agents tasks events types unmarshal payload task decoded =
      let may = λ (permission : Text) (agent_id : Uuid) (p : Option Principal).
        has_agent_permission fmt p agent_id permission in
      (
        filtered-select (λ p a. has_any_agent_permission fmt p a.id) principal agents
            (λ p a. admin_sees p a.id),
        λ permission agent_id. permitted-any principal permission agent_id,
        filtered-select (λ p a. may (codes "task_create") a.id p) principal agents
            (λ p a. admin_may p a.id (codes "task_create")),
        filtered-select (λ p t. may (codes "task_view") t.agent_id p) principal tasks
            (λ p t. admin_may p t.agent_id (codes "task_view")),
        filtered-select (λ p e. may (codes "notification_view") e.agent_id p) principal events
            (λ p e. admin_may p e.agent_id (codes "notification_view")),
        filtered-select can_run_task_type principal types admin_runs
            ∙ ap (λ test. select test types) (allowed-can_run principal),
        stream principal unmarshal payload task decoded,
      )
