-- ===== src/Web/Permissions.antt =====
-- server/internal/web/handlers.go: what the principal of a request may see and do. A nil principal is
-- `none`: authentication is disabled, and everything is allowed.
pub mod Filters
use agents_management.Prelude.{
  Bool, true, false, ◌||◌, Option, none, some, List, [], ◌∷◌, ◌≡◌, refl, arith, Text, codes, select,
  if◌then◌else◌, Uuid, UuidFormat, Bool-cases, inl, inr,
}
use agents_management.Storage.Model.{
  Agent, Task, TaskType, NotificationEvent, NullString, exec_command, exec_python_script,
  fetch_file, push_file, agent_update,
}
use agents_management.Auth.{
  Principal, is_admin, can_run_task_type, has_any_agent_permission, has_agent_permission,
  has_exec_policy_permission,
}

abbrev pub is_some_name : Text → NullString
is_some_name [] = record { string = []; valid = false }
is_some_name (c ∷ s) = record { string = c ∷ s; valid = true }

unfoldable pub created_by_principal : Option Principal → NullString
created_by_principal none = record { string = []; valid = false }
created_by_principal (some p) = is_some_name p.username

-- principal == nil || test
abbrev pub allowed : (Option Principal → Bool) → Option Principal → Bool
allowed test none = true
allowed test (some p) = test (some p)

module _ (fmt : UuidFormat) where
  abbrev pub has_permission : Text → Option Principal → Uuid → Bool
  has_permission permission principal agent_id =
      allowed (λ p. has_agent_permission fmt p agent_id permission) principal

  unfoldable pub can_view_metrics : Option Principal → Uuid → Bool
  can_view_metrics = has_permission (codes "metrics_view")

  unfoldable pub can_view_tasks : Option Principal → Uuid → Bool
  can_view_tasks = has_permission (codes "task_view")

  unfoldable pub can_create_tasks : Option Principal → Uuid → Bool
  can_create_tasks = has_permission (codes "task_create")

  unfoldable pub can_create_task_type_for_agent : Option Principal → Uuid → TaskType → Bool
  can_create_task_type_for_agent principal agent_id task_type =
      if can_run_task_type principal task_type then can_create_tasks principal agent_id else false

  unfoldable pub can_reschedule_tasks : Option Principal → Uuid → Bool
  can_reschedule_tasks = has_permission (codes "task_reschedule")

  unfoldable pub can_view_notifications : Option Principal → Uuid → Bool
  can_view_notifications = has_permission (codes "notification_view")

  unfoldable pub can_toggle_agent_status : Option Principal → Uuid → Bool
  can_toggle_agent_status = has_permission (codes "status_toggle")

  unfoldable pub can_delete_agent : Option Principal → Uuid → Bool
  can_delete_agent = has_permission (codes "delete")

  -- A task that is nil, or that comes from no policy, has no details to hide.
  unfoldable pub can_view_exec_command_details : Option Principal → Option Task → Bool
  can_view_exec_command_details principal none = true
  can_view_exec_command_details principal (some task) = elim task.exec_policy_id [
    | none ↦ true
    | some policy_id ↦
        allowed (λ p. has_exec_policy_permission fmt p policy_id (codes "view")) principal
  ]

  -- The filters keep everything for an administrator and with authentication disabled.
  unfoldable pub filtered :
      {A : Type 0} → (Option Principal → A → Bool) → Option Principal → List A → List A
  filtered test none xs = xs
  filtered test (some p) xs = if is_admin (some p) then xs else select (test (some p)) xs

  unfoldable pub filter_visible_agents : Option Principal → List Agent → List Agent
  unfolding filtered
  filter_visible_agents = filtered (λ p agent. has_any_agent_permission fmt p agent.id)

  unfoldable pub filter_agents_for_task_creation : Option Principal → List Agent → List Agent
  unfolding filtered
  filter_agents_for_task_creation =
      filtered (λ p agent. has_agent_permission fmt p agent.id (codes "task_create"))

  unfoldable pub filter_tasks_for_principal : Option Principal → List Task → List Task
  unfolding filtered
  filter_tasks_for_principal =
      filtered (λ p task. has_agent_permission fmt p task.agent_id (codes "task_view"))

  unfoldable pub filter_notification_events_for_principal :
      Option Principal → List NotificationEvent → List NotificationEvent
  unfolding filtered
  filter_notification_events_for_principal =
      filtered (λ p event. has_agent_permission fmt p event.agent_id (codes "notification_view"))

  unfoldable pub available_task_types : Option Principal → List TaskType → List TaskType
  unfolding filtered
  available_task_types = filtered can_run_task_type

  -- `unmarshal` is json.Unmarshal into a task.
  can_stream : Option Principal → Option Task → Bool
  can_stream principal none = false
  can_stream principal (some task) =
      has_agent_permission fmt principal task.agent_id (codes "task_view")

  unfoldable pub can_stream_event_to_principal :
      (Text → Option Task) → Option Principal → Text → Bool
  unfolding can_stream
  can_stream_event_to_principal unmarshal none payload = true
  can_stream_event_to_principal unmarshal (some p) payload =
      if is_admin (some p) then true else can_stream (some p) (unmarshal payload)
