-- ===== src/Web/TaskTests.antt =====
-- The statements on the lists of a page and on new tasks, for one principal and a form with two agents.
use agents_management.Prelude.{
  false, Text, some, List, [], ◌∷◌, ◌++◌, ◌≡◌, refl, codes, pos, All, select,
}
use agents_management.Storage.Model.{Task, TaskStatus, exec_command, task_type_of}
use agents_management.Samples.{task_with, null_string, disk_event, unary_format}
use agents_management.Auth.{Principal, can_run_task_type, has_any_agent_permission}
use agents_management.Server.Tests.{env, world}
use agents_management.Server.StreamTests.{agent}
use agents_management.Web.Tests.{library, storage}
use agents_management.Web.Site.{Site}
use agents_management.Web.Request.{Request, see_other, form_value, form_values}
use agents_management.Web.Permissions.{
  allowed, has_permission, can_view_tasks, can_create_tasks, can_view_notifications,
  filter_visible_agents, filter_agents_for_task_creation, filter_tasks_for_principal,
  filter_notification_events_for_principal, available_task_types, can_stream_event_to_principal,
}
use agents_management.Web.Permissions.Filters.{filters-select}
use agents_management.Web.Tasks.{create_task_page}
use agents_management.Web.Tasks.Created.{Granted, ForEach}
use agents_management.Web.Tasks.Page.{create_task_page-Granted}
use agents_management.Prelude.{none, true, Uuid}
use agents_management.Storage.Model.{DeliveryStatus, NotificationDelivery}
use agents_management.Storage.Notifications.{get_notification_delivery_by_id}
use agents_management.Samples.{new_delivery}
use agents_management.Server.World.{World, stored}
use agents_management.Web.Retry.{
  is_eligible, may_retry, schedule_retry, retry_loaded, retry_notification_delivery,
}
use agents_management.Web.Retry.Due.{Retried, retry_notification_delivery-Retried}
use agents_management.Prelude.{text_eq}
use agents_management.Web.Request.{form_values}
use agents_management.Web.Reschedule.{new_schedule, store_schedule, update_task_schedule_page}
use agents_management.Web.Reschedule.Rescheduled.{
  Rescheduled, update_task_schedule_page-Rescheduled,
}

abbrev principal : Principal
principal = record {
  username = codes "ann";
  roles = codes "agent:aaaaa" ∷ codes "action.exec_command" ∷ [];
}

abbrev task : Task
task = task_with 3 TaskStatus.pending null_string

filters-select_example :
    (filter_visible_agents unary_format (some principal) (agent ∷ [])
      ≡ select
          (λ a. allowed (λ p. has_any_agent_permission unary_format p a.id) (some principal))
          (agent ∷ []))
    × ((permission : Text) (agent_id : Uuid)
        → has_permission unary_format permission (some principal) agent_id ≡ true
        → allowed (λ p. has_any_agent_permission unary_format p agent_id) (some principal) ≡ true)
    × (filter_agents_for_task_creation unary_format (some principal) (agent ∷ [])
        ≡ select (λ a. can_create_tasks unary_format (some principal) a.id) (agent ∷ []))
    × (filter_tasks_for_principal unary_format (some principal) (task ∷ [])
        ≡ select (λ t. can_view_tasks unary_format (some principal) t.agent_id) (task ∷ []))
    × (filter_notification_events_for_principal unary_format (some principal) (disk_event ∷ [])
        ≡ select
            (λ e. can_view_notifications unary_format (some principal) e.agent_id)
            (disk_event ∷ []))
    × (available_task_types unary_format (some principal) (exec_command ∷ [])
        ≡ select (can_run_task_type (some principal)) (exec_command ∷ []))
    × (can_stream_event_to_principal unary_format (λ s. some task) (some principal) []
        ≡ can_view_tasks unary_format (some principal) task.agent_id)
filters-select_example =
    filters-select unary_format (some principal) (agent ∷ []) (task ∷ []) (disk_event ∷ [])
      (exec_command ∷ []) (λ s. some task) [] task refl

abbrev site : Site
site = record {
  env = env;
  policies = some storage;
  library = library;
  atoi = λ s. pos 60;
  policy_error = λ e. codes "forbidden";
}

abbrev new_tasks : Request
new_tasks = record {
  principal = some principal;
  username = [];
  id = [];
  form =
      (codes "agent_id", codes "aaaaa" ∷ codes "aaaa" ∷ [])
      ∷ (codes "task_type", codes "EXEC_COMMAND" ∷ [])
      ∷ (codes "command", codes "df" ∷ [])
      ∷ [];
  form_error = false;
  files = (codes "a.sh", codes "x") ∷ [];
}

create_task_page-Granted_example :
    (added : List Task) × ((create_task_page site new_tasks 9 world).1.tasks ≡ world.tasks ++ added)
    × All (Granted site new_tasks (task_type_of (form_value new_tasks (codes "task_type")))) added
    × (((create_task_page site new_tasks 9 world).0 ≡ see_other (codes "/tasks"))
        → ForEach site new_tasks
            (task_type_of (form_value new_tasks (codes "task_type")))
            (form_values new_tasks.form (codes "agent_id"))
            added)
create_task_page-Granted_example = create_task_page-Granted site new_tasks 9 world

abbrev dead : World
dead = record world {
  deliveries = record new_delivery { status = DeliveryStatus.dead_letter; attempt = pos 3 } ∷ [];
}

abbrev retry : Request
retry = record new_tasks { principal = none; id = codes "aaaa" }

retry_notification_delivery-Retried_example :
    (id : Uuid) × (d : NotificationDelivery) × (unary_format.parse (codes "aaaa") ≡ some id)
    × Retried env retry 9 id d dead (retry_notification_delivery env true retry 9 dead).1
retry_notification_delivery-Retried_example =
    retry_notification_delivery-Retried env true retry 9 dead (codes "/notifications/aaaaaaaaa") (
      unfold retry_notification_delivery retry_loaded may_retry schedule_retry is_eligible stored
        get_notification_delivery_by_id in
      refl)

abbrev once : Request
once = record new_tasks {
  principal = none;
  id = codes "aaa";
  form =
      (codes "schedule_type", codes "ONCE" ∷ [])
      ∷ (codes "scheduled_at", codes "2030-01-02T03:04" ∷ [])
      ∷ [];
}

update_task_schedule_page-Rescheduled_example :
    (id : Uuid) × (unary_format.parse (codes "aaa") ≡ some id)
    × Rescheduled site once id world (update_task_schedule_page site once world).1
update_task_schedule_page-Rescheduled_example =
    update_task_schedule_page-Rescheduled site once world (codes "/task/view?id=aaa") (
      unfold update_task_schedule_page new_schedule store_schedule stored form_value form_values
        text_eq in
      refl)
