-- ===== src/Web/Reschedule.antt =====
-- updateTaskSchedule of server/internal/web/handlers.go: a new schedule for a task.
pub mod Asked
pub mod Rescheduled
use agents_management.Prelude.{true, some, ◌++◌, Text, codes, text_eq, is_nil, if◌then◌else◌, Uuid}
use agents_management.Storage.Model.{Task}
use agents_management.Storage.Tasks.{update_task_schedule}
use agents_management.Server.World.{World, M, stored}
use agents_management.Web.Site.{Site}
use agents_management.Web.Request.{Request, Reply, bad_request, server_error, see_other, form_value}
use agents_management.Web.Handler.{
  Handler, ◌>>=◌, ◌>>◌, give, stop, stop_if, or_stop, call, answered,
}
use agents_management.Web.TaskForm.{
  Schedule, no_schedule, at_time, by_cron, schedule_type_of, option_map,
}

module _ (site : Site) where
  -- The switch on the schedule's type; the text of the error of time.ParseInLocation is left out.
  unfoldable pub new_schedule : Request → Handler Schedule
  new_schedule r =
      let type = form_value r (codes "schedule_type") in
      if text_eq type (codes "ONCE")
      then or_stop
          (option_map at_time
            (site.env.parse_time (codes "2006-01-02T15:04") (form_value r (codes "scheduled_at"))))
          (bad_request (codes "Invalid scheduled_at time format: "))
      else if text_eq type (codes "RECURRING")
      then (let expression = form_value r (codes "cron_expression") in
          if is_nil expression
          then stop (bad_request (codes "Cron expression is required for recurring tasks"))
          else give (by_cron expression))
      else if text_eq type (codes "CHAINED")
      then stop (bad_request (codes "Changing prerequisite task is not supported"))
      else give no_schedule

  abbrev pub with_schedule : Uuid → Text → Schedule → World → World
  with_schedule id type s w = record w {
    tasks =
        update_task_schedule id (schedule_type_of type) s.scheduled_at s.cron_expression
          s.prerequisite_task_id w.tasks;
  }

  unfoldable pub store_schedule : Uuid → Request → Schedule → Handler Reply
  store_schedule id r s = do
    call
        (stored site.env
          (λ w. (some tt, with_schedule id (form_value r (codes "schedule_type")) s w)))
        (server_error (codes "Failed to update schedule"))
    give (see_other (codes "/task/view?id=" ++ r.id))

  unfoldable pub update_task_schedule_page : Request → M Reply
  update_task_schedule_page r = answered (do
    id ← or_stop (site.env.format.parse r.id) (bad_request (codes "Invalid Task ID"))
    stop_if r.form_error (bad_request (codes "Invalid form submission"))
    s ← new_schedule r
    store_schedule id r s)
