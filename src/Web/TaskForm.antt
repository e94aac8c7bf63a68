-- ===== src/Web/TaskForm.antt =====
-- What createTask of server/internal/web/handlers.go and exec_policies.go read of the form: the
-- schedule, the policy and the values for its parameters, and the destinations.
use agents_management.Prelude.{
  true, false, not, ◌&&◌, Option, none, some, List, [], ◌∷◌, Text, codes, text_eq, trim, is_nil,
  if◌then◌else◌, Uuid, UuidFormat,
}
use agents_management.Storage.Model.{TaskType, NullString, Null, Time, exec_command}
use agents_management.Web.Site.{Site}
use agents_management.Web.Request.{Request, page, form_value}
use agents_management.Web.Handler.{Handler, give, stop, or_stop}

unfoldable pub destinations : List Text → List Text
destinations [] = []
destinations (destination ∷ raw) =
    let trimmed = trim destination in
    let rest = destinations raw in if is_nil trimmed then rest else trimmed ∷ rest

abbrev pub no_time : Null Time
no_time = record { value = 0; valid = false }

-- The columns of the schedule.
pub record Schedule : Type 0 where
  pub scheduled_at : Null Time
  pub cron_expression : NullString
  pub prerequisite_task_id : Option Uuid

abbrev pub no_schedule : Schedule
no_schedule = record {
  scheduled_at = no_time;
  cron_expression = record { string = []; valid = false };
  prerequisite_task_id = none;
}

abbrev pub at_time : Time → Schedule
at_time t = record no_schedule { scheduled_at = record { value = t; valid = true } }

abbrev pub by_cron : Text → Schedule
by_cron expression = record no_schedule {
  cron_expression = record { string = expression; valid = true };
}

abbrev pub after_task : Uuid → Schedule
after_task id = record no_schedule { prerequisite_task_id = some id }

-- A schedule type that is no name of one sets nothing.
unfoldable pub schedule_type_of : Text → NullString
schedule_type_of type = record {
  string = type;
  valid = not (is_nil type) && not (text_eq type (codes "IMMEDIATE"));
}

abbrev pub option_map : {A B : Type 0} → (A → B) → Option A → Option B
option_map f none = none
option_map f (some a) = some (f a)

module _ (site : Site) where
  abbrev fmt : UuidFormat
  fmt = site.env.format

  -- The switch on the schedule's type.
  unfoldable pub schedule_of : Request → Handler Schedule
  schedule_of r =
      let type = form_value r (codes "schedule_type") in
      if text_eq type (codes "ONCE")
      then or_stop
          (option_map at_time
            (site.env.parse_time (codes "2006-01-02 15:04") (form_value r (codes "scheduled_at"))))
          (page (codes "invalid scheduled_at time format"))
      else if text_eq type (codes "RECURRING")
      then (let expression = form_value r (codes "cron_expression") in
          if is_nil expression
          then stop (page (codes "cron expression is required for recurring tasks"))
          else give (by_cron expression))
      else if text_eq type (codes "CHAINED")
      then or_stop (option_map after_task (fmt.parse (form_value r (codes "prerequisite_task_id"))))
          (page (codes "invalid prerequisite task ID"))
      else give no_schedule

  -- The policy that a command names.
  unfoldable pub exec_policy_of : TaskType → Request → Handler (Option Uuid)
  exec_policy_of exec_command r =
      let value = trim (form_value r (codes "exec_policy_id")) in
      if is_nil value
      then give none
      else or_stop (option_map some (fmt.parse value)) (page (codes "invalid exec policy ID"))
  exec_policy_of _ r = give none
