-- ===== src/Web/Reschedule/Rescheduled.antt =====
-- What a new schedule leaves of the tasks.
use agents_management.Prelude.{
  false, ◌&&◌, none, some, Text, codes, text_eq, text_eq_iff, Uuid, ◌==◌, ==_iff, ◌≡◌, refl, ◌∙◌,
  ap, arith, Bool-cases, Option-cases, inl, inr,
}
use agents_management.Storage.Model.{Task}
use agents_management.Storage.Tasks.{
  get_task_by_id, update_task_schedule, is_scheduled, is_pending, has_id,
}
use agents_management.Storage.Tasks.Update.{get_task_by_id-update_where, id-get_task_by_id}
use agents_management.Server.World.{World, stored}
use agents_management.Web.Site.{Site}
use agents_management.Web.Request.{Request, bad_request, see_other}
use agents_management.Web.Handler.{◌>>=◌, ◌>>◌, stop_if}
use agents_management.Web.TaskForm.{Schedule, schedule_type_of}
use agents_management.Web.Answers.{
  Answers, Answers-continue, Answers-implied, refused, redirected, unless_wrong,
}
use agents_management.Web.Reschedule.{new_schedule, store_schedule, update_task_schedule_page}
use agents_management.Web.Reschedule.Asked.{chosen_type, is_timed, IsAsked, new_schedule-Answers}

abbrev rescheduled : Text → Schedule → Task → Task
rescheduled type s t = record t {
  schedule_type = schedule_type_of type;
  scheduled_at = s.scheduled_at;
  cron_expression = s.cron_expression;
  prerequisite_task_id = s.prerequisite_task_id;
}

rescheduled-is_scheduled :
    (type : Text) (s : Schedule) (t : Task)
    → is_scheduled (rescheduled type s t) ≡ (is_timed type && is_pending t)
unfolding schedule_type_of text_eq
rescheduled-is_scheduled type s t = elim (Bool-cases (text_eq type (codes "ONCE"))) [
  | inl e ↦ rw ((text_eq_iff type (codes "ONCE")).0 e) refl
  | inr e ↦ elim (Bool-cases (text_eq type (codes "RECURRING"))) [
    | inl f ↦ rw ((text_eq_iff type (codes "RECURRING")).0 f) refl
    | inr f ↦ rw (e, f) ground arith
  ]
]

module _ (site : Site) where
  -- The tasks after the new schedule of task `id`.
  pub record Rescheduled (r : Request) (id : Uuid) (w w' : World) : Type 0 where
    pub schedule : Schedule
    pub asked : IsAsked site r schedule
    pub task :
        (t : Task)
        → get_task_by_id id w.tasks ≡ some t
        → (t' : Task) × (get_task_by_id id w'.tasks ≡ some t')
          × (t' ≡ record t {
            schedule_type = schedule_type_of (chosen_type r);
            scheduled_at = schedule.scheduled_at;
            cron_expression = schedule.cron_expression;
            prerequisite_task_id = none;
          })
          × (is_scheduled t' ≡ (is_timed (chosen_type r) && is_pending t))
    pub others :
        (j : Uuid) → (j == id) ≡ false → get_task_by_id j w'.tasks ≡ get_task_by_id j w.tasks

  stored-Rescheduled :
      (r : Request) (id : Uuid) (s : Schedule) (w w' : World)
      → IsAsked site r s
      → w'.tasks
        ≡ update_task_schedule id
            (schedule_type_of (chosen_type r))
            s.scheduled_at
            s.cron_expression
            s.prerequisite_task_id
            w.tasks
      → Rescheduled r id w w'
  unfolding update_task_schedule
  stored-Rescheduled r id s w w' asked rows =
      let change = rescheduled (chosen_type r) s in
      let look = λ (j : Uuid).
        ap (get_task_by_id j) rows
        ∙ get_task_by_id-update_where j (has_id id) change w.tasks (λ t. refl) in
      record {
        schedule = s;
        asked = asked;
        task = λ t found. (
          change t,
          look id ∙ rw (found, (==_iff t.id id).1 (id-get_task_by_id id w.tasks t found)) refl,
          ap
              (λ p. record t {
                schedule_type = schedule_type_of (chosen_type r);
                scheduled_at = s.scheduled_at;
                cron_expression = s.cron_expression;
                prerequisite_task_id = p;
              })
              asked.unchained,
          rescheduled-is_scheduled (chosen_type r) s t,
        );
        others = λ j differs. look j ∙ elim (Option-cases (get_task_by_id j w.tasks)) [
          | inl n ↦ rw n refl
          | inr (t, found) ↦
              rw (found, ap (λ k. k == id) (id-get_task_by_id j w.tasks t found) ∙ differs) refl
        ];
      }

  store_schedule-Answers :
      (id : Uuid) (r : Request) (s : Schedule) (w : World)
      → Answers
          (λ reply w'.
            w'.tasks
            ≡ update_task_schedule id
                (schedule_type_of (chosen_type r))
                s.scheduled_at
                s.cron_expression
                s.prerequisite_task_id
                w.tasks)
          (store_schedule site id r s w)
  unfolding store_schedule stored
  store_schedule-Answers id r s w = elim (Bool-cases (site.env.fails w.calls)) [
    | inl e ↦ rw e tt
    | inr e ↦ rw e refl
  ]

  asked_and_stored :
      (r : Request) (id : Uuid) (w : World)
      → Answers
          (λ reply w'. Rescheduled r id w w')
          ((new_schedule site r >>= store_schedule site id r) w)
  asked_and_stored r id w =
      let asked = new_schedule site r w in
      Answers-continue (λ s w'. (w' ≡ w) × IsAsked site r s) (λ reply w'. Rescheduled r id w w')
        (store_schedule site id r) asked.0 asked.1 (new_schedule-Answers site r w)
        (λ s (same, is_asked).
          let answer = store_schedule site id r s asked.1 in
          Answers-implied _ _ answer.0 answer.1 (store_schedule-Answers id r s asked.1)
            (λ reply rows. stored-Rescheduled r id s w answer.1 is_asked (
              rows
              ∙ ap
                  (λ (v : World).
                    update_task_schedule id (schedule_type_of (chosen_type r)) s.scheduled_at
                      s.cron_expression s.prerequisite_task_id v.tasks)
                  same)))

  -- A request for a new schedule that is answered with a redirection has the columns of the schedule written
  -- as the form asks for, with no prerequisite any more; the scheduler then finds the task exactly if it is
  -- pending and the form names one of the two timed types. The other tasks are as they were.
  pub update_task_schedule_page-Rescheduled :
      (r : Request) (w : World) (url : Text)
      → (update_task_schedule_page site r w).0 ≡ see_other url
      → (id : Uuid) × (site.env.format.parse r.id ≡ some id)
        × Rescheduled r id w (update_task_schedule_page site r w).1
  unfolding update_task_schedule_page
  update_task_schedule_page-Rescheduled r w url = elim (Option-cases (site.env.format.parse r.id)) [
    | inl n ↦ rw n (refused _ url tt)
    | inr (id, p) ↦ rw p (λ h.
        let done =
          (stop_if r.form_error (bad_request (codes "Invalid form submission"))
              >> (new_schedule site r >>= store_schedule site id r))
            w in
        redirected (λ reply w'. Rescheduled r id w w') done.0 done.1 url
          (unless_wrong (λ reply w'. Rescheduled r id w w') r.form_error _ _ w
            (asked_and_stored r id w))
          h (λ reply after. (id, refl, after)))
  ]
