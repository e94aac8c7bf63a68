-- ===== src/Web/Reschedule/Asked.antt =====
-- The schedule that the form of updateTaskSchedule, server/internal/web/handlers.go, asks for.
use agents_management.Prelude.{
  Bool, true, false, ◌||◌, none, some, Text, codes, text_eq, is_nil, ◌≡◌, refl, arith, Bool-cases,
  Option-cases, inl, inr,
}
use agents_management.Storage.Model.{Time}
use agents_management.Server.World.{World}
use agents_management.Web.Site.{Site}
use agents_management.Web.Request.{Request, form_value}
use agents_management.Web.TaskForm.{Schedule, no_schedule, at_time, by_cron}
use agents_management.Web.Answers.{Answers}
use agents_management.Web.Reschedule.{new_schedule}

abbrev pub chosen_type : Request → Text
chosen_type r = form_value r (codes "schedule_type")

abbrev pub is_timed : Text → Bool
is_timed type = text_eq type (codes "ONCE") || text_eq type (codes "RECURRING")

module _ (site : Site) where
  -- The schedule is what the form asks for.
  pub record IsAsked (r : Request) (s : Schedule) : Type 0 where
    pub once :
        text_eq (chosen_type r) (codes "ONCE") ≡ true
        → (time : Time) × (site.env.parse_time
              (codes "2006-01-02T15:04")
              (form_value r (codes "scheduled_at"))
            ≡ some time)
          × (s ≡ at_time time)
    pub recurring :
        text_eq (chosen_type r) (codes "ONCE") ≡ false
        → text_eq (chosen_type r) (codes "RECURRING") ≡ true
        → (is_nil (form_value r (codes "cron_expression")) ≡ false)
          × (s ≡ by_cron (form_value r (codes "cron_expression")))
    pub neither : is_timed (chosen_type r) ≡ false → s ≡ no_schedule
    pub unchained : s.prerequisite_task_id ≡ none

  pub new_schedule-Answers :
      (r : Request) (w : World) → Answers (λ s w'. (w' ≡ w) × IsAsked r s) (new_schedule site r w)
  unfolding new_schedule
  new_schedule-Answers r w = elim (Bool-cases (text_eq (chosen_type r) (codes "ONCE"))) [
    | inl e ↦
        rw e
          (elim (Option-cases (
            site.env.parse_time (codes "2006-01-02T15:04") (form_value r (codes "scheduled_at")))) [
              | inl n ↦ rw n tt
              | inr (time, p) ↦ rw p (
                refl,
                record {
                  once = λ _. (time, p, refl);
                  recurring = λ f. cc;
                  neither = λ f. ground arith;
                  unchained = refl;
                },
              )
            ])
    | inr e ↦ rw e (elim (Bool-cases (text_eq (chosen_type r) (codes "RECURRING"))) [
      | inl f ↦ rw f (elim (Bool-cases (is_nil (form_value r (codes "cron_expression")))) [
        | inl g ↦ rw g tt
        | inr g ↦ rw g (
          refl,
          record {
            once = λ h. cc;
            recurring = λ h k. (g, refl);
            neither = λ h. ground arith;
            unchained = refl;
          },
        )
      ])
      | inr f ↦ rw f (elim (Bool-cases (text_eq (chosen_type r) (codes "CHAINED"))) [
        | inl g ↦ rw g tt
        | inr g ↦ rw g (
          refl,
          record { once = λ h. cc; recurring = λ h k. cc; neither = λ h. refl; unchained = refl },
        )
      ])
    ])
  ]
