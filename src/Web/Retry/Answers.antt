-- ===== src/Web/Retry/Answers.antt =====
-- What the parts of retryNotificationDelivery, server/internal/web/handlers.go, answer and store.
use agents_management.Prelude.{
  suc, true, Option, none, some, pos, ◌≡◌, refl, ◌∙◌, ap, Bool-cases, Option-cases, inl, inr,
}
use agents_management.Storage.Model.{NotificationDelivery, NotificationEvent, Time}
use agents_management.Storage.Notifications.{
  get_notification_event_by_id, schedule_notification_delivery_retry,
}
use agents_management.Auth.{Principal}
use agents_management.Server.World.{Env, World, stored}
use agents_management.Web.Permissions.{can_view_notifications}
use agents_management.Web.Request.{Request}
use agents_management.Web.Retry.{
  is_eligible, max_attempts_after, may_retry, schedule_retry, retry_loaded,
}
use agents_management.Web.Answers.{Answers, Answers-continue, Answers-implied}

module _ (env : Env) where
  -- The principal may see the event of the delivery, if there is a principal.
  abbrev pub MayRetry : Option Principal → NotificationDelivery → World → Type 0
  MayRetry none d w = Unit
  MayRetry (some p) d w =
      (event : NotificationEvent) × (get_notification_event_by_id d.notification_event_id w.events
        ≡ some event)
      × (can_view_notifications env.format (some p) event.agent_id ≡ true)

  pub MayRetry-counted :
      (principal : Option Principal) (d : NotificationDelivery) (w : World)
      → MayRetry principal d (record w { calls = suc w.calls })
      → MayRetry principal d w
  MayRetry-counted none d w may = may
  MayRetry-counted (some p) d w may = may

  may_retry-Answers :
      (principal : Option Principal) (d : NotificationDelivery) (w : World)
      → Answers
          (λ x w'. (w'.deliveries ≡ w.deliveries) × MayRetry principal d w)
          (may_retry env principal d w)
  unfolding may_retry stored
  may_retry-Answers none d w = (refl, tt)
  may_retry-Answers (some p) d w = elim (Bool-cases (env.fails w.calls)) [
    | inl e ↦ rw e tt
    | inr e ↦
        rw e (elim (Option-cases (get_notification_event_by_id d.notification_event_id w.events)) [
          | inl n ↦ rw n tt
          | inr (event, found) ↦
              rw found
                (elim (Bool-cases (can_view_notifications env.format (some p) event.agent_id)) [
                  | inl may ↦ rw may (refl, (event, refl, may))
                  | inr no_view ↦ rw no_view tt
                ])
        ])
  ]

  schedule_retry-Answers :
      (d : NotificationDelivery) (now : Time) (w : World)
      → Answers
          (λ reply w'.
            w'.deliveries
            ≡ schedule_notification_delivery_retry d.id
                (max_attempts_after d)
                (pos now)
                w.deliveries)
          (schedule_retry env d now w)
  unfolding schedule_retry stored
  schedule_retry-Answers d now w = elim (Bool-cases (env.fails w.calls)) [
    | inl e ↦ rw e tt
    | inr e ↦ rw e refl
  ]

  -- The delivery was eligible, the principal may retry it, and it was scheduled.
  pub record Scheduled (r : Request) (now : Time) (d : NotificationDelivery) (w w' : World)
      : Type 0 where
    pub eligible : is_eligible d.status ≡ true
    pub may : MayRetry r.principal d w
    pub rows :
        w'.deliveries
        ≡ schedule_notification_delivery_retry d.id (max_attempts_after d) (pos now) w.deliveries

  pub retry_loaded-Answers :
      (r : Request) (now : Time) (d : NotificationDelivery) (w : World)
      → Answers (λ reply w'. Scheduled r now d w w') (retry_loaded env r now d w)
  unfolding retry_loaded
  retry_loaded-Answers r now d w = elim (Bool-cases (is_eligible d.status)) [
    | inr e ↦ rw e tt
    | inl e ↦
        let asked = may_retry env r.principal d w in
        rw e (
          Answers-continue (λ x w'. (w'.deliveries ≡ w.deliveries) × MayRetry r.principal d w)
            (λ reply w'. Scheduled r now d w w') (λ x. schedule_retry env d now) asked.0 asked.1
            (may_retry-Answers r.principal d w)
            (λ x (same, may).
              let stored = schedule_retry env d now asked.1 in
              Answers-implied _ _ stored.0 stored.1 (schedule_retry-Answers d now asked.1)
                (λ reply rows. record {
                  eligible = e;
                  may = may;
                  rows =
                      rows
                      ∙ ap
                          (schedule_notification_delivery_retry d.id (max_attempts_after d)
                            (pos now))
                          same;
                })))
  ]
