-- ===== src/Web/Retry.antt =====
-- retryNotificationDelivery of server/internal/web/handlers.go: a delivery that ended is given another
-- attempt by hand.
pub mod Answers
pub mod Due
use agents_management.Prelude.{
  Bool, true, false, not, Option, none, some, ◌++◌, Text, codes, if◌then◌else◌, Uuid, ℤ, pos, ◌<=◌,
  int32_suc, ok, err,
}
use agents_management.Storage.Model.{NotificationDelivery, NotificationEvent, DeliveryStatus, Time}
use agents_management.Storage.Notifications.{
  get_notification_delivery_by_id, get_notification_event_by_id,
  schedule_notification_delivery_retry,
}
use agents_management.Auth.{Principal}
use agents_management.Server.World.{Env, World, M, stored}
use agents_management.Web.Permissions.{can_view_notifications}
use agents_management.Web.Request.{
  Request, bad_request, forbidden, not_found, server_error, not_implemented, see_other, Reply,
}
use agents_management.Web.Handler.{Handler, ◌>>=◌, ◌>>◌, give, stop_if, or_stop, call, answered}

unfoldable pub is_eligible : DeliveryStatus → Bool
is_eligible DeliveryStatus.dead_letter = true
is_eligible DeliveryStatus.failed = true
is_eligible DeliveryStatus.cancelled = true
is_eligible _ = false

unfoldable pub max_attempts_after : NotificationDelivery → ℤ
max_attempts_after d = if d.max_attempts <= d.attempt then int32_suc d.attempt else d.max_attempts

module _ (env : Env) where
  -- With authentication the event is read, and the principal must be allowed to see it.
  unfoldable pub may_retry : Option Principal → NotificationDelivery → Handler (Unit {0})
  may_retry none d = give tt
  may_retry (some p) d = do
    event ←
        call (stored env (λ w. (get_notification_event_by_id d.notification_event_id w.events, w)))
          (not_found (codes "Notification event not found"))
    stop_if (not (can_view_notifications env.format (some p) event.agent_id))
        (forbidden (codes "Forbidden"))

  unfoldable pub schedule_retry : NotificationDelivery → Time → Handler Reply
  schedule_retry d now = do
    call
        (stored env (λ w. (
          some tt,
          record w {
            deliveries =
                schedule_notification_delivery_retry d.id (max_attempts_after d) (pos now)
                  w.deliveries;
          },
        )))
        (server_error (codes "Failed to schedule retry"))
    give (see_other (codes "/notifications/" ++ env.format.string d.notification_event_id))

  unfoldable pub retry_loaded : Request → Time → NotificationDelivery → Handler Reply
  retry_loaded r now d = do
    stop_if (not (is_eligible d.status))
        (bad_request (codes "Notification delivery is not eligible for manual retry"))
    may_retry r.principal d
    schedule_retry d now

  -- `configured`: there is a repository of notifications.
  unfoldable pub retry_notification_delivery : Bool → Request → Time → M Reply
  retry_notification_delivery configured r now = answered (do
    stop_if (not configured) (not_implemented (codes "Notification storage is not configured"))
    id ← or_stop (env.format.parse r.id) (bad_request (codes "Invalid notification delivery ID"))
    d ←
        call (stored env (λ w. (get_notification_delivery_by_id id w.deliveries, w)))
          (not_found (codes "Notification delivery not found"))
    retry_loaded r now d)
