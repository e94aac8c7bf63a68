-- ===== src/Storage/Notifications.antt =====
-- PostgresNotificationRepository of server/internal/storage/postgres.go: each method as what its SQL
-- statement does to the rows of `notification_events` and `notification_deliveries`. Rows are kept in
-- the order of their `created_at`, the time of their insertion.
use agents_management.Prelude.{
  ℕ, Bool, true, false, not, ◌&&◌, Option, none, some, List, [], ◌∷◌, Text, text_eq, leb, ◌==◌,
  select, take, if◌then◌else◌, Uuid, ℤ, pos, ◌<=◌,
}
use agents_management.Storage.Model.{
  NotificationEvent, NotificationDelivery, EventStatus, DeliveryStatus, NullString, Null, Time,
  to_null_string,
}

-- UPDATE notification_deliveries SET ... WHERE id = ...
unfoldable pub update_delivery :
    Uuid
    → (NotificationDelivery → NotificationDelivery)
    → List NotificationDelivery
    → List NotificationDelivery
update_delivery id change [] = []
update_delivery id change (d ∷ deliveries) =
    (if d.id == id then change d else d) ∷ update_delivery id change deliveries

-- The columns that UpdateNotificationDeliveryStatus sets.
pub record DeliveryUpdate : Type 0 where
  pub attempt : ℤ
  pub status : DeliveryStatus
  pub provider_message_id : NullString
  pub provider_response_json : Text
  pub error_message : NullString
  pub last_error_code : NullString
  pub sent_at : Null Time
  pub next_retry_at : Null ℤ

unfoldable pub updated_delivery : DeliveryUpdate → NotificationDelivery → NotificationDelivery
updated_delivery u d = record d {
  attempt = u.attempt;
  status = u.status;
  provider_message_id = u.provider_message_id;
  provider_response_json = u.provider_response_json;
  error_message = u.error_message;
  last_error_code = u.last_error_code;
  sent_at = u.sent_at;
  next_retry_at = u.next_retry_at;
}

unfoldable pub update_notification_delivery_status :
    Uuid → DeliveryUpdate → List NotificationDelivery → List NotificationDelivery
unfolding update_delivery updated_delivery
update_notification_delivery_status id u = update_delivery id (updated_delivery u)

unfoldable pub get_notification_delivery_by_id :
    Uuid → List NotificationDelivery → Option NotificationDelivery
get_notification_delivery_by_id id [] = none
get_notification_delivery_by_id id (d ∷ deliveries) =
    if d.id == id then some d else get_notification_delivery_by_id id deliveries

-- WHERE (status = 'pending' AND scheduled_at <= $1) OR (status = 'retry_scheduled' AND next_retry_at
-- IS NOT NULL AND next_retry_at <= $1)
unfoldable pub is_due : Time → NotificationDelivery → Bool
is_due now d = elim d.status [
  | DeliveryStatus.pending ↦ leb d.scheduled_at now
  | DeliveryStatus.retry_scheduled ↦ d.next_retry_at.valid && d.next_retry_at.value <= pos now
  | _ ↦ false
]

unfoldable pub list_notification_deliveries_for_dispatch :
    Time → ℕ → List NotificationDelivery → List NotificationDelivery
unfolding is_due select
list_notification_deliveries_for_dispatch now limit deliveries =
    take limit (select (is_due now) deliveries)

unfoldable pub update_notification_event_status :
    Uuid → EventStatus → List NotificationEvent → List NotificationEvent
update_notification_event_status id status [] = []
update_notification_event_status id status (e ∷ events) =
    (if e.id == id then record e { status = status } else e)
    ∷ update_notification_event_status id status events

unfoldable pub get_notification_event_by_id :
    Uuid → List NotificationEvent → Option NotificationEvent
get_notification_event_by_id id [] = none
get_notification_event_by_id id (e ∷ events) =
    if e.id == id then some e else get_notification_event_by_id id events

-- WHERE dedup_key = $1 AND created_at >= $2 AND id <> $3
unfoldable pub is_duplicate : Text → ℤ → Uuid → NotificationEvent → Bool
is_duplicate dedup_key since exclude_id e =
    e.dedup_key.valid
    && (text_eq e.dedup_key.string dedup_key
        && (since <= pos e.created_at && not (e.id == exclude_id)))

last_of : List NotificationEvent → Option NotificationEvent
last_of [] = none
last_of (e ∷ []) = some e
last_of (e ∷ f ∷ events) = last_of (f ∷ events)

-- `none` is sql.ErrNoRows.
unfoldable pub find_latest_notification_event_by_dedup_key_since :
    Text → ℤ → Uuid → List NotificationEvent → Option NotificationEvent
unfolding is_duplicate last_of select
find_latest_notification_event_by_dedup_key_since dedup_key since exclude_id events =
    last_of (select (is_duplicate dedup_key since exclude_id) events)

unfoldable pub retried_delivery : ℤ → ℤ → NotificationDelivery → NotificationDelivery
retried_delivery max_attempts next_retry_at d = record d {
  status = DeliveryStatus.retry_scheduled;
  max_attempts = max_attempts;
  next_retry_at = record { value = next_retry_at; valid = true };
  error_message = to_null_string [];
  last_error_code = to_null_string [];
  provider_response_json = [];
  sent_at = record { value = 0; valid = false };
}

unfoldable pub schedule_notification_delivery_retry :
    Uuid → ℤ → ℤ → List NotificationDelivery → List NotificationDelivery
unfolding update_delivery retried_delivery
schedule_notification_delivery_retry id max_attempts next_retry_at =
    update_delivery id (retried_delivery max_attempts next_retry_at)
