-- ===== src/Server/Deliveries.antt =====
-- server/internal/notification_delivery.go, notification_retry_processor.go: one attempt to deliver,
-- and a round of the retry processor. The server has its storage and its dispatcher; all calls of
-- time.Now() of one action return `now`.
pub mod Outcomes
pub mod Rounds
pub mod Frame
pub mod Targets
use agents_management.Prelude.{
  ℕ, suc, Bool, true, false, Option, none, some, List, [], ◌∷◌, ◌++◌, Text, codes, is_nil,
  if◌then◌else◌, Uuid, ℤ, pos, ◌<=◌, ◌+pos◌, int32_suc,
}
use agents_management.Storage.Model.{
  NotificationEvent, NotificationDelivery, DeliveryStatus, NullString, Null, Time,
}
use agents_management.Storage.Notifications.{
  DeliveryUpdate, update_notification_delivery_status, list_notification_deliveries_for_dispatch,
  get_notification_event_by_id,
}
use agents_management.Notify.Backoff.{retry_backoff}
use agents_management.Server.World.{
  Env, World, M, pure, skip, stored, Provider, delivered, refused, DeliveryFailure,
  deadline_exceeded, canceled, other_failure, ◌>>=◌, ◌>>◌,
}

abbrev pub null_string : NullString
null_string = record { string = []; valid = false }

abbrev pub text : Text → NullString
text s = record { string = s; valid = true }

abbrev pub null_time {ℓ} : {A : Type ℓ} → A → Null A
null_time zero_time = record { value = zero_time; valid = false }

notification_delivery_error_code : DeliveryFailure → Text
notification_delivery_error_code deadline_exceeded = codes "TIMEOUT"
notification_delivery_error_code canceled = codes "CANCELLED"
notification_delivery_error_code other_failure = codes "DELIVERY_ERROR"

response_or : Option Text → Text
response_or none = codes "{\"error\":\"failed to marshal delivery error\"}"
response_or (some response) = response

unfoldable pub sent_update : Time → ℤ → Text → Text → DeliveryUpdate
sent_update now attempt message_id response = record {
  attempt = attempt;
  status = DeliveryStatus.sent;
  provider_message_id = if is_nil message_id then null_string else text message_id;
  provider_response_json = if is_nil response then codes "{}" else response;
  error_message = null_string;
  last_error_code = null_string;
  sent_at = record { value = now; valid = true };
  next_retry_at = null_time (pos 0);
}

module _ (env : Env) where
  unfoldable pub failure_update :
      Time → NotificationDelivery → ℤ → DeliveryFailure → Text → DeliveryUpdate
  unfolding notification_delivery_error_code response_or
  failure_update now d attempt failure message = record {
    attempt = attempt;
    status =
        if d.max_attempts <= attempt
        then DeliveryStatus.dead_letter
        else DeliveryStatus.retry_scheduled;
    provider_message_id = null_string;
    provider_response_json = response_or (env.marshal_error message);
    error_message = text message;
    last_error_code = text (notification_delivery_error_code failure);
    sent_at = null_time 0;
    next_retry_at =
        if d.max_attempts <= attempt
        then null_time (pos 0)
        else record { value = retry_backoff attempt +pos now; valid = true };
  }

  -- Dispatch, with the adapter of the channel if there is one.
  pub call_adapter :
      Option (ℕ → NotificationEvent → NotificationDelivery → Provider)
      → NotificationEvent
      → NotificationDelivery
      → M Provider
  call_adapter none event d w = (
    refused other_failure
        (codes "no delivery adapter configured for channel " ++ env.quote d.channel),
    w,
  )
  call_adapter (some deliver) event d w =
      (deliver w.attempts event d, record w { attempts = suc w.attempts })

  save_update : Uuid → DeliveryUpdate → M (Option (Unit {0}))
  save_update id u = stored env (λ w.
      (some tt, record w { deliveries = update_notification_delivery_status id u w.deliveries }))

  -- The delivery object as the two functions leave it.
  sent_object : NotificationDelivery → DeliveryUpdate → Option (Unit {0}) → NotificationDelivery
  sent_object d u none = d
  sent_object d u (some _) = record d {
    attempt = u.attempt;
    status = u.status;
    provider_message_id = u.provider_message_id;
    provider_response_json = u.provider_response_json;
    sent_at = u.sent_at;
  }

  failed_object : NotificationDelivery → DeliveryUpdate → Option (Unit {0}) → NotificationDelivery
  failed_object d u none = d
  failed_object d u (some _) = record d {
    attempt = u.attempt;
    status = u.status;
    error_message = u.error_message;
    last_error_code = u.last_error_code;
    next_retry_at = u.next_retry_at;
  }

  handle_answer : Time → NotificationDelivery → Provider → M NotificationDelivery
  handle_answer now d (delivered message_id response) = do
    let u = sent_update now (int32_suc d.attempt) message_id response
    saved ← save_update d.id u
    pure (sent_object d u saved)
  handle_answer now d (refused failure message) = do
    let u = failure_update now d (int32_suc d.attempt) failure message
    saved ← save_update d.id u
    pure (failed_object d u saved)

  pub dispatch_notification_delivery :
      Time → NotificationEvent → NotificationDelivery → M NotificationDelivery
  dispatch_notification_delivery now event d = do
    answer ← call_adapter (env.adapter d.channel) event d
    handle_answer now d answer

  dispatch_loaded : Time → Option NotificationEvent → NotificationDelivery → M (Unit {0})
  dispatch_loaded now none d = skip
  dispatch_loaded now (some event) d = do dispatch_notification_delivery now event d; skip

  process_each : Time → List NotificationDelivery → M (Unit {0})
  process_each now [] = skip
  process_each now (d ∷ deliveries) = do
    event ← stored env (λ w. (get_notification_event_by_id d.notification_event_id w.events, w))
    dispatch_loaded now event d
    process_each now deliveries

  process_listed : Time → Option (List NotificationDelivery) → M (Unit {0})
  process_listed now none = skip
  process_listed now (some deliveries) = process_each now deliveries

  -- A round of the retry processor, of at most `batch_size` deliveries.
  pub process_due_deliveries : Time → ℕ → M (Unit {0})
  process_due_deliveries now batch_size = do
    deliveries ←
        stored env
          (λ w. (some (list_notification_deliveries_for_dispatch now batch_size w.deliveries), w))
    process_listed now deliveries
