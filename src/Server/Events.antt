-- ===== src/Server/Events.antt =====
-- server/internal/notification_evaluator.go, notification_routing.go: from the result of a task to an
-- event, and from an event to its deliveries. The server has its storage, its rule engine (`engine`, the
-- engine's policy) and its router (`router`, the routes); all calls of time.Now() return `now`.
pub mod Frame
pub mod Expected
pub mod Status
pub mod Tests
use agents_management.Prelude.{
  ℕ, suc, Bool, true, false, not, ◌&&◌, ◌||◌, Option, none, some, List, [], ◌∷◌, ◌++◌, Text, codes,
  text_eq, trim, is_nil, if◌then◌else◌, Result, ok, err, ◌==◌, Uuid, ℤ, pos,
}
use agents_management.Storage.Model.{
  Task, TaskResult, NotificationEvent, NotificationDelivery, DeliveryStatus, EventStatus, detected,
  suppressed, accepted, rejected, Null, NullString, Time,
}
use agents_management.Storage.Notifications.{
  update_notification_event_status, find_latest_notification_event_by_dedup_key_since,
}
use agents_management.Notify.Payload.{
  AlertPayload, PayloadError, parse_alert_payload, build_notification_event,
}
use agents_management.Notify.Dedup.{build_dedup_key, since}
use agents_management.Notify.Policy.{Policy, Decision, EvaluateError, evaluate}
use agents_management.Notify.Router.{Route, resolve}
use agents_management.Server.World.{Env, World, M, pure, skip, stored, draw, ◌>>=◌, ◌>>◌}
use agents_management.Server.Deliveries.{dispatch_notification_delivery, null_string, null_time}

abbrev pub event_status_number : EventStatus → ℕ
event_status_number detected = 0
event_status_number suppressed = 1
event_status_number accepted = 2
event_status_number rejected = 3

pub is_found : Option (Option NotificationEvent) → Bool
is_found none = false
is_found (some none) = false
is_found (some (some event)) = true

new_delivery : Time → Uuid → NotificationEvent → Route → NotificationDelivery
new_delivery now id event route = record {
  id = id;
  notification_event_id = event.id;
  channel = route.channel;
  destination = route.destination;
  status = DeliveryStatus.pending;
  attempt = pos 0;
  max_attempts = route.max_attempts;
  provider_message_id = null_string;
  provider_response_json = [];
  error_message = null_string;
  last_error_code = null_string;
  scheduled_at = now;
  sent_at = null_time 0;
  next_retry_at = null_time (pos 0);
}

-- The contract of the task's result is absent, empty, or that of an alert.
has_alert_contract : Task → Bool
has_alert_contract task =
    not task.result_contract.valid
    || (is_nil task.result_contract.string
        || text_eq task.result_contract.string (codes "alert_payload.v1"))

module _ (env : Env) where
  changed_event : NotificationEvent → EventStatus → Option (Unit {0}) → NotificationEvent
  changed_event event status none = event
  changed_event event status (some _) = record event { status = status }

  save_event_status : Uuid → EventStatus → M (Option (Unit {0}))
  save_event_status id status =
      stored env
        (λ w. (some tt, record w { events = update_notification_event_status id status w.events }))

  -- The event as it is afterwards.
  set_event_status : NotificationEvent → EventStatus → M NotificationEvent
  set_event_status event status =
      if event_status_number event.status == event_status_number status
      then pure event
      else save_event_status event.id status >>= λ saved. pure (changed_event event status saved)

  should_suppress_duplicate_event : Time → NotificationEvent → M Bool
  should_suppress_duplicate_event now event =
      if not event.dedup_key.valid || is_nil event.dedup_key.string
      then pure false
      else stored env (λ w. (
        some (
            find_latest_notification_event_by_dedup_key_since event.dedup_key.string
              (since now event) event.id w.events),
        w,
      ))
        >>= λ existing. pure (is_found existing)

  create_delivery : NotificationDelivery → M (Option (Unit {0}))
  create_delivery d =
      stored env (λ w. (some tt, record w { deliveries = w.deliveries ++ (d ∷ []) }))

  -- After the insertion of a delivery: the dispatch, and `next` for the routes that are left.
  after_create :
      Time
      → NotificationEvent
      → NotificationDelivery
      → M NotificationEvent
      → Option (Unit {0})
      → M NotificationEvent
  after_create now event d next none = set_event_status event rejected
  after_create now event d next (some _) =
      dispatch_notification_delivery env now event d >>= λ _. next

  deliver_all : Time → NotificationEvent → List Route → M NotificationEvent
  deliver_all now event [] = set_event_status event accepted
  deliver_all now event (route ∷ routes) = do
    id ← draw env
    created ← create_delivery (new_delivery now id event route)
    after_create now event (new_delivery now id event route) (deliver_all now event routes) created

  route_resolved : Time → NotificationEvent → List Route → M NotificationEvent
  route_resolved now event [] = set_event_status event rejected
  route_resolved now event (route ∷ routes) = deliver_all now event (route ∷ routes)

  route_by : EventStatus → Time → NotificationEvent → List Route → M NotificationEvent
  route_by suppressed now event routes = set_event_status event suppressed
  route_by rejected now event routes = set_event_status event rejected
  route_by accepted now event routes = route_resolved now event routes
  route_by detected now event routes = route_resolved now event routes

  module _ (engine : Policy) (router : List Route) where
    route_decided :
        Time → Option Task → NotificationEvent → Result EvaluateError Decision → M NotificationEvent
    route_decided now task event (err e) = set_event_status event rejected
    route_decided now task event (ok d) =
        route_by d.status now event (resolve router task d.channels).routes

    route_unless : Bool → Time → Option Task → NotificationEvent → M NotificationEvent
    route_unless true now task event = set_event_status event suppressed
    route_unless false now task event =
        route_decided now task event (evaluate env.unmarshal engine task (some event))

    pub process_notification_event : Time → Option Task → NotificationEvent → M NotificationEvent
    process_notification_event now task event = do
      duplicate ← should_suppress_duplicate_event now event
      route_unless duplicate now task event

    process_created : Time → Task → NotificationEvent → Option (Unit {0}) → M (Unit {0})
    process_created now task event none = skip
    process_created now task event (some _) = do
      process_notification_event now (some task) event
      skip

    store_event : Time → Task → NotificationEvent → M (Unit {0})
    store_event now task event = do
      created ← stored env (λ w. (some tt, record w { events = w.events ++ (event ∷ []) }))
      process_created now task event created

    store_parsed :
        Time → Task → TaskResult → Result PayloadError (Option (Text × AlertPayload)) → M (Unit {0})
    store_parsed now task result (err e) = skip
    store_parsed now task result (ok none) = skip
    store_parsed now task result (ok (some (bytes, payload))) = do
      id ← draw env
      store_event now task (
          build_notification_event (build_dedup_key env.sha256 payload) id now task result bytes
            payload)

    pub evaluate_and_store_notification_event : Time → Task → TaskResult → M (Unit {0})
    evaluate_and_store_notification_event now task result =
        if not (has_alert_contract task)
        then skip
        else if not result.output.valid || is_nil (trim result.output.string)
        then skip
        else store_parsed now task result (parse_alert_payload env.unmarshal result.output.string)
