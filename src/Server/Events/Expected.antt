-- ===== src/Server/Events/Expected.antt =====
-- What an event should come to, from the answer of the engine and the routes.
use agents_management.Prelude.{
  Bool, true, false, not, ◌&&◌, Option, some, List, [], ◌∷◌, is_nil, map, Result, ok, err,
}
use agents_management.Storage.Model.{
  Task, NotificationEvent, EventStatus, detected, suppressed, accepted, rejected, Time,
}
use agents_management.Storage.Notifications.{find_latest_notification_event_by_dedup_key_since}
use agents_management.Notify.Dedup.{since}
use agents_management.Notify.Policy.{Decision, EvaluateError}
use agents_management.Notify.Router.{Route, resolve}
use agents_management.Server.Deliveries.Targets.{Target}
use agents_management.Server.Events.{is_found}

-- The event has a key, and another event with this key lies in its window.
unfoldable pub is_repeated : Time → NotificationEvent → List NotificationEvent → Bool
unfolding is_found
is_repeated now event events =
    event.dedup_key.valid
    && (not (is_nil event.dedup_key.string)
        && is_found (
            some (
              find_latest_notification_event_by_dedup_key_since event.dedup_key.string
                (since now event) event.id events)))

-- The status for the routes of an event that is to be routed.
abbrev pub routed_status : List Route → EventStatus
routed_status [] = rejected
routed_status (route ∷ routes) = accepted

abbrev pub status_for : EventStatus → List Route → EventStatus
status_for suppressed routes = suppressed
status_for rejected routes = rejected
status_for accepted routes = routed_status routes
status_for detected routes = routed_status routes

abbrev pub routes_for : EventStatus → List Route → List Route
routes_for suppressed routes = []
routes_for rejected routes = []
routes_for accepted routes = routes
routes_for detected routes = routes

-- The status of the event and the routes of its deliveries, for the engine's answer.
abbrev pub expected :
    List Route → Option Task → Bool → Result EvaluateError Decision → EventStatus × List Route
expected router task true answer = (suppressed, [])
expected router task false (err e) = (rejected, [])
expected router task false (ok d) = (
  status_for d.status (resolve router task d.channels).routes,
  routes_for d.status (resolve router task d.channels).routes,
)

-- The deliveries of an event for these routes.
abbrev pub target_of : NotificationEvent → Route → Target
target_of event route = record {
  event_id = event.id;
  channel = route.channel;
  destination = route.destination;
  max_attempts = route.max_attempts;
}

abbrev pub targets_of : NotificationEvent → List Route → List Target
targets_of event routes = map (target_of event) routes
