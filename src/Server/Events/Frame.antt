-- ===== src/Server/Events/Frame.antt =====
-- What the evaluation and the routing of an event leave as it is: all but the events, the deliveries
-- and the counters.
use agents_management.Prelude.{
  Bool, true, false, not, ◌||◌, Option, none, some, List, [], ◌∷◌, ◌++◌, refl, Text, trim, is_nil,
  Result, ok, err, ◌==◌,
}
use agents_management.Storage.Model.{
  Task, TaskResult, NotificationEvent, NotificationDelivery, EventStatus, detected, suppressed,
  accepted, rejected, Time,
}
use agents_management.Storage.Notifications.{find_latest_notification_event_by_dedup_key_since}
use agents_management.Notify.Payload.{
  AlertPayload, PayloadError, parse_alert_payload, build_notification_event,
}
use agents_management.Notify.Dedup.{build_dedup_key, since}
use agents_management.Notify.Policy.{Policy, Decision, EvaluateError, evaluate}
use agents_management.Notify.Router.{Route, resolve}
use agents_management.Server.World.{Env, World, M, stored, draw}
use agents_management.Server.Deliveries.{dispatch_notification_delivery}
use agents_management.Server.Deliveries.Frame.{
  Ignores, Keeps-pure, Keeps-call, Keeps-draw, Keeps-dispatch,
}
use agents_management.Server.Keeps.{Keeps, Keeps-bind, Keeps-if}
use agents_management.Server.Events.{
  is_found, new_delivery, has_alert_contract, set_event_status, save_event_status, changed_event,
  should_suppress_duplicate_event, create_delivery, after_create, deliver_all, route_resolved,
  route_by, route_decided, route_unless, process_notification_event, process_created, store_event,
  store_parsed, evaluate_and_store_notification_event, event_status_number,
}

module _ {X : Type 0} (f : World → X) (frame : Ignores f) (env : Env) where
  Keeps-set_event_status :
      (event : NotificationEvent) (status : EventStatus)
      → Keeps f (set_event_status env event status)
  unfolding set_event_status save_event_status
  Keeps-set_event_status event status =
      Keeps-if f (event_status_number event.status == event_status_number status) _ _
        (Keeps-pure f frame env event)
        (Keeps-bind f (save_event_status env event.id status) _
          (Keeps-call f frame env _
            (λ w. frame.ignores w _ w.deliveries w.calls w.attempts w.drawn))
          (λ saved. Keeps-pure f frame env (changed_event env event status saved)))

  Keeps-should_suppress :
      (now : Time) (event : NotificationEvent)
      → Keeps f (should_suppress_duplicate_event env now event)
  unfolding should_suppress_duplicate_event
  Keeps-should_suppress now event =
      Keeps-if f (not event.dedup_key.valid || is_nil event.dedup_key.string) _ _
        (Keeps-pure f frame env false)
        (Keeps-bind f
          (stored env (λ w. (
            some (
                find_latest_notification_event_by_dedup_key_since event.dedup_key.string
                  (since now event) event.id w.events),
            w,
          )))
          _ (Keeps-call f frame env _ (λ w. refl))
          (λ existing. Keeps-pure f frame env (is_found existing)))

  Keeps-after_create :
      (now : Time) (event : NotificationEvent) (d : NotificationDelivery)
      (next : M NotificationEvent) (created : Option (Unit {0}))
      → Keeps f next
      → Keeps f (after_create env now event d next created)
  unfolding after_create
  Keeps-after_create now event d next none k = Keeps-set_event_status event rejected
  Keeps-after_create now event d next (some _) k =
      Keeps-bind f (dispatch_notification_delivery env now event d) _
        (Keeps-dispatch f frame env now event d) (λ _. k)

  Keeps-deliver_all :
      (now : Time) (event : NotificationEvent) (routes : List Route)
      → Keeps f (deliver_all env now event routes)
  unfolding deliver_all create_delivery
  Keeps-deliver_all now event [] = Keeps-set_event_status event accepted
  Keeps-deliver_all now event (route ∷ routes) =
      Keeps-bind f (draw env) _ (Keeps-draw f frame env) (λ id.
        Keeps-bind f (create_delivery env (new_delivery now id event route)) _
          (Keeps-call f frame env _ (λ w. frame.ignores w w.events _ w.calls w.attempts w.drawn))
          (λ created.
            Keeps-after_create now event (new_delivery now id event route)
              (deliver_all env now event routes) created (Keeps-deliver_all now event routes)))

  Keeps-route_resolved :
      (now : Time) (event : NotificationEvent) (routes : List Route)
      → Keeps f (route_resolved env now event routes)
  unfolding route_resolved
  Keeps-route_resolved now event [] = Keeps-set_event_status event rejected
  Keeps-route_resolved now event (route ∷ routes) = Keeps-deliver_all now event (route ∷ routes)

  Keeps-route_by :
      (status : EventStatus) (now : Time) (event : NotificationEvent) (routes : List Route)
      → Keeps f (route_by env status now event routes)
  unfolding route_by
  Keeps-route_by suppressed now event routes = Keeps-set_event_status event suppressed
  Keeps-route_by rejected now event routes = Keeps-set_event_status event rejected
  Keeps-route_by accepted now event routes = Keeps-route_resolved now event routes
  Keeps-route_by detected now event routes = Keeps-route_resolved now event routes

  module _ (engine : Policy) (router : List Route) where
    Keeps-route_decided :
        (now : Time) (task : Option Task) (event : NotificationEvent)
        (decided : Result EvaluateError Decision)
        → Keeps f (route_decided env engine router now task event decided)
    unfolding route_decided
    Keeps-route_decided now task event (err e) = Keeps-set_event_status event rejected
    Keeps-route_decided now task event (ok d) =
        Keeps-route_by d.status now event (resolve router task d.channels).routes

    Keeps-route_unless :
        (duplicate : Bool) (now : Time) (task : Option Task) (event : NotificationEvent)
        → Keeps f (route_unless env engine router duplicate now task event)
    unfolding route_unless
    Keeps-route_unless true now task event = Keeps-set_event_status event suppressed
    Keeps-route_unless false now task event =
        Keeps-route_decided now task event (evaluate env.unmarshal engine task (some event))

    Keeps-process :
        (now : Time) (task : Option Task) (event : NotificationEvent)
        → Keeps f (process_notification_event env engine router now task event)
    unfolding process_notification_event
    Keeps-process now task event =
        Keeps-bind f (should_suppress_duplicate_event env now event) _
          (Keeps-should_suppress now event)
          (λ duplicate. Keeps-route_unless duplicate now task event)

    Keeps-process_created :
        (now : Time) (task : Task) (event : NotificationEvent) (created : Option (Unit {0}))
        → Keeps f (process_created env engine router now task event created)
    unfolding process_created
    Keeps-process_created now task event none = Keeps-pure f frame env tt
    Keeps-process_created now task event (some _) =
        Keeps-bind f (process_notification_event env engine router now (some task) event) _
          (Keeps-process now (some task) event) (λ _. Keeps-pure f frame env tt)

    Keeps-store_parsed :
        (now : Time) (task : Task) (result : TaskResult)
        (parsed : Result PayloadError (Option (Text × AlertPayload)))
        → Keeps f (store_parsed env engine router now task result parsed)
    unfolding store_parsed store_event
    Keeps-store_parsed now task result (err e) = Keeps-pure f frame env tt
    Keeps-store_parsed now task result (ok none) = Keeps-pure f frame env tt
    Keeps-store_parsed now task result (ok (some (bytes, payload))) =
        Keeps-bind f (draw env) _ (Keeps-draw f frame env) (λ id.
          let event =
            build_notification_event (build_dedup_key env.sha256 payload) id now task result bytes
              payload in
          Keeps-bind f (stored env (λ w. (some tt, record w { events = w.events ++ (event ∷ []) })))
            _
            (Keeps-call f frame env _
              (λ w. frame.ignores w _ w.deliveries w.calls w.attempts w.drawn))
            (λ created. Keeps-process_created now task event created))

    pub Keeps-evaluate_and_store :
        (now : Time) (task : Task) (result : TaskResult)
        → Keeps f (evaluate_and_store_notification_event env engine router now task result)
    unfolding evaluate_and_store_notification_event
    Keeps-evaluate_and_store now task result =
        Keeps-if f (not (has_alert_contract task)) _ _ (Keeps-pure f frame env tt) (
          Keeps-if f (not result.output.valid || is_nil (trim result.output.string)) _ _
            (Keeps-pure f frame env tt)
            (Keeps-store_parsed now task result
              (parse_alert_payload env.unmarshal result.output.string)))
