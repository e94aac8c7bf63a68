-- ===== src/Server/Events/Status.antt =====
-- Where an event ends, and which deliveries it gets, if no storage call fails.
use agents_management.Prelude.{
  ℕ, suc, Bool, true, false, Option, some, List, [], ◌∷◌, ◌++◌, ◌≡◌, refl, ap, ◌∙◌, arith,
  append_nil, sym, ◌==◌, ==_iff, Result, ok, err,
}
use mathlib.Core.List.{append_assoc, map-append}
use agents_management.Storage.Model.{
  Task, NotificationEvent, NotificationDelivery, EventStatus, detected, suppressed, accepted,
  rejected, Time,
}
use agents_management.Storage.Notifications.{
  update_notification_event_status, get_notification_event_by_id,
}
use agents_management.Notify.Policy.{Policy, Decision, EvaluateError, evaluate}
use agents_management.Notify.Router.{Route, resolve}
use agents_management.Server.World.{Env, World, stored, draw}
use agents_management.Server.Deliveries.{dispatch_notification_delivery}
use agents_management.Server.Deliveries.Targets.{
  Target, target, targets, events-dispatch, targets-dispatch,
}
use agents_management.Server.Events.{
  event_status_number, new_delivery, set_event_status, save_event_status,
  should_suppress_duplicate_event, create_delivery, after_create, deliver_all, route_resolved,
  route_by, route_decided, route_unless, process_notification_event,
}
use agents_management.Server.Events.Expected.{
  is_repeated, routed_status, status_for, routes_for, expected, targets_of,
}

get-set_status :
    (event : NotificationEvent) (status : EventStatus) (events : List NotificationEvent)
    → get_notification_event_by_id event.id events ≡ some event
    → get_notification_event_by_id event.id
        (update_notification_event_status event.id status events)
      ≡ some (record event { status = status })
unfolding get_notification_event_by_id update_notification_event_status
get-set_status event status [] h = cc
get-set_status event status (e ∷ events) h =
    ground (arith, get-set_status event status events, ==_iff e.id event.id)

-- The event's row has this status, and the deliveries of the table go there.
EndsWith : NotificationEvent → EventStatus → List Target → World → Type 0
EndsWith event status ts w =
    (get_notification_event_by_id event.id w.events ≡ some (record event { status = status }))
    × (targets w.deliveries ≡ ts)

module _ (env : Env) (no_fault : (k : ℕ) → env.fails k ≡ false) (event : NotificationEvent)
    (fresh : event.status ≡ detected) where
  abbrev Holds : World → Type 0
  Holds w = get_notification_event_by_id event.id w.events ≡ some event

  set_event_status-EndsWith :
      (status : EventStatus) (w : World)
      → (0 == event_status_number status) ≡ false
      → Holds w
      → EndsWith event status (targets w.deliveries) (set_event_status env event status w).1
  unfolding set_event_status save_event_status stored EndsWith
  set_event_status-EndsWith status w new h =
      rw (fresh, new, no_fault w.calls) (get-set_status event status w.events h, refl)

  -- The world after a delivery was created.
  abbrev with_delivery : NotificationDelivery → World → World
  with_delivery d w = record w { calls = suc w.calls; deliveries = w.deliveries ++ (d ∷ []) }

  create_delivery_lem :
      (d : NotificationDelivery) (w : World)
      → create_delivery env d w ≡ (some tt, with_delivery d w)
  unfolding create_delivery stored
  create_delivery_lem d w = rw (no_fault w.calls) refl

  deliver_all-EndsWith :
      (now : Time) (routes : List Route) (w : World)
      → Holds w
      → EndsWith event accepted
          (targets w.deliveries ++ targets_of event routes)
          (deliver_all env now event routes w).1
  unfolding deliver_all after_create draw EndsWith new_delivery
  deliver_all-EndsWith now [] w h =
      let (row, size) = set_event_status-EndsWith accepted w refl h in
      (row, size ∙ sym (append_nil (targets w.deliveries)))
  deliver_all-EndsWith now (route ∷ routes) w h =
      let d = new_delivery now (env.new_uuid w.drawn) event route in
      let drawn = (draw env w).1 in
      let sent = (dispatch_notification_delivery env now event d (with_delivery d drawn)).1 in
      let next : deliver_all env now event (route ∷ routes) w
          ≡ deliver_all env now event routes sent =
        ap (λ r. after_create env now event d (deliver_all env now event routes) r.0 r.1)
          (create_delivery_lem d drawn) in
      let same = events-dispatch env now event d (with_delivery d drawn) in
      let (row, size) =
        deliver_all-EndsWith now routes sent
          (ap (get_notification_event_by_id event.id) same ∙ h) in
      (
        ap (λ r. get_notification_event_by_id event.id r.1.events) next ∙ row,
        ap (λ r. targets r.1.deliveries) next
            ∙ size
            ∙ ap (λ ts. ts ++ targets_of event routes)
                (targets-dispatch env now event d (with_delivery d drawn)
                  ∙ map-append target w.deliveries (d ∷ []))
            ∙ append_assoc (targets w.deliveries) (target d ∷ []) (targets_of event routes),
      )

  route_resolved-EndsWith :
      (now : Time) (routes : List Route) (w : World)
      → Holds w
      → EndsWith event
          (routed_status routes)
          (targets w.deliveries ++ targets_of event routes)
          (route_resolved env now event routes w).1
  unfolding route_resolved EndsWith
  route_resolved-EndsWith now [] w h =
      let (row, size) = set_event_status-EndsWith rejected w refl h in
      (row, size ∙ sym (append_nil (targets w.deliveries)))
  route_resolved-EndsWith now (route ∷ routes) w h = deliver_all-EndsWith now (route ∷ routes) w h

  unrouted :
      (status : EventStatus) (w : World)
      → (0 == event_status_number status) ≡ false
      → Holds w
      → EndsWith event status (targets w.deliveries ++ []) (set_event_status env event status w).1
  unfolding EndsWith
  unrouted status w new h =
      let (row, size) = set_event_status-EndsWith status w new h in
      (row, size ∙ sym (append_nil (targets w.deliveries)))

  route_by-EndsWith :
      (status : EventStatus) (now : Time) (routes : List Route) (w : World)
      → Holds w
      → EndsWith event
          (status_for status routes)
          (targets w.deliveries ++ targets_of event (routes_for status routes))
          (route_by env status now event routes w).1
  unfolding route_by
  route_by-EndsWith suppressed now routes w h = unrouted suppressed w refl h
  route_by-EndsWith rejected now routes w h = unrouted rejected w refl h
  route_by-EndsWith accepted now routes w h = route_resolved-EndsWith now routes w h
  route_by-EndsWith detected now routes w h = route_resolved-EndsWith now routes w h

  module _ (engine : Policy) (router : List Route) (now : Time) (task : Option Task) where
    abbrev answer : Result EvaluateError Decision
    answer = evaluate env.unmarshal engine task (some event)

    route_decided-EndsWith :
        (decided : Result EvaluateError Decision) (w : World)
        → Holds w
        → EndsWith event
            (expected router task false decided).0
            (targets w.deliveries ++ targets_of event (expected router task false decided).1)
            (route_decided env engine router now task event decided w).1
    unfolding route_decided
    route_decided-EndsWith (err e) w h = unrouted rejected w refl h
    route_decided-EndsWith (ok d) w h =
        route_by-EndsWith d.status now (resolve router task d.channels).routes w h

    route_unless-EndsWith :
        (repeated : Bool) (w : World)
        → Holds w
        → EndsWith event
            (expected router task repeated answer).0
            (targets w.deliveries ++ targets_of event (expected router task repeated answer).1)
            (route_unless env engine router repeated now task event w).1
    unfolding route_unless
    route_unless-EndsWith true w h = unrouted suppressed w refl h
    route_unless-EndsWith false w h = route_decided-EndsWith answer w h

    suppress_lem :
        (w : World)
        → ((should_suppress_duplicate_event env now event w).0 ≡ is_repeated now event w.events)
          × ((should_suppress_duplicate_event env now event w).1.events ≡ w.events)
          × ((should_suppress_duplicate_event env now event w).1.deliveries ≡ w.deliveries)
    unfolding should_suppress_duplicate_event is_repeated stored
    suppress_lem w = ground (arith, no_fault w.calls)

    -- If no storage call fails, an event that is in the table with the status "detected" ends
    -- suppressed, without a new delivery, if it repeats another one or the engine suppresses it;
    -- rejected, without a new delivery, if the engine rejects it or cannot answer, or if no route is
    -- left; and accepted in every other case, with one new delivery for each route, in order, of this
    -- event to the channel and the destination of the route and with its number of attempts. The
    -- deliveries that were there keep their event, channel, destination and number of attempts.
    pub process_notification_event-status :
        (w : World)
        → get_notification_event_by_id event.id w.events ≡ some event
        → (get_notification_event_by_id event.id
              (process_notification_event env engine router now task event w).1.events
            ≡ some (record event {
              status =
                  (expected router task
                    (is_repeated now event w.events)
                    (evaluate env.unmarshal engine task (some event))).0;
            }))
          × (targets (process_notification_event env engine router now task event w).1.deliveries
              ≡ targets w.deliveries
                ++ targets_of event
                    (expected router task
                      (is_repeated now event w.events)
                      (evaluate env.unmarshal engine task (some event))).1)
    unfolding process_notification_event EndsWith
    process_notification_event-status w h =
        let (repeated, events, deliveries) = suppress_lem w in
        let (test, u) = should_suppress_duplicate_event env now event w in
        let (row, size) =
          route_unless-EndsWith test u (ap (get_notification_event_by_id event.id) events ∙ h) in
        (
          row
              ∙ ap (λ b. some (record event { status = (expected router task b answer).0 }))
                  repeated,
          size
              ∙ ap (λ ds. targets ds ++ targets_of event (expected router task test answer).1)
                  deliveries
              ∙ ap (λ b. targets w.deliveries ++ targets_of event (expected router task b answer).1)
                  repeated,
        )
