-- ===== src/Server/Events/Tests.antt =====
-- The statement on events, for an alert about a full disk with one route.
use agents_management.Prelude.{◌++◌, none, some, List, [], ◌∷◌, ◌≡◌, refl, codes, pos}
use agents_management.Storage.Notifications.{get_notification_event_by_id}
use agents_management.Samples.{disk_event}
use agents_management.Notify.Policy.{new_default_policy, evaluate}
use agents_management.Notify.Router.{Route}
use agents_management.Server.Tests.{env, world, never}
use agents_management.Server.Deliveries.Targets.{targets}
use agents_management.Server.Events.{process_notification_event}
use agents_management.Server.Events.Expected.{expected, is_repeated, targets_of}
use agents_management.Server.Events.Status.{process_notification_event-status}

abbrev router : List Route
router = record { channel = codes "telegram"; destination = codes "ops"; max_attempts = pos 3 } ∷ []

process_notification_event-status_example :
    (get_notification_event_by_id 9
        (process_notification_event env new_default_policy router 7 none disk_event world).1.events
      ≡ some (record disk_event {
        status =
            (expected router none
              (is_repeated 7 disk_event world.events)
              (evaluate env.unmarshal new_default_policy none (some disk_event))).0;
      }))
    × (targets
          (process_notification_event env new_default_policy router 7 none disk_event
            world).1.deliveries
        ≡ targets world.deliveries
          ++ targets_of disk_event
              (expected router none
                (is_repeated 7 disk_event world.events)
                (evaluate env.unmarshal new_default_policy none (some disk_event))).1)
process_notification_event-status_example =
    process_notification_event-status env never disk_event refl new_default_policy router 7 none
      world (unfold get_notification_event_by_id in refl)
