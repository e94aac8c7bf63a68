-- ===== src/Server/Deliveries/Targets.antt =====
-- What an attempt leaves as it is: the events, and where the deliveries go.
use agents_management.Prelude.{
  ℕ, Option, none, some, List, [], ◌∷◌, ◌≡◌, refl, ap, ◌∙◌, arith, map, ◌==◌, ℤ, Text, Bool-cases,
  inl, inr, Uuid,
}
use agents_management.Storage.Model.{NotificationEvent, NotificationDelivery, Time}
use agents_management.Storage.Notifications.{
  DeliveryUpdate, update_delivery, updated_delivery, update_notification_delivery_status,
}
use agents_management.Server.World.{Env, World, stored, Provider, delivered, refused}
use agents_management.Server.Deliveries.{
  call_adapter, handle_answer, save_update, dispatch_notification_delivery,
}
use agents_management.Server.Deliveries.Outcomes.{deliveries-dispatch, answer_of}

-- The event of a delivery, where it goes, and how often it is tried.
pub record Target : Type 0 where
  pub event_id : Uuid
  pub channel : Text
  pub destination : Text
  pub max_attempts : ℤ

abbrev pub target : NotificationDelivery → Target
target d = record {
  event_id = d.notification_event_id;
  channel = d.channel;
  destination = d.destination;
  max_attempts = d.max_attempts;
}

abbrev pub targets : List NotificationDelivery → List Target
targets ds = map target ds

targets-update :
    (id : Uuid) (u : DeliveryUpdate) (ds : List NotificationDelivery)
    → targets (update_delivery id (updated_delivery u) ds) ≡ targets ds
unfolding update_delivery updated_delivery
targets-update id u [] = refl
targets-update id u (d ∷ ds) = elim (Bool-cases (d.id == id)) [
  | inl e ↦ rw e (ap (λ ts. target d ∷ ts) (targets-update id u ds))
  | inr e ↦ rw e (ap (λ ts. target d ∷ ts) (targets-update id u ds))
]

module _ (env : Env) (now : Time) where
  events-call_adapter :
      (adapter : Option (ℕ → NotificationEvent → NotificationDelivery → Provider))
      (event : NotificationEvent) (d : NotificationDelivery) (w : World)
      → (call_adapter env adapter event d w).1.events ≡ w.events
  unfolding call_adapter
  events-call_adapter none event d w = refl
  events-call_adapter (some deliver) event d w = refl

  events-handle_answer :
      (d : NotificationDelivery) (answer : Provider) (w : World)
      → (handle_answer env now d answer w).1.events ≡ w.events
  unfolding handle_answer save_update stored
  events-handle_answer d (delivered message_id response) w = ground arith
  events-handle_answer d (refused failure message) w = ground arith

  pub events-dispatch :
      (event : NotificationEvent) (d : NotificationDelivery) (w : World)
      → (dispatch_notification_delivery env now event d w).1.events ≡ w.events
  unfolding dispatch_notification_delivery
  events-dispatch event d w =
      events-handle_answer d (answer_of env event d w)
        (call_adapter env (env.adapter d.channel) event d w).1
      ∙ events-call_adapter (env.adapter d.channel) event d w

  pub targets-dispatch :
      (event : NotificationEvent) (d : NotificationDelivery) (w : World)
      → targets (dispatch_notification_delivery env now event d w).1.deliveries
        ≡ targets w.deliveries
  unfolding update_notification_delivery_status
  targets-dispatch event d w = elim (Bool-cases (env.fails w.calls)) [
    | inl e ↦ rw (deliveries-dispatch env now event d w, e) refl
    | inr e ↦ rw (deliveries-dispatch env now event d w, e) (targets-update d.id _ w.deliveries)
  ]
