-- ===== src/Server/Deliveries/Outcomes.antt =====
-- What one attempt does to the row of its delivery and to the other rows.
use agents_management.Prelude.{
  ℕ, true, false, Option, none, some, List, [], ◌∷◌, ◌≡◌, ◌≢◌, refl, ◌⊎◌, inl, inr, arith, ◌==◌,
  ==_iff, if◌then◌else◌, Bool-cases, ap, ◌∙◌, Uuid, ◌<=◌, int32_suc,
}
use agents_management.Storage.Model.{NotificationEvent, NotificationDelivery, DeliveryStatus, Time}
use agents_management.Storage.Notifications.{
  DeliveryUpdate, updated_delivery, update_delivery, update_notification_delivery_status,
  get_notification_delivery_by_id,
}
use agents_management.Server.World.{Env, World, stored, Provider, delivered, refused}
use agents_management.Server.Deliveries.{
  sent_update, failure_update, call_adapter, save_update, handle_answer,
  dispatch_notification_delivery,
}

-- What an attempt makes of a delivery: sent, scheduled again while an attempt is left, or dead.
abbrev pub Tried : NotificationDelivery → NotificationDelivery → Type 0
Tried d d' =
    (d'.attempt ≡ int32_suc d.attempt)
    × ((d'.status ≡ DeliveryStatus.sent)
        ⊎ ((d'.status ≡ DeliveryStatus.retry_scheduled)
            × ((d.max_attempts <= d'.attempt) ≡ false)
            × (d'.next_retry_at.valid ≡ true))
        ⊎ ((d'.status ≡ DeliveryStatus.dead_letter)
            × ((d.max_attempts <= d'.attempt) ≡ true)
            × (d'.next_retry_at.valid ≡ false)))

get-update_same :
    (u : DeliveryUpdate) (deliveries : List NotificationDelivery) (d : NotificationDelivery)
    → get_notification_delivery_by_id d.id deliveries ≡ some d
    → get_notification_delivery_by_id d.id (update_notification_delivery_status d.id u deliveries)
      ≡ some (updated_delivery u d)
unfolding update_notification_delivery_status update_delivery get_notification_delivery_by_id
    updated_delivery
get-update_same u [] d h = cc
get-update_same u (e ∷ deliveries) d h = elim (Bool-cases (e.id == d.id)) [
  | inl same ↦ ground (arith, get-update_same u deliveries d)
  | inr other ↦ ground (arith, get-update_same u deliveries d)
]

pub get-update_other :
    (id k : Uuid) (u : DeliveryUpdate) (deliveries : List NotificationDelivery)
    → (k == id) ≡ false
    → get_notification_delivery_by_id id (update_notification_delivery_status k u deliveries)
      ≡ get_notification_delivery_by_id id deliveries
unfolding update_notification_delivery_status update_delivery get_notification_delivery_by_id
    updated_delivery
get-update_other id k u [] h = refl
get-update_other id k u (e ∷ deliveries) h =
    ground (arith, get-update_other id k u deliveries h, ==_iff e.id k, ==_iff e.id id, ==_iff k id)

module _ (env : Env) where
  abbrev pub update_of : Time → NotificationDelivery → Provider → DeliveryUpdate
  update_of now d (delivered message_id response) =
      sent_update now (int32_suc d.attempt) message_id response
  update_of now d (refused failure message) =
      failure_update env now d (int32_suc d.attempt) failure message

  deliveries-handle_answer :
      (now : Time) (d : NotificationDelivery) (answer : Provider) (w : World)
      → (handle_answer env now d answer w).1.deliveries ≡ (
          if env.fails w.calls
          then w.deliveries
          else update_notification_delivery_status d.id (update_of now d answer) w.deliveries)
  unfolding handle_answer save_update stored
  deliveries-handle_answer now d (delivered message_id response) w = ground arith
  deliveries-handle_answer now d (refused failure message) w = ground arith

  -- The counter of the calls and the rows after the adapter was called.
  call_adapter_lem :
      (adapter : Option (ℕ → NotificationEvent → NotificationDelivery → Provider))
      (event : NotificationEvent) (d : NotificationDelivery) (w : World)
      → ((call_adapter env adapter event d w).1.calls ≡ w.calls)
        × ((call_adapter env adapter event d w).1.deliveries ≡ w.deliveries)
  unfolding call_adapter
  call_adapter_lem none event d w = (refl, refl)
  call_adapter_lem (some deliver) event d w = (refl, refl)

  abbrev pub answer_of : NotificationEvent → NotificationDelivery → World → Provider
  answer_of event d w = (call_adapter env (env.adapter d.channel) event d w).0

  pub deliveries-dispatch :
      (now : Time) (event : NotificationEvent) (d : NotificationDelivery) (w : World)
      → (dispatch_notification_delivery env now event d w).1.deliveries ≡ (
          if env.fails w.calls
          then w.deliveries
          else update_notification_delivery_status d.id
              (update_of now d (answer_of event d w))
              w.deliveries)
  unfolding dispatch_notification_delivery
  deliveries-dispatch now event d w =
      let (calls, rows) = call_adapter_lem (env.adapter d.channel) event d w in
      let after = (call_adapter env (env.adapter d.channel) event d w).1 in
      let u = update_of now d (answer_of event d w) in
      deliveries-handle_answer now d (answer_of event d w) after
      ∙ ap
          (λ c.
            if env.fails c
            then after.deliveries
            else update_notification_delivery_status d.id u after.deliveries)
          calls
      ∙ ap (λ ds. if env.fails w.calls then ds else update_notification_delivery_status d.id u ds)
          rows

  update_of-Tried :
      (now : Time) (d : NotificationDelivery) (answer : Provider)
      → Tried d (updated_delivery (update_of now d answer) d)
  unfolding updated_delivery sent_update failure_update
  update_of-Tried now d (delivered message_id response) = (refl, inl refl)
  update_of-Tried now d (refused failure message) = ground arith

  -- If the row of a delivery is the delivery, then after the attempt the row is one attempt further,
  -- and sent, scheduled again while an attempt is left, or dead with no time of a retry; it is as it
  -- was if the statement failed. The rows of the other deliveries are as they were.
  pub dispatch_notification_delivery-Tried :
      (now : Time) (event : NotificationEvent) (d : NotificationDelivery) (w : World)
      → get_notification_delivery_by_id d.id w.deliveries ≡ some d
      → ((d' : NotificationDelivery) × (get_notification_delivery_by_id d.id
              (dispatch_notification_delivery env now event d w).1.deliveries
            ≡ some d')
          × (((env.fails w.calls ≡ true) × (d' ≡ d)) ⊎ ((env.fails w.calls ≡ false) × Tried d d')))
        × ((id : Uuid)
            → id ≢ d.id
            → get_notification_delivery_by_id id
                (dispatch_notification_delivery env now event d w).1.deliveries
              ≡ get_notification_delivery_by_id id w.deliveries)
  dispatch_notification_delivery-Tried now event d w h =
      let u = update_of now d (answer_of event d w) in
      elim (Bool-cases (env.fails w.calls)) [
        | inl e ↦
            rw (deliveries-dispatch now event d w, e) ((d, h, inl (refl, refl)), λ id other. refl)
        | inr e ↦
            rw (deliveries-dispatch now event d w, e)
              (
                (
                  updated_delivery u d,
                  get-update_same u w.deliveries d h,
                  inr (refl, update_of-Tried now d (answer_of event d w)),
                ),
                λ id other.
                    get-update_other id d.id u w.deliveries (ground (arith, ==_iff d.id id)),
              )
      ]
