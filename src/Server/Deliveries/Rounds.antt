-- ===== src/Server/Deliveries/Rounds.antt =====
-- A delivery that is refused again and again, and the deliveries that a round leaves alone.
use agents_management.Prelude.{
  ℕ, zero, suc, ◌≤◌, ◌<◌, Bool, false, ◌&&◌, Option, none, some, List, [], ◌∷◌, ◌≡◌, refl, inl, inr,
  arith, Text, ◌==◌, ==_iff, if◌then◌else◌, Bool-cases, Uuid, pos, int32_suc, max_int32, exists,
  select, take,
}
use agents_management.Storage.Model.{NotificationEvent, NotificationDelivery, DeliveryStatus, Time}
use agents_management.Storage.Notifications.{
  updated_delivery, get_notification_delivery_by_id, is_due,
  list_notification_deliveries_for_dispatch, get_notification_event_by_id,
}
use agents_management.Server.World.{Env, World, stored, DeliveryFailure}
use agents_management.Server.Keeps.{Keeps, Keeps-bind, Keeps-stored}
use agents_management.Server.Deliveries.{
  failure_update, dispatch_notification_delivery, dispatch_loaded, process_each, process_listed,
  process_due_deliveries,
}
use agents_management.Server.Deliveries.Outcomes.{deliveries-dispatch, get-update_other}

module _ (env : Env) (now : ℕ → Time) (failure : ℕ → DeliveryFailure) (message : ℕ → Text) where
  -- The delivery after `n` refused attempts.
  abbrev pub refused_times : ℕ → NotificationDelivery → NotificationDelivery
  refused_times zero d = d
  refused_times (suc n) d =
      let before = refused_times n d in
      updated_delivery
        (failure_update env (now n) before (int32_suc before.attempt) (failure n) (message n))
        before

  refused_times_lem :
      (n m : ℕ) (d : NotificationDelivery)
      → d.attempt ≡ pos 0
      → d.max_attempts ≡ pos m
      → n ≤ max_int32
      → ((refused_times n d).attempt ≡ pos n) × ((refused_times n d).max_attempts ≡ pos m)
  unfolding updated_delivery failure_update int32_suc
  refused_times_lem zero m d h k b = (h, k)
  refused_times_lem (suc n) m d h k b =
      let ih = refused_times_lem n m d h k (omega arith) in ground arith

  -- A new delivery with `m` attempts that is refused each time is scheduled again after each attempt
  -- before the m-th, and dead after the m-th, and then it is never due again.
  pub refused_times-dead :
      (n m : ℕ) (d : NotificationDelivery)
      → d.attempt ≡ pos 0
      → d.max_attempts ≡ pos m
      → m ≤ max_int32
      → n < m
      → ((refused_times (suc n) d).attempt ≡ pos (suc n))
        × ((refused_times (suc n) d).status
            ≡ (if suc n == m then DeliveryStatus.dead_letter else DeliveryStatus.retry_scheduled))
        × ((at : Time) → suc n ≡ m → is_due at (refused_times (suc n) d) ≡ false)
  unfolding updated_delivery failure_update is_due
  refused_times-dead n m d h k b l =
      let (a, x) = refused_times_lem n m d h k (omega arith) in
      let (a₁, x₁) = refused_times_lem (suc n) m d h k (omega arith) in
      ground (arith, ==_iff (suc n) m)

abbrev row : Uuid → World → Option NotificationDelivery
row id w = get_notification_delivery_by_id id w.deliveries

module _ (env : Env) (now : Time) (id : Uuid) where
  Keeps-dispatch :
      (event : NotificationEvent) (d : NotificationDelivery)
      → (d.id == id) ≡ false
      → Keeps (row id) (dispatch_notification_delivery env now event d)
  Keeps-dispatch event d h = record {
    kept = λ w. elim (Bool-cases (env.fails w.calls)) [
      | inl e ↦ rw (deliveries-dispatch env now event d w, e) refl
      | inr e ↦
          rw (deliveries-dispatch env now event d w, e) (get-update_other id d.id _ w.deliveries h)
    ];
  }

  Keeps-dispatch_loaded :
      (event : Option NotificationEvent) (d : NotificationDelivery)
      → (d.id == id) ≡ false
      → Keeps (row id) (dispatch_loaded env now event d)
  unfolding dispatch_loaded
  Keeps-dispatch_loaded none d h = record { kept = λ w. refl }
  Keeps-dispatch_loaded (some event) d h = record { kept = λ w. (Keeps-dispatch event d h).kept w }

  Keeps-process_each :
      (deliveries : List NotificationDelivery)
      → exists (λ d. d.id == id) deliveries ≡ false
      → Keeps (row id) (process_each env now deliveries)
  unfolding process_each exists
  Keeps-process_each [] h = record { kept = λ w. refl }
  Keeps-process_each (d ∷ deliveries) h =
      Keeps-bind (row id)
        (stored env (λ w. (get_notification_event_by_id d.notification_event_id w.events, w))) _
        (Keeps-stored (row id) env
          (λ w. (get_notification_event_by_id d.notification_event_id w.events, w)) (λ w. refl)
          (λ w. refl))
        (λ event.
          Keeps-bind (row id) (dispatch_loaded env now event d) _
            (Keeps-dispatch_loaded event d (ground arith))
            (λ _. Keeps-process_each deliveries (ground arith)))

exists-take :
    (p : NotificationDelivery → Bool) (n : ℕ) (ds : List NotificationDelivery)
    → exists p ds ≡ false
    → exists p (take n ds) ≡ false
unfolding exists
exists-take p zero ds h = refl
exists-take p (suc n) [] h = refl
exists-take p (suc n) (d ∷ ds) h = ground (arith, exists-take p n ds)

exists-select :
    (p q : NotificationDelivery → Bool) (ds : List NotificationDelivery)
    → exists (λ d. p d && q d) ds ≡ false
    → exists p (select q ds) ≡ false
unfolding exists select
exists-select p q [] h = refl
exists-select p q (d ∷ ds) h = ground (arith, exists-select p q ds)

-- A round of the retry processor leaves the row of `id` as it is if no delivery with this identifier
-- is due at the round's time.
pub process_due_deliveries-not_due :
    (env : Env) (now : Time) (batch_size : ℕ) (id : Uuid) (w : World)
    → exists (λ d. d.id == id && is_due now d) w.deliveries ≡ false
    → get_notification_delivery_by_id id (process_due_deliveries env now batch_size w).1.deliveries
      ≡ get_notification_delivery_by_id id w.deliveries
unfolding process_due_deliveries process_listed stored list_notification_deliveries_for_dispatch
process_due_deliveries-not_due env now batch_size id w h = elim (Bool-cases (env.fails w.calls)) [
  | inl e ↦ rw e refl
  | inr e ↦ rw e (
      (Keeps-process_each env now id (take batch_size (select (is_due now) w.deliveries)) (
          exists-take _ batch_size _
            (exists-select (λ d. d.id == id) (is_due now) w.deliveries h))).kept
        (record w { calls = suc w.calls }))
]
