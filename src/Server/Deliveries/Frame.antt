-- ===== src/Server/Deliveries/Frame.antt =====
-- What an attempt to deliver leaves as it is: all but the events, the deliveries and the counters.
use agents_management.Prelude.{int32_suc, ℕ, suc, Option, none, some, List, ◌≡◌, refl}
use agents_management.Storage.Model.{NotificationEvent, NotificationDelivery, Time}
use agents_management.Server.World.{Env, World, pure, stored, draw, Provider, delivered, refused}
use agents_management.Server.Deliveries.{
  dispatch_notification_delivery, call_adapter, handle_answer, save_update, sent_update,
  failure_update, sent_object, failed_object,
}
use agents_management.Server.Keeps.{Keeps, Keeps-bind, Keeps-stored}

-- `f` does not look at the events, the deliveries and the counters.
pub record Ignores {X : Type 0} (f : World → X) : Type 0 where
  pub ignores :
      (w : World) (events : List NotificationEvent) (deliveries : List NotificationDelivery)
      (calls attempts drawn : ℕ)
      → f (record w {
        events = events;
        deliveries = deliveries;
        calls = calls;
        attempts = attempts;
        drawn = drawn;
      })
        ≡ f w

module _ {X : Type 0} (f : World → X) (frame : Ignores f) (env : Env) where
  pub Keeps-pure : {A : Type 0} (a : A) → Keeps f (pure a)
  Keeps-pure a = record { kept = λ w. refl }

  pub Keeps-call :
      {A : Type 0} (op : World → Option A × World)
      → ((w : World) → f (op w).1 ≡ f w)
      → Keeps f (stored env op)
  Keeps-call op k =
      Keeps-stored f env op
        (λ w. frame.ignores w w.events w.deliveries (suc w.calls) w.attempts w.drawn) k

  pub Keeps-draw : Keeps f (draw env)
  unfolding draw
  Keeps-draw = record {
    kept = λ w. frame.ignores w w.events w.deliveries w.calls w.attempts (suc w.drawn);
  }

  Keeps-call_adapter :
      (adapter : Option (ℕ → NotificationEvent → NotificationDelivery → Provider))
      (event : NotificationEvent) (d : NotificationDelivery)
      → Keeps f (call_adapter env adapter event d)
  unfolding call_adapter
  Keeps-call_adapter none event d = record { kept = λ w. refl }
  Keeps-call_adapter (some deliver) event d = record {
    kept = λ w. frame.ignores w w.events w.deliveries w.calls (suc w.attempts) w.drawn;
  }

  Keeps-handle_answer :
      (now : Time) (d : NotificationDelivery) (answer : Provider)
      → Keeps f (handle_answer env now d answer)
  unfolding handle_answer save_update
  Keeps-handle_answer now d (delivered message_id response) =
      let u = sent_update now (int32_suc d.attempt) message_id response in
      Keeps-bind f (save_update env d.id u) (λ saved. pure (sent_object env d u saved))
        (Keeps-call _ (λ w. frame.ignores w w.events _ w.calls w.attempts w.drawn))
        (λ saved. Keeps-pure (sent_object env d u saved))
  Keeps-handle_answer now d (refused failure message) =
      let u = failure_update env now d (int32_suc d.attempt) failure message in
      Keeps-bind f (save_update env d.id u) (λ saved. pure (failed_object env d u saved))
        (Keeps-call _ (λ w. frame.ignores w w.events _ w.calls w.attempts w.drawn))
        (λ saved. Keeps-pure (failed_object env d u saved))

  pub Keeps-dispatch :
      (now : Time) (event : NotificationEvent) (d : NotificationDelivery)
      → Keeps f (dispatch_notification_delivery env now event d)
  unfolding dispatch_notification_delivery
  Keeps-dispatch now event d =
      Keeps-bind f (call_adapter env (env.adapter d.channel) event d) _
        (Keeps-call_adapter (env.adapter d.channel) event d)
        (λ answer. Keeps-handle_answer now d answer)
