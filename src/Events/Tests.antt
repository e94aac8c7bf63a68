-- ===== src/Events/Tests.antt =====
-- One client that subscribes and is given an event.
use agents_management.Prelude.{
  ℕ, Bool, true, false, none, some, [], ◌∷◌, ◌++◌, length, ◌≡◌, ◌≤◌, refl, Text, codes,
}
use agents_management.Events.{
  Broker, sending, new_event_broker, subscribe, publish, take, Reach, start, later, update,
}
use agents_management.Events.Given.{Given}
use agents_management.Events.Order.{Reach-Given}

abbrev one_place : ℕ → ℕ
one_place i = 1

abbrev event : Text
event = codes "{}"

abbrev subscribed_broker : Broker
subscribed_broker =
    let b = new_event_broker one_place in
    record b { clients = update b.clients 0 (record (b.clients 0) { subscribed = true }) }

abbrev loaded_broker : Broker
loaded_broker = record subscribed_broker { slot = some event }

abbrev busy_broker : Broker
busy_broker = record loaded_broker {
  slot = none;
  taken = event ∷ [];
  phase = sending event (λ i. (loaded_broker.clients i).subscribed);
}

busy : Reach one_place busy_broker
busy =
    later (later (later start (subscribe 0 refl refl)) (publish event refl)) (take event refl refl)

Reach-Given_example :
    Given ((busy_broker.clients 0).received ++ (busy_broker.clients 0).buffer) busy_broker.taken
    × (length (busy_broker.clients 0).buffer ≤ (busy_broker.clients 0).capacity)
    × ((e : Text) (left : ℕ → Bool)
        → busy_broker.phase ≡ sending e left
        → left 0 ≡ true
        → (busy_broker.clients 0).closed ≡ false)
Reach-Given_example = Reach-Given one_place busy_broker 0 busy
