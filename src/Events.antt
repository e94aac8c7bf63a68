-- ===== src/Events.antt =====
-- server/internal/events/events.go: the EventBroker. Each step is one action of the goroutine of `Start`
-- or of a goroutine that calls the broker, in any order; a client is known by the number of its channel.
pub mod Given
pub mod Order
pub mod Tests
use agents_management.Prelude.{
  ℕ, Bool, true, false, not, Option, none, some, List, [], ◌∷◌, ◌++◌, ltb, length, ◌==◌,
  if◌then◌else◌, ◌≡◌, Text,
}

-- A client's channel: its buffer, what was received from it, and whether it is in `clients`.
pub record Client : Type 0 where
  pub subscribed : Bool
  pub closed : Bool
  pub capacity : ℕ
  pub buffer : List Text
  pub received : List Text

-- What `Start` is doing: it waits in its `select`, it holds the read lock and has still to send the event
-- to the clients that pass the test, or it has returned.
pub data Phase : Type 0 where
  waiting : Phase
  sending : Text → (ℕ → Bool) → Phase
  stopped : Phase

-- `slot` is the channel `broadcast`, with room for one event; `taken` are the events that `Start` has
-- taken from it.
pub record Broker : Type 0 where
  pub clients : ℕ → Client
  pub slot : Option Text
  pub quit : Bool
  pub phase : Phase
  pub taken : List Text

abbrev pub update {ℓ} : {A : Type ℓ} → (ℕ → A) → ℕ → A → ℕ → A
update f i a j = if j == i then a else f j

-- select { case clientChan <- event: default: }
unfoldable pub offer : Text → Client → Client
offer event c =
    if ltb (length c.buffer) c.capacity then record c { buffer = c.buffer ++ (event ∷ []) } else c

abbrev pub is_locked : Phase → Bool
is_locked (sending event left) = true
is_locked _ = false

abbrev pub close_subscribed : Client → Client
close_subscribed c = record c {
  closed = if c.subscribed then true else c.closed;
  subscribed = false;
}

pub data Step (b : Broker) : Broker → Type 0 where
  -- Broadcast, which waits for room
  publish : (event : Text) → b.slot ≡ none → Step b (record b { slot = some event })
  take :
      (event : Text)
      → b.phase ≡ waiting
      → b.slot ≡ some event
      → Step b (record b {
        slot = none;
        taken = b.taken ++ (event ∷ []);
        phase = sending event (λ i. (b.clients i).subscribed);
      })
  send :
      (event : Text) (left : ℕ → Bool) (i : ℕ)
      → b.phase ≡ sending event left
      → left i ≡ true
      → Step b (record b {
        clients = update b.clients i (offer event (b.clients i));
        phase = sending event (update left i false);
      })
  sent :
      (event : Text) (left : ℕ → Bool)
      → b.phase ≡ sending event left
      → ((i : ℕ) → left i ≡ false)
      → Step b (record b { phase = waiting })
  -- A client subscribes with a channel that is not closed.
  subscribe :
      (i : ℕ)
      → is_locked b.phase ≡ false
      → (b.clients i).closed ≡ false
      → Step b
          (record b { clients = update b.clients i (record (b.clients i) { subscribed = true }) })
  unsubscribe :
      (i : ℕ)
      → is_locked b.phase ≡ false
      → Step b
          (record b { clients = update b.clients i (record (b.clients i) { subscribed = false }) })
  receive :
      (i : ℕ) (event : Text) (rest : List Text)
      → (b.clients i).buffer ≡ event ∷ rest
      → Step b (record b {
        clients = update b.clients i (record (b.clients i) {
          buffer = rest;
          received = (b.clients i).received ++ (event ∷ []);
        });
      })
  stop : b.quit ≡ false → Step b (record b { quit = true })
  halt :
      b.phase ≡ waiting
      → b.quit ≡ true
      → Step b (record b { clients = λ i. close_subscribed (b.clients i); phase = stopped })

-- NewEventBroker, with channels that nobody has used
abbrev pub new_client : ℕ → Client
new_client capacity = record {
  subscribed = false;
  closed = false;
  capacity = capacity;
  buffer = [];
  received = [];
}

abbrev pub new_event_broker : (ℕ → ℕ) → Broker
new_event_broker capacity = record {
  clients = λ i. new_client (capacity i);
  slot = none;
  quit = false;
  phase = waiting;
  taken = [];
}

pub data Reach (capacity : ℕ → ℕ) : Broker → Type 0 where
  start : Reach capacity (new_event_broker capacity)
  later : {b c : Broker} → Reach capacity b → Step b c → Reach capacity c
