-- ===== src/Events/Order.antt =====
-- What a client has been given, against the events that the broker has taken.
use agents_management.Prelude.{
  ℕ, Bool, true, false, List, ◌++◌, length, ◌==◌, if◌then◌else◌, ◌≡◌, refl, subst, arith, Text, ◌≤◌,
  Bool-cases, inl, inr,
}
use agents_management.Events.{
  Client, Phase, waiting, sending, stopped, Broker, Step, publish, take, send, sent, subscribe,
  unsubscribe, receive, stop, halt, Reach, start, later,
}
use agents_management.Events.Given.{
  Given, all_given, IsServed, IsUpTo, IsOrdered, IsUpTo-changed, updated, unlocked-IsServed,
  served_unlocked, in_phase, out_of_broker, received-IsServed, subscribed-IsServed, taken_for,
  sent_to, nothing, passed_over,
}

Step-IsOrdered : {b c : Broker} → Step b c → IsOrdered b → IsOrdered c
Step-IsOrdered {b} (publish event empty) o i = o i
Step-IsOrdered {b} (take event idle full) o i = (
  b.taken,
  refl,
  taken_for (b.clients i).subscribed b.taken event (b.clients i) (in_phase b waiting idle o i),
  λ on. on,
)
Step-IsOrdered {b} (send event left i busy todo) o j =
    let upto = in_phase b (sending event left) busy o in
    elim (Bool-cases (j == i)) [
      | inl e ↦ rw e (
        (upto j).0,
        (upto j).1,
        sent_to b.taken event left i (b.clients i) todo (upto i),
        λ on. cc,
      )
      | inr e ↦ rw e (upto j)
    ]
Step-IsOrdered {b} (sent event left busy none_left) o i =
    let (before, e, served, still) = in_phase b (sending event left) busy o i in
    subst (λ t. IsServed (if t then before else b.taken) (b.clients i)) (none_left i) served
Step-IsOrdered {b} (subscribe i free fresh) o j =
    updated b i _ o
      (served_unlocked b.taken b.phase i _ free (
        subscribed-IsServed b.taken (b.clients i) fresh
          (unlocked-IsServed b.taken b.phase i (b.clients i) free (o i))))
      j
Step-IsOrdered {b} (unsubscribe i free) o j =
    updated b i _ o
      (served_unlocked b.taken b.phase i _ free (
        out_of_broker b.taken (b.clients i) _ refl refl refl refl
          (unlocked-IsServed b.taken b.phase i (b.clients i) free (o i))))
      j
Step-IsOrdered {b} (receive i event rest full) o j =
    updated b i _ o
      (IsUpTo-changed b.taken b.phase i (b.clients i) _
        (λ t s. received-IsServed t (b.clients i) event rest full s) (λ on. on) (o i))
      j
Step-IsOrdered {b} (stop going) o i = o i
Step-IsOrdered {b} (halt idle quit) o i =
    out_of_broker b.taken (b.clients i) _ refl refl refl refl (in_phase b waiting idle o i)

Reach-IsOrdered : {capacity : ℕ → ℕ} {b : Broker} → Reach capacity b → IsOrdered b
Reach-IsOrdered start =
    λ i. record { in_order = nothing; has_room = omega arith; never_closed = λ on. refl }
Reach-IsOrdered (later r s) = Step-IsOrdered s (Reach-IsOrdered r)

IsUpTo-Given :
    (taken : List Text) (phase : Phase) (i : ℕ) (c : Client)
    → IsUpTo taken phase i c
    → Given (all_given c) taken × (length c.buffer ≤ c.capacity)
IsUpTo-Given taken waiting i c u = (u.in_order, u.has_room)
IsUpTo-Given taken stopped i c u = (u.in_order, u.has_room)
IsUpTo-Given taken (sending event left) i c (before, e, served, still) =
    elim (Bool-cases (left i)) [
      | inl h ↦
          let s = subst (λ t. IsServed (if t then before else taken) c) h served in
          (passed_over event s.in_order e, s.has_room)
      | inr h ↦
          let s = subst (λ t. IsServed (if t then before else taken) c) h served in
          (s.in_order, s.has_room)
    ]

-- Whatever the goroutines do, in any order: what a client has received, with what waits in its channel, is
-- the list of the events that the broker has taken with some left out, each at most once and in order;
-- the channel holds no more than its capacity; and an event is only sent to a channel that is open.
pub Reach-Given :
    (capacity : ℕ → ℕ) (b : Broker) (i : ℕ)
    → Reach capacity b
    → Given ((b.clients i).received ++ (b.clients i).buffer) b.taken
      × (length (b.clients i).buffer ≤ (b.clients i).capacity)
      × ((event : Text) (left : ℕ → Bool)
          → b.phase ≡ sending event left
          → left i ≡ true
          → (b.clients i).closed ≡ false)
Reach-Given capacity b i r =
    let ordered = Reach-IsOrdered r in
    let (order, room) = IsUpTo-Given b.taken b.phase i (b.clients i) (ordered i) in
    (
      order,
      room,
      λ event left busy todo.
          let (before, e, served, still) = in_phase b (sending event left) busy ordered i in
          served.never_closed (still todo),
    )
