-- ===== src/Events/Given.antt =====
-- What a client has been given, and what each step leaves of it.
use agents_management.Prelude.{
  ℕ, Bool, true, false, List, [], ◌∷◌, ◌++◌, ltb, length, length-append, ◌==◌, ==_iff,
  if◌then◌else◌, ◌≡◌, refl, sym, ◌∙◌, ap, subst, arith, Text, ◌≤◌, Bool-cases, inl, inr,
}
use mathlib.Core.List.{append_assoc}
use agents_management.Events.{
  Client, Phase, waiting, sending, stopped, Broker, update, offer, is_locked,
}

-- The first list is the second with some events left out: each event at the end is given or passed over.
pub data Given : List Text → List Text → Type 0 where
  nothing : Given [] []
  given :
      {xs ys : List Text} (event : Text) {xs' ys' : List Text}
      → Given xs ys
      → xs' ≡ xs ++ (event ∷ [])
      → ys' ≡ ys ++ (event ∷ [])
      → Given xs' ys'
  passed_over :
      {xs ys : List Text} (event : Text) {ys' : List Text}
      → Given xs ys
      → ys' ≡ ys ++ (event ∷ [])
      → Given xs ys'

abbrev pub all_given : Client → List Text
all_given c = c.received ++ c.buffer

pub record IsServed (taken : List Text) (c : Client) : Type 0 where
  pub in_order : Given (all_given c) taken
  pub has_room : length c.buffer ≤ c.capacity
  pub never_closed : c.subscribed ≡ true → c.closed ≡ false

-- The client is served up to the events that were taken, but for the one that is still to be sent to it.
abbrev pub IsUpTo : List Text → Phase → ℕ → Client → Type 0
IsUpTo taken waiting i c = IsServed taken c
IsUpTo taken stopped i c = IsServed taken c
IsUpTo taken (sending event left) i c =
    (before : List Text) × (taken ≡ before ++ (event ∷ []))
    × IsServed (if left i then before else taken) c
    × (left i ≡ true → c.subscribed ≡ true)

abbrev pub IsOrdered : Broker → Type 0
IsOrdered b = (i : ℕ) → IsUpTo b.taken b.phase i (b.clients i)

pub offer-IsServed :
    (event : Text) (c : Client) (before taken : List Text)
    → taken ≡ before ++ (event ∷ [])
    → IsServed before c
    → IsServed taken (offer event c)
unfolding offer
offer-IsServed event c before taken e s = elim (Bool-cases (ltb (length c.buffer) c.capacity)) [
  | inl h ↦ rw h (record {
    in_order = given event s.in_order (sym (append_assoc c.received c.buffer (event ∷ []))) e;
    has_room = ground (arith, h, length-append c.buffer (event ∷ []));
    never_closed = s.never_closed;
  })
  | inr h ↦ rw h (record {
    in_order = passed_over event s.in_order e;
    has_room = s.has_room;
    never_closed = s.never_closed;
  })
]

pub IsUpTo-changed :
    (taken : List Text) (phase : Phase) (i : ℕ) (c d : Client)
    → ((t : List Text) → IsServed t c → IsServed t d)
    → (c.subscribed ≡ true → d.subscribed ≡ true)
    → IsUpTo taken phase i c
    → IsUpTo taken phase i d
IsUpTo-changed taken waiting i c d k s u = k taken u
IsUpTo-changed taken stopped i c d k s u = k taken u
IsUpTo-changed taken (sending event left) i c d k s (before, e, served, still) =
    (before, e, k (if left i then before else taken) served, λ l. s (still l))

-- A change of one client
pub updated :
    (b : Broker) (i : ℕ) (d : Client)
    → IsOrdered b
    → IsUpTo b.taken b.phase i d
    → (j : ℕ) → IsUpTo b.taken b.phase j (update b.clients i d j)
updated b i d o h j = elim (Bool-cases (j == i)) [
  | inl e ↦ rw e (subst (λ k. IsUpTo b.taken b.phase k d) (sym ((==_iff j i).0 e)) h)
  | inr e ↦ rw e (o j)
]

pub unlocked-IsServed :
    (taken : List Text) (phase : Phase) (i : ℕ) (c : Client)
    → is_locked phase ≡ false
    → IsUpTo taken phase i c
    → IsServed taken c
unlocked-IsServed taken waiting i c h u = u
unlocked-IsServed taken stopped i c h u = u
unlocked-IsServed taken (sending event left) i c h u = absurd (ground (arith, h))

pub served_unlocked :
    (taken : List Text) (phase : Phase) (i : ℕ) (c : Client)
    → is_locked phase ≡ false
    → IsServed taken c
    → IsUpTo taken phase i c
served_unlocked taken waiting i c h u = u
served_unlocked taken stopped i c h u = u
served_unlocked taken (sending event left) i c h u = absurd (ground (arith, h))

pub in_phase :
    (b : Broker) (phase : Phase)
    → b.phase ≡ phase
    → IsOrdered b
    → (i : ℕ) → IsUpTo b.taken phase i (b.clients i)
in_phase b phase e o i = subst (λ p. IsUpTo b.taken p i (b.clients i)) e (o i)

-- A client that is no longer subscribed
pub out_of_broker :
    (taken : List Text) (c d : Client)
    → all_given d ≡ all_given c
    → d.capacity ≡ c.capacity
    → d.buffer ≡ c.buffer
    → d.subscribed ≡ false
    → IsServed taken c
    → IsServed taken d
out_of_broker taken c d all capacity buffer off s = record {
  in_order = subst (λ xs. Given xs taken) (sym all) s.in_order;
  has_room = rw (buffer, capacity) s.has_room;
  never_closed = λ on. cc;
}

pub received-IsServed :
    (taken : List Text) (c : Client) (event : Text) (rest : List Text)
    → c.buffer ≡ event ∷ rest
    → IsServed taken c
    → IsServed taken (record c { buffer = rest; received = c.received ++ (event ∷ []) })
received-IsServed taken c event rest full s = record {
  in_order =
      subst (λ xs. Given xs taken)
        (ap (λ xs. c.received ++ xs) full ∙ sym (append_assoc c.received (event ∷ []) rest))
        s.in_order;
  has_room = let room = s.has_room in omega (arith, ap (length {A = Text}) full);
  never_closed = s.never_closed;
}

pub subscribed-IsServed :
    (taken : List Text) (c : Client)
    → c.closed ≡ false
    → IsServed taken c
    → IsServed taken (record c { subscribed = true })
subscribed-IsServed taken c fresh s = record {
  in_order = s.in_order;
  has_room = s.has_room;
  never_closed = λ on. fresh;
}

pub taken_for :
    (subscribed : Bool) (taken : List Text) (event : Text) (c : Client)
    → IsServed taken c
    → IsServed (if subscribed then taken else taken ++ (event ∷ [])) c
taken_for true taken event c s = s
taken_for false taken event c s = record {
  in_order = passed_over event s.in_order refl;
  has_room = s.has_room;
  never_closed = s.never_closed;
}

pub sent_to :
    (taken : List Text) (event : Text) (left : ℕ → Bool) (i : ℕ) (c : Client)
    → left i ≡ true
    → IsUpTo taken (sending event left) i c
    → IsServed taken (offer event c)
sent_to taken event left i c todo (before, e, served, still) =
    offer-IsServed event c before taken e
      (subst (λ t. IsServed (if t then before else taken) c) todo served)
