-- ===== src/Notify/Router/Resolution.antt =====
-- What a router that was built from any routes resolves to.
use agents_management.Prelude.{
  false, not, ◌&&◌, ◌||◌, Option, none, some, List, [], ◌∷◌, ◌≡◌, refl, arith, Text, text_eq,
  text_eq_iff, contains, exists, trim, cut, is_nil, is_some, map, All, pos, ◌<=◌, Bool-cases,
  Option-cases, inl, inr,
}
use agents_management.Storage.Model.{Task}
use agents_management.Notify.Unique.{unique_strings}
use agents_management.Notify.Router.{
  Route, get_route, put_route, add_route, add_routes, new_router, with_attempts, Resolved,
  found_or_missing, resolve_channels, resolve_destinations, resolve_task_destinations, resolve,
  retarget, default_destinations,
}

-- A usable route: it has a channel, and at least one attempt.
abbrev pub IsUsable : Route → Type 0
IsUsable r = (is_nil r.channel ≡ false) × ((r.max_attempts <= pos 0) ≡ false)

with_attempts-IsUsable : (r : Route) → is_nil r.channel ≡ false → IsUsable (with_attempts r)
unfolding with_attempts
with_attempts-IsUsable r h = ground arith

put_route-IsUsable :
    (routes : List Route) (r : Route)
    → All IsUsable routes
    → IsUsable r
    → All IsUsable (put_route routes r)
unfolding put_route
put_route-IsUsable [] r h k = (k, tt)
put_route-IsUsable (q ∷ routes) r h k = elim (Bool-cases (text_eq q.channel r.channel)) [
  | inl e ↦ rw e (k, h.1)
  | inr e ↦ rw e (h.0, put_route-IsUsable routes r h.1 k)
]

add_route-IsUsable :
    (router : List Route) (r : Route) → All IsUsable router → All IsUsable (add_route router r)
unfolding add_route
add_route-IsUsable router r h = elim (Bool-cases (is_nil r.channel || is_nil r.destination)) [
  | inl e ↦ rw e h
  | inr e ↦
      rw e (put_route-IsUsable router (with_attempts r) h (with_attempts-IsUsable r (ground arith)))
]

add_routes-IsUsable :
    (router routes : List Route) → All IsUsable router → All IsUsable (add_routes router routes)
unfolding add_routes
add_routes-IsUsable router [] h = h
add_routes-IsUsable router (r ∷ routes) h =
    add_routes-IsUsable (add_route router r) routes (add_route-IsUsable router r h)

get_route-IsUsable :
    (routes : List Route) (channel : Text) (r : Route)
    → All IsUsable routes
    → get_route routes channel ≡ some r
    → IsUsable r × (r.channel ≡ channel)
unfolding get_route
get_route-IsUsable [] channel r h k = cc
get_route-IsUsable (q ∷ routes) channel r h k =
    ground (arith, text_eq_iff q.channel channel, get_route-IsUsable routes channel r)

found_or_missing-IsUsable :
    (found : Option Route) (channel : Text) (rest : Resolved)
    → ((r : Route) → found ≡ some r → IsUsable r)
    → All IsUsable rest.routes
    → All IsUsable (found_or_missing found channel rest).routes
unfolding found_or_missing
found_or_missing-IsUsable none channel rest h k = k
found_or_missing-IsUsable (some r) channel rest h k = (h r refl, k)

resolve_channels-IsUsable :
    (router : List Route) (channels : List Text)
    → All IsUsable router
    → All IsUsable (resolve_channels router channels).routes
unfolding resolve_channels
resolve_channels-IsUsable router [] h = tt
resolve_channels-IsUsable router (c ∷ channels) h =
    found_or_missing-IsUsable (get_route router c) c (resolve_channels router channels)
      (λ r e. (get_route-IsUsable router c r h e).0) (resolve_channels-IsUsable router channels h)

retargeted-IsUsable :
    (found : Option Route) (target : Option Text) (r : Route)
    → ((q : Route) → found ≡ some q → IsUsable q)
    → elim found [ none ↦ none | some q ↦ some (retarget target q) ] ≡ some r
    → IsUsable r
unfolding retarget
retargeted-IsUsable none target r h e = cc
retargeted-IsUsable (some q) target r h e = ground (arith, h q)

resolve_destinations-IsUsable :
    (router : List Route) (destinations : List Text)
    → All IsUsable router
    → All IsUsable (resolve_destinations router destinations).routes
unfolding resolve_destinations
resolve_destinations-IsUsable router [] h = tt
resolve_destinations-IsUsable router (d ∷ destinations) h =
    elim (Bool-cases (is_nil (trim (cut 58 d).0))) [
      | inl e ↦ rw e (resolve_destinations-IsUsable router destinations h)
      | inr e ↦ rw e (
          found_or_missing-IsUsable _ (trim (cut 58 d).0) (resolve_destinations router destinations)
            (λ r at.
              retargeted-IsUsable (get_route router (trim (cut 58 d).0)) (cut 58 d).1 r
                (λ q found. (get_route-IsUsable router (trim (cut 58 d).0) q h found).0) at)
            (resolve_destinations-IsUsable router destinations h))
    ]

-- Every route that a router resolves, for a task's destinations or for channels, has a channel and
-- allows at least one attempt, whatever routes the router was built from.
pub resolve-IsUsable :
    (routes : List Route) (task : Option Task) (channels : List Text)
    → All IsUsable (resolve (new_router routes) task channels).routes
unfolding resolve new_router
resolve-IsUsable routes task channels =
    let router = new_router routes in
    let usable = add_routes-IsUsable [] routes tt in
    elim (Bool-cases (is_nil (default_destinations task))) [
      | inl e ↦ elim (Bool-cases (is_nil channels)) [
        | inl f ↦ rw (e, f) tt
        | inr f ↦ rw (e, f) (resolve_channels-IsUsable router (unique_strings channels) usable)
      ]
      | inr e ↦ rw e (
          unfold resolve_task_destinations in
          resolve_destinations-IsUsable router (unique_strings (default_destinations task)) usable)
    ]

get_route-channel :
    (routes : List Route) (channel : Text) (r : Route)
    → get_route routes channel ≡ some r
    → r.channel ≡ channel
unfolding get_route
get_route-channel [] channel r k = cc
get_route-channel (q ∷ routes) channel r k =
    ground (arith, text_eq_iff q.channel channel, get_route-channel routes channel r)

module _ (router : List Route) (x : Text) where
  abbrev channels_of : List Route → List Text
  channels_of rs = map (λ r. r.channel) rs

  -- A channel is resolved if the router has a route for it, and missing if not; each channel that was
  -- asked for is one or the other.
  pub resolve_channels_lem :
      (channels : List Text)
      → (contains (channels_of (resolve_channels router channels).routes) x
          ≡ (contains channels x && is_some (get_route router x)))
        × (contains (resolve_channels router channels).missing x
            ≡ (contains channels x && not (is_some (get_route router x))))
  unfolding resolve_channels contains exists found_or_missing
  resolve_channels_lem [] = (refl, refl)
  resolve_channels_lem (c ∷ channels) =
      let ih = resolve_channels_lem channels in
      elim (Option-cases (get_route router c)) [
        | inl e ↦ ground (arith, ih, text_eq_iff c x)
        | inr (r, e) ↦ ground (arith, ih, text_eq_iff c x, get_route-channel router c r)
      ]
