-- ===== src/Notify/Router.antt =====
-- server/internal/notification_routing.go: from channels to routes. The map of routes is the list of
-- its entries, one for each channel.
pub mod Resolution
use agents_management.Prelude.{
  ℕ, Bool, true, false, not, ◌||◌, Option, none, some, List, [], ◌∷◌, Text, text_eq, trim, cut,
  is_nil, if◌then◌else◌, ℤ, pos, ◌<=◌,
}
use agents_management.Storage.Model.{Task}
use agents_management.Notify.Unique.{unique_strings}

pub record Route : Type 0 where
  pub channel : Text
  pub destination : Text
  pub max_attempts : ℤ

-- routes[channel]
unfoldable pub get_route : List Route → Text → Option Route
get_route [] channel = none
get_route (r ∷ routes) channel =
    if text_eq r.channel channel then some r else get_route routes channel

-- routes[route.channel] = route
unfoldable pub put_route : List Route → Route → List Route
put_route [] route = route ∷ []
put_route (r ∷ routes) route =
    let rest = put_route routes route in
    if text_eq r.channel route.channel then route ∷ routes else r ∷ rest

with_attempts : Route → Route
with_attempts route =
    if route.max_attempts <= pos 0 then record route { max_attempts = pos 3 } else route

add_route : List Route → Route → List Route
unfolding with_attempts
add_route router route =
    if is_nil route.channel || is_nil route.destination
    then router
    else put_route router (with_attempts route)

add_routes : List Route → List Route → List Route
unfolding add_route
add_routes router [] = router
add_routes router (route ∷ routes) = add_routes (add_route router route) routes

unfoldable pub new_router : List Route → List Route
unfolding add_routes
new_router routes = add_routes [] routes

-- The resolved routes, and the channels without a route: an error if there are any.
pub record Resolved : Type 0 where
  pub routes : List Route
  pub missing : List Text

found_or_missing : Option Route → Text → Resolved → Resolved
found_or_missing none channel rest = record rest { missing = channel ∷ rest.missing }
found_or_missing (some route) channel rest = record rest { routes = route ∷ rest.routes }

unfoldable pub resolve_channels : List Route → List Text → Resolved
unfolding found_or_missing
resolve_channels router [] = record { routes = []; missing = [] }
resolve_channels router (channel ∷ channels) =
    found_or_missing (get_route router channel) channel (resolve_channels router channels)

retarget : Option Text → Route → Route
retarget none route = route
retarget (some target) route = record route { destination = trim target }

unfoldable pub resolve_destinations : List Route → List Text → Resolved
unfolding found_or_missing retarget
resolve_destinations router [] = record { routes = []; missing = [] }
resolve_destinations router (destination ∷ destinations) =
    let rest = resolve_destinations router destinations in
    let (before, target) = cut 58 destination in
    let channel = trim before in
    if is_nil channel
    then rest
    else found_or_missing
        (elim (get_route router channel) [ none ↦ none | some r ↦ some (retarget target r) ])
        channel rest

unfoldable pub resolve_task_destinations : List Route → List Text → Resolved
unfolding resolve_destinations
resolve_task_destinations router destinations =
    resolve_destinations router (unique_strings destinations)

default_destinations : Option Task → List Text
default_destinations none = []
default_destinations (some task) = task.default_destinations

unfoldable pub resolve : List Route → Option Task → List Text → Resolved
unfolding default_destinations
resolve router task channels =
    if not (is_nil (default_destinations task))
    then resolve_task_destinations router (default_destinations task)
    else if is_nil channels
    then record { routes = []; missing = [] }
    else resolve_channels router (unique_strings channels)
