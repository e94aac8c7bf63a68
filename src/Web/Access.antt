-- ===== src/Web/Access.antt =====
-- The access pages of server/internal/web/handlers.go: what an administrator does with users and
-- their roles.
pub mod Admins
pub mod Granted
pub mod Administered
pub mod Safety
pub mod Answered
pub mod Accounts
pub mod Passwords
pub mod Tests
use agents_management.Prelude.{
  ℕ, suc, Bool, true, false, not, ◌&&◌, ◌||◌, Option, none, some, List, [], ◌∷◌, ◌++◌, Text, codes,
  text_eq, contains, exists, to_lower, trim, is_nil, has_prefix, sort_strings, leb, if◌then◌else◌,
}
use agents_management.Storage.Model.{User, Role}
use agents_management.Storage.Users.{
  list_users, create_user, update_user_password, update_user_status, ensure_roles, set_user_roles,
}
use agents_management.Auth.{is_admin, role_admin, role_full_access}
use agents_management.Server.World.{Env, World, M, ◌>>=◌, pure, stored}
use agents_management.Web.Request.{
  Request, Reply, bad_request, forbidden, form_value, form_values, flash,
}

distinct_role_names : List Text → List Text → List Text
distinct_role_names seen [] = []
distinct_role_names seen (role ∷ roles) =
    let name = trim (to_lower role) in
    let skipped = is_nil name || contains seen name in
    let rest = distinct_role_names (if skipped then seen else name ∷ seen) roles in
    if skipped then rest else name ∷ rest

unfoldable pub unique_role_names : List Text → List Text
unfolding distinct_role_names
unique_role_names roles = sort_strings (distinct_role_names [] roles)

unfoldable pub contains_any_role : List Text → List Text → Bool
contains_any_role roles expected =
    exists (λ role. exists (λ candidate. text_eq role candidate) expected) roles

abbrev pub is_active_admin : User → Bool
is_active_admin u =
    u.is_active && exists (λ role. text_eq role role_admin || text_eq role role_full_access) u.roles

-- The loop over the users, with the number of active administrators and whether the user is one.
unfoldable pub count_admins : Text → List User → ℕ → Bool → ℕ × Bool
count_admins username [] active_admins target = (active_admins, target)
count_admins username (u ∷ users) active_admins target =
    count_admins username users (if is_active_admin u then suc active_admins else active_admins)
      (if is_active_admin u && text_eq u.username username then true else target)

unfoldable pub is_last_active_admin : List User → Text → Bool
is_last_active_admin users username =
    let (active_admins, target) = count_admins username users 0 false in
    target && leb active_admins 1

abbrev role : Text → Text → Role
role name description = record { name = name; description = description }

abbrev pub managed_admin : Role
managed_admin = role role_admin (codes "Full access to all agents and actions")

abbrev pub managed_full_access : Role
managed_full_access =
    role role_full_access (codes "Full access to all agents and actions without the admin label")

unfoldable pub managed_actions : List Role
managed_actions =
    role (codes "action.exec_command") (codes "Allows creating and managing EXEC_COMMAND tasks")
    ∷ role (codes "action.exec_python_script")
        (codes "Allows creating and managing EXEC_PYTHON_SCRIPT tasks")
    ∷ role (codes "action.fetch_file") (codes "Allows creating and managing FETCH_FILE tasks")
    ∷ role (codes "action.push_file") (codes "Allows creating and managing PUSH_FILE tasks")
    ∷ role (codes "action.agent_update") (codes "Allows creating and managing AGENT_UPDATE tasks")
    ∷ []

unfoldable pub default_managed_roles : List Role
unfolding managed_actions
default_managed_roles = managed_admin ∷ managed_full_access ∷ managed_actions

unfoldable pub roles_of_names : List Text → List Role
roles_of_names [] = []
roles_of_names (name ∷ names) =
    let rest = roles_of_names names in
    if has_prefix (codes "agent:") name
    then role name (codes "Access to specific agent") ∷ rest
    else if has_prefix (codes "exec_policy:") name
    then role name (codes "Access to specific EXEC_COMMAND policy") ∷ rest
    else rest

unfoldable pub roles_to_ensure : List Text → List Role
unfolding roles_of_names default_managed_roles
roles_to_ensure names = default_managed_roles ++ roles_of_names names

-- requireAdmin and r.ParseForm(), which every handler starts with
unfoldable pub admitted : Request → M Reply → M Reply
admitted r handler =
    if not (is_admin r.principal)
    then pure (forbidden (codes "Forbidden"))
    else if r.form_error
    then pure (bad_request (codes "Invalid form submission"))
    else handler

-- A statement that changes the users, and the answers if it fails and if it does not.
abbrev pub users_written : Option (List User) → World → Option (Unit {0}) × World
users_written none w = (none, w)
users_written (some users) w = (some tt, record w { users = users })

unfoldable pub users_changed : (World → Option (List User)) → World → Option (Unit {0}) × World
users_changed change w = users_written (change w) w

abbrev pub answer : Text → Text → Option (Unit {0}) → M Reply
answer failure success none = pure (flash failure)
answer failure success (some _) = pure (flash success)

abbrev pub hash_of : Env → Text → World → Text
hash_of env password w = env.crypt password (env.gen_salt w.calls)

-- What follows ListUsers: the error, the refusal for the last administrator, or the rest.
unfoldable pub with_other_admin : Text → Text → Text → M Reply → Option (List User) → M Reply
with_other_admin username failure refusal handler none = pure (flash failure)
with_other_admin username failure refusal handler (some users) =
    if is_last_active_admin users username then pure (flash refusal) else handler

module _ (env : Env) where
  unfoldable pub change_users : (World → Option (List User)) → Text → Text → M Reply
  unfolding users_changed
  change_users change failure success = stored env (users_changed change) >>= answer failure success

  -- ListUsers
  unfoldable pub stored_users : M (Option (List User))
  stored_users = stored env (λ w. (some (list_users w.users), w))

  unfoldable pub create_user_page : Request → M Reply
  create_user_page r = admitted r (
      let username = trim (form_value r (codes "username")) in
      let password = form_value r (codes "password") in
      if is_nil username || is_nil password
      then pure (flash (codes "Username+and+password+are+required"))
      else change_users (λ w. create_user username (hash_of env password w) w.users)
          (codes "Failed+to+create+user") (codes "User+created"))

  unfoldable pub update_user_password_page : Request → M Reply
  update_user_password_page r = admitted r (
      let password = form_value r (codes "password") in
      if is_nil (trim password)
      then pure (flash (codes "Password+cannot+be+empty"))
      else change_users
          (λ w. some (update_user_password r.username (hash_of env password w) w.users))
          (codes "Failed+to+update+password") (codes "Password+updated"))

  unfoldable pub store_status : Text → Bool → M Reply
  store_status username is_active =
      change_users (λ w. some (update_user_status username is_active w.users))
        (codes "Failed+to+update+status") (codes "Status+updated")

  unfoldable pub update_user_status_page : Request → M Reply
  unfolding store_status
  update_user_status_page r = admitted r (
      if text_eq (form_value r (codes "is_active")) (codes "true")
      then store_status r.username true
      else (stored_users
          >>= with_other_admin r.username (codes "Failed+to+validate+status+change")
              (codes "Cannot+disable+the+last+active+administrator")
              (store_status r.username false)))

  -- EnsureRoles
  unfoldable pub store_roles : List Text → M (Option (Unit {0}))
  store_roles names =
      stored env (λ w. (some tt, record w { roles = ensure_roles w.roles (roles_to_ensure names) }))

  unfoldable pub set_roles : Text → List Text → Option (Unit {0}) → M Reply
  set_roles username names none = pure (flash (codes "Failed+to+prepare+roles"))
  set_roles username names (some _) =
      change_users (λ w. set_user_roles w.roles username names w.users)
        (codes "Failed+to+update+roles") (codes "Roles+updated")

  unfoldable pub assign : Text → List Text → M Reply
  unfolding store_roles set_roles
  assign username names = store_roles names >>= set_roles username names

  unfoldable pub update_user_roles_page : Request → M Reply
  unfolding assign
  update_user_roles_page r = admitted r (
      let names = unique_role_names (form_values r.form (codes "roles")) in
      if contains_any_role names (role_admin ∷ role_full_access ∷ [])
      then assign r.username names
      else (stored_users
          >>= with_other_admin r.username (codes "Failed+to+validate+role+change")
              (codes "Cannot+remove+admin+from+the+last+active+administrator")
              (assign r.username names)))
