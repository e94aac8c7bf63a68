-- ===== src/Web/Access/Tests.antt =====
-- The statements on the access pages, at two users.
use agents_management.Prelude.{
  true, false, none, some, List, [], ◌∷◌, ◌≡◌, refl, Text, codes, text_eq, exists, trim, trim_left,
  trim_right, is_space, contains,
}
use agents_management.Storage.Model.{User}
use agents_management.Storage.Users.{authenticate_user, list_users, insert_user}
use agents_management.Prelude.{text_leb}
use agents_management.Auth.{is_admin}
use agents_management.Server.World.{World, stored}
use agents_management.Server.Tests.{env, world, administrator}
use agents_management.Web.Request.{Request, form_value, form_values, flash}
use agents_management.Web.Access.{
  admitted, change_users, users_changed, stored_users, with_other_admin, store_status, count_admins,
  is_last_active_admin, update_user_status_page, update_user_password_page,
}
use agents_management.Web.Access.Admins.{distinct_names}
use agents_management.Web.Access.Safety.{
  AccessRequest, change_password, change_status, change_roles, serve, serve-Administered,
}
use agents_management.Web.Access.Administered.{Administered}
use agents_management.Prelude.{◌≢◌}
use agents_management.Web.Access.Accounts.{update_user_status_page-disabled}
use agents_management.Web.Access.Passwords.{
  active_user, with_hash, update_user_password_page-authenticate_user,
}

abbrev bob : User
bob = record { username = codes "bob"; password_hash = codes "b"; is_active = true; roles = [] }

abbrev two_users : World
two_users = record world { users = administrator ∷ bob ∷ [] }

abbrev request_by : Text → Text → Text → Text → Request
request_by role name key value = record {
  principal = some (record { username = codes "x"; roles = role ∷ [] });
  username = name;
  id = [];
  form = (key, value ∷ []) ∷ [];
  form_error = false;
  files = [];
}

abbrev disable_bob : Request
disable_bob = request_by (codes "admin") (codes "bob") (codes "is_active") (codes "false")

abbrev password_of_bob : Request
password_of_bob = request_by (codes "admin") (codes "bob") (codes "password") (codes "new")

abbrev roles_of_root : Request
roles_of_root = request_by (codes "admin") (codes "root") (codes "roles") (codes "agent:1")

abbrev requests : List AccessRequest
requests =
    change_status disable_bob ∷ change_roles roles_of_root ∷ change_password password_of_bob ∷ []

two_users-Administered : Administered two_users.users
unfolding distinct_names exists text_eq
two_users-Administered = record { distinct = refl; administrator = refl }

serve-Administered_example : Administered (serve env requests two_users).users
serve-Administered_example = serve-Administered env requests two_users two_users-Administered

update_user_status_page-disabled_example :
    authenticate_user env.crypt
      (update_user_status_page env disable_bob two_users).1.users
      (codes "bob")
      (codes "b")
    ≡ none
update_user_status_page-disabled_example =
    update_user_status_page-disabled env disable_bob two_users (codes "b")
      (unfold form_value form_values text_eq in λ e. cc)
      (unfold update_user_status_page admitted is_admin contains exists form_value form_values
          text_eq stored_users stored with_other_admin list_users insert_user text_leb
          is_last_active_admin count_admins store_status change_users users_changed flash in
        refl)

update_user_password_page-authenticate_user_example :
    (authenticate_user env.crypt
        (update_user_password_page env password_of_bob two_users).1.users
        (codes "bob")
        (codes "b")
      ≡ with_hash
          (codes "new")
          (text_eq (codes "new") (codes "b"))
          (active_user two_users.users (codes "bob")))
    × (codes "root" ≢ codes "bob"
        → authenticate_user env.crypt
            (update_user_password_page env password_of_bob two_users).1.users
            (codes "root")
            (codes "b")
          ≡ authenticate_user env.crypt two_users.users (codes "root") (codes "b"))
unfolding form_value text_eq
update_user_password_page-authenticate_user_example =
    update_user_password_page-authenticate_user env password_of_bob two_users (codes "root")
      (codes "b")
      (unfold update_user_password_page admitted is_admin contains exists form_value form_values
          text_eq trim trim_left trim_right is_space change_users users_changed stored flash in
        refl)
