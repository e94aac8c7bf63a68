-- ===== src/Storage/Users.antt =====
-- PostgresUserRepository of server/internal/storage/postgres.go, as what its statements do to the users
-- and the roles. The names of a user's roles are kept with the user; a name of a user or of a role is
-- unique. `none` is an error of the statement, whose transaction then changes nothing.
use agents_management.Prelude.{
  Bool, true, not, ◌&&◌, ◌||◌, Option, none, some, List, [], ◌∷◌, ◌++◌, Text, text_eq, text_leb,
  contains, exists, trim, is_nil, if◌then◌else◌,
}
use agents_management.Storage.Model.{User, Role}

abbrev pub is_named : Text → User → Bool
is_named username u = text_eq u.username username

-- WHERE username = $1 AND is_active = TRUE AND password_hash = crypt($2, password_hash)
abbrev pub has_credentials : (Text → Text → Text) → Text → Text → User → Bool
has_credentials crypt username password u =
    is_named username u && (u.is_active && text_eq u.password_hash (crypt password u.password_hash))

-- `none` is sql.ErrNoRows.
unfoldable pub authenticate_user : (Text → Text → Text) → List User → Text → Text → Option User
authenticate_user crypt [] username password = none
authenticate_user crypt (u ∷ users) username password =
    let rest = authenticate_user crypt users username password in
    if has_credentials crypt username password u then some u else rest

unfoldable pub get_user_by_username : List User → Text → Option User
get_user_by_username [] username = none
get_user_by_username (u ∷ users) username =
    let rest = get_user_by_username users username in if is_named username u then some u else rest

unfoldable pub insert_user : User → List User → List User
insert_user u [] = u ∷ []
insert_user u (v ∷ users) =
    let rest = insert_user u users in
    if text_leb u.username v.username then u ∷ v ∷ users else v ∷ rest

-- ORDER BY u.username ASC
unfoldable pub list_users : List User → List User
unfolding insert_user
list_users [] = []
list_users (u ∷ users) = insert_user u (list_users users)

-- A name that is taken violates the constraint. `hash` is crypt($2, gen_salt('bf')).
unfoldable pub create_user : Text → Text → List User → Option (List User)
create_user username hash users =
    if exists (is_named username) users
    then none
    else some (
        users
        ++ (record { username = username; password_hash = hash; is_active = true; roles = [] }
            ∷ []))

-- UPDATE users SET ... WHERE username = $1
unfoldable pub update_user : Text → (User → User) → List User → List User
update_user username change [] = []
update_user username change (u ∷ users) =
    (if is_named username u then change u else u) ∷ update_user username change users

unfoldable pub update_user_password : Text → Text → List User → List User
update_user_password username hash = update_user username (λ u. record u { password_hash = hash })

unfoldable pub update_user_status : Text → Bool → List User → List User
update_user_status username is_active =
    update_user username (λ u. record u { is_active = is_active })

abbrev kept_description : Text → Text → Text
kept_description [] new = new
kept_description (c ∷ old) new = c ∷ old

-- INSERT INTO roles ... ON CONFLICT (name) DO UPDATE
unfoldable pub ensure_role : List Role → Role → List Role
ensure_role [] role = role ∷ []
ensure_role (r ∷ roles) role =
    let rest = ensure_role roles role in
    if text_eq r.name role.name
    then record r { description = kept_description r.description role.description } ∷ roles
    else r ∷ rest

unfoldable pub ensure_roles : List Role → List Role → List Role
unfolding ensure_role
ensure_roles roles [] = roles
ensure_roles roles (role ∷ more) =
    if is_nil (trim role.name)
    then ensure_roles roles more
    else ensure_roles (ensure_role roles role) more

-- INSERT INTO user_roles SELECT ... FROM roles WHERE name = $2 ON CONFLICT DO NOTHING
unfoldable pub assign_role : List Role → List Text → Text → List Text
assign_role roles assigned name =
    if is_nil name || (contains assigned name || not (exists (λ r. text_eq r.name name) roles))
    then assigned
    else assigned ++ (name ∷ [])

unfoldable pub assign_roles : List Role → List Text → List Text → List Text
unfolding assign_role
assign_roles roles assigned [] = assigned
assign_roles roles assigned (name ∷ names) =
    assign_roles roles (assign_role roles assigned (trim name)) names

unfoldable pub set_user_roles : List Role → Text → List Text → List User → Option (List User)
set_user_roles roles username names users =
    if exists (is_named username) users
    then some (update_user username (λ u. record u { roles = assign_roles roles [] names }) users)
    else none
