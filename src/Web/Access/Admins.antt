-- ===== src/Web/Access/Admins.antt =====
-- Lists of users: names that are unique, and the administrators among them.
use agents_management.Prelude.{
  ℕ, Bool, true, false, not, ◌&&◌, ◌||◌, some, List, [], ◌∷◌, ◌++◌, ◌≡◌, refl, ap, arith, Text,
  text_eq, text_eq_iff, exists, exists-append, Bool-cases, inl, inr,
}
use agents_management.Storage.Model.{User}
use agents_management.Storage.Users.{is_named, list_users, insert_user, update_user, create_user}
use agents_management.Web.Access.{is_active_admin, count_admins, is_last_active_admin}

unfoldable pub distinct_names : List User → Bool
distinct_names [] = true
distinct_names (u ∷ users) = not (exists (is_named u.username) users) && distinct_names users

-- An active administrator by another name
abbrev pub is_other_admin : Text → User → Bool
is_other_admin username u = is_active_admin u && not (is_named username u)

no_admin_if_unnamed :
    (username : Text) (users : List User)
    → exists (is_named username) users ≡ false
    → exists (is_other_admin username) users ≡ false
    → exists is_active_admin users ≡ false
unfolding exists
no_admin_if_unnamed username [] h k = refl
no_admin_if_unnamed username (u ∷ users) h k = ground (arith, no_admin_if_unnamed username users)

count_admins-none :
    (username : Text) (users : List User) (n : ℕ) (target : Bool)
    → exists is_active_admin users ≡ false
    → count_admins username users n target ≡ (n, target)
unfolding exists count_admins
count_admins-none username [] n target h = refl
count_admins-none username (u ∷ users) n target h =
    ground (arith, count_admins-none username users n target)

named_same :
    (a b : Text) (users : List User)
    → text_eq a b ≡ true
    → exists (is_named a) users ≡ exists (is_named b) users
named_same a b users h = ap (λ t. exists (is_named t) users) ((text_eq_iff a b).0 h)

count_admins-only :
    (username : Text) (users : List User)
    → distinct_names users ≡ true
    → exists (is_other_admin username) users ≡ false
    → exists is_active_admin users ≡ true
    → count_admins username users 0 false ≡ (1, true)
unfolding exists count_admins distinct_names
count_admins-only username [] d h k = cc
count_admins-only username (u ∷ users) d h k = ground (
  arith,
  count_admins-only username users,
  count_admins-none username users 1 true,
  no_admin_if_unnamed username users,
  named_same u.username username users,
)

-- The user is not the last active administrator: there is another one.
pub is_last_active_admin-other :
    (users : List User) (username : Text)
    → distinct_names users ≡ true
    → exists is_active_admin users ≡ true
    → is_last_active_admin users username ≡ false
    → exists (is_other_admin username) users ≡ true
unfolding is_last_active_admin
is_last_active_admin-other users username d k h =
    elim (Bool-cases (exists (is_other_admin username) users)) [
      | inl e ↦ e
      | inr e ↦ ground (arith, count_admins-only username users)
    ]

is_named_swap : (a b : Text) → text_eq a b ≡ text_eq b a
is_named_swap a b = ground (arith, text_eq_iff a b, text_eq_iff b a)

exists-insert_user :
    (p : User → Bool) (u : User) (users : List User)
    → exists p (insert_user u users) ≡ (p u || exists p users)
unfolding exists insert_user
exists-insert_user p u [] = refl
exists-insert_user p u (v ∷ users) = ground (arith, exists-insert_user p u users)

pub exists-list_users :
    (p : User → Bool) (users : List User) → exists p (list_users users) ≡ exists p users
unfolding exists list_users
exists-list_users p [] = refl
exists-list_users p (u ∷ users) =
    rw (exists-insert_user p u (list_users users), exists-list_users p users) refl

distinct-insert_user :
    (u : User) (users : List User)
    → distinct_names (insert_user u users)
      ≡ (not (exists (is_named u.username) users) && distinct_names users)
unfolding exists insert_user distinct_names
distinct-insert_user u [] = refl
distinct-insert_user u (v ∷ users) = ground (
  arith,
  distinct-insert_user u users,
  exists-insert_user (is_named v.username) u users,
  is_named_swap u.username v.username,
)

pub distinct-list_users :
    (users : List User) → distinct_names (list_users users) ≡ distinct_names users
unfolding list_users distinct_names
distinct-list_users [] = refl
distinct-list_users (u ∷ users) =
    rw
      (
        distinct-insert_user u (list_users users),
        exists-list_users (is_named u.username) users,
        distinct-list_users users,
      )
      refl

distinct-append :
    (u : User) (users : List User)
    → exists (is_named u.username) users ≡ false
    → distinct_names users ≡ true
    → distinct_names (users ++ (u ∷ [])) ≡ true
unfolding distinct_names exists
distinct-append u [] h d = refl
distinct-append u (v ∷ users) h d = ground (
  arith,
  distinct-append u users,
  exists-append (is_named v.username) users (u ∷ []),
  is_named_swap u.username v.username,
)

pub distinct-create_user :
    (username hash : Text) (users users' : List User)
    → create_user username hash users ≡ some users'
    → distinct_names users ≡ true
    → distinct_names users' ≡ true
unfolding create_user
distinct-create_user username hash users users' h d = ground (
  arith,
  distinct-append
      (record { username = username; password_hash = hash; is_active = true; roles = [] }) users,
)

module _ (username : Text) (change : User → User)
    (same : (u : User) → (change u).username ≡ u.username) where
  exists_named-update_user :
      (name : Text) (users : List User)
      → exists (is_named name) (update_user username change users) ≡ exists (is_named name) users
  unfolding exists update_user
  exists_named-update_user name [] = refl
  exists_named-update_user name (u ∷ users) =
      ground (arith, exists_named-update_user name users, same u)

  pub distinct-update_user :
      (users : List User)
      → distinct_names (update_user username change users) ≡ distinct_names users
  unfolding update_user distinct_names
  distinct-update_user [] = refl
  distinct-update_user (u ∷ users) =
      ground (arith, exists_named-update_user u.username users, distinct-update_user users, same u)

-- Another administrator is not touched.
pub admin-update_user-other :
    (username : Text) (change : User → User) (users : List User)
    → exists (is_other_admin username) users ≡ true
    → exists is_active_admin (update_user username change users) ≡ true
unfolding exists update_user
admin-update_user-other username change [] h = cc
admin-update_user-other username change (u ∷ users) h =
    ground (arith, admin-update_user-other username change users)

-- A change that leaves administrators administrators
pub admin-update_user :
    (username : Text) (change : User → User) (users : List User)
    → ((u : User) → is_active_admin u ≡ true → is_active_admin (change u) ≡ true)
    → exists is_active_admin users ≡ true
    → exists is_active_admin (update_user username change users) ≡ true
unfolding exists update_user
admin-update_user username change [] k h = cc
admin-update_user username change (u ∷ users) k h =
    ground (arith, admin-update_user username change users k, k u)

pub admin-create_user :
    (username hash : Text) (users users' : List User)
    → create_user username hash users ≡ some users'
    → exists is_active_admin users ≡ true
    → exists is_active_admin users' ≡ true
unfolding create_user
admin-create_user username hash users users' h d = ground (
  arith,
  exists-append is_active_admin users
      (record { username = username; password_hash = hash; is_active = true; roles = [] } ∷ []),
)
