-- ===== src/Web/Access/Administered.antt =====
-- Users with an active administrator, and the steps of the access pages that keep them so.
use agents_management.Prelude.{
  suc, true, Option, none, some, List, [], ◌≡◌, refl, ◌∙◌, sym, subst, arith, Text, exists,
  Bool-cases, inl, inr, ◌⊎◌,
}
use agents_management.Storage.Model.{User, Role}
use agents_management.Storage.Users.{
  list_users, is_named, update_user, set_user_roles, assign_roles,
}
use agents_management.Auth.{is_admin}
use agents_management.Server.World.{Env, World, M, ◌>>=◌, stored}
use agents_management.Web.Request.{Request, Reply}
use agents_management.Web.Access.{
  is_active_admin, admitted, users_written, users_changed, change_users, stored_users,
  with_other_admin, answer, is_last_active_admin,
}
use agents_management.Web.Access.Admins.{
  distinct_names, is_other_admin, is_last_active_admin-other, exists-list_users,
  distinct-list_users, distinct-update_user, admin-update_user-other, admin-update_user,
}
use agents_management.Web.Access.Granted.{is_admin_role}

-- No two users have one name, and one of the users is an active administrator.
pub record Administered (users : List User) : Type 0 where
  pub distinct : distinct_names users ≡ true
  pub administrator : exists is_active_admin users ≡ true

pub update_user-Administered :
    (username : Text) (change : User → User) (users : List User)
    → Administered users
    → ((u : User) → (change u).username ≡ u.username)
    → ((u : User) → is_active_admin u ≡ true → is_active_admin (change u) ≡ true)
      ⊎ (exists (is_other_admin username) users ≡ true)
    → Administered (update_user username change users)
update_user-Administered username change users a same k = record {
  distinct = distinct-update_user username change same users ∙ a.distinct;
  administrator = elim k [
    | inl kept ↦ admin-update_user username change users kept a.administrator
    | inr other ↦ admin-update_user-other username change users other
  ];
}

pub some-Administered :
    (users users' : List User) → some users ≡ some users' → Administered users → Administered users'
some-Administered users users' e a =
    subst (λ o. elim o [ none ↦ Unit {0} | some us ↦ Administered us ]) e a

-- The roles make the user an administrator, or another administrator stays.
pub set_user_roles-Administered :
    (table : List Role) (username : Text) (names : List Text) (users users' : List User)
    → Administered users
    → (exists is_admin_role (assign_roles table [] names) ≡ true)
      ⊎ (exists (is_other_admin username) users ≡ true)
    → set_user_roles table username names users ≡ some users'
    → Administered users'
unfolding set_user_roles
set_user_roles-Administered table username names users users' a k h =
    let changed = λ (u : User). record u { roles = assign_roles table [] names } in
    elim (Bool-cases (exists (is_named username) users)) [
      | inr e ↦ absurd (ground (arith, h, e))
      | inl e ↦
          some-Administered (update_user username changed users) users' (ground (arith, h, e)) (
            update_user-Administered username changed users a (λ u. refl)
              (elim k [
                | inl granted ↦ inl (λ u admin. ground (arith, admin, granted))
                | inr other ↦ inr other
              ]))
    ]

-- An action that leaves such users with such users
abbrev pub Keeps : M Reply → World → Type 0
Keeps m w = Administered (m w).1.users

module _ (env : Env) where
  pub admitted-Keeps :
      (r : Request) (handler : M Reply) (w : World)
      → Administered w.users
      → Keeps handler w
      → Keeps (admitted r handler) w
  unfolding admitted
  admitted-Keeps r handler w a k = elim (Bool-cases (is_admin r.principal)) [
    | inr e ↦ rw e a
    | inl e ↦ rw e (elim (Bool-cases r.form_error) [ inl f ↦ rw f a | inr f ↦ rw f k ])
  ]

  pub written-Keeps :
      (changed : Option (List User)) (failure success : Text) (w : World)
      → Administered w.users
      → ((users : List User) → changed ≡ some users → Administered users)
      → Administered
          (answer failure success (users_written changed w).0 (users_written changed w).1).1.users
  written-Keeps none failure success w a k = a
  written-Keeps (some users) failure success w a k = k users refl

  pub change_users-Keeps :
      (change : World → Option (List User)) (failure success : Text) (w : World)
      → Administered w.users
      → ((w' : World) (users : List User)
          → w'.users ≡ w.users
          → w'.roles ≡ w.roles
          → change w' ≡ some users
          → Administered users)
      → Keeps (change_users env change failure success) w
  unfolding change_users users_changed stored
  change_users-Keeps change failure success w a k = elim (Bool-cases (env.fails w.calls)) [
    | inl e ↦ rw e a
    | inr e ↦
        let counted = record w { calls = suc w.calls } in
        rw e (
          written-Keeps (change counted) failure success counted a
            (λ users s. k counted users refl refl s))
  ]

  pub with_other_admin-Keeps :
      (username failure refusal : Text) (handler : M Reply) (w : World)
      → Administered w.users
      → ((w' : World)
          → w'.users ≡ w.users
          → exists (is_other_admin username) w.users ≡ true
          → Keeps handler w')
      → Keeps (stored_users env >>= with_other_admin username failure refusal handler) w
  unfolding with_other_admin stored_users stored
  with_other_admin-Keeps username failure refusal handler w a k =
      elim (Bool-cases (env.fails w.calls)) [
        | inl e ↦ rw e a
        | inr e ↦ rw e (elim (Bool-cases (is_last_active_admin (list_users w.users) username)) [
          | inl l ↦ rw l a
          | inr l ↦ rw l (
              k (record w { calls = suc w.calls }) refl
                (sym (exists-list_users (is_other_admin username) w.users)
                  ∙ is_last_active_admin-other (list_users w.users) username
                      (distinct-list_users w.users ∙ a.distinct)
                      (exists-list_users is_active_admin w.users ∙ a.administrator) l))
        ])
      ]
