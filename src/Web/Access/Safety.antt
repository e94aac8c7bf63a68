-- ===== src/Web/Access/Safety.antt =====
-- The requests of the access pages, one after the other, and what they keep of the users.
use agents_management.Prelude.{
  suc, Bool, true, false, List, [], ◌∷◌, ◌≡◌, refl, sym, subst, arith, Text, exists, Bool-cases,
  inl, inr, ◌⊎◌, codes, text_eq, trim, is_nil, ◌||◌,
}
use agents_management.Storage.Model.{User}
use agents_management.Storage.Users.{
  update_user, update_user_password, update_user_status, ensure_roles,
}
use agents_management.Auth.{role_admin, role_full_access}
use agents_management.Server.World.{Env, World, M, stored}
use agents_management.Web.Request.{Request, Reply, form_value, form_values}
use agents_management.Web.Access.{
  store_status, store_roles, set_roles, assign, create_user_page, update_user_password_page,
  update_user_status_page, update_user_roles_page, contains_any_role, unique_role_names,
  roles_to_ensure, hash_of,
}
use agents_management.Web.Access.Admins.{is_other_admin, distinct-create_user, admin-create_user}
use agents_management.Web.Access.Granted.{assign_roles-admin}
use agents_management.Web.Access.Administered.{
  Administered, update_user-Administered, some-Administered, set_user_roles-Administered, Keeps,
  admitted-Keeps, change_users-Keeps, with_other_admin-Keeps,
}

pub data AccessRequest : Type 0 where
  create change_password change_status change_roles : Request → AccessRequest

unfoldable pub handle : Env → AccessRequest → M Reply
handle env (create r) = create_user_page env r
handle env (change_password r) = update_user_password_page env r
handle env (change_status r) = update_user_status_page env r
handle env (change_roles r) = update_user_roles_page env r

unfoldable pub serve : Env → List AccessRequest → World → World
unfolding handle
serve env [] w = w
serve env (q ∷ requests) w = serve env requests (handle env q w).1

module _ (env : Env) where
  create_user_page-Keeps :
      (r : Request) (w : World) → Administered w.users → Keeps (create_user_page env r) w
  unfolding create_user_page
  create_user_page-Keeps r w a = admitted-Keeps env r _ w a (
      let username = trim (form_value r (codes "username")) in
      let password = form_value r (codes "password") in
      elim (Bool-cases (is_nil username || is_nil password)) [
        | inl e ↦ rw e a
        | inr e ↦ rw e (
            change_users-Keeps env _ _ _ w a (λ w' users same roles c.
              let before = subst Administered (sym same) a in
              record {
                distinct = distinct-create_user _ _ w'.users users c before.distinct;
                administrator = admin-create_user _ _ w'.users users c before.administrator;
              }))
      ])

  update_user_password_page-Keeps :
      (r : Request) (w : World) → Administered w.users → Keeps (update_user_password_page env r) w
  unfolding update_user_password_page update_user_password
  update_user_password_page-Keeps r w a =
      admitted-Keeps env r _ w a
        (elim (Bool-cases (is_nil (trim (form_value r (codes "password"))))) [
          | inl e ↦ rw e a
          | inr e ↦ rw e (
              change_users-Keeps env _ _ _ w a (λ w' users same roles c.
                let hash = hash_of env (form_value r (codes "password")) w' in
                let changed = λ (u : User). record u { password_hash = hash } in
                some-Administered (update_user r.username changed w'.users) users c (
                  update_user-Administered r.username changed w'.users
                    (subst Administered (sym same) a) (λ u. refl) (inl (λ u h. h)))))
        ])

  store_status-Keeps :
      (username : Text) (is_active : Bool) (w : World)
      → Administered w.users
      → (is_active ≡ true) ⊎ (exists (is_other_admin username) w.users ≡ true)
      → Keeps (store_status env username is_active) w
  unfolding store_status update_user_status
  store_status-Keeps username is_active w a k =
      change_users-Keeps env _ _ _ w a (λ w' users same roles c.
        let changed = λ (u : User). record u { is_active = is_active } in
        some-Administered (update_user username changed w'.users) users c (
          update_user-Administered username changed w'.users (subst Administered (sym same) a)
            (λ u. refl)
            (elim k [
              | inl e ↦ inl (λ u h. ground (arith, e, h))
              | inr o ↦ inr (subst (λ us. exists (is_other_admin username) us ≡ true) (sym same) o)
            ])))

  update_user_status_page-Keeps :
      (r : Request) (w : World) → Administered w.users → Keeps (update_user_status_page env r) w
  unfolding update_user_status_page
  update_user_status_page-Keeps r w a =
      admitted-Keeps env r _ w a
        (elim (Bool-cases (text_eq (form_value r (codes "is_active")) (codes "true"))) [
          | inl e ↦ rw e (store_status-Keeps r.username true w a (inl refl))
          | inr e ↦ rw e (
              with_other_admin-Keeps env r.username _ _ _ w a (λ w' same other.
                store_status-Keeps r.username false w' (subst Administered (sym same) a) (
                  inr
                    (subst (λ us. exists (is_other_admin r.username) us ≡ true) (sym same) other))))
        ])

  -- The names give the user an administrator's role, or another administrator stays.
  assign-Keeps :
      (username : Text) (names : List Text) (w : World)
      → Administered w.users
      → (contains_any_role names (role_admin ∷ role_full_access ∷ []) ≡ true)
        ⊎ (exists (is_other_admin username) w.users ≡ true)
      → Keeps (assign env username names) w
  unfolding assign store_roles set_roles stored
  assign-Keeps username names w a k = elim (Bool-cases (env.fails w.calls)) [
    | inl e ↦ rw e a
    | inr e ↦
        let table = ensure_roles w.roles (roles_to_ensure names) in
        rw e (
          change_users-Keeps env _ _ _ (record w { calls = suc w.calls; roles = table }) a
            (λ w' users same_users same_roles c.
              set_user_roles-Administered w'.roles username names w'.users users
                (subst Administered (sym same_users) a)
                (elim k [
                  | inl named ↦ inl (rw same_roles (assign_roles-admin w.roles names named))
                  | inr other ↦ inr (
                      subst (λ us. exists (is_other_admin username) us ≡ true) (sym same_users)
                        other)
                ])
                c))
  ]

  update_user_roles_page-Keeps :
      (r : Request) (w : World) → Administered w.users → Keeps (update_user_roles_page env r) w
  unfolding update_user_roles_page
  update_user_roles_page-Keeps r w a = admitted-Keeps env r _ w a (
      let names = unique_role_names (form_values r.form (codes "roles")) in
      elim (Bool-cases (contains_any_role names (role_admin ∷ role_full_access ∷ []))) [
        | inl e ↦ rw e (assign-Keeps r.username names w a (inl e))
        | inr e ↦ rw e (
            with_other_admin-Keeps env r.username _ _ _ w a (λ w' same other.
              assign-Keeps r.username names w' (subst Administered (sym same) a) (
                inr (subst (λ us. exists (is_other_admin r.username) us ≡ true) (sym same) other))))
      ])

  handle-Keeps : (q : AccessRequest) (w : World) → Administered w.users → Keeps (handle env q) w
  unfolding handle
  handle-Keeps (create r) w a = create_user_page-Keeps r w a
  handle-Keeps (change_password r) w a = update_user_password_page-Keeps r w a
  handle-Keeps (change_status r) w a = update_user_status_page-Keeps r w a
  handle-Keeps (change_roles r) w a = update_user_roles_page-Keeps r w a

  pub serve-Administered :
      (requests : List AccessRequest) (w : World)
      → Administered w.users
      → Administered (serve env requests w).users
  unfolding serve
  serve-Administered [] w a = a
  serve-Administered (q ∷ requests) w a =
      serve-Administered requests (handle env q w).1 (handle-Keeps q w a)
