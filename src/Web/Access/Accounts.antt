-- ===== src/Web/Access/Accounts.antt =====
-- What a request of the access pages means for who may go on.
use agents_management.Prelude.{
  suc, false, none, some, List, [], ◌∷◌, ◌≡◌, ◌≢◌, refl, ◌∙◌, sym, ap, subst, arith, Text, codes,
  text_eq, text_eq_iff,
}
use agents_management.Storage.Model.{User}
use agents_management.Storage.Users.{authenticate_user, update_user, update_user_status}
use agents_management.Server.World.{Env, World, M, ◌>>=◌}
use agents_management.Web.Request.{Request, Reply, form_value, flash}
use agents_management.Web.Access.{
  admitted, stored_users, with_other_admin, store_status, update_user_status_page,
}
use agents_management.Web.Access.Answered.{
  flash_apart, admitted-success, change_users-success, with_other_admin-success,
}

authenticate_user-update_user_status :
    (crypt : Text → Text → Text) (users : List User) (username password : Text)
    → authenticate_user crypt (update_user_status username false users) username password ≡ none
unfolding authenticate_user update_user_status update_user
authenticate_user-update_user_status crypt [] username password = refl
authenticate_user-update_user_status crypt (u ∷ users) username password =
    ground (arith, authenticate_user-update_user_status crypt users username password)

module _ (env : Env) where
  store_status-disabled :
      (username password : Text) (w : World)
      → (store_status env username false w).0 ≡ flash (codes "Status+updated")
      → authenticate_user env.crypt (store_status env username false w).1.users username password
        ≡ none
  unfolding store_status text_eq
  store_status-disabled username password w h =
      let written =
        change_users-success env (λ w'. some (update_user_status username false w'.users))
          (codes "Failed+to+update+status") (codes "Status+updated") w (flash_apart _ _ refl) h in
      subst
        (λ o. elim o [
          | none ↦ Unit {0}
          | some us ↦ authenticate_user env.crypt us username password ≡ none
        ])
        written (authenticate_user-update_user_status env.crypt w.users username password)

  disabling : Request → M Reply
  disabling r =
      stored_users env
      >>= with_other_admin r.username (codes "Failed+to+validate+status+change")
          (codes "Cannot+disable+the+last+active+administrator") (store_status env r.username false)

  update_user_status_page-disabling :
      (r : Request)
      → form_value r (codes "is_active") ≢ codes "true"
      → update_user_status_page env r ≡ admitted r (disabling r)
  unfolding update_user_status_page disabling
  update_user_status_page-disabling r d =
      let value = form_value r (codes "is_active") in
      let differs : text_eq value (codes "true") ≡ false =
        ground (arith, d, text_eq_iff value (codes "true")) in
      rw differs refl

  disabling-success :
      (r : Request) (w : World)
      → (disabling r w).0 ≡ flash (codes "Status+updated")
      → disabling r w ≡ store_status env r.username false (record w { calls = suc w.calls })
  unfolding disabling text_eq
  disabling-success r w =
      with_other_admin-success env r.username _ _ _ _ w (flash_apart _ _ refl)
        (flash_apart _ _ refl)

  -- After "Status updated" to disabled nobody authenticates under the name.
  pub update_user_status_page-disabled :
      (r : Request) (w : World) (password : Text)
      → form_value r (codes "is_active") ≢ codes "true"
      → (update_user_status_page env r w).0 ≡ flash (codes "Status+updated")
      → authenticate_user env.crypt (update_user_status_page env r w).1.users r.username password
        ≡ none
  update_user_status_page-disabled r w password d = rw (update_user_status_page-disabling r d) (λ h.
      let inner = admitted-success r (disabling r) w _ h in
      let success = ap (λ x. x.0) (sym inner) ∙ h in
      let stored = disabling-success r w success in
      rw (inner ∙ stored) (
        store_status-disabled r.username password (record w { calls = suc w.calls })
          (ap (λ x. x.0) (sym stored) ∙ success)))
