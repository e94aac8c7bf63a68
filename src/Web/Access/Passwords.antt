-- ===== src/Web/Access/Passwords.antt =====
-- updateUserPassword of server/internal/web/handlers.go, and who authenticates afterwards.
use agents_management.Prelude.{
  suc, Bool, false, ◌&&◌, Option, none, some, List, [], ◌∷◌, ◌≡◌, ◌≢◌, refl, ◌∙◌, sym, ap, arith,
  Text, if◌then◌else◌, Bool-cases, inl, inr, codes, text_eq, text_eq_iff, trim, is_nil,
}
use agents_management.Storage.Model.{User}
use agents_management.Storage.Users.{authenticate_user, update_user, update_user_password}
use agents_management.Server.World.{Env, World, M, pure}
use agents_management.Web.Request.{Request, Reply, form_value, flash}
use agents_management.Web.Access.{change_users, update_user_password_page, hash_of}
use agents_management.Web.Access.Answered.{flash_apart, admitted-success, change_users-success}

-- The first active user of a name.
abbrev pub active_user : List User → Text → Option User
active_user [] username = none
active_user (u ∷ users) username =
    let rest = active_user users username in
    if text_eq u.username username && u.is_active then some u else rest

-- The user with a hash, if the password was right.
abbrev pub with_hash : Text → Bool → Option User → Option User
with_hash hash right none = none
with_hash hash right (some u) = if right then some (record u { password_hash = hash }) else none

none_right : (hash : Text) (o : Option User) → with_hash hash false o ≡ none
none_right hash none = refl
none_right hash (some u) = refl

authenticate_user-others :
    (crypt : Text → Text → Text) (users : List User) (username other hash password : Text)
    → other ≢ username
    → authenticate_user crypt (update_user_password username hash users) other password
      ≡ authenticate_user crypt users other password
unfolding authenticate_user update_user_password update_user
authenticate_user-others crypt [] username other hash password d = refl
authenticate_user-others crypt (u ∷ users) username other hash password d =
    let rest = authenticate_user-others crypt users username other hash password d in
    elim (Bool-cases (text_eq u.username username)) [
      | inr e ↦ rw (e, rest) refl
      | inl e ↦
          let apart : text_eq u.username other ≡ false =
            ground (arith, d, e, text_eq_iff u.username username, text_eq_iff u.username other) in
          rw (e, apart, rest) refl
    ]

authenticate_user-update_user_password :
    (crypt : Text → Text → Text) (users : List User) (username hash password : Text)
    → authenticate_user crypt (update_user_password username hash users) username password
      ≡ with_hash hash (text_eq hash (crypt password hash)) (active_user users username)
unfolding authenticate_user update_user_password update_user
authenticate_user-update_user_password crypt [] username hash password = refl
authenticate_user-update_user_password crypt (u ∷ users) username hash password =
    let rest = authenticate_user-update_user_password crypt users username hash password in
    elim (Bool-cases (text_eq u.username username)) [
      | inr e ↦ rw (e, e) rest
      | inl e ↦
          rw (e, e)
            (elim (Bool-cases u.is_active) [
              | inr f ↦ rw (f, rest) refl
              | inl f ↦ rw f (elim (Bool-cases (text_eq hash (crypt password hash))) [
                | inl g ↦ rw g refl
                | inr g ↦ rw (g, rest, g) (none_right hash (active_user users username))
              ])
            ])
    ]

module _ (env : Env) where
  setting : Request → M Reply
  setting r =
      change_users env
        (λ w. some (
          update_user_password r.username (hash_of env (form_value r (codes "password")) w)
            w.users))
        (codes "Failed+to+update+password") (codes "Password+updated")

  inner_password : Request → M Reply
  unfolding setting
  inner_password r =
      if is_nil (trim (form_value r (codes "password")))
      then pure (flash (codes "Password+cannot+be+empty"))
      else setting r

  inner_password-success :
      (r : Request) (w : World)
      → (inner_password r w).0 ≡ flash (codes "Password+updated")
      → inner_password r w ≡ setting r w
  unfolding inner_password text_eq
  inner_password-success r w = elim (Bool-cases (is_nil (trim (form_value r (codes "password"))))) [
    | inl e ↦ rw e (λ h. absurd (flash_apart _ _ refl h))
    | inr e ↦ rw e (λ h. refl)
  ]

  setting_lem :
      (r : Request) (w : World)
      → (setting r w).0 ≡ flash (codes "Password+updated")
      → (setting r w).1.users
        ≡ update_user_password r.username
            (hash_of env (form_value r (codes "password")) (record w { calls = suc w.calls }))
            w.users
  unfolding setting text_eq
  setting_lem r w h =
      ap (λ o. elim o [ none ↦ [] | some us ↦ us ])
        (sym (change_users-success env _ _ _ w (flash_apart _ _ refl) h))

  -- After "Password updated" an attempt to authenticate under the name of the user succeeds exactly if
  -- there is an active user of that name and the database's crypt gives, for the password of the
  -- attempt and the hash that it made of the password of the request, that hash again. Under any
  -- other name an attempt ends as it did before.
  pub update_user_password_page-authenticate_user :
      (r : Request) (w : World) (username password : Text)
      → (update_user_password_page env r w).0 ≡ flash (codes "Password+updated")
      → let hash = env.crypt (form_value r (codes "password")) (env.gen_salt (suc w.calls)) in
        let users = (update_user_password_page env r w).1.users in
        (authenticate_user env.crypt users r.username password
          ≡ with_hash hash
              (text_eq hash (env.crypt password hash))
              (active_user w.users r.username))
        × (username ≢ r.username
            → authenticate_user env.crypt users username password
              ≡ authenticate_user env.crypt w.users username password)
  unfolding update_user_password_page inner_password setting
  update_user_password_page-authenticate_user r w username password h =
      let hash = env.crypt (form_value r (codes "password")) (env.gen_salt (suc w.calls)) in
      let outer = admitted-success r (inner_password r) w _ h in
      let inner = inner_password-success r w (ap (λ x. x.0) (sym outer) ∙ h) in
      let page = outer ∙ inner in
      let rows = ap (λ x. x.1.users) page ∙ setting_lem r w (ap (λ x. x.0) (sym page) ∙ h) in
      (
        ap (λ us. authenticate_user env.crypt us r.username password) rows
            ∙ authenticate_user-update_user_password env.crypt w.users r.username hash password,
        λ other.
            ap (λ us. authenticate_user env.crypt us username password) rows
            ∙ authenticate_user-others env.crypt w.users r.username username hash password other,
      )
