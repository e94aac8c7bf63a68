-- ===== src/Web/Access/Answered.antt =====
-- What the answer of a handler of the access pages says of the calls that it made,
-- server/internal/web/handlers.go.
use agents_management.Prelude.{
  suc, false, Option, none, some, List, ◌++◌, ◌≡◌, ◌≢◌, refl, arith, Text, Bool-cases, inl, inr,
  codes, text_eq, text_eq_iff,
}
use agents_management.Storage.Model.{User}
use agents_management.Storage.Users.{list_users, list_users}
use agents_management.Auth.{is_admin}
use agents_management.Server.World.{Env, World, M, ◌>>=◌, stored}
use agents_management.Web.Request.{Request, Reply, flash}
use agents_management.Web.Access.{
  admitted, change_users, users_written, users_changed, stored_users, with_other_admin, answer,
  is_last_active_admin,
}

pub flash_apart :
    (s t : Text)
    → text_eq (codes "/access?flash=" ++ s) (codes "/access?flash=" ++ t) ≡ false
    → flash s ≢ flash t
unfolding flash
flash_apart s t e h =
    let a = codes "/access?flash=" ++ s in
    let b = codes "/access?flash=" ++ t in
    let same : a ≡ b = cc in ground (arith, (text_eq_iff a b).1 same)

-- The answer of a success comes from the handler itself.
pub admitted-success :
    (r : Request) (handler : M Reply) (w : World) (text : Text)
    → (admitted r handler w).0 ≡ flash text
    → admitted r handler w ≡ handler w
unfolding admitted flash
admitted-success r handler w text h = elim (Bool-cases (is_admin r.principal)) [
  | inr e ↦ ground (arith, h, e)
  | inl e ↦
      rw e (elim (Bool-cases r.form_error) [ inl f ↦ ground (arith, h, e, f) | inr f ↦ rw f refl ])
]

written-success :
    (changed : Option (List User)) (failure success : Text) (w : World)
    → flash failure ≢ flash success
    → let written = users_written changed w in
      (answer failure success written.0 written.1).0 ≡ flash success
      → changed ≡ some (answer failure success written.0 written.1).1.users
written-success none failure success w d h = absurd (d h)
written-success (some users) failure success w d h = refl

module _ (env : Env) where
  pub change_users-success :
      (change : World → Option (List User)) (failure success : Text) (w : World)
      → flash failure ≢ flash success
      → (change_users env change failure success w).0 ≡ flash success
      → change (record w { calls = suc w.calls })
        ≡ some (change_users env change failure success w).1.users
  unfolding change_users users_changed stored
  change_users-success change failure success w d = elim (Bool-cases (env.fails w.calls)) [
    | inl e ↦ rw e (λ h. absurd (d h))
    | inr e ↦
        let counted = record w { calls = suc w.calls } in
        rw e (written-success (change counted) failure success counted d)
  ]

  pub with_other_admin-success :
      (username failure refusal success : Text) (handler : M Reply) (w : World)
      → flash failure ≢ flash success
      → flash refusal ≢ flash success
      → ((stored_users env >>= with_other_admin username failure refusal handler) w).0
        ≡ flash success
      → (stored_users env >>= with_other_admin username failure refusal handler) w
        ≡ handler (record w { calls = suc w.calls })
  unfolding with_other_admin stored_users stored
  with_other_admin-success username failure refusal success handler w d d' =
      elim (Bool-cases (env.fails w.calls)) [
        | inl e ↦ rw e (λ h. absurd (d h))
        | inr e ↦ rw e (elim (Bool-cases (is_last_active_admin (list_users w.users) username)) [
          | inl l ↦ rw l (λ h. absurd (d' h))
          | inr l ↦ rw l (λ h. refl)
        ])
      ]
