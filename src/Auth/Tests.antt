-- ===== src/Auth/Tests.antt =====
-- The statements on principals and on the authenticator, at concrete users and headers.
use agents_management.Prelude.{
  text_eq, if◌then◌else◌, ℕ, ◌+◌, ◌-◌, true, false, Option, some, List, [], ◌∷◌, ◌++◌, ◌≡◌, ◌≢◌,
  refl, ap, arith, Text, codes, trim, trim_left, trim_right, is_space, exists, to_lower, has_prefix,
}
use agents_management.Storage.Model.{User, exec_command}
use agents_management.Samples.{unary_format}
use agents_management.Auth.{
  Principal, new_principal, is_admin, has_role, can_access_agent, can_run_task_type, role_for_agent,
  normalized_roles,
}
use agents_management.Auth.Roles.{has_role-new_principal, names_role}
use agents_management.Auth.Grants.{roles_of_one_agent}
use agents_management.Auth.Basic.{
  found, no_rows, Users, middleware, authenticate, authenticate_request, authenticate_header,
  middleware-next, authenticate_header-encode,
}

abbrev operator : User
operator = record {
  username = codes "op";
  password_hash = [];
  is_active = true;
  roles = codes " Admin " ∷ [];
}

abbrev one_user : Users
one_user username password = if text_eq username (codes "p") then found operator else no_rows

abbrev operator_principal : Option Principal
operator_principal = some (new_principal (codes "op") (codes " Admin " ∷ []))

middleware-next_example :
    (username : Text) × (password : Text) × (user : User) × (◌≡◌ {A = Option (Text × Text)}
      (some (codes "p", codes "q"))
      (some (username, password)))
    × (one_user username password ≡ found user)
    × (operator_principal ≡ some (new_principal user.username user.roles))
middleware-next_example =
    middleware-next one_user (some (codes "p", codes "q")) operator_principal
      (unfold middleware authenticate_request authenticate text_eq in refl)

-- A role of agent 2, and one of its permissions, in another case.
abbrev roles_of_two : List Text
roles_of_two = codes "Agent:aa" ∷ codes " agent:aa:logs" ∷ []

two_is_not_three : ◌≢◌ {A = ℕ} 2 3
two_is_not_three h = omega (arith, h)

roles_of_one_agent_example :
    (is_admin (some (new_principal (codes "op") roles_of_two)) ≡ false)
    × (can_access_agent unary_format (some (new_principal (codes "op") roles_of_two)) 3 ≡ false)
    × (can_run_task_type (some (new_principal (codes "op") roles_of_two)) exec_command ≡ false)
roles_of_one_agent_example =
    roles_of_one_agent unary_format (codes "op") roles_of_two 2 3 exec_command
      (unfold text_eq role_for_agent normalized_roles to_lower trim trim_left trim_right is_space
          has_prefix in
        (refl, (refl, tt)))
      two_is_not_three

has_role-new_principal_example :
    has_role (some (new_principal (codes "op") roles_of_two)) (codes "AGENT:AA ")
    ≡ names_role roles_of_two (codes "AGENT:AA ")
has_role-new_principal_example =
    has_role-new_principal (codes "op") roles_of_two (codes "AGENT:AA ")

abbrev reader : Option Principal
reader = some (record { username = codes "op"; roles = codes "agent:aa:logs" ∷ [] })

-- An encoding by bytes that are no spaces.
abbrev shift_up : Text → Text
shift_up [] = []
shift_up (c ∷ s) = (c + 100) ∷ shift_up s

abbrev shift_down : Text → Text
shift_down [] = []
shift_down (c ∷ s) = (c - 100) ∷ shift_down s

shift_down-up : (s : Text) → shift_down (shift_up s) ≡ s
shift_down-up [] = refl
shift_down-up (c ∷ s) = ground (arith, shift_down-up s)

abbrev decode_shifted : Text → Option Text
decode_shifted s = some (shift_down s)

decode_shift_up : (s : Text) → decode_shifted (shift_up s) ≡ some s
decode_shift_up s = ap some (shift_down-up s)

no_space : (c : ℕ) → is_space (c + 100) ≡ false
unfolding is_space
no_space c = ground arith

trim_right-shift_up : (s : Text) → trim_right (shift_up s) ≡ shift_up s
unfolding trim_right
trim_right-shift_up [] = refl
trim_right-shift_up (c ∷ s) = rw (no_space c, trim_right-shift_up s) refl

trim-shift_up : (s : Text) → trim (shift_up s) ≡ shift_up s
unfolding trim trim_left
trim-shift_up [] = unfold trim_right in refl
trim-shift_up (c ∷ s) = rw (no_space c) (trim_right-shift_up (c ∷ s))

authenticate_header-encode_example :
    authenticate_header decode_shifted
      (some one_user)
      (codes "Basic " ++ shift_up (codes "p" ++ (58 ∷ codes "q:r")))
    ≡ authenticate (some one_user) (codes "p") (codes "q:r")
authenticate_header-encode_example =
    authenticate_header-encode shift_up decode_shifted (some one_user) (codes "p") (codes "q:r")
      decode_shift_up trim-shift_up (unfold exists in refl)
