-- ===== src/Auth/Roles.antt =====
-- The normal form of a role, and what it makes of the roles that a principal holds.
use agents_management.Prelude.{
  Bool, not, ◌&&◌, some, List, [], ◌∷◌, ◌≡◌, refl, arith, Text, text_eq, contains, to_lower, trim,
  is_nil, exists, trim-to_lower,
}
use agents_management.Auth.{new_principal, normalized_roles, has_role}

abbrev pub normal : Text → Text
normal role = to_lower (trim role)

-- Some role of the list has the normal form of `role`, and that is not empty.
abbrev pub names_role : List Text → Text → Bool
names_role roles role =
    exists (λ r. not (is_nil (normal r)) && text_eq (normal r) (normal role)) roles

contains-normalized_roles :
    (roles : List Text) (role : Text)
    → contains (normalized_roles roles) (normal role) ≡ names_role roles role
unfolding normalized_roles contains exists
contains-normalized_roles [] role = refl
contains-normalized_roles (r ∷ roles) role =
    ground (arith, contains-normalized_roles roles role, trim-to_lower r)

-- A principal built from a list of roles has exactly the non-empty roles of the list, whatever the
-- case and the outer spaces on either side.
pub has_role-new_principal :
    (username : Text) (roles : List Text) (role : Text)
    → has_role (some (new_principal username roles)) role ≡ names_role roles role
unfolding has_role new_principal
has_role-new_principal username roles role = contains-normalized_roles roles role
