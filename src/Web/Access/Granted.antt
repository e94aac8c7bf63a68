-- ===== src/Web/Access/Granted.antt =====
-- The roles that an assignment leaves a user with.
use agents_management.Prelude.{
  Bool, true, false, ◌||◌, List, [], ◌∷◌, ◌++◌, ◌≡◌, refl, ◌∙◌, ap, arith, Text, text_eq,
  text_eq_iff, text_eq_refl, contains, exists, exists-append, trim, trim_left, trim_right, is_space,
  is_nil, Bool-cases, inl, inr, ◌⊎◌,
}
use agents_management.Storage.Model.{Role}
use agents_management.Storage.Users.{ensure_role, ensure_roles, assign_role, assign_roles}
use agents_management.Auth.{role_admin, role_full_access}
use agents_management.Web.Access.{
  managed_admin, managed_full_access, managed_actions, roles_of_names, contains_any_role,
  roles_to_ensure, default_managed_roles,
}

abbrev pub is_role : Text → Role → Bool
is_role name r = text_eq r.name name

module _ (name : Text) where
  ensure_role-kept :
      (roles : List Role) (role : Role)
      → exists (is_role name) roles ≡ true
      → exists (is_role name) (ensure_role roles role) ≡ true
  unfolding exists ensure_role
  ensure_role-kept [] role h = cc
  ensure_role-kept (r ∷ roles) role h = ground (arith, ensure_role-kept roles role)

  pub ensure_roles-kept :
      (roles more : List Role)
      → exists (is_role name) roles ≡ true
      → exists (is_role name) (ensure_roles roles more) ≡ true
  unfolding ensure_roles
  ensure_roles-kept roles [] h = h
  ensure_roles-kept roles (role ∷ more) h = elim (Bool-cases (is_nil (trim role.name))) [
    | inl e ↦ rw e (ensure_roles-kept roles more h)
    | inr e ↦ rw e (ensure_roles-kept (ensure_role roles role) more (ensure_role-kept roles role h))
  ]

pub ensure_role-has :
    (roles : List Role) (role : Role) → exists (is_role role.name) (ensure_role roles role) ≡ true
unfolding exists ensure_role
ensure_role-has [] role = ground (arith, text_eq_refl role.name)
ensure_role-has (r ∷ roles) role = ground (arith, ensure_role-has roles role)

module _ (roles : List Role) (name : Text) where
  assign_role-kept :
      (assigned : List Text) (n : Text)
      → contains assigned name ≡ true
      → contains (assign_role roles assigned n) name ≡ true
  unfolding assign_role contains
  assign_role-kept assigned n h =
      ground (arith, exists-append (λ x. text_eq x name) assigned (n ∷ []))

  assign_roles-kept :
      (assigned names : List Text)
      → contains assigned name ≡ true
      → contains (assign_roles roles assigned names) name ≡ true
  unfolding assign_roles
  assign_roles-kept assigned [] h = h
  assign_roles-kept assigned (n ∷ names) h =
      assign_roles-kept (assign_role roles assigned (trim n)) names
        (assign_role-kept assigned (trim n) h)

  assign_role-has :
      (assigned : List Text)
      → exists (is_role name) roles ≡ true
      → is_nil name ≡ false
      → contains (assign_role roles assigned name) name ≡ true
  unfolding assign_role contains exists
  assign_role-has assigned k n =
      ground (arith, exists-append (λ x. text_eq x name) assigned (name ∷ []), text_eq_refl name)

  -- A role of the table that is named is assigned.
  pub assign_roles-has :
      (assigned names : List Text)
      → exists (is_role name) roles ≡ true
      → trim name ≡ name
      → is_nil name ≡ false
      → contains names name ≡ true
      → contains (assign_roles roles assigned names) name ≡ true
  unfolding assign_roles contains exists
  assign_roles-has assigned [] k t n h = cc
  assign_roles-has assigned (m ∷ names) k t n h = elim (Bool-cases (text_eq m name)) [
    | inl e ↦
        let same : trim m ≡ name = ap trim ((text_eq_iff m name).0 e) ∙ t in
        rw same
          (assign_roles-kept (assign_role roles assigned name) names (assign_role-has assigned k n))
    | inr e ↦ assign_roles-has (assign_role roles assigned (trim m)) names k t n (ground arith)
  ]

abbrev pub is_admin_role : Text → Bool
is_admin_role role = text_eq role role_admin || text_eq role role_full_access

exists-implied :
    (p q : Text → Bool) (xs : List Text)
    → ((x : Text) → p x ≡ true → q x ≡ true)
    → exists p xs ≡ true
    → exists q xs ≡ true
unfolding exists
exists-implied p q [] k h = cc
exists-implied p q (x ∷ xs) k h = ground (arith, exists-implied p q xs k, k x)

-- The names hold one of the two.
any_role-cases :
    (names : List Text)
    → contains_any_role names (role_admin ∷ role_full_access ∷ []) ≡ true
    → (contains names role_admin ≡ true) ⊎ (contains names role_full_access ≡ true)
unfolding contains_any_role contains exists
any_role-cases [] h = cc
any_role-cases (n ∷ names) h = ground (arith, any_role-cases names)

ensured_admin :
    (roles : List Role) (names : List Text)
    → exists (is_role role_admin) (ensure_roles roles (roles_to_ensure names)) ≡ true
unfolding roles_to_ensure default_managed_roles ensure_roles trim trim_left trim_right is_space
ensured_admin roles names =
    ensure_roles-kept role_admin (ensure_role roles managed_admin)
      (managed_full_access ∷ (managed_actions ++ roles_of_names names))
      (ensure_role-has roles managed_admin)

ensured_full_access :
    (roles : List Role) (names : List Text)
    → exists (is_role role_full_access) (ensure_roles roles (roles_to_ensure names)) ≡ true
unfolding roles_to_ensure default_managed_roles ensure_roles trim trim_left trim_right is_space
ensured_full_access roles names =
    let with_admin = ensure_role roles managed_admin in
    ensure_roles-kept role_full_access (ensure_role with_admin managed_full_access)
      (managed_actions ++ roles_of_names names) (ensure_role-has with_admin managed_full_access)

-- Roles that hold `admin` or `full_access` are in the table and make the user an administrator.
pub assign_roles-admin :
    (roles : List Role) (names : List Text)
    → contains_any_role names (role_admin ∷ role_full_access ∷ []) ≡ true
    → exists is_admin_role (assign_roles (ensure_roles roles (roles_to_ensure names)) [] names)
      ≡ true
unfolding contains trim trim_left trim_right is_space
assign_roles-admin roles names h =
    let table = ensure_roles roles (roles_to_ensure names) in
    elim (any_role-cases names h) [
      | inl e ↦
          exists-implied (λ x. text_eq x role_admin) is_admin_role (assign_roles table [] names)
            (λ x p. ground (arith, p))
            (assign_roles-has table role_admin [] names (ensured_admin roles names) refl refl e)
      | inr e ↦
          exists-implied (λ x. text_eq x role_full_access) is_admin_role
            (assign_roles table [] names) (λ x p. ground (arith, p))
            (assign_roles-has table role_full_access [] names (ensured_full_access roles names) refl
              refl e)
    ]
