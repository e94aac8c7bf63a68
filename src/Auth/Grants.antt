-- ===== src/Auth/Grants.antt =====
-- Principals that hold only roles of one agent, and what the action roles grant.
use agents_management.Prelude.{
  Bool, true, false, ◌||◌, some, List, [], ◌∷◌, ◌++◌, ◌≡◌, ◌≢◌, refl, sym, ◌∙◌, arith, Text, codes,
  text_eq, contains, to_lower, trim, trim_left, trim_right, has_prefix, exists, All, Uuid,
  UuidFormat,
}
use agents_management.Storage.Model.{TaskType, exec_command}
use agents_management.Auth.{
  new_principal, normalized_roles, is_admin, has_role, role_admin, role_full_access,
  role_for_task_type, can_run_task_type, can_access_agent, has_any_agent_permission,
}
use agents_management.Auth.Roles.{normal}
use agents_management.Auth.Isolation.{
  IsPlain, to_lower_of_IsPlain, agent_text, names_text, contains_of_names_text, not_names_text,
  All-normalized_roles, names_agent, names_agent_lem, role_for_agent_lem, string-injective,
}

trim_right_of_IsPlain : (s : Text) → IsPlain s → trim_right s ≡ s
unfolding trim_right
trim_right_of_IsPlain [] h = refl
trim_right_of_IsPlain (c ∷ s) h = ground (arith, trim_right_of_IsPlain s)

exists-or :
    (f g : Text → Bool) (roles : List Text)
    → exists (λ r. f r || g r) roles ≡ (exists f roles || exists g roles)
unfolding exists
exists-or f g [] = refl
exists-or f g (r ∷ roles) = ground (arith, exists-or f g roles)

normal-agent_text : (s : Text) → IsPlain s → normal (agent_text ++ s) ≡ agent_text ++ s
unfolding trim trim_left to_lower
normal-agent_text s h = rw (trim_right_of_IsPlain s h) (rw (to_lower_of_IsPlain s h))

-- A role for a task type does not begin like the role of an agent.
has_prefix-role_for_task_type :
    (t : TaskType) → has_prefix agent_text (normal (role_for_task_type t)) ≡ false
unfolding role_for_task_type trim to_lower has_prefix
has_prefix-role_for_task_type exec_command = refl
has_prefix-role_for_task_type _ = refl

-- A list of roles that name `s` holds neither the role of `t` nor a role of its permissions.
no_role_of_other :
    (s t : Text) (roles : List Text)
    → IsPlain s
    → IsPlain t
    → s ≢ t
    → All (λ r. names_text s r ≡ true) roles
    → (contains roles (agent_text ++ t) ≡ false)
      × (exists (λ r. has_prefix ((agent_text ++ t) ++ codes ":") r) roles ≡ false)
unfolding contains
no_role_of_other s t roles ps pt d h = ground (
  arith,
  not_names_text s t roles ps pt d h,
  exists-or (λ r. text_eq r (agent_text ++ t)) (λ r. has_prefix ((agent_text ++ t) ++ codes ":") r)
      roles,
)

module _ (fmt : UuidFormat) where
  All-names_text :
      (a : Uuid) (roles : List Text)
      → All (λ r. names_agent fmt a (normal r) ≡ true) roles
      → All (λ r. names_text (fmt.string a) (normal r) ≡ true) roles
  All-names_text a [] h = tt
  All-names_text a (r ∷ roles) h =
      (sym (names_agent_lem fmt a (normal r)) ∙ h.0, All-names_text a roles h.1)

  -- If each role of a user names the agent `a`, the user reaches no other agent, runs no task type
  -- and is no administrator.
  pub roles_of_one_agent :
      (username : Text) (roles : List Text) (a b : Uuid) (t : TaskType)
      → All (λ r. names_agent fmt a (normal r) ≡ true) roles
      → a ≢ b
      → (is_admin (some (new_principal username roles)) ≡ false)
        × (can_access_agent fmt (some (new_principal username roles)) b ≡ false)
        × (can_run_task_type (some (new_principal username roles)) t ≡ false)
  unfolding can_access_agent can_run_task_type is_admin has_any_agent_permission has_role
      new_principal
  roles_of_one_agent username roles a b t h d =
      let s = fmt.string a in
      let rs = normalized_roles roles in
      let named = All-normalized_roles s roles (All-names_text a roles h) in
      let others =
        no_role_of_other s (fmt.string b) rs (fmt.string_plain a) (fmt.string_plain b)
          (λ e. d (string-injective fmt a b e)) named in
      let admin = contains_of_names_text s role_admin rs named (unfold has_prefix in refl) in
      let full = contains_of_names_text s role_full_access rs named (unfold has_prefix in refl) in
      let action =
        contains_of_names_text s (normal (role_for_task_type t)) rs named
          (has_prefix-role_for_task_type t) in
      rw (role_for_agent_lem fmt b) (
        rw (normal-agent_text (fmt.string b) (fmt.string_plain b))
          (simp (admin, full, others.0, others.1, action) (refl, refl, refl)))
