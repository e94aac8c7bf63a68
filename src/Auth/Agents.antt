-- ===== src/Auth/Agents.antt =====
-- What the roles `agent:<uuid>` and `agent:<uuid>:<permission>` grant.
use agents_management.Prelude.{
  true, Option, none, some, List, [], ◌∷◌, ◌++◌, ◌≡◌, refl, ap, ◌∙◌, arith, Text, codes,
  text_eq_iff, contains, to_lower, trim, trim_left, trim_right, is_space, has_prefix,
  has_prefix-append, exists, trim_right-trim, trim_right-append, trim_right-to_lower,
  to_lower-to_lower, to_lower-append, Uuid, UuidFormat,
}
use mathlib.Core.List.{append_assoc}
use agents_management.Auth.{
  Principal, has_role, role_for_agent, role_for_agent_permission, has_any_agent_permission,
  has_agent_permission,
}
use agents_management.Auth.Roles.{normal}

trim_right-permission :
    (permission : Text) → trim_right (to_lower (trim permission)) ≡ to_lower (trim permission)
trim_right-permission permission =
    trim_right-to_lower (trim permission) ∙ ap to_lower (trim_right-trim permission)

to_lower-agent_role :
    (u q : Text)
    → to_lower (codes "agent:" ++ to_lower u ++ (58 ∷ to_lower q))
      ≡ codes "agent:" ++ to_lower u ++ (58 ∷ to_lower q)
unfolding to_lower
to_lower-agent_role u q =
    simp
      (
        to_lower-append (codes "agent:" ++ to_lower u) (58 ∷ to_lower q),
        to_lower-append (codes "agent:") (to_lower u),
        to_lower-to_lower u,
      )
      (ap (λ t. codes "agent:" ++ to_lower u ++ t) (ap (λ t. 58 ∷ t) (to_lower-to_lower q)))

exists-has_prefix :
    (prefix role : Text) (roles : List Text)
    → contains roles role ≡ true
    → has_prefix prefix role ≡ true
    → exists (λ r. has_prefix prefix r) roles ≡ true
unfolding contains exists
exists-has_prefix prefix role [] h k = cc
exists-has_prefix prefix role (r ∷ roles) h k =
    ground (arith, text_eq_iff r role, exists-has_prefix prefix role roles)

module _ (fmt : UuidFormat) where
  -- The role of a permission is in normal form.
  normal-role_for_agent_permission :
      (a : Uuid) (permission : Text)
      → normal (role_for_agent_permission fmt a permission)
        ≡ role_for_agent_permission fmt a permission
  unfolding role_for_agent_permission role_for_agent trim trim_left
  normal-role_for_agent_permission a permission =
      let agent = codes "agent:" ++ to_lower (fmt.string a) in
      rw
        (
          trim_right-append agent (to_lower (trim permission)) 58 (unfold is_space in refl),
          trim_right-permission permission,
        )
        (to_lower-agent_role (fmt.string a) (trim permission))

  has_prefix-role_for_agent_permission :
      (a : Uuid) (permission : Text)
      → has_prefix (role_for_agent fmt a ++ codes ":") (role_for_agent_permission fmt a permission)
        ≡ true
  unfolding role_for_agent_permission
  has_prefix-role_for_agent_permission a permission =
      rw (← append_assoc (role_for_agent fmt a) (codes ":") (to_lower (trim permission)))
        (has_prefix-append _ _)

  -- Whoever has one permission on an agent may see that agent.
  pub has_any_agent_permission-has_agent_permission :
      (p : Option Principal) (a : Uuid) (permission : Text)
      → has_agent_permission fmt p a permission ≡ true
      → has_any_agent_permission fmt p a ≡ true
  unfolding has_agent_permission has_any_agent_permission has_role
  has_any_agent_permission-has_agent_permission none a permission h = cc
  has_any_agent_permission-has_agent_permission (some p) a permission h = ground (
    arith,
    normal-role_for_agent_permission a permission,
    exists-has_prefix (role_for_agent fmt a ++ codes ":")
        (role_for_agent_permission fmt a permission) p.roles,
    has_prefix-role_for_agent_permission a permission,
  )
