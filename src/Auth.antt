-- ===== src/Auth.antt =====
-- server/internal/auth/auth.go: principals, roles and permissions. A nil `*Principal` is `none`; the
-- set of roles is a list whose order and repetitions no operation shows.
pub mod Roles
pub mod Agents
pub mod Isolation
pub mod Grants
pub mod Basic
pub mod Tests
use agents_management.Prelude.{
  ℕ, Bool, true, false, ◌&&◌, ◌||◌, Option, none, some, List, [], ◌∷◌, ◌++◌, Text, codes, text_eq,
  contains, to_lower, trim, has_prefix, is_nil, exists, if◌then◌else◌, Uuid, UuidFormat,
}
use agents_management.Storage.Model.{
  TaskType, exec_command, exec_python_script, fetch_file, push_file, agent_update, other, Agent,
}

abbrev pub role_admin : Text
role_admin = codes "admin"

abbrev pub role_full_access : Text
role_full_access = codes "full_access"

pub record Principal : Type 0 where
  pub username : Text
  pub roles : List Text

pub normalized_roles : List Text → List Text
normalized_roles [] = []
normalized_roles (role ∷ roles) =
    let trimmed = trim (to_lower role) in
    let rest = normalized_roles roles in if is_nil trimmed then rest else trimmed ∷ rest

unfoldable pub new_principal : Text → List Text → Principal
unfolding normalized_roles
new_principal username roles = record { username = username; roles = normalized_roles roles }

unfoldable pub is_admin : Option Principal → Bool
is_admin none = false
is_admin (some p) = if contains p.roles role_admin then true else contains p.roles role_full_access

unfoldable pub has_role : Option Principal → Text → Bool
has_role none role = false
has_role (some p) role = contains p.roles (to_lower (trim role))

unfoldable pub role_for_task_type : TaskType → Text
role_for_task_type exec_command = codes "action.exec_command"
role_for_task_type exec_python_script = codes "action.exec_python_script"
role_for_task_type fetch_file = codes "action.fetch_file"
role_for_task_type push_file = codes "action.push_file"
role_for_task_type agent_update = codes "action.agent_update"
role_for_task_type (other name) = codes "action." ++ to_lower name

unfoldable pub can_run_task_type : Option Principal → TaskType → Bool
can_run_task_type none t = true
can_run_task_type (some p) t = is_admin (some p) || has_role (some p) (role_for_task_type t)

module _ (fmt : UuidFormat) where
  unfoldable pub role_for_agent : Uuid → Text
  role_for_agent agent_id = codes "agent:" ++ to_lower (fmt.string agent_id)

  unfoldable pub role_for_agent_permission : Uuid → Text → Text
  role_for_agent_permission agent_id permission =
      role_for_agent agent_id ++ (codes ":" ++ to_lower (trim permission))

  unfoldable pub has_any_agent_permission : Option Principal → Uuid → Bool
  has_any_agent_permission none agent_id = false
  has_any_agent_permission (some p) agent_id =
      if is_admin (some p) || has_role (some p) (role_for_agent agent_id)
      then true
      else exists (λ role. has_prefix (role_for_agent agent_id ++ codes ":") role) p.roles

  unfoldable pub has_agent_permission : Option Principal → Uuid → Text → Bool
  has_agent_permission none agent_id permission = false
  has_agent_permission (some p) agent_id permission =
      is_admin (some p)
      || (has_role (some p) (role_for_agent agent_id)
          || has_role (some p) (role_for_agent_permission agent_id permission))

  unfoldable pub can_access_agent : Option Principal → Uuid → Bool
  can_access_agent none agent_id = true
  can_access_agent (some p) agent_id =
      is_admin (some p) || has_any_agent_permission (some p) agent_id

  unfoldable pub role_for_exec_policy : Uuid → Text → Text
  role_for_exec_policy policy_id permission =
      codes "exec_policy:"
      ++ (to_lower (fmt.string policy_id) ++ (codes ":" ++ to_lower (trim permission)))

  unfoldable pub has_exec_policy_permission : Option Principal → Uuid → Text → Bool
  has_exec_policy_permission none policy_id permission = false
  has_exec_policy_permission (some p) policy_id permission =
      is_admin (some p) || has_role (some p) (role_for_exec_policy policy_id permission)

  -- The keys of the returned set, in the order of the agents; a nil pointer is `none`.
  unfoldable pub accessible_agent_ids : Option Principal → List (Option Agent) → List Uuid
  accessible_agent_ids p [] = []
  accessible_agent_ids p (none ∷ agents) = accessible_agent_ids p agents
  accessible_agent_ids p (some agent ∷ agents) =
      let rest = accessible_agent_ids p agents in
      if can_access_agent p agent.id then agent.id ∷ rest else rest
