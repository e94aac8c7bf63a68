-- ===== src/Web/ExecPolicies/Validation.antt =====
-- What a command that was built from a policy has passed.
use agents_management.Prelude.{
  subst, Bool, true, false, not, ◌&&◌, ◌||◌, Option, none, some, List, [], ◌∷◌, ◌≡◌, ◌↔◌, refl,
  arith, Text, contains, trim, is_nil, All, Result, ok, err, ◌>>=◌, ◌>>◌, reject_if, >>=-eq-ok,
  ok-injective, Uuid, UuidFormat, ap, sym,
}
use agents_management.Auth.{Principal}
use agents_management.Web.Values.{Values, value_of}
use agents_management.Web.Values.Replaced.{Interpolates, interpolate-Interpolates}
use agents_management.Web.ExecPolicies.Templates.{
  Templates, AllInterpolate, template_lem, interpolate_args-AllInterpolate,
}
use agents_management.Web.ExecPolicies.{
  Definition, Policy, Binding, ResolvedTask, ExecPolicyError, Library, ExecPolicies, match_or,
  args_template, parse_parameter_schema, parse_string_map, validate_value, validate_values,
  merge_values, resolve_rows, resolve_exec_policy_task, may_use, stored_or, command_template,
}

-- The value meets the definition: it is there if it is required, it matches the pattern if there is
-- one, and it is an allowed value if there are any.
abbrev pub is_match : Option Bool → Bool
is_match none = false
is_match (some matched) = matched

abbrev pub meets : Library → Definition → Text → Bool
meets library d value =
    not (d.required && is_nil value)
    && ((is_nil d.validation_re
          || (is_nil value || is_match (library.match_string d.validation_re value)))
        && (is_nil d.allowed_values || (is_nil value || contains d.allowed_values value)))

-- The definitions that are looked at are met by their trimmed values.
abbrev pub IsMet : Library → List Definition → Values → Bool → Type 0
IsMet library defs values user_input_only =
    All
      (λ d.
        ((user_input_only && not d.editable) || meets library d (trim (value_of values d.name)))
        ≡ true)
      defs

validate_value_lem :
    (library : Library) (d : Definition) (value : Text)
    → (validate_value library d value ≡ ok tt) ↔ (meets library d value ≡ true)
unfolding validate_value match_or
validate_value_lem library d value = ground arith

-- The validation succeeds exactly if every definition that it looks at is met; with user input only,
-- it looks at the editable ones.
pub validate_values_iff :
    (library : Library) (defs : List Definition) (values : Values) (user_input_only : Bool)
    → (validate_values library defs values user_input_only ≡ ok tt)
      ↔ IsMet library defs values user_input_only
unfolding validate_values
validate_values_iff library [] values b = ((λ h. tt), (λ h. refl))
validate_values_iff library (d ∷ defs) values b = ground (
  arith,
  validate_value_lem library d (trim (value_of values d.name)),
  validate_values_iff library defs values b,
)

>>-eq-ok {ℓ} :
    {B : Type ℓ} (m : Result ExecPolicyError (Unit {0})) (k : Result ExecPolicyError B) {b : B}
    → (m >> k) ≡ ok b
    → (m ≡ ok tt) × (k ≡ ok b)
>>-eq-ok (ok tt) k h = (refl, h)
>>-eq-ok (err e) k h = cc

reject_if-eq-ok {ℓ} :
    {B : Type ℓ} (test : Bool) (e : ExecPolicyError) (k : Result ExecPolicyError B) {b : B}
    → (reject_if (not test) e >> k) ≡ ok b
    → (test ≡ true) × (k ≡ ok b)
reject_if-eq-ok true e k h = (refl, h)
reject_if-eq-ok false e k h = cc

stored_or-eq-ok {ℓ κ} :
    {A : Type ℓ} {B : Type κ} (m : Option A) (f : A → Result ExecPolicyError B) {b : B}
    → (stored_or m >>= f) ≡ ok b
    → (a : A) × (m ≡ some a) × (f a ≡ ok b)
unfolding stored_or
stored_or-eq-ok none f h = cc
stored_or-eq-ok (some a) f h = (a, refl, h)

-- The rows of the policy and of the binding, and the task that they give.
pub record Built (library : Library) (policy : Policy) (binding : Binding) (user_values : Values)
    (task : ResolvedTask) : Type 0 where
  pub defs : List Definition
  pub base : Values
  pub command : Text
  pub args : List Text
  pub schema : parse_parameter_schema library policy.parameter_schema ≡ ok defs
  pub bound : parse_string_map library binding.parameter_values ≡ ok base
  pub met : IsMet library defs (merge_values defs base user_values) true
  pub templates : Templates policy binding command args
  pub of_policy : task.policy_id ≡ policy.id
  pub of_binding : task.binding_id ≡ binding.id
  pub of_command :
      Interpolates command (library.order 0 (merge_values defs base user_values)) task.command
  pub of_args : AllInterpolate library (merge_values defs base user_values) 1 args task.args

resolve_rows-Built :
    (library : Library) (policy : Policy) (binding : Binding) (user_values : Values)
    {task : ResolvedTask}
    → resolve_rows library policy binding user_values ≡ ok task
    → Built library policy binding user_values task
unfolding resolve_rows
resolve_rows-Built library policy binding user_values {task} h =
    let (defs, at_defs, h₁) =
      >>=-eq-ok (parse_parameter_schema library policy.parameter_schema) _ h in
    let (base, at_base, h₂) = >>=-eq-ok (parse_string_map library binding.parameter_values) _ h₁ in
    let (met₁, h₃) = >>-eq-ok (validate_values library defs base false) _ h₂ in
    let (met₂, h₄) = >>-eq-ok (validate_values library defs user_values true) _ h₃ in
    let (met₃, h₅) =
      >>-eq-ok (validate_values library defs (merge_values defs base user_values) true) _ h₄ in
    let merged = merge_values defs base user_values in
    let built = ok-injective h₅ in
    record {
      defs = defs;
      base = base;
      command = command_template policy binding;
      args = args_template policy binding;
      schema = at_defs;
      bound = at_base;
      met = (validate_values_iff library defs merged true).0 met₃;
      templates = template_lem policy binding;
      of_policy = ap (λ t. t.policy_id) (sym built);
      of_binding = ap (λ t. t.binding_id) (sym built);
      of_command =
          subst
            (λ t. Interpolates (command_template policy binding) (library.order 0 merged) t.command)
            built
            (interpolate-Interpolates (command_template policy binding) (library.order 0 merged));
      of_args =
          subst (λ t. AllInterpolate library merged 1 (args_template policy binding) t.args) built
            (interpolate_args-AllInterpolate library 1 (args_template policy binding) merged);
    }

-- A task is built only if the principal may use the policy, if the policy and its binding to the agent
-- are there and active, and if the merged values meet every editable definition. It then names the
-- policy and the binding, and its command and its arguments are the templates (those of the binding
-- before those of the policy) in which every placeholder of a merged value is replaced, one key after
-- the other.
pub resolve_exec_policy_task-Built :
    (format : UuidFormat) (library : Library) (storage : ExecPolicies)
    (principal : Option Principal) (policy_id agent_id : Uuid) (user_values : Values)
    (task : ResolvedTask)
    → resolve_exec_policy_task format library
        (some storage)
        principal
        policy_id
        agent_id
        user_values
      ≡ ok task
    → (may_use format principal policy_id ≡ true)
      × (policy : Policy) × (binding : Binding) × (storage.policy_by_id policy_id ≡ some policy)
      × (policy.is_active ≡ true)
      × (storage.binding_of policy_id agent_id ≡ some binding)
      × (binding.is_active ≡ true)
      × Built library policy binding user_values task
unfolding resolve_exec_policy_task
resolve_exec_policy_task-Built format library storage principal policy_id agent_id user_values task
      h =
    let (allowed, h₁) = reject_if-eq-ok (may_use format principal policy_id) _ _ h in
    let (policy, at_policy, h₂) = stored_or-eq-ok (storage.policy_by_id policy_id) _ h₁ in
    let (active, h₃) = reject_if-eq-ok policy.is_active _ _ h₂ in
    let (binding, at_binding, h₄) = stored_or-eq-ok (storage.binding_of policy_id agent_id) _ h₃ in
    let (bound, h₅) = reject_if-eq-ok binding.is_active _ _ h₄ in
    (
      allowed,
      policy,
      binding,
      at_policy,
      active,
      at_binding,
      bound,
      resolve_rows-Built library policy binding user_values h₅,
    )
