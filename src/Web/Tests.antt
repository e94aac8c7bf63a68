-- ===== src/Web/Tests.antt =====
-- The statements on commands from policies, at a policy with two parameters.
use agents_management.Prelude.{
  subst, ok-injective, Bool, true, false, none, some, List, [], ◌∷◌, ◌≡◌, ◌↔◌, refl, Text, codes,
  ok, if◌then◌else◌, text_eq, trim, trim_left, trim_right, is_space, has_prefix,
}
use agents_management.Samples.{unary_format, null_string}
use agents_management.Web.Values.{Values, find, value_of, interpolate, replace_all, put}
use agents_management.Web.ExecPolicies.{
  Definition, Policy, Binding, ResolvedTask, ExecPolicies, Library, merge_values, validate_values,
  validate_value, parse_parameter_schema, parse_string_map, resolve_rows, resolve_exec_policy_task,
  may_use, interpolate_args, command_template, args_template,
}
use agents_management.Web.ExecPolicies.Validation.{
  IsMet, Built, validate_values_iff, resolve_exec_policy_task-Built,
}
use agents_management.Web.ExecPolicies.Editable.{
  is_editable, or_else, find-merge_values, Agree, resolve_rows-Agree,
}

-- The path is the user's to choose, the host is not.
abbrev definition : Text → Bool → Definition
definition name editable = record {
  name = name;
  label = [];
  type = codes "text";
  required = true;
  editable = editable;
  secret = false;
  default_value = [];
  validation_re = [];
  allowed_values = [];
}

abbrev definitions : List Definition
definitions = definition (codes "p") true ∷ definition (codes "h") false ∷ []

abbrev base : Values
base = (codes "p", codes "/") ∷ (codes "h", codes "db") ∷ []

abbrev user : Values
user = (codes "p", codes "/tmp") ∷ (codes "h", codes "evil") ∷ []

abbrev other_user : Values
other_user = (codes "p", codes "/tmp") ∷ []

abbrev pub library : Library
library = record {
  unmarshal_definitions = λ raw. some definitions;
  unmarshal_values = λ raw. some base;
  match_string = λ pattern s. some true;
  order = λ k values. values;
}

abbrev policy : Policy
policy = record {
  id = 1;
  command_template = codes "ls {{h}}:{{p}}";
  args_template = [];
  parameter_schema = codes "[]";
  is_active = true;
}

abbrev binding : Binding
binding = record {
  id = 2;
  command_template_override = null_string;
  args_template_override = [];
  parameter_values = codes "{}";
  is_active = true;
}

abbrev pub storage : ExecPolicies
storage = record { policy_by_id = λ p. some policy; binding_of = λ p a. some binding }

abbrev command : ResolvedTask
command = record { policy_id = 1; binding_id = 2; command = codes "ls db:/tmp"; args = [] }

validate_values_iff_example :
    (validate_values library definitions base false ≡ ok tt) ↔ IsMet library definitions base false
validate_values_iff_example = validate_values_iff library definitions base false

resolve_exec_policy_task-Built_example :
    (may_use unary_format none 1 ≡ true)
    × (p : Policy) × (b : Binding) × (storage.policy_by_id 1 ≡ some p)
    × (p.is_active ≡ true)
    × (storage.binding_of 1 5 ≡ some b)
    × (b.is_active ≡ true)
    × Built library p b user command
resolve_exec_policy_task-Built_example =
    resolve_exec_policy_task-Built unary_format library storage none 1 5 user command (
      unfold resolve_exec_policy_task may_use resolve_rows parse_parameter_schema parse_string_map
        validate_values validate_value value_of find merge_values put text_eq trim trim_left
        trim_right is_space interpolate replace_all has_prefix interpolate_args command_template
        args_template in
      refl)

find-merge_values_example :
    find (merge_values definitions base user) (codes "h")
    ≡ or_else
        (if is_editable definitions (codes "h") then find user (codes "h") else none)
        (find (merge_values definitions base []) (codes "h"))
find-merge_values_example = find-merge_values definitions base user (codes "h")

same_for_path :
    (defs : List Definition)
    → parse_parameter_schema library policy.parameter_schema ≡ ok defs
    → Agree defs user other_user
unfolding parse_parameter_schema find text_eq trim trim_left trim_right is_space
same_for_path defs e =
    subst (λ ds. Agree ds user other_user) (ok-injective e) (λ h. refl, ((λ h. cc), tt))

resolve_rows-Agree_example :
    resolve_rows library policy binding user ≡ resolve_rows library policy binding other_user
resolve_rows-Agree_example = resolve_rows-Agree library policy binding user other_user same_for_path
