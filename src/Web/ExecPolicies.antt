-- ===== src/Web/ExecPolicies.antt =====
-- server/internal/web/exec_policies.go: commands that are built from a policy's template and the
-- values of its parameters. A Go map is the list of its entries, each key once; `order k` is the order
-- in which the k-th loop over a map visits it: Go draws it anew for each loop of each run, and a library
-- is one such draw. json.Unmarshal and package regexp are parameters.
pub mod Templates
pub mod Validation
pub mod Editable
use agents_management.Prelude.{
  ℕ, zero, suc, ◌-◌, Bool, true, false, not, ◌&&◌, ◌||◌, Option, none, some, List, [], ◌∷◌, ◌++◌,
  Text, codes, text_eq, contains, trim, has_prefix, drop_prefix, is_nil, length, if◌then◌else◌,
  Result, ok, err, ◌>>=◌, ◌>>◌, reject_if, Uuid, UuidFormat,
}
use agents_management.Web.Values.{Values, find, value_of, put, interpolate}
use agents_management.Storage.Model.{NullString}
use agents_management.Auth.{Principal, has_exec_policy_permission}

pub record Definition : Type 0 where
  pub name : Text
  pub label : Text
  pub type : Text
  pub required : Bool
  pub editable : Bool
  pub secret : Bool
  pub default_value : Text
  pub validation_re : Text
  pub allowed_values : List Text

-- storage.ExecCommandPolicy and storage.ExecCommandPolicyBinding
pub record Policy : Type 0 where
  pub id : Uuid
  pub command_template : Text
  pub args_template : List Text
  pub parameter_schema : Text
  pub is_active : Bool

pub record Binding : Type 0 where
  pub id : Uuid
  pub command_template_override : NullString
  pub args_template_override : List Text
  pub parameter_values : Text
  pub is_active : Bool

pub record ResolvedTask : Type 0 where
  pub policy_id : Uuid
  pub binding_id : Uuid
  pub command : Text
  pub args : List Text

pub data ExecPolicyError : Type 0 where
  not_configured forbidden storage_error policy_inactive binding_inactive bad_json : ExecPolicyError
  required invalid_regex no_match unsupported_value : Text → ExecPolicyError

-- What the functions take from outside: the parsers of JSON, `regexp.Compile` with `MatchString`
-- (`none` if the pattern does not compile), and the orders of the loops over maps.
pub record Library : Type 0 where
  pub unmarshal_definitions : Text → Option (List Definition)
  pub unmarshal_values : Text → Option Values
  pub match_string : Text → Text → Option Bool
  pub order : ℕ → Values → Values

normalize_definition : Definition → Definition
normalize_definition d =
    let name = trim d.name in
    let label = trim d.label in
    let type = trim d.type in
    record d {
      name = name;
      label = if is_nil label then name else label;
      type = if is_nil type then codes "text" else type;
    }

normalize_definitions : List Definition → List Definition
unfolding normalize_definition
normalize_definitions [] = []
normalize_definitions (d ∷ defs) = normalize_definition d ∷ normalize_definitions defs

parsed_or {ℓ} : {A : Type ℓ} → Option A → Result ExecPolicyError A
parsed_or none = err bad_json
parsed_or (some a) = ok a

unfoldable pub parse_parameter_schema : Library → Text → Result ExecPolicyError (List Definition)
unfolding normalize_definitions parsed_or
parse_parameter_schema library [] = ok []
parse_parameter_schema library (c ∷ raw) = do
  defs ← parsed_or (library.unmarshal_definitions (c ∷ raw))
  ok (normalize_definitions defs)

unfoldable pub parse_string_map : Library → Text → Result ExecPolicyError Values
unfolding parsed_or
parse_string_map library [] = ok []
parse_string_map library (c ∷ raw) = parsed_or (library.unmarshal_values (c ∷ raw))

abbrev parameter_prefix : Text
parameter_prefix = codes "exec_policy_param_"

-- One entry of the form, in the loop of `collectExecPolicyUserValues`.
collect_entry : Text → List Text → Values → Values
collect_entry key [] values = values
collect_entry key (first ∷ rest) values =
    let name = trim (drop_prefix parameter_prefix key) in
    if not (has_prefix parameter_prefix key)
    then values
    else if is_nil name
    then values
    else put values name first

collect_from : Values → List (Text × List Text) → Values
unfolding collect_entry
collect_from values [] = values
collect_from values ((key, raw) ∷ form) = collect_from (collect_entry key raw values) form

unfoldable pub collect_user_values : List (Text × List Text) → Values
unfolding collect_from
collect_user_values form = collect_from [] form

-- The test of one definition, on the trimmed value.
match_or : Text → Option Bool → Result ExecPolicyError (Unit {0})
match_or name none = err (invalid_regex name)
match_or name (some matched) = reject_if (not matched) (no_match name)

unfoldable pub validate_value : Library → Definition → Text → Result ExecPolicyError (Unit {0})
unfolding match_or
validate_value library d value = do
  reject_if (d.required && is_nil value) (required d.name)
  (if not (is_nil d.validation_re) && not (is_nil value)
      then match_or d.name (library.match_string d.validation_re value)
      else ok tt)
  (if not (is_nil d.allowed_values) && not (is_nil value)
      then reject_if (not (contains d.allowed_values value)) (unsupported_value d.name)
      else ok tt)

unfoldable pub validate_values :
    Library → List Definition → Values → Bool → Result ExecPolicyError (Unit {0})
validate_values library [] values user_input_only = ok tt
validate_values library (d ∷ defs) values user_input_only =
    let rest = validate_values library defs values user_input_only in
    if user_input_only && not d.editable
    then rest
    else validate_value library d (trim (value_of values d.name)) >> rest

put_defaults : Values → List Definition → Values
put_defaults merged [] = merged
put_defaults merged (d ∷ defs) =
    put_defaults (if is_nil d.default_value then merged else put merged d.name d.default_value) defs

put_values : Values → Values → Values
put_values merged [] = merged
put_values merged ((key, value) ∷ values) = put_values (put merged key value) values

put_found : Values → Text → Option Text → Values
put_found merged name none = merged
put_found merged name (some value) = put merged name value

put_editable : Values → List Definition → Values → Values
unfolding put_found
put_editable merged [] user_values = merged
put_editable merged (d ∷ defs) user_values =
    put_editable
      (if not d.editable then merged else put_found merged d.name (find user_values d.name)) defs
      user_values

unfoldable pub merge_values : List Definition → Values → Values → Values
unfolding put_defaults put_values put_editable
merge_values defs binding_values user_values =
    put_editable (put_values (put_defaults [] defs) binding_values) defs user_values

unfoldable pub interpolate_args : Library → ℕ → List Text → Values → List Text
unfolding interpolate
interpolate_args library k [] values = []
interpolate_args library k (arg ∷ args) values =
    interpolate arg (library.order k values) ∷ interpolate_args library (suc k) args values

stored_or {ℓ} : {A : Type ℓ} → Option A → Result ExecPolicyError A
stored_or none = err storage_error
stored_or (some a) = ok a

unfoldable pub command_template : Policy → Binding → Text
command_template policy binding =
    let override = binding.command_template_override in
    if override.valid && not (is_nil (trim override.string))
    then override.string
    else policy.command_template

unfoldable pub args_template : Policy → Binding → List Text
args_template policy binding =
    if is_nil binding.args_template_override
    then policy.args_template
    else binding.args_template_override

-- A nil principal is not asked for a permission.
unfoldable pub may_use : UuidFormat → Option Principal → Uuid → Bool
may_use format none policy_id = true
may_use format (some p) policy_id =
    has_exec_policy_permission format (some p) policy_id (codes "use")

-- The rows of the two tables; a read that fails or finds no row is `none`.
pub record ExecPolicies : Type 0 where
  pub policy_by_id : Uuid → Option Policy
  pub binding_of : Uuid → Uuid → Option Binding

-- From the row of the policy and of the binding on.
unfoldable pub resolve_rows :
    Library → Policy → Binding → Values → Result ExecPolicyError ResolvedTask
resolve_rows library policy binding user_values = do
  defs ← parse_parameter_schema library policy.parameter_schema
  binding_values ← parse_string_map library binding.parameter_values
  validate_values library defs binding_values false
  validate_values library defs user_values true
  validate_values library defs (merge_values defs binding_values user_values) true
  ok record {
    policy_id = policy.id;
    binding_id = binding.id;
    command =
        interpolate (command_template policy binding)
          (library.order 0 (merge_values defs binding_values user_values));
    args =
        interpolate_args library 1 (args_template policy binding)
          (merge_values defs binding_values user_values);
  }

unfoldable pub resolve_exec_policy_task :
    UuidFormat
    → Library
    → Option ExecPolicies
    → Option Principal
    → Uuid
    → Uuid
    → Values
    → Result ExecPolicyError ResolvedTask
unfolding stored_or
resolve_exec_policy_task format library none principal policy_id agent_id user_values =
    err not_configured
resolve_exec_policy_task format library (some storage) principal policy_id agent_id user_values = do
  reject_if (not (may_use format principal policy_id)) forbidden
  policy ← stored_or (storage.policy_by_id policy_id)
  reject_if (not policy.is_active) policy_inactive
  binding ← stored_or (storage.binding_of policy_id agent_id)
  reject_if (not binding.is_active) binding_inactive
  resolve_rows library policy binding user_values
