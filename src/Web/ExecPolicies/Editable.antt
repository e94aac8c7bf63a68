-- ===== src/Web/ExecPolicies/Editable.antt =====
-- Which values of a user reach a command.
use agents_management.Prelude.{
  Bool, true, ◌&&◌, Option, none, some, List, [], ◌∷◌, ◌≡◌, refl, arith, Text, text_eq, text_eq_iff,
  exists, All, if◌then◌else◌, ok, Bool-cases, Option-cases, inl, inr, Result-cases,
}
use agents_management.Web.Values.{Values, find, value_of, put}
use agents_management.Web.ExecPolicies.{
  Definition, Policy, Binding, Library, put_found, put_defaults, put_values, put_editable,
  parse_parameter_schema, parse_string_map, validate_values, merge_values, resolve_rows,
}

-- Some editable definition has this name.
abbrev pub is_editable : List Definition → Text → Bool
is_editable defs name = exists (λ d. d.editable && text_eq d.name name) defs

abbrev pub or_else : Option Text → Option Text → Option Text
or_else none b = b
or_else (some v) b = some v

find-put :
    (values : Values) (k v name : Text)
    → find (put values k v) name ≡ (if text_eq k name then some v else find values name)
unfolding find put
find-put [] k v name = refl
find-put ((j, u) ∷ values) k v name =
    ground
      (arith, find-put values k v name, text_eq_iff j k, text_eq_iff k name, text_eq_iff j name)

find-put_editable :
    (merged : Values) (defs : List Definition) (user_values : Values) (name : Text)
    → find (put_editable merged defs user_values) name
      ≡ or_else (if is_editable defs name then find user_values name else none) (find merged name)
unfolding put_editable put_found exists
find-put_editable merged [] user_values name = refl
find-put_editable merged (d ∷ defs) user_values name =
    elim (Option-cases (find user_values d.name)) [
      | inl e ↦
          ground (arith, find-put_editable merged defs user_values name, text_eq_iff d.name name)
      | inr (v, e) ↦ ground (
        arith,
        find-put_editable merged defs user_values name,
        find-put_editable (put merged d.name v) defs user_values name,
        find-put merged d.name v name,
        text_eq_iff d.name name,
      )
    ]

put_editable-nil : (merged : Values) (defs : List Definition) → put_editable merged defs [] ≡ merged
unfolding put_editable put_found find
put_editable-nil merged [] = refl
put_editable-nil merged (d ∷ defs) = ground (arith, put_editable-nil merged defs)

-- The merged value of a parameter is the user's if an editable definition has its name and the user
-- gave one, and in every other case what it is without any user value.
pub find-merge_values :
    (defs : List Definition) (binding_values user_values : Values) (name : Text)
    → find (merge_values defs binding_values user_values) name
      ≡ or_else
          (if is_editable defs name then find user_values name else none)
          (find (merge_values defs binding_values []) name)
unfolding merge_values
find-merge_values defs binding_values user_values name =
    let base = put_values (put_defaults [] defs) binding_values in
    rw (put_editable-nil base defs) (find-put_editable base defs user_values name)

-- Two users' values agree on the editable definitions.
abbrev pub Agree : List Definition → Values → Values → Type 0
Agree defs u v = All (λ d. d.editable ≡ true → find u d.name ≡ find v d.name) defs

put_editable-Agree :
    (merged : Values) (defs : List Definition) (u v : Values)
    → Agree defs u v
    → put_editable merged defs u ≡ put_editable merged defs v
unfolding put_editable
put_editable-Agree merged [] u v h = refl
put_editable-Agree merged (d ∷ defs) u v h = elim (Bool-cases d.editable) [
  | inl e ↦
      rw (e, h.0 e) (put_editable-Agree (put_found merged d.name (find v d.name)) defs u v h.1)
  | inr e ↦ rw e (put_editable-Agree merged defs u v h.1)
]

validate_values-Agree :
    (library : Library) (defs : List Definition) (u v : Values)
    → Agree defs u v
    → validate_values library defs u true ≡ validate_values library defs v true
unfolding validate_values value_of
validate_values-Agree library [] u v h = refl
validate_values-Agree library (d ∷ defs) u v h = elim (Bool-cases d.editable) [
  | inl e ↦ rw (e, h.0 e, validate_values-Agree library defs u v h.1) refl
  | inr e ↦ rw e (validate_values-Agree library defs u v h.1)
]

merge_values-Agree :
    (defs : List Definition) (binding_values u v : Values)
    → Agree defs u v
    → merge_values defs binding_values u ≡ merge_values defs binding_values v
unfolding merge_values
merge_values-Agree defs binding_values u v h =
    put_editable-Agree (put_values (put_defaults [] defs) binding_values) defs u v h

-- The command, its arguments and every error depend only on the user's values for the editable
-- definitions of the policy: two users who agree on them are answered alike.
pub resolve_rows-Agree :
    (library : Library) (policy : Policy) (binding : Binding) (u v : Values)
    → ((defs : List Definition)
        → parse_parameter_schema library policy.parameter_schema ≡ ok defs
        → Agree defs u v)
    → resolve_rows library policy binding u ≡ resolve_rows library policy binding v
unfolding resolve_rows
resolve_rows-Agree library policy binding u v h =
    elim (Result-cases (parse_parameter_schema library policy.parameter_schema)) [
      | inl (defs, e) ↦ elim (Result-cases (parse_string_map library binding.parameter_values)) [
        | inl (base, f) ↦
            rw
              (
                e,
                f,
                merge_values-Agree defs base u v (h defs e),
                validate_values-Agree library defs u v (h defs e),
              )
              refl
        | inr (x, f) ↦ rw (e, f) refl
      ]
      | inr (x, e) ↦ rw e refl
    ]
