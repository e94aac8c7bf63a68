-- ===== src/Web/ExecPolicies/Templates.antt =====
-- Which templates a command is built from, and what its arguments are, server/internal/web/exec_policies.go.
use agents_management.Prelude.{
  ℕ, suc, if◌then◌else◌, ◌⊎◌, inl, inr, Bool, true, false, ◌&&◌, List, [], ◌∷◌, ◌≡◌, refl, Text,
  trim, is_nil,
}
use agents_management.Web.Values.{Values, interpolate}
use agents_management.Web.Values.Replaced.{Interpolates, interpolate-Interpolates}
use agents_management.Web.ExecPolicies.{
  Policy, Binding, Library, args_template, interpolate_args, command_template,
}

-- The templates of a binding go before those of the policy, unless they are blank or none.
pub record Templates (policy : Policy) (binding : Binding) (command : Text) (args : List Text)
    : Type 0 where
  pub overridden :
      binding.command_template_override.valid ≡ true
      → is_nil (trim binding.command_template_override.string) ≡ false
      → command ≡ binding.command_template_override.string
  pub not_overridden :
      (binding.command_template_override.valid ≡ false)
        ⊎ (is_nil (trim binding.command_template_override.string) ≡ true)
      → command ≡ policy.command_template
  pub args_overridden :
      is_nil binding.args_template_override ≡ false → args ≡ binding.args_template_override
  pub args_not_overridden : binding.args_template_override ≡ [] → args ≡ policy.args_template

-- Each argument is its template with the values, which the k-th loop visits in their k-th order.
pub data AllInterpolate (library : Library) (values : Values)
    : ℕ → List Text → List Text → Type 0 where
  no_args : (k : ℕ) → AllInterpolate library values k [] []
  next_arg :
      (k : ℕ) (template arg : Text) (templates args : List Text)
      → Interpolates template (library.order k values) arg
      → AllInterpolate library values (suc k) templates args
      → AllInterpolate library values k (template ∷ templates) (arg ∷ args)

blank :
    (valid : Bool) (text template : Text) → (if valid && false then text else template) ≡ template
blank true text template = refl
blank false text template = refl

pub template_lem :
    (policy : Policy) (binding : Binding)
    → Templates policy binding (command_template policy binding) (args_template policy binding)
unfolding command_template args_template
template_lem policy binding =
    let override = binding.command_template_override in
    record {
      overridden = λ valid full. rw (valid, full) refl;
      not_overridden = λ h. elim h [
        | inl e ↦ rw e refl
        | inr e ↦ rw e (blank override.valid override.string policy.command_template)
      ];
      args_overridden = λ h. rw h refl;
      args_not_overridden = λ h. rw h refl;
    }

pub interpolate_args-AllInterpolate :
    (library : Library) (k : ℕ) (templates : List Text) (values : Values)
    → AllInterpolate library values k templates (interpolate_args library k templates values)
unfolding interpolate_args
interpolate_args-AllInterpolate library k [] values = no_args k
interpolate_args-AllInterpolate library k (template ∷ templates) values =
    next_arg k template (interpolate template (library.order k values)) templates
      (interpolate_args library (suc k) templates values)
      (interpolate-Interpolates template (library.order k values))
      (interpolate_args-AllInterpolate library (suc k) templates values)
