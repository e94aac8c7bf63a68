-- ===== src/Web/Site.antt =====
-- What the handlers of server/internal/web that create tasks are configured with.
use agents_management.Prelude.{Option, Text, ℤ}
use agents_management.Server.World.{Env}
use agents_management.Web.ExecPolicies.{ExecPolicies, Library, ExecPolicyError}

-- What the site is configured with: the policies, package json and regexp, and strconv.Atoi, which
-- gives a value with its error too.
pub record Site : Type 0 where
  pub env : Env
  pub policies : Option ExecPolicies
  pub library : Library
  pub atoi : Text → ℤ
  pub policy_error : ExecPolicyError → Text
