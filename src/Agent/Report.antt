-- ===== src/Agent/Report.antt =====
-- submitResult of agent/internal/agent.go: what the agent reports of a task.
use agents_management.Prelude.{Text, ℤ, pos, negsuc}

pub data Status : Type 0 where
  success failed timed_out : Status

pub record Report : Type 0 where
  pub status : Status
  pub exit_code : ℤ
  pub output : Text

abbrev pub failure : Text → Report
failure output = record { status = failed; exit_code = negsuc 0; output = output }

abbrev pub succeeded : Text → Report
succeeded output = record { status = success; exit_code = pos 0; output = output }
