-- ===== src/Server/Results/Tests.antt =====
-- The statement on results, for a result that agent 5 reports for a task that it has taken.
use agents_management.Prelude.{some, [], refl, codes, pos}
use agents_management.Storage.Model.{TaskResultStatus}
use agents_management.Storage.Tasks.{get_task_by_id}
use agents_management.Notify.Policy.{new_default_policy}
use agents_management.Server.World.{stored, draw}
use agents_management.Server.Calls.{get_task}
use agents_management.Server.Tests.{env, world}
use agents_management.Server.Results.{
  Submission, submit_task_result, submit_parsed, submit_loaded, create_result, after_create_result,
  mark, after_mark,
}
use agents_management.Server.Results.Outcome.{Processed, submit_task_result-success}
use agents_management.Prelude.{◌==◌}
use agents_management.Server.World.{Env}
use agents_management.Server.Results.Refused.{IsUntouched, Leaves, submit_task_result-failure}

abbrev submission : Submission
submission = record {
  agent_id = codes "aaaaa";
  task_id = codes "aaaa";
  status = TaskResultStatus.success;
  exit_code = pos 0;
  output = [];
  duration_ms = 12;
}

submit_task_result-success_example :
    Processed env new_default_policy [] 7 submission world
      (some 5)
      (some 4)
      (submit_task_result env new_default_policy [] 7 submission world).1
submit_task_result-success_example =
    submit_task_result-success env new_default_policy [] 7 submission world (
      unfold submit_task_result submit_parsed submit_loaded get_task get_task_by_id stored draw
        create_result after_create_result mark after_mark in
      refl)

abbrev failing : Env
failing = record env { fails = λ k. k == 2 }

submit_task_result-failure_example :
    let (response, after) = submit_task_result failing new_default_policy [] 7 submission world in
    IsUntouched world after
    × Leaves failing new_default_policy [] submission world response after.results
submit_task_result-failure_example =
    submit_task_result-failure failing new_default_policy [] 7 submission world (
      unfold submit_task_result submit_parsed submit_loaded get_task get_task_by_id stored draw
        create_result after_create_result mark after_mark in
      refl)
