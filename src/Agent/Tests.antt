-- ===== src/Agent/Tests.antt =====
-- The statements on the agent, at one fetched file, one update and one file with an identifier.
use agents_management.Prelude.{
  true, false, none, some, [], ◌∷◌, ◌≡◌, refl, Text, codes, pos, ok, ◌⊎◌, is_nil, trim, trim_left,
  trim_right, is_space, int64,
}
use agents_management.Storage.Model.{fetch_file}
use agents_management.Storage.Tasks.{get_task_by_id}
use agents_management.Samples.{unary_format}
use agents_management.Server.World.{TaskCommand, stored}
use agents_management.Server.Tests.{env}
use agents_management.Server.StreamTests.{fetching}
use agents_management.Server.Logs.{eof}
use agents_management.Server.Uploads.{
  upload_task_file, for_task, to_destination, made_directory, opened, write_chunks, closed,
  file_call, leave, destination_of, is_fetch,
}
use agents_management.Agent.Report.{Status, success}
use agents_management.Agent.Fetch.{
  Machine, more, end_of_file, send_reads, finalized, after_sends, handle_fetch_file_task, all_read,
}
use agents_management.Agent.Fetch.Arrives.{Arrives, handle_fetch_file_task-Arrives}
use agents_management.Agent.Update.{
  Updater, PackageStream, handle_agent_update_task, IsVerified, handle_agent_update_task-IsVerified,
}
use agents_management.Agent.Identity.{
  holding, get_or_create_agent_id, get_or_create_agent_id-stable,
}

abbrev command : TaskCommand
command = record {
  task_id = codes "aaa";
  task_type = fetch_file;
  command = codes "abc";
  args = [];
  entrypoint_script = [];
  source_path = codes "in";
  destination_path = codes "out";
  timeout_seconds = pos 0;
}

abbrev machine : Machine
machine = record {
  opens = true;
  streams = true;
  reads = (codes "ab", more) ∷ (codes "c", end_of_file) ∷ [];
  send_fails = λ k. false;
}

handle_fetch_file_task-Arrives_example :
    Arrives env
      (codes "aaaaa")
      command
      (all_read machine.reads)
      fetching
      (handle_fetch_file_task env (codes "aaaaa") command machine fetching).1
handle_fetch_file_task-Arrives_example =
    handle_fetch_file_task-Arrives env (codes "aaaaa") command machine fetching
      (unfold handle_fetch_file_task after_sends send_reads finalized upload_task_file for_task
          stored get_task_by_id to_destination destination_of is_fetch made_directory opened
          write_chunks closed file_call leave int64 in
        refl)
      (unfold all_read in λ e. cc)

abbrev updater : Updater
updater = record {
  unzip = λ archive. some (some (ok archive) ∷ []);
  sha256_hex = λ body. body;
  apply = λ body. none;
}

abbrev archive_stream : PackageStream
archive_stream = some (codes "ab" ∷ codes "c" ∷ [], eof)

handle_agent_update_task-IsVerified_example :
    (((handle_agent_update_task updater command archive_stream).applied ≡ [])
      × ((handle_agent_update_task updater command archive_stream).exits ≡ false)
      × ((handle_agent_update_task updater command archive_stream).report.status ≡ Status.failed))
    ⊎ ((body : Text) × ((handle_agent_update_task updater command archive_stream).applied
          ≡ body ∷ [])
        × ((handle_agent_update_task updater command archive_stream).exits ≡ true)
        × ((handle_agent_update_task updater command archive_stream).report.status ≡ success)
        × IsVerified updater command archive_stream body)
handle_agent_update_task-IsVerified_example =
    handle_agent_update_task-IsVerified updater command archive_stream

get_or_create_agent_id-stable_example :
    ((get_or_create_agent_id unary_format 7 none
        (get_or_create_agent_id unary_format 3 none (holding (codes " aa "))).1).0
      ≡ ok (codes "aa"))
    × ((is_nil (codes "aa") ≡ false)
        ⊎ ((text : Text) × (holding (codes " aa ") ≡ holding text) × (trim text ≡ [])))
get_or_create_agent_id-stable_example =
    get_or_create_agent_id-stable unary_format 3 7 none none (holding (codes " aa ")) (codes "aa")
      (unfold trim trim_left trim_right is_space in refl) refl
      (unfold get_or_create_agent_id trim trim_left trim_right is_space in refl)
