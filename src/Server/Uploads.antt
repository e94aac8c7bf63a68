-- ===== src/Server/Uploads.antt =====
-- UploadTaskFile of server/internal/server.go. The stream is the requests that `Recv` returns before
-- its end. A write that fails is taken to have written nothing.
pub mod Stored
use agents_management.Prelude.{
  ℕ, suc, Bool, true, false, not, ◌&&◌, ◌||◌, Option, none, some, List, [], ◌∷◌, ◌++◌, Text, codes,
  Uuid, ℤ, int64, length, if◌then◌else◌, is_nil, ◌==◌, ==_iff, text_eq, text_eq_refl, ◌≡◌, refl,
  sym, ◌∙◌, ap, subst, arith, Bool-cases, Option-cases, inl, inr, Result, ok, err,
}
use agents_management.Storage.Model.{
  Task, TaskType, exec_command, exec_python_script, fetch_file, push_file, agent_update, other,
}
use agents_management.Storage.Tasks.{get_task_by_id}
use agents_management.Server.World.{Env, World, M, pure, stored, ◌>>=◌, ◌>>◌}
use agents_management.Server.Logs.{StreamEnd, eof, broken}

-- api.UploadTaskFileRequest
pub record UploadRequest : Type 0 where
  pub agent_id : Text
  pub task_id : Text
  pub content : Text

pub data UploadError : Type 0 where
  stream_failed invalid_agent invalid_task task_not_found not_of_agent not_a_fetch : UploadError
  no_destination mkdir_failed open_failed write_failed close_failed : UploadError

unfoldable pub is_fetch : TaskType → Bool
is_fetch fetch_file = true
is_fetch _ = false

-- The checks on the task of the first request, and where the file is to stand.
unfoldable pub destination_of : Uuid → Option Task → Result UploadError Text
unfolding is_fetch
destination_of agent_id none = err task_not_found
destination_of agent_id (some task) =
    if not (task.agent_id == agent_id)
    then err not_of_agent
    else if not (is_fetch task.task_type)
    then err not_a_fetch
    else if not task.destination_path.valid || is_nil task.destination_path.string
    then err no_destination
    else ok task.destination_path.string

module _ (env : Env) where
  -- A call on the file system; `true` is an error.
  unfoldable pub file_call : M Bool
  file_call w = (env.io_fails w.io, record w { io = suc w.io })

  unfoldable pub leave : Text → Text → M (Unit {0})
  leave path content w = (tt, record w { files = w.files ++ ((path, content) ∷ []) })

  unfoldable pub closed : Text → Bool → M (Result UploadError ℤ)
  closed content true = pure (err close_failed)
  closed content false = pure (ok (int64 (length content)))

  -- The loop once the file is open, with what was written to it.
  unfoldable pub write_chunks :
      Text → Text → List UploadRequest → StreamEnd → M (Result UploadError ℤ)
  unfolding closed
  write_chunks path content [] broken = pure (err stream_failed)
  write_chunks path content [] eof = file_call >>= closed content
  write_chunks path content (q ∷ requests) end = file_call >>= λ failed.
      if failed
      then file_call >> pure (err write_failed)
      else leave path (content ++ q.content)
        >> write_chunks path (content ++ q.content) requests end

  unfoldable pub opened : Text → List UploadRequest → StreamEnd → Bool → M (Result UploadError ℤ)
  unfolding write_chunks
  opened path requests end true = pure (err open_failed)
  opened path requests end false = leave path [] >> write_chunks path [] requests end

  unfoldable pub made_directory :
      Text → List UploadRequest → StreamEnd → Bool → M (Result UploadError ℤ)
  unfolding opened
  made_directory path requests end true = pure (err mkdir_failed)
  made_directory path requests end false = file_call >>= opened path requests end

  unfoldable pub to_destination :
      List UploadRequest → StreamEnd → Result UploadError Text → M (Result UploadError ℤ)
  unfolding made_directory
  to_destination requests end (err e) = pure (err e)
  to_destination requests end (ok path) = file_call >>= made_directory path requests end

  unfoldable pub for_task :
      List UploadRequest → StreamEnd → Option Uuid → Option Uuid → M (Result UploadError ℤ)
  unfolding to_destination
  for_task requests end none task_id = pure (err invalid_agent)
  for_task requests end (some agent_id) none = pure (err invalid_task)
  for_task requests end (some agent_id) (some task_id) =
      stored env (λ w. (get_task_by_id task_id w.tasks, w)) >>= λ task.
      to_destination requests end (destination_of agent_id task)

  -- A stream without a request is a success that wrote nothing.
  unfoldable pub upload_task_file : List UploadRequest → StreamEnd → M (Result UploadError ℤ)
  unfolding for_task
  upload_task_file [] broken = pure (err stream_failed)
  upload_task_file [] eof = pure (ok (int64 0))
  upload_task_file (q ∷ requests) end =
      for_task (q ∷ requests) end (env.format.parse q.agent_id) (env.format.parse q.task_id)

unfoldable pub all_content : List UploadRequest → Text
all_content [] = []
all_content (q ∷ requests) = q.content ++ all_content requests

-- What stands under the path
unfoldable pub file_content : Text → List (Text × Text) → Option Text
file_content path [] = none
file_content path ((p, content) ∷ files) = elim (file_content path files) [
  | none ↦ if text_eq p path then some content else none
  | some later ↦ some later
]
