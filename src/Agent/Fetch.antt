-- ===== src/Agent/Fetch.antt =====
-- handleFetchFileTask of agent/internal/agent_file_handler.go, with the server's handler of the stream
-- that it opens.
pub mod Arrives
use agents_management.Prelude.{
  ℕ, suc, Bool, true, false, not, Option, none, some, List, [], ◌∷◌, ◌++◌, Text, Uuid, ℤ, codes,
  is_nil, if◌then◌else◌, Result, ok, err, ◌≡◌, ◌≢◌, refl, sym, ◌∙◌, ap, subst, arith, Bool-cases,
  Option-cases, Result-cases, inl, inr,
}
use agents_management.Storage.Model.{Task}
use agents_management.Storage.Tasks.{get_task_by_id}
use agents_management.Server.World.{Env, World, M, TaskCommand}
use agents_management.Server.Logs.{StreamEnd, eof, broken}
use agents_management.Server.Uploads.{
  UploadRequest, UploadError, upload_task_file, all_content, file_content,
}
use agents_management.Server.Uploads.Stored.{Accepts, Written, upload_task_file-Written}
use agents_management.Agent.Report.{Report, Status, failure, succeeded}

-- What a call of Read gives: bytes, and whether there was an error, which io.EOF is one of.
pub data ReadEnd : Type 0 where
  more end_of_file read_error : ReadEnd

-- The machine of the agent: whether the file and the stream open, what the calls of Read give, and whether
-- the k-th send fails.
pub record Machine : Type 0 where
  pub opens : Bool
  pub streams : Bool
  pub reads : List (Text × ReadEnd)
  pub send_fails : ℕ → Bool

-- How the loop ended.
pub data SendEnd : Type 0 where
  all_sent send_failed read_failed : SendEnd

abbrev pub chunk : Text → TaskCommand → Text → UploadRequest
chunk agent_id task content = record {
  agent_id = agent_id;
  task_id = task.task_id;
  content = content;
}

-- After the bytes of a Read were handled; a file whose reads end with no error is not read on.
abbrev pub next_read : ReadEnd → List UploadRequest × SendEnd → List UploadRequest × SendEnd
next_read more rest = rest
next_read end_of_file rest = ([], all_sent)
next_read read_error rest = ([], read_failed)

abbrev pub behind : UploadRequest → List UploadRequest × SendEnd → List UploadRequest × SendEnd
behind q (requests, end) = (q ∷ requests, end)

module _ (agent_id : Text) (task : TaskCommand) (send_fails : ℕ → Bool) where
  -- The requests that were sent, of which the next is the k-th.
  unfoldable pub send_reads : ℕ → List (Text × ReadEnd) → List UploadRequest × SendEnd
  send_reads k [] = ([], all_sent)
  send_reads k (([], end) ∷ reads) = next_read end (send_reads k reads)
  send_reads k ((b ∷ bytes, end) ∷ reads) =
      let rest = send_reads (suc k) reads in
      if send_fails k
      then ([], send_failed)
      else behind (chunk agent_id task (b ∷ bytes)) (next_read end rest)

unfoldable pub finalized : Result UploadError ℤ → Report
finalized (ok n) = succeeded []
finalized (err e) = failure (codes "Failed to finalize uploaded file")

module _ (env : Env) where
  -- The end of the loop: CloseAndRecv, or a report; then the stream stays open, and it breaks for the server
  -- when the connection does.
  unfoldable pub after_sends : List UploadRequest → SendEnd → M Report
  after_sends requests all_sent w =
      let (answer, w') = upload_task_file env requests eof w in (finalized answer, w')
  after_sends requests send_failed w =
      let (answer, w') = upload_task_file env requests broken w in
      (failure (codes "Failed to upload file"), w')
  after_sends requests read_failed w =
      let (answer, w') = upload_task_file env requests broken w in
      (failure (codes "Failed to read source file"), w')

  unfoldable pub handle_fetch_file_task : Text → TaskCommand → Machine → M Report
  handle_fetch_file_task agent_id task machine w =
      let (requests, end) = send_reads agent_id task machine.send_fails 0 machine.reads in
      if is_nil task.source_path
      then (failure (codes "Source path is empty"), w)
      else if not machine.opens
      then (failure (codes "Failed to open source file"), w)
      else if not machine.streams
      then (failure (codes "Failed to open upload stream"), w)
      else after_sends requests end w

-- The content of the file that the reads give.
unfoldable pub all_read : List (Text × ReadEnd) → Text
all_read [] = []
all_read ((bytes, more) ∷ reads) = bytes ++ all_read reads
all_read ((bytes, end_of_file) ∷ reads) = bytes
all_read ((bytes, read_error) ∷ reads) = bytes
