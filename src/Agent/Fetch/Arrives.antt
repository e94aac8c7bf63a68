-- ===== src/Agent/Fetch/Arrives.antt =====
-- What a fetched file is on the server.
use agents_management.Prelude.{
  ℕ, suc, Bool, some, List, [], ◌∷◌, ◌++◌, Text, Uuid, is_nil, ◌≡◌, ◌≢◌, refl, sym, ◌∙◌, ap, subst,
  arith, Bool-cases, Result-cases, inl, inr, ◌⊎◌, append_nil,
}
use agents_management.Storage.Model.{Task}
use agents_management.Storage.Tasks.{get_task_by_id}
use agents_management.Server.World.{Env, World, TaskCommand}
use agents_management.Server.Logs.{eof}
use agents_management.Server.Uploads.{UploadRequest, upload_task_file, all_content, file_content}
use agents_management.Server.Uploads.Stored.{Accepts, upload_task_file-Written}
use agents_management.Agent.Report.{Status, success}
use agents_management.Agent.Fetch.{
  ReadEnd, more, end_of_file, read_error, Machine, SendEnd, all_sent, send_failed, read_failed,
  chunk, next_read, send_reads, finalized, after_sends, handle_fetch_file_task, all_read,
}

module _ (agent_id : Text) (task : TaskCommand) (send_fails : ℕ → Bool) where
  send_reads-content :
      (k : ℕ) (reads : List (Text × ReadEnd))
      → (send_reads agent_id task send_fails k reads).1 ≡ all_sent
      → all_content (send_reads agent_id task send_fails k reads).0 ≡ all_read reads
  unfolding send_reads all_content all_read
  send_reads-content k [] = λ h. refl
  send_reads-content k (([], more) ∷ reads) = send_reads-content k reads
  send_reads-content k (([], end_of_file) ∷ reads) = λ h. refl
  send_reads-content k (([], read_error) ∷ reads) = λ h. refl
  send_reads-content k ((b ∷ bytes, more) ∷ reads) = elim (Bool-cases (send_fails k)) [
    | inl e ↦ rw e (λ h. cc)
    | inr e ↦ rw e (λ h. ap (λ s. b ∷ bytes ++ s) (send_reads-content (suc k) reads h))
  ]
  send_reads-content k ((b ∷ bytes, end_of_file) ∷ reads) = elim (Bool-cases (send_fails k)) [
    | inl e ↦ rw e (λ h. cc)
    | inr e ↦ rw e (λ h. append_nil (b ∷ bytes))
  ]
  send_reads-content k ((b ∷ bytes, read_error) ∷ reads) = elim (Bool-cases (send_fails k)) [
    | inl e ↦ rw e (λ h. cc)
    | inr e ↦ rw e (λ h. cc)
  ]

  -- The first request, if there is one, names the agent and the task.
  send_reads-first :
      (k : ℕ) (reads : List (Text × ReadEnd))
      → ((send_reads agent_id task send_fails k reads).0 ≡ [])
        ⊎ ((content : Text) × (rest : List UploadRequest) × ((send_reads agent_id task send_fails k
                reads).0
              ≡ chunk agent_id task content ∷ rest))
  unfolding send_reads
  send_reads-first k [] = inl refl
  send_reads-first k (([], more) ∷ reads) = send_reads-first k reads
  send_reads-first k (([], end_of_file) ∷ reads) = inl refl
  send_reads-first k (([], read_error) ∷ reads) = inl refl
  send_reads-first k ((b ∷ bytes, end) ∷ reads) = elim (Bool-cases (send_fails k)) [
    | inl e ↦ rw e (inl refl)
    | inr e ↦ rw e (
        inr
          (b ∷ bytes, (next_read end (send_reads agent_id task send_fails (suc k) reads)).0, refl))
  ]

-- The server holds the content under the path of the task that the agent names.
abbrev pub Arrives : Env → Text → TaskCommand → Text → World → World → Type 0
Arrives env agent_id task content w w' =
    (agent : Uuid) × (id : Uuid) × (row : Task) × (path : Text) × (env.format.parse agent_id
      ≡ some agent)
    × (env.format.parse task.task_id ≡ some id)
    × (get_task_by_id id w.tasks ≡ some row)
    × Accepts agent path row
    × (file_content path w'.files ≡ some content)

never : {P : Type 0} → Status.failed ≡ success → P
never h = absurd (ground (arith, h))

module _ (env : Env) (agent_id : Text) (task : TaskCommand) where
  first_agent :
      (q : UploadRequest) (requests : List UploadRequest)
      → (q ∷ requests ≡ [])
        ⊎ ((bytes : Text) × (rest : List UploadRequest) × (q ∷ requests
              ≡ chunk agent_id task bytes ∷ rest))
      → q.agent_id ≡ agent_id
  first_agent q requests (inl none_sent) = cc
  first_agent q requests (inr (bytes, rest, e)) = cc

  first_task :
      (q : UploadRequest) (requests : List UploadRequest)
      → (q ∷ requests ≡ [])
        ⊎ ((bytes : Text) × (rest : List UploadRequest) × (q ∷ requests
              ≡ chunk agent_id task bytes ∷ rest))
      → q.task_id ≡ task.task_id
  first_task q requests (inl none_sent) = cc
  first_task q requests (inr (bytes, rest, e)) = cc

  finalized-success :
      (q : UploadRequest) (requests : List UploadRequest) (w : World)
      → q.agent_id ≡ agent_id
      → q.task_id ≡ task.task_id
      → (finalized (upload_task_file env (q ∷ requests) eof w).0).status ≡ success
      → Arrives env agent_id task
          (all_content (q ∷ requests))
          w
          (upload_task_file env (q ∷ requests) eof w).1
  unfolding finalized
  finalized-success q requests w a t =
      elim (Result-cases (upload_task_file env (q ∷ requests) eof w).0) [
        | inr (e, failed) ↦ rw failed (λ h. never h)
        | inl (n, done) ↦ λ h.
            let (agent, id, row, path, parsed, parsed_id, found, accepts, written) =
              upload_task_file-Written env q requests eof w n done in
            (
              agent,
              id,
              row,
              path,
              ap env.format.parse (sym a) ∙ parsed,
              ap env.format.parse (sym t) ∙ parsed_id,
              found,
              accepts,
              written.holds,
            )
      ]

  after_sends-Arrives :
      (requests : List UploadRequest) (end : SendEnd) (content : Text) (w : World)
      → (end ≡ all_sent → all_content requests ≡ content)
      → (requests ≡ [])
        ⊎ ((bytes : Text) × (rest : List UploadRequest) × (requests
              ≡ chunk agent_id task bytes ∷ rest))
      → content ≢ []
      → (after_sends env requests end w).0.status ≡ success
      → Arrives env agent_id task content w (after_sends env requests end w).1
  unfolding after_sends all_content
  after_sends-Arrives requests send_failed content w all first full h = never h
  after_sends-Arrives requests read_failed content w all first full h = never h
  after_sends-Arrives [] all_sent content w all first full h = absurd (full (sym (all refl)))
  after_sends-Arrives (q ∷ requests) all_sent content w all first full h =
      subst (λ c. Arrives env agent_id task c w (upload_task_file env (q ∷ requests) eof w).1)
        (all refl)
        (finalized-success q requests w (first_agent q requests first) (first_task q requests first)
          h)

  -- A file that is not empty and that the agent reports as fetched stands on the server, byte for byte, under
  -- the path of a stored task of that agent.
  pub handle_fetch_file_task-Arrives :
      (machine : Machine) (w : World)
      → (handle_fetch_file_task env agent_id task machine w).0.status ≡ success
      → all_read machine.reads ≢ []
      → Arrives env agent_id task
          (all_read machine.reads)
          w
          (handle_fetch_file_task env agent_id task machine w).1
  unfolding handle_fetch_file_task
  handle_fetch_file_task-Arrives machine w =
      let sent = send_reads agent_id task machine.send_fails 0 machine.reads in
      elim (Bool-cases (is_nil task.source_path)) [
        | inl e ↦ rw e (λ h full. never h)
        | inr e ↦ rw e (elim (Bool-cases machine.opens) [
          | inr f ↦ rw f (λ h full. never h)
          | inl f ↦ rw f (elim (Bool-cases machine.streams) [
            | inr g ↦ rw g (λ h full. never h)
            | inl g ↦ rw g (λ h full.
                after_sends-Arrives sent.0 sent.1 (all_read machine.reads) w
                  (send_reads-content agent_id task machine.send_fails 0 machine.reads)
                  (send_reads-first agent_id task machine.send_fails 0 machine.reads) full h)
          ])
        ])
      ]
