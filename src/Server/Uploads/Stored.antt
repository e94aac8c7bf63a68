-- ===== src/Server/Uploads/Stored.antt =====
-- What an accepted upload has stored.
use agents_management.Prelude.{
  suc, true, false, Option, none, some, List, [], ◌∷◌, ◌++◌, Text, Uuid, ℤ, int64, length, is_nil,
  text_eq_refl, ◌≡◌, refl, sym, subst, arith, Bool-cases, Option-cases, inl, inr, Result, ok, err,
  Result-cases, ok-injective, append_nil,
}
use mathlib.Core.List.{append_assoc}
use agents_management.Storage.Model.{
  Task, TaskType, exec_command, exec_python_script, fetch_file, push_file, agent_update, other,
}
use agents_management.Storage.Tasks.{get_task_by_id}
use agents_management.Server.World.{Env, World, stored}
use agents_management.Server.Logs.{StreamEnd, eof, broken}
use agents_management.Server.Uploads.{
  UploadRequest, UploadError, is_fetch, destination_of, file_call, leave, closed, write_chunks,
  opened, made_directory, to_destination, for_task, upload_task_file, all_content, file_content,
}

file_content-append :
    (path content : Text) (files : List (Text × Text))
    → file_content path (files ++ ((path, content) ∷ [])) ≡ some content
unfolding file_content
file_content-append path content [] = rw (text_eq_refl path) refl
file_content-append path content ((p, c) ∷ files) = rw (file_content-append path content files) refl

is_fetch_only : (t : TaskType) → is_fetch t ≡ true → t ≡ fetch_file
unfolding is_fetch
is_fetch_only exec_command h = cc
is_fetch_only exec_python_script h = cc
is_fetch_only fetch_file h = refl
is_fetch_only push_file h = cc
is_fetch_only agent_update h = cc
is_fetch_only (other name) h = cc

never : {P : Type 0} {e : UploadError} {n : ℤ} → ◌≡◌ {A = Result UploadError ℤ} (err e) (ok n) → P
never h = absurd (ground (arith, h))

-- The task lets the agent upload to the path.
pub record Accepts (agent_id : Uuid) (path : Text) (task : Task) : Type 0 where
  pub of_agent : task.agent_id ≡ agent_id
  pub fetches : task.task_type ≡ fetch_file
  pub to_path : task.destination_path.string ≡ path
  pub has_path : is_nil path ≡ false

destination_of-Accepts :
    (agent_id : Uuid) (task : Task) (path : Text)
    → destination_of agent_id (some task) ≡ ok path
    → Accepts agent_id path task
unfolding destination_of
destination_of-Accepts agent_id task path h = record {
  of_agent = ground (arith, h);
  fetches = is_fetch_only task.task_type (ground (arith, h));
  to_path = ground (arith, h);
  has_path = ground (arith, h);
}

module _ (env : Env) where
  -- An upload that ended well: at io.EOF, with the content under the path and its length as the answer.
  pub record Written (path content : Text) (end : StreamEnd) (n : ℤ) (w : World) : Type 0 where
    pub at_eof : end ≡ eof
    pub holds : file_content path w.files ≡ some content
    pub counts : n ≡ int64 (length content)

  write_chunks-Written :
      (path content : Text) (requests : List UploadRequest) (end : StreamEnd) (w : World) (n : ℤ)
      → file_content path w.files ≡ some content
      → (write_chunks env path content requests end w).0 ≡ ok n
      → Written path
          (content ++ all_content requests)
          end
          n
          (write_chunks env path content requests end w).1
  unfolding write_chunks closed file_call leave all_content
  write_chunks-Written path content [] broken w n held = never
  write_chunks-Written path content [] eof w n held = elim (Bool-cases (env.io_fails w.io)) [
    | inl e ↦ rw e never
    | inr e ↦ rw e (λ h. record {
      at_eof = refl;
      holds = rw (append_nil content) held;
      counts = rw (append_nil content) (sym (ok-injective h));
    })
  ]
  write_chunks-Written path content (q ∷ requests) end w n held =
      elim (Bool-cases (env.io_fails w.io)) [
        | inl e ↦ rw e never
        | inr e ↦
            let now = content ++ q.content in
            let left = record w { io = suc w.io; files = w.files ++ ((path, now) ∷ []) } in
            rw e (λ h.
              subst (λ all. Written path all end n (write_chunks env path now requests end left).1)
                (append_assoc content q.content (all_content requests))
                (write_chunks-Written path now requests end left n
                  (file_content-append path now w.files) h))
      ]

  to_destination-Written :
      (path : Text) (requests : List UploadRequest) (end : StreamEnd) (w : World) (n : ℤ)
      → (to_destination env requests end (ok path) w).0 ≡ ok n
      → Written path (all_content requests) end n (to_destination env requests end (ok path) w).1
  unfolding to_destination made_directory opened file_call leave
  to_destination-Written path requests end w n = elim (Bool-cases (env.io_fails w.io)) [
    | inl e ↦ rw e never
    | inr e ↦ rw e (elim (Bool-cases (env.io_fails (suc w.io))) [
      | inl f ↦ rw f never
      | inr f ↦ rw f (
          write_chunks-Written path [] requests end
            (record w { io = suc (suc w.io); files = w.files ++ ((path, []) ∷ []) }) n
            (file_content-append path [] w.files))
    ])
  ]

  -- The task that was read lets the file be stored.
  with_task-Written :
      (agent_id : Uuid) (task : Option Task) (requests : List UploadRequest) (end : StreamEnd)
      (w : World) (n : ℤ)
      → (to_destination env requests end (destination_of agent_id task) w).0 ≡ ok n
      → (t : Task) × (path : Text) × (task ≡ some t)
        × Accepts agent_id path t
        × Written path
            (all_content requests)
            end
            n
            (to_destination env requests end (destination_of agent_id task) w).1
  unfolding to_destination destination_of
  with_task-Written agent_id none requests end w n = never
  with_task-Written agent_id (some t) requests end w n =
      elim (Result-cases (destination_of agent_id (some t))) [
        | inr (e, d) ↦ rw d never
        | inl (path, d) ↦ rw d (λ h. (
          t,
          path,
          refl,
          destination_of-Accepts agent_id t path d,
          to_destination-Written path requests end w n h,
        ))
      ]

  -- A success for a stream of at least one request comes with a task that accepts the file and at io.EOF.
  pub upload_task_file-Written :
      (q : UploadRequest) (requests : List UploadRequest) (end : StreamEnd) (w : World) (n : ℤ)
      → (upload_task_file env (q ∷ requests) end w).0 ≡ ok n
      → (agent_id : Uuid) × (task_id : Uuid) × (task : Task) × (path : Text) × (env.format.parse
            q.agent_id
          ≡ some agent_id)
        × (env.format.parse q.task_id ≡ some task_id)
        × (get_task_by_id task_id w.tasks ≡ some task)
        × Accepts agent_id path task
        × Written path
            (all_content (q ∷ requests))
            end
            n
            (upload_task_file env (q ∷ requests) end w).1
  unfolding upload_task_file for_task stored to_destination destination_of
  upload_task_file-Written q requests end w n = elim (Option-cases (env.format.parse q.agent_id)) [
    | inl none_agent ↦ rw none_agent never
    | inr (agent_id, a) ↦ rw a (elim (Option-cases (env.format.parse q.task_id)) [
      | inl none_task ↦ rw none_task never
      | inr (task_id, t) ↦ rw t (elim (Bool-cases (env.fails w.calls)) [
        | inl e ↦ rw e never
        | inr e ↦ rw e (λ h.
            let counted = record w { calls = suc w.calls } in
            let (task, path, found, accepts, written) =
              with_task-Written agent_id (get_task_by_id task_id w.tasks) (q ∷ requests) end counted
                n h in
            (agent_id, task_id, task, path, refl, refl, found, accepts, written))
      ])
    ])
  ]
