-- ===== src/Server/Dispatch/Owners.antt =====
-- The tasks with their agents, as a stream leaves them.
use agents_management.Prelude.{
  Bool, true, false, not, Option, none, some, List, [], ◌∷◌, ◌≡◌, refl, ap, arith, Uuid, map, ◌==◌,
  if◌then◌else◌,
}
use agents_management.Storage.Model.{Task, TaskType, TaskStatus}
use agents_management.Storage.Tasks.{
  get_task_by_id, update_where, in_status, update_task_status_if_current, same_status,
}
use agents_management.Server.World.{Env, World, pure, broadcast}
use agents_management.Server.Calls.{get_task, publish}
use agents_management.Server.Keeps.{Keeps, Keeps-bind, Keeps-stored, Keeps-if}
use agents_management.Server.Dispatch.{
  map_storage_task_type, set_status_if_current, publish_if, send, command_of, after_send,
  send_mapped, send_task_to_agent, dispatch_loaded,
}

-- The tasks and their agents.
abbrev pub owners : List Task → List (Uuid × Uuid)
owners tasks = map (λ t. (t.id, t.agent_id)) tasks

pub owner_of : Uuid → List (Uuid × Uuid) → Option Uuid
owner_of id [] = none
owner_of id (o ∷ rest) = let later = owner_of id rest in if o.0 == id then some o.1 else later

abbrev pub differs : Uuid → Option Uuid → Bool
differs agent_id none = false
differs agent_id (some owner) = not (owner == agent_id)

-- The identifier is that of a task of another agent.
unfoldable pub is_other : Uuid → List (Uuid × Uuid) → Uuid → Bool
unfolding owner_of
is_other agent_id rows id = differs agent_id (owner_of id rows)

abbrev pub agent_of : Option Task → Option Uuid
agent_of none = none
agent_of (some t) = some t.agent_id

pub agent_of-get :
    (id : Uuid) (tasks : List Task)
    → agent_of (get_task_by_id id tasks) ≡ owner_of id (owners tasks)
unfolding get_task_by_id owner_of
agent_of-get id [] = refl
agent_of-get id (t ∷ tasks) = ground (arith, agent_of-get id tasks)

owners-update_where :
    (test : Task → Bool) (status : TaskStatus) (tasks : List Task)
    → owners (update_where test (λ t. record t { status = status }) tasks) ≡ owners tasks
unfolding update_where
owners-update_where test status [] = refl
owners-update_where test status (t ∷ tasks) = ground (arith, owners-update_where test status tasks)

-- What a send leaves alone.
abbrev pub fixed : World → List (Uuid × Uuid) × List Uuid
fixed w = (owners w.tasks, w.queue)

module _ (env : Env) where
  Keeps-publish : (task : Option Task) → Keeps fixed (publish task)
  unfolding publish broadcast
  Keeps-publish none = record { kept = λ w. refl }
  Keeps-publish (some task) = record { kept = λ w. refl }

  abbrev read_task : Uuid → World → Option Task × World
  read_task id w = (get_task_by_id id w.tasks, w)

  pub Keeps-get_task : (id : Uuid) → Keeps fixed (get_task env id)
  unfolding get_task
  Keeps-get_task id = Keeps-stored fixed env (read_task id) (λ w. refl) (λ w. refl)

  Keeps-publish_if : (updated : Option Bool) (id : Uuid) → Keeps fixed (publish_if env updated id)
  unfolding publish_if
  Keeps-publish_if none id = record { kept = λ w. refl }
  Keeps-publish_if (some false) id = record { kept = λ w. refl }
  Keeps-publish_if (some true) id =
      Keeps-bind fixed (get_task env id) publish (Keeps-get_task id) Keeps-publish

  Keeps-set_status :
      (id : Uuid)
      → Keeps fixed (set_status_if_current env id TaskStatus.pending TaskStatus.assigned)
  unfolding set_status_if_current update_task_status_if_current
  Keeps-set_status id =
      Keeps-stored fixed env _ (λ w. refl)
        (λ w.
          ap (λ o. (o, w.queue))
            (owners-update_where (in_status id TaskStatus.pending) TaskStatus.assigned w.tasks))

  Keeps-after_send : (error : Bool) (id : Uuid) → Keeps fixed (after_send env error id)
  unfolding after_send
  Keeps-after_send true id = record { kept = λ w. refl }
  Keeps-after_send false id =
      Keeps-bind fixed (set_status_if_current env id TaskStatus.pending TaskStatus.assigned) _
        (Keeps-set_status id)
        (λ updated.
          Keeps-bind fixed (publish_if env updated id) (λ _. pure false)
            (Keeps-publish_if updated id) (λ _. record { kept = λ w. refl }))

  Keeps-send_mapped :
      (task_type : Option TaskType) (task : Task) → Keeps fixed (send_mapped env task_type task)
  unfolding send_mapped send
  Keeps-send_mapped none task = record { kept = λ w. refl }
  Keeps-send_mapped (some task_type) task =
      Keeps-bind fixed (send env (command_of env task_type task)) _
        (record { kept = λ w. ground arith }) (λ error. Keeps-after_send error task.id)

  pub Keeps-dispatch_loaded :
      (agent_id : Uuid) (task : Option Task) → Keeps fixed (dispatch_loaded env agent_id task)
  unfolding dispatch_loaded send_task_to_agent
  Keeps-dispatch_loaded agent_id none = record { kept = λ w. refl }
  Keeps-dispatch_loaded agent_id (some task) =
      Keeps-if fixed (not (task.agent_id == agent_id)) _ _ (record { kept = λ w. refl })
        (Keeps-if fixed (not (same_status task.status TaskStatus.pending)) _ _
          (record { kept = λ w. refl })
          (Keeps-send_mapped (map_storage_task_type task.task_type) task))
