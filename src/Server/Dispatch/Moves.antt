-- ===== src/Server/Dispatch/Moves.antt =====
-- How the events of a stream move the tasks.
use agents_management.Prelude.{
  ℕ, zero, suc, Bool, true, false, Option, none, some, List, [], ◌∷◌, ◌++◌, ◌≡◌, refl, inl, arith,
  Text, Uuid, length, if◌then◌else◌,
}
use agents_management.Storage.Model.{Task, TaskType, TaskStatus, Time}
use agents_management.Storage.Tasks.{
  get_task_by_id, get_pending_tasks_by_agent, update_task_status_if_current,
  mark_task_started_if_current,
}
use agents_management.Server.World.{Env, World, TaskCommand, M, pure, stored, broadcast, enqueue}
use agents_management.Server.Calls.{get_task, publish}
use agents_management.Server.Rows.{Moves, IsPreorder, Moves-same, Moves-bind, Moves-stored}
use agents_management.Server.Dispatch.Steps.{
  Assigns, Starts, Assigns-IsPreorder, Starts-IsPreorder, update_where-Assigns, update_where-Starts,
}
use agents_management.Server.Dispatch.{
  map_storage_task_type, receive, enqueue_all, set_status_if_current, start_if_current, publish_if,
  send, command_of, after_send, send_mapped, send_task_to_agent, dispatch_loaded, dispatch_one,
  dispatch_rounds, dispatch_queued_tasks, send_all, send_listed, assign_tick, ack_parsed,
  handle_task_acknowledgement,
}

module _ {S : Task → Task → Type 0} (order : IsPreorder S) where
  publish-Moves : (task : Option Task) → Moves S (publish task)
  unfolding publish broadcast
  publish-Moves none = Moves-same order (publish none) (λ w. refl)
  publish-Moves (some task) = Moves-same order (publish (some task)) (λ w. refl)

  enqueue_all-Moves : (ids : List Uuid) → Moves S (enqueue_all ids)
  unfolding enqueue_all
  enqueue_all-Moves [] = Moves-same order (enqueue_all []) (λ w. refl)
  enqueue_all-Moves (id ∷ ids) =
      Moves-bind order (enqueue id) (λ _. enqueue_all ids)
        (Moves-same order (enqueue id) (λ w. unfold enqueue in refl)) (λ _. enqueue_all-Moves ids)

  receive-Moves : Moves S receive
  unfolding receive
  receive-Moves = Moves-same order receive (λ w. receive_tasks w)
    where
      receive_tasks : (w : World) → (receive w).1.tasks ≡ w.tasks
      receive_tasks w = ground arith

  module _ (env : Env) where
    get_task-Moves : (id : Uuid) → Moves S (get_task env id)
    unfolding get_task
    get_task-Moves id = Moves-stored order env _ (λ w k t h. (t, h, order.stay t))

    publish_if-Moves : (updated : Option Bool) (id : Uuid) → Moves S (publish_if env updated id)
    unfolding publish_if
    publish_if-Moves none id = Moves-same order (publish_if env none id) (λ w. refl)
    publish_if-Moves (some false) id = Moves-same order (publish_if env (some false) id) (λ w. refl)
    publish_if-Moves (some true) id =
        Moves-bind order (get_task env id) publish (get_task-Moves id) publish-Moves

    send-Moves : (command : TaskCommand) → Moves S (send env command)
    unfolding send
    send-Moves command = Moves-same order (send env command) (λ w. send_tasks w)
      where
        send_tasks : (w : World) → (send env command w).1.tasks ≡ w.tasks
        send_tasks w = ground arith

module _ (env : Env) where
  after_send-Moves : (error : Bool) (id : Uuid) → Moves Assigns (after_send env error id)
  unfolding after_send
  after_send-Moves true id = Moves-same Assigns-IsPreorder (after_send env true id) (λ w. refl)
  after_send-Moves false id =
      Moves-bind Assigns-IsPreorder
        (set_status_if_current env id TaskStatus.pending TaskStatus.assigned) _
        (unfold set_status_if_current update_task_status_if_current in
          Moves-stored Assigns-IsPreorder env _ (λ w. update_where-Assigns id w))
        (λ updated.
          Moves-bind Assigns-IsPreorder (publish_if env updated id) (λ _. pure false)
            (publish_if-Moves Assigns-IsPreorder env updated id)
            (λ _. Moves-same Assigns-IsPreorder (pure false) (λ w. refl)))

  send_mapped-Moves :
      (task_type : Option TaskType) (task : Task) → Moves Assigns (send_mapped env task_type task)
  unfolding send_mapped
  send_mapped-Moves none task =
      Moves-same Assigns-IsPreorder (send_mapped env none task) (λ w. refl)
  send_mapped-Moves (some task_type) task =
      Moves-bind Assigns-IsPreorder (send env (command_of env task_type task)) _
        (send-Moves Assigns-IsPreorder env (command_of env task_type task))
        (λ error. after_send-Moves error task.id)

  send_task_to_agent-Moves : (task : Task) → Moves Assigns (send_task_to_agent env task)
  unfolding send_task_to_agent
  send_task_to_agent-Moves task = send_mapped-Moves (map_storage_task_type task.task_type) task

  pure-Moves : {A : Type 0} (a : A) → Moves Assigns (pure a)
  pure-Moves a = Moves-same Assigns-IsPreorder (pure a) (λ w. refl)

  if-Moves :
      {A : Type 0} (b : Bool) (m n : M A)
      → Moves Assigns m
      → Moves Assigns n
      → Moves Assigns (if b then m else n)
  if-Moves true m n km kn = km
  if-Moves false m n km kn = kn

  dispatch_loaded-Moves :
      (agent_id : Uuid) (task : Option Task) → Moves Assigns (dispatch_loaded env agent_id task)
  unfolding dispatch_loaded
  dispatch_loaded-Moves agent_id none = pure-Moves false
  dispatch_loaded-Moves agent_id (some task) =
      if-Moves _ (pure true) _ (pure-Moves true)
        (if-Moves _ (pure false) _ (pure-Moves false) (send_task_to_agent-Moves task))

  dispatch_one-Moves :
      (agent_id : Uuid) (id : Option Uuid) → Moves Assigns (dispatch_one env agent_id id)
  unfolding dispatch_one
  dispatch_one-Moves agent_id none = pure-Moves []
  dispatch_one-Moves agent_id (some id) =
      Moves-bind Assigns-IsPreorder (get_task env id) _ (get_task-Moves Assigns-IsPreorder env id)
        (λ task.
          Moves-bind Assigns-IsPreorder (dispatch_loaded env agent_id task) _
            (dispatch_loaded-Moves agent_id task)
            (λ deferred. pure-Moves (if deferred then id ∷ [] else [])))

  dispatch_rounds-Moves :
      (agent_id : Uuid) (n : ℕ) (deferred : List Uuid)
      → Moves Assigns (dispatch_rounds env agent_id n deferred)
  unfolding dispatch_rounds
  dispatch_rounds-Moves agent_id zero deferred = pure-Moves deferred
  dispatch_rounds-Moves agent_id (suc n) deferred =
      Moves-bind Assigns-IsPreorder receive _ (receive-Moves Assigns-IsPreorder) (λ id.
        Moves-bind Assigns-IsPreorder (dispatch_one env agent_id id) _
          (dispatch_one-Moves agent_id id)
          (λ more. dispatch_rounds-Moves agent_id n (deferred ++ more)))

  dispatch_queued_tasks-Moves :
      (agent_id : Uuid) → Moves Assigns (dispatch_queued_tasks env agent_id)
  unfolding dispatch_queued_tasks
  dispatch_queued_tasks-Moves agent_id = record {
    at = λ w.
        (Moves-bind Assigns-IsPreorder (dispatch_rounds env agent_id (length w.queue) []) _
            (dispatch_rounds-Moves agent_id (length w.queue) [])
            (enqueue_all-Moves Assigns-IsPreorder)).at
          w;
  }

  send_all-Moves : (tasks : List Task) → Moves Assigns (send_all env tasks)
  unfolding send_all
  send_all-Moves [] = pure-Moves false
  send_all-Moves (task ∷ tasks) =
      Moves-bind Assigns-IsPreorder (send_task_to_agent env task) _ (send_task_to_agent-Moves task)
        (λ error.
          if-Moves error (pure true) (send_all env tasks) (pure-Moves true) (send_all-Moves tasks))

  send_listed-Moves : (tasks : Option (List Task)) → Moves Assigns (send_listed env tasks)
  unfolding send_listed
  send_listed-Moves none = pure-Moves false
  send_listed-Moves (some tasks) = send_all-Moves tasks

  abbrev listed : Uuid → World → Option (List Task) × World
  listed agent_id w = (some (get_pending_tasks_by_agent agent_id w.tasks), w)

  assign_tick-Moves : (agent_id : Uuid) → Moves Assigns (assign_tick env agent_id)
  unfolding assign_tick
  assign_tick-Moves agent_id =
      Moves-bind Assigns-IsPreorder (dispatch_queued_tasks env agent_id) _
        (dispatch_queued_tasks-Moves agent_id)
        (λ _.
          Moves-bind Assigns-IsPreorder (stored env (listed agent_id)) (send_listed env)
            (Moves-stored Assigns-IsPreorder env (listed agent_id) (λ w k t h. (t, h, inl refl)))
            send_listed-Moves)

  ack_parsed-Moves : (now : Time) (id : Option Uuid) → Moves (Starts now) (ack_parsed env now id)
  unfolding ack_parsed
  ack_parsed-Moves now none =
      Moves-same (Starts-IsPreorder now) (ack_parsed env now none) (λ w. refl)
  ack_parsed-Moves now (some id) =
      Moves-bind (Starts-IsPreorder now) (start_if_current env id TaskStatus.assigned now) _
        (unfold start_if_current mark_task_started_if_current in
          Moves-stored (Starts-IsPreorder now) env _ (λ w. update_where-Starts id now w))
        (λ updated. publish_if-Moves (Starts-IsPreorder now) env updated id)

  -- A tick of an agent's stream keeps every row. It changes a row only from pending to assigned, and
  -- nothing of it but the status, whatever storage calls and sends fail.
  pub assign_tick-Assigns :
      (agent_id : Uuid) (w : World) (id : Uuid) (t : Task)
      → get_task_by_id id w.tasks ≡ some t
      → (t' : Task) × (get_task_by_id id (assign_tick env agent_id w).1.tasks ≡ some t')
        × Assigns t t'
  assign_tick-Assigns agent_id w = (assign_tick-Moves agent_id).at w

  -- An acknowledgement keeps every row. It changes a row only from assigned to running with the time
  -- of the start, whatever its status and its identifier are and whatever storage calls fail.
  pub handle_task_acknowledgement-Starts :
      (now : Time) (processing : Bool) (task_id : Text) (w : World) (id : Uuid) (t : Task)
      → get_task_by_id id w.tasks ≡ some t
      → (t' : Task) × (get_task_by_id id
            (handle_task_acknowledgement env now processing task_id w).1.tasks
          ≡ some t')
        × Starts now t t'
  unfolding handle_task_acknowledgement
  handle_task_acknowledgement-Starts now true task_id w =
      (ack_parsed-Moves now (env.format.parse task_id)).at w
  handle_task_acknowledgement-Starts now false task_id w = λ id t h. (t, h, inl refl)
