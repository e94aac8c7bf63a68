-- ===== src/Server/Dispatch/Queue.antt =====
-- What a round leaves in the queue.
use mathlib.Core.List.{append_assoc}
use agents_management.Prelude.{append_nil}
use agents_management.Prelude.{
  ℕ, suc, Bool, false, Option, none, some, List, [], ◌∷◌, ◌++◌, ◌≡◌, refl, sym, ap, ◌∙◌, arith,
  Uuid, length, select, if◌then◌else◌,
}
use agents_management.Storage.Model.{Task, TaskType}
use agents_management.Storage.Tasks.{get_task_by_id}
use agents_management.Server.World.{Env, World, stored, enqueue}
use agents_management.Server.Calls.{get_task}
use agents_management.Server.Dispatch.{
  map_storage_task_type, receive, enqueue_all, send, after_send, send_mapped, send_task_to_agent,
  dispatch_loaded, dispatch_one, dispatch_rounds, dispatch_queued_tasks,
}
use agents_management.Server.Dispatch.Owners.{
  owners, differs, is_other, agent_of, agent_of-get, fixed, Keeps-get_task, Keeps-dispatch_loaded,
}

module _ (env : Env) where
  module _ (no_fault : (k : ℕ) → env.fails k ≡ false)
      (no_send_fault : (k : ℕ) → env.send_fails k ≡ false) where
    send_mapped-ok :
        (task_type : Option TaskType) (task : Task) (w : World)
        → (send_mapped env task_type task w).0 ≡ false
    unfolding send_mapped send after_send
    send_mapped-ok none task w = refl
    send_mapped-ok (some task_type) task w = rw (no_send_fault w.sends) refl

    dispatch_loaded-differs :
        (agent_id : Uuid) (task : Option Task) (w : World)
        → (dispatch_loaded env agent_id task w).0 ≡ differs agent_id (agent_of task)
    unfolding dispatch_loaded send_task_to_agent
    dispatch_loaded-differs agent_id none w = refl
    dispatch_loaded-differs agent_id (some task) w =
        ground (arith, send_mapped-ok (map_storage_task_type task.task_type) task w)

    get_task-read : (id : Uuid) (w : World) → (get_task env id w).0 ≡ get_task_by_id id w.tasks
    unfolding get_task stored
    get_task-read id w = rw (no_fault w.calls) refl

    dispatch_one_lem :
        (agent_id id : Uuid) (w : World)
        → ((dispatch_one env agent_id (some id) w).0
            ≡ (if is_other agent_id (owners w.tasks) id then id ∷ [] else []))
          × (fixed (dispatch_one env agent_id (some id) w).1 ≡ fixed w)
    unfolding dispatch_one is_other
    dispatch_one_lem agent_id id w =
        let u = (get_task env id w).1 in
        let task = (get_task env id w).0 in
        (
          ap (λ b. if b then id ∷ [] else [])
              (dispatch_loaded-differs agent_id task u
                ∙ ap (λ t. differs agent_id (agent_of t)) (get_task-read id w)
                ∙ ap (differs agent_id) (agent_of-get id w.tasks)),
          (Keeps-dispatch_loaded env agent_id task).kept u ∙ (Keeps-get_task env id).kept w,
        )

    receive_lem :
        (w : World) (id : Uuid) (rest : List Uuid)
        → w.queue ≡ id ∷ rest
        → receive w ≡ (some id, record w { queue = rest })
    unfolding receive
    receive_lem w id rest h = rw h refl

    select-head :
        (p : Uuid → Bool) (id : Uuid) (ids : List Uuid)
        → (if p id then id ∷ [] else []) ++ select p ids ≡ select p (id ∷ ids)
    unfolding select
    select-head p id ids = ground arith

    dispatch_rounds-suc :
        (agent_id : Uuid) (n : ℕ) (deferred : List Uuid) (w : World)
        (received : Option Uuid × World)
        → receive w ≡ received
        → dispatch_rounds env agent_id (suc n) deferred w
          ≡ dispatch_rounds env agent_id n
              (deferred ++ (dispatch_one env agent_id received.0 received.1).0)
              (dispatch_one env agent_id received.0 received.1).1
    unfolding dispatch_rounds
    dispatch_rounds-suc agent_id n deferred w received h =
        ap
          (λ r.
            dispatch_rounds env agent_id n (deferred ++ (dispatch_one env agent_id r.0 r.1).0)
              (dispatch_one env agent_id r.0 r.1).1)
          h

    dispatch_rounds_lem :
        (agent_id : Uuid) (ids deferred : List Uuid) (rows : List (Uuid × Uuid)) (w : World)
        → fixed w ≡ (rows, ids)
        → ((dispatch_rounds env agent_id (length ids) deferred w).0
            ≡ deferred ++ select (is_other agent_id rows) ids)
          × ((dispatch_rounds env agent_id (length ids) deferred w).1.queue ≡ [])
    unfolding dispatch_rounds
    dispatch_rounds_lem agent_id [] deferred rows w h =
        (unfold select in sym (append_nil deferred), ap (λ p. p.1) h)
    dispatch_rounds_lem agent_id (id ∷ ids) deferred rows w h =
        let popped = record w { queue = ids } in
        let (kept, same) = dispatch_one_lem agent_id id popped in
        let one = dispatch_one env agent_id (some id) popped in
        let (result, empty) =
          dispatch_rounds_lem agent_id ids (deferred ++ one.0) rows one.1
            (same ∙ ap (λ r. (r, ids)) (ap (λ p. p.0) h)) in
        let next =
          dispatch_rounds-suc agent_id (length ids) deferred w (some id, popped)
            (receive_lem w id ids (ap (λ p. p.1) h)) in
        let rows_of : owners w.tasks ≡ rows = ap (λ p. p.0) h in
        (
          ap (λ r. r.0) next
              ∙ result
              ∙ append_assoc deferred one.0 (select (is_other agent_id rows) ids)
              ∙ ap (λ xs. deferred ++ (xs ++ select (is_other agent_id rows) ids)) kept
              ∙ ap
                  (λ o.
                    deferred
                    ++ ((if is_other agent_id o id then id ∷ [] else [])
                        ++ select (is_other agent_id rows) ids))
                  rows_of
              ∙ ap (λ xs. deferred ++ xs) (select-head (is_other agent_id rows) id ids),
          ap (λ r. r.1.queue) next ∙ empty,
        )

    enqueue_all-queue : (ids : List Uuid) (w : World) → (enqueue_all ids w).1.queue ≡ w.queue ++ ids
    unfolding enqueue_all enqueue
    enqueue_all-queue [] w = sym (append_nil w.queue)
    enqueue_all-queue (id ∷ ids) w =
        enqueue_all-queue ids (record w { queue = w.queue ++ (id ∷ []) })
        ∙ append_assoc w.queue (id ∷ []) ids

    -- If no storage call and no send fails, a round leaves in the queue exactly the identifiers of
    -- tasks of other agents, in their order: those of this agent and those without a task are taken out.
    pub dispatch_queued_tasks-queue :
        (agent_id : Uuid) (w : World)
        → (dispatch_queued_tasks env agent_id w).1.queue
          ≡ select (is_other agent_id (owners w.tasks)) w.queue
    unfolding dispatch_queued_tasks
    dispatch_queued_tasks-queue agent_id w =
        let (deferred, rest) = dispatch_rounds_lem agent_id w.queue [] (owners w.tasks) w refl in
        let after = dispatch_rounds env agent_id (length w.queue) [] w in
        enqueue_all-queue after.0 after.1 ∙ ap (λ q. q ++ after.0) rest ∙ deferred
