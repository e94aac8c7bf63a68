-- ===== src/Scheduler/Due.antt =====
-- Which tasks a check queues.
use mathlib.Core.List.{append_assoc}
use agents_management.Prelude.{append_nil}
use agents_management.Prelude.{
  Bool, true, false, not, ◌&&◌, ℕ, ◌≤◌, ◌↔◌, codes, text_eq_iff, leb, List, [], ◌∷◌, ◌++◌, ◌≡◌,
  refl, sym, ap, arith, select, map, Bool-cases, inl, inr, Uuid,
}
use agents_management.Storage.Model.{Task, TaskStatus, Time}
use agents_management.Storage.Tasks.{same_status, is_pending}
use agents_management.Scheduler.{
  Scheduler, Entry, has_type, is_due, check_each, check_and_queue_due_tasks,
}

abbrev pub due : Time → List Entry → List Entry
due now tasks = select (λ e. is_due now e.1) tasks

abbrev pub not_due : Time → List Entry → List Entry
not_due now tasks = select (λ e. not (is_due now e.1)) tasks

abbrev pub ids : List Entry → List Uuid
ids tasks = map (λ e. e.0) tasks

check_each_lem :
    (now : Time) (tasks : List Entry) (queue : List Uuid)
    → check_each now tasks queue ≡ (not_due now tasks, queue ++ ids (due now tasks))
unfolding check_each select
check_each_lem now [] queue = ap (λ q. ([], q)) (sym (append_nil queue))
check_each_lem now ((id, task) ∷ tasks) queue = elim (Bool-cases (is_due now task)) [
  | inl e ↦
      rw (e, check_each_lem now tasks (queue ++ (id ∷ [])))
        (ap (λ q. (not_due now tasks, q)) (append_assoc queue (id ∷ []) (ids (due now tasks))))
  | inr e ↦ rw (e, check_each_lem now tasks queue) refl
]

due-not_due : (now : Time) (tasks : List Entry) → due now (not_due now tasks) ≡ []
unfolding select
due-not_due now [] = refl
due-not_due now (e ∷ tasks) = ground (arith, due-not_due now tasks)

not_due-not_due :
    (now : Time) (tasks : List Entry) → not_due now (not_due now tasks) ≡ not_due now tasks
unfolding select
not_due-not_due now [] = refl
not_due-not_due now (e ∷ tasks) = ground (arith, not_due-not_due now tasks)

-- The task waits for its one run, whose time has come.
pub record IsDue (now : Time) (task : Task) : Type 0 where
  pub pending : task.status ≡ TaskStatus.pending
  pub once : task.schedule_type.string ≡ codes "ONCE"
  pub has_time : task.scheduled_at.valid ≡ true
  pub reached : task.scheduled_at.value ≤ now

pending_status :
    (status : TaskStatus)
    → same_status status TaskStatus.pending ≡ true
    → status ≡ TaskStatus.pending
pending_status TaskStatus.pending h = refl
pending_status TaskStatus.assigned h = cc
pending_status TaskStatus.running h = cc
pending_status TaskStatus.completed h = cc
pending_status TaskStatus.failed h = cc
pending_status TaskStatus.timed_out h = cc

all_hold :
    (a b c d : Bool)
    → (a && (b && (c && d))) ≡ true
    → (a ≡ true) × (b ≡ true) × (c ≡ true) × (d ≡ true)
all_hold true true true true h = (refl, refl, refl, refl)
all_hold false b c d h = cc
all_hold true false c d h = cc
all_hold true true false d h = cc
all_hold true true true false h = cc

reached_lem : (n m : ℕ) → leb n m ≡ true → n ≤ m
reached_lem n m h = ground arith

leb_lem : (n m : ℕ) → n ≤ m → leb n m ≡ true
leb_lem n m h = ground arith

not_both : {P : Type 0} (b : Bool) → b ≡ false → b ≡ true → P
not_both true e f = cc
not_both false e f = cc

pending_iff : (t : Task) → (is_pending t ≡ true) ↔ (t.status ≡ TaskStatus.pending)
pending_iff t = (pending_status t.status, λ h. rw h refl)

is_due_iff : (now : Time) (task : Task) → (is_due now task ≡ true) ↔ IsDue now task
is_due_iff now task =
    let (named, name) = text_eq_iff task.schedule_type.string (codes "ONCE") in
    let (pends, pending) = pending_iff task in
    (
      λ h.
          let (waits, once, has_time, reached) =
            all_hold (is_pending task) (has_type task (codes "ONCE")) task.scheduled_at.valid
              (leb task.scheduled_at.value now) h in
          record {
            pending = pends waits;
            once = named once;
            has_time = has_time;
            reached = reached_lem task.scheduled_at.value now reached;
          },
      λ d.
          rw (pending d.pending, name d.once, d.has_time)
            (leb_lem task.scheduled_at.value now d.reached),
    )

-- The queue of a check, entry by entry of the map: a due task leaves the map for the queue, any other
-- stays.
pub data Checks (now : Time) : List Entry → List Entry → List Uuid → Type 0 where
  none_left : Checks now [] [] []
  queues :
      (id : Uuid) (task : Task) (tasks kept : List Entry) (queued : List Uuid)
      → IsDue now task
      → Checks now tasks kept queued
      → Checks now ((id, task) ∷ tasks) kept (id ∷ queued)
  stays :
      (id : Uuid) (task : Task) (tasks kept : List Entry) (queued : List Uuid)
      → ¬ IsDue now task
      → Checks now tasks kept queued
      → Checks now ((id, task) ∷ tasks) ((id, task) ∷ kept) queued

due-Checks :
    (now : Time) (tasks : List Entry) → Checks now tasks (not_due now tasks) (ids (due now tasks))
unfolding select
due-Checks now [] = none_left
due-Checks now ((id, task) ∷ tasks) = elim (Bool-cases (is_due now task)) [
  | inl e ↦ rw e (
      queues id task tasks (not_due now tasks) (ids (due now tasks)) ((is_due_iff now task).0 e)
        (due-Checks now tasks))
  | inr e ↦ rw e (
      stays id task tasks (not_due now tasks) (ids (due now tasks))
        (λ d. not_both (is_due now task) e ((is_due_iff now task).1 d)) (due-Checks now tasks))
]

-- A check appends to the queue the identifiers of the tasks that are pending, that run once, and whose
-- time has come, in the order of the map, and forgets exactly these; a second check at the same time
-- changes nothing.
pub check_and_queue_due_tasks_lem :
    (now : Time) (s : Scheduler)
    → (kept : List Entry) × (queued : List Uuid) × Checks now s.tasks kept queued
      × (check_and_queue_due_tasks now s ≡ record s { tasks = kept; queue = s.queue ++ queued })
      × (check_and_queue_due_tasks now (check_and_queue_due_tasks now s)
          ≡ check_and_queue_due_tasks now s)
unfolding check_and_queue_due_tasks
check_and_queue_due_tasks_lem now s =
    let first : check_each now s.tasks s.queue
        ≡ (not_due now s.tasks, s.queue ++ ids (due now s.tasks)) =
      check_each_lem now s.tasks s.queue in
    (
      not_due now s.tasks,
      ids (due now s.tasks),
      due-Checks now s.tasks,
      rw first refl,
      rw
          (
            first,
            check_each_lem now (not_due now s.tasks) (s.queue ++ ids (due now s.tasks)),
            due-not_due now s.tasks,
            not_due-not_due now s.tasks,
          )
          (rw (append_nil (s.queue ++ ids (due now s.tasks))) refl),
    )
