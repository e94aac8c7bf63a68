-- ===== src/Scheduler/Registered.antt =====
-- Registration with cron.
use agents_management.Prelude.{
  Bool, true, false, not, ◌&&◌, ◌||◌, Option, none, some, List, [], ◌∷◌, ◌++◌, ◌≡◌, refl, arith,
  Text, codes, exists, exists-append, ◌==◌, ==_iff, Bool-cases, inl, inr, Uuid,
}
use agents_management.Storage.Model.{Task}
use agents_management.Scheduler.{
  Scheduler, Entry, put_task, is_known, add, has_type, add_recurring, load_one, load_each,
  load_scheduled_tasks,
}

abbrev pub is_registered : List (Uuid × Text) → Uuid → Bool
is_registered cron id = exists (λ e. e.0 == id) cron

-- No identifier stands twice.
abbrev pub is_once_each : List (Uuid × Text) → Bool
is_once_each [] = true
is_once_each (e ∷ cron) = not (is_registered cron e.0) && is_once_each cron

-- Every registered task is known, and registered once.
pub record IsConsistent (s : Scheduler) : Type 0 where
  pub known : (id : Uuid) → is_registered s.cron id ≡ true → is_known s id ≡ true
  pub once : is_once_each s.cron ≡ true

is_once_each-append :
    (cron : List (Uuid × Text)) (e : Uuid × Text)
    → is_once_each (cron ++ (e ∷ [])) ≡ (is_once_each cron && not (is_registered cron e.0))
unfolding exists
is_once_each-append [] e = refl
is_once_each-append (f ∷ cron) e = ground (
  arith,
  is_once_each-append cron e,
  exists-append (λ g. g.0 == f.0) cron (e ∷ []),
  ==_iff e.0 f.0,
  ==_iff f.0 e.0,
)

exists-put_task :
    (tasks : List Entry) (k id : Uuid) (task : Task)
    → exists (λ e. e.0 == id) (put_task tasks k task) ≡ (exists (λ e. e.0 == id) tasks || k == id)
unfolding put_task exists
exists-put_task [] k id task = ground arith
exists-put_task (e ∷ tasks) k id task =
    ground (arith, exists-put_task tasks k id task, ==_iff e.0 k)

add-IsConsistent : (s : Scheduler) (task : Task) → IsConsistent s → IsConsistent (add s task)
unfolding add
add-IsConsistent s task h = record {
  known = λ id r. ground (arith, h.known id r, exists-put_task s.tasks task.id id task);
  once = h.once;
}

add_recurring-IsConsistent :
    (parses : Text → Bool) (s : Scheduler) (task : Task)
    → is_known s task.id ≡ false
    → IsConsistent s
    → IsConsistent (add_recurring parses s task)
unfolding add_recurring add exists
add_recurring-IsConsistent parses s task new h =
    elim (Bool-cases (not (has_type task (codes "RECURRING")) || not task.cron_expression.valid)) [
      | inl e ↦ rw e h
      | inr e ↦ elim (Bool-cases (parses task.cron_expression.string)) [
        | inl f ↦
            rw (e, f)
              (record {
                known = λ id r. ground (
                  arith,
                  h.known id,
                  exists-put_task s.tasks task.id id task,
                  exists-append (λ e. e.0 == id) s.cron
                      ((task.id, task.cron_expression.string) ∷ []),
                );
                once = ground (
                  arith,
                  h.once,
                  h.known task.id,
                  is_once_each-append s.cron (task.id, task.cron_expression.string),
                );
              })
        | inr f ↦ rw (e, f) h
      ]
    ]

load_one-IsConsistent :
    (parses : Text → Bool) (s : Scheduler) (task : Task)
    → IsConsistent s
    → IsConsistent (load_one parses s task)
unfolding load_one
load_one-IsConsistent parses s task h = elim (Bool-cases (has_type task (codes "ONCE"))) [
  | inl e ↦ rw e (add-IsConsistent s task h)
  | inr e ↦ elim (Bool-cases (has_type task (codes "RECURRING"))) [
    | inl f ↦ elim (Bool-cases (is_known s task.id)) [
      | inl g ↦ rw (e, f, g) h
      | inr g ↦ rw (e, f, g) (add_recurring-IsConsistent parses s task g h)
    ]
    | inr f ↦ rw (e, f) h
  ]
]

load_each-IsConsistent :
    (parses : Text → Bool) (s : Scheduler) (tasks : List Task)
    → IsConsistent s
    → IsConsistent (load_each parses s tasks)
unfolding load_each
load_each-IsConsistent parses s [] h = h
load_each-IsConsistent parses s (task ∷ tasks) h =
    load_each-IsConsistent parses (load_one parses s task) tasks
      (load_one-IsConsistent parses s task h)

-- Loading the tasks, whatever tasks the database returns or if it fails, keeps this: every task that is
-- registered with cron is known to the scheduler, and registered once.
pub load_scheduled_tasks-IsConsistent :
    (parses : Text → Bool) (s : Scheduler) (tasks : Option (List Task))
    → IsConsistent s
    → IsConsistent (load_scheduled_tasks parses s tasks)
unfolding load_scheduled_tasks
load_scheduled_tasks-IsConsistent parses s none h = h
load_scheduled_tasks-IsConsistent parses s (some tasks) h = load_each-IsConsistent parses s tasks h
