-- ===== src/Server/Dispatch/Steps.antt =====
-- The two steps that the stream of an agent may make with a task.
use agents_management.Prelude.{true, ◌≡◌, refl, ◌⊎◌, inl, arith, Uuid, if◌then◌else◌}
use agents_management.Storage.Model.{Task, TaskStatus, Time}
use agents_management.Storage.Tasks.{update_where, in_status}
use agents_management.Storage.Tasks.Update.{get_task_by_id-update_where}
use agents_management.Server.World.{World}
use agents_management.Server.Rows.{RowsMove, IsPreorder}

-- The row is as it was, or it was pending and is assigned; nothing else of it changed.
abbrev pub Assigns : Task → Task → Type 0
Assigns t t' =
    (t' ≡ t) ⊎ ((t.status ≡ TaskStatus.pending) × (t' ≡ record t { status = TaskStatus.assigned }))

-- The row is as it was, or it was assigned and is running since `now`.
abbrev pub Starts : Time → Task → Task → Type 0
Starts now t t' =
    (t' ≡ t)
    ⊎ ((t.status ≡ TaskStatus.assigned)
        × (t' ≡ record t {
          status = TaskStatus.running;
          started_at = record { value = now; valid = true };
        }))

pub Assigns-IsPreorder : IsPreorder Assigns
Assigns-IsPreorder = record { stay = λ t. inl refl; step = λ t u v p q. ground arith }

pub Starts-IsPreorder : (now : Time) → IsPreorder (Starts now)
Starts-IsPreorder now = record { stay = λ t. inl refl; step = λ t u v p q. ground arith }

pub update_where-Assigns :
    (id : Uuid) (w : World)
    → RowsMove Assigns w (record w {
      tasks =
          update_where
            (in_status id TaskStatus.pending)
            (λ t. record t { status = TaskStatus.assigned })
            w.tasks;
    })
update_where-Assigns id w k t h =
    let test = in_status id TaskStatus.pending t in
    (
      if test then record t { status = TaskStatus.assigned } else t,
      rw
          (get_task_by_id-update_where k (in_status id TaskStatus.pending)
            (λ u. record u { status = TaskStatus.assigned }) w.tasks (λ u. refl))
          (rw h refl),
      ground arith,
    )

pub update_where-Starts :
    (id : Uuid) (now : Time) (w : World)
    → RowsMove (Starts now) w (record w {
      tasks =
          update_where
            (in_status id TaskStatus.assigned)
            (λ t. record t {
              status = TaskStatus.running;
              started_at = record { value = now; valid = true };
            })
            w.tasks;
    })
update_where-Starts id now w k t h =
    let test = in_status id TaskStatus.assigned t in
    (
      if test
          then record t {
            status = TaskStatus.running;
            started_at = record { value = now; valid = true };
          }
          else t,
      rw
          (get_task_by_id-update_where k (in_status id TaskStatus.assigned)
            (λ u. record u {
              status = TaskStatus.running;
              started_at = record { value = now; valid = true };
            })
            w.tasks (λ u. refl))
          (rw h refl),
      ground arith,
    )
