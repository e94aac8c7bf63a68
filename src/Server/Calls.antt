-- ===== src/Server/Calls.antt =====
-- Calls that several handlers make.
use agents_management.Prelude.{Option, none, some, Uuid}
use agents_management.Storage.Model.{Task}
use agents_management.Storage.Tasks.{get_task_by_id}
use agents_management.Server.World.{Env, M, skip, stored, broadcast}

-- Publishing a task that was read, if it was.
unfoldable pub publish : Option Task → M (Unit {0})
publish none = skip
publish (some task) = broadcast task

module _ (env : Env) where
  unfoldable pub get_task : Uuid → M (Option Task)
  get_task id = stored env (λ w. (get_task_by_id id w.tasks, w))
