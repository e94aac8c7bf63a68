-- ===== src/Storage/Tasks/Update.antt =====
-- How an update shows in the rows that are read afterwards.
use agents_management.Prelude.{
  Bool, none, some, List, [], ◌∷◌, ◌≡◌, refl, arith, if◌then◌else◌, Uuid,
}
use agents_management.Storage.Model.{Task}
use agents_management.Storage.Tasks.{update_where, get_task_by_id}

-- After an update that keeps the key, the row of a key is the changed old row if the test chose it.
pub get_task_by_id-update_where :
    (id : Uuid) (test : Task → Bool) (change : Task → Task) (tasks : List Task)
    → ((t : Task) → (change t).id ≡ t.id)
    → get_task_by_id id (update_where test change tasks) ≡ elim (get_task_by_id id tasks) [
      | none ↦ none
      | some t ↦ some (if test t then change t else t)
    ]
unfolding get_task_by_id update_where
get_task_by_id-update_where id test change [] key = refl
get_task_by_id-update_where id test change (t ∷ tasks) key =
    ground (arith, key t, get_task_by_id-update_where id test change tasks key)

-- A row that is read has the key.
pub id-get_task_by_id :
    (id : Uuid) (tasks : List Task) (t : Task) → get_task_by_id id tasks ≡ some t → t.id ≡ id
unfolding get_task_by_id
id-get_task_by_id id [] t h = cc
id-get_task_by_id id (u ∷ tasks) t h = ground (arith, id-get_task_by_id id tasks t)
