-- ===== src/Server/Rows.antt =====
-- How an action may change the rows of the table of tasks: along a relation, for every row.
use agents_management.Prelude.{suc, Option, some, ◌≡◌, Uuid, Bool-cases, inl, inr}
use agents_management.Storage.Model.{Task}
use agents_management.Storage.Tasks.{get_task_by_id}
use agents_management.Server.World.{Env, World, M, stored, ◌>>=◌}

-- Every row of `a` is still there in `b`, and moved along `S`.
abbrev pub RowsMove : (Task → Task → Type 0) → World → World → Type 0
RowsMove S a b =
    (id : Uuid) (t : Task)
    → get_task_by_id id a.tasks ≡ some t
    → (t' : Task) × (get_task_by_id id b.tasks ≡ some t') × S t t'

pub record Moves {A : Type 0} (S : Task → Task → Type 0) (m : M A) : Type 0 where
  pub at : (w : World) → RowsMove S w (m w).1

-- A relation that an action may follow any number of times.
pub record IsPreorder (S : Task → Task → Type 0) : Type 0 where
  pub stay : (t : Task) → S t t
  pub step : (t u v : Task) → S t u → S u v → S t v

module _ {S : Task → Task → Type 0} (order : IsPreorder S) where
  -- An action that leaves the table alone.
  pub Moves-same : {A : Type 0} (m : M A) → ((w : World) → (m w).1.tasks ≡ w.tasks) → Moves S m
  Moves-same m same = record { at = λ w id t h. (t, rw (same w) h, order.stay t) }

  pub Moves-bind :
      {A B : Type 0} (m : M A) (f : A → M B)
      → Moves S m
      → ((a : A) → Moves S (f a))
      → Moves S (m >>= f)
  Moves-bind m f km kf = record {
    at = λ w id t h.
        let (t₁, at₁, s₁) = km.at w id t h in
        let (t₂, at₂, s₂) = (kf (m w).0).at (m w).1 id t₁ at₁ in
        (t₂, at₂, order.step t t₁ t₂ s₁ s₂);
  }

  pub Moves-stored :
      {A : Type 0} (env : Env) (op : World → Option A × World)
      → ((w : World) → RowsMove S w (op w).1)
      → Moves S (stored env op)
  unfolding stored
  Moves-stored env op k = record {
    at = λ w id t h. elim (Bool-cases (env.fails w.calls)) [
      | inl e ↦ rw e (t, h, order.stay t)
      | inr e ↦ rw e (k (record w { calls = suc w.calls }) id t h)
    ];
  }
