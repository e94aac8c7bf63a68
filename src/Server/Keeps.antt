-- ===== src/Server/Keeps.antt =====
-- What an action leaves as it is.
use agents_management.Prelude.{
  suc, Bool, true, false, Option, ◌≡◌, ◌∙◌, if◌then◌else◌, Bool-cases, inl, inr,
}
use agents_management.Server.World.{Env, World, M, stored, ◌>>=◌}

-- The action leaves `f` of the world as it is.
pub record Keeps {X A : Type 0} (f : World → X) (m : M A) : Type 0 where
  pub kept : (w : World) → f (m w).1 ≡ f w

module _ {X : Type 0} (f : World → X) where
  pub Keeps-bind :
      {A B : Type 0} (m : M A) (k : A → M B)
      → Keeps f m
      → ((a : A) → Keeps f (k a))
      → Keeps f (m >>= k)
  Keeps-bind m k km kk = record { kept = λ w. (kk (m w).0).kept (m w).1 ∙ km.kept w }

  pub Keeps-stored :
      {A : Type 0} (env : Env) (op : World → Option A × World)
      → ((w : World) → f (record w { calls = suc w.calls }) ≡ f w)
      → ((w : World) → f (op w).1 ≡ f w)
      → Keeps f (stored env op)
  unfolding stored
  Keeps-stored env op counted k = record {
    kept = λ w. elim (Bool-cases (env.fails w.calls)) [
      | inl e ↦ rw e (counted w)
      | inr e ↦ rw e (k (record w { calls = suc w.calls }) ∙ counted w)
    ];
  }

  pub Keeps-if :
      {A : Type 0} (b : Bool) (m n : M A) → Keeps f m → Keeps f n → Keeps f (if b then m else n)
  Keeps-if true m n km kn = km
  Keeps-if false m n km kn = kn
