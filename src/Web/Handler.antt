-- ===== src/Web/Handler.antt =====
-- A handler of server/internal/web that may answer before its end: a `do` block whose step gives a
-- value, or the reply after which the handler returns.
use agents_management.Prelude.{Bool, true, false, Option, none, some, Result, ok, err}
use agents_management.Server.World.{World, M}
use agents_management.Web.Request.{Reply, see_other}

abbrev pub Handler : Type 0 → Type 0
Handler A = World → Result Reply A × World

abbrev pub continue :
    {A B : Type 0} → (A → Handler B) → Result Reply A × World → Result Reply B × World
continue f (ok a, w) = f a w
continue f (err reply, w) = (err reply, w)

infixl 5 ◌>>=◌ ◌>>◌
abbrev pub ◌>>=◌ : {A B : Type 0} → Handler A → (A → Handler B) → Handler B
◌>>=◌ m f w = continue f (m w)

abbrev pub ◌>>◌ : {A B : Type 0} → Handler A → Handler B → Handler B
m >> n = m >>= λ _. n

abbrev pub give : {A : Type 0} → A → Handler A
give a w = (ok a, w)

abbrev pub stop : {A : Type 0} → Reply → Handler A
stop reply w = (err reply, w)

abbrev pub stop_if : Bool → Reply → Handler (Unit {0})
stop_if true reply = stop reply
stop_if false reply = give tt

abbrev pub or_stop : {A : Type 0} → Option A → Reply → Handler A
or_stop none reply = stop reply
or_stop (some a) reply = give a

-- A call whose error is answered by the reply.
abbrev pub call : {A : Type 0} → M (Option A) → Reply → Handler A
call m reply w = let (a, w') = m w in or_stop a reply w'

abbrev pub effect : {A : Type 0} → M A → Handler A
effect m w = let (a, w') = m w in (ok a, w')

abbrev pub reply_of : Result Reply Reply → Reply
reply_of (ok reply) = reply
reply_of (err reply) = reply

-- What the handler answers in the end.
abbrev pub answered : Handler Reply → M Reply
answered m w = let (result, w') = m w in (reply_of result, w')

-- A reply that is no redirect: the handler did not come to its end.
abbrev pub IsRefusal : Reply → Type 0
IsRefusal (see_other url) = ⊥
IsRefusal _ = Unit
