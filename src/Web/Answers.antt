-- ===== src/Web/Answers.antt =====
-- What a handler of server/internal/web answers, for the proofs on its steps: a refusal, or a value
-- with a fact about it and the state.
use agents_management.Prelude.{Bool, true, false, Text, Result, ok, err, ◌≡◌, subst}
use agents_management.Server.World.{World}
use agents_management.Web.Request.{Reply, bad_request, see_other}
use agents_management.Web.Handler.{Handler, ◌>>◌, continue, stop_if, reply_of, IsRefusal}

-- A refusal, or a value with a fact.
abbrev pub Answers : {A : Type 0} → (A → World → Type 0) → Result Reply A × World → Type 0
Answers Q (ok a, w) = Q a w
Answers Q (err reply, w) = IsRefusal reply

pub Answers-continue :
    {A B : Type 0} (P : A → World → Type 0) (Q : B → World → Type 0) (f : A → Handler B)
    (r : Result Reply A) (w : World)
    → Answers P (r, w)
    → ((a : A) → P a w → Answers Q (f a w))
    → Answers Q (continue f (r, w))
Answers-continue P Q f (ok a) w h k = k a h
Answers-continue P Q f (err reply) w h k = h

pub Answers-implied :
    {A : Type 0} (P Q : A → World → Type 0) (r : Result Reply A) (w : World)
    → Answers P (r, w)
    → ((a : A) → P a w → Q a w)
    → Answers Q (r, w)
Answers-implied P Q (ok a) w h k = k a h
Answers-implied P Q (err reply) w h k = h

pub refused :
    {P : Type 0} (reply : Reply) (url : Text) → IsRefusal reply → reply ≡ see_other url → P
refused reply url h e = absurd (subst IsRefusal e h)

pub redirected :
    {P : Type 0} (Q : Reply → World → Type 0) (result : Result Reply Reply) (w : World) (url : Text)
    → Answers Q (result, w)
    → reply_of result ≡ see_other url
    → ((reply : Reply) → Q reply w → P)
    → P
redirected Q (ok reply) w url h e k = k reply h
redirected Q (err reply) w url h e k = refused reply url h e

pub unless_wrong :
    {A : Type 0} (Q : A → World → Type 0) (wrong : Bool) (text : Text) (handler : Handler A)
    (w : World)
    → Answers Q (handler w)
    → Answers Q ((stop_if wrong (bad_request text) >> handler) w)
unless_wrong Q true text handler w h = tt
unless_wrong Q false text handler w h = h
