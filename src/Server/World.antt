-- ===== src/Server/World.antt =====
-- What the handlers of server/internal/server.go work on, and how they call it. A handler is an action
-- on the `World`: the tables, the channels and what it has sent. `Env` holds what is not of this
-- program: the k-th storage call fails if `fails k`, the k-th send on a stream if `send_fails k`, and
-- uuid.New() returns `new_uuid k` the k-th time. A failed statement changes no row. Channels are not
-- bounded here: a send that would wait for room is not modelled.
use agents_management.Prelude.{
  ℕ, suc, Bool, Option, none, List, [], ◌∷◌, ◌++◌, Text, Uuid, UuidFormat, if◌then◌else◌, ℤ,
}
use agents_management.Storage.Model.{
  User, Role, AgentMetric, Task, TaskType, TaskResult, NotificationEvent, NotificationDelivery,
  Agent, Time,
}
use agents_management.Notify.Payload.{AlertPayload}

-- What `errors.Is` tells of the error of a delivery.
pub data DeliveryFailure : Type 0 where
  deadline_exceeded canceled other_failure : DeliveryFailure

-- What a delivery adapter answers: a message id and a response, or an error and its text.
pub data Provider : Type 0 where
  delivered : Text → Text → Provider
  refused : DeliveryFailure → Text → Provider

pub record Env : Type 0 where
  pub format : UuidFormat
  pub fails : ℕ → Bool
  pub send_fails : ℕ → Bool
  pub new_uuid : ℕ → Uuid
  -- json.Unmarshal into an `alertPayload`
  pub unmarshal : Text → Option AlertPayload
  -- sha256 in hexadecimal
  pub sha256 : Text → Text
  -- the verb %q of package fmt
  pub quote : Text → Text
  -- json.Marshal of the map from "error" to the text
  pub marshal_error : Text → Option Text
  -- The adapters by channel; the result of the k-th delivery.
  pub adapter : Text → Option (ℕ → NotificationEvent → NotificationDelivery → Provider)
  -- Whether a float32 is greater than 0.
  pub is_positive : ℕ → Bool
  -- json.Marshal of a map from disks to usages
  pub marshal_usage : List (Text × ℕ) → Option Text
  -- The k-th call of package os or of an open file fails.
  pub io_fails : ℕ → Bool
  -- crypt of PostgreSQL, of the password and the salt or the hash that holds it; the salt that the k-th
  -- statement draws
  pub crypt : Text → Text → Text
  pub gen_salt : ℕ → Text
  -- time.ParseInLocation: the layout and the value
  pub parse_time : Text → Text → Option Time

-- storage.Log
pub record Log : Type 0 where
  pub id : Uuid
  pub agent_id : Uuid
  pub task_id : Uuid
  pub timestamp : ℤ
  pub level : Text
  pub message : Text

-- api.TaskCommand
pub record TaskCommand : Type 0 where
  pub task_id : Text
  pub task_type : TaskType
  pub command : Text
  pub args : List Text
  pub entrypoint_script : Text
  pub source_path : Text
  pub destination_path : Text
  pub timeout_seconds : ℤ

-- The goroutines that a handler starts.
pub data Job : Type 0 where
  notify_completion : Task → TaskResult → Job
  remove_directory_of : Text → Job

pub record World : Type 0 where
  pub tasks : List Task
  pub results : List TaskResult
  pub agents : List Agent
  pub logs : List Log
  pub events : List NotificationEvent
  pub deliveries : List NotificationDelivery
  pub metrics : List AgentMetric
  pub users : List User
  pub roles : List Role
  -- What stands in the files that the server wrote, after each write: the later entry counts.
  pub files : List (Text × Text)
  pub queue : List Uuid
  pub published : List Task
  pub sent : List TaskCommand
  pub jobs : List Job
  pub calls : ℕ
  pub sends : ℕ
  pub drawn : ℕ
  pub attempts : ℕ
  pub io : ℕ

abbrev pub M {ℓ} : Type ℓ → Type ℓ
M A = World → A × World

infixl 5 ◌>>=◌ ◌>>◌
abbrev pub ◌>>=◌ : {A B : Type 0} → M A → (A → M B) → M B
◌>>=◌ m f w = let (a, w') = m w in f a w'

abbrev pub ◌>>◌ : {A B : Type 0} → M A → M B → M B
m >> n = m >>= λ _. n

abbrev pub pure : {A : Type 0} → A → M A
pure a w = (a, w)

abbrev pub skip : M (Unit {0})
skip w = (tt, w)

module _ (env : Env) where
  -- A storage call: `none` is an error. A read that finds no row is an error too.
  unfoldable pub stored : {A : Type 0} → (World → Option A × World) → M (Option A)
  stored op w =
      let counted = record w { calls = suc w.calls } in
      if env.fails w.calls then (none, counted) else op counted

  -- uuid.New()
  unfoldable pub draw : M Uuid
  draw w = (env.new_uuid w.drawn, record w { drawn = suc w.drawn })

-- s.broker.Broadcast(task)
unfoldable pub broadcast : Task → M (Unit {0})
broadcast task w = (tt, record w { published = w.published ++ (task ∷ []) })

-- s.taskQueue <- id
unfoldable pub enqueue : Uuid → M (Unit {0})
enqueue id w = (tt, record w { queue = w.queue ++ (id ∷ []) })

-- go ...
unfoldable pub start : Job → M (Unit {0})
start job w = (tt, record w { jobs = w.jobs ++ (job ∷ []) })
