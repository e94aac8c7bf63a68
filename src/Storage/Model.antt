-- ===== src/Storage/Model.antt =====
-- server/internal/storage/models.go, utils.go: the enumerations and the rows. A `sql.NullX` is a
-- value and its `Valid` flag; a time is a count of nanoseconds, a UUID that may be null an `Option`.
use agents_management.Prelude.{
  ℕ, Bool, not, Option, List, Text, codes, text_eq, is_nil, Uuid, ℤ, if◌then◌else◌,
}

pub data AgentStatus : Type 0 where
  online offline disconnected : AgentStatus

pub data TaskStatus : Type 0 where
  pending assigned running completed failed timed_out : TaskStatus

-- The column is an enumeration; `other` stands for any text that a `TaskType` may still hold.
pub data TaskType : Type 0 where
  exec_command exec_python_script fetch_file push_file agent_update : TaskType
  other : Text → TaskType

-- sql.NullString
pub record NullString : Type 0 where
  pub string : Text
  pub valid : Bool

-- sql.NullInt32 and sql.NullTime, over the type of the value
pub record Null {ℓ} (A : Type ℓ) : Type ℓ where
  pub value : A
  pub valid : Bool

unfoldable pub to_null_string : Text → NullString
to_null_string s = record { string = s; valid = not (is_nil s) }

-- The values that storage.TaskType has in the database
unfoldable pub task_type_of : Text → TaskType
task_type_of s =
    if text_eq s (codes "EXEC_COMMAND")
    then exec_command
    else if text_eq s (codes "EXEC_PYTHON_SCRIPT")
    then exec_python_script
    else if text_eq s (codes "FETCH_FILE")
    then fetch_file
    else if text_eq s (codes "PUSH_FILE")
    then push_file
    else if text_eq s (codes "AGENT_UPDATE")
    then agent_update
    else other s

abbrev pub Time : Type 0
Time = ℕ

pub record Agent : Type 0 where
  pub id : Uuid
  pub hostname : Text
  pub os : NullString
  pub arch : NullString
  pub agent_version : NullString
  pub ip_addresses : List Text
  pub last_heartbeat : Null Time
  pub status : AgentStatus
  pub created_at : Time

pub record Task : Type 0 where
  pub id : Uuid
  pub agent_id : Uuid
  pub description : NullString
  pub task_type : TaskType
  pub exec_policy_id : Option Uuid
  pub exec_policy_binding_id : Option Uuid
  pub command : NullString
  pub args : List Text
  pub entrypoint_script : NullString
  pub package_files : List Text
  pub source_path : NullString
  pub destination_path : NullString
  pub result_contract : NullString
  pub notification_rule_set : NullString
  pub default_destinations : List Text
  pub timeout_seconds : Null ℤ
  pub status : TaskStatus
  pub schedule_type : NullString
  pub cron_expression : NullString
  pub prerequisite_task_id : Option Uuid
  pub scheduled_at : Null Time
  pub started_at : Null Time
  pub completed_at : Null Time
  pub created_by : NullString
  pub created_at : Time

-- The name of the status that an agent reported; a value that the protocol does not know has its
-- number for a name.
pub data TaskResultStatus : Type 0 where
  success failed timed_out : TaskResultStatus
  unknown : ℕ → TaskResultStatus

pub record TaskResult : Type 0 where
  pub id : Uuid
  pub task_id : Uuid
  pub agent_id : Uuid
  pub status : TaskResultStatus
  pub exit_code : ℤ
  pub output : NullString
  pub output_file_path : NullString
  pub duration_ms : ℕ

pub data EventStatus : Type 0 where
  detected suppressed accepted rejected : EventStatus

pub data DeliveryStatus : Type 0 where
  pending sent failed retry_scheduled dead_letter cancelled : DeliveryStatus

pub record NotificationEvent : Type 0 where
  pub id : Uuid
  pub task_id : Uuid
  pub agent_id : Uuid
  pub prerequisite_task_id : Option Uuid
  pub event_type : Text
  pub severity : Text
  pub title : Text
  pub summary : Text
  pub source_kind : Text
  pub source_path : NullString
  pub source_ref : NullString
  pub payload_json : Text
  pub dedup_key : NullString
  pub dedup_window_seconds : Null ℤ
  pub status : EventStatus
  pub created_at : Time

pub record NotificationDelivery : Type 0 where
  pub id : Uuid
  pub notification_event_id : Uuid
  pub channel : Text
  pub destination : Text
  pub status : DeliveryStatus
  pub attempt : ℤ
  pub max_attempts : ℤ
  pub provider_message_id : NullString
  pub provider_response_json : Text
  pub error_message : NullString
  pub last_error_code : NullString
  pub scheduled_at : Time
  pub sent_at : Null Time
  pub next_retry_at : Null ℤ

-- A user with the names of its roles, which the statements aggregate.
pub record User : Type 0 where
  pub username : Text
  pub password_hash : Text
  pub is_active : Bool
  pub roles : List Text

pub record Role : Type 0 where
  pub name : Text
  pub description : Text

-- A float32 is its bit pattern.
pub record AgentMetric : Type 0 where
  pub agent_id : Uuid
  pub timestamp : ℤ
  pub cpu_usage : ℕ
  pub ram_usage : ℕ
  pub disk_usage : Text
