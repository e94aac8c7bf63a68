-- ===== src/Notify/Payload.antt =====
-- server/internal/notification_evaluator.go: alert payloads in the output of a task. The metrics of a
-- payload are never read and are left out; a Go map is the list of its entries in iteration order.
pub mod Accepts
pub mod Prefix
use agents_management.Prelude.{
  ℕ, Bool, true, false, not, ◌&&◌, ◌||◌, Option, none, some, List, [], ◌∷◌, ◌++◌, Text, codes,
  text_eq, contains, to_lower, trim, has_prefix, drop_prefix, is_nil, length, ltb, leb, ◌==◌, map,
  if◌then◌else◌, ℤ, pos, ◌<=◌, Result, ok, err, ◌>>=◌, ◌>>◌, reject_if, Uuid, is_space,
}
use agents_management.Storage.Model.{
  NullString, Null, to_null_string, Task, TaskResult, NotificationEvent, EventStatus, detected,
  Time,
}

pub record PayloadSource : Type 0 where
  pub kind : Text
  pub path : Text
  pub producer_task_id : Text

pub record PayloadDedup : Type 0 where
  pub scope : Text
  pub window_seconds : ℤ
  pub key_material : List Text

abbrev pub Labels : Type 0
Labels = List (Text × Text)

pub record AlertPayload : Type 0 where
  pub schema : Text
  pub version : Text
  pub notify : Bool
  pub event_type : Text
  pub severity : Text
  pub title : Text
  pub summary : Text
  pub source : PayloadSource
  pub details : List Text
  pub labels : Labels
  pub dedup : PayloadDedup

pub data PayloadError : Type 0 where
  invalid_json event_type_required severity_required title_required summary_required : PayloadError
  source_kind_required too_many_details unsupported_severity unsupported_kind : PayloadError

abbrev pub severities : List Text
severities = codes "info" ∷ codes "warning" ∷ codes "error" ∷ codes "critical" ∷ []

abbrev pub source_kinds : List Text
source_kinds =
    codes "file" ∷ codes "stdout" ∷ codes "stderr" ∷ codes "task_output" ∷ codes "external" ∷ []

unfoldable pub validate_alert_payload : AlertPayload → Result PayloadError (Unit {0})
validate_alert_payload payload = do
  reject_if (is_nil payload.event_type) event_type_required
  reject_if (is_nil payload.severity) severity_required
  reject_if (is_nil payload.title) title_required
  reject_if (is_nil payload.summary) summary_required
  reject_if (is_nil payload.source.kind) source_kind_required
  reject_if (ltb 20 (length payload.details)) too_many_details
  reject_if (not (contains severities payload.severity)) unsupported_severity
  reject_if (not (contains source_kinds payload.source.kind)) unsupported_kind
  ok tt

abbrev pub payload_prefix : Text
payload_prefix = codes "ALERT_PAYLOAD:"

-- The text of the payload, if the trimmed output has one.
unfoldable pub payload_text : Text → Option Text
payload_text trimmed =
    if has_prefix payload_prefix trimmed
    then some (trim (drop_prefix payload_prefix trimmed))
    else if has_prefix (codes "{") trimmed
    then some trimmed
    else none

-- A parsed payload: another schema is no payload, and the right one is validated.
checked_payload : Text → Option AlertPayload → Result PayloadError (Option (Text × AlertPayload))
checked_payload json none = err invalid_json
checked_payload json (some payload) =
    if not (text_eq payload.schema (codes "alert_payload"))
      || not (text_eq payload.version (codes "1"))
    then ok none
    else validate_alert_payload payload >> ok (some (json, payload))

-- `unmarshal` is json.Unmarshal into an `alertPayload`.
parsed_payload :
    (Text → Option AlertPayload) → Option Text → Result PayloadError (Option (Text × AlertPayload))
parsed_payload unmarshal none = ok none
parsed_payload unmarshal (some json) = checked_payload json (unmarshal json)

unfoldable pub parse_alert_payload :
    (Text → Option AlertPayload) → Text → Result PayloadError (Option (Text × AlertPayload))
unfolding checked_payload parsed_payload
parse_alert_payload unmarshal output =
    let trimmed = trim output in
    if is_nil trimmed then ok none else parsed_payload unmarshal (payload_text trimmed)

abbrev pub default_dedup_window_second : ℤ
default_dedup_window_second = pos 3600

abbrev pub valid {ℓ} : {A : Type ℓ} → A → Null A
valid a = record { value = a; valid = true }

-- `dedup_key` is the result of `buildDedupKey`, `id` that of uuid.New().
unfoldable pub build_notification_event :
    Text → Uuid → Time → Task → TaskResult → Text → AlertPayload → NotificationEvent
unfolding to_null_string
build_notification_event dedup_key id now task result payload_bytes payload = record {
  id = id;
  task_id = task.id;
  agent_id = result.agent_id;
  prerequisite_task_id = task.prerequisite_task_id;
  event_type = payload.event_type;
  severity = payload.severity;
  title = payload.title;
  summary = payload.summary;
  source_kind = payload.source.kind;
  source_path = to_null_string payload.source.path;
  source_ref = to_null_string payload.source.producer_task_id;
  payload_json = payload_bytes;
  dedup_key = record { string = dedup_key; valid = true };
  dedup_window_seconds = valid (
      if payload.dedup.window_seconds <= pos 0
      then default_dedup_window_second
      else payload.dedup.window_seconds);
  status = detected;
  created_at = now;
}
