-- ===== src/Samples.antt =====
-- Concrete values on which the witnesses run.
use agents_management.Prelude.{
  false, none, codes, pos, zero, suc, ◌≡◌, refl, true, some, [], ◌∷◌, arith, length, All, Text,
  Uuid, UuidFormat, is_uuid_byte,
}
use agents_management.Storage.Model.{
  NullString, Task, TaskStatus, NotificationEvent, NotificationDelivery, DeliveryStatus,
  exec_command, detected,
}
use agents_management.Notify.Payload.{AlertPayload}

-- A format that meets the facts: a number in unary.
abbrev pub unary : Uuid → Text
unary zero = []
unary (suc u) = 97 ∷ unary u

length-unary : (u : Uuid) → length (unary u) ≡ u
length-unary zero = refl
length-unary (suc u) = omega (arith, length-unary u)

pub unary_plain : (u : Uuid) → All (λ c. is_uuid_byte c ≡ true) (unary u)
unary_plain zero = tt
unary_plain (suc u) = (refl, unary_plain u)

pub parse_unary : (u : Uuid) → some (length (unary u)) ≡ some u
parse_unary u = ground (arith, length-unary u)

abbrev pub unary_format : UuidFormat
unary_format = record {
  string = unary;
  parse = λ s. some (length s);
  parse-string = parse_unary;
  string_plain = unary_plain;
}

abbrev pub null_string : NullString
null_string = record { string = []; valid = false }

abbrev pub text : Text → NullString
text s = record { string = s; valid = true }

-- A command for agent 5 that names a rule set.
abbrev pub task_with : Uuid → TaskStatus → NullString → Task
task_with id status rule_set = record {
  id = id;
  agent_id = 5;
  description = null_string;
  task_type = exec_command;
  exec_policy_id = none;
  exec_policy_binding_id = none;
  command = text (codes "df");
  args = codes "-h" ∷ [];
  entrypoint_script = null_string;
  package_files = [];
  source_path = null_string;
  destination_path = null_string;
  result_contract = null_string;
  notification_rule_set = rule_set;
  default_destinations = [];
  timeout_seconds = record { value = pos 0; valid = false };
  status = status;
  schedule_type = null_string;
  cron_expression = null_string;
  prerequisite_task_id = none;
  scheduled_at = record { value = 0; valid = false };
  started_at = record { value = 0; valid = false };
  completed_at = record { value = 0; valid = false };
  created_by = null_string;
  created_at = 1;
}

abbrev pub disk_payload : AlertPayload
disk_payload = record {
  schema = codes "alert_payload";
  version = codes "1";
  notify = true;
  event_type = codes "disk";
  severity = codes "error";
  title = codes "full";
  summary = codes "disk full";
  source = record { kind = codes "stdout"; path = []; producer_task_id = [] };
  details = [];
  labels = [];
  dedup = record { scope = []; window_seconds = pos 0; key_material = [] };
}

abbrev pub disk_event : NotificationEvent
disk_event = record {
  id = 9;
  task_id = 3;
  agent_id = 5;
  prerequisite_task_id = none;
  event_type = codes "disk";
  severity = codes "error";
  title = codes "full";
  summary = codes "disk full";
  source_kind = codes "stdout";
  source_path = null_string;
  source_ref = null_string;
  payload_json = codes "{}";
  dedup_key = null_string;
  dedup_window_seconds = record { value = pos 0; valid = false };
  status = detected;
  created_at = 1;
}

-- A delivery with three attempts, none of which was made.
abbrev pub new_delivery : NotificationDelivery
new_delivery = record {
  id = 4;
  notification_event_id = 9;
  channel = codes "telegram";
  destination = codes "ops";
  status = DeliveryStatus.pending;
  attempt = pos 0;
  max_attempts = pos 3;
  provider_message_id = null_string;
  provider_response_json = [];
  error_message = null_string;
  last_error_code = null_string;
  scheduled_at = 1;
  sent_at = record { value = 0; valid = false };
  next_retry_at = record { value = pos 0; valid = false };
}
