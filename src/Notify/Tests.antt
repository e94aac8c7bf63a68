-- ===== src/Notify/Tests.antt =====
-- The statements on payloads, rules, routes and delays, at concrete values.
use agents_management.Prelude.{
  ℕ, ◌+◌, ◌-◌, ◌*◌, ◌^◌, Option, some, List, [], ◌∷◌, ◌++◌, ◌≡◌, ◌↔◌, refl, arith, Text, codes,
  contains, exists, All, text_eq, trim, trim_left, trim_right, is_space, has_prefix, ok, pos,
}
use agents_management.Storage.Model.{Task, TaskStatus, suppressed, accepted}
use agents_management.Samples.{text, task_with, disk_payload, disk_event}
use agents_management.Notify.Unique.{unique_strings}
use agents_management.Notify.Payload.{
  AlertPayload, payload_text, payload_prefix, parse_alert_payload,
}
use agents_management.Notify.Payload.Accepts.{IsAccepted, parse_alert_payload_iff}
use agents_management.Notify.Payload.Prefix.{parse_alert_payload-prefix}
use agents_management.Notify.Policy.{
  Policy, Decision, evaluate, decision, decide_channels, payload_from_event, telegram,
  policy_for_task, channels_from_rules, routed_channels,
}
use agents_management.Notify.Policy.Decisions.{IsSound, evaluate-IsSound}
use agents_management.Notify.Policy.RuleSets.{evaluate-errors_only}
use agents_management.Notify.Router.{Route, new_router, resolve}
use agents_management.Notify.Router.Resolution.{IsUsable, resolve-IsUsable}
use agents_management.Notify.Backoff.{
  minute, retry_backoff, delay, retry_backoff_lem, retry_backoff_overflow,
}

abbrev parsed : Text → Option AlertPayload
parsed json = some disk_payload

abbrev engine : Policy
engine = record { default_channels = codes "mail" ∷ []; default_severities = []; rules = [] }

abbrev to_telegram : Decision
to_telegram = record {
  status = accepted;
  reason = codes "matched notification policy";
  channels = telegram ∷ [];
}

abbrev nowhere : Decision
nowhere = record {
  status = suppressed;
  reason = codes "no matching notification rules";
  channels = [];
}

abbrev muted : Task
muted = task_with 3 TaskStatus.completed (text (codes "disabled"))

abbrev quiet : Task
quiet = task_with 3 TaskStatus.completed (text (codes "errors_only"))

abbrev loud : Task
loud = task_with 3 TaskStatus.completed (text (codes "all"))

abbrev routes : List Route
routes =
    record { channel = codes "telegram"; destination = codes "ops"; max_attempts = pos 0 }
    ∷ record { channel = []; destination = codes "x"; max_attempts = pos 1 }
    ∷ []

parse_alert_payload_iff_example :
    (parse_alert_payload parsed (codes " {} ") ≡ ok (some (codes "{}", disk_payload))) ↔ (
      (payload_text (trim (codes " {} ")) ≡ some (codes "{}"))
      × (parsed (codes "{}") ≡ some disk_payload)
      × IsAccepted disk_payload)
parse_alert_payload_iff_example =
    parse_alert_payload_iff parsed (codes " {} ") (codes "{}") disk_payload

parse_alert_payload-prefix_example :
    parse_alert_payload parsed (payload_prefix ++ codes " {}")
    ≡ parse_alert_payload parsed (codes " {}")
parse_alert_payload-prefix_example =
    parse_alert_payload-prefix parsed (codes " {}")
      (unfold trim trim_left trim_right is_space has_prefix in refl)

evaluate-IsSound_example : IsSound to_telegram
evaluate-IsSound_example =
    evaluate-IsSound parsed engine (some quiet) (some disk_event) to_telegram (
      unfold evaluate decision decide_channels routed_channels channels_from_rules
        payload_from_event policy_for_task contains exists text_eq unique_strings trim trim_left
        trim_right is_space in
      refl)

evaluate-errors_only_example : evaluate parsed engine (some loud) (some disk_event) ≡ ok to_telegram
evaluate-errors_only_example =
    evaluate-errors_only parsed engine quiet loud disk_event to_telegram (refl, refl) (refl, refl)
      (unfold evaluate decision decide_channels routed_channels channels_from_rules
          payload_from_event policy_for_task contains exists text_eq unique_strings trim trim_left
          trim_right is_space in
        refl)
      refl

resolve-IsUsable_example :
    All IsUsable (resolve (new_router routes) (some quiet) (telegram ∷ [])).routes
resolve-IsUsable_example = resolve-IsUsable routes (some quiet) (telegram ∷ [])

retry_backoff_lem_example : retry_backoff (pos 4) ≡ pos (delay 4)
retry_backoff_lem_example = retry_backoff_lem 4 (omega arith)

retry_backoff_overflow_example :
    ((q : ℕ) × (minute * 2 ^ (54 + 3 - 1) ≡ q * 2 ^ 64)) × (retry_backoff (pos (54 + 3)) ≡ pos 0)
retry_backoff_overflow_example = retry_backoff_overflow 3
