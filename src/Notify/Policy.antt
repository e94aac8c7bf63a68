-- ===== src/Notify/Policy.antt =====
-- server/internal/notification_routing.go: which events are routed, and to which channels.
pub mod Decisions
pub mod RuleSets
use agents_management.Prelude.{
  ℕ, Bool, true, false, not, ◌&&◌, ◌||◌, Option, none, some, List, [], ◌∷◌, ◌++◌, Text, codes,
  text_eq, contains, is_nil, if◌then◌else◌, Result, ok, err, ◌>>=◌, ◌>>◌, reject_if,
}
use agents_management.Storage.Model.{
  NullString, Task, NotificationEvent, EventStatus, suppressed, accepted,
}
use agents_management.Notify.Unique.{unique_strings}
use agents_management.Notify.Payload.{AlertPayload, Labels}

pub record Rule : Type 0 where
  pub name : Text
  pub enabled : Bool
  pub event_types : List Text
  pub severities : List Text
  pub labels : Labels
  pub channels : List Text

pub record Policy : Type 0 where
  pub default_channels : List Text
  pub default_severities : List Text
  pub rules : List Rule

pub record Decision : Type 0 where
  pub status : EventStatus
  pub reason : Text
  pub channels : List Text

pub data EvaluateError : Type 0 where
  event_is_nil empty_payload invalid_payload : EvaluateError

abbrev pub telegram : Text
telegram = codes "telegram"

-- The severities "warning", "error" and "critical".
abbrev pub alarming : List Text
alarming = codes "warning" ∷ codes "error" ∷ codes "critical" ∷ []

abbrev or_else : List Text → List Text → List Text
or_else [] default = default
or_else (x ∷ xs) default = x ∷ xs

unfoldable pub normalize_policy : Policy → Policy
normalize_policy policy = record policy {
  default_channels = or_else policy.default_channels (telegram ∷ []);
  default_severities = or_else policy.default_severities alarming;
}

unfoldable pub new_default_policy : Policy
new_default_policy = record {
  default_channels = telegram ∷ [];
  default_severities = alarming;
  rules = [];
}

-- An engine is its policy, normalized when it is built.
unfoldable pub new_rule_engine : Policy → Policy
unfolding normalize_policy
new_rule_engine policy = normalize_policy policy

policy_for_rule_set : Policy → Text → Policy
unfolding normalize_policy
policy_for_rule_set engine name =
    if text_eq name (codes "all")
    then record {
      default_channels = telegram ∷ [];
      default_severities = codes "info" ∷ alarming;
      rules = engine.rules;
    }
    else if text_eq name (codes "errors_only")
    then record {
      default_channels = telegram ∷ [];
      default_severities = codes "error" ∷ codes "critical" ∷ [];
      rules = engine.rules;
    }
    else if text_eq name (codes "disabled")
    then record { default_channels = []; default_severities = []; rules = [] }
    else normalize_policy engine

unfoldable pub policy_for_task : Policy → Option Task → Policy
unfolding policy_for_rule_set
policy_for_task engine none = normalize_policy engine
policy_for_task engine (some task) =
    let rule_set = task.notification_rule_set in
    if not rule_set.valid || (is_nil rule_set.string || text_eq rule_set.string (codes "default"))
    then normalize_policy engine
    else policy_for_rule_set engine rule_set.string

-- `labels[key]` of a Go map: the empty text if the key is missing.
unfoldable pub label_of : Labels → Text → Text
label_of [] key = []
label_of ((k, v) ∷ labels) key = if text_eq k key then v else label_of labels key

labels_match : Labels → Labels → Bool
unfolding label_of
labels_match [] labels = true
labels_match ((key, value) ∷ rest) labels =
    let later = labels_match rest labels in
    if not (text_eq (label_of labels key) value) then false else later

unfoldable pub matches_rule : Rule → NotificationEvent → AlertPayload → Bool
unfolding labels_match
matches_rule rule event payload =
    if not (is_nil rule.event_types) && not (contains rule.event_types event.event_type)
    then false
    else if not (is_nil rule.severities) && not (contains rule.severities event.severity)
    then false
    else if is_nil rule.labels
    then true
    else labels_match rule.labels payload.labels

unfoldable pub channels_from_rules : List Rule → NotificationEvent → AlertPayload → List Text
channels_from_rules [] event payload = []
channels_from_rules (rule ∷ rules) event payload =
    let rest = channels_from_rules rules event payload in
    if not rule.enabled
    then rest
    else if not (matches_rule rule event payload)
    then rest
    else rule.channels ++ rest

-- `unmarshal` is json.Unmarshal into an `alertPayload`.
unfoldable pub payload_from_event :
    (Text → Option AlertPayload) → NotificationEvent → Result EvaluateError AlertPayload
payload_from_event unmarshal event =
    if is_nil event.payload_json
    then err empty_payload
    else elim (unmarshal event.payload_json) [ none ↦ err invalid_payload | some p ↦ ok p ]

-- The channels for an event that is to be notified.
unfoldable pub routed_channels : Policy → NotificationEvent → AlertPayload → List Text
routed_channels policy event payload =
    let channels = channels_from_rules policy.rules event payload in
    unique_strings (
      if is_nil channels && contains policy.default_severities event.severity
      then channels ++ policy.default_channels
      else channels)

unfoldable pub decide_channels : List Text → Decision
decide_channels [] = record {
  status = suppressed;
  reason = codes "no matching notification rules";
  channels = [];
}
decide_channels (c ∷ cs) = record {
  status = accepted;
  reason = codes "matched notification policy";
  channels = c ∷ cs;
}

unfoldable pub decision : Policy → NotificationEvent → AlertPayload → Decision
decision policy event payload =
    if not payload.notify
    then record { status = suppressed; reason = codes "payload notify=false"; channels = [] }
    else decide_channels (routed_channels policy event payload)

unfoldable pub evaluate :
    (Text → Option AlertPayload)
    → Policy
    → Option Task
    → Option NotificationEvent
    → Result EvaluateError Decision
evaluate unmarshal engine task none = err event_is_nil
evaluate unmarshal engine task (some event) = do
  payload ← payload_from_event unmarshal event
  ok (decision (policy_for_task engine task) event payload)
