-- ===== src/Notify/Policy/RuleSets.antt =====
-- The rule sets that a task can name.
use agents_management.Prelude.{
  Bool, true, false, not, ◌&&◌, Option, none, some, List, [], ◌∷◌, ◌++◌, ◌≡◌, refl, arith, Text,
  codes, text_eq, contains, exists, is_nil, if◌then◌else◌, ok, >>=-eq-ok, ok-injective, ap, ◌∙◌,
  trim, is_space,
}
use agents_management.Storage.Model.{Task, NotificationEvent, suppressed, accepted}
use agents_management.Notify.Unique.{unique_strings}
use agents_management.Notify.Payload.{AlertPayload}
use agents_management.Notify.Policy.{
  Policy, Decision, alarming, telegram, new_default_policy, new_rule_engine, policy_for_task,
  channels_from_rules, payload_from_event, routed_channels, decide_channels, decision, evaluate,
}

-- The task names this rule set.
abbrev pub Names : Task → Text → Type 0
Names task name =
    (task.notification_rule_set.valid ≡ true) × (task.notification_rule_set.string ≡ name)

policy_disabled :
    (engine : Policy) (task : Task)
    → Names task (codes "disabled")
    → policy_for_task engine (some task)
      ≡ record { default_channels = []; default_severities = []; rules = [] }
unfolding policy_for_task text_eq
policy_disabled engine task h = rw (h.0, h.1)

policy_all :
    (engine : Policy) (task : Task)
    → Names task (codes "all")
    → policy_for_task engine (some task) ≡ record {
      default_channels = telegram ∷ [];
      default_severities = codes "info" ∷ alarming;
      rules = engine.rules;
    }
unfolding policy_for_task text_eq
policy_all engine task h = rw (h.0, h.1)

policy_errors_only :
    (engine : Policy) (task : Task)
    → Names task (codes "errors_only")
    → policy_for_task engine (some task) ≡ record {
      default_channels = telegram ∷ [];
      default_severities = codes "error" ∷ codes "critical" ∷ [];
      rules = engine.rules;
    }
unfolding policy_for_task text_eq
policy_errors_only engine task h = rw (h.0, h.1)

-- For a task with the rule set "disabled" no event is routed, whatever the engine's rules are.
pub evaluate-disabled :
    (unmarshal : Text → Option AlertPayload) (engine : Policy) (task : Task)
    (event : NotificationEvent) (d : Decision)
    → Names task (codes "disabled")
    → evaluate unmarshal engine (some task) (some event) ≡ ok d
    → (d.status ≡ suppressed) × (d.channels ≡ [])
unfolding evaluate decision decide_channels routed_channels channels_from_rules contains exists
    unique_strings
evaluate-disabled unmarshal engine task event d n h = ground (arith, policy_disabled engine task n)

errors_in_all :
    (s : Text)
    → contains (codes "error" ∷ codes "critical" ∷ []) s ≡ true
    → contains (codes "info" ∷ alarming) s ≡ true
unfolding contains exists
errors_in_all s h = ground arith

abbrev chosen : List Text → List Text → Text → List Text
chosen severities channels severity = unique_strings (
    if is_nil channels && contains severities severity
    then channels ++ (telegram ∷ [])
    else channels)

-- Where the smaller set of severities leads to a channel, the larger one leads to the same ones.
decide_channels-chosen :
    (channels : List Text) (severity : Text)
    → (decide_channels (chosen (codes "error" ∷ codes "critical" ∷ []) channels severity)).status
      ≡ accepted
    → decide_channels (chosen (codes "info" ∷ alarming) channels severity)
      ≡ decide_channels (chosen (codes "error" ∷ codes "critical" ∷ []) channels severity)
unfolding unique_strings decide_channels
decide_channels-chosen [] severity h = ground (arith, errors_in_all severity)
decide_channels-chosen (c ∷ cs) severity h = refl

decision-errors_only :
    (engine : Policy) (quiet loud : Task) (event : NotificationEvent) (payload : AlertPayload)
    → Names quiet (codes "errors_only")
    → Names loud (codes "all")
    → (decision (policy_for_task engine (some quiet)) event payload).status ≡ accepted
    → decision (policy_for_task engine (some loud)) event payload
      ≡ decision (policy_for_task engine (some quiet)) event payload
unfolding decision routed_channels
decision-errors_only engine quiet loud event payload q l h = ground (
  arith,
  policy_errors_only engine quiet q,
  policy_all engine loud l,
  decide_channels-chosen (channels_from_rules engine.rules event payload) event.severity,
)

-- What the rule set "errors_only" routes, the rule set "all" routes to the same channels.
pub evaluate-errors_only :
    (unmarshal : Text → Option AlertPayload) (engine : Policy) (quiet loud : Task)
    (event : NotificationEvent) (d : Decision)
    → Names quiet (codes "errors_only")
    → Names loud (codes "all")
    → evaluate unmarshal engine (some quiet) (some event) ≡ ok d
    → d.status ≡ accepted
    → evaluate unmarshal engine (some loud) (some event) ≡ ok d
unfolding evaluate
evaluate-errors_only unmarshal engine quiet loud event d q l h a =
    let (p, at_p, same) =
      >>=-eq-ok (payload_from_event unmarshal event)
        (λ r. ok (decision (policy_for_task engine (some quiet)) event r)) h in
    let decided : decision (policy_for_task engine (some quiet)) event p ≡ d = ok-injective same in
    rw at_p (ap ok (decision-errors_only engine quiet loud event p q l (rw decided a) ∙ decided))

if_not {ℓ} : {A : Type ℓ} (b : Bool) (x y : A) → (if not b then x else y) ≡ (if b then y else x)
if_not true x y = refl
if_not false x y = refl

unique_strings-telegram :
    (b : Bool)
    → unique_strings (if b then telegram ∷ [] else []) ≡ (if b then telegram ∷ [] else [])
unfolding unique_strings trim is_space contains exists
unique_strings-telegram true = refl
unique_strings-telegram false = refl

-- An engine with the default policy routes an event to "telegram" if its payload asks for a
-- notification and its severity is "warning", "error" or "critical", and suppresses it otherwise.
pub evaluate-default :
    (unmarshal : Text → Option AlertPayload) (event : NotificationEvent) (payload : AlertPayload)
    → payload_from_event unmarshal event ≡ ok payload
    → evaluate unmarshal (new_rule_engine new_default_policy) none (some event)
      ≡ ok (
          if payload.notify
          then decide_channels (if contains alarming event.severity then telegram ∷ [] else [])
          else record { status = suppressed; reason = codes "payload notify=false"; channels = [] })
unfolding evaluate new_rule_engine new_default_policy decision policy_for_task routed_channels
    channels_from_rules
evaluate-default unmarshal event payload h = rw h (
    rw (unique_strings-telegram (contains alarming event.severity))
      (ap ok (if_not payload.notify _ _)))
