-- ===== src/Notify/Policy/Decisions.antt =====
-- What a decision of the rule engine says.
use agents_management.Prelude.{
  true, Option, none, some, List, [], ◌∷◌, ◌≡◌, refl, Text, is_nil, if◌then◌else◌, ok, Bool-cases,
  >>=-eq-ok, ok-injective, subst, inl, inr,
}
use agents_management.Storage.Model.{Task, NotificationEvent, suppressed, accepted}
use agents_management.Notify.Unique.{is_duplicate_free, contains-unique_strings}
use agents_management.Notify.Payload.{AlertPayload}
use agents_management.Notify.Policy.{
  Policy, Decision, policy_for_task, payload_from_event, routed_channels, decide_channels, decision,
  evaluate,
}

-- A decision accepts exactly if it names a channel, and names each channel once.
abbrev pub IsSound : Decision → Type 0
IsSound d =
    (d.status ≡ (if is_nil d.channels then suppressed else accepted))
    × (is_duplicate_free d.channels ≡ true)

decide_channels-IsSound :
    (channels : List Text) → is_duplicate_free channels ≡ true → IsSound (decide_channels channels)
unfolding decide_channels
decide_channels-IsSound [] h = (refl, refl)
decide_channels-IsSound (c ∷ cs) h = (refl, h)

decision-IsSound :
    (policy : Policy) (event : NotificationEvent) (payload : AlertPayload)
    → IsSound (decision policy event payload)
unfolding decision routed_channels
decision-IsSound policy event payload = elim (Bool-cases payload.notify) [
  | inl e ↦ rw e (decide_channels-IsSound _ (contains-unique_strings _ []).1)
  | inr e ↦ rw e (refl, refl)
]

-- Every decision of the engine is to accept, with channels, or to suppress, with none; no channel
-- stands in it twice.
pub evaluate-IsSound :
    (unmarshal : Text → Option AlertPayload) (engine : Policy) (task : Option Task)
    (event : Option NotificationEvent) (d : Decision)
    → evaluate unmarshal engine task event ≡ ok d
    → IsSound d
unfolding evaluate
evaluate-IsSound unmarshal engine task none d h = cc
evaluate-IsSound unmarshal engine task (some event) d h =
    let policy = policy_for_task engine task in
    let (p, at_p, same) =
      >>=-eq-ok (payload_from_event unmarshal event) (λ q. ok (decision policy event q)) h in
    subst IsSound (ok-injective same) (decision-IsSound policy event p)
