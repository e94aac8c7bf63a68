-- ===== src/Notify/Dedup.antt =====
-- The key and the window by which an event counts as a repetition: `buildDedupKey` of
-- server/internal/notification_evaluator.go, and the window of `shouldSuppressDuplicateEvent` of
-- server/internal/notification_routing.go, in nanoseconds.
use agents_management.Prelude.{
  sort_strings, ℕ, ◌+◌, ◌-◌, ◌*◌, not, ◌&&◌, List, [], ◌∷◌, ◌++◌, Text, codes, to_lower, trim,
  is_space, is_nil, leb, map, if◌then◌else◌, ℤ, pos, negsuc, ◌<=◌,
}
use agents_management.Storage.Model.{NotificationEvent, Time}
use agents_management.Notify.Payload.{AlertPayload}
use agents_management.Notify.Policy.{label_of}

-- strings.Join
unfoldable pub join : Text → List Text → Text
join sep [] = []
join sep (s ∷ []) = s
join sep (s ∷ t ∷ texts) = s ++ (sep ++ join sep (t ∷ texts))

-- strings.Fields, with the word read so far
fields_from : Text → Text → List Text
fields_from word [] = if is_nil word then [] else word ∷ []
fields_from word (c ∷ s) =
    let next = fields_from [] s in
    let more = fields_from (word ++ (c ∷ [])) s in
    if is_space c then (if is_nil word then next else word ∷ next) else more

unfoldable pub fields : Text → List Text
unfolding fields_from
fields s = fields_from [] s

unfoldable pub normalize_dedup_text : Text → Text
unfolding join fields
normalize_dedup_text value = join (codes " ") (fields (to_lower (trim value)))

unfoldable pub dedup_parts : AlertPayload → List Text
unfolding normalize_dedup_text label_of sort_strings
dedup_parts payload =
    (payload.event_type ∷ payload.source.kind ∷ payload.source.path
      ∷ payload.source.producer_task_id ∷ [])
    ++ (map (λ key. key ++ (codes "=" ++ label_of payload.labels key))
          (sort_strings (map (λ entry. entry.0) payload.labels))
        ++ (if is_nil payload.dedup.key_material
            then normalize_dedup_text payload.summary ∷ []
            else payload.dedup.key_material))

-- `sha256` gives the sum in hexadecimal.
unfoldable pub build_dedup_key : (Text → Text) → AlertPayload → Text
unfolding dedup_parts join
build_dedup_key sha256 payload = codes "sha256:" ++ sha256 (join (codes "|") (dedup_parts payload))

abbrev pub second : ℕ
second = 1000000000

abbrev window_seconds : NotificationEvent → ℤ
window_seconds event =
    if event.dedup_window_seconds.valid && not (event.dedup_window_seconds.value <= pos 0)
    then event.dedup_window_seconds.value
    else pos 3600

abbrev before : Time → ℤ → ℤ
before now (pos seconds) =
    if leb (seconds * second) now
    then pos (now - seconds * second)
    else negsuc (seconds * second - now - 1)
before now (negsuc seconds) = pos (now + (seconds + 1) * second)

-- Where the window that ends now starts.
unfoldable pub since : Time → NotificationEvent → ℤ
since now event = before now (window_seconds event)
