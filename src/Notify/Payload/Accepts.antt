-- ===== src/Notify/Payload/Accepts.antt =====
-- Which payloads are accepted.
use agents_management.Prelude.{
  Bool, true, false, not, ◌&&◌, Option, none, some, ◌≡◌, ◌↔◌, refl, arith, Text, codes, text_eq,
  contains, is_nil, length, leb, trim, exists, [], ◌∷◌, has_prefix, Option-cases, inl, inr, ok,
}
use agents_management.Notify.Payload.{
  AlertPayload, severities, source_kinds, validate_alert_payload, parse_alert_payload,
  checked_payload, payload_text,
}

-- What the fields of a valid payload satisfy.
abbrev pub is_valid : AlertPayload → Bool
is_valid p =
    not (is_nil p.event_type)
    && (contains severities p.severity
        && (not (is_nil p.title)
            && (not (is_nil p.summary)
                && (contains source_kinds p.source.kind && leb (length p.details) 20))))

severity_not_nil : (t : Text) → is_nil t ≡ true → contains severities t ≡ false
unfolding contains text_eq exists
severity_not_nil [] h = refl
severity_not_nil (c ∷ t) h = cc

kind_not_nil : (t : Text) → is_nil t ≡ true → contains source_kinds t ≡ false
unfolding contains text_eq exists
kind_not_nil [] h = refl
kind_not_nil (c ∷ t) h = cc

ok_of_is_valid : (p : AlertPayload) → is_valid p ≡ true → validate_alert_payload p ≡ ok tt
unfolding validate_alert_payload
ok_of_is_valid p h = ground (arith, severity_not_nil p.severity, kind_not_nil p.source.kind)

is_valid_of_ok : (p : AlertPayload) → validate_alert_payload p ≡ ok tt → is_valid p ≡ true
unfolding validate_alert_payload
is_valid_of_ok p h = ground arith

payload_text_of_nil : (t : Text) → is_nil t ≡ true → payload_text t ≡ none
unfolding payload_text has_prefix
payload_text_of_nil [] h = refl
payload_text_of_nil (c ∷ t) h = cc

-- The conditions on a payload that was read as `json` and parsed as `p`.
abbrev pub IsAccepted : AlertPayload → Type 0
IsAccepted p =
    (text_eq p.schema (codes "alert_payload") ≡ true)
    × (text_eq p.version (codes "1") ≡ true)
    × (is_valid p ≡ true)

checked_payload-ok :
    (json json' : Text) (q : Option AlertPayload) (p : AlertPayload)
    → checked_payload json q ≡ ok (some (json', p))
    → (json ≡ json') × (q ≡ some p) × IsAccepted p
unfolding checked_payload
checked_payload-ok json json' none p h = cc
checked_payload-ok json json' (some q) p h = ground (arith, is_valid_of_ok q)

checked_payload_of_IsAccepted :
    (json : Text) (p : AlertPayload)
    → IsAccepted p
    → checked_payload json (some p) ≡ ok (some (json, p))
unfolding checked_payload
checked_payload_of_IsAccepted json p h = ground (arith, ok_of_is_valid p)

-- A payload is read from an output exactly if the trimmed output has a payload text, that text parses
-- to the payload, the schema and the version are the known ones, and the fields are valid.
pub parse_alert_payload_iff :
    (unmarshal : Text → Option AlertPayload) (output json : Text) (p : AlertPayload)
    → (parse_alert_payload unmarshal output ≡ ok (some (json, p)))
      ↔ ((payload_text (trim output) ≡ some json) × (unmarshal json ≡ some p) × IsAccepted p)
unfolding parse_alert_payload
parse_alert_payload_iff unmarshal output json p = (sound, complete)
  where
    sound :
        parse_alert_payload unmarshal output ≡ ok (some (json, p))
        → (payload_text (trim output) ≡ some json) × (unmarshal json ≡ some p) × IsAccepted p
    sound h = elim (Option-cases (payload_text (trim output))) [
      | inl e ↦ ground arith
      | inr (j, e) ↦ ground (arith, checked_payload-ok j json (unmarshal j) p)
    ]

    complete :
        (payload_text (trim output) ≡ some json) × (unmarshal json ≡ some p) × IsAccepted p
        → parse_alert_payload unmarshal output ≡ ok (some (json, p))
    complete h =
        ground (arith, payload_text_of_nil (trim output), checked_payload_of_IsAccepted json p)
