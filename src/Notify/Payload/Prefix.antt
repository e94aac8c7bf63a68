-- ===== src/Notify/Payload/Prefix.antt =====
-- The two forms of a payload text: bare, and behind the prefix.
use agents_management.Prelude.{
  true, false, Option, [], ◌∷◌, ◌++◌, ◌≡◌, refl, ap, ◌∙◌, arith, Text, codes, trim, trim_left,
  trim_right, is_space, has_prefix, has_prefix-append, drop_prefix-append, is_nil,
  trim_right-trim_right, trim_right-append,
}
use agents_management.Notify.Payload.{
  AlertPayload, payload_prefix, payload_text, parse_alert_payload,
}

trim_left_right : (s : Text) → trim_left (trim_right s) ≡ trim_right (trim_left s)
unfolding trim_left trim_right
trim_left_right [] = refl
trim_left_right (c ∷ s) = ground (arith, trim_left_right s)

trim-trim_right : (s : Text) → trim (trim_right s) ≡ trim s
unfolding trim
trim-trim_right s = ap trim_right (trim_left_right s) ∙ trim_right-trim_right (trim_left s)

trim-append : (s : Text) → trim (payload_prefix ++ s) ≡ payload_prefix ++ trim_right s
unfolding trim is_space
trim-append s = trim_right-append (codes "ALERT_PAYLOAD") s 58 refl

not_prefixed : (t : Text) → has_prefix (codes "{") t ≡ true → has_prefix payload_prefix t ≡ false
unfolding has_prefix
not_prefixed [] h = cc
not_prefixed (c ∷ t) h = ground arith

not_nil : (t : Text) → has_prefix (codes "{") t ≡ true → is_nil t ≡ false
unfolding has_prefix
not_nil [] h = cc
not_nil (c ∷ t) h = refl

-- An object behind the prefix "ALERT_PAYLOAD:", with or without spaces round it, is read like the
-- bare object.
pub parse_alert_payload-prefix :
    (unmarshal : Text → Option AlertPayload) (json : Text)
    → has_prefix (codes "{") (trim json) ≡ true
    → parse_alert_payload unmarshal (payload_prefix ++ json) ≡ parse_alert_payload unmarshal json
unfolding parse_alert_payload payload_text
parse_alert_payload-prefix unmarshal json h = rw (
  trim-append json,
  has_prefix-append payload_prefix (trim_right json),
  drop_prefix-append payload_prefix (trim_right json),
  trim-trim_right json,
  not_prefixed (trim json) h,
  not_nil (trim json) h,
  h,
)
