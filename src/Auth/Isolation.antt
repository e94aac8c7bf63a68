-- ===== src/Auth/Isolation.antt =====
-- Roles that name one agent.
use agents_management.Prelude.{
  Bool, true, false, ◌||◌, List, [], ◌∷◌, ◌++◌, ◌≡◌, ◌≢◌, refl, sym, ap, ◌∙◌, arith, Text, codes,
  text_eq, text_eq_iff, contains, to_lower, trim, lower_byte, is_nil, has_prefix, has_prefix-append,
  drop_prefix, drop_prefix-append, Bool-cases, inl, inr, ◌⊎◌, exists, All, Uuid, UuidFormat,
  is_uuid_byte, trim-to_lower,
}
use agents_management.Auth.{normalized_roles, role_for_agent}
use agents_management.Auth.Roles.{normal}

abbrev pub IsPlain : Text → Type 0
IsPlain s = All (λ c. is_uuid_byte c ≡ true) s

pub to_lower_of_IsPlain : (s : Text) → IsPlain s → to_lower s ≡ s
unfolding to_lower lower_byte
to_lower_of_IsPlain [] h = refl
to_lower_of_IsPlain (c ∷ s) h = ground (arith, to_lower_of_IsPlain s)

-- No text of a UUID holds the separator.
no_separator : (s t : Text) → IsPlain t → has_prefix (s ++ (58 ∷ [])) t ≡ false
unfolding has_prefix
no_separator [] [] h = refl
no_separator [] (d ∷ t) h = ground arith
no_separator (c ∷ s) [] h = refl
no_separator (c ∷ s) (d ∷ t) h = ground (arith, no_separator s t)

-- What stands before the first separator is determined.
prefix_unique :
    (s t r : Text)
    → IsPlain s
    → IsPlain t
    → has_prefix (s ++ (58 ∷ [])) r ≡ true
    → has_prefix (t ++ (58 ∷ [])) r ≡ true
    → s ≡ t
unfolding has_prefix
prefix_unique [] [] r hs ht p q = refl
prefix_unique [] (d ∷ t) [] hs ht p q = cc
prefix_unique [] (d ∷ t) (e ∷ r) hs ht p q = ground arith
prefix_unique (c ∷ s) [] [] hs ht p q = cc
prefix_unique (c ∷ s) [] (e ∷ r) hs ht p q = ground arith
prefix_unique (c ∷ s) (d ∷ t) [] hs ht p q = cc
prefix_unique (c ∷ s) (d ∷ t) (e ∷ r) hs ht p q = ground (arith, prefix_unique s t r)

abbrev pub agent_text : Text
agent_text = codes "agent:"

has_prefix-drop_prefix :
    (p q r : Text) → has_prefix (p ++ q) r ≡ true → has_prefix q (drop_prefix p r) ≡ true
unfolding has_prefix drop_prefix
has_prefix-drop_prefix [] q r h = h
has_prefix-drop_prefix (c ∷ p) q [] h = cc
has_prefix-drop_prefix (c ∷ p) q (d ∷ r) h = ground (arith, has_prefix-drop_prefix p q r)

-- The role is that of the agent whose UUID reads `s`, or of one of its permissions.
abbrev pub names_text : Text → Text → Bool
names_text s role =
    text_eq role (agent_text ++ s) || has_prefix ((agent_text ++ s) ++ codes ":") role

names_text_cases :
    (s role : Text)
    → names_text s role ≡ true
    → (drop_prefix agent_text role ≡ s)
      ⊎ (has_prefix (s ++ (58 ∷ [])) (drop_prefix agent_text role) ≡ true)
names_text_cases s role h = elim (Bool-cases (text_eq role (agent_text ++ s))) [
  | inl e ↦ inl (rw ((text_eq_iff role (agent_text ++ s)).0 e) (drop_prefix-append agent_text s))
  | inr n ↦ inr (has_prefix-drop_prefix agent_text (s ++ (58 ∷ [])) role (rw n at h))
]

names_text_unique :
    (s t role : Text)
    → IsPlain s
    → IsPlain t
    → names_text s role ≡ true
    → names_text t role ≡ true
    → s ≡ t
names_text_unique s t role ps pt h k = elim (names_text_cases s role h) [
  | inl e ↦ elim (names_text_cases t role k) [
    | inl f ↦ sym e ∙ f
    | inr f ↦ cc (no_separator t s ps, e, f)
  ]
  | inr e ↦ elim (names_text_cases t role k) [
    | inl f ↦ cc (no_separator s t pt, e, f)
    | inr f ↦ prefix_unique s t (drop_prefix agent_text role) ps pt e f
  ]
]

has_prefix-append_left : (p q r : Text) → has_prefix (p ++ q) r ≡ true → has_prefix p r ≡ true
unfolding has_prefix
has_prefix-append_left [] q r h = refl
has_prefix-append_left (c ∷ p) q [] h = cc
has_prefix-append_left (c ∷ p) q (d ∷ r) h = ground (arith, has_prefix-append_left p q r)

has_prefix-names_text :
    (s role : Text) → names_text s role ≡ true → has_prefix agent_text role ≡ true
has_prefix-names_text s role h = elim (Bool-cases (text_eq role (agent_text ++ s))) [
  | inl e ↦ rw ((text_eq_iff role (agent_text ++ s)).0 e) (has_prefix-append agent_text s)
  | inr n ↦ has_prefix-append_left agent_text (s ++ codes ":") role (rw n at h)
]

-- A list of such roles holds no role that does not begin like them.
pub contains_of_names_text :
    (s role : Text) (roles : List Text)
    → All (λ r. names_text s r ≡ true) roles
    → has_prefix agent_text role ≡ false
    → contains roles role ≡ false
unfolding contains exists
contains_of_names_text s role [] h k = refl
contains_of_names_text s role (r ∷ roles) h k = elim (Bool-cases (text_eq r role)) [
  | inl e ↦
      cc (ap (has_prefix agent_text) ((text_eq_iff r role).0 e), has_prefix-names_text s r h.0, k)
  | inr n ↦ rw n (contains_of_names_text s role roles h.1 k)
]

-- Nor one that names another agent.
pub not_names_text :
    (s t : Text) (roles : List Text)
    → IsPlain s
    → IsPlain t
    → s ≢ t
    → All (λ r. names_text s r ≡ true) roles
    → exists (λ r. names_text t r) roles ≡ false
unfolding exists
not_names_text s t [] ps pt d h = refl
not_names_text s t (r ∷ roles) ps pt d h = elim (Bool-cases (names_text t r)) [
  | inl e ↦ absurd (d (names_text_unique s t r ps pt h.0 e))
  | inr n ↦ rw n (not_names_text s t roles ps pt d h.1)
]

pub All-normalized_roles :
    (s : Text) (roles : List Text)
    → All (λ r. names_text s (normal r) ≡ true) roles
    → All (λ r. names_text s r ≡ true) (normalized_roles roles)
unfolding normalized_roles
All-normalized_roles s [] h = tt
All-normalized_roles s (r ∷ roles) h = elim (Bool-cases (is_nil (trim (to_lower r)))) [
  | inl e ↦ rw e (All-normalized_roles s roles h.1)
  | inr n ↦ rw n (rw (trim-to_lower r) h.0, All-normalized_roles s roles h.1)
]

module _ (fmt : UuidFormat) where
  -- The role names the agent `a`: it is the role of `a`, or of one of its permissions.
  abbrev pub names_agent : Uuid → Text → Bool
  names_agent a role =
      text_eq role (role_for_agent fmt a) || has_prefix (role_for_agent fmt a ++ codes ":") role

  pub string-injective : (a b : Uuid) → fmt.string a ≡ fmt.string b → a ≡ b
  string-injective a b h = cc (fmt.parse-string a, fmt.parse-string b)

  pub role_for_agent_lem : (a : Uuid) → role_for_agent fmt a ≡ codes "agent:" ++ fmt.string a
  unfolding role_for_agent
  role_for_agent_lem a = rw (to_lower_of_IsPlain (fmt.string a) (fmt.string_plain a))

  pub names_agent_lem :
      (a : Uuid) (role : Text) → names_agent a role ≡ names_text (fmt.string a) role
  names_agent_lem a role = rw (role_for_agent_lem a)
