-- ===== src/Agent/Identity.antt =====
-- getOrCreateAgentID of agent/internal/agent.go: the identifier that the agent keeps in a file.
use agents_management.Prelude.{
  true, false, Option, none, some, [], ◌∷◌, Text, Uuid, UuidFormat, trim, is_nil, if◌then◌else◌,
  Result, ok, err, ◌≡◌, refl, sym, ◌∙◌, ap, Bool-cases, inl, inr, ◌⊎◌, ok-injective,
}

-- The file: it is not there, it cannot be read, or it holds a text.
pub data IdFile : Type 0 where
  missing : IdFile
  unreadable : Text → IdFile
  holding : Text → IdFile

-- `ok []` is the empty identifier with a nil error; the text of an error is that of package os.
abbrev pub Identity : Type 0
Identity = Result Text Text × IdFile

written_id : Text → Option Text → Identity
written_id id (some e) = (err e, missing)
written_id id none = (ok id, holding id)

-- A write that fails is taken to leave no file. os.WriteFile gives the text of its error, if it has one, and uuid.New() gives `fresh`.
unfoldable pub get_or_create_agent_id : UuidFormat → Uuid → Option Text → IdFile → Identity
unfolding written_id
get_or_create_agent_id format fresh write_error missing =
    written_id (format.string fresh) write_error
get_or_create_agent_id format fresh write_error (unreadable e) = (err e, unreadable e)
get_or_create_agent_id format fresh write_error (holding text) =
    if is_nil (trim text) then (ok [], holding text) else (ok (trim text), holding text)

nil_if : (s : Text) → is_nil s ≡ true → s ≡ []
nil_if [] h = refl
nil_if (c ∷ s) h = cc

-- An identifier that is not empty is given again at every later start, whatever is drawn then; and the only
-- way to have an empty one is a file that holds nothing but spaces.
pub get_or_create_agent_id-stable :
    (format : UuidFormat) (fresh other : Uuid) (write_error other_error : Option Text)
    (file : IdFile) (id : Text)
    → trim (format.string fresh) ≡ format.string fresh
    → is_nil (format.string fresh) ≡ false
    → (get_or_create_agent_id format fresh write_error file).0 ≡ ok id
    → let again =
        get_or_create_agent_id format other other_error
          (get_or_create_agent_id format fresh write_error file).1 in
      (again.0 ≡ ok id)
      × ((is_nil id ≡ false) ⊎ ((text : Text) × (file ≡ holding text) × (trim text ≡ [])))
unfolding get_or_create_agent_id written_id
get_or_create_agent_id-stable format fresh other (some e) other_error missing id plain full =
    λ h. cc
get_or_create_agent_id-stable format fresh other none other_error missing id plain full = λ h.
    let same : format.string fresh ≡ id = ok-injective h in
    (rw (plain, full) (ap ok same), inl (ap is_nil (sym same) ∙ full))
get_or_create_agent_id-stable format fresh other write_error other_error (unreadable e) id plain
      full =
    λ h. cc
get_or_create_agent_id-stable format fresh other write_error other_error (holding text) id plain
      full =
    elim (Bool-cases (is_nil (trim text))) [
      | inl e ↦ rw e (λ h. (rw e h, inr (text, refl, nil_if (trim text) e)))
      | inr e ↦ rw e (λ h. (rw e h, inl (ap is_nil (sym (ok-injective h)) ∙ e)))
    ]
