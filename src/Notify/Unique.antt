-- ===== src/Notify/Unique.antt =====
-- `uniqueStrings` of server/internal/notification_routing.go.
use agents_management.Prelude.{
  Bool, true, false, not, ◌&&◌, List, [], ◌∷◌, ◌≡◌, refl, arith, Text, text_eq, text_eq_iff,
  contains, contains_self, trim, trim-trim, is_nil, exists, if◌then◌else◌,
}

-- The loop, with the texts seen so far.
unique_from : List Text → List Text → List Text
unique_from seen [] = []
unique_from seen (value ∷ values) =
    let normalized = trim value in
    let skip = unique_from seen values in
    let keep = normalized ∷ unique_from (normalized ∷ seen) values in
    if is_nil normalized then skip else if contains seen normalized then skip else keep

unfoldable pub unique_strings : List Text → List Text
unfolding unique_from
unique_strings values = unique_from [] values

-- No text stands twice.
abbrev pub is_duplicate_free : List Text → Bool
is_duplicate_free [] = true
is_duplicate_free (x ∷ xs) = not (contains xs x) && is_duplicate_free xs

contains-unique_from :
    (seen values : List Text) (x : Text)
    → contains (unique_from seen values) x
      ≡ (not (contains seen x) && (not (is_nil x) && exists (λ v. text_eq (trim v) x) values))
unfolding unique_from contains exists
contains-unique_from seen [] x = ground arith
contains-unique_from seen (v ∷ values) x = ground (
  arith,
  contains-unique_from seen values x,
  contains-unique_from (trim v ∷ seen) values x,
  text_eq_iff (trim v) x,
)

unique_from-is_duplicate_free :
    (seen values : List Text) → is_duplicate_free (unique_from seen values) ≡ true
unfolding unique_from
unique_from-is_duplicate_free seen [] = refl
unique_from-is_duplicate_free seen (v ∷ values) = ground (
  arith,
  unique_from-is_duplicate_free seen values,
  unique_from-is_duplicate_free (trim v ∷ seen) values,
  contains-unique_from (trim v ∷ seen) values (trim v),
  contains_self seen (trim v),
)

-- Texts that the loop keeps as they are: trimmed, not empty, and not seen before.
IsFresh : List Text → List Text → Type 0
IsFresh seen [] = Unit
IsFresh seen (y ∷ ys) =
    (trim y ≡ y) × (is_nil y ≡ false) × (contains seen y ≡ false) × IsFresh (y ∷ seen) ys

unique_from-IsFresh : (seen values : List Text) → IsFresh seen (unique_from seen values)
unfolding unique_from IsFresh
unique_from-IsFresh seen [] = tt
unique_from-IsFresh seen (v ∷ values) = ground (
  arith,
  unique_from-IsFresh seen values,
  unique_from-IsFresh (trim v ∷ seen) values,
  trim-trim v,
)

unique_from_of_IsFresh :
    (seen values : List Text) → IsFresh seen values → unique_from seen values ≡ values
unfolding unique_from IsFresh
unique_from_of_IsFresh seen [] h = refl
unique_from_of_IsFresh seen (v ∷ values) h =
    ground (arith, unique_from_of_IsFresh (v ∷ seen) values)

-- The result holds the trimmed forms of the values, without the empty one, and each of them once.
pub contains-unique_strings :
    (values : List Text) (x : Text)
    → (contains (unique_strings values) x
        ≡ (not (is_nil x) && exists (λ v. text_eq (trim v) x) values))
      × (is_duplicate_free (unique_strings values) ≡ true)
unfolding unique_strings contains exists
contains-unique_strings values x =
    (contains-unique_from [] values x, unique_from-is_duplicate_free [] values)

-- Doing it twice is doing it once.
pub unique_strings-unique_strings :
    (values : List Text) → unique_strings (unique_strings values) ≡ unique_strings values
unfolding unique_strings
unique_strings-unique_strings values =
    unique_from_of_IsFresh [] (unique_from [] values) (unique_from-IsFresh [] values)
