-- ===== src/Web/Values.antt =====
-- server/internal/web/exec_policies.go: maps from names to values, as lists of their entries with each
-- key once, and the interpolation of a template.
pub mod Replaced
use agents_management.Prelude.{
  ℕ, zero, suc, ◌-◌, Option, none, some, List, [], ◌∷◌, ◌++◌, Text, codes, text_eq, has_prefix,
  length, if◌then◌else◌,
}

abbrev pub Values : Type 0
Values = List (Text × Text)

-- values[key], and whether the key is there
unfoldable pub find : Values → Text → Option Text
find [] key = none
find ((k, v) ∷ values) key = if text_eq k key then some v else find values key

abbrev pub or_empty : Option Text → Text
or_empty none = []
or_empty (some v) = v

-- values[key], the empty text if the key is missing
unfoldable pub value_of : Values → Text → Text
unfolding find
value_of values key = or_empty (find values key)

-- values[key] = value
unfoldable pub put : Values → Text → Text → Values
put [] key value = (key, value) ∷ []
put ((k, v) ∷ values) key value =
    let rest = put values key value in if text_eq k key then (k, value) ∷ values else (k, v) ∷ rest

-- strings.ReplaceAll for a text that is not empty: `skip` bytes are still part of a match.
replace_from : Text → Text → ℕ → Text → Text
replace_from old new skip [] = []
replace_from old new (suc skip) (c ∷ s) = replace_from old new skip s
replace_from old new zero (c ∷ s) =
    let matched = replace_from old new (length old - 1) s in
    let rest = replace_from old new zero s in
    if has_prefix old (c ∷ s) then new ++ matched else c ∷ rest

unfoldable pub replace_all : Text → Text → Text → Text
unfolding replace_from
replace_all old new s = replace_from old new zero s

-- The values in the order of the loop.
unfoldable pub interpolate : Text → Values → Text
interpolate input [] = input
interpolate input ((key, value) ∷ values) =
    interpolate (replace_all (codes "{{" ++ (key ++ codes "}}")) value input) values
