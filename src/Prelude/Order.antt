-- ===== src/Prelude/Order.antt =====
-- The order of Go strings, and sort.Strings.
use mathlib.Core.Bool.{Bool, true, false, ◌&&◌, ◌||◌}
use mathlib.Core.List.{List, [], ◌∷◌}
use agents_management.Prelude.Tests.{ltb, ◌==◌, if◌then◌else◌}
use agents_management.Prelude.Strings.{Text}

-- s <= t in the order of bytes
unfoldable pub text_leb : Text → Text → Bool
text_leb [] t = true
text_leb (c ∷ s) [] = false
text_leb (c ∷ s) (d ∷ t) = ltb c d || (c == d && text_leb s t)

insert_text : Text → List Text → List Text
unfolding text_leb
insert_text s [] = s ∷ []
insert_text s (t ∷ texts) =
    let rest = insert_text s texts in if text_leb s t then s ∷ t ∷ texts else t ∷ rest

-- sort.Strings
unfoldable pub sort_strings : List Text → List Text
unfolding insert_text
sort_strings [] = []
sort_strings (s ∷ texts) = insert_text s (sort_strings texts)
