-- ===== src/Prelude/Ids.antt =====
-- package google/uuid, which the program calls and does not contain: a 16-byte value, its text form
-- and the parser of that form, with the documented facts that the program relies on.
use Prim.Native.Nat.{ℕ}
use mathlib.Core.Path.{◌≡◌}
use mathlib.Core.Bool.{Bool, true, ◌&&◌, ◌||◌}
use mathlib.Core.Option.{Option, some}
use agents_management.Prelude.Tests.{leb, ◌==◌}
use agents_management.Prelude.Lists.{All}
use agents_management.Prelude.Strings.{Text}

abbrev pub Uuid : Type 0
Uuid = ℕ

-- A lower-case hexadecimal digit, or the dash between the groups.
abbrev pub is_uuid_byte : ℕ → Bool
is_uuid_byte c = (leb 48 c && leb c 57) || (leb 97 c && leb c 102) || c == 45

pub record UuidFormat : Type 0 where
  pub string : Uuid → Text
  pub parse : Text → Option Uuid
  pub parse-string : (u : Uuid) → parse (string u) ≡ some u
  pub string_plain : (u : Uuid) → All (λ c. is_uuid_byte c ≡ true) (string u)
