-- ===== src/Prelude/Normal.antt =====
-- Trimming and lowering a text.
use Prim.Native.Nat.{ℕ}
use mathlib.Core.Bool.{false}
use mathlib.Core.Path.{◌≡◌, refl, ap, ◌∙◌}
use mathlib.Core.List.{[], ◌∷◌, ◌++◌}
use native.Mathlib.Omega.{arith}
use agents_management.Prelude.Lists.{is_nil}
use agents_management.Prelude.Strings.{
  Text, lower_byte, to_lower, is_space, trim_left, trim_right, trim,
}

pub trim_left-trim_left : (s : Text) → trim_left (trim_left s) ≡ trim_left s
unfolding trim_left
trim_left-trim_left [] = refl
trim_left-trim_left (c ∷ s) = ground (arith, trim_left-trim_left s)

pub trim_right-trim_right : (s : Text) → trim_right (trim_right s) ≡ trim_right s
unfolding trim_right
trim_right-trim_right [] = refl
trim_right-trim_right (c ∷ s) = ground (arith, trim_right-trim_right s)

-- Trimming the right end leaves a left end that is trimmed.
trim_left-trim_right : (s : Text) → trim_left (trim_right (trim_left s)) ≡ trim_right (trim_left s)
unfolding trim_left trim_right
trim_left-trim_right [] = refl
trim_left-trim_right (c ∷ s) = ground (arith, trim_left-trim_right s)

pub trim-trim : (s : Text) → trim (trim s) ≡ trim s
unfolding trim
trim-trim s = ap trim_right (trim_left-trim_right s) ∙ trim_right-trim_right (trim_left s)

lower_byte-lower_byte : (c : ℕ) → lower_byte (lower_byte c) ≡ lower_byte c
unfolding lower_byte
lower_byte-lower_byte c = ground arith

pub to_lower-to_lower : (s : Text) → to_lower (to_lower s) ≡ to_lower s
unfolding to_lower
to_lower-to_lower [] = refl
to_lower-to_lower (c ∷ s) = cc (lower_byte-lower_byte c, to_lower-to_lower s)

is_space-lower_byte : (c : ℕ) → is_space (lower_byte c) ≡ is_space c
unfolding is_space lower_byte
is_space-lower_byte c = ground arith

trim_left-to_lower : (s : Text) → trim_left (to_lower s) ≡ to_lower (trim_left s)
unfolding trim_left to_lower
trim_left-to_lower [] = refl
trim_left-to_lower (c ∷ s) = ground (arith, trim_left-to_lower s)

is_nil-to_lower : (s : Text) → is_nil (to_lower s) ≡ is_nil s
unfolding to_lower
is_nil-to_lower [] = refl
is_nil-to_lower (c ∷ s) = refl

pub trim_right-to_lower : (s : Text) → trim_right (to_lower s) ≡ to_lower (trim_right s)
unfolding trim_right to_lower
trim_right-to_lower [] = refl
trim_right-to_lower (c ∷ s) = ground (arith, trim_right-to_lower s, is_nil-to_lower (trim_right s))

pub trim-to_lower : (s : Text) → trim (to_lower s) ≡ to_lower (trim s)
unfolding trim
trim-to_lower s = ap trim_right (trim_left-to_lower s) ∙ trim_right-to_lower (trim_left s)

pub trim_right-trim : (s : Text) → trim_right (trim s) ≡ trim s
unfolding trim
trim_right-trim s = trim_right-trim_right (trim_left s)

pub to_lower-append : (s t : Text) → to_lower (s ++ t) ≡ to_lower s ++ to_lower t
unfolding to_lower
to_lower-append [] t = refl
to_lower-append (c ∷ s) t = ap (λ r. lower_byte c ∷ r) (to_lower-append s t)

-- Trimming the right end stops at a byte that is no space.
pub trim_right-append :
    (s t : Text) (c : ℕ) → is_space c ≡ false → trim_right (s ++ (c ∷ t)) ≡ s ++ (c ∷ trim_right t)
unfolding trim_right
trim_right-append [] t c h = ground arith
trim_right-append (d ∷ []) t c h = ground arith
trim_right-append (d ∷ e ∷ s) t c h = ground (arith, trim_right-append (e ∷ s) t c h)
