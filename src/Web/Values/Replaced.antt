-- ===== src/Web/Values/Replaced.antt =====
-- What strings.ReplaceAll and interpolateExecTemplate, server/internal/web/exec_policies.go, give,
-- described apart from how they are computed.
use agents_management.Prelude.{
  ℕ, zero, suc, ◌-◌, true, false, [], ◌∷◌, ◌++◌, ◌≡◌, refl, sym, ap, subst, arith, Text, codes,
  has_prefix, has_prefix-append, drop, length, ==_iff, Bool-cases, inl, inr,
}
use agents_management.Web.Values.{Values, replace_from, replace_all, interpolate}

-- From left to right: an occurrence of the old text is replaced by the new one, and a byte at which
-- none starts stays.
pub data Replaces (old new : Text) : Text → Text → Type 0 where
  end_of_text : Replaces old new [] []
  replaced : (s t : Text) → Replaces old new s t → Replaces old new (old ++ s) (new ++ t)
  kept :
      (c : ℕ) (s t : Text)
      → ¬ ((rest : Text) × (c ∷ s ≡ old ++ rest))
      → Replaces old new s t
      → Replaces old new (c ∷ s) (c ∷ t)

-- The placeholders of the values are replaced, one key after the other.
pub data Interpolates : Text → Values → Text → Type 0 where
  no_more : (s : Text) → Interpolates s [] s
  for_key :
      (s t out key value : Text) (values : Values)
      → Replaces (codes "{{" ++ (key ++ codes "}}")) value s t
      → Interpolates t values out
      → Interpolates s ((key, value) ∷ values) out

drop-has_prefix : (p s : Text) → has_prefix p s ≡ true → s ≡ p ++ drop (length p) s
unfolding has_prefix
drop-has_prefix [] s h = refl
drop-has_prefix (c ∷ p) [] h = cc
drop-has_prefix (c ∷ p) (d ∷ s) h = ground (arith, drop-has_prefix p s, ==_iff c d)

no_prefix : (p s : Text) → has_prefix p s ≡ false → ¬ ((rest : Text) × (s ≡ p ++ rest))
no_prefix p s h (rest, e) =
    absurd (ground (arith, h, ap (has_prefix p) e, has_prefix-append p rest))

-- With `skip` bytes still to be passed over.
replace_from-Replaces :
    (o : ℕ) (os new s : Text) (skip : ℕ)
    → Replaces (o ∷ os) new (drop skip s) (replace_from (o ∷ os) new skip s)
unfolding replace_from
replace_from-Replaces o os new [] zero = end_of_text
replace_from-Replaces o os new [] (suc skip) = end_of_text
replace_from-Replaces o os new (c ∷ s) (suc skip) = replace_from-Replaces o os new s skip
replace_from-Replaces o os new (c ∷ s) zero =
    let whole = o ∷ os in
    let next = replace_from-Replaces o os new s (length os) in
    let behind : suc (length os) - 1 ≡ length os = omega arith in
    let rest = replace_from-Replaces o os new s zero in
    elim (Bool-cases (has_prefix whole (c ∷ s))) [
      | inl e ↦
          rw (e, behind)
            (subst (λ text. Replaces whole new text (new ++ replace_from whole new (length os) s))
              (sym (drop-has_prefix whole (c ∷ s) e))
              (replaced (drop (length os) s) (replace_from whole new (length os) s) next))
      | inr e ↦ rw e (kept c s (replace_from whole new zero s) (no_prefix whole (c ∷ s) e) rest)
    ]

pub interpolate-Interpolates :
    (input : Text) (values : Values) → Interpolates input values (interpolate input values)
unfolding interpolate replace_all
interpolate-Interpolates input [] = no_more input
interpolate-Interpolates input ((key, value) ∷ values) =
    let old = codes "{{" ++ (key ++ codes "}}") in
    let mid = replace_all old value input in
    for_key input mid (interpolate mid values) key value values
      (replace_from-Replaces _ _ value input zero) (interpolate-Interpolates mid values)
