-- ===== src/Screen/TooWide.antt =====
-- wrapToWidth beside a unit that is wider than a whole row.
use protected_chat.Prelude.{
  ℕ, ◌+◌, [], ◌≡◌, ◌∷◌, ◌<◌, ◌^◌, subst, refl, sym, List, ◌++◌, arith, ◌∙◌, ap, add64, Bytes,
}
use protected_chat.Screen.Rows.{wrap_same, wrap_above}
use protected_chat.Screen.Units.{
  joined, wrap_units, units, wrap_to_width, DisplayUnit, total_width, safe_text,
}
use protected_chat.Prelude.Int.{ℤ}

-- Past the width, the columns that are left wrap round, and every unit fits.
one_row :
    (width used : ℕ) (us : List DisplayUnit)
    → width < used
    → used + total_width us < 2 ^ 63
    → wrap_units width used us ≡ (joined us, [])
unfolding wrap_units
one_row width used [] past small = refl
one_row width used (u ∷ us) past small =
    let sum : add64 used u.width ≡ used + u.width = omega (arith, small) in
    let rest =
      subst (λ n. wrap_units width n us ≡ (joined us, [])) (sym sum)
        (one_row width (used + u.width) us (omega (arith, past)) (omega (arith, small))) in
    wrap_same width used u us (ground (arith, past, small)) ∙ ap (λ r. (u.bytes ++ r.0, r.1)) rest

-- When the first unit of a text is wider than a width above zero, and the columns of all its units
-- are below 2 ^ 63 together, wrapToWidth gives one row that is the whole text, however long: the
-- columns that are left are computed below zero and wrap round.
pub wrap_to_width-too_wide :
    (platform_width : ℕ → ℤ) (text : Bytes) (width : ℕ) (u : DisplayUnit) (us : List DisplayUnit)
    → 0 < width
    → units platform_width text ≡ u ∷ us
    → width < u.width
    → total_width (u ∷ us) < 2 ^ 63
    → wrap_to_width platform_width text width ≡ safe_text platform_width text ∷ []
unfolding safe_text
wrap_to_width-too_wide platform_width text width u us above first wide small =
    let sum : add64 0 u.width ≡ u.width = omega (arith, small) in
    let rest =
      subst (λ n. wrap_units width n us ≡ (joined us, [])) (sym sum)
        (one_row width u.width us wide small) in
    let row = wrap_same width 0 u us refl ∙ ap (λ r. (u.bytes ++ r.0, r.1)) rest in
    wrap_above platform_width text width above
    ∙ ap (λ x. (wrap_units width 0 x).0 ∷ (wrap_units width 0 x).1) first
    ∙ ap (λ r. r.0 ∷ r.1) row
    ∙ ap (λ x. joined x ∷ []) (sym first)
