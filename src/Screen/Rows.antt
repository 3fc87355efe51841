-- ===== src/Screen/Rows.antt =====
-- clipToWidth and wrapToWidth keep to the width and to the text.
use protected_chat.Prelude.{
  ℕ, not, ◌≡◌, ◌+◌, arith, ◌&&◌, map, List, ◌∷◌, ◌≤◌, ◌<◌, [], refl, ltb, sub64, ◌==◌, u64_mod,
  Bytes, All, ap, true, ◌++◌, inr, inl, false, add64, Bool-cases, subst, sym, if_cases,
}
use protected_chat.Screen.Units.{
  DisplayUnit, joined, total_width, wrap_units, wrap_to_width, units, clip_to_width, clip_units,
}
use protected_chat.Prelude.Int.{ℤ}

-- Rows as groups of units, none wider than the width.
abbrev pub AllNarrow : ℕ → List DisplayUnit → Type 0
AllNarrow width = All (λ u. u.width ≤ width)

abbrev pub ungrouped : List (List DisplayUnit) → List DisplayUnit
ungrouped [] = []
ungrouped (g ∷ groups) = g ++ ungrouped groups

-- From `used` columns on, the rows are the units in groups that fit.
abbrev pub Wrapped : ℕ → ℕ → List DisplayUnit → Bytes × List Bytes → Type 0
Wrapped width used us result =
    (same : List DisplayUnit) × (groups : List (List DisplayUnit)) × (same ++ ungrouped groups ≡ us)
    × (result ≡ (joined same, map joined groups))
    × (used + total_width same ≤ width)
    × All (λ g. total_width g ≤ width) groups

wrap_new :
    (width used : ℕ) (u : DisplayUnit) (us : List DisplayUnit)
    → (not (used == 0) && ltb (sub64 width used) u.width) ≡ true
    → wrap_units width used (u ∷ us)
      ≡ ([], (u.bytes ++ (wrap_units width u.width us).0) ∷ (wrap_units width u.width us).1)
unfolding wrap_units
wrap_new width used u us h = rw (h, wrap_units) refl

pub wrap_same :
    (width used : ℕ) (u : DisplayUnit) (us : List DisplayUnit)
    → (not (used == 0) && ltb (sub64 width used) u.width) ≡ false
    → wrap_units width used (u ∷ us) ≡ (
      u.bytes ++ (wrap_units width (add64 used u.width) us).0,
      (wrap_units width (add64 used u.width) us).1,
    )
unfolding wrap_units
wrap_same width used u us h = rw (h, wrap_units) refl

new_row :
    (width used : ℕ) (u : DisplayUnit) (us : List DisplayUnit) (r : Bytes × List Bytes)
    → used ≤ width
    → Wrapped width u.width us r
    → Wrapped width used (u ∷ us) ([], (u.bytes ++ r.0) ∷ r.1)
new_row width used u us r within (same, groups, whole, result, fits, all) = (
  [],
  (u ∷ same) ∷ groups,
  ap (λ l. u ∷ l) whole,
  ap (λ x. ([], (u.bytes ++ x.0) ∷ x.1)) result,
  omega (arith, within),
  (fits, all),
)

same_row :
    (width used : ℕ) (u : DisplayUnit) (us : List DisplayUnit) (r : Bytes × List Bytes)
    → Wrapped width (used + u.width) us r
    → Wrapped width used (u ∷ us) (u.bytes ++ r.0, r.1)
same_row width used u us r (same, groups, whole, result, fits, all) = (
  u ∷ same,
  groups,
  ap (λ l. u ∷ l) whole,
  ap (λ x. (u.bytes ++ x.0, x.1)) result,
  omega (arith, fits),
  all,
)

wrap_units-Wrapped :
    (width used : ℕ) (us : List DisplayUnit)
    → width < u64_mod
    → used ≤ width
    → AllNarrow width us
    → Wrapped width used us (wrap_units width used us)
unfolding wrap_units
wrap_units-Wrapped width used [] small within narrow = ([], [], refl, refl, omega arith, tt)
wrap_units-Wrapped width used (u ∷ us) small within narrow =
    elim (Bool-cases (not (used == 0) && ltb (sub64 width used) u.width)) [
      | inl new ↦ subst (Wrapped width used (u ∷ us)) (sym (wrap_new width used u us new)) (
          new_row width used u us (wrap_units width u.width us) within
            (wrap_units-Wrapped width u.width us small narrow.0 narrow.1))
      | inr old ↦
          let sum : add64 used u.width ≡ used + u.width = ground (arith, old, narrow.0) in
          subst (Wrapped width used (u ∷ us)) (sym (wrap_same width used u us old)) (
            same_row width used u us (wrap_units width (add64 used u.width) us) (
              subst (λ n. Wrapped width n us (wrap_units width (add64 used u.width) us)) sum
                (wrap_units-Wrapped width (add64 used u.width) us small
                  (ground (arith, old, narrow.0)) narrow.1)))
    ]

pub wrap_above :
    (platform_width : ℕ → ℤ) (text : Bytes) (width : ℕ)
    → 0 < width
    → wrap_to_width platform_width text width
      ≡ (wrap_units width 0 (units platform_width text)).0
        ∷ (wrap_units width 0 (units platform_width text)).1
unfolding wrap_to_width
wrap_above platform_width text width above = ground (arith, above)

-- Rows that are the units of a text, all of them and in order, in groups that fit the width.
abbrev pub Rows : ℕ → List DisplayUnit → List Bytes → Type 0
Rows width us rows =
    (groups : List (List DisplayUnit)) × (ungrouped groups ≡ us)
    × (rows ≡ map joined groups)
    × All (λ g. total_width g ≤ width) groups

Wrapped-Rows :
    (width : ℕ) (us : List DisplayUnit) (r : Bytes × List Bytes)
    → Wrapped width 0 us r
    → Rows width us (r.0 ∷ r.1)
Wrapped-Rows width us r (same, groups, whole, result, fits, all) =
    (same ∷ groups, whole, ap (λ x. x.0 ∷ x.1) result, (omega (arith, fits), all))

-- For a width above zero that no unit of the text exceeds: the rows of wrapToWidth are the text's
-- units, all of them and in order, in groups of which none is wider than the width.
pub wrap_to_width_lem :
    (platform_width : ℕ → ℤ) (text : Bytes) (width : ℕ)
    → 0 < width
    → width < u64_mod
    → AllNarrow width (units platform_width text)
    → Rows width (units platform_width text) (wrap_to_width platform_width text width)
wrap_to_width_lem platform_width text width above small narrow =
    subst (Rows width (units platform_width text))
      (sym (wrap_above platform_width text width above))
      (Wrapped-Rows width (units platform_width text)
        (wrap_units width 0 (units platform_width text))
        (wrap_units-Wrapped width 0 (units platform_width text) small (omega arith) narrow))

-- The first unit that is left out would pass the width.
abbrev pub Stops : ℕ → ℕ → List DisplayUnit → Type 0
Stops width used [] = Unit
Stops width used (u ∷ us) = width < used + u.width

abbrev Clipped : ℕ → ℕ → List DisplayUnit → Bytes → Type 0
Clipped width used us result =
    (kept : List DisplayUnit) × (cut : List DisplayUnit) × (kept ++ cut ≡ us)
    × (result ≡ joined kept)
    × (used + total_width kept ≤ width)
    × Stops width (used + total_width kept) cut

-- The longest run of first units that fits.
abbrev pub Longest : ℕ → List DisplayUnit → Bytes → Type 0
Longest width us result =
    (kept : List DisplayUnit) × (cut : List DisplayUnit) × (kept ++ cut ≡ us)
    × (result ≡ joined kept)
    × (total_width kept ≤ width)
    × Stops width (total_width kept) cut

one_more :
    (width used : ℕ) (u : DisplayUnit) (us : List DisplayUnit) (r : Bytes)
    → Clipped width (used + u.width) us r
    → Clipped width used (u ∷ us) (u.bytes ++ r)
one_more width used u us r (kept, cut, whole, result, fits, halts) =
    let sum : used + u.width + total_width kept ≡ used + (u.width + total_width kept) =
      omega arith in
    (
      u ∷ kept,
      cut,
      ap (λ l. u ∷ l) whole,
      ap (λ x. u.bytes ++ x) result,
      omega (arith, fits),
      subst (λ n. Stops width n cut) sum halts,
    )

clip_units-Clipped :
    (width used : ℕ) (us : List DisplayUnit)
    → width < u64_mod
    → used ≤ width
    → Clipped width used us (clip_units width used us)
unfolding clip_units
clip_units-Clipped width used [] small within = ([], [], refl, refl, omega arith, tt)
clip_units-Clipped width used (u ∷ us) small within =
    if_cases (Clipped width used (u ∷ us)) (ltb (sub64 width used) u.width) []
      (u.bytes ++ clip_units width (add64 used u.width) us)
      (λ over. ([], u ∷ us, refl, refl, omega arith, ground (arith, over)))
      (λ room.
        let sum : add64 used u.width ≡ used + u.width = ground (arith, room) in
        one_more width used u us (clip_units width (add64 used u.width) us) (
          subst (λ n. Clipped width n us (clip_units width (add64 used u.width) us)) sum
            (clip_units-Clipped width (add64 used u.width) us small (ground (arith, room)))))

from_zero :
    (width : ℕ) (us : List DisplayUnit) (r : Bytes) → Clipped width 0 us r → Longest width us r
from_zero width us r (kept, cut, whole, result, fits, halts) =
    let same : 0 + total_width kept ≡ total_width kept = omega arith in
    (kept, cut, whole, result, omega (arith, fits), subst (λ n. Stops width n cut) same halts)

-- The result of clipToWidth is the longest run of the text's first units that is not wider than the
-- width.
pub clip_to_width_lem :
    (platform_width : ℕ → ℤ) (text : Bytes) (width : ℕ)
    → width < u64_mod
    → Longest width (units platform_width text) (clip_to_width platform_width text width)
unfolding clip_to_width
clip_to_width_lem platform_width text width small =
    from_zero width (units platform_width text) _
      (clip_units-Clipped width 0 (units platform_width text) small (omega arith))
