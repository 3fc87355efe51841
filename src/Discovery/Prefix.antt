-- ===== src/Discovery/Prefix.antt =====
-- What a page of discovery holds: the first entries of the database's page, as many as fit.
use protected_chat.Prelude.{
  Bool, List, [], ◌∷◌, inl, inr, some, true, Option, ◌≡◌, not, false, ◌⊎◌, ◌++◌, sym, refl, none,
  elim_bool, elim_option, if_cases, is_nil, ap, ◌∙◌, ◌||◌, map,
}
use mathlib.Core.List.{append_assoc, append-nil}
use protected_chat.Prelude.Int.{ℤ}
use protected_chat.Json.Writer.{Writer}
use protected_chat.Discovery.Page.{
  EntryPage, PageKind, add_entries, entry_candidate, response_fits, page_value,
}

module _ (w : Writer) {A : Type 0} (k : PageKind w A) where
  -- The id of the last entry, or `after` where there is none.
  abbrev pub last_entry : ℤ → List A → ℤ
  last_entry after [] = after
  last_entry after (a ∷ entries) = last_entry (k.id a) entries

  -- What the loop makes of the response `r` and the entries that are left.
  abbrev pub Filled : Bool → List A → EntryPage w → Option (EntryPage w) → Type 0
  Filled more entries r none = Unit
  Filled more entries r (some r') =
      (kept : List A) × (cut : List A) × (kept ++ cut ≡ entries)
      × (r'.records ≡ r.records ++ map k.value kept)
      × (r'.following ≡ last_entry r.following kept)
      × ((r.has_more ≡ (not (is_nil entries) || more)) → r'.has_more ≡ (not (is_nil cut) || more))
      × ((is_nil cut ≡ true) ⊎ (is_nil r'.records ≡ false))

  more-Filled :
      (more : Bool) (a : A) (rest : List A) (r : EntryPage w) (result : Option (EntryPage w))
      → Filled more rest (entry_candidate w k more rest r a) result
      → Filled more (a ∷ rest) r result
  more-Filled more a rest r none h = tt
  more-Filled more a rest r (some r') (kept, cut, whole, records, following, flag, some_kept) = (
    a ∷ kept,
    cut,
    ap (λ l. a ∷ l) whole,
    records ∙ append_assoc r.records (k.value a ∷ []) (map k.value kept),
    following,
    (λ _. flag refl),
    some_kept,
  )

  cut-Filled :
      (more : Bool) (a : A) (rest : List A) (r : EntryPage w)
      → is_nil r.records ≡ false
      → Filled more (a ∷ rest) r (some (record r { has_more = true }))
  cut-Filled more a rest r some_kept =
      ([], a ∷ rest, refl, sym (append-nil r.records), refl, (λ _. refl), inr some_kept)

  pub add_entries-Filled :
      (more : Bool) (entries : List A) (r : EntryPage w)
      → Filled more entries r (add_entries w k more entries r)
  unfolding add_entries
  add_entries-Filled more [] r =
      ([], [], refl, sym (append-nil r.records), refl, (λ h. h), inl refl)
  add_entries-Filled more (a ∷ rest) r =
      let candidate = entry_candidate w k more rest r a in
      let ih = more-Filled more a rest r _ (add_entries-Filled more rest candidate) in
      elim_option (Filled more (a ∷ rest) r) (response_fits w (page_value w k candidate)) _ _
        (λ _. tt)
        (λ fits _.
          elim_bool (Filled more (a ∷ rest) r) fits _ _ (λ _. ih)
            (λ _.
              if_cases (Filled more (a ∷ rest) r) (is_nil r.records) none
                (some (record r { has_more = true })) (λ _. tt)
                (λ some_kept. cut-Filled more a rest r some_kept)))
