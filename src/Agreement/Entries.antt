-- ===== src/Agreement/Entries.antt =====
-- A page of discovery that the server writes, under the client's tests of a page.
use protected_chat.Prelude.{
  ◌≡◌, refl, subst, arith, Bool, true, List, [], ◌∷◌, ◌++◌, map, some, String, length,
  length-append, ◌≤◌, ap, sym, le→leb, bytes_eq_refl, codes,
}
use protected_chat.Prelude.Int.{ℤ, pos, negsuc, ltb_ℤ}
use protected_chat.Json.{Json, read_signed_integer}
use protected_chat.Json.Writer.{Writer, lookup}
use protected_chat.Json.Wire.{Wire, names_allowed, contains_only_fields-object}
use protected_chat.Agreement.Reads.{
  AtLeast, both, text_written, array_written, read_written, boolean_written, string_written,
}
use protected_chat.Agreement.History.{eq_ℤ_refl, AtLeast-leb}
use protected_chat.Client.Discovery.{ascending_entries, cursor_fits, entries_fit, valid_page}
use protected_chat.Discovery.Page.{EntryPage, PageKind, entry_page, page_fields_of, page_value}
use protected_chat.Discovery.Prefix.{last_entry, Filled, add_entries-Filled}
use protected_chat.Client.Invariant.{length-map}

AtLeast-weaken : (z : ℤ) → AtLeast 1 z → AtLeast 0 z
AtLeast-weaken (pos n) h = ground (arith, h)
AtLeast-weaken (negsuc n) h = absurd h

AtLeast-above : (z : ℤ) → AtLeast 1 z → ltb_ℤ (pos 0) z ≡ true
AtLeast-above (pos n) h = ground (arith, h)
AtLeast-above (negsuc n) h = absurd h

module _ (w : Writer) {A : Type 0} (k : PageKind w A) where
  -- The entries have ids that ascend above `previous`.
  abbrev pub AscendsAbove : ℤ → List A → Type 0
  AscendsAbove previous [] = Unit
  AscendsAbove previous (a ∷ entries) =
      AtLeast 1 (k.id a) × (ltb_ℤ previous (k.id a) ≡ true) × AscendsAbove (k.id a) entries

module _ (w : Writer) (j : Json) (wire : Wire w j) {A : Type 0} (k : PageKind w A)
    (valid : j.Value → Bool) (id_field : String) where
  AscendsAbove-prefix :
      (previous : ℤ) (kept cut : List A)
      → AscendsAbove w k previous (kept ++ cut)
      → AscendsAbove w k previous kept
  AscendsAbove-prefix previous [] cut h = tt
  AscendsAbove-prefix previous (a ∷ kept) cut h =
      (h.0, h.1, AscendsAbove-prefix (k.id a) kept cut h.2)

  -- The client takes the entry that was written, with its id.
  abbrev pub EntriesRead : Type 0
  EntriesRead =
      (a : A)
      → AtLeast 1 (k.id a)
      → (valid (wire.parsed (k.value a)) ≡ true)
        × (read_signed_integer j (wire.parsed (k.value a)) id_field ≡ some (k.id a))

  module _ (entries_read : EntriesRead) where
    ascending_entries-kept :
        (previous : ℤ) (kept : List A)
        → AscendsAbove w k previous kept
        → ascending_entries j valid id_field previous (map wire.parsed (map k.value kept))
          ≡ some (last_entry w k previous kept)
    unfolding ascending_entries
    ascending_entries-kept previous [] h = refl
    ascending_entries-kept previous (a ∷ kept) h = ground (
      arith,
      (entries_read a h.0).0,
      (entries_read a h.0).1,
      h.1,
      ascending_entries-kept (k.id a) kept h.2,
    )

    cursor_fits-kept :
        (after : ℤ) (kept : List A)
        → AscendsAbove w k (pos 0) kept
        → cursor_fits j
            (some (last_entry w k after kept))
            (map wire.parsed (map k.value kept))
            (ascending_entries j valid id_field (pos 0) (map wire.parsed (map k.value kept)))
          ≡ true
    cursor_fits-kept after [] h = rw (ascending_entries-kept (pos 0) [] h) refl
    cursor_fits-kept after (a ∷ kept) h =
        rw (ascending_entries-kept (pos 0) (a ∷ kept) h) (eq_ℤ_refl (last_entry w k (k.id a) kept))

  last_entry-AtLeast :
      (after : ℤ) (kept : List A)
      → AtLeast 0 after
      → AscendsAbove w k after kept
      → AtLeast 0 (last_entry w k after kept)
  last_entry-AtLeast after [] h a = h
  last_entry-AtLeast after (e ∷ kept) h a =
      last_entry-AtLeast (k.id e) kept (AtLeast-weaken (k.id e) a.0) a.2

  AscendsAbove-zero :
      (after : ℤ) (kept : List A) → AscendsAbove w k after kept → AscendsAbove w k (pos 0) kept
  AscendsAbove-zero after [] a = tt
  AscendsAbove-zero after (e ∷ kept) a = (a.0, AtLeast-above (k.id e) a.0, a.2)

  -- A page that the server made of entries whose ids ascend above the cursor.
  entry_page-kept :
      (after : ℤ) (entries : List A) (more : Bool) (r : EntryPage w)
      → entry_page w k after entries more ≡ some r
      → (kept : List A) × (cut : List A) × (kept ++ cut ≡ entries)
        × (r.records ≡ map k.value kept)
        × (r.following ≡ last_entry w k after kept)
  unfolding entry_page
  entry_page-kept after entries more r e =
      let start : EntryPage w = record { records = []; following = after; has_more = more } in
      let facts =
        subst (Filled w k more entries start) e (add_entries-Filled w k more entries start) in
      (facts.0, facts.1, facts.2, facts.3, facts.4)

  -- What the client finds under the names of a page's fields.
  abbrev pub Fields : EntryPage w → List String → Type 0
  Fields r allowed =
      (names_allowed (page_fields_of w k r) allowed ≡ true)
      × (lookup "has_more" (page_fields_of w k r) ≡ some (w.boolean r.has_more))
      × (lookup k.entries_field (page_fields_of w k r) ≡ some (w.array r.records))
      × (lookup k.cursor_field (page_fields_of w k r) ≡ some (w.integer r.following))

  entries_fit-kept :
      EntriesRead
      → (after : ℤ) (entries : List A) (more : Bool) (r : EntryPage w) → AtLeast 0 after
      → AscendsAbove w k after entries
      → length entries ≤ 100
      → entry_page w k after entries more ≡ some r
      → (AtLeast 0 r.following)
        × (entries_fit j valid id_field (some r.following) (some (map wire.parsed r.records))
            ≡ true)
  entries_fit-kept entries_read after entries more r low ascends short e =
      let facts = entry_page-kept after entries more r e in
      let kept = facts.0 in
      let kept_ascends =
        AscendsAbove-prefix after kept facts.1
          (subst (AscendsAbove w k after) (sym facts.2) ascends) in
      let following = last_entry-AtLeast after kept low kept_ascends in
      let fits =
        cursor_fits-kept entries_read after kept (AscendsAbove-zero after kept kept_ascends) in
      let small : length (map wire.parsed (map k.value kept)) ≤ 100 = omega (
        arith,
        short,
        length-map k.value kept,
        length-map wire.parsed (map k.value kept),
        length-append kept facts.1,
        ap length facts.2,
      ) in
      (
        subst (AtLeast 0) (sym facts.4) following,
        rw (facts.3, facts.4)
            (both _ _
              (both _ _ (le→leb _ _ small) (AtLeast-leb (last_entry w k after kept) following))
              fits),
      )

  pub valid_page-entry_page :
      EntriesRead
      → (after : ℤ) (entries : List A) (more : Bool) (r : EntryPage w) (allowed : List String)
      → AtLeast 0 after
      → AscendsAbove w k after entries
      → length entries ≤ 100
      → entry_page w k after entries more ≡ some r
      → Fields r allowed
      → lookup "message" (page_fields_of w k r) ≡ some (w.text (codes k.description))
      → valid_page j k.operation k.code allowed k.entries_field valid id_field k.cursor_field
          (wire.parsed (page_value w k r))
        ≡ true
  unfolding valid_page
  valid_page-entry_page entries_read after entries more r allowed low ascends short e found
        described =
      let fields = page_fields_of w k r in
      let fits = entries_fit-kept entries_read after entries more r low ascends short e in
      ground (
        arith,
        contains_only_fields-object w j wire fields allowed found.0,
        text_written w j wire fields "status" "SUCCESS" "SUCCESS" refl,
        bytes_eq_refl (codes "SUCCESS"),
        text_written w j wire fields "operation" k.operation k.operation refl,
        bytes_eq_refl (codes k.operation),
        text_written w j wire fields "code" k.code k.code refl,
        bytes_eq_refl (codes k.code),
        string_written w j wire fields "message" (codes k.description) described,
        boolean_written w j wire fields "has_more" r.has_more found.1,
        array_written w j wire fields k.entries_field r.records found.2,
        read_written w j wire fields k.cursor_field 0 r.following found.3 fits.0,
        fits.1,
      )
