-- ===== src/Routing/Prefix.antt =====
-- What writePage puts into its answer: the first messages of the page, as many as fit.
use protected_chat.Prelude.{
  Bool, List, [], ◌∷◌, inl, some, true, Option, ◌≡◌, not, false, ◌⊎◌, ◌++◌, sym, refl, none, String,
  elim_bool, elim_option, if_cases, is_nil, inr, ap, subst, ◌∙◌, ◌||◌,
}
use protected_chat.Json.Writer.{Writer}
use mathlib.Core.List.{append_assoc, append-nil}
use protected_chat.Routing.Page.{
  add_records, candidate, too_large, PageResponse, finish_page, page_response,
}
use protected_chat.Routing.Messages.{DeliveryMessage, delivery_envelope, MessagePageResult}
use protected_chat.Prelude.Int.{ℤ}

-- The id of the last message, or `after` where there is none.
abbrev pub last_id : ℤ → List DeliveryMessage → ℤ
last_id after [] = after
last_id after (d ∷ messages) = last_id d.message.id messages

module _ (w : Writer) where
  -- The values are the envelopes of the messages, in order.
  abbrev pub Envelopes : List DeliveryMessage → List w.Value → Type 0
  Envelopes [] [] = Unit
  Envelopes [] (v ∷ vs) = ⊥
  Envelopes (d ∷ messages) [] = ⊥
  Envelopes (d ∷ messages) (v ∷ vs) = (delivery_envelope w d ≡ some v) × Envelopes messages vs

  module _ (operation code description : String) (through : ℤ) where
    -- What the loop makes of the response `r` and the messages that are left.
    abbrev Added : List DeliveryMessage → PageResponse w → Option (PageResponse w × Bool) → Type 0
    Added messages r none = Unit
    Added messages r (some (r', omitted)) =
        (kept : List DeliveryMessage) × (cut : List DeliveryMessage) × (vs : List w.Value) × (kept
            ++ cut
          ≡ messages)
        × Envelopes kept vs
        × (r'.records ≡ r.records ++ vs)
        × (r'.next_after_message_id ≡ last_id r.next_after_message_id kept)
        × (omitted ≡ not (is_nil cut))
        × ((is_nil cut ≡ true) ⊎ (is_nil r'.records ≡ false))

    more-Added :
        (d : DeliveryMessage) (messages : List DeliveryMessage) (r : PageResponse w) (v : w.Value)
        → delivery_envelope w d ≡ some v
        → (result : Option (PageResponse w × Bool))
        → Added messages (candidate w operation code description through r d v) result
        → Added (d ∷ messages) r result
    more-Added d messages r v e none h = tt
    more-Added d messages r v e (some (r', omitted))
          (kept, cut, vs, whole, envelopes, records, after, agrees, some_kept) =
        (
          d ∷ kept,
          cut,
          v ∷ vs,
          ap (λ l. d ∷ l) whole,
          (e, envelopes),
          records ∙ append_assoc r.records (v ∷ []) vs,
          after,
          agrees,
          some_kept,
        )

    add_records-Added :
        (messages : List DeliveryMessage) (r : PageResponse w)
        → Added messages r (add_records w operation code description through messages r)
    unfolding add_records
    add_records-Added [] r =
        ([], [], [], refl, tt, sym (append-nil r.records), refl, refl, inl refl)
    add_records-Added (d ∷ messages) r =
        elim_option (Added (d ∷ messages) r) (delivery_envelope w d) _ _ (λ _. tt)
          (λ v e.
            elim_option (Added (d ∷ messages) r)
              (too_large w operation code description through
                (candidate w operation code description through r d v))
              _ _ (λ _. tt)
              (λ over _.
                elim_bool (Added (d ∷ messages) r) over _ _
                  (λ _.
                    if_cases (Added (d ∷ messages) r) (is_nil r.records) none (some (r, true))
                      (λ _. tt)
                      (λ some_kept. (
                        [],
                        d ∷ messages,
                        [],
                        refl,
                        tt,
                        sym (append-nil r.records),
                        refl,
                        refl,
                        inr some_kept,
                      )))
                  (λ _. more-Added d messages r v e _ (
                    add_records-Added messages
                      (candidate w operation code description through r d v)))))

    -- The answer holds the envelopes of `kept`, which are the first messages of the page.
    abbrev pub PrefixOf : ℤ → MessagePageResult → List DeliveryMessage → PageResponse w → Type 0
    PrefixOf after page kept r =
        (cut : List DeliveryMessage) × (kept ++ cut ≡ page.messages)
        × Envelopes kept r.records
        × (r.next_after_message_id ≡ last_id after kept)
        × (r.has_more ≡ (page.has_more || not (is_nil cut)))
        × ((is_nil cut ≡ true) ⊎ (is_nil kept ≡ false))

    abbrev Finished : ℤ → MessagePageResult → Option (PageResponse w) → Type 0
    Finished after page none = Unit
    Finished after page (some r) = (kept : List DeliveryMessage) × PrefixOf after page kept r

    abbrev start_response : ℤ → MessagePageResult → PageResponse w
    start_response after page = record {
      records = [];
      next_after_message_id = after;
      has_more = page.has_more;
    }

    kept_some :
        (kept : List DeliveryMessage) (vs : List w.Value)
        → Envelopes kept vs
        → is_nil vs ≡ false
        → is_nil kept ≡ false
    kept_some [] [] e h = h
    kept_some [] (v ∷ vs) e h = absurd e
    kept_some (d ∷ kept) vs e h = refl

    finish_page-Finished :
        (after : ℤ) (page : MessagePageResult) (result : Option (PageResponse w × Bool))
        → Added page.messages (start_response after page) result
        → Finished after page
            (finish_page w operation code description through page.has_more result)
    unfolding finish_page
    finish_page-Finished after page none h = tt
    finish_page-Finished after page (some (r, omitted))
          (kept, cut, vs, whole, envelopes, records, last, agrees, some_kept) =
        elim_option (Finished after page)
          (too_large w operation code description through
            (record r { has_more = page.has_more || omitted }))
          _ _ (λ _. tt)
          (λ over _.
            if_cases (Finished after page) over none
              (some (record r { has_more = page.has_more || omitted })) (λ _. tt)
              (λ _. (
                kept,
                (
                  cut,
                  whole,
                  subst (Envelopes kept) (sym records) envelopes,
                  last,
                  ap (λ o. page.has_more || o) agrees,
                  elim some_kept [
                    | inl all ↦ inl all
                    | inr h ↦ inr (kept_some kept vs envelopes (sym (ap is_nil records) ∙ h))
                  ],
                ),
              )))

    finished :
        (after : ℤ) (page : MessagePageResult) (r : PageResponse w) (o : Option (PageResponse w))
        → o ≡ some r
        → Finished after page o
        → (kept : List DeliveryMessage) × PrefixOf after page kept r
    finished after page r o e f = subst (Finished after page) e f

    -- Where writePage answers with a page: its records are the envelopes of the first messages of the
    -- page, in order; the cursor is the last of them, or the request's where there is none; has_more
    -- says whether messages were left out or the database has more; and a page that is not empty is
    -- not answered by an empty one.
    pub page_response-PrefixOf :
        (after : ℤ) (page : MessagePageResult) (r : PageResponse w)
        → page_response w operation code description through after page ≡ some r
        → (kept : List DeliveryMessage) × PrefixOf after page kept r
    unfolding page_response
    page_response-PrefixOf after page r e = finished after page r _ e (
        finish_page-Finished after page _
          (add_records-Added page.messages (start_response after page)))
