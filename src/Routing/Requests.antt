-- ===== src/Routing/Requests.antt =====
-- How durable routing reads a request (serverf/durable_routing.cpp): readNonEmptyString,
-- readPageRequest and the fields that the handlers allow.
use protected_chat.Prelude.{
  ℕ, ◌&&◌, Option, none, some, List, [], ◌∷◌, String, Bytes, ltb, leb, if◌then◌else◌,
}
use protected_chat.Prelude.Int.{ℤ, pos, negsuc, ltb_ℤ, leb_ℤ}
use protected_chat.Buffer.Key.{eq_ℤ}
use protected_chat.Json.{Json, contains_only_fields, read_signed_integer, read_string}

abbrev pub maximum_page_limit : ℕ
maximum_page_limit = 50

abbrev pub default_page_limit : ℕ
default_page_limit = 50

pub record PageRequest : Type 0 where
  pub after_message_id : ℤ
  pub through_message_id : Option ℤ
  pub limit : ℕ

abbrev pub page_request_fields : List String
page_request_fields = "type" ∷ "after_message_id" ∷ "through_message_id" ∷ "limit" ∷ []

-- An integer that is not negative, and one that is positive.
abbrev pub nonnegative : Option ℤ → Option ℤ
nonnegative none = none
nonnegative (some z) = if leb_ℤ (pos 0) z then some z else none

abbrev pub positive : Option ℤ → Option ℤ
positive none = none
positive (some z) = if ltb_ℤ (pos 0) z then some z else none

-- value <= 0 || value > MaximumPageLimit, as std::size_t where it passes
abbrev pub limit_of : Option ℤ → Option ℕ
limit_of none = none
limit_of (some (negsuc n)) = none
limit_of (some (pos n)) = if ltb 0 n && leb n maximum_page_limit then some n else none

module _ (j : Json) where
  -- readNonEmptyString
  unfoldable pub read_non_empty_string : j.Value → String → Option Bytes
  read_non_empty_string request field = elim (read_string j request field) [
    | none ↦ none
    | some value ↦ elim value [ [] ↦ none | x ∷ s ↦ some (x ∷ s) ]
  ]

  unfoldable pub read_after : j.Value → Option ℤ
  read_after request = elim (j.find request "after_message_id") [
    | none ↦ some (pos 0)
    | some found ↦ nonnegative (read_signed_integer j request "after_message_id")
  ]

  -- The watermark of a request after `after`: `some none` where there is none and none is wanted.
  unfoldable pub read_through : j.Value → ℤ → Option (Option ℤ)
  read_through request after = elim (j.find request "through_message_id") [
    | none ↦ if eq_ℤ after (pos 0) then some none else none
    | some found ↦ elim (nonnegative (read_signed_integer j request "through_message_id")) [
      | none ↦ none
      | some value ↦ if ltb_ℤ value after then none else some (some value)
    ]
  ]

  unfoldable pub read_limit : j.Value → Option ℕ
  read_limit request = elim (j.find request "limit") [
    | none ↦ some default_page_limit
    | some found ↦ limit_of (read_signed_integer j request "limit")
  ]

  -- readPageRequest
  unfoldable pub read_page_request : j.Value → Option PageRequest
  read_page_request request =
      if contains_only_fields j request page_request_fields
      then elim (read_after request) [
        | none ↦ none
        | some after ↦ elim (read_through request after) [
          | none ↦ none
          | some through ↦ elim (read_limit request) [
            | none ↦ none
            | some limit ↦
                some
                  (record { after_message_id = after; through_message_id = through; limit = limit })
          ]
        ]
      ]
      else none
