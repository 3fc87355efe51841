-- ===== src/Agreement/Reads.antt =====
-- The client's tests of a field, on an object that was written.
use protected_chat.Prelude.{
  ℕ, Bool, i64_max, none, ◌&&◌, List, ◌≢◌, refl, arith, String, ◌∷◌, map, [], some, ◌≤◌, ◌≡◌, true,
  bytes_eq, codes, Bytes,
}
use protected_chat.Json.{Json, read_signed_integer, one_of}
use protected_chat.Json.Writer.{Writer, lookup}
use protected_chat.Json.Wire.{Wire, read_signed_integer-object, read_string-object}
use protected_chat.Client.Fields.{
  has_nonnegative, has_nonempty_string, array_field, has_positive, string_is_one_of, has_boolean,
  has_string, has_text, lacks,
}
use protected_chat.Prelude.Int.{ℤ, negsuc, pos}

-- An std::int64_t that is at least `low`, which is not negative.
abbrev pub AtLeast : ℕ → ℤ → Type 0
AtLeast low (pos n) = (low ≤ n) × (n ≤ i64_max)
AtLeast low (negsuc n) = ⊥

pub both : (a b : Bool) → a ≡ true → b ≡ true → (a && b) ≡ true
both a b h k = ground (arith, h, k)

module _ (w : Writer) (j : Json) (wire : Wire w j) (fields : List (String × w.Value))
    (name : String) where
  abbrev pub received : j.Value
  received = wire.parsed (w.object fields)

  pub read_written :
      (low : ℕ) (z : ℤ)
      → lookup name fields ≡ some (w.integer z)
      → AtLeast low z
      → read_signed_integer j received name ≡ some z
  read_written low (pos n) e h = read_signed_integer-object w j wire fields name n e h.1
  read_written low (negsuc n) e h = absurd h

  pub positive_written :
      (z : ℤ)
      → lookup name fields ≡ some (w.integer z)
      → AtLeast 1 z
      → has_positive j received name ≡ true
  unfolding has_positive
  positive_written (pos n) e h = ground (arith, h, read_written 1 (pos n) e h)
  positive_written (negsuc n) e h = absurd h

  pub nonnegative_written :
      (z : ℤ)
      → lookup name fields ≡ some (w.integer z)
      → AtLeast 0 z
      → has_nonnegative j received name ≡ true
  unfolding has_nonnegative
  nonnegative_written (pos n) e h = ground (arith, h, read_written 0 (pos n) e h)
  nonnegative_written (negsuc n) e h = absurd h

  pub text_written :
      (s expected : String)
      → lookup name fields ≡ some (w.text (codes s))
      → has_text j received name expected ≡ bytes_eq (codes s) (codes expected)
  unfolding has_text
  text_written s expected e = rw (read_string-object w j wire fields name (codes s) e) refl

  pub among_written :
      (s : String) (expected : List String)
      → lookup name fields ≡ some (w.text (codes s))
      → string_is_one_of j received name expected ≡ one_of (codes s) expected
  unfolding string_is_one_of
  among_written s expected e = rw (read_string-object w j wire fields name (codes s) e) refl

  pub string_written :
      (s : Bytes) → lookup name fields ≡ some (w.text s) → has_string j received name ≡ true
  unfolding has_string
  string_written s e = rw (read_string-object w j wire fields name s e) refl

  pub nonempty_written :
      (s : Bytes)
      → lookup name fields ≡ some (w.text s)
      → s ≢ []
      → has_nonempty_string j received name ≡ true
  unfolding has_nonempty_string
  nonempty_written [] e h = absurd (h refl)
  nonempty_written (x ∷ s) e h = rw (read_string-object w j wire fields name (x ∷ s) e) refl

  pub lacks_written : lookup name fields ≡ none → lacks j received name ≡ true
  unfolding lacks
  lacks_written e = ground (arith, wire.object_find fields name, e)

  pub boolean_written :
      (b : Bool) → lookup name fields ≡ some (w.boolean b) → has_boolean j received name ≡ true
  unfolding has_boolean
  boolean_written b e = ground (arith, wire.object_find fields name, e, wire.boolean_is_boolean b)

  pub array_written :
      (vs : List w.Value)
      → lookup name fields ≡ some (w.array vs)
      → array_field j received name ≡ some (map wire.parsed vs)
  unfolding array_field
  array_written vs e =
      ground
        (arith, wire.object_find fields name, e, wire.array_is_array vs, wire.array_elements vs)
