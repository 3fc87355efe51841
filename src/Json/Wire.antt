-- ===== src/Json/Wire.antt =====
-- What one side reads of the JSON that the other side writes: the documented behaviour of dump and
-- parse of nlohmann::json, as an interface.
use protected_chat.Prelude.{
  ℕ, Bool, codes, Bytes, map, ◌⊎◌, String, sym, subst, inl, ◌≤◌, ◌∷◌, none, some, true, Option, [],
  refl, inr, ◌&&◌, ◌≡◌, List, arith, i64_max, All,
}
use protected_chat.Json.{
  Json, contains_only_fields, read_signed_integer, read_string, one_of, all_allowed,
}
use protected_chat.Json.Writer.{lookup, Writer}
use protected_chat.Prelude.Int.{pos}

-- The bytes are those of one of the fields' names.
abbrev pub NameOf : {A : Type 0} → List (String × A) → Bytes → Type 0
NameOf [] key = ⊥
NameOf ((name, v) ∷ fields) key = (key ≡ codes name) ⊎ NameOf fields key

abbrev pub option_map : {A B : Type 0} → (A → B) → Option A → Option B
option_map f none = none
option_map f (some a) = some (f a)

pub record Wire (w : Writer) (j : Json) : Type 0 where
  -- the value that json::parse makes of a value's dump
  pub parsed : w.Value → j.Value
  pub object_is_object :
      (fields : List (String × w.Value)) → j.is_object (parsed (w.object fields)) ≡ true
  pub object_find :
      (fields : List (String × w.Value)) (name : String)
      → j.find (parsed (w.object fields)) name ≡ option_map parsed (lookup name fields)
  -- items() goes through the fields in the order of their names
  pub object_keys :
      (fields : List (String × w.Value)) → All (NameOf fields) (j.keys (parsed (w.object fields)))
  pub array_is_array : (vs : List w.Value) → j.is_array (parsed (w.array vs)) ≡ true
  pub array_elements : (vs : List w.Value) → j.elements (parsed (w.array vs)) ≡ map parsed vs
  pub text_is_string : (s : Bytes) → j.is_string (parsed (w.text s)) ≡ true
  pub text_get_string : (s : Bytes) → j.get_string (parsed (w.text s)) ≡ s
  pub boolean_is_boolean : (b : Bool) → j.is_boolean (parsed (w.boolean b)) ≡ true
  pub boolean_get_boolean : (b : Bool) → j.get_boolean (parsed (w.boolean b)) ≡ b
  -- a number without a sign is read as an unsigned one
  pub natural_is_unsigned : (n : ℕ) → j.is_number_unsigned (parsed (w.integer (pos n))) ≡ true
  pub natural_get_uint64 : (n : ℕ) → j.get_uint64 (parsed (w.integer (pos n))) ≡ n

-- Every name is one of those allowed.
unfoldable pub names_allowed : {A : Type 0} → List (String × A) → List String → Bool
names_allowed [] allowed = true
names_allowed ((name, v) ∷ fields) allowed =
    one_of (codes name) allowed && names_allowed fields allowed

NameOf-allowed :
    {A : Type 0} (fields : List (String × A)) (allowed : List String) (key : Bytes)
    → names_allowed fields allowed ≡ true
    → NameOf fields key
    → one_of key allowed ≡ true
unfolding names_allowed
NameOf-allowed [] allowed key h n = absurd n
NameOf-allowed ((name, v) ∷ fields) allowed key h (inl e) =
    subst (λ k. one_of k allowed ≡ true) (sym e) (ground (arith, h))
NameOf-allowed ((name, v) ∷ fields) allowed key h (inr n) =
    NameOf-allowed fields allowed key (ground (arith, h)) n

allowed_keys :
    {A : Type 0} (fields : List (String × A)) (allowed : List String) (keys : List Bytes)
    → names_allowed fields allowed ≡ true
    → All (NameOf fields) keys
    → all_allowed keys allowed ≡ true
allowed_keys fields allowed [] h all = refl
allowed_keys fields allowed (key ∷ keys) h all =
    ground
      (arith, NameOf-allowed fields allowed key h all.0, allowed_keys fields allowed keys h all.1)

module _ (w : Writer) (j : Json) (wire : Wire w j) where
  pub contains_only_fields-object :
      (fields : List (String × w.Value)) (allowed : List String)
      → names_allowed fields allowed ≡ true
      → contains_only_fields j (wire.parsed (w.object fields)) allowed ≡ true
  unfolding contains_only_fields
  contains_only_fields-object fields allowed h =
      allowed_keys fields allowed (j.keys (wire.parsed (w.object fields))) h
        (wire.object_keys fields)

  -- The readers of a field that was written.
  pub read_signed_integer-object :
      (fields : List (String × w.Value)) (name : String) (n : ℕ)
      → lookup name fields ≡ some (w.integer (pos n))
      → n ≤ i64_max
      → read_signed_integer j (wire.parsed (w.object fields)) name ≡ some (pos n)
  unfolding read_signed_integer
  read_signed_integer-object fields name n e small = ground (
    arith,
    wire.object_find fields name,
    e,
    wire.natural_is_unsigned n,
    wire.natural_get_uint64 n,
  )

  pub read_string-object :
      (fields : List (String × w.Value)) (name : String) (s : Bytes)
      → lookup name fields ≡ some (w.text s)
      → read_string j (wire.parsed (w.object fields)) name ≡ some s
  unfolding read_string
  read_string-object fields name s e =
      ground (arith, wire.object_find fields name, e, wire.text_is_string s, wire.text_get_string s)
