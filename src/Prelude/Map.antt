-- ===== src/Prelude/Map.antt =====
-- std::map over an ordered key, as the list of its entries in ascending order.
pub mod Sorts
pub mod Sizes
pub mod Entries
use Prim.Native.Nat.{ℕ, suc, ◌+◌}
use mathlib.Core.Path.{◌≡◌, refl}
use mathlib.Core.Bool.{Bool, true, false}
use mathlib.Core.List.{List, [], ◌∷◌}
use mathlib.Core.Option.{Option, none, some}
use native.Mathlib.Omega.{arith}
use protected_chat.Prelude.Tests.{if◌then◌else◌, ltb, ltb→lt}

-- A strict total order, by its comparison.
pub record Order (K : Type 0) : Type 0 where
  pub lt : K → K → Bool
  pub irrefl : (a : K) → lt a a ≡ false
  pub trans : (a b c : K) → lt a b ≡ true → lt b c ≡ true → lt a c ≡ true
  pub total : (a b : K) → lt a b ≡ false → lt b a ≡ false → a ≡ b

pub ltb_irrefl : (a : ℕ) → ltb a a ≡ false
ltb_irrefl a = ground arith

pub ltb_trans : (a b c : ℕ) → ltb a b ≡ true → ltb b c ≡ true → ltb a c ≡ true
ltb_trans a b c h k = ground arith

pub ltb_total : (a b : ℕ) → ltb a b ≡ false → ltb b a ≡ false → a ≡ b
ltb_total a b h k = ground arith

instance abbrev pub nat_order : Order ℕ
nat_order = record { lt = ltb; irrefl = ltb_irrefl; trans = ltb_trans; total = ltb_total }

abbrev pub Map : Type 0 → Type 0 → Type 0
Map K V = List (K × V)

module _ {K V : Type 0} ⦃o : Order K⦄ where
  unfoldable pub find : K → Map K V → Option V
  find k [] = none
  find k ((j, v) ∷ m) =
      let rest = find k m in if o.lt k j then none else if o.lt j k then rest else some v

  -- emplace, and insert of a node: an entry that is there stays.
  unfoldable pub insert : K → V → Map K V → Map K V
  insert k v [] = (k, v) ∷ []
  insert k v ((j, w) ∷ m) =
      let rest = insert k v m in
      if o.lt k j then (k, v) ∷ (j, w) ∷ m else if o.lt j k then (j, w) ∷ rest else (j, w) ∷ m

  unfoldable pub erase : K → Map K V → Map K V
  erase k [] = []
  erase k ((j, w) ∷ m) =
      let rest = erase k m in if o.lt k j then (j, w) ∷ m else if o.lt j k then (j, w) ∷ rest else m

  -- A write through the reference that find or at returned.
  unfoldable pub assign : K → V → Map K V → Map K V
  assign k v [] = []
  assign k v ((j, w) ∷ m) =
      let rest = assign k v m in
      if o.lt k j then (j, w) ∷ m else if o.lt j k then (j, w) ∷ rest else (j, v) ∷ m

  -- Every key of the map is above `k`, and they ascend.
  abbrev pub Ascends : K → Map K V → Type 0
  Ascends k [] = Unit
  Ascends k ((j, v) ∷ m) = (o.lt k j ≡ true) × Ascends j m

  abbrev pub Sorted : Map K V → Type 0
  Sorted [] = Unit
  Sorted ((j, v) ∷ m) = Ascends j m

  pub Ascends-mono : (i j : K) (m : Map K V) → o.lt i j ≡ true → Ascends j m → Ascends i m
  Ascends-mono i j [] h a = tt
  Ascends-mono i j ((k, v) ∷ m) h a = (o.trans i j k h a.0, a.1)

  pub find_below : (i j : K) (m : Map K V) → o.lt i j ≡ true → Ascends j m → find i m ≡ none
  unfolding find
  find_below i j [] h a = refl
  find_below i j ((k, v) ∷ m) h a = ground (arith, o.trans i j k)

  pub find_least : (j : K) (m : Map K V) → Ascends j m → find j m ≡ none
  unfolding find
  find_least j [] a = refl
  find_least j ((k, v) ∷ m) a = ground arith

  pub find-insert_self :
      (k : K) (v : V) (m : Map K V) → find k m ≡ none → find k (insert k v m) ≡ some v
  unfolding find insert
  find-insert_self k v [] h = ground (arith, o.irrefl k)
  find-insert_self k v ((j, w) ∷ m) h = ground (arith, o.irrefl k, find-insert_self k v m)

  pub find-insert_ne :
      (i k : K) (v : V) (m : Map K V) → (i ≡ k → ⊥) → find i (insert k v m) ≡ find i m
  unfolding find insert
  find-insert_ne i k v [] h = ground (arith, o.total i k)
  find-insert_ne i k v ((j, w) ∷ m) h =
      ground (arith, o.total i k, o.trans i k j, find-insert_ne i k v m h)

  pub find-assign_self :
      (k : K) (u v : V) (m : Map K V) → find k m ≡ some u → find k (assign k v m) ≡ some v
  unfolding find assign
  find-assign_self k u v [] h = cc
  find-assign_self k u v ((j, w) ∷ m) h = ground (arith, find-assign_self k u v m)

  pub find-assign_ne :
      (i k : K) (v : V) (m : Map K V) → (i ≡ k → ⊥) → find i (assign k v m) ≡ find i m
  unfolding find assign
  find-assign_ne i k v [] h = refl
  find-assign_ne i k v ((j, w) ∷ m) h =
      ground (arith, o.total i k, o.total j k, find-assign_ne i k v m h)

  pub erase-insert : (k : K) (v : V) (m : Map K V) → find k m ≡ none → erase k (insert k v m) ≡ m
  unfolding find insert erase
  erase-insert k v [] h = ground (arith, o.irrefl k)
  erase-insert k v ((j, w) ∷ m) h = ground (arith, o.irrefl k, erase-insert k v m)
