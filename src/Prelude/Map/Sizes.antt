-- ===== src/Prelude/Map/Sizes.antt =====
-- The number of entries of a map, and a sum over its entries.
use Prim.Native.Nat.{ℕ, ◌+◌}
use mathlib.Core.Path.{◌≡◌, refl}
use mathlib.Core.List.{List, [], ◌∷◌}
use mathlib.Core.Option.{none, some}
use native.Mathlib.Omega.{arith}
use protected_chat.Prelude.Lists.{length}
use protected_chat.Prelude.Map.{Order, Map, find, insert, erase, assign}

abbrev pub sum_by : {A : Type 0} → (A → ℕ) → List A → ℕ
sum_by f [] = 0
sum_by f (x ∷ xs) = f x + sum_by f xs

module _ {K V : Type 0} ⦃o : Order K⦄ (f : K × V → ℕ) where
  pub sum_by-insert :
      (k : K) (v : V) (m : Map K V)
      → find k m ≡ none
      → sum_by f (insert k v m) ≡ sum_by f m + f (k, v)
  unfolding find insert
  sum_by-insert k v [] h = omega arith
  sum_by-insert k v ((j, w) ∷ m) h = ground (arith, sum_by-insert k v m)

  pub sum_by-assign :
      (k : K) (u v : V) (m : Map K V)
      → find k m ≡ some u
      → sum_by f (assign k v m) + f (k, u) ≡ sum_by f m + f (k, v)
  unfolding find assign
  sum_by-assign k u v [] h = cc
  sum_by-assign k u v ((j, w) ∷ m) h = ground (arith, sum_by-assign k u v m, o.total k j)

  pub sum_by-erase :
      (k : K) (u : V) (m : Map K V)
      → find k m ≡ some u
      → sum_by f (erase k m) + f (k, u) ≡ sum_by f m
  unfolding find erase
  sum_by-erase k u [] h = cc
  sum_by-erase k u ((j, w) ∷ m) h = ground (arith, sum_by-erase k u m, o.total k j)

module _ {K V : Type 0} ⦃o : Order K⦄ where
  length-sum_by : (m : Map K V) → length m ≡ sum_by (λ _. 1) m
  length-sum_by [] = refl
  length-sum_by ((j, w) ∷ m) = omega (arith, length-sum_by m)

  pub length-insert :
      (k : K) (v : V) (m : Map K V) → find k m ≡ none → length (insert k v m) ≡ length m + 1
  unfolding find insert
  length-insert k v [] h = omega arith
  length-insert k v ((j, w) ∷ m) h = ground (arith, length-insert k v m)

  pub length-assign : (k : K) (v : V) (m : Map K V) → length (assign k v m) ≡ length m
  unfolding assign
  length-assign k v [] = refl
  length-assign k v ((j, w) ∷ m) = ground (arith, length-assign k v m)

  pub length-erase :
      (k : K) (u : V) (m : Map K V) → find k m ≡ some u → length (erase k m) + 1 ≡ length m
  unfolding find erase
  length-erase k u [] h = cc
  length-erase k u ((j, w) ∷ m) h = ground (arith, length-erase k u m)
