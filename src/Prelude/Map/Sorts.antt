-- ===== src/Prelude/Map/Sorts.antt =====
-- The entries of a map stay in ascending order, and what erasing leaves.
use mathlib.Core.Path.{◌≡◌, refl}
use mathlib.Core.Bool.{true}
use mathlib.Core.List.{[], ◌∷◌}
use mathlib.Core.Option.{none}
use native.Mathlib.Omega.{arith}
use protected_chat.Prelude.Map.{
  Order, Map, find, insert, erase, assign, Ascends, Sorted, Ascends-mono, find_below, find_least,
}

module _ {K V : Type 0} ⦃o : Order K⦄ where
  pub Ascends-Sorted : (k : K) (m : Map K V) → Ascends k m → Sorted m
  Ascends-Sorted k [] a = tt
  Ascends-Sorted k ((j, v) ∷ m) a = a.1

  Ascends-insert :
      (i k : K) (v : V) (m : Map K V) → o.lt i k ≡ true → Ascends i m → Ascends i (insert k v m)
  unfolding insert
  Ascends-insert i k v [] h a = (h, tt)
  Ascends-insert i k v ((j, w) ∷ m) h a = ground (arith, Ascends-insert j k v m)

  pub insert-Sorted : (k : K) (v : V) (m : Map K V) → Sorted m → Sorted (insert k v m)
  unfolding insert
  insert-Sorted k v [] s = tt
  insert-Sorted k v ((j, w) ∷ m) s = ground (arith, Ascends-insert j k v m)

  Ascends-assign : (i k : K) (v : V) (m : Map K V) → Ascends i m → Ascends i (assign k v m)
  unfolding assign
  Ascends-assign i k v [] a = tt
  Ascends-assign i k v ((j, w) ∷ m) a = ground (arith, Ascends-assign j k v m)

  pub assign-Sorted : (k : K) (v : V) (m : Map K V) → Sorted m → Sorted (assign k v m)
  unfolding assign
  assign-Sorted k v [] s = tt
  assign-Sorted k v ((j, w) ∷ m) s = ground (arith, Ascends-assign j k v m)

  Ascends-erase : (i k : K) (m : Map K V) → Ascends i m → Ascends i (erase k m)
  unfolding erase
  Ascends-erase i k [] a = tt
  Ascends-erase i k ((j, w) ∷ m) a = ground (arith, Ascends-erase j k m, Ascends-mono i j m)

  pub erase-Sorted : (k : K) (m : Map K V) → Sorted m → Sorted (erase k m)
  unfolding erase
  erase-Sorted k [] s = tt
  erase-Sorted k ((j, w) ∷ m) s = ground (arith, Ascends-erase j k m, Ascends-Sorted j m)

  pub find-erase_self : (k : K) (m : Map K V) → Sorted m → find k (erase k m) ≡ none
  unfolding find erase
  find-erase_self k [] s = refl
  find-erase_self k ((j, w) ∷ m) s =
      ground (arith, find-erase_self k m, Ascends-Sorted j m s, find_least j m s, o.total k j)

  pub find-erase_ne :
      (i k : K) (m : Map K V) → Sorted m → (i ≡ k → ⊥) → find i (erase k m) ≡ find i m
  unfolding find erase
  find-erase_ne i k [] s h = refl
  find-erase_ne i k ((j, w) ∷ m) s h = ground (
    arith,
    find-erase_ne i k m (Ascends-Sorted j m s) h,
    find_below i j m,
    o.total i j,
    o.total k j,
  )
