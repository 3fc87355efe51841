-- ===== src/Prelude/Map/Entries.antt =====
-- A property of every entry of a map, and how the updates keep it.
use mathlib.Core.Path.{◌≡◌, subst, sym, ◌∙◌}
use mathlib.Core.Logic.{◌⊎◌, inl, inr}
use mathlib.Core.Option.{Option, none, some}
use native.Mathlib.Omega.{arith}
use protected_chat.Prelude.Tests.{Bool-cases}
use protected_chat.Prelude.Map.{
  Order, Map, find, insert, erase, assign, Sorted, find-insert_self, find-insert_ne,
  find-assign_self, find-assign_ne,
}
use protected_chat.Prelude.Map.Sorts.{find-erase_self, find-erase_ne}

module _ {K : Type 0} ⦃o : Order K⦄ where
  pub key_cases : (i k : K) → (i ≡ k) ⊎ (i ≡ k → ⊥)
  key_cases i k = elim (Bool-cases (o.lt i k)) [
    | inl below ↦ inr (λ e. ground (arith, o.irrefl k))
    | inr not_below ↦ elim (Bool-cases (o.lt k i)) [
      | inl above ↦ inr (λ e. ground (arith, o.irrefl k))
      | inr not_above ↦ inl (o.total i k not_below not_above)
    ]
  ]

module _ {K V : Type 0} ⦃o : Order K⦄ where
  abbrev pub Every {ℓ} : (K → V → Type ℓ) → Map K V → Type ℓ
  Every P m = (k : K) (v : V) → find k m ≡ some v → P k v

  module _ {ℓ} (P : K → V → Type ℓ) where
    at_value : (k : K) (u v : V) → Option.some u ≡ some v → P k u → P k v
    at_value k u v e p = let q : u ≡ v = cc in subst (P k) q p

    pub Every-insert :
        (k : K) (v : V) (m : Map K V) → find k m ≡ none → P k v → Every P m → Every P (insert k v m)
    Every-insert k v m fresh p all i u e = elim (key_cases i k) [
      | inl same ↦
          subst (λ x. P x u) (sym same)
            (at_value k v u
              (sym (find-insert_self k v m fresh)
                ∙ subst (λ x. find x (insert k v m) ≡ some u) same e)
              p)
      | inr other ↦ all i u (sym (find-insert_ne i k v m other) ∙ e)
    ]

    pub Every-assign :
        (k : K) (w v : V) (m : Map K V)
        → find k m ≡ some w
        → P k v
        → Every P m
        → Every P (assign k v m)
    Every-assign k w v m found p all i u e = elim (key_cases i k) [
      | inl same ↦
          subst (λ x. P x u) (sym same)
            (at_value k v u
              (sym (find-assign_self k w v m found)
                ∙ subst (λ x. find x (assign k v m) ≡ some u) same e)
              p)
      | inr other ↦ all i u (sym (find-assign_ne i k v m other) ∙ e)
    ]

    pub Every-erase : (k : K) (m : Map K V) → Sorted m → Every P m → Every P (erase k m)
    Every-erase k m s all i u e = elim (key_cases i k) [
      | inl same ↦ cc (e, same, find-erase_self k m s)
      | inr other ↦ all i u (sym (find-erase_ne i k m s other) ∙ e)
    ]
