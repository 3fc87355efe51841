-- ===== src/Prelude/Tests.antt =====
-- Boolean tests on the native numbers, the conditional, and the wrap-around of 64-bit words.
use Prim.Native.Nat.{ℕ, ◌+◌, ◌-◌, ◌%◌, ◌^◌, ◌≤◌, ◌<◌, compare, Ordering}
use mathlib.Core.Path.{◌≡◌, refl}
use mathlib.Core.Logic.{◌↔◌, ◌⊎◌, inl, inr}
use mathlib.Core.Bool.{Bool, true, false}
use mathlib.Core.Option.{Option, none, some}
use mathlib.Core.List.{List, [], ◌∷◌}
use native.Mathlib.Omega.{arith}

abbrev pub ltb : ℕ → ℕ → Bool
ltb a b = elim (compare a b) [ Ordering.lt ↦ true | _ ↦ false ]

abbrev pub leb : ℕ → ℕ → Bool
leb a b = elim (compare a b) [ Ordering.gt ↦ false | _ ↦ true ]

infix 50 ◌==◌
abbrev pub ◌==◌ : ℕ → ℕ → Bool
a == b = elim (compare a b) [ Ordering.eq ↦ true | _ ↦ false ]

infix 1 if◌then◌else◌
abbrev pub if◌then◌else◌ {ℓ} : {A : Type ℓ} → Bool → A → A → A
if true then x else y = x
if false then x else y = y

pub ltb→lt : (a b : ℕ) → ltb a b ≡ true → a < b
ltb→lt a b h = ground arith

pub lt→ltb : (a b : ℕ) → a < b → ltb a b ≡ true
lt→ltb a b h = ground arith

pub leb→le : (a b : ℕ) → leb a b ≡ true → a ≤ b
leb→le a b h = ground arith

pub le→leb : (a b : ℕ) → a ≤ b → leb a b ≡ true
le→leb a b h = ground arith

pub ==_iff : (a b : ℕ) → ((a == b) ≡ true) ↔ (a ≡ b)
==_iff a b = ground arith

pub ruleset tests = (arith, ltb→lt, lt→ltb, leb→le)

-- To split on a computed value and keep the equation.
pub Bool-cases : (b : Bool) → (b ≡ true) ⊎ (b ≡ false)
Bool-cases true = inl refl
Bool-cases false = inr refl

pub Option-cases {ℓ} : {A : Type ℓ} (o : Option A) → (o ≡ none) ⊎ ((a : A) × (o ≡ some a))
Option-cases none = inl refl
Option-cases (some a) = inr (a, refl)

-- std::uint64_t and std::size_t.
abbrev pub u64_mod : ℕ
u64_mod = 2 ^ 64

abbrev pub u64_max : ℕ
u64_max = u64_mod - 1

-- std::numeric_limits<std::int64_t>::max()
abbrev pub i64_max : ℕ
i64_max = 2 ^ 63 - 1

abbrev pub add64 : ℕ → ℕ → ℕ
add64 a b = (a + b) % u64_mod

abbrev pub sub64 : ℕ → ℕ → ℕ
sub64 a b = (a + u64_mod - b) % u64_mod

-- A chain of steps each of which may find nothing.
infixl 5 ◌>>=◌
abbrev pub ◌>>=◌ {ℓ κ} : {A : Type ℓ} {B : Type κ} → Option A → (A → Option B) → Option B
none >>= f = none
some a >>= f = f a

-- The two branches of a conditional, under any predicate.
pub if_cases {ℓ κ} :
    {A : Type ℓ} (P : A → Type κ) (t : Bool) (x y : A)
    → (t ≡ true → P x)
    → (t ≡ false → P y)
    → P (if t then x else y)
if_cases P true x y yes_case no_case = yes_case refl
if_cases P false x y yes_case no_case = no_case refl

-- The cases of an `elim` on a computed value, under any predicate.
pub elim_option {ℓ κ μ} :
    {A : Type ℓ} {B : Type κ} (P : B → Type μ) (o : Option A) (f : B) (g : A → B)
    → (o ≡ none → P f)
    → ((a : A) → o ≡ some a → P (g a))
    → P (elim o [ none ↦ f | some a ↦ g a ])
elim_option P none f g h k = h refl
elim_option P (some a) f g h k = k a refl

pub elim_bool {κ μ} :
    {B : Type κ} (P : B → Type μ) (b : Bool) (f g : B)
    → (b ≡ true → P f)
    → (b ≡ false → P g)
    → P (elim b [ true ↦ f | false ↦ g ])
elim_bool P true f g h k = h refl
elim_bool P false f g h k = k refl

pub elim_list {ℓ κ μ} :
    {A : Type ℓ} {B : Type κ} (P : B → Type μ) (l : List A) (f : B) (g : A → List A → B)
    → (l ≡ [] → P f)
    → ((a : A) (r : List A) → l ≡ a ∷ r → P (g a r))
    → P (elim l [ [] ↦ f | a ∷ r ↦ g a r ])
elim_list P [] f g h k = h refl
elim_list P (a ∷ r) f g h k = k a r refl
