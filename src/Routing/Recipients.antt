-- ===== src/Routing/Recipients.antt =====
-- Whom deliverCommittedMessage reaches.
use protected_chat.Prelude.{
  ℕ, ◌≡◌, sym, ◌∙◌, arith, Bool, true, false, not, ◌&&◌, inl, inr, Option, none, some, List, [],
  ◌∷◌, ◌++◌, Bytes, if◌then◌else◌, Option-cases,
}
use protected_chat.Prelude.Map.{find, Sorted}
use protected_chat.Json.Writer.{Writer}
use protected_chat.Session.Registry.{Sessions, find_ready, bytes_order}
use protected_chat.Routing.Narrowing.{Narrowed}
use protected_chat.Routing.Database.{RecipientRoute}
use protected_chat.Routing.Deliveries.{is_given}

-- Every session that the registry holds is of the user under whose name it stands.
abbrev pub OwnNames : Sessions → Type 0
OwnNames u =
    Sorted u.registry
    × ((n : Bytes) (s : ℕ) → find n u.registry ≡ some s → (u.session s).username ≡ n)

module _ (w : Writer) (takes : ℕ → w.Value → Bool) (envelope : w.Value) where
  -- A session that is ready and whose socket takes the envelope.
  abbrev pub reads : Sessions → ℕ → Bool
  reads u s =
      (u.session s).ready
      && not (u.session s).stopping
      && not (u.session s).closed
      && is_given (w.dump_size envelope)
      && takes s envelope

  -- The session under which a user can be reached.
  unfoldable pub reached : Sessions → Bytes → Option ℕ
  reached u name = elim (find name u.registry) [
    | none ↦ none
    | some s ↦ if reads u s then some s else none
  ]

  abbrev pub sent_to : Option ℕ → List (ℕ × w.Value)
  sent_to none = []
  sent_to (some s) = (s, envelope) ∷ []

  -- What the recipients are sent, by the sessions as they are before the delivery.
  unfoldable pub deliveries : Sessions → List RecipientRoute → List (ℕ × w.Value)
  deliveries u [] = []
  deliveries u (route ∷ routes) = sent_to (reached u route.username) ++ deliveries u routes

  pub reached-Narrowed :
      (name other : Bytes) (u v : Sessions)
      → OwnNames u
      → Narrowed name u v
      → (other ≡ name → ⊥)
      → reached v other ≡ reached u other
  unfolding reached
  reached-Narrowed name other u v own h ne = elim (Option-cases (find other u.registry)) [
    | inl absent ↦ ground (arith, h.elsewhere other ne, absent)
    | inr (s, found) ↦
        ground
          (arith, h.elsewhere other ne, found, h.others s (λ e. ne (sym (own.1 other s found) ∙ e)))
  ]

  pub Narrowed-OwnNames :
      (name : Bytes) (u v : Sessions) → OwnNames u → Narrowed name u v → OwnNames v
  Narrowed-OwnNames name u v own h = (h.sorted, λ n s e. h.username s ∙ own.1 n s (h.shrinks n s e))

  pub find_ready-some :
      (name : Bytes) (u : Sessions) (t : ℕ)
      → (find_ready name u).0 ≡ some t
      → (find name u.registry ≡ some t)
        × ((find_ready name u).1 ≡ u)
        × ((u.session t).ready ≡ true)
        × ((u.session t).stopping ≡ false)
  unfolding find_ready
  find_ready-some name u t e = ground arith

  pub find_ready-none :
      (name : Bytes) (u : Sessions) → (find_ready name u).0 ≡ none → reached u name ≡ none
  unfolding find_ready reached
  find_ready-none name u e = ground arith
