-- ===== src/Routing/Narrowing.antt =====
-- What one delivery changes of the sessions: the entry of its recipient and the session under it.
use protected_chat.Prelude.{
  ℕ, ◌≡◌, refl, sym, ◌∙◌, arith, inl, inr, some, Bytes, ==_iff, Bool, not, ◌||◌, ◌==◌, elim_option,
  if_cases,
}
use protected_chat.Prelude.Map.{find, erase, Sorted}
use protected_chat.Prelude.Map.Sorts.{find-erase_self, find-erase_ne, erase-Sorted}
use protected_chat.Prelude.Map.Entries.{key_cases}
use protected_chat.Session.Registry.{
  Sessions, request_stop, bytes_order, send_json, find_ready, remove_if_same,
}

-- `v` comes of `u` by changes to the entry of `name` and to the sessions of that user.
pub record Narrowed (name : Bytes) (u v : Sessions) : Type 0 where
  pub elsewhere : (n : Bytes) → (n ≡ name → ⊥) → find n v.registry ≡ find n u.registry
  pub shrinks : (n : Bytes) (t : ℕ) → find n v.registry ≡ some t → find n u.registry ≡ some t
  pub username : (t : ℕ) → (v.session t).username ≡ (u.session t).username
  pub others : (t : ℕ) → ((u.session t).username ≡ name → ⊥) → v.session t ≡ u.session t
  pub sorted : Sorted v.registry

module _ (name : Bytes) where
  pub Narrowed-refl : (u : Sessions) → Sorted u.registry → Narrowed name u u
  Narrowed-refl u h = record {
    elsewhere = λ n _. refl;
    shrinks = λ n t e. e;
    username = λ t. refl;
    others = λ t _. refl;
    sorted = h;
  }

  pub Narrowed-trans :
      (u v x : Sessions) → Narrowed name u v → Narrowed name v x → Narrowed name u x
  Narrowed-trans u v x h k = record {
    elsewhere = λ n ne. k.elsewhere n ne ∙ h.elsewhere n ne;
    shrinks = λ n t e. h.shrinks n t (k.shrinks n t e);
    username = λ t. k.username t ∙ h.username t;
    others = λ t ne. k.others t (λ e. ne (sym (h.username t) ∙ e)) ∙ h.others t ne;
    sorted = k.sorted;
  }

  shrinks_erased :
      (u : Sessions) (n : Bytes) (t : ℕ)
      → Sorted u.registry
      → find n (erase name u.registry) ≡ some t
      → find n u.registry ≡ some t
  shrinks_erased u n t h e = elim (key_cases n name) [
    | inl same ↦ cc (e, same, find-erase_self name u.registry h)
    | inr other ↦ sym (find-erase_ne n name u.registry h other) ∙ e
  ]

  erased-Narrowed :
      (u : Sessions)
      → Sorted u.registry
      → Narrowed name u (record u { registry = erase name u.registry })
  erased-Narrowed u h = record {
    elsewhere = λ n ne. find-erase_ne n name u.registry h ne;
    shrinks = λ n t e. shrinks_erased u n t h e;
    username = λ t. refl;
    others = λ t _. refl;
    sorted = erase-Sorted name u.registry h;
  }

  pub request_stop-Narrowed :
      (s : ℕ) (u : Sessions)
      → Sorted u.registry
      → (u.session s).username ≡ name
      → Narrowed name u (request_stop s u)
  unfolding request_stop
  request_stop-Narrowed s u h e = record {
    elsewhere = λ n _. ground arith;
    shrinks = λ n t f. ground (arith, f);
    username = λ t. ground arith;
    others = λ t ne. ground (arith, ne, e, ==_iff t s);
    sorted = ground (arith, h);
  }

  -- What an operation leaves of the sessions.
  abbrev Left : {A : Type 0} → Sessions → A × Sessions → Type 0
  Left u r = Narrowed name u r.1

  pub find_ready-Narrowed :
      (u : Sessions) → Sorted u.registry → Narrowed name u (find_ready name u).1
  unfolding find_ready
  find_ready-Narrowed u h =
      elim_option (Left u) (find name u.registry) _ _ (λ _. Narrowed-refl u h)
        (λ s _.
          if_cases (Left u) (not (u.session s).ready) _ _ (λ _. Narrowed-refl u h)
            (λ _.
              if_cases (Left u) (u.session s).stopping _ _ (λ _. erased-Narrowed u h)
                (λ _. Narrowed-refl u h)))

  pub remove_if_same-Narrowed :
      (s : ℕ) (u : Sessions) → Sorted u.registry → Narrowed name u (remove_if_same name s u).1
  unfolding remove_if_same
  remove_if_same-Narrowed s u h =
      elim_option (Left u) (find name u.registry) _ _ (λ _. Narrowed-refl u h)
        (λ t _.
          if_cases (Left u) (not (t == s)) _ _ (λ _. Narrowed-refl u h) (λ _. erased-Narrowed u h))

  pub send_json-Narrowed :
      (encodes takes : Bool) (s : ℕ) (u : Sessions)
      → Sorted u.registry
      → (u.session s).username ≡ name
      → Narrowed name u (send_json encodes takes s u).1
  unfolding send_json
  send_json-Narrowed encodes takes s u h e =
      if_cases (Left u) ((u.session s).stopping || (u.session s).closed) _ _
        (λ _. Narrowed-refl u h)
        (λ _.
          if_cases (Left u) (not encodes) _ _ (λ _. request_stop-Narrowed s u h e)
            (λ _.
              if_cases (Left u) (not takes) _ _ (λ _. request_stop-Narrowed s u h e)
                (λ _. Narrowed-refl u h)))
