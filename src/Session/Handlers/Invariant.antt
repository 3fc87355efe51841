-- ===== src/Session/Handlers/Invariant.antt =====
-- What holds of the registry and the handlers' phases, and the changes that keep it.
use protected_chat.Prelude.{
  ℕ, Bool, ◌∙◌, none, true, some, arith, false, ◌≡◌, Bytes, inl, sym, ap, inr,
}
use protected_chat.Prelude.Map.{
  Sorted, find-insert_self, Map, erase, nat_order, find-insert_ne, find, insert,
}
use protected_chat.Prelude.Map.Entries.{Every-insert, Every-erase, Every, key_cases}
use protected_chat.Session.Handlers.{
  connected, answered, admitted, gone, move, name_of, Server, Phase, leaving, with_sessions,
  reserved, named,
}
use protected_chat.Prelude.Map.Sorts.{insert-Sorted, erase-Sorted, find-erase_self, find-erase_ne}
use protected_chat.Session.Registry.{set_authenticated_username, bytes_order}
use protected_chat.Session.Frames.{is_empty}
use protected_chat.Buffer.Key.{key_order}

-- The phases in which a session stands in the registry under its name.
abbrev pub holds_name : Phase → Bool
holds_name connected = false
holds_name named = false
holds_name reserved = true
holds_name answered = true
holds_name admitted = true
holds_name leaving = false
holds_name gone = false

abbrev pub bears_name : Phase → Bool
bears_name connected = false
bears_name named = true
bears_name reserved = true
bears_name answered = true
bears_name admitted = true
bears_name leaving = false
bears_name gone = false

abbrev pub may_be_ready : Phase → Bool
may_be_ready connected = false
may_be_ready named = false
may_be_ready reserved = false
may_be_ready answered = false
may_be_ready admitted = true
may_be_ready leaving = false
may_be_ready gone = true

abbrev pub Owns : Server → Bytes → ℕ → Type 0
Owns server name s = (name_of s server ≡ name) × (holds_name (server.phase s) ≡ true)

pub record Inv (server : Server) : Type 0 where
  pub sorted : Sorted server.sessions.registry
  -- who is registered bears the name, and is in a phase for it
  pub owned : Every (Owns server) server.sessions.registry
  -- who is in such a phase and is not stopping is registered
  pub kept :
      (s : ℕ)
      → holds_name (server.phase s) ≡ true
      → (server.sessions.session s).stopping ≡ false
      → find (name_of s server) server.sessions.registry ≡ some s
  pub admitted_ready :
      (s : ℕ) → (server.sessions.session s).ready ≡ true → may_be_ready (server.phase s) ≡ true
  pub has_name : (s : ℕ) → bears_name (server.phase s) ≡ true → is_empty (name_of s server) ≡ false

pub names-Inv :
    (server : Server) (s : ℕ) (name : Bytes)
    → Inv server
    → server.phase s ≡ connected
    → is_empty name ≡ false
    → Inv (move s named (set_authenticated_username s name server.sessions) server)
unfolding set_authenticated_username
names-Inv server s name v at full = record {
  sorted = v.sorted;
  owned = λ k t e. ground (arith, v.owned k t e, at);
  kept = λ t h going. ground (arith, v.kept t);
  admitted_ready = λ t h. ground (arith, v.admitted_ready t);
  has_name = λ t h. ground (arith, v.has_name t);
}

module _ (server : Server) (s : ℕ) (v : Inv server) where
  abbrev pub own_name : Bytes
  own_name = name_of s server

  abbrev pub entries : Map Bytes ℕ
  entries = server.sessions.registry

  -- A session without the name keeps its entry when the name gets one.
  kept_beside :
      (t : ℕ)
      → find own_name entries ≡ none
      → holds_name (server.phase t) ≡ true
      → (server.sessions.session t).stopping ≡ false
      → find (name_of t server) (insert own_name s entries) ≡ some t
  kept_beside t missing h going =
      let own = v.kept t h going in
      find-insert_ne (name_of t server) own_name s entries (λ e. cc (missing, own, e)) ∙ own

  pub reserves_new :
      server.phase s ≡ named
      → find own_name entries ≡ none
      → Inv
          (move s reserved (record server.sessions { registry = insert own_name s entries }) server)
  reserves_new at missing = record {
    sorted = insert-Sorted own_name s entries v.sorted;
    owned =
        Every-insert (Owns (move s reserved server.sessions server)) own_name s entries missing
          (ground (arith)) (λ k t e. ground (arith, v.owned k t e));
    kept = λ t h going.
        ground (arith, kept_beside t missing, find-insert_self own_name s entries missing);
    admitted_ready = λ t h. ground (arith, v.admitted_ready t, at);
    has_name = λ t h. ground (arith, v.has_name t, at);
  }

  -- The phase alone changes, of a session that is not registered.
  pub leaves :
      (p : Phase)
      → ((k : Bytes) → find k entries ≡ some s → ⊥)
      → holds_name p ≡ false
      → bears_name p ≡ false
      → ((server.sessions.session s).ready ≡ true → may_be_ready p ≡ true)
      → Inv (move s p server.sessions server)
  leaves p unheld after bare ready = record {
    sorted = v.sorted;
    owned = λ k t e. ground (arith, v.owned k t e, unheld k);
    kept = λ t h going. ground (arith, v.kept t);
    admitted_ready = λ t h. ground (arith, v.admitted_ready t, ready);
    has_name = λ t h. ground (arith, v.has_name t);
  }

  kept_erased :
      (name : Bytes) (t : ℕ)
      → find name entries ≡ some s
      → (t ≡ s → ⊥)
      → find (name_of t server) entries ≡ some t
      → find (name_of t server) (erase name entries) ≡ some t
  kept_erased name t found other own =
      find-erase_ne (name_of t server) name entries v.sorted
        (λ e. other (ground (arith, own, found, ap (λ k. find k entries) e)))
      ∙ own

  owned_erased :
      (name : Bytes) (p : Phase)
      → find name entries ≡ some s
      → Every
          (Owns (move s p (record server.sessions { registry = erase name entries }) server))
          (erase name entries)
  owned_erased name p found k t e = elim (key_cases k name) [
    | inl same ↦ cc (e, same, find-erase_self name entries v.sorted)
    | inr other ↦
        let before = v.owned k t (sym (find-erase_ne k name entries v.sorted other) ∙ e) in
        (before.0, ground (arith, before, v.owned name s found, other))
  ]

  -- The session loses its entry and its phase.
  pub leaves_erased :
      (name : Bytes) (p : Phase)
      → find name entries ≡ some s
      → holds_name p ≡ false
      → bears_name p ≡ false
      → ((server.sessions.session s).ready ≡ true → may_be_ready p ≡ true)
      → Inv (move s p (record server.sessions { registry = erase name entries }) server)
  leaves_erased name p found after bare ready = record {
    sorted = erase-Sorted name entries v.sorted;
    owned = owned_erased name p found;
    kept = λ t h going.
        (let other : t ≡ s → ⊥ = (λ e. ground (arith, e, h, after)) in
          kept_erased name t found other (v.kept t (ground (arith, other, h)) going));
    admitted_ready = λ t h. ground (arith, v.admitted_ready t, ready);
    has_name = λ t h. ground (arith, v.has_name t);
  }

  -- A stopping session loses its entry.
  pub erased :
      (name : Bytes)
      → find name entries ≡ some s
      → (server.sessions.session s).stopping ≡ true
      → Inv (with_sessions server (record server.sessions { registry = erase name entries }))
  erased name found stop = record {
    sorted = erase-Sorted name entries v.sorted;
    owned = Every-erase (Owns server) name entries v.sorted v.owned;
    kept = λ t h going.
        kept_erased name t found (λ e. ground (arith, e, stop, going)) (v.kept t h going);
    admitted_ready = v.admitted_ready;
    has_name = v.has_name;
  }
