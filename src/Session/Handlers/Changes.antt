-- ===== src/Session/Handlers/Changes.antt =====
-- Every step of the handlers keeps the invariant.
use protected_chat.Prelude.{
  ℕ, Bool, inr, false, sym, subst, refl, inl, arith, some, true, ◌≡◌, none, Option-cases, ap,
}
use protected_chat.Prelude.Map.{insert, find, nat_order}
use protected_chat.Session.Registry.{
  remove_if_same, send_json, close, reserve, bytes_order, Sessions, request_stop,
}
use protected_chat.Session.Handlers.Invariant.{
  bears_name, reserves_new, may_be_ready, Inv, leaves, holds_name, leaves_erased,
}
use protected_chat.Session.Handlers.{
  named, reserve_step, with_sessions, name_of, move, Phase, Server, leaving, reserved,
}
use protected_chat.Buffer.Key.{key_order}
use protected_chat.Session.Registry.Entries.{remove_cases}

-- Sessions that may have stopped meanwhile, and are otherwise the same.
pub record Relaxed (w w' : Sessions) : Type 0 where
  pub same_registry : w'.registry ≡ w.registry
  pub same_username : (t : ℕ) → (w'.session t).username ≡ (w.session t).username
  pub same_ready : (t : ℕ) → (w'.session t).ready ≡ (w.session t).ready
  pub still_stopping : (t : ℕ) → (w.session t).stopping ≡ true → (w'.session t).stopping ≡ true

pub with_sessions-Inv :
    (server : Server) (w : Sessions)
    → Inv server
    → Relaxed server.sessions w
    → Inv (with_sessions server w)
with_sessions-Inv server w v r = record {
  sorted = ground (arith, v.sorted, r.same_registry);
  owned = λ k t e. ground (arith, v.owned k t, r.same_registry, r.same_username t);
  kept =
      λ t h going. ground (arith, v.kept t, r.same_registry, r.same_username t, r.still_stopping t);
  admitted_ready = λ t h. ground (arith, v.admitted_ready t, r.same_ready t);
  has_name = λ t h. ground (arith, v.has_name t, r.same_username t);
}

pub request_stop-Relaxed : (s : ℕ) (w : Sessions) → Relaxed w (request_stop s w)
unfolding request_stop
request_stop-Relaxed s w = record {
  same_registry = ground arith;
  same_username = λ t. ground arith;
  same_ready = λ t. ground arith;
  still_stopping = λ t h. ground arith;
}

pub close-Relaxed : (s : ℕ) (w : Sessions) → Relaxed w (close s w)
unfolding close request_stop
close-Relaxed s w = record {
  same_registry = ground arith;
  same_username = λ t. ground arith;
  same_ready = λ t. ground arith;
  still_stopping = λ t h. ground arith;
}

pub send_json-Relaxed :
    (encodes takes : Bool) (s : ℕ) (w : Sessions) → Relaxed w (send_json encodes takes s w).1
unfolding send_json request_stop
send_json-Relaxed encodes takes s w = record {
  same_registry = ground arith;
  same_username = λ t. ground arith;
  same_ready = λ t. ground arith;
  still_stopping = λ t h. ground arith;
}

module _ (server : Server) (s : ℕ) (v : Inv server) where
  reserve_taken :
      (other : ℕ)
      → find (name_of s server) server.sessions.registry ≡ some other
      → reserve_step s server ≡ move s leaving server.sessions server
  unfolding reserve_step reserve
  reserve_taken other found = ground (arith, found)

  reserve_free :
      find (name_of s server) server.sessions.registry ≡ none
      → reserve_step s server
        ≡ move s reserved
            (record server.sessions {
              registry = insert (name_of s server) s server.sessions.registry;
            })
            server
  unfolding reserve_step reserve
  reserve_free missing = ground (arith, missing)

  pub reserves-Inv : server.phase s ≡ named → Inv (reserve_step s server)
  reserves-Inv at = elim (Option-cases (find (name_of s server) server.sessions.registry)) [
    | inl missing ↦ subst Inv (sym (reserve_free missing)) (reserves_new server s v at missing)
    | inr (other, found) ↦ subst Inv (sym (reserve_taken other found)) (
        leaves server s v leaving (λ k e. ground (arith, at, v.owned k s e)) refl refl
          (λ h. ground (arith, at, v.admitted_ready s h)))
  ]

  -- The session leaves, and its entry with it.
  pub departs-Inv :
      (p : Phase)
      → holds_name p ≡ false
      → bears_name p ≡ false
      → ((server.sessions.session s).ready ≡ true → may_be_ready p ≡ true)
      → Inv (move s p (remove_if_same (name_of s server) s server.sessions).1 server)
  departs-Inv p after bare ready = elim (remove_cases (name_of s server) s server.sessions) [
    | inl (same, unheld) ↦
        subst (λ w. Inv (move s p w server)) (sym same)
          (leaves server s v p
            (λ k e.
              unheld
                (ground (arith, e, ap (λ n. find n server.sessions.registry) (v.owned k s e).0)))
            after bare ready)
    | inr (found, gone_now) ↦
        subst (λ w. Inv (move s p w server)) (sym gone_now)
          (leaves_erased server s v (name_of s server) p found after bare ready)
  ]
