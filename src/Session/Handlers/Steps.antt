-- ===== src/Session/Handlers/Steps.antt =====
-- The steps that answer, publish, look up and clean up keep the invariant.
use protected_chat.Prelude.{
  ℕ, Bool, sym, arith, ◌≡◌, inr, true, refl, subst, false, inl, if◌then◌else◌, if_cases, Bytes,
}
use protected_chat.Session.Registry.Entries.{
  left_of-Sorted, find-left_of, publish_ready_cases, find_ready_cases, remove_cases,
}
use protected_chat.Session.Handlers.{
  leaving, name_of, Server, reserved, admitted, publish_step, answer_step, move, is_written,
  cleanup_session, answered, with_sessions, Phase, gone,
}
use protected_chat.Session.Handlers.Invariant.{
  erased, may_be_ready, Inv, bears_name, leaves, holds_name,
}
use protected_chat.Session.Handlers.Changes.{
  request_stop-Relaxed, with_sessions-Inv, send_json-Relaxed, departs-Inv, close-Relaxed,
}
use protected_chat.Session.Registry.{
  send_json, remove_if_same, request_stop, snapshot_ready_except, mark_ready, find_ready, close,
}
use protected_chat.Session.Frames.{is_empty}

pub holds_bears : (p : Phase) → holds_name p ≡ true → bears_name p ≡ true
holds_bears p h = ground (arith, h)

module _ (server : Server) (s : ℕ) (v : Inv server) where
  answered-Inv : server.phase s ≡ reserved → Inv (move s answered server.sessions server)
  answered-Inv at = record {
    sorted = v.sorted;
    owned = λ k t e. ground (arith, v.owned k t e);
    kept = λ t h going. ground (arith, v.kept t, at);
    admitted_ready = λ t h. ground (arith, v.admitted_ready t, at);
    has_name = λ t h. ground (arith, v.has_name t, at);
  }

  admitted-Inv :
      server.phase s ≡ answered
      → (server.sessions.session s).stopping ≡ false
      → Inv (move s admitted (mark_ready s server.sessions) server)
  unfolding mark_ready
  admitted-Inv at going = record {
    sorted = v.sorted;
    owned = λ k t e. ground (arith, v.owned k t e);
    kept = λ t h going'. ground (arith, v.kept t, at);
    admitted_ready = λ t h. ground (arith, v.admitted_ready t);
    has_name = λ t h. ground (arith, v.has_name t, at);
  }

  not_ready :
      may_be_ready (server.phase s) ≡ false
      → (server.sessions.session s).ready ≡ true
      → may_be_ready leaving ≡ true
  not_ready unready h = ground (arith, v.admitted_ready s h)

  pub stops-Inv : Inv (with_sessions server (request_stop s server.sessions))
  stops-Inv =
      with_sessions-Inv server (request_stop s server.sessions) v
        (request_stop-Relaxed s server.sessions)

  pub sends-Inv :
      (encodes takes : Bool)
      → Inv (with_sessions server (send_json encodes takes s server.sessions).1)
  sends-Inv encodes takes =
      with_sessions-Inv server (send_json encodes takes s server.sessions).1 v
        (send_json-Relaxed encodes takes s server.sessions)

  pub drops-Inv :
      (name : Bytes)
      → (server.sessions.session s).stopping ≡ true
      → Inv (with_sessions server (remove_if_same name s server.sessions).1)
  drops-Inv name stop = elim (remove_cases name s server.sessions) [
    | inl (same, _) ↦ subst (λ w. Inv (with_sessions server w)) (sym same) v
    | inr (found, gone_now) ↦
        subst (λ w. Inv (with_sessions server w)) (sym gone_now) (erased server s v name found stop)
  ]

  pub publishes-Inv : server.phase s ≡ answered → Inv (publish_step s server)
  unfolding publish_step
  publishes-Inv at = elim (publish_ready_cases (name_of s server) s server.sessions) [
    | inl refused ↦
        subst
          (λ r. Inv (
            if r.0
            then move s admitted r.1 server
            else move s leaving (remove_if_same (name_of s server) s r.1).1 server))
          (sym refused) (departs-Inv server s v leaving refl refl (not_ready (ground (arith, at))))
    | inr (found, going, done) ↦
        subst
          (λ r. Inv (
            if r.0
            then move s admitted r.1 server
            else move s leaving (remove_if_same (name_of s server) s r.1).1 server))
          (sym done) (admitted-Inv at going)
  ]

module _ (server : Server) (v : Inv server) where
  pub looks_up-Inv : (name : Bytes) → Inv (with_sessions server (find_ready name server.sessions).1)
  looks_up-Inv name = elim (find_ready_cases name server.sessions) [
    | inl same ↦ subst (λ w. Inv (with_sessions server w)) (sym same) v
    | inr (s, found, stop, dropped) ↦
        subst (λ w. Inv (with_sessions server w)) (sym dropped) (erased server s v name found stop)
  ]

  pub snapshots-Inv :
      (name : Bytes) → Inv (with_sessions server (snapshot_ready_except name server.sessions).1)
  unfolding snapshot_ready_except
  snapshots-Inv name =
      let session = server.sessions.session in
      let entries = server.sessions.registry in
      let left = find-left_of session name in
      record {
        sorted = left_of-Sorted session name entries v.sorted;
        owned = λ k t e. ground (arith, left k entries v.sorted, e, v.owned k t);
        kept =
            λ t h going. ground (arith, left (name_of t server) entries v.sorted, v.kept t h going);
        admitted_ready = v.admitted_ready;
        has_name = v.has_name;
      }

module _ (server : Server) (s : ℕ) (v : Inv server) where
  pub answers-Inv :
      (encodes takes : Bool) → server.phase s ≡ reserved → Inv (answer_step encodes takes s server)
  unfolding answer_step
  answers-Inv encodes takes at =
      let w = (send_json encodes takes s server.sessions).1 in
      let sent = with_sessions server w in
      let v' = sends-Inv server s v encodes takes in
      if_cases Inv (is_written (send_json encodes takes s server.sessions).0)
        (move s answered w server) (move s leaving (remove_if_same (name_of s server) s w).1 server)
        (λ _. answered-Inv sent s v' at)
        (λ _.
          subst (λ n. Inv (move s leaving (remove_if_same n s w).1 server))
            ((send_json-Relaxed encodes takes s server.sessions).same_username s)
            (departs-Inv sent s v' leaving refl refl (not_ready sent s v' (ground (arith, at)))))

  pub cleans-Inv : Inv (cleanup_session s server)
  unfolding cleanup_session
  cleans-Inv =
      let w = request_stop s server.sessions in
      let stopped = with_sessions server w in
      let v' = stops-Inv server s v in
      let name = (request_stop-Relaxed s server.sessions).same_username s in
      let removed =
        if is_empty (name_of s server) then w else (remove_if_same (name_of s server) s w).1 in
      let left =
        if_cases (λ w'. Inv (move s gone w' server)) (is_empty (name_of s server)) w
          (remove_if_same (name_of s server) s w).1
          (λ empty.
            leaves stopped s v' gone
              (λ k e. ground (
                arith,
                name,
                empty,
                v'.has_name s (holds_bears (server.phase s) (v'.owned k s e).1),
              ))
              refl refl (λ _. refl))
          (λ _.
            subst (λ n. Inv (move s gone (remove_if_same n s w).1 server)) name
              (departs-Inv stopped s v' gone refl refl (λ _. refl))) in
      with_sessions-Inv (move s gone removed server) (close s removed) left
        (close-Relaxed s removed)
