-- ===== src/Session/Handlers/Ownership.antt =====
-- Who is in the registry: a user name belongs to one session at a time.
use protected_chat.Prelude.{
  ℕ, Bytes, some, arith, ◌≡◌, false, true, ap, ◌==◌, if◌then◌else◌, Option, none, inl, ◌∙◌, inr,
  subst, sym, Option-cases, if_cases, Bool-cases,
}
use protected_chat.Session.Handlers.{
  names, answers, sends, snapshots, drops, cleans, looks_up, reserves, start, next, here, stops,
  Step, Reach, Server, admitted, publishes, name_of, cleanup_session, Phase,
}
use protected_chat.Session.Handlers.Steps.{
  drops-Inv, looks_up-Inv, snapshots-Inv, sends-Inv, cleans-Inv, publishes-Inv, answers-Inv,
  stops-Inv, holds_bears,
}
use protected_chat.Session.Registry.{
  bytes_order, find_ready, Sessions, request_stop, remove_if_same,
}
use protected_chat.Buffer.Key.{key_order}
use protected_chat.Buffer.Calls.{step}
use protected_chat.Prelude.Map.{find, nat_order, Map, erase}
use protected_chat.Session.Handlers.Invariant.{Inv, holds_name, names-Inv, may_be_ready}
use protected_chat.Session.Handlers.Changes.{reserves-Inv, close-Relaxed, request_stop-Relaxed}
use protected_chat.Prelude.Map.Sorts.{find-erase_self, find-erase_ne}
use protected_chat.Prelude.Map.Entries.{key_cases}
use protected_chat.Session.Frames.{is_empty}
use protected_chat.Session.Registry.Entries.{remove_cases}

start-Inv : Inv start
unfolding find
start-Inv = record {
  sorted = tt;
  owned = λ k t e. ground (arith, e);
  kept = λ t h going. ground (arith, h);
  admitted_ready = λ t h. ground (arith, h);
  has_name = λ t h. ground (arith, h);
}

Step-Inv : (a b : Server) → Inv a → Step a b → Inv b
Step-Inv a b v (names s name at full) = names-Inv a s name v at full
Step-Inv a b v (reserves s at) = reserves-Inv a s v at
Step-Inv a b v (answers s encodes takes at) = answers-Inv a s v encodes takes at
Step-Inv a b v (publishes s at) = publishes-Inv a s v at
Step-Inv a b v (sends s encodes takes) = sends-Inv a s v encodes takes
Step-Inv a b v (stops s) = stops-Inv a s v
Step-Inv a b v (looks_up name) = looks_up-Inv a v name
Step-Inv a b v (snapshots name) = snapshots-Inv a v name
Step-Inv a b v (drops name s stop) = drops-Inv a s v name stop
Step-Inv a b v (cleans s) = cleans-Inv a s v

Reach-Inv : (server : Server) → Reach start server → Inv server
Reach-Inv server here = start-Inv
Reach-Inv server (next {a} {b} r step) = Step-Inv a b (Reach-Inv a r) step

-- In every server that the handlers' steps reach, under every interleaving: of two sessions that
-- have passed the registry's reserve and have not left since, and of which neither is stopping, no
-- two have the same user name.
pub Reach-unique :
    (server : Server) (s t : ℕ)
    → Reach start server
    → holds_name (server.phase s) ≡ true
    → holds_name (server.phase t) ≡ true
    → (server.sessions.session s).stopping ≡ false
    → (server.sessions.session t).stopping ≡ false
    → name_of s server ≡ name_of t server
    → s ≡ t
Reach-unique server s t r hs ht gs gt same =
    let v = Reach-Inv server r in
    let one = v.kept s hs gs in
    let other = v.kept t ht gt in
    let found = ap (λ n. find n server.sessions.registry) same in ground (arith, one, other, found)

find_ready-some :
    (name : Bytes) (w : Sessions) (s : ℕ)
    → (find_ready name w).0 ≡ some s
    → (find name w.registry ≡ some s)
      × ((w.session s).ready ≡ true)
      × ((w.session s).stopping ≡ false)
unfolding find_ready
find_ready-some name w s e = elim (Option-cases (find name w.registry)) [
  | inl missing ↦ ground (arith, missing, e)
  | inr (t, found) ↦ elim (Bool-cases (w.session t).ready) [
    | inr unready ↦ ground (arith, found, unready, e)
    | inl ready ↦ elim (Bool-cases (w.session t).stopping) [
      | inl stop ↦ ground (arith, found, ready, stop, e)
      | inr going ↦ (
        ground (arith, found, ready, going, e),
        ground (arith, found, ready, going, e),
        ground (arith, found, ready, going, e),
      )
    ]
  ]
]

only_admitted : (p : Phase) → holds_name p ≡ true → may_be_ready p ≡ true → p ≡ admitted
only_admitted p h r = ground (arith, h, r)

-- In every server that the handlers' steps reach: a session that findReady hands to a delivery has
-- been admitted and has not left, it has the user name that was asked for, and it is ready and not
-- stopping.
pub find_ready-Reach :
    (server : Server) (name : Bytes) (s : ℕ)
    → Reach start server
    → (find_ready name server.sessions).0 ≡ some s
    → (server.phase s ≡ admitted)
      × (name_of s server ≡ name)
      × ((server.sessions.session s).ready ≡ true)
      × ((server.sessions.session s).stopping ≡ false)
find_ready-Reach server name s r e =
    let v = Reach-Inv server r in
    let (found, ready, going) = find_ready-some name server.sessions s e in
    let (own, holds) = v.owned name s found in
    (only_admitted (server.phase s) holds (v.admitted_ready s ready), own, ready, going)

abbrev pub unless_of : ℕ → Option ℕ → Option ℕ
unless_of s none = none
unless_of s (some t) = if t == s then none else some t

unless_of-same : (s : ℕ) (o : Option ℕ) → (o ≡ some s → ⊥) → o ≡ unless_of s o
unless_of-same s o other = ground (arith, other)

module _ (server : Server) (s : ℕ) (v : Inv server) where
  abbrev registered : Map Bytes ℕ
  registered = server.sessions.registry

  abbrev own : Bytes
  own = name_of s server

  not_here :
      (name : Bytes)
      → (find own registered ≡ some s → ⊥)
      → find name registered ≡ unless_of s (find name registered)
  not_here name unheld =
      unless_of-same s (find name registered)
        (λ e. unheld (ap (λ n. find n registered) (v.owned name s e).0 ∙ e))

  erased_own :
      (name : Bytes)
      → find own registered ≡ some s
      → find name (erase own registered) ≡ unless_of s (find name registered)
  erased_own name found = elim (key_cases name own) [
    | inl same ↦
        subst (λ n. find n (erase own registered) ≡ unless_of s (find n registered)) (sym same)
          (ground (arith, find-erase_self own registered v.sorted, found))
    | inr other ↦
        find-erase_ne name own registered v.sorted other
        ∙ unless_of-same s (find name registered) (λ e. other (sym (v.owned name s e).0))
  ]

  removed_own :
      (name : Bytes) (w : Sessions)
      → w.registry ≡ registered
      → find name (remove_if_same own s w).1.registry ≡ unless_of s (find name registered)
  removed_own name w same = elim (remove_cases own s w) [
    | inl (kept, unheld) ↦
        ap (λ (x : Sessions). find name x.registry) kept
        ∙ ap (λ m. find name m) same
        ∙ not_here name (λ e. unheld (ap (λ m. find own m) same ∙ e))
    | inr (found, gone_now) ↦
        ap (λ (x : Sessions). find name x.registry) gone_now
        ∙ ap (λ m. find name (erase own m)) same
        ∙ erased_own name (sym (ap (λ m. find own m) same) ∙ found)
  ]

-- In every server that the handlers' steps reach: cleanupSession leaves the entry of every other
-- session as it was, under every name, and no entry of the session that it cleans up.
pub cleanup_session-Reach :
    (server : Server) (s : ℕ) (name : Bytes)
    → Reach start server
    → find name (cleanup_session s server).sessions.registry
      ≡ unless_of s (find name server.sessions.registry)
unfolding cleanup_session
cleanup_session-Reach server s name r =
    let v = Reach-Inv server r in
    let w = request_stop s server.sessions in
    let name' = name_of s server in
    let removed = if is_empty name' then w else (remove_if_same name' s w).1 in
    ap (λ m. find name m) (close-Relaxed s removed).same_registry
    ∙ if_cases (λ w'. find name w'.registry ≡ unless_of s (find name server.sessions.registry))
        (is_empty name') w (remove_if_same name' s w).1
        (λ empty.
          ap (λ m. find name m) (request_stop-Relaxed s server.sessions).same_registry
          ∙ not_here server s v name (λ e.
            ground
              (arith, empty, v.has_name s (holds_bears (server.phase s) (v.owned name' s e).1))))
        (λ _. removed_own server s v name w (request_stop-Relaxed s server.sessions).same_registry)
