-- ===== src/Service/Changes.antt =====
-- What a durable request may do to the sessions and the registry, write by write, and what that leaves
-- alone.
use protected_chat.Prelude.{
  ℕ, ◌≡◌, Bool, true, false, none, some, Bytes, ◌&&◌, arith, ◌∙◌, inr, inl, refl, Bool-cases, subst,
  sym, ==_iff,
}
use protected_chat.Prelude.Map.{find, erase, Sorted}
use protected_chat.Prelude.Map.Sorts.{erase-Sorted, find-erase_ne}
use protected_chat.Json.Writer.{Writer}
use protected_chat.Session.Registry.{
  Sessions, SendResult, written, failed, send_json, find_ready, request_stop, remove_if_same,
  bytes_order,
}
use protected_chat.Session.Registry.Entries.{find_ready_cases, remove_cases}
use protected_chat.Routing.Deliveries.{is_given}
use protected_chat.Session.Handlers.Changes.{send_json-Relaxed, request_stop-Relaxed}

pub request_stop-stopping : (s : ℕ) (u : Sessions) → ((request_stop s u).session s).stopping ≡ true
unfolding request_stop
request_stop-stopping s u = ground (arith, ==_iff s s)

module _ (w : Writer) (takes : ℕ → w.Value → Bool) where
  -- A write to the session `t`.
  abbrev pub try_send : ℕ → w.Value → Sessions → SendResult × Sessions
  try_send t v u = send_json (is_given (w.dump_size v)) (takes t v) t u

  -- The session that is looked up, and the sessions after the lookup and the write.
  abbrev pub attempt : Bytes → ℕ → w.Value → Sessions → SendResult × Sessions
  attempt name t v u = try_send t v (find_ready name u).1

  -- An answer to the session `s`, a recipient that is not ready, a delivery to one that is, or the
  -- stop and the removal of a recipient whose write failed.
  pub data Change (s : ℕ) (u : Sessions) : Sessions → Type 0 where
    answers : (v : w.Value) → Change s u (try_send s v u).1
    misses : (name : Bytes) → (find_ready name u).0 ≡ none → Change s u (find_ready name u).1
    delivers :
        (name : Bytes) (t : ℕ) (v : w.Value)
        → (find_ready name u).0 ≡ some t
        → (attempt name t v u).0 ≡ written
        → Change s u (attempt name t v u).1
    gives_up :
        (name : Bytes) (t : ℕ) (v : w.Value)
        → (find_ready name u).0 ≡ some t
        → (attempt name t v u).0 ≡ failed
        → Change s u (remove_if_same name t (request_stop t (attempt name t v u).1)).1

  pub data Changes (s : ℕ) (u : Sessions) : Sessions → Type 0 where
    unchanged : Changes s u u
    followed : {x y : Sessions} → Changes s u x → Change s x y → Changes s u y

  pub Changes-trans : (s : ℕ) {u x y : Sessions} → Changes s u x → Changes s x y → Changes s u y
  Changes-trans s h unchanged = h
  Changes-trans s h (followed k c) = followed (Changes-trans s h k) c

  -- A value that the session `t` could not be sent: the library cannot encode it, or the socket does
  -- not take the whole of it.
  abbrev pub Refused : ℕ → Type 0
  Refused t = (v : w.Value) × ((is_given (w.dump_size v) && takes t v) ≡ false)

  -- An open session stops for a value that was refused only, and one that goes on keeps its entries.
  pub record IsSparing (u x : Sessions) : Type 0 where
    pub sorted : Sorted x.registry
    pub same_closed : (t : ℕ) → (x.session t).closed ≡ (u.session t).closed
    pub still_stopping : (t : ℕ) → (u.session t).stopping ≡ true → (x.session t).stopping ≡ true
    pub blamed :
        (t : ℕ)
        → (u.session t).closed ≡ false
        → (u.session t).stopping ≡ false
        → (x.session t).stopping ≡ true
        → Refused t
    pub registered :
        (name : Bytes) (t : ℕ)
        → find name u.registry ≡ some t
        → (x.session t).stopping ≡ false
        → find name x.registry ≡ some t

  IsSparing-refl : (u : Sessions) → Sorted u.registry → IsSparing u u
  IsSparing-refl u h = record {
    sorted = h;
    same_closed = λ t. refl;
    still_stopping = λ t e. e;
    blamed = λ t live going stop. absurd (ground (arith, going, stop));
    registered = λ name t found going. found;
  }

  IsSparing-trans : (u x y : Sessions) → IsSparing u x → IsSparing x y → IsSparing u y
  IsSparing-trans u x y h k = record {
    sorted = k.sorted;
    same_closed = λ t. k.same_closed t ∙ h.same_closed t;
    still_stopping = λ t e. k.still_stopping t (h.still_stopping t e);
    blamed = λ t live going stop. elim (Bool-cases (x.session t).stopping) [
      | inl stopped_first ↦ h.blamed t live going stopped_first
      | inr went_on ↦ k.blamed t (h.same_closed t ∙ live) went_on stop
    ];
    registered = λ name t found going.
        k.registered name t (h.registered name t found (ground (arith, k.still_stopping t, going)))
          going;
  }

  try_send-Refused :
      (t : ℕ) (v : w.Value) (u : Sessions)
      → (u.session t).closed ≡ false
      → (u.session t).stopping ≡ false
      → (try_send t v u).0 ≡ failed
      → Refused t
  unfolding send_json
  try_send-Refused t v u live going lost = (v, ground arith)

  try_send-stopping :
      (t i : ℕ) (v : w.Value) (u : Sessions)
      → (u.session i).stopping ≡ false
      → ((try_send t v u).1.session i).stopping ≡ true
      → (i ≡ t) × ((try_send t v u).0 ≡ failed)
  unfolding send_json request_stop
  try_send-stopping t i v u going stop = (ground arith, ground arith)

  try_send-closed :
      (t i : ℕ) (v : w.Value) (u : Sessions)
      → ((try_send t v u).1.session i).closed ≡ (u.session i).closed
  unfolding send_json request_stop
  try_send-closed t i v u = ground arith

  try_send-IsSparing :
      (t : ℕ) (v : w.Value) (u : Sessions) → Sorted u.registry → IsSparing u (try_send t v u).1
  try_send-IsSparing t v u h =
      let r = send_json-Relaxed (is_given (w.dump_size v)) (takes t v) t u in
      record {
        sorted = ground (arith, r.same_registry, h);
        same_closed = λ i. try_send-closed t i v u;
        still_stopping = r.still_stopping;
        blamed = λ i live going stop.
            let (same, lost) = try_send-stopping t i v u going stop in
            rw same (
              try_send-Refused t v u (ground (arith, same, live)) (ground (arith, same, going))
                lost);
        registered = λ name i found going. ground (arith, r.same_registry, found);
      }

  -- A stop that is to blame on a value.
  request_stop-IsSparing :
      (t : ℕ) (u : Sessions)
      → Sorted u.registry
      → ((u.session t).closed ≡ false → (u.session t).stopping ≡ false → Refused t)
      → IsSparing u (request_stop t u)
  unfolding request_stop
  request_stop-IsSparing t u h blame =
      let r = request_stop-Relaxed t u in
      record {
        sorted = ground (arith, r.same_registry, h);
        same_closed = λ i. ground arith;
        still_stopping = r.still_stopping;
        blamed = λ i live going stop.
            let same : i ≡ t = ground arith in
            rw same (blame (ground (arith, same, live)) (ground (arith, same, going)));
        registered = λ name i found going. ground (arith, r.same_registry, found);
      }

  -- The entry of a session that is stopping goes.
  erase-IsSparing :
      (name : Bytes) (t : ℕ) (u : Sessions)
      → Sorted u.registry
      → find name u.registry ≡ some t
      → (u.session t).stopping ≡ true
      → IsSparing u (record u { registry = erase name u.registry })
  erase-IsSparing name t u h held stop = record {
    sorted = erase-Sorted name u.registry h;
    same_closed = λ i. refl;
    still_stopping = λ i e. e;
    blamed = λ i live going stopped_now. absurd (ground (arith, going, stopped_now));
    registered = λ other i found going.
        find-erase_ne other name u.registry h
          (λ same. ground (arith, same, found, held, stop, going))
        ∙ found;
  }

  find_ready-IsSparing :
      (name : Bytes) (u : Sessions) → Sorted u.registry → IsSparing u (find_ready name u).1
  find_ready-IsSparing name u h = elim (find_ready_cases name u) [
    | inl same ↦ subst (IsSparing u) (sym same) (IsSparing-refl u h)
    | inr (t, found, stop, e) ↦ subst (IsSparing u) (sym e) (erase-IsSparing name t u h found stop)
  ]

  remove_if_same-IsSparing :
      (name : Bytes) (t : ℕ) (u : Sessions)
      → Sorted u.registry
      → (u.session t).stopping ≡ true
      → IsSparing u (remove_if_same name t u).1
  remove_if_same-IsSparing name t u h stop = elim (remove_cases name t u) [
    | inl (same, unheld) ↦ subst (IsSparing u) (sym same) (IsSparing-refl u h)
    | inr (found, e) ↦ subst (IsSparing u) (sym e) (erase-IsSparing name t u h found stop)
  ]

  -- What is behind the stop of a recipient.
  lost-Refused :
      (t : ℕ) (v : w.Value) (u : Sessions)
      → (try_send t v u).0 ≡ failed
      → ((try_send t v u).1.session t).closed ≡ false
      → ((try_send t v u).1.session t).stopping ≡ false
      → Refused t
  unfolding send_json request_stop
  lost-Refused t v u lost live going = (v, ground arith)

  Change-IsSparing : (s : ℕ) (u x : Sessions) → Sorted u.registry → Change s u x → IsSparing u x
  Change-IsSparing s u _ h (answers v) = try_send-IsSparing s v u h
  Change-IsSparing s u _ h (misses name absent) = find_ready-IsSparing name u h
  Change-IsSparing s u _ h (delivers name t v ready taken) =
      let looked = find_ready-IsSparing name u h in
      IsSparing-trans u (find_ready name u).1 _ looked (try_send-IsSparing t v _ looked.sorted)
  Change-IsSparing s u _ h (gives_up name t v ready lost) =
      let looked = find_ready-IsSparing name u h in
      let found = (find_ready name u).1 in
      let tried = try_send-IsSparing t v found looked.sorted in
      let after = (attempt name t v u).1 in
      let stop = request_stop-IsSparing t after tried.sorted (lost-Refused t v found lost) in
      let gone =
        remove_if_same-IsSparing name t (request_stop t after) stop.sorted
          (request_stop-stopping t after) in
      IsSparing-trans u found _ looked
        (IsSparing-trans found after _ tried (IsSparing-trans after _ _ stop gone))

  pub Changes-IsSparing :
      (s : ℕ) {u x : Sessions} → Sorted u.registry → Changes s u x → IsSparing u x
  Changes-IsSparing s {u} h unchanged = IsSparing-refl u h
  Changes-IsSparing s {u} h (followed k c) =
      let before = Changes-IsSparing s h k in
      IsSparing-trans _ _ _ before (Change-IsSparing s _ _ before.sorted c)
