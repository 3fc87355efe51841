-- ===== src/Client/Invariant.antt =====
-- What every step of a ClientConnection keeps.
use protected_chat.Prelude.{
  ◌+◌, ◌≤◌, ◌≡◌, true, false, List, [], ◌∷◌, none, map, length, length-append, arith, refl,
  if◌then◌else◌, ◌++◌, Bool,
}
use protected_chat.Prelude.Int.{ℤ, pos, leb_ℤ}
use protected_chat.Json.{Json}
use protected_chat.Json.Writer.{Writer}
use protected_chat.Client.State.{
  ClientConnection, new_connection, connect, call, complete_authentication, request_stop,
  begin_post_authentication, first_stop, max_automatic_requests,
}
use protected_chat.Client.Requests.{acknowledgement, synchronization_fields, continuation_fields}
use protected_chat.Client.Pending.{PageHead, page_requests}
use protected_chat.Client.Steps.{
  Step, Reach, here, next, calls, completes, logs_in, stops, begins, starts, acknowledges, turns,
  takes, sends, sends_late,
}

pub length-map : {A B : Type 0} (f : A → B) (xs : List A) → length (map f xs) ≡ length xs
length-map f [] = refl
length-map f (x ∷ xs) = omega (arith, length-map f xs)

length-append_one : {A : Type 0} (xs : List A) (x : A) → length (xs ++ x ∷ []) ≡ length xs + 1
length-append_one xs x = length-append xs (x ∷ [])

length_optional :
    {A : Type 0} (b : Bool) (x : A) → length (if b then x ∷ [] else []) ≡ (if b then 1 else 0)
length_optional b x = ground arith

module _ (w : Writer) (j : Json) where
  pub record IsConsistent (c : ClientConnection w j) : Type 0 where
    pub bounded : length c.automatic_requests ≤ max_automatic_requests
    pub answered : c.authenticated ≡ true → c.authentication_complete ≡ true
    pub stopped : c.stopping ≡ true → c.authentication_complete ≡ true
    pub cursor : leb_ℤ (pos 0) c.pending_after_message_id ≡ true
    pub inactive :
        c.pending_synchronization_active ≡ false
        → (c.pending_after_message_id ≡ pos 0) × (c.pending_through_message_id ≡ none)

  length-page_requests :
      (head : PageHead) (ids : List ℤ)
      → length (page_requests w j head ids) ≡ length ids + (if head.more then 1 else 0)
  length-page_requests head ids =
      let more = w.object (continuation_fields w head.following head.through) in
      rw
        (
          length-append (map (acknowledgement w) ids) (if head.more then more ∷ [] else []),
          length-map (acknowledgement w) ids,
          length_optional head.more more,
        )
        refl

  Step-IsConsistent : {c d : ClientConnection w j} → Step w j c d → IsConsistent c → IsConsistent d
  unfolding call complete_authentication request_stop first_stop begin_post_authentication
  Step-IsConsistent (calls c e told) h = ground (arith, h)
  Step-IsConsistent (completes c result text) h = ground (arith, h)
  Step-IsConsistent (logs_in c text) h = ground (arith, h)
  Step-IsConsistent (stops c reason) h = ground (arith, h)
  Step-IsConsistent (begins c) h = ground (arith, h)
  Step-IsConsistent (starts c room) h = ground (
    arith,
    h,
    length-append_one c.automatic_requests (w.object (synchronization_fields w (pos 0))),
  )
  Step-IsConsistent (acknowledges c id room) h =
      ground (arith, h, length-append_one c.automatic_requests (acknowledgement w id))
  Step-IsConsistent (turns c head ids above room) h = ground (
    arith,
    h,
    length-append c.automatic_requests (page_requests w j head ids),
    length-page_requests head ids,
  )
  Step-IsConsistent (takes c v rest e) h = ground (arith, h, e)
  Step-IsConsistent (sends c v running joined) h = ground (arith, h)
  Step-IsConsistent (sends_late c v reason running) h = ground (arith, h)

  pub Reach-IsConsistent :
      {c d : ClientConnection w j} → IsConsistent c → Reach w j c d → IsConsistent d
  Reach-IsConsistent h here = h
  Reach-IsConsistent h (next r st) = Step-IsConsistent st (Reach-IsConsistent h r)

  pub connect-IsConsistent : IsConsistent (connect w j (new_connection w j))
  unfolding connect new_connection
  connect-IsConsistent = record {
    bounded = omega arith;
    answered = λ e. e;
    stopped = λ e. absurd (ground (arith, e));
    cursor = refl;
    inactive = λ _. (refl, refl);
  }
