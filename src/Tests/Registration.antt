-- ===== src/Tests/Registration.antt =====
-- Sara's session is admitted; then its handler cleans up.
use protected_chat.Prelude.{ℕ, Bytes, codes, ◌≡◌, refl, false, true, some, ap, bytes_lt}
use protected_chat.Session.Handlers.{
  publish_step, move, named, admitted, answer_step, cleanup_session, Reach, here, reserves, start,
  next, name_of, Server, publishes, reserve_step, names, answers,
}
use protected_chat.Session.Registry.{
  reserve, bytes_order, set_authenticated_username, send_json, find_ready, publish_ready,
  mark_ready,
}
use protected_chat.Session.Handlers.Ownership.{
  find_ready-Reach, Reach-unique, cleanup_session-Reach, unless_of,
}
use protected_chat.Prelude.Map.{insert, find, nat_order}
use protected_chat.Buffer.Key.{key_order}
use protected_chat.Session.Handlers.Invariant.{holds_name}

abbrev sara : Bytes
sara = codes "sara"

-- The session number 1 through its authentication.
abbrev after_names : Server
after_names = move 1 named (set_authenticated_username 1 sara start.sessions) start

abbrev after_reserves : Server
after_reserves = reserve_step 1 after_names

abbrev after_answers : Server
after_answers = answer_step true true 1 after_reserves

abbrev after_publishes : Server
after_publishes = publish_step 1 after_answers

sara-Reach : Reach start after_publishes
unfolding set_authenticated_username reserve_step answer_step reserve send_json find insert
sara-Reach =
    next
      (next (next (next here (names 1 sara refl refl)) (reserves 1 refl))
        (answers 1 true true refl))
      (publishes 1 refl)

admitted_1 : after_publishes.phase 1 ≡ admitted
unfolding publish_step answer_step reserve_step set_authenticated_username reserve send_json
    publish_ready find insert bytes_lt
admitted_1 = refl

going_1 : (after_publishes.sessions.session 1).stopping ≡ false
unfolding publish_step answer_step reserve_step set_authenticated_username reserve send_json
    publish_ready find insert bytes_lt mark_ready
going_1 = refl

found_1 : (find_ready sara after_publishes.sessions).0 ≡ some 1
unfolding publish_step answer_step reserve_step set_authenticated_username reserve send_json
    publish_ready find insert bytes_lt mark_ready find_ready
found_1 = refl

Reach-unique_example : ◌≡◌ {A = ℕ} 1 1
Reach-unique_example =
    Reach-unique after_publishes 1 1 sara-Reach (ap holds_name admitted_1)
      (ap holds_name admitted_1) going_1 going_1 refl

find_ready-Reach_example :
    (after_publishes.phase 1 ≡ admitted)
    × (name_of 1 after_publishes ≡ sara)
    × ((after_publishes.sessions.session 1).ready ≡ true)
    × ((after_publishes.sessions.session 1).stopping ≡ false)
find_ready-Reach_example = find_ready-Reach after_publishes sara 1 sara-Reach found_1

cleanup_session-Reach_example :
    find sara (cleanup_session 1 after_publishes).sessions.registry
    ≡ unless_of 1 (find sara after_publishes.sessions.registry)
cleanup_session-Reach_example = cleanup_session-Reach after_publishes 1 sara sara-Reach
