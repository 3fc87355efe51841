-- ===== src/Session/Handlers.antt =====
-- The life of a session's handler thread (server.cpp: authenticate after the credentials are
-- accepted, processMessages as the calls of others, cleanupSession), as steps that interleave with
-- those of all other handlers and of the deliveries that they make.
pub mod Invariant
pub mod Steps
pub mod Changes
pub mod Ownership
use protected_chat.Prelude.{ℕ, Bool, true, ◌≡◌, false, [], if◌then◌else◌, Bytes}
use protected_chat.Session.Registry.{
  find_ready, publish_ready, reserve, remove_if_same, set_authenticated_username, request_stop,
  written, SendResult, snapshot_ready_except, update, Sessions, close, send_json, failed,
  new_session,
}
use protected_chat.Session.Frames.{is_empty}

-- Where a handler stands.
pub data Phase : Type 0 where
  connected named reserved answered admitted leaving gone : Phase

pub record Server : Type 0 where
  pub sessions : Sessions
  pub phase : ℕ → Phase

abbrev pub move : ℕ → Phase → Sessions → Server → Server
move s p w server = record { sessions = w; phase = update server.phase s p }

abbrev pub name_of : ℕ → Server → Bytes
name_of s server = (server.sessions.session s).username

-- `if (!registry.reserve(username, session))`
unfoldable pub reserve_step : ℕ → Server → Server
reserve_step s server =
    let (done, w) = reserve (name_of s server) s server.sessions in
    move s (if done then reserved else leaving) w server

-- `if (session->sendJson(success) != SendResult::Written)`
abbrev pub is_written : SendResult → Bool
is_written written = true
is_written failed = false

unfoldable pub answer_step : Bool → Bool → ℕ → Server → Server
answer_step encodes takes s server =
    let (sent, w) = send_json encodes takes s server.sessions in
    if is_written sent
    then move s answered w server
    else move s leaving (remove_if_same (name_of s server) s w).1 server

-- `if (!registry.publishReady(username, session))`
unfoldable pub publish_step : ℕ → Server → Server
publish_step s server =
    let (done, w) = publish_ready (name_of s server) s server.sessions in
    if done
    then move s admitted w server
    else move s leaving (remove_if_same (name_of s server) s w).1 server

-- cleanupSession
unfoldable pub cleanup_session : ℕ → Server → Server
cleanup_session s server =
    let stopped = request_stop s server.sessions in
    let name = name_of s server in
    let removed = if is_empty name then stopped else (remove_if_same name s stopped).1 in
    move s gone (close s removed) server

abbrev pub with_sessions : Server → Sessions → Server
with_sessions server w = record server { sessions = w }

pub data Step (server : Server) : Server → Type 0 where
  -- the database has accepted the credentials of the session's first request, of which
  -- readNonEmptyString lets no empty name through
  names :
      (s : ℕ) (name : Bytes)
      → server.phase s ≡ connected
      → is_empty name ≡ false
      → Step server (move s named (set_authenticated_username s name server.sessions) server)
  reserves : (s : ℕ) → server.phase s ≡ named → Step server (reserve_step s server)
  answers :
      (s : ℕ) (encodes takes : Bool)
      → server.phase s ≡ reserved
      → Step server (answer_step encodes takes s server)
  publishes : (s : ℕ) → server.phase s ≡ answered → Step server (publish_step s server)
  -- a write to any session, by its handler or by a delivery
  sends :
      (s : ℕ) (encodes takes : Bool)
      → Step server (with_sessions server (send_json encodes takes s server.sessions).1)
  -- the handler itself, a failed delivery or the shutdown of the server stops a session
  stops : (s : ℕ) → Step server (with_sessions server (request_stop s server.sessions))
  looks_up : (name : Bytes) → Step server (with_sessions server (find_ready name server.sessions).1)
  snapshots :
      (name : Bytes)
      → Step server (with_sessions server (snapshot_ready_except name server.sessions).1)
  -- a delivery that failed takes the session out after it has stopped it
  drops :
      (name : Bytes) (s : ℕ)
      → (server.sessions.session s).stopping ≡ true
      → Step server (with_sessions server (remove_if_same name s server.sessions).1)
  -- a handler may end anywhere, by an exception too
  cleans : (s : ℕ) → Step server (cleanup_session s server)

pub data Reach (server : Server) : Server → Type 0 where
  here : Reach server server
  next : {a b : Server} → Reach server a → Step a b → Reach server b

-- Before the first connection.
abbrev pub start : Server
start = record {
  sessions = record { session = λ _. new_session; registry = [] };
  phase = λ _. connected;
}
