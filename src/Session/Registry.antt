-- ===== src/Session/Registry.antt =====
-- ClientSession's state and SessionRegistry (serverf/client_session, serverf/session_registry). A
-- session is named by a number, which stands for its shared pointer; what unordered_map leaves open,
-- the order of the entries, is the order of the user names here.
pub mod Entries
use protected_chat.Prelude.{
  ℕ, Bool, true, some, ◌∷◌, Option, false, ◌||◌, [], ◌&&◌, List, none, not, bytes_lt_total,
  bytes_lt_irrefl, bytes_lt_trans, bytes_eq, bytes_lt, Bytes, ◌==◌, if◌then◌else◌,
}
use protected_chat.Prelude.Map.{erase, nat_order, Map, Order, insert, find}
use protected_chat.Buffer.Key.{key_order}
use protected_chat.Buffer.Calls.{left}

instance abbrev pub bytes_order : Order Bytes
bytes_order = record {
  lt = bytes_lt;
  irrefl = bytes_lt_irrefl;
  trans = bytes_lt_trans;
  total = bytes_lt_total;
}

pub record ClientSession : Type 0 where
  pub username : Bytes
  pub ready : Bool
  pub stopping : Bool
  pub closed : Bool

abbrev pub new_session : ClientSession
new_session = record { username = []; ready = false; stopping = false; closed = false }

-- The sessions that exist, and the registry's map from user names to them.
pub record Sessions : Type 0 where
  pub session : ℕ → ClientSession
  pub registry : Map Bytes ℕ

abbrev pub update : {A : Type 0} → (ℕ → A) → ℕ → A → ℕ → A
update f i v j = if j == i then v else f j

abbrev pub write_session : ℕ → ClientSession → Sessions → Sessions
write_session s c w = record w { session = update w.session s c }

pub data SendResult : Type 0 where
  written failed : SendResult

-- setAuthenticatedUsername, markReady, requestStop, close
unfoldable pub set_authenticated_username : ℕ → Bytes → Sessions → Sessions
set_authenticated_username s name w = write_session s (record (w.session s) { username = name }) w

unfoldable pub mark_ready : ℕ → Sessions → Sessions
mark_ready s w = write_session s (record (w.session s) { ready = true }) w

unfoldable pub request_stop : ℕ → Sessions → Sessions
request_stop s w =
    if (w.session s).stopping
    then w
    else write_session s (record (w.session s) { stopping = true }) w

unfoldable pub close : ℕ → Sessions → Sessions
close s w =
    let stopped = request_stop s w in
    if (stopped.session s).closed
    then stopped
    else write_session s (record (stopped.session s) { closed = true }) stopped

-- sendJson, where the library can encode the message or not, and the socket takes all of it or not.
unfoldable pub send_json : Bool → Bool → ℕ → Sessions → SendResult × Sessions
send_json encodes takes s w =
    if (w.session s).stopping || (w.session s).closed
    then (failed, w)
    else if not encodes
    then (failed, request_stop s w)
    else if not takes
    then (failed, request_stop s w)
    else (written, w)

-- reserve
unfoldable pub reserve : Bytes → ℕ → Sessions → Bool × Sessions
reserve name s w = elim (find name w.registry) [
  | some other ↦ (false, w)
  | none ↦ (true, record w { registry = insert name s w.registry })
]

-- publishReady
unfoldable pub publish_ready : Bytes → ℕ → Sessions → Bool × Sessions
publish_ready name s w = elim (find name w.registry) [
  | none ↦ (false, w)
  | some other ↦
      if not (other == s) || (w.session s).stopping then (false, w) else (true, mark_ready s w)
]

-- findReady
unfoldable pub find_ready : Bytes → Sessions → Option ℕ × Sessions
find_ready name w = elim (find name w.registry) [
  | none ↦ (none, w)
  | some s ↦
      if not (w.session s).ready
      then (none, w)
      else if (w.session s).stopping
      then (none, record w { registry = erase name w.registry })
      else (some s, w)
]

-- The loop of snapshotReadyExcept: what it collects, and the entries that it leaves.
unfoldable pub snapshot_entries :
    (ℕ → ClientSession) → Bytes → Map Bytes ℕ → List (Bytes × ℕ) × Map Bytes ℕ
snapshot_entries session excluded [] = ([], [])
snapshot_entries session excluded ((name, s) ∷ entries) =
    let (collected, left) = snapshot_entries session excluded entries in
    if (session s).ready && (session s).stopping
    then (collected, left)
    else if not (bytes_eq name excluded) && (session s).ready
    then ((name, s) ∷ collected, (name, s) ∷ left)
    else (collected, (name, s) ∷ left)

-- snapshotReadyExcept
unfoldable pub snapshot_ready_except : Bytes → Sessions → List (Bytes × ℕ) × Sessions
snapshot_ready_except excluded w =
    let (collected, left) = snapshot_entries w.session excluded w.registry in
    (collected, record w { registry = left })

-- removeIfSame
unfoldable pub remove_if_same : Bytes → ℕ → Sessions → Bool × Sessions
remove_if_same name s w = elim (find name w.registry) [
  | none ↦ (false, w)
  | some other ↦
      if not (other == s) then (false, w) else (true, record w { registry = erase name w.registry })
]
