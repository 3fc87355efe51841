-- ===== src/Session/Registry/Entries.antt =====
-- What the registry's methods leave in its map.
use protected_chat.Prelude.{
  ℕ, arith, refl, none, some, ◌≡◌, Option, ◌&&◌, [], ◌∷◌, Bytes, if◌then◌else◌, bytes_lt_total, ◌⊎◌,
  inl, inr, Option-cases, ◌==◌, false, true, Bool-cases,
}
use protected_chat.Prelude.Map.Sorts.{Ascends-Sorted}
use protected_chat.Prelude.Map.{
  Sorted, Ascends, Map, Ascends-mono, nat_order, find, find_below, find_least, erase,
}
use protected_chat.Session.Registry.{
  ClientSession, snapshot_entries, bytes_order, Sessions, remove_if_same, mark_ready, find_ready,
  publish_ready,
}
use protected_chat.Buffer.Key.{key_order}
use protected_chat.Session.Handlers.Invariant.{entries}

-- An entry of a session that was ready and is stopping is dropped.
abbrev pub unless_stopped : (ℕ → ClientSession) → Option ℕ → Option ℕ
unless_stopped session none = none
unless_stopped session (some s) = if (session s).ready && (session s).stopping then none else some s

module _ (session : ℕ → ClientSession) (excluded : Bytes) where
  abbrev left_of : Map Bytes ℕ → Map Bytes ℕ
  left_of entries = (snapshot_entries session excluded entries).1

  left_of-Ascends :
      (name : Bytes) (entries : Map Bytes ℕ) → Ascends name entries → Ascends name (left_of entries)
  unfolding snapshot_entries
  left_of-Ascends name [] a = tt
  left_of-Ascends name ((other, s) ∷ entries) a =
      ground
        (arith, left_of-Ascends other entries a.1, Ascends-mono name other (left_of entries) a.0)

  pub left_of-Sorted : (entries : Map Bytes ℕ) → Sorted entries → Sorted (left_of entries)
  unfolding snapshot_entries
  left_of-Sorted [] a = tt
  left_of-Sorted ((other, s) ∷ entries) a = ground (
    arith,
    left_of-Ascends other entries a,
    left_of-Sorted entries (Ascends-Sorted other entries a),
  )

  pub find-left_of :
      (name : Bytes) (entries : Map Bytes ℕ)
      → Sorted entries
      → find name (left_of entries) ≡ unless_stopped session (find name entries)
  unfolding snapshot_entries find
  find-left_of name [] a = refl
  find-left_of name ((other, s) ∷ entries) a =
      let ascends = left_of-Ascends other entries a in
      ground (
        arith,
        find-left_of name entries (Ascends-Sorted other entries a),
        find_below name other (left_of entries),
        find_least other (left_of entries) ascends,
        bytes_lt_total name other,
        ascends,
      )

-- An entry is taken out where it is of the session that is named, and nothing changes otherwise.
pub remove_cases :
    (name : Bytes) (s : ℕ) (w : Sessions)
    → (((remove_if_same name s w).1 ≡ w) × (find name w.registry ≡ some s → ⊥))
      ⊎ ((find name w.registry ≡ some s)
          × ((remove_if_same name s w).1 ≡ record w { registry = erase name w.registry }))
unfolding remove_if_same
remove_cases name s w = elim (Option-cases (find name w.registry)) [
  | inl missing ↦ inl (ground (arith, missing), ground (arith, missing))
  | inr (other, found) ↦ elim (Bool-cases (other == s)) [
    | inl same ↦ inr (ground (arith, found, same), ground (arith, found, same))
    | inr differ ↦ inl (ground (arith, found, differ), ground (arith, found, differ))
  ]
]

-- A lookup changes nothing, or takes out the entry of a session that is stopping.
pub find_ready_cases :
    (name : Bytes) (w : Sessions)
    → ((find_ready name w).1 ≡ w)
      ⊎ ((s : ℕ) × (find name w.registry ≡ some s)
          × ((w.session s).stopping ≡ true)
          × ((find_ready name w).1 ≡ record w { registry = erase name w.registry }))
unfolding find_ready
find_ready_cases name w = elim (Option-cases (find name w.registry)) [
  | inl missing ↦ inl (ground (arith, missing))
  | inr (s, found) ↦ elim (Bool-cases (w.session s).ready) [
    | inr unready ↦ inl (ground (arith, found, unready))
    | inl ready ↦ elim (Bool-cases (w.session s).stopping) [
      | inr going ↦ inl (ground (arith, found, ready, going))
      | inl stop ↦ inr (s, found, stop, ground (arith, found, ready, stop))
    ]
  ]
]

-- A session is published where it is registered and going.
pub publish_ready_cases :
    (name : Bytes) (s : ℕ) (w : Sessions)
    → (publish_ready name s w ≡ (false, w))
      ⊎ ((find name w.registry ≡ some s)
          × ((w.session s).stopping ≡ false)
          × (publish_ready name s w ≡ (true, mark_ready s w)))
unfolding publish_ready
publish_ready_cases name s w = elim (Option-cases (find name w.registry)) [
  | inl missing ↦ inl (ground (arith, missing))
  | inr (other, found) ↦ elim (Bool-cases (other == s)) [
    | inr differ ↦ inl (ground (arith, found, differ))
    | inl same ↦ elim (Bool-cases (w.session s).stopping) [
      | inl stop ↦ inl (ground (arith, found, same, stop))
      | inr going ↦ inr (ground (arith, found, same), going, ground (arith, found, same, going))
    ]
  ]
]
