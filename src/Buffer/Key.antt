-- ===== src/Buffer/Key.antt =====
-- ConversationKey of clientf/message_buffer: which conversation a message belongs to, with its
-- comparison operators.
use protected_chat.Prelude.{
  ℕ, ◌≡◌, refl, Bool, true, false, ◌&&◌, [], arith, Bytes, bytes_eq, bytes_lt, bytes_lt_irrefl,
  bytes_lt_trans, bytes_lt_total, ltb, ◌==◌, if◌then◌else◌, eq_of_bytes_eq, bytes_eq_refl, ◌↔◌,
}
use protected_chat.Prelude.Int.{ℤ, pos, negsuc, ltb_ℤ, ltb_ℤ_irrefl, ltb_ℤ_total}
use protected_chat.Prelude.Map.{Order}

pub data ConversationKind : Type 0 where
  private_kind group_kind broadcast_kind : ConversationKind

-- The number of the enumerator, by which C++ orders an enum class.
abbrev pub rank : ConversationKind → ℕ
rank private_kind = 0
rank group_kind = 1
rank broadcast_kind = 2

pub record ConversationKey : Type 0 where
  pub kind : ConversationKind
  pub username : Bytes
  pub group_id : ℤ

abbrev pub private_chat : Bytes → ConversationKey
private_chat username = record { kind = private_kind; username = username; group_id = pos 0 }

abbrev pub group_chat : ℤ → ConversationKey
group_chat id = record { kind = group_kind; username = []; group_id = id }

abbrev pub broadcast : ConversationKey
broadcast = record { kind = broadcast_kind; username = []; group_id = pos 0 }

-- operator==
abbrev pub eq_ℤ : ℤ → ℤ → Bool
eq_ℤ (pos a) (pos b) = a == b
eq_ℤ (pos a) (negsuc b) = false
eq_ℤ (negsuc a) (pos b) = false
eq_ℤ (negsuc a) (negsuc b) = a == b

unfoldable pub key_eq : ConversationKey → ConversationKey → Bool
key_eq a b =
    rank a.kind == rank b.kind && bytes_eq a.username b.username && eq_ℤ a.group_id b.group_id

-- operator<, the lexicographic order of the tied members
unfoldable pub key_lt : ConversationKey → ConversationKey → Bool
key_lt a b =
    if ltb (rank a.kind) (rank b.kind)
    then true
    else if ltb (rank b.kind) (rank a.kind)
    then false
    else if bytes_lt a.username b.username
    then true
    else if bytes_lt b.username a.username
    then false
    else ltb_ℤ a.group_id b.group_id

rank-injective : (a b : ConversationKind) → rank a ≡ rank b → a ≡ b
rank-injective private_kind private_kind h = refl
rank-injective group_kind group_kind h = refl
rank-injective broadcast_kind broadcast_kind h = refl
rank-injective a b h = absurd (omega arith)

pub key_lt_irrefl : (a : ConversationKey) → key_lt a a ≡ false
unfolding key_lt
key_lt_irrefl a = ground (arith, bytes_lt_irrefl a.username, ltb_ℤ_irrefl a.group_id)

pub key_lt_trans :
    (a b c : ConversationKey) → key_lt a b ≡ true → key_lt b c ≡ true → key_lt a c ≡ true
unfolding key_lt
key_lt_trans a b c h k = ground (
  arith,
  bytes_lt_trans a.username b.username c.username,
  bytes_lt_total a.username b.username,
  bytes_lt_total b.username c.username,
  bytes_lt_irrefl a.username,
)

pub key_lt_total : (a b : ConversationKey) → key_lt a b ≡ false → key_lt b a ≡ false → a ≡ b
unfolding key_lt
key_lt_total a b h k = ground (
  arith,
  rank-injective a.kind b.kind,
  bytes_lt_total a.username b.username,
  ltb_ℤ_total a.group_id b.group_id,
)

instance abbrev pub key_order : Order ConversationKey
key_order = record {
  lt = key_lt;
  irrefl = key_lt_irrefl;
  trans = key_lt_trans;
  total = key_lt_total;
}

pub key_eq_iff : (a b : ConversationKey) → (key_eq a b ≡ true) ↔ (a ≡ b)
unfolding key_eq
key_eq_iff a b = (
  λ h. ground (arith, rank-injective a.kind b.kind, eq_of_bytes_eq a.username b.username),
  λ h. ground (arith, bytes_eq_refl a.username),
)
