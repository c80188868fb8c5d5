-- ===== src/Websocket/Channels.antt =====
-- The data that travels between the goroutines of internal/websocket, and buffered channels with the
-- send that does not block (`select` with a `default`).
use pigeongram_chat.Base.{
  ℕ, ◌≤◌, Bool, List, [], ◌∷◌, ◌++◌, ltb, if◌then◌else◌, length, length-append, arith, All,
  All-snoc, Bool-cases, inl, inr,
}
use pigeongram_chat.Base.Text.{Text}
use pigeongram_chat.Json.{Json}

-- `storage.FileInfo`
pub record FileInfo : Type 0 where
  pub name : Text
  pub size : ℕ
  pub uploaded_at : ℕ
  pub content_type : Text
  pub uploader_id : Text
  pub chat_id : Text
  pub key : Text

-- What the field `File` of an event holds: a `FileInfo`, a pointer to one, a map with the key,
-- or what a document had there.
pub data EventFile : Type 0 where
  info : FileInfo → EventFile
  info_pointer : FileInfo → EventFile
  key_only : Text → EventFile
  decoded : Json → EventFile

pub record FileEventData : Type 0 where
  pub event_type : Text
  pub chat_id : Text
  pub file : EventFile
  pub username : Text
  pub owner : Text
  pub timestamp : ℕ

pub record OnlineData : Type 0 where
  pub count : ℕ
  pub users : List Text

module _ {ℓ} {A : Type ℓ} where
  abbrev pub has_room : ℕ → List A → Bool
  has_room cap q = ltb (length q) cap

  -- `select { case q <- x: default: }`
  abbrev pub offer : ℕ → A → List A → List A
  offer cap x q = if has_room cap q then q ++ (x ∷ []) else q

  pub length-offer : (cap : ℕ) (x : A) (q : List A) → length q ≤ cap → length (offer cap x q) ≤ cap
  length-offer cap x q h = ground (arith, length-append q (x ∷ []))

  pub All-offer {κ} :
      (P : A → Type κ) (cap : ℕ) (x : A) (q : List A) → All P q → P x → All P (offer cap x q)
  All-offer P cap x q h p = elim (Bool-cases (has_room cap q)) [
    | inl e ↦ rw e (All-snoc P q x h p)
    | inr e ↦ rw e h
  ]
