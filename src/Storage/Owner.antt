-- ===== src/Storage/Owner.antt =====
-- Whose file a key names, and who may delete it.
use pigeongram_chat.Base.{
  ℕ, ◌≡◌, refl, Bool, false, true, Option, none, some, [], ◌∷◌, ◌++◌, ◌==◌, nat_eq, list_eq,
  if-both, arith, any, inl, inr,
}
use mathlib.Core.List.{append_assoc}
use pigeongram_chat.Base.Text.{Text, bytes, has_prefix}
use pigeongram_chat.Base.Result.{Result, err, Result-cases}
use pigeongram_chat.Storage.{
  ObjectStore, push_part, split, second, owner_of, object_key, chat_prefix, remove_if, delete_file,
}

-- The part up to a separator.
pub split-append :
    (sep : ℕ) (xs ys : Text)
    → any (λ c. c == sep) xs ≡ false
    → split sep (xs ++ (sep ∷ ys)) ≡ xs ∷ split sep ys
unfolding split push_part any
split-append sep [] ys free = ground (arith)
split-append sep (x ∷ xs) ys free = ground (arith, split-append sep xs ys)

-- A file that is uploaded is its uploader's, if neither the name of the chat nor that of the user has a
-- slash: the key that `GenerateUploadURL` makes names the user as the owner.
pub owner_of-object_key :
    (chat_id user_id : Text) (timestamp : ℕ) (base : Text)
    → any (λ c. c == b'/') chat_id ≡ false
    → any (λ c. c == b'/') user_id ≡ false
    → owner_of (object_key chat_id user_id timestamp base) ≡ some user_id
unfolding owner_of object_key second any
owner_of-object_key chat_id user_id timestamp base no_slash free =
    rw (split-append b'/' (bytes "chat-" ++ chat_id) _ no_slash)
      (rw (split-append b'/' user_id _ free) refl)

-- A chat whose name holds a slash makes somebody else the owner: whoever uploads to `chat/victim` makes
-- a file of the user `victim`.
pub owner_of-object_key_forged :
    (chat_id victim user_id : Text) (timestamp : ℕ) (base : Text)
    → any (λ c. c == b'/') chat_id ≡ false
    → any (λ c. c == b'/') victim ≡ false
    → owner_of (object_key (chat_id ++ (b'/' ∷ victim)) user_id timestamp base) ≡ some victim
unfolding owner_of object_key second any
owner_of-object_key_forged chat_id victim user_id timestamp base no_slash free = rw append_assoc (
    rw (split-append b'/' (bytes "chat-" ++ chat_id) _ no_slash)
      (rw (split-append b'/' victim _ free) refl))

has_prefix-append : (p : Text) (c : ℕ) (s : Text) → has_prefix (p ++ (c ∷ s)) (p ++ (c ∷ [])) ≡ true
unfolding has_prefix
has_prefix-append [] c s = ground arith
has_prefix-append (d ∷ p) c s = ground (arith, has_prefix-append p c s)

-- The key of an upload has the prefix of its chat.
pub object_key-chat_prefix :
    (chat_id user_id : Text) (timestamp : ℕ) (base : Text)
    → has_prefix (object_key chat_id user_id timestamp base) (chat_prefix chat_id) ≡ true
unfolding object_key
object_key-chat_prefix chat_id user_id timestamp base =
    has_prefix-append (bytes "chat-" ++ chat_id) b'/' _

abbrev pub is_owner : Text → Option Text → Bool
is_owner username none = false
is_owner username (some owner) = owner == username

module _ (S : ObjectStore) where
  remove_if-refused :
      (key username : Text) (o : Option Text) (s : S.State)
      → is_owner username o ≡ false
      → (e : Text) × (remove_if S key username o s ≡ (err e, s))
  unfolding remove_if
  remove_if-refused key username none s other = (_, refl)
  remove_if-refused key username (some owner) s other = rw other (_, refl)

  -- `DeleteFile` for anybody but the owner that the key names is an error and leaves every object.
  pub delete_file-refused :
      (chat_id key username : Text) (s : S.State)
      → is_owner username (owner_of key) ≡ false
      → (e : Text) × (delete_file S chat_id key username s ≡ (err e, s))
  unfolding delete_file
  delete_file-refused chat_id key username s other =
      if-both (λ (p : Result Text (Unit {0}) × S.State). (e : Text) × (p ≡ (err e, s)))
        (has_prefix key (chat_prefix chat_id))
        (elim (Result-cases (S.stat key s)) [
          | inl (o, found) ↦
              let (e, refused) = remove_if-refused key username (owner_of key) s other in
              (e, rw (found, delete_file) refused)
          | inr (e, found) ↦ (bytes "file not found: " ++ e, rw (found, delete_file) refl)
        ])
        (_, refl)
