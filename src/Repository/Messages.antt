-- ===== src/Repository/Messages.antt =====
-- `MessageRepository` (repository/postgres/message_repo.go).
pub mod Order
use pigeongram_chat.Base.{
  ℕ, zero, suc, ◌+◌, ◌-◌, Bool, true, false, Option, none, some, List, [], ◌∷◌, ◌==◌, nat_eq,
  list_eq, ltb, if◌then◌else◌, length, not,
}
use pigeongram_chat.Base.Text.{Text, bytes}
use pigeongram_chat.Base.Result.{Result, ok, err}
use pigeongram_chat.Models.{Message, UserEntity, MessageEntity}
use pigeongram_chat.Repository.{Database, DbError, record_not_found, failed}

-- A slice read and written at an index.
abbrev pub get_elem? {ℓ} : {A : Type ℓ} → List A → ℕ → Option A
get_elem? [] i = none
get_elem? (x ∷ xs) zero = some x
get_elem? (x ∷ xs) (suc i) = get_elem? xs i

abbrev pub set {ℓ} : {A : Type ℓ} → List A → ℕ → A → List A
set [] i v = []
set (x ∷ xs) zero v = v ∷ xs
set (x ∷ xs) (suc i) v = x ∷ set xs i v

-- `s[i], s[j] = s[j], s[i]`
unfoldable pub swap {ℓ} : {A : Type ℓ} → ℕ → ℕ → List A → List A
swap i j xs = elim (get_elem? xs i) [
  | none ↦ xs
  | some a ↦ elim (get_elem? xs j) [ none ↦ xs | some b ↦ set (set xs i b) j a ]
]

-- The loop of `GetRecent` from both ends, with fuel; half the length is enough.
unfoldable pub reverse_loop {ℓ} : {A : Type ℓ} → ℕ → ℕ → ℕ → List A → List A
reverse_loop zero i j xs = xs
reverse_loop (suc fuel) i j xs = elim (ltb i j) [
  | true ↦ reverse_loop fuel (suc i) (j - 1) (swap i j xs)
  | false ↦ xs
]

blank_user : UserEntity
blank_user = record {
  id = 0;
  username = [];
  password = [];
  last_seen = 0;
  created_at = 0;
  updated_at = 0;
  deleted_at = none;
}

module _ (D : Database) where
  -- `Create`
  unfoldable pub create : Message → D.State → Result DbError ℕ × D.State
  unfolding blank_user
  create msg s = elim (D.first_user msg.username s) [
    | err e ↦ (err e, s)
    | ok user ↦
        D.create_message
          (record {
            id = 0;
            user_id = user.id;
            content = msg.text;
            timestamp = msg.timestamp;
            created_at = 0;
            updated_at = 0;
            deleted_at = none;
            edited = false;
            edited_at = none;
            user = blank_user;
          })
          s
  ]

  -- `UpdateMessage`, at the time `now`
  unfoldable pub update_message :
      ℕ → ℕ → Text → Text → D.State → Result DbError (Unit {0}) × D.State
  update_message now msg_id new_text username s = elim (D.first_message msg_id s) [
    | err e ↦ (err e, s)
    | ok msg ↦
        if msg.user.username == username
        then D.update_content msg new_text now s
        else (err (failed (bytes "редактировать можно только свои сообщения")), s)
  ]

  -- `GetRecent`
  unfoldable pub get_recent : ℕ → D.State → Result DbError (List MessageEntity)
  get_recent limit s = elim (D.find_messages 0 limit s) [
    | err e ↦ err e
    | ok messages ↦ ok (reverse_loop (length messages) 0 (length messages - 1) messages)
  ]

  -- `GetHistory`
  unfoldable pub get_history : ℕ → ℕ → D.State → Result DbError (List MessageEntity)
  get_history offset limit s = D.find_messages offset limit s

  -- `DeleteOlderThan`, which is not written yet in the source
  unfoldable pub delete_older_than : ℕ → D.State → Result DbError (Unit {0}) × D.State
  delete_older_than days s = (ok tt, s)

  -- `Count`
  unfoldable pub count : D.State → Result DbError ℕ
  count s = D.count_messages s
