-- ===== src/Repository.antt =====
-- The database as GORM presents it, a parameter of the model, and the repositories over it
-- (repository/postgres).
pub mod Messages
pub mod Users
pub mod Sessions
use pigeongram_chat.Base.{ℕ, ◌≤◌, ◌≡◌, ◌≢◌, Option, none, some, List, [], ◌∷◌, All, length}
use pigeongram_chat.Base.Text.{Text}
use pigeongram_chat.Base.Result.{Result, ok, err}
use pigeongram_chat.Models.{UserEntity, MessageEntity, SessionEntity}

-- `gorm.ErrRecordNotFound`, or any other error with its text.
pub data DbError : Type 0 where
  record_not_found : DbError
  failed : Text → DbError

-- The statements that the repositories make. A query does not change the tables; the others return
-- the tables after them.
pub record Database : Type 1 where
  pub State : Type 0
  -- `Where("username = ?", name).First(&user)` and `First(&user, id)`
  pub first_user : Text → State → Result DbError UserEntity
  pub first_user_by_id : ℕ → State → Result DbError UserEntity
  -- `Create(entity)`; a message comes back with its id
  pub create_user : UserEntity → State → Result DbError (Unit {0}) × State
  pub create_message : MessageEntity → State → Result DbError ℕ × State
  pub create_session : SessionEntity → State → Result DbError (Unit {0}) × State
  -- `Update("last_seen", now)` for a user's id
  pub update_last_seen : ℕ → ℕ → State → Result DbError (Unit {0}) × State
  -- `Preload("User").First(&msg, id)` and `Preload("User").Where("session_id = ?", id).First(&s)`
  pub first_message : ℕ → State → Result DbError MessageEntity
  pub first_session : Text → State → Result DbError SessionEntity
  -- `Model(&msg).Updates(...)` of the four columns, by the row, the new content and the time
  pub update_content : MessageEntity → Text → ℕ → State → Result DbError (Unit {0}) × State
  -- `Order("timestamp desc").Offset(offset).Limit(limit).Find(&messages)` with the users
  pub find_messages : ℕ → ℕ → State → Result DbError (List MessageEntity)
  -- `Where(...).Delete(&SessionEntity{})` by session id and by `expires_at < now`
  pub delete_session : Text → State → Result DbError (Unit {0}) × State
  pub delete_expired : ℕ → State → Result DbError (Unit {0}) × State
  pub count_users : State → Result DbError ℕ
  pub count_messages : State → Result DbError ℕ

-- Each row is at most as late as those before it.
abbrev pub IsDescending : List MessageEntity → Type 0
IsDescending [] = Unit {0}
IsDescending (m ∷ ms) = All (λ n. n.timestamp ≤ m.timestamp) ms × IsDescending ms

-- What the code relies on: `ORDER BY timestamp DESC LIMIT n`, and that a deleted session is not found.
pub record Queries (D : Database) : Type 0 where
  pub find_ordered :
      (offset limit : ℕ) (s : D.State) (ms : List MessageEntity)
      → D.find_messages offset limit s ≡ ok ms
      → IsDescending ms × (length ms ≤ limit)

pub record SessionsLawful (D : Database) : Type 0 where
  pub deleted :
      (id : Text) (s : D.State)
      → (D.delete_session id s).0 ≡ ok tt
      → D.first_session id (D.delete_session id s).1 ≡ err record_not_found

-- A user that was created is found by name, with the hash that was stored.
pub record UsersLawful (D : Database) : Type 0 where
  pub created :
      (u : UserEntity) (s : D.State)
      → (D.create_user u s).0 ≡ ok tt
      → (row : UserEntity) × (D.first_user u.username (D.create_user u s).1 ≡ ok row)
        × (row.password ≡ u.password)

-- The users are not in the table of sessions.
pub record UsersApart (D : Database) : Type 0 where
  pub kept :
      (name : Text) (v : SessionEntity) (s : D.State)
      → D.first_user name (D.create_session v s).1 ≡ D.first_user name s
