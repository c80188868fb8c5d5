-- ===== src/Models.antt =====
-- The data that the parts exchange (pkg/models/models.go) and its rows in the database
-- (internal/models/entities.go).
use pigeongram_chat.Base.{ℕ, Bool, false, Option, not, if◌then◌else◌, is_empty, []}
use pigeongram_chat.Base.Text.{Text}
use pigeongram_chat.Base.Time.{after}

pub record Message : Type 0 where
  pub id : ℕ
  pub username : Text
  pub text : Text
  pub timestamp : ℕ
  pub edited : Bool

pub record User : Type 0 where
  pub username : Text
  pub password : Text

pub record Session : Type 0 where
  pub username : Text

pub record UserEntity : Type 0 where
  pub id : ℕ
  pub username : Text
  pub password : Text
  pub last_seen : ℕ
  pub created_at : ℕ
  pub updated_at : ℕ
  pub deleted_at : Option ℕ

pub record MessageEntity : Type 0 where
  pub id : ℕ
  pub user_id : ℕ
  pub content : Text
  pub timestamp : ℕ
  pub created_at : ℕ
  pub updated_at : ℕ
  pub deleted_at : Option ℕ
  pub edited : Bool
  pub edited_at : Option ℕ
  pub user : UserEntity

pub record SessionEntity : Type 0 where
  pub id : ℕ
  pub session_id : Text
  pub user_id : ℕ
  pub expires_at : ℕ
  pub created_at : ℕ
  pub updated_at : ℕ
  pub deleted_at : Option ℕ
  pub user : UserEntity

-- `(*UserEntity).ToDTO`
pub user_dto : UserEntity → User
user_dto u = record { username = u.username; password = u.password }

-- `(*MessageEntity).ToDTO`. The id and the edit mark stay behind.
pub message_dto : MessageEntity → Message
message_dto m = record {
  id = 0;
  username = if not (is_empty m.user.username) then m.user.username else [];
  text = m.content;
  timestamp = m.timestamp;
  edited = false;
}

-- `(*SessionEntity).ToDTO`
pub session_dto : SessionEntity → Session
session_dto s = record { username = if not (is_empty s.user.username) then s.user.username else [] }

-- `(*SessionEntity).IsExpired`, at the time `now`.
unfoldable pub is_expired : ℕ → SessionEntity → Bool
is_expired now s = after now s.expires_at
