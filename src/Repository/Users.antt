-- ===== src/Repository/Users.antt =====
-- `UserRepository` (repository/postgres/user_repo.go) and the hashing of pkg/crypto/password.go. The
-- hash itself is bcrypt, a parameter.
pub mod Accounts
use pigeongram_chat.Base.{ℕ, ◌≡◌, Bool, true, false, Option, none, some}
use pigeongram_chat.Base.Text.{Text}
use pigeongram_chat.Base.Result.{Result, ok, err}
use pigeongram_chat.Models.{User, UserEntity}
use pigeongram_chat.Repository.{Database, DbError, record_not_found, failed}

-- `bcrypt.GenerateFromPassword` at the default cost, with the salt it draws given, and
-- `bcrypt.CompareHashAndPassword` as a test.
pub record Bcrypt : Type 0 where
  pub generate : ℕ → Text → Result Text Text
  pub compare : Text → Text → Bool

-- A hash accepts the password that it was made of.
abbrev pub Accepts : Bcrypt → Type 0
Accepts b = (salt : ℕ) (p h : Text) → b.generate salt p ≡ ok h → b.compare h p ≡ true

unfoldable pub hash_password : Bcrypt → ℕ → Text → Result Text Text
hash_password b salt password = b.generate salt password

unfoldable pub check_password_hash : Bcrypt → Text → Text → Bool
check_password_hash b password hash = b.compare hash password

module _ (D : Database) where
  -- `GetByUsername`: a missing record is no error.
  unfoldable pub get_by_username : Text → D.State → Result DbError (Option UserEntity)
  get_by_username username s = elim (D.first_user username s) [
    | ok user ↦ ok (some user)
    | err record_not_found ↦ ok none
    | err (failed e) ↦ err (failed e)
  ]

  -- `GetByID`
  unfoldable pub get_by_id : ℕ → D.State → Result DbError UserEntity
  get_by_id id s = D.first_user_by_id id s

  -- `UpdateLastSeen`, at the time `now`
  unfoldable pub update_last_seen : ℕ → ℕ → D.State → Result DbError (Unit {0}) × D.State
  update_last_seen now user_id s = D.update_last_seen user_id now s

  -- `Count`
  unfoldable pub count : D.State → Result DbError ℕ
  count s = D.count_users s

module _ (D : Database) (b : Bcrypt) where
  -- `Create`
  unfoldable pub create : ℕ → User → D.State → Result DbError (Unit {0}) × D.State
  unfolding hash_password
  create salt user s = elim (hash_password b salt user.password) [
    | err e ↦ (err (failed e), s)
    | ok hashed ↦
        D.create_user
          (record {
            id = 0;
            username = user.username;
            password = hashed;
            last_seen = 0;
            created_at = 0;
            updated_at = 0;
            deleted_at = none;
          })
          s
  ]

  -- `Validate`
  unfoldable pub validate : Text → Text → D.State → Result DbError Bool
  unfolding get_by_username check_password_hash
  validate username password s = elim (get_by_username D username s) [
    | err e ↦ err e
    | ok none ↦ ok false
    | ok (some user) ↦ ok (check_password_hash b password user.password)
  ]
