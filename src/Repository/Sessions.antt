-- ===== src/Repository/Sessions.antt =====
-- `SessionRepository` (repository/postgres/session_repo.go).
use pigeongram_chat.Base.{ℕ, ◌+◌, ◌*◌, Option, none, some, []}
use pigeongram_chat.Base.Text.{Text}
use pigeongram_chat.Base.Time.{hour}
use pigeongram_chat.Base.Result.{Result, ok, err}
use pigeongram_chat.Models.{SessionEntity}
use pigeongram_chat.Repository.{Database, DbError, record_not_found, failed}

module _ (D : Database) where
  -- `Create`
  unfoldable pub create : SessionEntity → D.State → Result DbError (Unit {0}) × D.State
  create session s = D.create_session session s

  -- `GetByID`: a missing record is no error.
  unfoldable pub get_by_id : Text → D.State → Result DbError (Option SessionEntity)
  get_by_id session_id s = elim (D.first_session session_id s) [
    | ok session ↦ ok (some session)
    | err record_not_found ↦ ok none
    | err (failed e) ↦ err (failed e)
  ]

  -- `Delete`
  unfoldable pub delete : Text → D.State → Result DbError (Unit {0}) × D.State
  delete session_id s = D.delete_session session_id s

  -- `Cleanup`, at the time `now`
  unfoldable pub cleanup : ℕ → D.State → Result DbError (Unit {0}) × D.State
  cleanup now s = D.delete_expired now s

  -- `CreateUserSession`, at the time `now`: a session is good for a day.
  unfoldable pub create_user_session : ℕ → ℕ → Text → D.State → Result DbError (Unit {0}) × D.State
  unfolding create
  create_user_session now user_id session_id s =
      create
        (record {
          id = 0;
          session_id = session_id;
          user_id = user_id;
          expires_at = now + 24 * hour;
          created_at = 0;
          updated_at = 0;
          deleted_at = none;
          user = record {
            id = 0;
            username = [];
            password = [];
            last_seen = 0;
            created_at = 0;
            updated_at = 0;
            deleted_at = none;
          };
        })
        s
