-- ===== src/Server/Kept.antt =====
-- A start of the server leaves the tables alone unless it is told to reset them.
use pigeongram_chat.Base.{◌≡◌, refl, true, false, some, all, ap, ◌∙◌}
use pigeongram_chat.Base.Text.{bytes}
use pigeongram_chat.Config.{DatabaseConfig, Env, get_env_as_bool, new_default_config}
use pigeongram_chat.Config.Postgres.{
  Connection, Progress, keeps, init_postgres, init_postgres-keeps,
}
use pigeongram_chat.Server.{Flags, database_config}

unflagged :
    (f : Flags) (env : Env) → f.reset_db ≡ false → database_config f env ≡ new_default_config env
unfolding database_config
unflagged f env flag = rw (flag, database_config) refl

unset :
    (env : Env)
    → get_env_as_bool (bytes "PIGEONGRAM_RESET_DB") false env ≡ false
    → (new_default_config env).reset_db ≡ false
unfolding new_default_config
unset env variable = variable

-- If neither the flag `-reset-db` nor the variable PIGEONGRAM_RESET_DB asks for a reset, a start of the
-- server runs no statement that drops a view, a function or a table, whatever statements fail.
database_config-keeps :
    (K : Connection) (f : Flags) (env : Env) (p : Progress K)
    → f.reset_db ≡ false
    → get_env_as_bool (bytes "PIGEONGRAM_RESET_DB") false env ≡ false
    → (init_postgres K (database_config f env)).1 ≡ some p
    → all keeps p.statements ≡ true
database_config-keeps K f env p flag variable done =
    init_postgres-keeps K (database_config f env) p
      (ap (λ (c : DatabaseConfig). c.reset_db) (unflagged f env flag) ∙ unset env variable) done
