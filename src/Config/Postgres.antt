-- ===== src/Config/Postgres.antt =====
-- `InitPostgres` (config/database.go): the statements that it runs, in order. The text of a statement is
-- not modelled, only its kind and the name in it; the connection is a parameter, which says of each
-- statement whether it fails.
use pigeongram_chat.Base.{
  ◌≡◌, refl, Bool, true, false, List, [], ◌∷◌, ◌++◌, if◌then◌else◌, all, map, arith, subst, Option,
  none, some, inl, inr,
}
use mathlib.Core.Option.{none-ne-some, some-injective}
use pigeongram_chat.Base.Text.{Text, bytes}
use pigeongram_chat.Base.Result.{Result, ok, err, Result-cases}
use pigeongram_chat.Config.{DatabaseConfig}

pub data Statement : Type 0 where
  drop_view drop_function drop_table : Text → Statement
  create_extension create_table create_index create_function create_view : Text → Statement

-- Opening the database, `db.DB()`, and `Exec`.
pub record Connection : Type 1 where
  pub State : Type 0
  pub connect : Result Text State
  pub pool : State → Result Text (Unit {0})
  pub exec : Statement → State → Result Text (Unit {0}) × State

-- What was run, for the theorems.
pub record Progress (K : Connection) : Type 0 where
  pub state : K.State
  pub statements : List Statement

-- The statements of a reset, and those that follow the tables, whose errors are not returned.
abbrev pub reset_statements : List Statement
reset_statements =
    drop_view (bytes "active_users")
    ∷ drop_function (bytes "get_recent_messages(INTEGER)")
    ∷ drop_table (bytes "sessions")
    ∷ drop_table (bytes "messages")
    ∷ drop_table (bytes "users")
    ∷ []

abbrev pub table_names : List Text
table_names = bytes "users" ∷ bytes "messages" ∷ bytes "sessions" ∷ []

abbrev pub index_statements : List Statement
index_statements = map create_index (
    bytes "idx_users_username"
    ∷ bytes "idx_users_last_seen"
    ∷ bytes "idx_messages_timestamp"
    ∷ bytes "idx_messages_user_id"
    ∷ bytes "idx_sessions_session_id"
    ∷ bytes "idx_sessions_expires_at"
    ∷ bytes "idx_sessions_user_id"
    ∷ [])

abbrev pub last_statements : List Statement
last_statements =
    index_statements
    ++ (create_function (bytes "get_recent_messages") ∷ create_view (bytes "active_users") ∷ [])

module _ (K : Connection) where
  -- A statement whose error is not returned.
  unfoldable pub run : Statement → Progress K → Progress K
  run q p = record { state = (K.exec q p.state).1; statements = p.statements ++ (q ∷ []) }

  unfoldable pub run_all : List Statement → Progress K → Progress K
  unfolding run
  run_all [] p = p
  run_all (q ∷ qs) p = run_all qs (run q p)

  abbrev failed_table : Text → Text → Text
  failed_table name e = bytes "ошибка создания таблицы " ++ (name ++ (bytes ": " ++ e))

  -- The tables, up to the first that fails.
  unfoldable pub create_tables : List Text → Progress K → Result Text (Unit {0}) × Progress K
  unfolding run
  create_tables [] p = (ok tt, p)
  create_tables (name ∷ names) p =
      let rest = create_tables names (run (create_table name) p) in
      elim (K.exec (create_table name) p.state).0 [
        | err e ↦ (err (failed_table name e), run (create_table name) p)
        | ok _ ↦ rest
      ]

  -- The functions and views come only after all tables.
  unfoldable pub after_tables :
      Result Text (Unit {0}) × Progress K → Result Text (Unit {0}) × Progress K
  unfolding run_all
  after_tables (err e, p) = (err e, p)
  after_tables (ok _, p) = (ok tt, run_all last_statements p)

  unfoldable pub prepared : DatabaseConfig → Progress K → Progress K
  unfolding run_all
  prepared c p =
      run (create_extension (bytes "uuid-ossp"))
        (if c.reset_db then run_all reset_statements p else p)

  unfoldable pub init_postgres : DatabaseConfig → Result Text (Unit {0}) × Option (Progress K)
  unfolding prepared create_tables after_tables
  init_postgres c = elim K.connect [
    | err e ↦ (err (bytes "ошибка подключения к БД: " ++ e), none)
    | ok s ↦ elim (K.pool s) [
      | err e ↦ (err (bytes "ошибка получения sql.DB: " ++ e), none)
      | ok _ ↦
          let (r, p) =
            after_tables
              (create_tables table_names (prepared c (record { state = s; statements = [] }))) in
          (r, some p)
    ]
  ]

-- A statement that keeps what is stored.
abbrev pub keeps : Statement → Bool
keeps (drop_view name) = false
keeps (drop_function name) = false
keeps (drop_table name) = false
keeps _ = true

module _ (K : Connection) where
  abbrev Harmless : Progress K → Type 0
  Harmless p = all keeps p.statements ≡ true

  all-snoc :
      (qs : List Statement) (q : Statement)
      → all keeps qs ≡ true
      → keeps q ≡ true
      → all keeps (qs ++ (q ∷ [])) ≡ true
  unfolding all
  all-snoc [] q h k = rw k refl
  all-snoc (r ∷ qs) q h k = ground (arith, all-snoc qs q, h, k)

  run-Harmless :
      (q : Statement) (p : Progress K) → Harmless p → keeps q ≡ true → Harmless (run K q p)
  unfolding run
  run-Harmless q p h k = all-snoc p.statements q h k

  run_all-Harmless :
      (qs : List Statement) (p : Progress K)
      → Harmless p
      → all keeps qs ≡ true
      → Harmless (run_all K qs p)
  unfolding run_all all
  run_all-Harmless [] p h k = h
  run_all-Harmless (q ∷ qs) p h k =
      run_all-Harmless qs (run K q p) (run-Harmless q p h (ground (arith, k))) (ground (arith, k))

  create_tables-Harmless :
      (names : List Text) (p : Progress K) → Harmless p → Harmless (create_tables K names p).1
  unfolding create_tables
  create_tables-Harmless [] p h = h
  create_tables-Harmless (name ∷ names) p h =
      elim (Result-cases (K.exec (create_table name) p.state).0) [
        | inl (u, e) ↦
            rw (e, create_tables)
              (create_tables-Harmless names _ (run-Harmless (create_table name) p h refl))
        | inr (e, failed) ↦ rw (failed, create_tables) (run-Harmless (create_table name) p h refl)
      ]

  after_tables-Harmless :
      (r : Result Text (Unit {0})) (p : Progress K)
      → Harmless p
      → Harmless (after_tables K (r, p)).1
  unfolding after_tables all
  after_tables-Harmless (err e) p h = h
  after_tables-Harmless (ok u) p h = run_all-Harmless last_statements p h refl

  prepared-Harmless :
      (c : DatabaseConfig) (p : Progress K)
      → c.reset_db ≡ false
      → Harmless p
      → Harmless (prepared K c p)
  unfolding prepared
  prepared-Harmless c p keep h =
      rw (keep, prepared) (run-Harmless (create_extension (bytes "uuid-ossp")) p h refl)

  -- Without the flag for a reset, whatever fails, `InitPostgres` runs no statement that drops anything.
  pub init_postgres-keeps :
      (c : DatabaseConfig) (p : Progress K)
      → c.reset_db ≡ false
      → (init_postgres K c).1 ≡ some p
      → all keeps p.statements ≡ true
  unfolding init_postgres all
  init_postgres-keeps c p keep done = elim (Result-cases K.connect) [
    | inl (s, e) ↦ elim (Result-cases (K.pool s)) [
      | inl (u, f) ↦
          let t =
            create_tables K table_names (prepared K c (record { state = s; statements = [] })) in
          subst Harmless (some-injective _ _ (rw (e, init_postgres, f) at done)) (
            after_tables-Harmless t.0 t.1 (
              create_tables-Harmless table_names _
                (prepared-Harmless c (record { state = s; statements = [] }) keep refl)))
      | inr (x, f) ↦ absurd (none-ne-some _ (rw (e, init_postgres, f) at done))
    ]
    | inr (x, e) ↦ absurd (none-ne-some _ (rw (e, init_postgres) at done))
  ]
