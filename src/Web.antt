-- ===== src/Web.antt =====
-- The pages that log users in and out (web/handlers.go): who a request comes from, and the replies of
-- the handlers. The session id that `generateSessionID` draws is given; all replies here are redirects.
pub mod Access
pub mod Expiry
pub mod Registered
pub mod Files
pub mod Uploads
pub mod Debug
pub mod Sockets
pub mod Render
use pigeongram_chat.Base.{
  ℕ, Bool, true, false, not, ◌||◌, Option, none, some, List, [], ◌==◌, nat_eq, list_eq,
  if◌then◌else◌, is_empty,
}
use pigeongram_chat.Base.Text.{Text, bytes, trim_space}
use pigeongram_chat.Base.Result.{Result, ok, err}
use pigeongram_chat.Models.{User, Session, UserEntity, SessionEntity, is_expired}
use pigeongram_chat.Cache.{Cache}
use pigeongram_chat.Repository.{Database, DbError}
use pigeongram_chat.Repository.Users
use pigeongram_chat.Repository.Users.{Bcrypt}
use pigeongram_chat.Repository.Sessions

-- The variables that `InitStores` sets.
pub record Site (D : Database) (C : Cache) : Type 0 where
  pub database : D.State
  pub has_cache : Bool
  pub cache : C.State

-- What a reply does to the cookie `session_id`.
pub data Cookie : Type 0 where
  untouched : Cookie
  holds : Text → Cookie
  cleared : Cookie

pub record Reply : Type 0 where
  pub location : Text
  pub cookie : Cookie

pub record Form : Type 0 where
  pub is_post : Bool
  pub username : Text
  pub password : Text
  pub confirm : Text

abbrev pub go_to : Text → Reply
go_to location = record { location = location; cookie = untouched }

-- A lookup that failed counts as no user.
abbrev pub exists : Result DbError (Option UserEntity) → Bool
exists (ok (some user)) = true
exists (ok none) = false
exists (err e) = false

module _ {D : Database} {C : Cache} where
  -- The session and the user go into the cache, if there is one; an error is not looked at.
  unfoldable pub remember : ℕ → Text → Text → Site D C → Site D C
  remember now id username s =
      if s.has_cache
      then record s {
        cache = (C.set_session now id (some (record { username = username })) s.cache).1;
      }
      else s

  unfoldable pub remember_user : ℕ → Text → User → Site D C → Site D C
  remember_user now username user s =
      if s.has_cache
      then record s { cache = (C.set_user now username (some user) s.cache).1 }
      else s

  unfoldable pub from_row :
      ℕ → Text → Result DbError (Option SessionEntity) → Site D C → Text × Site D C
  unfolding remember
  from_row now id (ok (some row)) s =
      if is_expired now row
      then ([], s)
      else (row.user.username, remember now id row.user.username s)
  from_row now id (ok none) s = ([], s)
  from_row now id (err e) s = ([], s)

  unfoldable pub from_session : ℕ → Text → Result Text (Option Session) → Site D C → Text × Site D C
  unfolding from_row
  from_session now id (ok (some v)) s = (v.username, s)
  from_session now id (ok none) s = from_row now id (Sessions.get_by_id D id s.database) s
  from_session now id (err e) s = from_row now id (Sessions.get_by_id D id s.database) s

  -- `getUserFromSession`: "" for nobody.
  unfoldable pub get_user_from_session : ℕ → Option Text → Site D C → Text × Site D C
  unfolding from_session from_row
  get_user_from_session now none s = ([], s)
  get_user_from_session now (some id) s =
      if s.has_cache
      then from_session now id (C.get_session now id s.cache).0
          (record s { cache = (C.get_session now id s.cache).1 })
      else from_row now id (Sessions.get_by_id D id s.database) s

  -- `AuthMiddleware`: the reply for nobody, or what `next` does.
  unfoldable pub auth_middleware {ℓ} :
      {R : Type ℓ} → ℕ → Option Text → (Reply → Site D C → R) → (Site D C → R) → Site D C → R
  unfolding get_user_from_session
  auth_middleware now cookie refuse next s =
      let (username, s') = get_user_from_session now cookie s in
      if is_empty username then refuse (go_to (bytes "/")) s' else next s'

  -- `LogoutHandler`
  unfoldable pub logout : Option Text → Site D C → Reply × Site D C
  logout none s = (record { location = bytes "/"; cookie = cleared }, s)
  logout (some id) s =
      let s' = record s { database = (Sessions.delete D id s.database).1 } in
      (
        record { location = bytes "/"; cookie = cleared },
        (if s.has_cache then record s' { cache = (C.invalidate_session id s.cache).1 } else s'),
      )

  -- The end of `LoginHandler`, once the session is in the database or not.
  unfoldable pub opened : ℕ → Text → Text → Result DbError (Unit {0}) → Site D C → Reply × Site D C
  unfolding remember
  opened now id username (err e) s = (go_to (bytes "/?error=server"), s)
  opened now id username (ok _) s =
      (record { location = bytes "/chat"; cookie = holds id }, remember now id username s)

  -- The user with whom `LoginHandler` goes on.
  unfoldable pub found_user :
      ℕ → Text → Text → Result DbError (Option UserEntity) → Site D C → Reply × Site D C
  unfolding opened remember_user
  found_user now id username (ok (some user)) s =
      let (r, database) = Sessions.create_user_session D now user.id id s.database in
      opened now id username r
        (record (remember_user now username
          (record { username = user.username; password = user.password }) s) {
            database = database;
          })
  found_user now id username (ok none) s = (go_to (bytes "/?error=invalid"), s)
  found_user now id username (err e) s = (go_to (bytes "/?error=invalid"), s)

  unfoldable pub validated : ℕ → Text → Text → Result DbError Bool → Site D C → Reply × Site D C
  unfolding found_user
  validated now id username (ok true) s =
      found_user now id username (Users.get_by_username D username s.database) s
  validated now id username (ok false) s = (go_to (bytes "/?error=invalid"), s)
  validated now id username (err e) s = (go_to (bytes "/?error=invalid"), s)

  -- `LoginHandler`
  unfoldable pub login : Bcrypt → ℕ → Text → Form → Site D C → Reply × Site D C
  unfolding validated
  login b now id form s =
      let username = trim_space form.username in
      if not form.is_post
      then (go_to (bytes "/"), s)
      else if is_empty username || is_empty form.password
      then (go_to (bytes "/?error=empty"), s)
      else validated now id username (Users.validate D b username form.password s.database) s

  -- The end of `RegisterHandler`, with the user that the database has by then.
  unfoldable pub welcomed :
      ℕ → Text → Text → Text → Result DbError (Option UserEntity) → Site D C → Site D C
  unfolding remember remember_user
  welcomed now id username password (ok (some user)) s = remember now id username (
      remember_user now username (record { username = username; password = password })
        (record s { database = (Sessions.create_user_session D now user.id id s.database).1 }))
  welcomed now id username password (ok none) s =
      remember now id username
        (remember_user now username (record { username = username; password = password }) s)
  welcomed now id username password (err e) s =
      remember now id username
        (remember_user now username (record { username = username; password = password }) s)

  unfoldable pub created :
      ℕ → Text → Text → Text → Result DbError (Unit {0}) → Site D C → Reply × Site D C
  unfolding welcomed
  created now id username password (err e) s = (go_to (bytes "/register?error=server"), s)
  created now id username password (ok _) s = (
    record { location = bytes "/chat"; cookie = holds id },
    welcomed now id username password (Users.get_by_username D username s.database) s,
  )

  -- `RegisterHandler`, with the salt that bcrypt draws.
  unfoldable pub register : Bcrypt → ℕ → ℕ → Text → Form → Site D C → Reply × Site D C
  unfolding created
  register b salt now id form s =
      let username = trim_space form.username in
      if not form.is_post
      then (go_to (bytes "/register"), s)
      else if is_empty username || is_empty form.password || not (form.password == form.confirm)
      then (go_to (bytes "/register?error=1"), s)
      else if exists (Users.get_by_username D username s.database)
      then (go_to (bytes "/register?error=exists"), s)
      else let (r, database) =
          Users.create D b salt (record { username = username; password = form.password })
            s.database in
        created now id username form.password r (record s { database = database })
