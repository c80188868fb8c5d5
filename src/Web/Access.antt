-- ===== src/Web/Access.antt =====
-- Who gets a session, and how long it is good for.
use pigeongram_chat.Base.{
  ℕ, ◌≡◌, refl, ◌⊎◌, inl, inr, Bool, true, false, not, ◌||◌, Option, none, some, [], nat_eq,
  list_eq, if-both, if-held, if-unheld, is_empty, arith, Bool-cases,
}
use pigeongram_chat.Base.Text.{Text, trim_space}
use pigeongram_chat.Base.Result.{Result, ok, err}
use pigeongram_chat.Models.{Session, UserEntity}
use pigeongram_chat.Cache.{Cache, IsLawful}
use pigeongram_chat.Repository.{Database, DbError, record_not_found, SessionsLawful}
use pigeongram_chat.Repository.Users
use pigeongram_chat.Repository.Users.{Bcrypt}
use pigeongram_chat.Repository.Sessions
use pigeongram_chat.Web.{
  Site, holds, Reply, Form, remember, remember_user, from_row, from_session, get_user_from_session,
  logout, opened, found_user, validated, login,
}

module _ {D : Database} {C : Cache} where
  -- The cache has the session of a user.
  abbrev pub IsKnown : ℕ → Text → Text → Site D C → Type 0
  IsKnown now id username s =
      (s.has_cache ≡ true)
      × ((C.get_session now id s.cache).0 ≡ ok (some (record { username = username })))

  -- What a reply with a cookie means, whatever the database said.
  validated-holds :
      (now : ℕ) (id given username : Text) (r : Result DbError Bool) (s : Site D C)
      → (validated now id username r s).0.cookie ≡ holds given
      → r ≡ ok true
  unfolding validated
  validated-holds now id given username (ok true) s e = refl
  validated-holds now id given username (ok false) s e = cc
  validated-holds now id given username (err x) s e = cc

  -- Only a right password gets a session: when `LoginHandler` sets the cookie, it was sent a name and
  -- a password that `Validate` accepted.
  pub login-holds :
      (b : Bcrypt) (now : ℕ) (id given : Text) (form : Form) (s : Site D C)
      → (login b now id form s).0.cookie ≡ holds given
      → Users.validate D b (trim_space form.username) form.password s.database ≡ ok true
  unfolding login
  login-holds b now id given form s e = ground (
    arith,
    validated-holds now id given (trim_space form.username)
        (Users.validate D b (trim_space form.username) form.password s.database) s,
  )

  from_row-missing :
      (now : ℕ) (id : Text) (s : Site D C)
      → D.first_session id s.database ≡ err record_not_found
      → (from_row now id (Sessions.get_by_id D id s.database) s).0 ≡ []
  unfolding from_row Sessions.get_by_id
  from_row-missing now id s e = rw (e, from_row, Sessions.get_by_id) refl

  from_session-missing :
      (now : ℕ) (id : Text) (r : Result Text (Option Session)) (s : Site D C)
      → r ≡ ok none
      → D.first_session id s.database ≡ err record_not_found
      → (from_session now id r s).0 ≡ []
  unfolding from_session
  from_session-missing now id (ok none) s e missing = from_row-missing now id s missing
  from_session-missing now id (ok (some v)) s e missing = cc
  from_session-missing now id (err x) s e missing = cc

  -- Neither the database nor the cache has the session.
  get_user_from_session-missing :
      (now : ℕ) (id : Text) (s : Site D C)
      → (s.has_cache ≡ false) ⊎ ((C.get_session now id s.cache).0 ≡ ok none)
      → D.first_session id s.database ≡ err record_not_found
      → (get_user_from_session now (some id) s).0 ≡ []
  unfolding get_user_from_session
  get_user_from_session-missing now id s (inl e) missing =
      if-unheld (λ (p : Text × Site D C). p.0 ≡ []) s.has_cache _ e
        (from_row-missing now id s missing)
  get_user_from_session-missing now id s (inr e) missing =
      if-both (λ (p : Text × Site D C). p.0 ≡ []) s.has_cache
        (from_session-missing now id (C.get_session now id s.cache).0
          (record s { cache = (C.get_session now id s.cache).1 }) e missing)
        (from_row-missing now id s missing)

  -- After `LogoutHandler`, if neither the database nor the cache failed, the old cookie stands for nobody.
  pub logout-forgets :
      (now : ℕ) (id : Text) (s : Site D C)
      → IsLawful C
      → SessionsLawful D
      → (D.delete_session id s.database).0 ≡ ok tt
      → (C.invalidate_session id s.cache).0 ≡ ok tt
      → (get_user_from_session now (some id) (logout (some id) s).1).0 ≡ []
  unfolding logout Sessions.delete
  logout-forgets now id s lawful rows deleted dropped = elim (Bool-cases s.has_cache) [
    | inl e ↦
        if-held (λ (t : Site D C). (get_user_from_session now (some id) t).0 ≡ []) s.has_cache _ e
          (get_user_from_session-missing now id _
            (inr (lawful.get-invalidate_session now id s.cache dropped))
            (rows.deleted id s.database deleted))
    | inr e ↦
        if-unheld (λ (t : Site D C). (get_user_from_session now (some id) t).0 ≡ []) s.has_cache _ e
          (get_user_from_session-missing now id _ (inl e) (rows.deleted id s.database deleted))
  ]

module _ {D : Database} {C : Cache} (now : ℕ) (id username : Text) (lawful : IsLawful C)
    (stores : (t : C.State)
      → (C.set_session now id (some (record { username = username })) t).0 ≡ ok tt) where
  remember-IsKnown :
      (s : Site D C) → s.has_cache ≡ true → IsKnown now id username (remember now id username s)
  unfolding remember
  remember-IsKnown s e =
      if-held (IsKnown now id username) s.has_cache s e
        (e, lawful.get-set_session now id (record { username = username }) s.cache (stores s.cache))

  -- If the reply sets the cookie, the cache has the session.
  abbrev KnownIfHeld : Reply × Site D C → Type 0
  KnownIfHeld p = p.0.cookie ≡ holds id → IsKnown now id username p.1

  opened-IsKnown :
      (r : Result DbError (Unit {0})) (s : Site D C)
      → s.has_cache ≡ true
      → KnownIfHeld (opened now id username r s)
  unfolding opened
  opened-IsKnown (ok _) s e held = remember-IsKnown s e
  opened-IsKnown (err x) s e held = cc

  found_user-IsKnown :
      (r : Result DbError (Option UserEntity)) (s : Site D C)
      → s.has_cache ≡ true
      → KnownIfHeld (found_user now id username r s)
  unfolding found_user remember_user
  found_user-IsKnown (ok (some user)) s e held =
      opened-IsKnown (Sessions.create_user_session D now user.id id s.database).0 _
        (if-both (λ (t : Site D C). t.has_cache ≡ true) s.has_cache e e) held
  found_user-IsKnown (ok none) s e held = cc
  found_user-IsKnown (err x) s e held = cc

  validated-IsKnown :
      (r : Result DbError Bool) (s : Site D C)
      → s.has_cache ≡ true
      → KnownIfHeld (validated now id username r s)
  unfolding validated
  validated-IsKnown (ok true) s e held =
      found_user-IsKnown (Users.get_by_username D username s.database) s e held
  validated-IsKnown (ok false) s e held = cc
  validated-IsKnown (err x) s e held = cc

  get_user_from_session-IsKnown :
      (s : Site D C)
      → IsKnown now id username s
      → (get_user_from_session now (some id) s).0 ≡ username
  unfolding get_user_from_session from_session
  get_user_from_session-IsKnown s (e, k) =
      if-held (λ (p : Text × Site D C). p.0 ≡ username) s.has_cache _ e (rw (k, from_session) refl)

-- A browser that `LoginHandler` gives the cookie is recognised, right after it, as the user whose name
-- was entered, if the cache keeps its contract and stores the session.
pub login-recognised :
    {D : Database} {C : Cache} (b : Bcrypt) (now : ℕ) (id : Text) (form : Form) (s : Site D C)
    → IsLawful C
    → ((t : C.State)
        → (C.set_session now id (some (record { username = trim_space form.username })) t).0
          ≡ ok tt)
    → s.has_cache ≡ true
    → (login b now id form s).0.cookie ≡ holds id
    → (get_user_from_session now (some id) (login b now id form s).1).0 ≡ trim_space form.username
unfolding login
login-recognised b now id form s lawful stores e held =
    get_user_from_session-IsKnown now id (trim_space form.username) lawful stores _ (
      if-both (KnownIfHeld now id (trim_space form.username) lawful stores) (not form.is_post)
        (λ h. cc)
        (if-both (KnownIfHeld now id (trim_space form.username) lawful stores)
          (is_empty (trim_space form.username) || is_empty form.password) (λ h. cc)
          (validated-IsKnown now id (trim_space form.username) lawful stores _ s e))
        held)
