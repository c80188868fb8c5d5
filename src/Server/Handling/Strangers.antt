-- ===== src/Server/Handling/Strangers.antt =====
-- What a request gets whose cookie stands for nobody.
use pigeongram_chat.Base.{
  ℕ, ◌≡◌, refl, sym, ap, subst, ◌⊎◌, inl, inr, Bool, true, false, nat_eq, list_eq, Option, none,
  some, [], Option-cases, if-both, if-held, is_empty,
}
use pigeongram_chat.Base.Text.{Text, bytes}
use pigeongram_chat.Base.Result.{Result, ok, err}
use pigeongram_chat.Models.{Session, SessionEntity, is_expired}
use pigeongram_chat.Cache.{Cache}
use pigeongram_chat.Repository.{Database, DbError}
use pigeongram_chat.Repository.Sessions
use pigeongram_chat.Web.{
  Site, Cookie, remember, from_row, from_session, get_user_from_session, auth_middleware,
}
use pigeongram_chat.Web.Debug
use pigeongram_chat.Web.Debug.{Page}
use pigeongram_chat.Web.Debug.Notices
use pigeongram_chat.Web.Files
use pigeongram_chat.Web.Uploads
use pigeongram_chat.Web.Sockets
use pigeongram_chat.Server.{Handler}
use pigeongram_chat.Server.App.{
  Surroundings, App, Request, Chances, Response, shows, replies, fails, site, with_site,
}
use pigeongram_chat.Server.Handling.{Outcome, with_user, handle_user, handle}

-- To look up the user changes nothing but the cache.
module _ {D : Database} {C : Cache} where
  abbrev OnlyCache : Site D C → Site D C → Type 0
  OnlyCache s s' = (t : C.State) × (s' ≡ record s { cache = t })

  from_row-OnlyCache :
      (now : ℕ) (id : Text) (r : Result DbError (Option SessionEntity)) (s : Site D C)
      → OnlyCache s (from_row now id r s).1
  unfolding from_row remember
  from_row-OnlyCache now id (ok (some row)) s =
      if-both (λ (p : Text × Site D C). OnlyCache s p.1) (is_expired now row) (s.cache, refl)
        (if-both (OnlyCache s) s.has_cache (_, refl) (s.cache, refl))
  from_row-OnlyCache now id (ok none) s = (s.cache, refl)
  from_row-OnlyCache now id (err e) s = (s.cache, refl)

  from_session-OnlyCache :
      (now : ℕ) (id : Text) (r : Result Text (Option Session)) (s : Site D C)
      → OnlyCache s (from_session now id r s).1
  unfolding from_session
  from_session-OnlyCache now id (ok (some v)) s = (s.cache, refl)
  from_session-OnlyCache now id (ok none) s =
      from_row-OnlyCache now id (Sessions.get_by_id D id s.database) s
  from_session-OnlyCache now id (err e) s =
      from_row-OnlyCache now id (Sessions.get_by_id D id s.database) s

  pub get_user-OnlyCache :
      (now : ℕ) (cookie : Option Text) (s : Site D C)
      → OnlyCache s (get_user_from_session now cookie s).1
  unfolding get_user_from_session
  get_user-OnlyCache now none s = (s.cache, refl)
  get_user-OnlyCache now (some id) s =
      if-both (λ (p : Text × Site D C). OnlyCache s p.1) s.has_cache
        (let (t, e) =
            from_session-OnlyCache now id (C.get_session now id s.cache).0
              (record s { cache = (C.get_session now id s.cache).1 }) in
          (t, e))
        (from_row-OnlyCache now id (Sessions.get_by_id D id s.database) s)

-- The handlers that log in and out need no user.
unfoldable pub is_account : Handler → Bool
is_account Handler.login_handler = true
is_account Handler.register_handler = true
is_account Handler.logout_handler = true
is_account h = false

abbrev pub PageForAll : Page → Type 0
PageForAll (Page.redirects t) = Unit
PageForAll (Page.renders template fields) =
    (template ≡ bytes "login.html") ⊎ (template ≡ bytes "register.html")

-- What anybody may get: a redirect that leaves the cookie alone, the page to log in or register, the
-- status 401 or 404, or an answer of a library's handler.
abbrev pub ForAll : {O : Type 0} → Response O → Type 0
ForAll (shows page) = PageForAll page
ForAll (replies reply) = reply.cookie ≡ Cookie.untouched
ForAll (fails n) = (n ≡ 401) ⊎ (n ≡ 404)
ForAll Response.elsewhere = Unit
ForAll _ = ⊥

module _ {E : Surroundings} where
  -- Nothing but the cache may differ.
  abbrev pub Untouched : App E → App E → Type 0
  Untouched a a' =
      (t : E.outside.cache.State) × (a' ≡ record a { manager = record (a.manager) { cache = t } })

  abbrev pub TurnedAway : App E → Outcome E → Type 0
  TurnedAway a o =
      (answer : Response E.Content) × (a' : App E) × (o ≡ some (answer, a'))
      × ForAll answer
      × Untouched a a'

  -- A stranger gets 401 whatever the body decodes to.
  upload_complete-nobody :
      (r : Request) (c : Chances) (a : App E)
      → (answer : Response E.Content) × (handle_user Handler.upload_complete r c [] a
          ≡ some (answer, a))
        × ForAll answer
  unfolding handle_user Uploads.upload_complete
  upload_complete-nobody r c a = elim (Option-cases r.report) [
    | inl e ↦ (fails 401, rw (e, handle_user, Uploads.upload_complete), inl refl)
    | inr (report, e) ↦ (fails 401, rw (e, handle_user, Uploads.upload_complete), inl refl)
  ]

  delete_file-nobody :
      (r : Request) (c : Chances) (a : App E)
      → (answer : Response E.Content) × (handle_user Handler.delete_file r c [] a
          ≡ some (answer, a))
        × ForAll answer
  unfolding handle_user Files.delete_handler
  delete_file-nobody r c a = elim (Option-cases r.deletion) [
    | inl e ↦ (fails 401, rw (e, handle_user, Files.delete_handler), inl refl)
    | inr (report, e) ↦ (fails 401, rw (e, handle_user, Files.delete_handler), inl refl)
  ]

  handle_user-nobody :
      (h : Handler) (r : Request) (c : Chances) (a : App E)
      → is_account h ≡ false
      → (answer : Response E.Content) × (handle_user h r c [] a ≡ some (answer, a)) × ForAll answer
  unfolding handle_user is_account Debug.login_page Debug.register_page Debug.chat_page
      Debug.file_page Sockets.web_socket_handler Uploads.request_upload Files.list_files_handler
      Files.download_handler Uploads.proxy_download Notices.test_file_notification
      Debug.debug_websocket Notices.debug_send_test_event Debug.debug_check_file
      Debug.debug_last_messages Debug.debug_test_minio Debug.debug_file_exists
  handle_user-nobody Handler.login_page r c a e = (_, refl, inl refl)
  handle_user-nobody Handler.register_page r c a e = (_, refl, inr refl)
  handle_user-nobody Handler.chat_page r c a e = (_, refl, tt)
  handle_user-nobody Handler.file_page r c a e = (_, refl, tt)
  handle_user-nobody Handler.web_socket_handler r c a e = (_, refl, inl refl)
  handle_user-nobody Handler.request_upload r c a e = (_, refl, inl refl)
  handle_user-nobody Handler.upload_complete r c a e = upload_complete-nobody r c a
  handle_user-nobody Handler.list_files r c a e = (_, refl, inl refl)
  handle_user-nobody Handler.get_download_url r c a e = (_, refl, inl refl)
  handle_user-nobody Handler.delete_file r c a e = delete_file-nobody r c a
  handle_user-nobody Handler.proxy_download r c a e = (_, refl, inl refl)
  handle_user-nobody Handler.test_file_notification r c a e = (_, refl, inl refl)
  handle_user-nobody Handler.debug_web_socket r c a e = (_, refl, inl refl)
  handle_user-nobody Handler.debug_send_test_event r c a e = (_, refl, inl refl)
  handle_user-nobody Handler.debug_check_file r c a e = (_, refl, inl refl)
  handle_user-nobody Handler.debug_last_messages r c a e = (_, refl, inl refl)
  handle_user-nobody Handler.debug_test_minio r c a e = (_, refl, inl refl)
  handle_user-nobody Handler.debug_file_exists r c a e = (_, refl, inl refl)
  handle_user-nobody Handler.prometheus r c a e = (_, refl, tt)
  handle_user-nobody Handler.static_files r c a e = (_, refl, tt)
  handle_user-nobody (Handler.auth_middleware h) r c a e = (_, refl, tt)
  handle_user-nobody Handler.login_handler r c a e = cc
  handle_user-nobody Handler.register_handler r c a e = cc
  handle_user-nobody Handler.logout_handler r c a e = cc

  with_user-nobody :
      (h : Handler) (r : Request) (c : Chances) (a : App E)
      → is_account h ≡ false
      → (get_user_from_session c.now r.cookie (site a)).0 ≡ []
      → TurnedAway a (with_user (handle_user h r c) r c a)
  unfolding with_user
  with_user-nobody h r c a e nobody =
      let a' = with_site (get_user_from_session c.now r.cookie (site a)).1 a in
      let (answer, done, shown) = handle_user-nobody h r c a' e in
      let (t, same) = get_user-OnlyCache c.now r.cookie (site a) in
      (
        answer,
        a',
        subst (λ u. handle_user h r c u a' ≡ some (answer, a')) (sym nobody) done,
        shown,
        (t, ap (λ s. with_site s a) same),
      )

  auth_middleware-nobody :
      (h : Handler) (r : Request) (c : Chances) (a : App E)
      → (get_user_from_session c.now r.cookie (site a)).0 ≡ []
      → TurnedAway a (handle (Handler.auth_middleware h) r c a)
  unfolding handle auth_middleware
  auth_middleware-nobody h r c a nobody =
      let (t, same) = get_user-OnlyCache c.now r.cookie (site a) in
      if-held (TurnedAway a) (is_empty (get_user_from_session c.now r.cookie (site a)).0) _
        (ap is_empty nobody) (_, _, refl, refl, (t, ap (λ s. with_site s a) same))

  -- Whoever has no session, and does not log in, register or log out, gets only a redirect, the page to
  -- log in or register, 401, or what a library's handler answers, and changes nothing but the cache.
  pub handle-nobody :
      (h : Handler) (r : Request) (c : Chances) (a : App E)
      → is_account h ≡ false
      → (get_user_from_session c.now r.cookie (site a)).0 ≡ []
      → TurnedAway a (handle h r c a)
  unfolding handle is_account
  handle-nobody Handler.login_handler r c a e nobody = cc
  handle-nobody Handler.register_handler r c a e nobody = cc
  handle-nobody Handler.logout_handler r c a e nobody = cc
  handle-nobody Handler.prometheus r c a e nobody = (_, _, refl, tt, (a.manager.cache, refl))
  handle-nobody Handler.static_files r c a e nobody = (_, _, refl, tt, (a.manager.cache, refl))
  handle-nobody (Handler.auth_middleware h) r c a e nobody = auth_middleware-nobody h r c a nobody
  handle-nobody h r c a e nobody = with_user-nobody h r c a e nobody
