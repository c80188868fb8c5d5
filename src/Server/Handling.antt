-- ===== src/Server/Handling.antt =====
-- What each handler that `main` registers (cmd/server/main.go) does to the state that they share: the
-- handlers of web, for the user that `getUserFromSession` finds in the request.
pub mod Strangers
pub mod Steady
pub mod Answered
pub mod Joined
pub mod Uploaded
pub mod Closed
use pigeongram_chat.Base.{
  ℕ, Bool, Option, none, some, List, if◌then◌else◌, is_empty, ◌==◌, ◌||◌, list_eq, nat_eq,
}
use pigeongram_chat.Base.Text.{Text, bytes}
use pigeongram_chat.Web.{
  Site, Reply, get_user_from_session, auth_middleware, logout, login, register,
}
use pigeongram_chat.Web.Debug
use pigeongram_chat.Web.Debug.{Page, redirects}
use pigeongram_chat.Web.Debug.Notices
use pigeongram_chat.Web.Files
use pigeongram_chat.Web.Files.{Hub, Answer, status, body, FileRequest}
use pigeongram_chat.Web.Uploads
use pigeongram_chat.Web.Uploads.{UploadForm}
use pigeongram_chat.Web.Sockets.{
  Connected, unauthorized, not_upgraded, connected, generate_session_id, web_socket_handler,
}
use pigeongram_chat.Websocket.Manager.{Manager}
use pigeongram_chat.Server.{Handler}
use pigeongram_chat.Server.Mux.{Target, serves, moves_to, not_found, route}
use pigeongram_chat.Server.App
use pigeongram_chat.Server.App.{
  Surroundings, App, Request, Chances, Body, Response, shows, replies, fails, sends, panics, site,
  with_site, hub, with_hub,
}

abbrev pub of_answer : {B : Type 0} {O : Type 0} → (B → Body O) → Answer B → Response O
of_answer f (status n) = fails n
of_answer f (body b) = sends (f b)

abbrev pub file_request : Request → FileRequest
file_request r = record { chat_id = r.chat_id; key = r.key }

-- The response and the state after it; `none` is a panic of the manager, which ends the program.
abbrev pub Outcome : Surroundings → Type 0
Outcome E = Option (Response E.Content × App E)

-- Whether an answer passes `MetricsMiddleware`: it leaves the websocket alone, and counts the others.
abbrev pub passes : Surroundings → Text → Bool
passes E path = path == bytes "/ws" || E.accepts_label path

module _ {E : Surroundings} where
  -- What is done for the user of the session, "" for nobody.
  unfoldable pub with_user : (Text → App E → Outcome E) → Request → Chances → App E → Outcome E
  unfolding get_user_from_session
  with_user next r c a =
      let (username, s) = get_user_from_session c.now r.cookie (site a) in
      next username (with_site s a)

  abbrev pub replied : App E → Reply × Site E.outside.database E.outside.cache → Outcome E
  replied a (reply, s) = some (replies reply, with_site s a)

  unfoldable pub requested : App E → Option (Answer UploadForm) → Outcome E
  requested a none = some (panics, a)
  requested a (some answer) = some (of_answer Body.upload_form answer, a)

  unfoldable pub joined : App E → Connected (Option (Manager E.outside)) → Outcome E
  joined a unauthorized = some (fails 401, a)
  joined a not_upgraded = some (Response.not_upgraded, a)
  joined a (connected none) = none
  joined a (connected (some m)) = some (Response.is_websocket, record a { manager = m })

  unfoldable pub tested : App E → Option (Answer Bool × Manager E.outside) → Outcome E
  tested a none = some (panics, a)
  tested a (some (answer, m)) = some (of_answer Body.sent answer, record a { manager = m })

  -- The handlers of files that only look.
  abbrev pub looked : {B : Type 0} → (B → Body E.Content) → Answer B → App E → Outcome E
  looked f answer a = some (of_answer f answer, a)

  abbrev pub stored :
      {B : Type 0} → (B → Body E.Content) → App E → Answer B × Hub E.store → Outcome E
  stored f a (answer, h) = some (of_answer f answer, with_hub h a)

  unfoldable pub uploaded : Request → Chances → Text → App E → Outcome E
  unfolding Uploads.upload_complete
  uploaded r c username a =
      let (answer, h, totals) =
        Uploads.upload_complete E.store E.client c.now c.later username r.report (hub a) a.totals in
      some (of_answer (λ _. Body.accepted) answer, record (with_hub h a) { totals = totals })

  unfoldable pub notified : Request → Chances → Text → App E → Outcome E
  unfolding Notices.test_file_notification
  notified r c username a =
      let (answer, m) = Notices.test_file_notification c.now username r.chat_id a.manager in
      some (of_answer (λ (chat, name). Body.notified chat name) answer, record a { manager = m })

  -- The handlers for the user of the session.
  unfoldable pub handle_user : Handler → Request → Chances → Text → App E → Outcome E
  unfolding requested joined tested uploaded notified
  handle_user Handler.login_page r c username a =
      some (shows (Debug.login_page username r.error), a)
  handle_user Handler.register_page r c username a =
      some (shows (Debug.register_page username r.error), a)
  handle_user Handler.chat_page r c username a = some (shows (Debug.chat_page username), a)
  handle_user Handler.file_page r c username a =
      some (shows (Debug.file_page username r.chat_id), a)
  handle_user Handler.web_socket_handler r c username a =
      joined a (web_socket_handler c.address c.now username c.upgraded a.manager)
  handle_user Handler.request_upload r c username a =
      requested a
        (Uploads.request_upload E.signer E.client c.now c.later username r.chat_id r.filename)
  handle_user Handler.upload_complete r c username a = uploaded r c username a
  handle_user Handler.list_files r c username a =
      looked Body.file_list (Files.list_files_handler E.store username r.chat_id (hub a)) a
  handle_user Handler.get_download_url r c username a =
      looked Body.link
        (Files.download_handler E.store E.signer E.client username (file_request r) (hub a)) a
  handle_user Handler.delete_file r c username a =
      stored (λ _. Body.removed) a (Files.delete_handler E.store c.now username r.deletion (hub a))
  handle_user Handler.proxy_download r c username a =
      looked Body.download
        (Uploads.proxy_download E.store E.get_object E.size_of username (file_request r) (hub a)) a
  handle_user Handler.test_file_notification r c username a = notified r c username a
  handle_user Handler.debug_web_socket r c username a =
      looked (λ (id, n, redis). Body.connections id n redis)
        (Debug.debug_websocket username (some a.manager)) a
  handle_user Handler.debug_send_test_event r c username a =
      tested a (Notices.debug_send_test_event c.now username r.user r.chat_id a.manager)
  handle_user Handler.debug_check_file r c username a =
      looked Body.checked (Debug.debug_check_file E.store username r.chat_id r.key (hub a)) a
  handle_user Handler.debug_last_messages r c username a =
      looked Body.rows
        (Debug.debug_last_messages E.outside.database username (some a.manager.database)) a
  handle_user Handler.debug_test_minio r c username a =
      looked (λ (names, files). Body.buckets_and_files names files)
        (Debug.debug_test_minio E.store E.buckets username (hub a)) a
  handle_user Handler.debug_file_exists r c username a =
      looked Body.checked (Debug.debug_file_exists E.store username r.key (hub a)) a
  handle_user _ r c username a = some (Response.elsewhere, a)

  -- A request that comes to a handler.
  unfoldable pub handle : Handler → Request → Chances → App E → Outcome E
  unfolding with_user handle_user
  handle Handler.login_handler r c a =
      replied a (login E.bcrypt c.now (generate_session_id c.draws) r.form (site a))
  handle Handler.register_handler r c a =
      replied a (register E.bcrypt c.salt c.now (generate_session_id c.draws) r.form (site a))
  handle Handler.logout_handler r c a = replied a (logout r.cookie (site a))
  handle Handler.prometheus r c a = some (Response.elsewhere, a)
  handle Handler.static_files r c a = some (Response.elsewhere, a)
  handle (Handler.auth_middleware h) r c a =
      auth_middleware c.now r.cookie (λ reply s. some (replies reply, with_site s a))
        (λ s. handle h r c (with_site s a)) (site a)
  handle h r c a = with_user (handle_user h r c) r c a

  unfoldable pub handle_at : Target → Request → Chances → App E → Outcome E
  unfolding handle
  handle_at (serves h) r c a = handle h r c a
  handle_at (moves_to path) r c a = some (shows (redirects path), a)
  handle_at not_found r c a = some (fails 404, a)

  -- What the mux does for a path, among the routes of the start.
  unfoldable pub dispatch : List (Text × Handler) → Text → Request → Chances → App E → Outcome E
  unfolding handle_at route
  dispatch routes path r c a = handle_at (route routes path) r c a

  -- The answer is lost to a panic that comes after it.
  unfoldable pub lost : Outcome E → Outcome E
  lost none = none
  lost (some (answer, a)) = some (panics, a)

  -- The handler that listens: the mux in `MetricsMiddleware`, which panics behind the handler if
  -- `WithLabelValues` does.
  unfoldable pub serve : List (Text × Handler) → Text → Request → Chances → App E → Outcome E
  unfolding dispatch lost
  serve routes path r c a =
      if passes E path then dispatch routes path r c a else lost (dispatch routes path r c a)
